-- ===== src/Ledger/Orders/Priority.antt =====
-- backend/ledger_service/core/limit_orders.py: the order in which a cascade tries the waiting orders.
use mathlib.Core.List.{Perm}
use mathlib.Core.List.Perm
use cs.Base.{◌≡◌, inl, inr, true, false, List, [], ◌∷◌, All, arith, Bool-cases}
use cs.Ledger.Orders.{RestingOrder, is_before, insert_order, sort_orders}

-- Every order is before, or level with, each one after it.
abbrev pub IsSorted : List RestingOrder → Type 0
IsSorted [] = Unit
IsSorted (o ∷ rest) = All (λ x. is_before o x ≡ true) rest × IsSorted rest

is_before-total : (a b : RestingOrder) → is_before a b ≡ false → is_before b a ≡ true
unfolding is_before
is_before-total a b h = ground arith

is_before_trans :
    (a b c : RestingOrder) → is_before a b ≡ true → is_before b c ≡ true → is_before a c ≡ true
unfolding is_before
is_before_trans a b c hab hbc = ground arith

insert_order-Perm : (o : RestingOrder) (l : List RestingOrder) → Perm (insert_order o l) (o ∷ l)
unfolding insert_order
insert_order-Perm o [] = Perm.rfl
insert_order-Perm o (x ∷ xs) = elim (Bool-cases (is_before o x)) [
  | inl before ↦ rw before Perm.rfl
  | inr after ↦ rw after (Perm.trans (Perm.cons x (insert_order-Perm o xs)) (Perm.swap o x xs))
]

pub sort_orders-Perm : (l : List RestingOrder) → Perm (sort_orders l) l
unfolding sort_orders
sort_orders-Perm [] = Perm.rfl
sort_orders-Perm (o ∷ rest) =
    Perm.trans (insert_order-Perm o (sort_orders rest)) (Perm.cons o (sort_orders-Perm rest))

insert_order-All :
    (P : RestingOrder → Type 0) (o : RestingOrder) (l : List RestingOrder)
    → P o
    → All P l
    → All P (insert_order o l)
unfolding insert_order
insert_order-All P o [] po pl = (po, tt)
insert_order-All P o (x ∷ xs) po (px, pxs) = elim (Bool-cases (is_before o x)) [
  | inl before ↦ rw before (po, (px, pxs))
  | inr after ↦ rw after (px, insert_order-All P o xs po pxs)
]

All-later :
    (o x : RestingOrder) (l : List RestingOrder)
    → is_before o x ≡ true
    → All (λ y. is_before x y ≡ true) l
    → All (λ y. is_before o y ≡ true) l
All-later o x [] h hl = tt
All-later o x (y ∷ l) h (hy, hl) = (is_before_trans o x y h hy, All-later o x l h hl)

insert_order-IsSorted :
    (o : RestingOrder) (l : List RestingOrder) → IsSorted l → IsSorted (insert_order o l)
unfolding insert_order
insert_order-IsSorted o [] h = (tt, tt)
insert_order-IsSorted o (x ∷ xs) (hx, hxs) = elim (Bool-cases (is_before o x)) [
  | inl before ↦ rw before ((before, All-later o x xs before hx), (hx, hxs))
  | inr after ↦ rw after (
    insert_order-All (λ y. is_before x y ≡ true) o xs (is_before-total o x after) hx,
    insert_order-IsSorted o xs hxs,
  )
]

pub sort_orders-All :
    (P : RestingOrder → Type 0) (l : List RestingOrder) → All P l → All P (sort_orders l)
unfolding sort_orders
sort_orders-All P [] h = tt
sort_orders-All P (o ∷ rest) h =
    insert_order-All P o (sort_orders rest) h.0 (sort_orders-All P rest h.1)

pub sort_orders-IsSorted : (l : List RestingOrder) → IsSorted (sort_orders l)
unfolding sort_orders
sort_orders-IsSorted [] = tt
sort_orders-IsSorted (o ∷ rest) =
    insert_order-IsSorted o (sort_orders rest) (sort_orders-IsSorted rest)
