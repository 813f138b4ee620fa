-- ===== src/Ledger/Trading/Fills.antt =====
-- backend/ledger_service/service/trading.py: the fills of a cascade are the planned ones, each written at the `q`
-- that it was planned at.
use cs.Base.{
  ℕ, ◌≡◌, refl, false, some, List, [], ◌∷◌, ◌==◌, ◌&&◌, Option-cases, Bool-cases, inl, inr, sym,
  ◌∙◌, ap, arith, ok, All, >>=-eq-ok, ok_injective, subst, ==→eq, ==-refl,
}
use cs.Ledger.Orders.{RestingOrder}
use cs.Ledger.Rows.{Order}
use cs.Ledger.Reservations.{is_open}
use cs.Ledger.BookPrices.{index_of}
use cs.Ledger.Trading.Filling.{
  list_open_orders, resting_order_of, resting_orders_of, order_by_seq, write_by_seq,
}

-- `seq` is unique in the table of orders.
abbrev pub HasOwnSeqs : List Order → Type 0
HasOwnSeqs [] = Unit
HasOwnSeqs (o ∷ rest) = All (λ (x : Order). (o.seq == x.seq) ≡ false) rest × HasOwnSeqs rest

open_orders-All :
    (P : Order → Type 0) (orders : List Order) (m : ℕ)
    → All P orders
    → All P (list_open_orders orders m)
unfolding list_open_orders
open_orders-All P [] m h = tt
open_orders-All P (o ∷ rest) m h = elim (Bool-cases (o.market_id == m && is_open o.status)) [
  | inl e ↦ rw e (h.0, open_orders-All P rest m h.1)
  | inr e ↦ rw e (open_orders-All P rest m h.1)
]

pub open_orders-HasOwnSeqs :
    (orders : List Order) (m : ℕ) → HasOwnSeqs orders → HasOwnSeqs (list_open_orders orders m)
unfolding list_open_orders
open_orders-HasOwnSeqs [] m h = tt
open_orders-HasOwnSeqs (o ∷ rest) m h = elim (Bool-cases (o.market_id == m && is_open o.status)) [
  | inl e ↦ rw e (open_orders-All _ rest m h.0, open_orders-HasOwnSeqs rest m h.1)
  | inr e ↦ rw e (open_orders-HasOwnSeqs rest m h.1)
]

pub open_orders-market :
    (orders : List Order) (m : ℕ) → All (λ (o : Order). o.market_id ≡ m) (list_open_orders orders m)
unfolding list_open_orders
open_orders-market [] m = tt
open_orders-market (o ∷ rest) m = elim (Bool-cases (o.market_id == m && is_open o.status)) [
  | inl e ↦
      let own : o.market_id ≡ m = ground (arith, ==→eq o.market_id m) in
      rw e (own, open_orders-market rest m)
  | inr e ↦ rw e (open_orders-market rest m)
]

-- The row that a resting order was read from
pub record IsResting (orders : List Order) (ids : List ℕ) (m : ℕ) (r : RestingOrder) : Type 0 where
  pub row : Order
  pub by_seq : order_by_seq orders r.seq ≡ ok row
  pub place : index_of row.outcome_id ids ≡ some r.outcome_index
  pub side : row.side ≡ r.side
  pub market : row.market_id ≡ m

-- What `resting_order_of` reads off its row
record IsReadFrom (o : Order) (ids : List ℕ) (r : RestingOrder) : Type 0 where
  same_seq : r.seq ≡ o.seq
  same_side : o.side ≡ r.side
  place : index_of o.outcome_id ids ≡ some r.outcome_index

resting_order_of-IsReadFrom :
    (o : Order) (ids : List ℕ) {r : RestingOrder}
    → resting_order_of o ids ≡ ok r
    → IsReadFrom o ids r
unfolding resting_order_of
resting_order_of-IsReadFrom o ids h = elim (Option-cases (index_of o.outcome_id ids)) [
  | inl e ↦ absurd (let refused = rw (e, resting_order_of) at h in cc)
  | inr (i, e) ↦
      let same = ok_injective (rw (e, resting_order_of) at h) in
      record {
        same_seq = ap (λ (x : RestingOrder). x.seq) (sym same);
        same_side = ap (λ (x : RestingOrder). x.side) same;
        place = e ∙ ap (λ (x : RestingOrder). some x.outcome_index) same;
      }
]

resting_orders_of-apart :
    (s : ℕ) (orders : List Order) (ids : List ℕ) {rs : List RestingOrder}
    → All (λ (x : Order). (s == x.seq) ≡ false) orders
    → resting_orders_of orders ids ≡ ok rs
    → All (λ (r : RestingOrder). (s == r.seq) ≡ false) rs
unfolding resting_orders_of
resting_orders_of-apart s [] ids apart h = subst (All _) (ok_injective h) tt
resting_orders_of-apart s (o ∷ rest) ids apart h =
    let (r, read, h₁) = >>=-eq-ok (resting_order_of o ids) _ h in
    let (others, reads, h₂) = >>=-eq-ok (resting_orders_of rest ids) _ h₁ in
    let first = resting_order_of-IsReadFrom o ids read in
    subst (All _) (ok_injective h₂)
      (rw first.same_seq apart.0, resting_orders_of-apart s rest ids apart.1 reads)

IsResting-behind :
    (o : Order) (rest : List Order) (ids : List ℕ) (m : ℕ) (rs : List RestingOrder)
    → All (λ (r : RestingOrder). (o.seq == r.seq) ≡ false) rs
    → All (IsResting rest ids m) rs
    → All (IsResting (o ∷ rest) ids m) rs
unfolding order_by_seq
IsResting-behind o rest ids m [] apart h = tt
IsResting-behind o rest ids m (r ∷ rs) apart h = (
  record {
    row = h.0.row;
    by_seq = rw apart.0 h.0.by_seq;
    place = h.0.place;
    side = h.0.side;
    market = h.0.market;
  },
  IsResting-behind o rest ids m rs apart.1 h.1,
)

pub resting_orders_of-IsResting :
    (orders : List Order) (ids : List ℕ) (m : ℕ) {rs : List RestingOrder}
    → HasOwnSeqs orders
    → All (λ (o : Order). o.market_id ≡ m) orders
    → resting_orders_of orders ids ≡ ok rs
    → All (IsResting orders ids m) rs
unfolding resting_orders_of order_by_seq
resting_orders_of-IsResting [] ids m own markets h = subst (All _) (ok_injective h) tt
resting_orders_of-IsResting (o ∷ rest) ids m own markets h =
    let (r, read, h₁) = >>=-eq-ok (resting_order_of o ids) _ h in
    let (others, reads, h₂) = >>=-eq-ok (resting_orders_of rest ids) _ h₁ in
    let first = resting_order_of-IsReadFrom o ids read in
    subst (All _) (ok_injective h₂) (
      record {
        row = o;
        by_seq = rw (first.same_seq, ==-refl o.seq) refl;
        place = first.place;
        side = first.same_side;
        market = markets.0;
      },
      IsResting-behind o rest ids m others (resting_orders_of-apart o.seq rest ids own.0 reads)
          (resting_orders_of-IsResting rest ids m own.1 markets.1 reads),
    )

-- A row is written over the row of its `seq`.
write_by_seq-apart :
    (s : ℕ) (new : Order) (orders : List Order)
    → All (λ (x : Order). (s == x.seq) ≡ false) orders
    → All (λ (x : Order). (s == x.seq) ≡ false) (write_by_seq new orders)
unfolding write_by_seq
write_by_seq-apart s new [] h = tt
write_by_seq-apart s new (o ∷ rest) h = elim (Bool-cases (o.seq == new.seq)) [
  | inl e ↦ rw e (rw (sym (==→eq o.seq new.seq e)) h.0, h.1)
  | inr e ↦ rw e (h.0, write_by_seq-apart s new rest h.1)
]

pub write_by_seq-HasOwnSeqs :
    (new : Order) (orders : List Order) → HasOwnSeqs orders → HasOwnSeqs (write_by_seq new orders)
unfolding write_by_seq
write_by_seq-HasOwnSeqs new [] h = tt
write_by_seq-HasOwnSeqs new (o ∷ rest) h = elim (Bool-cases (o.seq == new.seq)) [
  | inl e ↦
      rw e (
        subst (λ s. All (λ (x : Order). (s == x.seq) ≡ false) rest) (==→eq o.seq new.seq e) h.0,
        h.1,
      )
  | inr e ↦ rw e (write_by_seq-apart o.seq new rest h.0, write_by_seq-HasOwnSeqs new rest h.1)
]
