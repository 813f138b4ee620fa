-- ===== src/Ledger/Posting/Drops.antt =====
-- The reservation drops of a batch in backend/ledger_service/service/posting.py: what the walk takes off
-- a user's floor is in the sum that the floors start with.
use cs.Base.{
  ℕ, zero, suc, ap, ◌+◌, ◌*◌, ◌/◌, ◌^◌, ◌-◌, ◌≡◌, refl, Bool, true, false, List, [], ◌∷◌, ◌==◌,
  ◌||◌, any, if◌then◌else◌, arith, Bool-cases, inl, inr, ==→eq, ◌∙◌,
}
use native.Mathlib.Nat.{div-eq_of_lt}
use cs.Base.Int.{ℤ, pos, ◌+ℤ◌, ◌≤ℤ◌, ◌*ℤ◌, int_laws}
use cs.Base.Dict.{Dict, lookup-insert, member}
use cs.Base.Decimal.{Decimal, quantize, half_up, is_zero, is_negative}
use cs.Ledger.Rows.{Account}
use cs.Ledger.Posting.Legs.{
  Leg, Movement, net_by_account, is_user, user_account_ids_of, users_from, add_to_set,
  has_malformed_drop, is_malformed_for, quantized_legs,
}
use cs.Ledger.Posting.Floors.{or_zero, drop_of, add_drop, drops_by_account}
use cs.Ledger.Posting.Nets.{taken, taken_of_batch, taken-net_by_account, names, taken-unnamed}
use cs.Ledger.Posting.{batch_legs}

pub parts_of_or : (a b : Bool) → (a || b) ≡ false → (a ≡ false) × (b ≡ false)
parts_of_or a b h = ground arith

quantize_nonneg : (a : Decimal) → is_negative a ≡ false → pos 0 ≤ℤ quantize a
unfolding quantize half_up ◌*ℤ◌
quantize_nonneg a h = ground arith

half_of_none : (d : ℕ) → (2 * 0 + d) / (2 * d) ≡ 0
half_of_none zero = refl
half_of_none (suc d) = div-eq_of_lt (omega arith)

half_up_zero : (n : ℤ) (d : ℕ) → n ≡ pos 0 → half_up n d ≡ pos 0
unfolding half_up
half_up_zero n d h = rw h (ap pos (half_of_none d))

quantize_zero : (a : Decimal) → is_zero a ≡ true → quantize a ≡ pos 0
unfolding quantize ◌*ℤ◌
quantize_zero a h = ground (arith, half_up_zero a.coefficient (10 ^ (a.places - 4)))

pub malformed_drop :
    (account : ℕ → Account) (m : Movement)
    → has_malformed_drop account m ≡ false
    → pos 0 ≤ℤ quantize m.reservation_drop
unfolding has_malformed_drop
malformed_drop account m h =
    ground (arith, quantize_nonneg m.reservation_drop, quantize_zero m.reservation_drop)

names-quantized_legs :
    (j : ℕ) (legs : List (Leg Decimal)) → names j (quantized_legs legs) ≡ names j legs
unfolding quantized_legs
names-quantized_legs j [] = refl
names-quantized_legs j (leg ∷ rest) = rw (names-quantized_legs j rest) refl

pub add_to_set-member :
    (j x : ℕ) (xs : List ℕ) → member j (add_to_set x xs) ≡ ((x == j) || member j xs)
unfolding add_to_set member
add_to_set-member j x [] = ground arith
add_to_set-member j x (y ∷ ys) = grind (arith, add_to_set-member j x ys)

module _ (account : ℕ → Account) {A : Type 0} where
  users_kept :
      (j : ℕ) (found : List ℕ) (legs : List (Leg A))
      → member j found ≡ true
      → member j (users_from account found legs) ≡ true
  unfolding users_from
  users_kept j found [] h = h
  users_kept j found (leg ∷ rest) h = elim (Bool-cases (is_user (account leg.account_id).kind)) [
    | inl e ↦ rw e (
        users_kept j (add_to_set leg.account_id found) rest
          (grind (arith, add_to_set-member j leg.account_id found)))
    | inr e ↦ rw e (users_kept j found rest h)
  ]

  users_named :
      (j : ℕ) (legs : List (Leg A)) (found : List ℕ)
      → is_user (account j).kind ≡ true
      → names j legs ≡ true
      → member j (users_from account found legs) ≡ true
  unfolding users_from
  users_named j [] found user h = absurd cc
  users_named j (leg ∷ rest) found user h = elim (Bool-cases (leg.account_id == j)) [
    | inl e ↦
        let same = ==→eq leg.account_id j e in
        rw (same, user)
          (users_kept j (add_to_set j found) rest (grind (arith, add_to_set-member j j found)))
    | inr e ↦ users_named j rest _ user (rw e at h)
  ]

drop_of-add_drop :
    (j a : ℕ) (dropped : ℤ) (d : Dict ℤ)
    → drop_of (add_drop d (a ∷ []) dropped) j ≡ drop_of d j +ℤ (if a == j then dropped else pos 0)
drop_of-add_drop j a dropped d =
    ap or_zero (lookup-insert j a (drop_of d a +ℤ dropped) d) ∙ elim (Bool-cases (a == j)) [
      | inl e ↦ let same = ==→eq a j e in rw (e, same) refl
      | inr e ↦ rw e (grind int_laws)
    ]

single_user :
    (m : Movement) (users : List ℕ) → is_malformed_for m users ≡ false → (a : ℕ) × (users ≡ a ∷ [])
single_user m [] h = absurd cc
single_user m (a ∷ []) h = (a, refl)
single_user m (a ∷ b ∷ rest) h = absurd cc

users-single :
    (account : ℕ → Account) (m : Movement) (j : ℕ) {a : ℕ}
    → is_user (account j).kind ≡ true
    → names j m.legs ≡ true
    → user_account_ids_of account m.legs ≡ a ∷ []
    → (a == j) ≡ true
unfolding user_account_ids_of member
users-single account m j user named single =
    let among = users_named account j m.legs [] user named in grind (arith, rw single at among)

users-of_drop :
    (account : ℕ → Account) (m : Movement)
    → is_zero m.reservation_drop ≡ false
    → has_malformed_drop account m ≡ false
    → (a : ℕ) × (user_account_ids_of account m.legs ≡ a ∷ [])
unfolding has_malformed_drop
users-of_drop account m real malformed =
    single_user m (user_account_ids_of account m.legs) (ground (arith, rw real at malformed))

-- What one movement takes off the floor of `j`, its drop has added to the sum.
module _ (account : ℕ → Account) (j : ℕ) (user : is_user (account j).kind ≡ true) where
  taken_below :
      (m : Movement) (a : ℕ)
      → pos 0 ≤ℤ quantize m.reservation_drop
      → user_account_ids_of account m.legs ≡ a ∷ []
      → taken j (quantize m.reservation_drop) (net_by_account ◌+ℤ◌ (quantized_legs m.legs))
        ≤ℤ (if a == j then quantize m.reservation_drop else pos 0)
  taken_below m a nonneg single =
      let bounded =
        taken-net_by_account j (quantize m.reservation_drop) (quantized_legs m.legs) nonneg in
      elim (Bool-cases (names j m.legs)) [
        | inl named ↦ rw (users-single account m j user named single) bounded
        | inr unnamed ↦
            rw
              (taken-unnamed j (quantize m.reservation_drop) (quantized_legs m.legs)
                (names-quantized_legs j m.legs ∙ unnamed))
              (ground (arith, nonneg))
      ]

  abbrev after_drop : Movement → Dict ℤ → Dict ℤ
  after_drop m d =
      if is_zero m.reservation_drop
      then d
      else add_drop d (user_account_ids_of account m.legs) (quantize m.reservation_drop)

  covered :
      (m : Movement) (d : Dict ℤ)
      → has_malformed_drop account m ≡ false
      → drop_of d j
          +ℤ taken j (quantize m.reservation_drop) (net_by_account ◌+ℤ◌ (quantized_legs m.legs))
        ≤ℤ drop_of (after_drop m d) j
  covered m d malformed =
      let nonneg = malformed_drop account m malformed in
      elim (Bool-cases (is_zero m.reservation_drop)) [
        | inl zero_drop ↦
            let none_taken = quantize_zero m.reservation_drop zero_drop in
            let bounded =
              taken-net_by_account j (quantize m.reservation_drop) (quantized_legs m.legs) nonneg in
            rw zero_drop (grind (int_laws, none_taken, bounded))
        | inr real ↦
            let (a, single) = users-of_drop account m real malformed in
            let added = drop_of-add_drop j a (quantize m.reservation_drop) d in
            rw (real, single, added) (grind (int_laws, taken_below m a nonneg single))
      ]

  pub drops-cover :
      (movements : List Movement) (d : Dict ℤ)
      → any (has_malformed_drop account) movements ≡ false
      → drop_of d j +ℤ taken_of_batch j (batch_legs movements)
        ≤ℤ drop_of (drops_by_account account d (batch_legs movements)) j
  unfolding drops_by_account taken_of_batch batch_legs
  drops-cover [] d h = grind int_laws
  drops-cover (m ∷ rest) d h =
      let (one, others) = parts_of_or _ _ h in
      let first = covered m d one in
      let later = drops-cover rest (after_drop m d) others in grind (int_laws, first, later)
