-- ===== src/Ledger/Orders/Crossing.antt =====
-- The crossing check against the orders themselves, without the nearest threshold.
use cs.Base.{
  ℕ, ◌≡◌, refl, ◌≢◌, inl, inr, ◌↔◌, Bool, true, false, List, [], ◌∷◌, All, arith, ok, raise_if,
  Bool-cases,
}
use cs.Base.Int.{ℤ, pos, ◌<ℤ◌, ltb_ℤ, leb_ℤ}
use cs.Ledger.Pricing.{Side}
use cs.Ledger.Orders.{
  RestingOrder, is_up_pusher, threshold_of, pushes_up, threshold, bool_eq, opposing_thresholds,
  minimum, maximum, crosses, refuse_if_crosses_book,
}

-- On outcome 0's price line, a limit that pushes the price up stays below the other.
abbrev pub IsClearOf : Bool → ℤ → ℤ → Type 0
IsClearOf true limit other = limit <ℤ other
IsClearOf false limit other = other <ℤ limit

minimum-above :
    (limit low : ℤ) (xs : List ℤ)
    → leb_ℤ (minimum low xs) limit ≡ false
    → (limit <ℤ low) × All (λ x. limit <ℤ x) xs
unfolding minimum
minimum-above limit low [] h = (ground arith, tt)
minimum-above limit low (x ∷ xs) h = elim (Bool-cases (ltb_ℤ x low)) [
  | inl less ↦ let (a, rest) = minimum-above limit x xs (rw less at h) in (ground arith, (a, rest))
  | inr more ↦
      let (a, rest) = minimum-above limit low xs (rw more at h) in (a, (ground arith, rest))
]

above-minimum :
    (limit low : ℤ) (xs : List ℤ)
    → limit <ℤ low
    → All (λ x. limit <ℤ x) xs
    → leb_ℤ (minimum low xs) limit ≡ false
unfolding minimum
above-minimum limit low [] a rest = ground arith
above-minimum limit low (x ∷ xs) a rest = elim (Bool-cases (ltb_ℤ x low)) [
  | inl less ↦ rw less (above-minimum limit x xs rest.0 rest.1)
  | inr more ↦ rw more (above-minimum limit low xs a rest.1)
]

maximum-below :
    (limit top : ℤ) (xs : List ℤ)
    → leb_ℤ limit (maximum top xs) ≡ false
    → (top <ℤ limit) × All (λ x. x <ℤ limit) xs
unfolding maximum
maximum-below limit top [] h = (ground arith, tt)
maximum-below limit top (x ∷ xs) h = elim (Bool-cases (ltb_ℤ top x)) [
  | inl more ↦ let (a, rest) = maximum-below limit x xs (rw more at h) in (ground arith, (a, rest))
  | inr less ↦
      let (a, rest) = maximum-below limit top xs (rw less at h) in (a, (ground arith, rest))
]

below-maximum :
    (limit top : ℤ) (xs : List ℤ)
    → top <ℤ limit
    → All (λ x. x <ℤ limit) xs
    → leb_ℤ limit (maximum top xs) ≡ false
unfolding maximum
below-maximum limit top [] a rest = ground arith
below-maximum limit top (x ∷ xs) a rest = elim (Bool-cases (ltb_ℤ top x)) [
  | inl more ↦ rw more (below-maximum limit x xs rest.0 rest.1)
  | inr less ↦ rw less (below-maximum limit top xs a rest.1)
]

crosses→ :
    (up : Bool) (limit : ℤ) (xs : List ℤ)
    → crosses up limit xs ≡ false
    → All (IsClearOf up limit) xs
unfolding crosses
crosses→ up limit [] h = tt
crosses→ true limit (x ∷ xs) h = minimum-above limit x xs h
crosses→ false limit (x ∷ xs) h = maximum-below limit x xs h

crosses← :
    (up : Bool) (limit : ℤ) (xs : List ℤ)
    → All (IsClearOf up limit) xs
    → crosses up limit xs ≡ false
unfolding crosses
crosses← up limit [] h = refl
crosses← true limit (x ∷ xs) h = above-minimum limit x xs h.0 h.1
crosses← false limit (x ∷ xs) h = below-maximum limit x xs h.0 h.1

bool_eq→eq : (a b : Bool) → bool_eq a b ≡ true → a ≡ b
unfolding bool_eq
bool_eq→eq a b h = ground arith

bool_eq→ne : (a b : Bool) → bool_eq a b ≡ false → a ≢ b
unfolding bool_eq
bool_eq→ne a b h = ground arith

-- An open order that pushes the other way is clear of the new order's limit.
abbrev pub IsUncrossed : Bool → ℤ → RestingOrder → Type 0
IsUncrossed up limit o = pushes_up o ≢ up → IsClearOf up limit (threshold o)

opposing→ :
    (up : Bool) (limit : ℤ) (os : List RestingOrder)
    → All (IsClearOf up limit) (opposing_thresholds up os)
    → All (IsUncrossed up limit) os
unfolding opposing_thresholds
opposing→ up limit [] h = tt
opposing→ up limit (o ∷ rest) h = elim (Bool-cases (bool_eq (pushes_up o) up)) [
  | inl same ↦ (
    λ other. absurd (other (bool_eq→eq (pushes_up o) up same)),
    opposing→ up limit rest (rw same at h),
  )
  | inr opposite ↦ let (a, others) = rw opposite at h in (λ _. a, opposing→ up limit rest others)
]

opposing← :
    (up : Bool) (limit : ℤ) (os : List RestingOrder)
    → All (IsUncrossed up limit) os
    → All (IsClearOf up limit) (opposing_thresholds up os)
unfolding opposing_thresholds
opposing← up limit [] h = tt
opposing← up limit (o ∷ rest) h = elim (Bool-cases (bool_eq (pushes_up o) up)) [
  | inl same ↦ rw same (opposing← up limit rest h.1)
  | inr opposite ↦
      rw opposite (h.0 (bool_eq→ne (pushes_up o) up opposite), opposing← up limit rest h.1)
]

-- A new limit is accepted exactly when, on outcome 0's price line, it is strictly on its own side of
-- every open order that pushes the price the other way: below each of those if it pushes the price
-- up, above each if it pushes it down.
pub refuse_if_crosses_book-IsUncrossed :
    (open_orders : List RestingOrder) (outcome_index : ℕ) (side : Side) (limit_price : ℕ)
    → let up = is_up_pusher outcome_index side in
      let limit = threshold_of outcome_index (pos limit_price) in
      (refuse_if_crosses_book open_orders outcome_index side limit_price ≡ ok tt)
      ↔ All (IsUncrossed up limit) open_orders
unfolding refuse_if_crosses_book raise_if
refuse_if_crosses_book-IsUncrossed open_orders outcome_index side limit_price =
    let up = is_up_pusher outcome_index side in
    let limit = threshold_of outcome_index (pos limit_price) in
    let against = opposing_thresholds up open_orders in
    (
      λ h. opposing→ up limit open_orders (crosses→ up limit against (ground arith)),
      λ h. rw (crosses← up limit against (opposing← up limit open_orders h)) refl,
    )
