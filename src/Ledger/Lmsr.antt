-- ===== src/Ledger/Lmsr.antt =====
-- backend/ledger_service/core/lmsr.py: the cost function of the market maker and its prices, over
-- the arithmetic of Python's `decimal` at the engine's fifty digits, which is a parameter: `exp`,
-- `ln` and the rounding of every operation are the library's.
use cs.Base.{
  ℕ, ◌≡◌, Bool, false, List, [], ◌∷◌, map, length, ltb, if◌then◌else◌, Outcome, ok, ◌>>=◌, ◌>>◌,
  raise_if, ◌==◌, not,
}
use cs.Base.Int.{ℤ, pos, ◌+ℤ◌, leb_ℤ, ◌≤ℤ◌}

-- `decimal` in the engine's context. `of_ticks n` is the exact value n / 10000, and the three
-- roundings are `quantize(QUANTUM, rounding=...)` as a count of ticks.
pub record Engine : Type 1 where
  pub Num : Type 0
  pub of_ticks : ℤ → Num
  pub add : Num → Num → Num
  pub sub : Num → Num → Num
  pub mul : Num → Num → Num
  pub div : Num → Num → Num
  pub exp : Num → Num
  pub ln : Num → Num
  pub copy_abs : Num → Num
  pub less : Num → Num → Bool
  pub ceil_ticks : Num → ℤ
  pub floor_ticks : Num → ℤ
  pub half_up_ticks : Num → ℤ

-- What `decimal` documents of `copy_abs` and of the directed roundings.
pub record IsDecimal (e : Engine) : Type 0 where
  pub abs_nonneg : (x : e.Num) → e.less (e.copy_abs x) (e.of_ticks (pos 0)) ≡ false
  -- The ceiling is not below the number, and is the least such count of ticks.
  pub ceil_above : (x : e.Num) → e.less (e.of_ticks (e.ceil_ticks x)) x ≡ false
  pub ceil_least : (x : e.Num) (n : ℤ) → e.less (e.of_ticks n) x ≡ false → e.ceil_ticks x ≤ℤ n
  pub ceil_nonneg : (x : e.Num) → e.less x (e.of_ticks (pos 0)) ≡ false → pos 0 ≤ℤ e.ceil_ticks x
  -- The floor is not above the number, and is the greatest such count of ticks.
  pub floor_below : (x : e.Num) → e.less x (e.of_ticks (e.floor_ticks x)) ≡ false
  pub floor_least : (x : e.Num) (n : ℤ) → e.less (e.of_ticks n) x ≡ false → e.floor_ticks x ≤ℤ n
  pub floor_nonneg : (x : e.Num) → e.less x (e.of_ticks (pos 0)) ≡ false → pos 0 ≤ℤ e.floor_ticks x

-- The `ValueError`s of this module and of pricing.py, Python's `IndexError`, and the refusals of
-- core/errors.py that a price can meet.
pub data PricingError : Type 0 where
  b_not_positive too_few_outcomes delta_not_every_outcome not_two_outcomes : PricingError
  negative_magnitude no_such_outcome bad_quantity : PricingError
  cost_below_tick proceeds_below_tick quantity_too_large : PricingError
  insufficient_shares_outstanding order_crosses_book : PricingError

abbrev pub min_outcomes : ℕ
min_outcomes = 2

unfoldable pub require_positive_b : ℤ → Outcome PricingError Unit
require_positive_b b = raise_if (leb_ℤ b (pos 0)) b_not_positive

unfoldable pub require_outcomes : List ℤ → Outcome PricingError Unit
require_outcomes q = raise_if (ltb (length q) min_outcomes) too_few_outcomes

-- `zip(q, delta)`, added
unfoldable pub add_each : List ℤ → List ℤ → List ℤ
add_each [] delta = []
add_each (x ∷ q) [] = []
add_each (x ∷ q) (d ∷ delta) = (x +ℤ d) ∷ add_each q delta

module _ (e : Engine) where
  open e use {Num, of_ticks, add, sub, mul, div, exp, ln, less}

  maximum : Num → List Num → Num
  maximum top [] = top
  maximum top (x ∷ xs) = maximum (if less top x then x else top) xs

  total : Num → List Num → Num
  total acc [] = acc
  total acc (x ∷ xs) = total (add acc x) xs

  unfoldable pub top_of : List Num → Num
  unfolding maximum
  top_of [] = of_ticks (pos 0)
  top_of (x ∷ xs) = maximum x xs

  unfoldable pub log_sum_exp : List Num → Num
  unfolding top_of total
  log_sum_exp scaled =
      let top = top_of scaled in
      add top (ln (total (of_ticks (pos 0)) (map (λ x. exp (sub x top)) scaled)))

  unfoldable pub cost : List ℤ → ℤ → Outcome PricingError Num
  unfolding log_sum_exp require_outcomes require_positive_b
  cost q b = do
    require_outcomes q
    require_positive_b b
    ok (mul (of_ticks b) (log_sum_exp (map (λ x. div (of_ticks x) (of_ticks b)) q)))

  unfoldable pub cost_to_trade : List ℤ → ℤ → List ℤ → Outcome PricingError Num
  unfolding cost add_each
  cost_to_trade q b delta = do
    require_outcomes q
    require_positive_b b
    raise_if (not (length delta == length q)) delta_not_every_outcome
    after ← cost (add_each q delta) b
    before ← cost q b
    ok (sub after before)

  unfoldable pub prices : List ℤ → ℤ → Outcome PricingError (List Num)
  unfolding top_of total require_outcomes require_positive_b
  prices q b = do
    require_outcomes q
    require_positive_b b
    let scaled = map (λ x. div (of_ticks x) (of_ticks b)) q
    let weights = map (λ x. exp (sub x (top_of scaled))) scaled
    ok (map (λ w. div w (total (of_ticks (pos 0)) weights)) weights)
