-- ===== src/Ledger/Pricing.antt =====
-- backend/ledger_service/core/pricing.py: rounding a cost to what the ledger stores, pricing one
-- trade, valuing holdings as a sequence of sales, and releasing a sale's cost basis.
pub mod Rounding
pub mod Basis
use cs.Base.{
  ℕ, suc, ◌+◌, ◌-◌, ◌*◌, ◌/◌, ◌^◌, Bool, true, false, not, Option, none, some, List, [], ◌∷◌,
  length, get_elem?, get_or, set, replicate, ltb, leb, ◌==◌, ◌&&◌, ◌||◌, if◌then◌else◌, Outcome, ok,
  err, ◌>>=◌, ◌>>◌, raise_if,
}
use cs.Base.Int.{ℤ, pos, ◌+ℤ◌, neg, ltb_ℤ, leb_ℤ, eqb_ℤ}
use cs.Ledger.Lmsr.{
  Engine, PricingError, negative_magnitude, no_such_outcome, bad_quantity, cost_below_tick,
  proceeds_below_tick, quantity_too_large, insufficient_shares_outstanding, add_each, cost_to_trade,
}

pub data Side : Type 0 where
  buy sell : Side

unfoldable pub is_buy : Side → Bool
is_buy buy = true
is_buy sell = false

-- 99999999999999.9999 in ticks.
abbrev pub max_magnitude : ℤ
max_magnitude = pos (10 ^ 18 - 1)

pub record TradeCost : Type 0 where
  pub after_q : List ℤ
  pub magnitude : ℤ
  pub total : ℤ

-- `raise CostBelowTick if side is Side.BUY else ProceedsBelowTick`
unfoldable pub below_tick : Side → PricingError
below_tick buy = cost_below_tick
below_tick sell = proceeds_below_tick

-- A trade's change of its own outcome.
unfoldable pub signed : Side → ℕ → ℤ
signed buy quantity = pos quantity
signed sell quantity = neg (pos quantity)

unfoldable pub total_of : Side → ℤ → ℤ
total_of buy magnitude = neg magnitude
total_of sell magnitude = magnitude

-- Only a sale is held to what is outstanding.
unfoldable pub refuse_oversold : Side → ℕ → ℤ → Outcome PricingError Unit
refuse_oversold buy quantity outstanding = ok tt
refuse_oversold sell quantity outstanding =
    raise_if (ltb_ℤ outstanding (pos quantity)) insufficient_shares_outstanding

-- `q[index]`, which raises past the end
unfoldable pub at : List ℤ → ℕ → Outcome PricingError ℤ
at q index = elim (get_elem? q index) [ none ↦ err no_such_outcome | some x ↦ ok x ]

module _ (e : Engine) where
  open e use {Num, of_ticks, less, ceil_ticks, floor_ticks, half_up_ticks, copy_abs}

  unfoldable pub quantize_price : Num → ℤ
  quantize_price price = half_up_ticks price

  unfoldable pub rounded : Side → Num → ℤ
  rounded buy magnitude = ceil_ticks magnitude
  rounded sell magnitude = floor_ticks magnitude

  unfoldable pub quantize_cost : Num → Side → Outcome PricingError ℤ
  unfolding rounded
  quantize_cost magnitude side = do
    raise_if (less magnitude (of_ticks (pos 0))) negative_magnitude
    let quantized = rounded side magnitude
    raise_if (eqb_ℤ quantized (pos 0)) (below_tick side)
    ok quantized

  unfoldable pub trade_cost_of : List ℤ → ℤ → ℕ → Side → ℕ → Outcome PricingError TradeCost
  trade_cost_of q b index side quantity = do
    outstanding ← at q index
    refuse_oversold side quantity outstanding
    let delta = set (replicate (length q) (pos 0)) index (signed side quantity)
    let after_q = add_each q delta
    moved ← at after_q index
    raise_if (ltb_ℤ max_magnitude moved) quantity_too_large
    change ← cost_to_trade e q b delta
    let raw = copy_abs change
    raise_if (less (of_ticks max_magnitude) raw) quantity_too_large
    magnitude ← quantize_cost raw side
    ok (record { after_q = after_q; magnitude = magnitude; total = total_of side magnitude })

  -- `except ProceedsBelowTick`: the sale is valued at nothing and leaves `q` alone.
  abbrev sale_or_nothing :
      List ℤ → Outcome PricingError TradeCost → Outcome PricingError (ℤ × List ℤ)
  sale_or_nothing current (ok cost) = ok (cost.magnitude, cost.after_q)
  sale_or_nothing current (err proceeds_below_tick) = ok (pos 0, current)
  sale_or_nothing current (err other) = err other

  sales_from : ℕ → List ℤ → ℤ → List ℕ → Outcome PricingError (List ℤ)
  sales_from index current b [] = ok []
  sales_from index current b (held ∷ rest) = elim (held == 0) [
    | true ↦ sales_from (suc index) current b rest >>= (λ values. ok (pos 0 ∷ values))
    | false ↦
        sale_or_nothing current (trade_cost_of current b index sell held) >>= (λ (value, after).
          sales_from (suc index) after b rest >>= (λ values. ok (value ∷ values)))
  ]

  unfoldable pub liquidation_values_of : List ℤ → ℤ → List ℕ → Outcome PricingError (List ℤ)
  unfolding sales_from
  liquidation_values_of q b holdings = sales_from 0 q b holdings

  unfoldable pub per_share : ℤ → ℕ → Outcome PricingError ℤ
  unfolding quantize_price
  per_share amount quantity = do
    raise_if (quantity == 0) bad_quantity
    ok (quantize_price (e.div (of_ticks amount) (of_ticks (pos quantity))))

-- n / d rounded half up. Fifty digits hold the quotient of two column values far past the tick, so
-- rounding it first at the engine's precision changes no tick.
unfoldable pub half_up_div : ℕ → ℕ → ℕ
half_up_div n d = (2 * n + d) / (2 * d)

-- The released and the remaining cost basis of a sale, which are never negative.
unfoldable pub release_basis : ℕ → ℕ → ℕ → Outcome PricingError (ℕ × ℕ)
unfolding half_up_div
release_basis basis held quantity = do
  raise_if (not (ltb 0 quantity && leb quantity held)) bad_quantity
  if quantity == held then ok (basis, 0) else (do
    let remaining = half_up_div (basis * (held - quantity)) held
    ok (basis - remaining, remaining))
