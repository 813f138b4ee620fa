-- ===== src/Ledger/Orders.antt =====
-- backend/ledger_service/core/limit_orders.py: the order's own side of the book, the crossing check,
-- one fill, and the cascade of fills that a trade sets off.
pub mod Crossing
pub mod Priority
pub mod Pass
pub mod Cascade
use cs.Base.{
  ℕ, zero, suc, ◌+◌, ◌-◌, ◌*◌, Bool, true, false, not, Option, none, some, List, [], ◌∷◌, length,
  get_elem?, ltb, leb, ◌==◌, ◌&&◌, ◌||◌, if◌then◌else◌, Outcome, ok, err, ◌>>=◌, ◌>>◌, raise_if,
  min,
}
use cs.Base.Int.{ℤ, pos, pos_part, ◌-ℤ◌, neg, ltb_ℤ, leb_ℤ, eqb_ℤ}
use cs.Ledger.Lmsr.{
  Engine, PricingError, not_two_outcomes, cost_below_tick, proceeds_below_tick, order_crosses_book,
}
use cs.Ledger.Pricing.{Side, buy, sell, is_buy, TradeCost, at, trade_cost_of}

abbrev pub binary_outcomes : ℕ
binary_outcomes = 2

-- One, as a price in ticks.
abbrev pub one_price : ℤ
one_price = pos 10000

-- Prices and quantities are unsigned: the table's CHECKs hold both above zero.
pub record RestingOrder : Type 0 where
  pub seq : ℕ
  pub outcome_index : ℕ
  pub side : Side
  pub limit_price : ℕ
  pub remaining : ℕ

pub record PlannedFill : Type 0 where
  pub order : RestingOrder
  pub quantity : ℕ
  pub cost : TradeCost

bool_eq : Bool → Bool → Bool
bool_eq true b = b
bool_eq false b = not b

unfoldable pub is_up_pusher : ℕ → Side → Bool
unfolding bool_eq is_buy
is_up_pusher outcome_index side = bool_eq (outcome_index == 0) (is_buy side)

unfoldable pub threshold_of : ℕ → ℤ → ℤ
threshold_of outcome_index limit_price =
    if outcome_index == 0 then limit_price else one_price -ℤ limit_price

abbrev pub pushes_up : RestingOrder → Bool
pushes_up o = is_up_pusher o.outcome_index o.side

abbrev pub threshold : RestingOrder → ℤ
threshold o = threshold_of o.outcome_index (pos o.limit_price)

-- The sort key: the threshold, negated for an up-pusher, and then the `seq`.
unfoldable pub priority_of : RestingOrder → ℤ × ℕ
priority_of o = if pushes_up o then (neg (threshold o), o.seq) else (threshold o, o.seq)

-- Python's order on the key, `<=`.
unfoldable pub is_before : RestingOrder → RestingOrder → Bool
unfolding priority_of
is_before a b =
    let (s, i) = priority_of a in let (t, j) = priority_of b in ltb_ℤ s t || (eqb_ℤ s t && leb i j)

-- `at_limit` is the exact product, at eight places, of the limit and the quantity.
unfoldable pub is_within_limit : RestingOrder → ℕ → TradeCost → Bool
unfolding is_buy
is_within_limit order quantity cost =
    let at_limit = pos (order.limit_price * quantity) in
    let charged = pos (10000 * pos_part cost.magnitude) in
    if is_buy order.side then leb_ℤ charged at_limit else leb_ℤ at_limit charged

-- The thresholds of the open orders that push the other way.
unfoldable pub opposing_thresholds : Bool → List RestingOrder → List ℤ
unfolding bool_eq
opposing_thresholds new_pushes_up [] = []
opposing_thresholds new_pushes_up (o ∷ rest) =
    let others = opposing_thresholds new_pushes_up rest in
    if bool_eq (pushes_up o) new_pushes_up then others else threshold o ∷ others

unfoldable pub minimum : ℤ → List ℤ → ℤ
minimum low [] = low
minimum low (x ∷ xs) = minimum (if ltb_ℤ x low then x else low) xs

unfoldable pub maximum : ℤ → List ℤ → ℤ
maximum top [] = top
maximum top (x ∷ xs) = maximum (if ltb_ℤ top x then x else top) xs

-- The nearest opposing threshold and whether the new order meets it.
unfoldable pub crosses : Bool → ℤ → List ℤ → Bool
unfolding minimum maximum
crosses new_pushes_up limit [] = false
crosses true limit (x ∷ xs) = leb_ℤ (minimum x xs) limit
crosses false limit (x ∷ xs) = leb_ℤ limit (maximum x xs)

-- The error's `bound` is left out: it is only shown.
unfoldable pub refuse_if_crosses_book : List RestingOrder → ℕ → Side → ℕ → Outcome PricingError Unit
refuse_if_crosses_book open_orders outcome_index side limit_price =
    let new_pushes_up = is_up_pusher outcome_index side in
    raise_if
      (crosses new_pushes_up (threshold_of outcome_index (pos limit_price))
        (opposing_thresholds new_pushes_up open_orders))
      order_crosses_book

-- A floored number of shares, capped at what the order has left.
unfoldable pub capped : ℤ → ℕ → ℕ
capped floored remaining = if leb_ℤ floored (pos 0) then 0 else min (pos_part floored) remaining

unfoldable pub insert_order : RestingOrder → List RestingOrder → List RestingOrder
insert_order o [] = o ∷ []
insert_order o (x ∷ xs) = if is_before o x then o ∷ x ∷ xs else x ∷ insert_order o xs

-- `sorted(orders, key=_priority_of)`
unfoldable pub sort_orders : List RestingOrder → List RestingOrder
unfolding insert_order
sort_orders [] = []
sort_orders (o ∷ rest) = insert_order o (sort_orders rest)

-- `except (CostBelowTick, ProceedsBelowTick): return None`
abbrev pub fill_or_none :
    RestingOrder → ℕ → Outcome PricingError TradeCost → Outcome PricingError (Option PlannedFill)
fill_or_none order quantity (err cost_below_tick) = ok none
fill_or_none order quantity (err proceeds_below_tick) = ok none
fill_or_none order quantity (err other) = err other
fill_or_none order quantity (ok cost) = ok (
    if is_within_limit order quantity cost
    then some (record { order = order; quantity = quantity; cost = cost })
    else none)

module _ (e : Engine) where
  open e use {of_ticks, sub, mul, div, ln, floor_ticks}

  -- `own` is the order's outcome and `other` the one beside it; a sale's shares are negated, which
  -- is exact.
  unfoldable pub fill_quantity_of : List ℤ → ℤ → RestingOrder → Outcome PricingError ℕ
  fill_quantity_of q b order = do
    raise_if (not (length q == binary_outcomes)) not_two_outcomes
    own ← at q order.outcome_index
    other ← at q (1 - order.outcome_index)
    let limit = of_ticks (pos order.limit_price)
    let odds = ln (div limit (sub (of_ticks one_price) limit))
    let shares = sub (mul (of_ticks b) odds) (sub (of_ticks own) (of_ticks other))
    let to_limit = if is_buy order.side then shares else sub (of_ticks (pos 0)) shares
    ok (capped (floor_ticks to_limit) order.remaining)

  unfoldable pub executable_fill_of :
      List ℤ → ℤ → RestingOrder → Outcome PricingError (Option PlannedFill)
  executable_fill_of q b order = do
    quantity ← fill_quantity_of q b order
    if quantity == 0
        then ok none
        else fill_or_none order quantity
            (trade_cost_of e q b order.outcome_index order.side quantity)

  -- The pass over the waiting orders: the first executable fill, and the orders without it.
  unfoldable pub next_fill :
      List ℤ
      → ℤ
      → List RestingOrder
      → Outcome PricingError (Option (PlannedFill × List RestingOrder))
  next_fill q b [] = ok none
  next_fill q b (o ∷ rest) = executable_fill_of q b o >>= elim [
    | some fill ↦ ok (some (fill, rest))
    | none ↦
        next_fill q b rest
        >>= elim [ none ↦ ok none | some (fill, others) ↦ ok (some (fill, o ∷ others)) ]
  ]

  -- Each pass takes an order out of `waiting`, so as many rounds as orders are enough.
  unfoldable pub cascade_from :
      ℕ → List ℤ → ℤ → List RestingOrder → Outcome PricingError (List PlannedFill)
  cascade_from zero q b waiting = ok []
  cascade_from (suc rounds) q b waiting = next_fill q b waiting >>= elim [
    | none ↦ ok []
    | some (fill, others) ↦
        cascade_from rounds fill.cost.after_q b others >>= (λ fills. ok (fill ∷ fills))
  ]

  unfoldable pub cascade_of :
      List ℤ → ℤ → List RestingOrder → Outcome PricingError (List PlannedFill)
  cascade_of q b orders =
      let waiting = sort_orders orders in cascade_from (length waiting) q b waiting
