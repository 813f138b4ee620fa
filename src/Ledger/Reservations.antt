-- ===== src/Ledger/Reservations.antt =====
-- backend/ledger_service/service/reservations.py and the balance of service/accounts.py: figures that
-- are derived from the rows on every read.
use cs.Base.{ℕ, Bool, true, false, not, none, some, List, [], ◌∷◌, ◌&&◌, ◌==◌, if◌then◌else◌}
use cs.Base.Int.{ℤ, pos, ◌+ℤ◌, ◌-ℤ◌}
use cs.Ledger.Pricing.{is_buy}
use cs.Ledger.Rows.{Entry, Order, OrderStatus, opened, filled, cancelled, MarketResult}

-- `balance_of`: the sum of the account's entries
unfoldable pub balance_of : List Entry → ℕ → ℤ
balance_of [] account_id = pos 0
balance_of (entry ∷ rest) account_id =
    (if entry.account_id == account_id then entry.amount else pos 0) +ℤ balance_of rest account_id

unfoldable pub has_result : List MarketResult → ℕ → Bool
has_result [] market_id = false
has_result (r ∷ rest) market_id =
    if r.market_id == market_id then true else has_result rest market_id

unfoldable pub is_open : OrderStatus → Bool
is_open opened = true
is_open filled = false
is_open cancelled = false

-- `order_is_live`
unfoldable pub is_live : List MarketResult → Order → Bool
unfolding is_open has_result
is_live results order = is_open order.status && not (has_result results order.market_id)

-- `budget - filled_value`, which SQL's sum skips where the budget is null.
unfoldable pub held_credits : Order → ℤ
held_credits order = elim order.budget [
  | none ↦ pos 0
  | some budget ↦ pos budget -ℤ pos order.filled_value
]

-- `reserved_of`
unfoldable pub reserved_of : List MarketResult → List Order → ℕ → ℤ
unfolding is_live held_credits is_buy
reserved_of results [] user_id = pos 0
reserved_of results (order ∷ rest) user_id =
    (if order.user_id == user_id && (is_buy order.side && is_live results order)
      then held_credits order
      else pos 0)
    +ℤ reserved_of results rest user_id

-- `reserved_shares_of`
unfoldable pub reserved_shares_of : List MarketResult → List Order → ℕ → ℕ → ℕ → ℤ
unfolding is_live is_buy
reserved_shares_of results [] user_id market_id outcome_id = pos 0
reserved_shares_of results (order ∷ rest) user_id market_id outcome_id =
    (if order.user_id == user_id
        && (order.market_id == market_id
            && (order.outcome_id == outcome_id
                && (not (is_buy order.side) && is_live results order)))
      then pos order.quantity -ℤ pos order.filled_quantity
      else pos 0)
    +ℤ reserved_shares_of results rest user_id market_id outcome_id
