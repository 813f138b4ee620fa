-- ===== src/Ledger/Placing/Planning.antt =====
-- backend/ledger_service/service/orders.py: what `place` will write, from the latch to the cascade.
use cs.Base.{
  ℕ, zero, suc, not, is_some, Option, none, some, List, [], ◌∷◌, ◌++◌, ◌==◌, length, Outcome, ok,
  err, ◌>>=◌, ◌>>◌, raise_if,
}
use cs.Base.Int.{ℤ, pos_part}
use cs.Base.Text.{Text}
use cs.Ledger.Lmsr.{Engine}
use cs.Ledger.Orders.{
  RestingOrder, PlannedFill, binary_outcomes, refuse_if_crosses_book, executable_fill_of,
}
use cs.Ledger.Rows.{
  OutcomeRow, Book, Position, Order, Tables, LedgerError, user, market_closed, market_not_binary,
  lookup_failed,
}
use cs.Ledger.Posting.Legs.{Movement}
use cs.Ledger.Accounts.{World}
use cs.Ledger.Books.{find_result}
use cs.Ledger.BookPrices.{priced_by, outcome_ids_of, q_of, b_of, refuse_unpriceable_book, index_in}
use cs.Ledger.Trading.{PricedTrade, Pending, find_position, write_trade}
use cs.Ledger.Trading.Filling.{
  list_open_orders, resting_orders_of, reservation_drop_of, fill_key, trade_movement_of,
  write_cascade,
}
use cs.Ledger.Trading.Planning.{PlannedTrade, lock_book, check_holding, pending_of}
use cs.Ledger.Placing.{PlaceRequest, NewRow, new_order, inserted, refuse_if_budget_does_not_fit}

-- An order that nothing fills, or one with its fill's writes; each with the position of its outcome
pub data Planned : Type 0 where
  resting : Order → ℤ → Planned
  filling : Order → ℤ → PlannedTrade → Planned

-- `RestingOrder(seq=0, ...)`
unfoldable pub arriving_of : PlaceRequest → ℕ → RestingOrder
arriving_of request index = record {
  seq = 0;
  outcome_index = index;
  side = request.side;
  limit_price = pos_part request.limit_price;
  remaining = pos_part request.quantity;
}

-- The fill on arrival, as the placer's trade
unfoldable pub trade_on_arrival : PlaceRequest → PlannedFill → PricedTrade
trade_on_arrival request fill = record {
  user_id = request.user_id;
  market_id = request.market_id;
  outcome_id = request.outcome_id;
  side = request.side;
  quantity = fill.quantity;
  cost = fill.cost;
}

unfoldable pub movement_on_arrival :
    World → PlaceRequest → PlannedFill → Order → Pending → Pending → Movement
unfolding trade_movement_of trade_on_arrival fill_key reservation_drop_of
movement_on_arrival world request fill order traded_rows after =
    trade_movement_of (trade_on_arrival request fill) (world.id_of user request.user_id)
      after.book.pool_account_id (fill_key world order.id traded_rows.book.state_version)
      traded_rows.book.state_version none (some order.id)
      (reservation_drop_of order fill.cost.magnitude 0)

-- `_rest`'s check; a sell has been checked already.
unfoldable pub check_budget : Tables → ℕ → ℕ → Option ℕ → Outcome LedgerError Unit
unfolding refuse_if_budget_does_not_fit
check_budget s account_id user_id none = ok tt
check_budget s account_id user_id (some budget) =
    refuse_if_budget_does_not_fit s account_id user_id budget

-- `outcomes[index]`
unfoldable pub row_at : List OutcomeRow → ℕ → Outcome LedgerError OutcomeRow
row_at [] index = err lookup_failed
row_at (o ∷ rest) zero = ok o
row_at (o ∷ rest) (suc index) = row_at rest index

module _ (engine : Engine) (world : World) (row : NewRow) where
  unfoldable pub plan_rest :
      PlaceRequest → Tables → Pending → ℤ → Order → Outcome LedgerError Planned
  unfolding check_budget inserted
  plan_rest request s read position order = do
    check_budget s (world.id_of user request.user_id) request.user_id order.budget
    ok (resting (inserted row read.book.state_version order read.orders) position)

  -- The fill's writes and the cascade after them, then the order's row
  unfoldable pub plan_fill :
      ℕ
      → PlaceRequest
      → ℕ
      → Option Position
      → PlannedFill
      → Order
      → ℤ
      → Pending
      → Outcome LedgerError Planned
  unfolding write_trade write_cascade trade_on_arrival movement_on_arrival inserted
  plan_fill now request index held fill order position read = do
    traded_rows ← write_trade read index held (trade_on_arrival request fill) now
    cascade ← write_cascade engine world now traded_rows
    let after = cascade.1
    let placed = inserted row after.book.state_version order after.orders
    ok (
        filling placed position (record {
          pending = record after { orders = after.orders ++ (placed ∷ []) };
          fills = cascade.0;
          movement = movement_on_arrival world request fill placed traded_rows after;
        }))

  -- An order that has passed every check, with the fill that it has on arrival
  unfoldable pub plan_order :
      ℕ
      → PlaceRequest
      → Text
      → Tables
      → Pending
      → ℕ
      → ℤ
      → Option PlannedFill
      → Outcome LedgerError Planned
  unfolding new_order plan_rest plan_fill find_position
  plan_order now request key s read index position none = do
    order ← new_order engine row request key none
    plan_rest request s read position order
  plan_order now request key s read index position (some fill) = do
    order ← new_order engine row request key (some fill)
    plan_fill now request index
        (find_position read.positions request.user_id request.market_id request.outcome_id) fill
        order position read

  -- The crossing check, the holding and the fill on arrival
  unfoldable pub plan_placed_at :
      ℕ → PlaceRequest → Text → Tables → Pending → ℕ → Outcome LedgerError Planned
  unfolding list_open_orders resting_orders_of priced_by outcome_ids_of q_of refuse_if_crosses_book
      find_position check_holding arriving_of executable_fill_of plan_order row_at
  plan_placed_at now request key s read index = do
    place ← row_at read.book.outcomes index
    open_orders ←
        resting_orders_of (list_open_orders s.orders request.market_id)
          (outcome_ids_of read.book.outcomes)
    priced_by (refuse_if_crosses_book open_orders index request.side (pos_part request.limit_price))
    check_holding request.side s
        (find_position s.positions request.user_id request.market_id request.outcome_id)
        request.user_id request.market_id request.outcome_id (pos_part request.quantity)
    fill ← priced_by (
        executable_fill_of engine (q_of read.book.outcomes) (b_of read.book)
          (arriving_of request index))
    plan_order now request key s read index place.position fill

  -- From the latch on, with the book that was locked
  unfoldable pub plan_placed_on :
      ℕ → PlaceRequest → Text → Tables → Book → Outcome LedgerError Planned
  unfolding pending_of plan_placed_at index_in refuse_unpriceable_book
  plan_placed_on now request key s book = do
    raise_if (is_some (find_result s.results request.market_id)) market_closed
    refuse_unpriceable_book (length (pending_of s book).book.outcomes) book.liquidity_b
    raise_if (not (length (pending_of s book).book.outcomes == binary_outcomes)) market_not_binary
    index ← index_in request.outcome_id (pending_of s book).book.outcomes
    plan_placed_at now request key s (pending_of s book) index

  unfoldable pub plan_placement : ℕ → PlaceRequest → Text → Tables → Outcome LedgerError Planned
  unfolding lock_book plan_placed_on
  plan_placement now request key s =
      lock_book s request.market_id >>= (λ book. plan_placed_on now request key s book)
