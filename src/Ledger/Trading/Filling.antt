-- ===== src/Ledger/Trading/Filling.antt =====
-- backend/ledger_service/service/trading.py: the movement of a trade, and the resting orders that fill after it.
use cs.Base.{
  ℕ, ◌+◌, Option, none, some, List, [], ◌∷◌, ◌++◌, ◌==◌, ◌&&◌, if◌then◌else◌, Outcome, ok, err,
  ◌>>=◌, ◌-◌,
}
use cs.Base.Int.{ℤ, pos, neg, pos_part, ◌-ℤ◌}
use cs.Base.Text.{Text}
use cs.Base.Decimal.{Decimal, of_ticks}
use cs.Ledger.Lmsr.{Engine}
use cs.Ledger.Pricing.{Side, buy, sell, is_buy}
use cs.Ledger.Orders.{RestingOrder, PlannedFill, cascade_of}
use cs.Ledger.Rows.{
  TransactionKind, traded, trade_buy, trade_sell, Order, OrderStatus, opened, filled, cancelled,
  LedgerError, user, bad_value, lookup_failed,
}
use cs.Ledger.Reservations.{is_open}
use cs.Ledger.Posting.Legs.{Movement}
use cs.Ledger.Accounts.{World, no_drop}
use cs.Ledger.BookPrices.{priced_by, outcome_ids_of, q_of, b_of, index_of}
use cs.Ledger.Trading.{PricedTrade, WrittenFill, Pending, find_position, write_trade}

-- `list_open_orders`
unfoldable pub list_open_orders : List Order → ℕ → List Order
unfolding is_open
list_open_orders [] market_id = []
list_open_orders (order ∷ rest) market_id =
    let others = list_open_orders rest market_id in
    if order.market_id == market_id && is_open order.status then order ∷ others else others

-- `resting_order_of`
unfoldable pub resting_order_of : Order → List ℕ → Outcome LedgerError RestingOrder
unfolding index_of
resting_order_of order outcome_ids = elim (index_of order.outcome_id outcome_ids) [
  | none ↦ err bad_value
  | some index ↦ ok (record {
    seq = order.seq;
    outcome_index = index;
    side = order.side;
    limit_price = order.limit_price;
    remaining = order.quantity - order.filled_quantity;
  })
]

unfoldable pub resting_orders_of : List Order → List ℕ → Outcome LedgerError (List RestingOrder)
unfolding resting_order_of
resting_orders_of [] outcome_ids = ok []
resting_orders_of (order ∷ rest) outcome_ids = do
  resting ← resting_order_of order outcome_ids
  others ← resting_orders_of rest outcome_ids
  ok (resting ∷ others)

-- `by_seq[fill.order.seq]`
unfoldable pub order_by_seq : List Order → ℕ → Outcome LedgerError Order
order_by_seq [] seq = err lookup_failed
order_by_seq (order ∷ rest) seq = if order.seq == seq then ok order else order_by_seq rest seq

unfoldable pub status_after : Order → ℕ → OrderStatus
status_after order filled_quantity =
    if filled_quantity == order.quantity then filled else order.status

-- The order row's write; `seq` is unique.
unfoldable pub write_by_seq : Order → List Order → List Order
write_by_seq written [] = []
write_by_seq written (order ∷ rest) =
    if order.seq == written.seq then written ∷ rest else order ∷ write_by_seq written rest

-- `_add_fill_to`
unfoldable pub add_fill_to : Order → PlannedFill → Order
unfolding status_after
add_fill_to order fill = record order {
  filled_quantity = order.filled_quantity + fill.quantity;
  filled_value = order.filled_value + pos_part fill.cost.magnitude;
  status = status_after order (order.filled_quantity + fill.quantity);
}

-- `order.budget - value_before`; the table's CHECK gives every buy a budget.
abbrev pub budget_left : Option ℕ → ℕ → ℤ
budget_left none value_before = pos 0
budget_left (some budget) value_before = pos budget -ℤ pos value_before

abbrev pub drop_in : OrderStatus → Order → ℤ → ℕ → ℤ
drop_in filled order cost value_before = budget_left order.budget value_before
drop_in opened order cost value_before = cost
drop_in cancelled order cost value_before = cost

unfoldable pub reservation_drop_of : Order → ℤ → ℕ → Decimal
unfolding is_buy
reservation_drop_of order cost value_before =
    if is_buy order.side then of_ticks (drop_in order.status order cost value_before) else no_drop

-- "order-fill:"
abbrev fill_key_prefix : Text
fill_key_prefix = 111 ∷ 114 ∷ 100 ∷ 101 ∷ 114 ∷ 45 ∷ 102 ∷ 105 ∷ 108 ∷ 108 ∷ 58 ∷ []

unfoldable pub fill_key : World → ℕ → ℕ → Text
fill_key world order_id state_version =
    fill_key_prefix ++ (world.str_uuid order_id ++ (58 ∷ world.str_int state_version))

unfoldable pub trade_kind : Side → TransactionKind
trade_kind buy = trade_buy
trade_kind sell = trade_sell

-- `trade_movement_of`; a trade gives the book's counter after its cascade, and a fill its order.
unfoldable pub trade_movement_of :
    PricedTrade
    → (user_account pool_account : ℕ) → Text
    → ℕ
    → Option ℕ
    → Option ℕ
    → Decimal
    → Movement
unfolding trade_kind
trade_movement_of trade user_account pool_account key state_version book_state_version order_id
      reservation_drop =
    record {
      idempotency_key = key;
      kind = trade_kind trade.side;
      legs =
          record { account_id = user_account; amount = of_ticks trade.cost.total }
          ∷ record { account_id = pool_account; amount = of_ticks (neg trade.cost.total) }
          ∷ [];
      context = traded (record {
        user_id = trade.user_id;
        market_id = trade.market_id;
        outcome_id = trade.outcome_id;
        side = trade.side;
        quantity = trade.quantity;
        total = trade.cost.total;
        state_version = state_version;
        book_state_version = book_state_version;
        order_id = order_id;
      });
      reservation_drop = reservation_drop;
    }

-- A fill as its owner's trade
unfoldable pub trade_of_fill : Order → PlannedFill → PricedTrade
trade_of_fill order fill = record {
  user_id = order.user_id;
  market_id = order.market_id;
  outcome_id = order.outcome_id;
  side = order.side;
  quantity = fill.quantity;
  cost = fill.cost;
}

-- The movement of a fill that has been rolled into its order
unfoldable pub movement_of_fill : World → Order → Order → PlannedFill → Pending → Movement
unfolding trade_movement_of trade_of_fill fill_key reservation_drop_of
movement_of_fill world before order fill after =
    trade_movement_of (trade_of_fill before fill) (world.id_of user order.user_id)
      after.book.pool_account_id (fill_key world order.id after.book.state_version)
      after.book.state_version none (some order.id)
      (reservation_drop_of order fill.cost.magnitude before.filled_value)

-- `_write_fill`
unfoldable pub write_fill :
    World → ℕ → Order → PlannedFill → Pending → Outcome LedgerError (WrittenFill × Pending)
unfolding trade_of_fill movement_of_fill add_fill_to write_by_seq find_position
write_fill world now order fill pending = do
  let position = find_position pending.positions order.user_id order.market_id order.outcome_id
  after ← write_trade pending fill.order.outcome_index position (trade_of_fill order fill) now
  let written = add_fill_to order fill
  ok (
    record { order = written; movement = movement_of_fill world order written fill after },
    record after { orders = write_by_seq written after.orders },
  )

-- The loop of `write_cascade`
unfoldable pub write_fills :
    World
    → ℕ
    → List Order
    → List PlannedFill
    → Pending
    → Outcome LedgerError (List WrittenFill × Pending)
unfolding order_by_seq
write_fills world now open_orders [] pending = ok ([], pending)
write_fills world now open_orders (fill ∷ plan) pending = do
  order ← order_by_seq open_orders fill.order.seq
  written ← write_fill world now order fill pending
  others ← write_fills world now open_orders plan written.1
  ok (written.0 ∷ others.0, others.1)

unfoldable pub write_cascade :
    Engine → World → ℕ → Pending → Outcome LedgerError (List WrittenFill × Pending)
unfolding list_open_orders resting_orders_of write_fills priced_by outcome_ids_of q_of
write_cascade engine world now pending = do
  let book = pending.book
  let open_orders = list_open_orders pending.orders book.market_id
  resting ← resting_orders_of open_orders (outcome_ids_of book.outcomes)
  plan ← priced_by (cascade_of engine (q_of book.outcomes) (b_of book) resting)
  write_fills world now open_orders plan pending
