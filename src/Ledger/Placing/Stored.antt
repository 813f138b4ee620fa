-- ===== src/Ledger/Placing/Stored.antt =====
-- backend/ledger_service/service/orders.py: the answer that a stored order gives to a request with its key.
use cs.Base.{
  ℕ, Bool, true, false, not, Option, none, some, List, [], ◌∷◌, ◌==◌, leb, ◌&&◌, if◌then◌else◌,
  Outcome, ok, err, ◌>>=◌, ◌>>◌, raise_if,
}
use cs.Base.Int.{ℤ, pos, eqb_ℤ}
use cs.Base.Text.{Text, text_eq}
use cs.Ledger.Lmsr.{Engine}
use cs.Ledger.Rows.{
  TransactionKind, TransactionContext, no_context, granted, paid, of_market, traded, Transaction,
  trade_buy, trade_sell, OutcomeRow, Book, Order, Tables, LedgerError, lookup_failed,
  idempotency_key_reused,
}
use cs.Ledger.Reservations.{is_live}
use cs.Ledger.Books.{find_book}
use cs.Ledger.Cancellation.{order_view_of}
use cs.Ledger.Trading.{same_side}
use cs.Ledger.Placing.{PlaceRequest, Fill, Placement}

-- `_fill_of`
unfoldable pub fill_from : ℕ → TransactionContext → Outcome LedgerError Fill
fill_from id no_context = err lookup_failed
fill_from id (granted user_id) = err lookup_failed
fill_from id (paid user_id market_id outcome_id quantity) = err lookup_failed
fill_from id (of_market market_id) = err lookup_failed
fill_from id (traded c) = ok (record {
  transaction_id = id;
  quantity = c.quantity;
  total = c.total;
  state_version = c.state_version;
})

unfoldable pub fill_of : Transaction → Outcome LedgerError Fill
unfolding fill_from
fill_of transaction = fill_from transaction.id transaction.context

-- `_matches`
unfoldable pub order_matches : Order → PlaceRequest → Bool
unfolding same_side
order_matches order request =
    order.outcome_id == request.outcome_id
    && (same_side order.side request.side
        && (eqb_ℤ (pos order.limit_price) request.limit_price
            && eqb_ℤ (pos order.quantity) request.quantity))

abbrev pub is_id : ℕ → Option ℕ → Bool
is_id id none = false
is_id id (some other) = other == id

-- The rows that `_fills_of` selects: the order's fills, up to the counter that it stored
unfoldable pub is_fill_on_arrival : Order → TransactionContext → Bool
is_fill_on_arrival order no_context = false
is_fill_on_arrival order (granted user_id) = false
is_fill_on_arrival order (paid user_id market_id outcome_id quantity) = false
is_fill_on_arrival order (of_market market_id) = false
is_fill_on_arrival order (traded c) =
    is_id order.id c.order_id && leb c.state_version order.book_state_version

unfoldable pub is_fill_kind : TransactionKind → Bool
is_fill_kind trade_buy = true
is_fill_kind trade_sell = true
is_fill_kind other = false

unfoldable pub insert_fill : Fill → List Fill → List Fill
insert_fill f [] = f ∷ []
insert_fill f (x ∷ rest) =
    if leb f.state_version x.state_version then f ∷ x ∷ rest else x ∷ insert_fill f rest

-- `_fills_of`
unfoldable pub fills_of : List Transaction → Order → Outcome LedgerError (List Fill)
unfolding is_fill_kind is_fill_on_arrival fill_of insert_fill
fills_of [] order = ok []
fills_of (t ∷ rest) order =
    let others = fills_of rest order in
    if is_fill_kind t.kind && is_fill_on_arrival order t.context
    then fill_of t >>= (λ fill. others >>= (λ fs. ok (insert_fill fill fs)))
    else others

unfoldable pub find_by_order_key : List Order → Text → Option Order
find_by_order_key [] key = none
find_by_order_key (order ∷ rest) key =
    if text_eq order.idempotency_key key then some order else find_by_order_key rest key

unfoldable pub position_in : List OutcomeRow → ℕ → Option ℤ
position_in [] outcome_id = none
position_in (o ∷ rest) outcome_id =
    if o.outcome_id == outcome_id then some o.position else position_in rest outcome_id

abbrev pub position_in_book : Option Book → ℕ → Option ℤ
position_in_book none outcome_id = none
position_in_book (some book) outcome_id = position_in book.outcomes outcome_id

-- `views_query`'s join with the outcome's row, which gives the position
unfoldable pub outcome_position_of : Tables → Order → Option ℤ
unfolding find_book position_in
outcome_position_of s order = position_in_book (find_book s.books order.market_id) order.outcome_id

unfoldable pub find_view : Tables → Text → Option (Order × ℤ)
unfolding find_by_order_key outcome_position_of
find_view s key = elim (find_by_order_key s.orders key) [
  | none ↦ none
  | some order ↦ elim (outcome_position_of s order) [
    | none ↦ none
    | some position ↦ some (order, position)
  ]
]

unfoldable pub stored_placement :
    Engine → Tables → PlaceRequest → Order → ℤ → Outcome LedgerError Placement
unfolding order_matches order_view_of is_live fills_of
stored_placement engine s request order position = do
  raise_if (not (order_matches order request)) idempotency_key_reused
  fills ← fills_of s.transactions order
  ok (record {
    view = order_view_of engine order (is_live s.results order);
    outcome_position = position;
    fills = fills;
    book_state_version = order.book_state_version;
  })

-- `_replay_if_present`
unfoldable pub placement_if_present :
    Engine → Text → PlaceRequest → Tables → Outcome LedgerError (Option Placement)
unfolding find_view stored_placement
placement_if_present engine key request s = elim (find_view s key) [
  | none ↦ ok none
  | some (order, position) ↦
      stored_placement engine s request order position >>= (λ placement. ok (some placement))
]
