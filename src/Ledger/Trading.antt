-- ===== src/Ledger/Trading.antt =====
-- backend/ledger_service/service/trading.py: a trade's pending writes and its answer. The cascade that it sets
-- off is in Trading/Filling and the order of its steps in Trading/Execute.
pub mod Filling
pub mod Planning
pub mod Frames
pub mod Execute
pub mod Shares
pub mod Held
pub mod Follows
pub mod Fills
pub mod Cascading
pub mod Planned
pub mod Backed
pub mod Invariant
pub mod Answers
pub mod Cases
pub mod Counter
pub mod Once
pub mod Quoted
use cs.Base.{
  ℕ, zero, suc, ◌+◌, ◌-◌, Bool, true, false, not, Option, none, some, List, [], ◌∷◌, ◌++◌, ◌==◌,
  ◌&&◌, ◌||◌, if◌then◌else◌, Outcome, ok, err, ◌>>=◌, ◌>>◌, raise_if,
}
use cs.Base.Int.{ℤ, pos, neg, pos_part, ◌-ℤ◌, ltb_ℤ, eqb_ℤ}
use cs.Base.Text.{Text}
use cs.Base.Decimal.{Decimal, of_ticks}
use cs.Ledger.Lmsr.{Engine}
use cs.Ledger.Pricing.{Side, buy, sell, is_buy, TradeCost, at, release_basis}
use cs.Ledger.Orders.{RestingOrder, PlannedFill, cascade_of}
use cs.Ledger.Rows.{
  TransactionKind, TransactionContext, no_context, granted, paid, of_market, traded, TradeContext,
  Transaction, trade_buy, trade_sell, OutcomeRow, Book, Position, Order, opened, filled, Tables,
  LedgerError, user, lookup_failed, bad_value, insufficient_shares_held, MarketResult,
  idempotency_key_reused,
}
use cs.Ledger.Reservations.{is_open, reserved_shares_of}
use cs.Ledger.Posting.Legs.{Leg, Movement}
use cs.Ledger.Posting.{find_by_idempotency_key}
use cs.Ledger.Accounts.{World, negated, no_drop}
use cs.Ledger.Cancellation.{write_order}
use cs.Ledger.BookPrices.{priced_by, outcome_ids_of, q_of, b_of, index_of}

-- The quantity as the request states it
pub record TradeRequest : Type 0 where
  pub user_id : ℕ
  pub market_id : ℕ
  pub outcome_id : ℕ
  pub side : Side
  pub quantity : ℤ
  pub state_version : ℕ
  pub idempotency_key : Text

pub record PricedTrade : Type 0 where
  pub user_id : ℕ
  pub market_id : ℕ
  pub outcome_id : ℕ
  pub side : Side
  pub quantity : ℕ
  pub cost : TradeCost

pub record WrittenFill : Type 0 where
  pub order : Order
  pub movement : Movement

pub record TradeResult : Type 0 where
  pub transaction_id : ℕ
  pub user_id : ℕ
  pub market_id : ℕ
  pub outcome_id : ℕ
  pub side : Side
  pub quantity : ℕ
  pub total : ℤ
  pub state_version : ℕ
  pub book_state_version : ℕ

unfoldable pub same_side : Side → Side → Bool
same_side buy other = is_buy other
same_side sell other = not (is_buy other)

-- `_matches`; a context that lacks a key is another request's.
unfoldable pub matches : TransactionContext → TradeRequest → Bool
unfolding same_side is_buy
matches no_context request = false
matches (granted user_id) request = false
matches (paid user_id market_id outcome_id quantity) request = false
matches (of_market market_id) request = false
matches (traded c) request =
    c.outcome_id == request.outcome_id
    && (same_side c.side request.side && eqb_ℤ (pos c.quantity) request.quantity)

-- `context.get("book_state_version", state_version)`
abbrev pub version_or : Option ℕ → ℕ → ℕ
version_or none state_version = state_version
version_or (some version) state_version = version

unfoldable pub result_from : ℕ → TransactionContext → Outcome LedgerError TradeResult
result_from id no_context = err lookup_failed
result_from id (granted user_id) = err lookup_failed
result_from id (paid user_id market_id outcome_id quantity) = err lookup_failed
result_from id (of_market market_id) = err lookup_failed
result_from id (traded c) = ok (record {
  transaction_id = id;
  user_id = c.user_id;
  market_id = c.market_id;
  outcome_id = c.outcome_id;
  side = c.side;
  quantity = c.quantity;
  total = c.total;
  state_version = c.state_version;
  book_state_version = version_or c.book_state_version c.state_version;
})

unfoldable pub trade_result_of : Transaction → Outcome LedgerError TradeResult
unfolding result_from
trade_result_of transaction = result_from transaction.id transaction.context

-- `_replay_if_present`
unfoldable pub replay_if_present :
    List Transaction → Text → TradeRequest → Outcome LedgerError (Option TradeResult)
unfolding find_by_idempotency_key matches trade_result_of
replay_if_present transactions key request = elim (find_by_idempotency_key transactions key) [
  | none ↦ ok none
  | some existing ↦ (do
    raise_if (not (matches existing.context request)) idempotency_key_reused
    result ← trade_result_of existing
    ok (some result))
]

-- The rows that a trade's session holds and has changed: the book with its outcomes in position order, and
-- the two tables that it writes.
pub record Pending : Type 0 where
  pub book : Book
  pub positions : List Position
  pub orders : List Order

unfoldable pub write_book : Book → List Book → List Book
write_book written [] = []
write_book written (book ∷ rest) =
    if book.market_id == written.market_id then written ∷ rest else book ∷ write_book written rest

-- `session.flush()`: the tables with the pending writes
unfoldable pub flushed : Tables → Pending → Tables
unfolding write_book
flushed s pending = record s {
  books = write_book pending.book s.books;
  positions = pending.positions;
  orders = pending.orders;
}

unfoldable pub is_position_of : Position → ℕ → ℕ → ℕ → Bool
is_position_of p user_id market_id outcome_id =
    p.user_id == user_id && (p.market_id == market_id && p.outcome_id == outcome_id)

unfoldable pub find_position : List Position → ℕ → ℕ → ℕ → Option Position
unfolding is_position_of
find_position [] user_id market_id outcome_id = none
find_position (p ∷ rest) user_id market_id outcome_id =
    if is_position_of p user_id market_id outcome_id
    then some p
    else find_position rest user_id market_id outcome_id

unfoldable pub write_position : Position → List Position → List Position
unfolding is_position_of
write_position written [] = []
write_position written (p ∷ rest) =
    if is_position_of p written.user_id written.market_id written.outcome_id
    then written ∷ rest
    else p ∷ write_position written rest

-- `_add_to_position`
unfoldable pub add_to_position : List Position → Option Position → PricedTrade → List Position
unfolding write_position
add_to_position positions none trade =
    positions
    ++ (record {
      user_id = trade.user_id;
      market_id = trade.market_id;
      outcome_id = trade.outcome_id;
      quantity = trade.quantity;
      cost_basis = pos_part trade.cost.magnitude;
    }
        ∷ [])
add_to_position positions (some p) trade =
    write_position
      (record p {
        quantity = p.quantity + trade.quantity;
        cost_basis = p.cost_basis + pos_part trade.cost.magnitude;
      })
      positions

-- `_release_from_position`; a sale of no row is the failed assertion of `write_trade`.
unfoldable pub release_from_position :
    List Position → Option Position → ℕ → Outcome LedgerError (List Position)
unfolding write_position priced_by
release_from_position positions none quantity = err lookup_failed
release_from_position positions (some p) quantity =
    priced_by (release_basis p.cost_basis p.quantity quantity) >>= (λ released. ok (
      write_position (record p { quantity = p.quantity - quantity; cost_basis = released.1 })
        positions))

unfoldable pub positions_after :
    Side → List Position → Option Position → PricedTrade → Outcome LedgerError (List Position)
unfolding add_to_position release_from_position
positions_after buy positions position trade = ok (add_to_position positions position trade)
positions_after sell positions position trade =
    release_from_position positions position trade.quantity

-- `outcomes[index].q = q`
unfoldable pub set_q : List OutcomeRow → ℕ → ℤ → List OutcomeRow
set_q [] index q = []
set_q (o ∷ rest) zero q = record o { q = q } ∷ rest
set_q (o ∷ rest) (suc index) q = o ∷ set_q rest index q

-- The book's own figures, up by one trade
unfoldable pub traded_book : Book → ℕ → ℤ → PricedTrade → ℕ → Book
unfolding set_q
traded_book book index q trade now = record book {
  state_version = book.state_version + 1;
  credits_traded = book.credits_traded + pos_part trade.cost.magnitude;
  state_changed_at = now;
  outcomes = set_q book.outcomes index q;
}

unfoldable pub write_trade :
    Pending → ℕ → Option Position → PricedTrade → ℕ → Outcome LedgerError Pending
unfolding traded_book positions_after priced_by
write_trade pending index position trade now = do
  q ← priced_by (at trade.cost.after_q index)
  positions ← positions_after trade.side pending.positions position trade
  ok (record pending { book = traded_book pending.book index q trade now; positions = positions })
