-- ===== src/Ledger/Trading/Planning.antt =====
-- backend/ledger_service/service/trading.py: what a trade under the book's lock will write, from the latch to the
-- cascade of `execute`.
use cs.Base.{
  ℕ, not, Option, none, some, List, [], ◌∷◌, ◌++◌, ◌==◌, length, Outcome, ok, err, ◌>>=◌, ◌>>◌,
  is_some, raise_if,
}
use cs.Base.Int.{pos, pos_part, ◌-ℤ◌, ltb_ℤ}
use cs.Base.Text.{Text}
use cs.Ledger.Lmsr.{Engine}
use cs.Ledger.Pricing.{Side, buy, sell, trade_cost_of, TradeCost}
use cs.Ledger.Rows.{
  Book, Position, Tables, LedgerError, user, market_closed, quote_stale, insufficient_shares_held,
  lookup_failed,
}
use cs.Ledger.Reservations.{reserved_shares_of}
use cs.Ledger.Posting.Legs.{Movement}
use cs.Ledger.Accounts.{World, no_drop}
use cs.Ledger.Books.{find_book, find_result}
use cs.Ledger.BookPrices.{
  priced_by, in_position_order, q_of, b_of, refuse_unpriceable_book, index_in,
}
use cs.Ledger.Trading.{TradeRequest, PricedTrade, WrittenFill, Pending, find_position, write_trade}
use cs.Ledger.Trading.Filling.{trade_movement_of, write_cascade}

-- "trade:"
abbrev trade_key_prefix : Text
trade_key_prefix = 116 ∷ 114 ∷ 97 ∷ 100 ∷ 101 ∷ 58 ∷ []

unfoldable pub trade_key : World → ℕ → ℕ → Text → Text
trade_key world user_id market_id client_key =
    trade_key_prefix
    ++ (world.str_uuid user_id ++ (58 ∷ (world.str_uuid market_id ++ (58 ∷ client_key))))

-- A market's book, locked; `scalar_one` raises where there is none.
unfoldable pub lock_book : Tables → ℕ → Outcome LedgerError Book
lock_book s market_id = elim (find_book s.books market_id) [
  | none ↦ err lookup_failed
  | some book ↦ ok book
]

-- `position.quantity if position is not None else ZERO`
abbrev pub held_in : Option Position → ℕ
held_in none = 0
held_in (some p) = p.quantity

-- `refuse_if_short_of_shares`
unfoldable pub refuse_if_short_of_shares :
    Tables
    → Option Position
    → (user_id market_id outcome_id quantity : ℕ) → Outcome LedgerError Unit
unfolding reserved_shares_of
refuse_if_short_of_shares s position user_id market_id outcome_id quantity =
    let held = pos (held_in position) in
    let reserved = reserved_shares_of s.results s.orders user_id market_id outcome_id in
    raise_if (ltb_ℤ (held -ℤ reserved) (pos quantity))
      (insufficient_shares_held held reserved (pos quantity))

-- Only a sale is held to the shares that the trader has.
unfoldable pub check_holding :
    Side
    → Tables
    → Option Position
    → (user_id market_id outcome_id quantity : ℕ) → Outcome LedgerError Unit
unfolding refuse_if_short_of_shares
check_holding buy s position user_id market_id outcome_id quantity = ok tt
check_holding sell s position user_id market_id outcome_id quantity =
    refuse_if_short_of_shares s position user_id market_id outcome_id quantity

-- What the commit will write: the trade's version, the rows, the fills, and the trade's own movement.
pub record PlannedTrade : Type 0 where
  pub pending : Pending
  pub fills : List WrittenFill
  pub movement : Movement

-- The rows that the session reads under the lock
unfoldable pub pending_of : Tables → Book → Pending
unfolding in_position_order
pending_of s book = record {
  book = record book { outcomes = in_position_order book.outcomes };
  positions = s.positions;
  orders = s.orders;
}

unfoldable pub movement_of_trade : World → TradeRequest → PricedTrade → Pending → Pending → Movement
unfolding trade_key trade_movement_of
movement_of_trade world request trade traded_rows after =
    trade_movement_of trade (world.id_of user request.user_id) after.book.pool_account_id
      (trade_key world request.user_id request.market_id request.idempotency_key)
      traded_rows.book.state_version (some after.book.state_version) none no_drop

unfoldable pub trade_of : TradeRequest → ℕ → TradeCost → PricedTrade
trade_of request quantity cost = record {
  user_id = request.user_id;
  market_id = request.market_id;
  outcome_id = request.outcome_id;
  side = request.side;
  quantity = quantity;
  cost = cost;
}

module _ (engine : Engine) (world : World) where
  -- The trade's own writes and its cascade's, on the price that they left
  unfoldable pub write_trade_and_cascade :
      ℕ
      → TradeRequest
      → ℕ
      → Option Position
      → PricedTrade
      → Pending
      → Outcome LedgerError PlannedTrade
  unfolding write_trade write_cascade movement_of_trade
  write_trade_and_cascade now request index position trade read = do
    traded_rows ← write_trade read index position trade now
    filled ← write_cascade engine world now traded_rows
    ok (record {
      pending = filled.1;
      fills = filled.0;
      movement = movement_of_trade world request trade traded_rows filled.1;
    })

  -- The trade of a request on an outcome that the book has
  unfoldable pub plan_at :
      ℕ → TradeRequest → Tables → Pending → ℕ → ℕ → Outcome LedgerError PlannedTrade
  unfolding find_position check_holding trade_of write_trade_and_cascade priced_by q_of
  plan_at now request s read index quantity = do
    let position = find_position s.positions request.user_id request.market_id request.outcome_id
    check_holding request.side s position request.user_id request.market_id request.outcome_id
        quantity
    cost ← priced_by (
        trade_cost_of engine (q_of read.book.outcomes) (b_of read.book) index request.side quantity)
    write_trade_and_cascade now request index position (trade_of request quantity cost) read

  -- From the latch on, with the book that was locked
  unfoldable pub plan_on : ℕ → TradeRequest → Tables → Book → Outcome LedgerError PlannedTrade
  unfolding pending_of plan_at index_in refuse_unpriceable_book
  plan_on now request s book = do
    raise_if (is_some (find_result s.results request.market_id)) market_closed
    refuse_unpriceable_book (length (pending_of s book).book.outcomes) book.liquidity_b
    raise_if (not (request.state_version == book.state_version))
        (quote_stale request.state_version book.state_version)
    index ← index_in request.outcome_id (pending_of s book).book.outcomes
    plan_at now request s (pending_of s book) index (pos_part request.quantity)

  -- Steps 6 to 10b, from the latch to the cascade
  unfoldable pub plan_trade : ℕ → TradeRequest → Tables → Outcome LedgerError PlannedTrade
  unfolding lock_book plan_on
  plan_trade now request s = lock_book s request.market_id >>= (λ book. plan_on now request s book)
