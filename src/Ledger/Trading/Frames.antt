-- ===== src/Ledger/Trading/Frames.antt =====
-- backend/ledger_service/service/trading.py: the commit of a trade's batch, and the answer and the frames that follow it.
use cs.Base.{
  ℕ, Bool, true, false, Option, none, some, List, [], ◌∷◌, Outcome, ok, err, ◌>>=◌, if◌then◌else◌,
}
use cs.Base.Int.{ℤ}
use cs.Base.Text.{Text, text_eq}
use cs.Ledger.Lmsr.{Engine}
use cs.Ledger.Rows.{
  Transaction, Order, Tables, LedgerError, insufficient_funds, cascade_fill_refused, bad_value,
  lookup_failed,
}
use cs.Ledger.Posting.Legs.{Movement}
use cs.Ledger.Posting.{post_all}
use cs.Ledger.Accounts.{World}
use cs.Ledger.BookPrices.{PricedOutcome, q_of, b_of, prices_at}
use cs.Ledger.Trading.{WrittenFill, TradeResult, trade_result_of, Pending, flushed}
use cs.Ledger.Trading.Planning.{PlannedTrade}

-- A price frame and an order frame, as they go on the bus
pub record PriceEvent : Type 0 where
  pub market_id : ℕ
  pub state_version : ℕ
  pub prices : List PricedOutcome
  pub occurred_at : ℕ

pub record OrderEvent : Type 0 where
  pub order : Order
  pub transaction_id : ℕ
  pub quantity : ℕ
  pub total : ℤ
  pub state_version : ℕ
  pub occurred_at : ℕ

-- `_post_trade_batch`: what it makes of a refusal
abbrev pub refusal_key_is : Text → Option Text → Bool
refusal_key_is key none = false
refusal_key_is key (some movement_key) = text_eq movement_key key

unfoldable pub batch_refusal_of : Text → LedgerError → LedgerError
batch_refusal_of key (insufficient_funds shortage) =
    if refusal_key_is key shortage.movement_key
    then insufficient_funds shortage
    else cascade_fill_refused
batch_refusal_of key other = other

unfoldable pub movements_of_fills : List WrittenFill → List Movement
movements_of_fills [] = []
movements_of_fills (fill ∷ rest) = fill.movement ∷ movements_of_fills rest

abbrev pub refused_as :
    {A : Type 0} → (LedgerError → LedgerError) → Outcome LedgerError A → Outcome LedgerError A
refused_as f (ok a) = ok a
refused_as f (err e) = err (f e)

-- `_post_trade_batch`, with the session's pending rows
unfoldable pub post_trade_batch :
    World
    → (ℕ → ℕ)
    → ℕ
    → Text
    → PlannedTrade
    → Tables
    → Outcome LedgerError (List Transaction × Tables)
unfolding batch_refusal_of movements_of_fills flushed
post_trade_batch world new_ids now key plan s = refused_as (batch_refusal_of key) (
    post_all world.hashing world.account new_ids true now
      (plan.movement ∷ movements_of_fills plan.fills) (flushed s plan.pending))

-- `_order_event_of`, for each fill with its transaction
unfoldable pub order_events_of :
    ℕ → List WrittenFill → List Transaction → Outcome LedgerError (List OrderEvent)
unfolding trade_result_of
order_events_of now [] [] = ok []
order_events_of now [] (t ∷ rest) = err bad_value
order_events_of now (fill ∷ fills) [] = err bad_value
order_events_of now (fill ∷ fills) (t ∷ rest) = trade_result_of t >>= (λ result.
    order_events_of now fills rest >>= (λ others. ok (
      record {
        order = fill.order;
        transaction_id = result.transaction_id;
        quantity = result.quantity;
        total = result.total;
        state_version = result.state_version;
        occurred_at = now;
      }
      ∷ others)))

-- `price_event_of`, of the book that the commit left behind
unfoldable pub price_event_of : Engine → ℕ → Pending → ℕ → Outcome LedgerError PriceEvent
unfolding prices_at q_of
price_event_of engine now pending state_version =
    let book = pending.book in
    prices_at engine book.outcomes (q_of book.outcomes) (b_of book) >>= (λ shown. ok (record {
      market_id = book.market_id;
      state_version = state_version;
      prices = shown;
      occurred_at = now;
    }))

-- What a request answers and publishes
pub record Executed : Type 0 where
  pub result : TradeResult
  pub price_frames : List PriceEvent
  pub order_frames : List OrderEvent

abbrev pub answered_again : TradeResult → Executed
answered_again result = record { result = result; price_frames = []; order_frames = [] }

-- `transactions[0]` and `transactions[1:]`
abbrev pub first_of : List Transaction → Outcome LedgerError Transaction
first_of [] = err lookup_failed
first_of (t ∷ rest) = ok t

abbrev pub rest_of : List Transaction → List Transaction
rest_of [] = []
rest_of (t ∷ rest) = rest

-- Steps 12 and 13: the answer and the frames, from what was committed
unfoldable pub answer_of :
    Engine → ℕ → PlannedTrade → List Transaction → Outcome LedgerError Executed
unfolding trade_result_of price_event_of order_events_of
answer_of engine now plan transactions = do
  first ← first_of transactions
  result ← trade_result_of first
  frame ← price_event_of engine now plan.pending result.book_state_version
  frames ← order_events_of now plan.fills (rest_of transactions)
  ok (record { result = result; price_frames = frame ∷ []; order_frames = frames })
