-- ===== src/Ledger/Trading/Execute.antt =====
-- backend/ledger_service/service/trading.py: `execute`, with its steps in the order that it takes them. The answers
-- of the other services, the ids and the times that rows get and what other sessions commit before the book's
-- lock are an `Environment`.
use cs.Base.{ℕ, false, Option, none, some, Outcome, raise_if}
use cs.Base.Int.{pos, leb_ℤ}
use cs.Base.Text.{Text}
use cs.Base.Decimal.{Decimal}
use cs.Ledger.Lmsr.{Engine}
use cs.Ledger.Rows.{Book, Tables, LedgerError, bad_value}
use cs.Ledger.Accounts.{World, ensure_granted}
use cs.Ledger.Books.{MarketTerms, ensure_open}
use cs.Ledger.Gates.{AuthAnswer, refuse_if_suspended, ensure_trading}
use cs.Ledger.Session.{Session, ◌>>=◌, ◌>>◌, return, reading, committing, meanwhile_commits}
use cs.Ledger.Trading.{TradeRequest, TradeResult, replay_if_present}
use cs.Ledger.Trading.Planning.{trade_key, plan_trade}
use cs.Ledger.Trading.Frames.{Executed, answered_again, post_trade_batch, answer_of}

pub record Environment : Type 0 where
  pub auth_answer : AuthAnswer
  pub gate_terms : Outcome LedgerError MarketTerms
  pub opening_terms : Outcome LedgerError MarketTerms
  pub opening_ids : ℕ → ℕ
  pub grant_ids : ℕ → ℕ
  pub new_ids : ℕ → ℕ
  pub opening_time : ℕ
  pub grant_time : ℕ
  pub now : ℕ
  pub starting_credits : Decimal
  pub meanwhile : Tables → Tables

-- The two lookups, unlocked and locked: a hit is answered, and a miss goes on.
abbrev pub unless_present : Option TradeResult → Session Executed → Session Executed
unless_present (some result) go_on = return (answered_again result)
unless_present none go_on = go_on

-- The two commits before the book's lock, and the tables that the lock then finds
abbrev pub opening : World → Environment → ℕ → Session Book
opening world env market_id =
    committing
      (λ s. ensure_open world env.opening_ids env.opening_time market_id env.opening_terms s)

abbrev pub granting : World → Environment → ℕ → Session ℕ
granting world env user_id =
    committing
      (λ s. ensure_granted world env.grant_ids false env.grant_time env.starting_credits user_id s)

abbrev pub tables_at_lock : World → Environment → ℕ → ℕ → Tables → Tables
tables_at_lock world env market_id user_id s =
    env.meanwhile (granting world env user_id (opening world env market_id s).1).1

module _ (engine : Engine) (world : World) (env : Environment) (request : TradeRequest) where
  abbrev pub key_of : Text
  key_of = trade_key world request.user_id request.market_id request.idempotency_key

  -- Steps 6 to 13
  unfoldable pub trade_under_lock : Session Executed
  unfolding plan_trade post_trade_batch answer_of
  trade_under_lock = do
    plan ← reading (λ s. plan_trade engine world env.now request s)
    transactions ← committing (λ s. post_trade_batch world env.new_ids env.now key_of plan s)
    reading (λ s. answer_of engine env.now plan transactions)

  -- Steps 1b to 5, and the lookup again under the lock
  unfoldable pub trade_anew : Session Executed
  unfolding refuse_if_suspended ensure_trading ensure_open ensure_granted replay_if_present
      trade_under_lock
  trade_anew = do
    reading (λ s. refuse_if_suspended env.auth_answer)
    reading (λ s. ensure_trading s request.market_id env.gate_terms)
    opening world env request.market_id
    granting world env request.user_id
    meanwhile_commits env.meanwhile
    present ← reading (λ s. replay_if_present s.transactions key_of request)
    unless_present present trade_under_lock

  unfoldable pub execute : Session Executed
  unfolding replay_if_present trade_anew
  execute = do
    reading (λ s. raise_if (leb_ℤ request.quantity (pos 0)) bad_value)
    present ← reading (λ s. replay_if_present s.transactions key_of request)
    unless_present present trade_anew
