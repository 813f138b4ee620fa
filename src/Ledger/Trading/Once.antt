-- ===== src/Ledger/Trading/Once.antt =====
-- backend/ledger_service/service/trading.py: a request sent again is answered as it was the first time.
use cs.Base.{
  ℕ, ◌≡◌, refl, true, false, Option, Option-cases, some, List, length, ok, Outcome, inl, inr, sym,
  ◌∙◌, ap, arith, ok_injective, subst, raise_if, >>=-eq-ok, ==-refl,
}
use cs.Base.Int.{ℤ, pos, negsuc, pos_part, leb_ℤ, eqb_ℤ}
use cs.Base.Text.{Text}
use cs.Ledger.Lmsr.{Engine}
use cs.Ledger.Pricing.{Side, buy, sell, is_buy, TradeCost, trade_cost_of}
use cs.Ledger.Rows.{
  Tables, LedgerError, Transaction, TransactionContext, no_context, granted, paid, of_market,
  traded, Book, Position,
}
use cs.Ledger.Accounts.{World}
use cs.Ledger.Posting.{find_by_idempotency_key}
use cs.Ledger.BookPrices.{priced_by, q_of, b_of, refuse_unpriceable_book, index_in}
use cs.Ledger.Session.{◌>>=◌, then_with}
use cs.Ledger.Trading.{
  TradeRequest, TradeResult, Pending, matches, same_side, trade_result_of, replay_if_present,
  flushed, write_trade,
}
use cs.Ledger.Trading.Filling.{trade_movement_of, write_cascade}
use cs.Ledger.Trading.Planning.{
  PlannedTrade, trade_key, lock_book, pending_of, movement_of_trade, trade_of, check_holding,
  write_trade_and_cascade, plan_at, plan_on, plan_trade,
}
use cs.Ledger.Trading.Frames.{
  Executed, answered_again, post_trade_batch, movements_of_fills, batch_refusal_of,
}
use cs.Ledger.Trading.Execute.{Environment, key_of, unless_present, trade_anew, execute}
use cs.Ledger.Trading.Backed.{refused_as-ok}
use cs.Ledger.Trading.Answers.{answer_of-IsAnswer, post_all-IsFirstRow}
use cs.Ledger.Trading.Cases.{execute-cases, IsCommitted, trade_under_lock-IsCommitted}

-- The request again, quoting the counter that the client has by then
unfoldable pub again : TradeRequest → ℕ → TradeRequest
again request state_version = record request { state_version = state_version }

same_side_refl : (s : Side) → same_side s s ≡ true
unfolding same_side is_buy
same_side_refl buy = refl
same_side_refl sell = refl

pos_part-eqb : (q : ℤ) → leb_ℤ q (pos 0) ≡ false → eqb_ℤ (pos (pos_part q)) q ≡ true
pos_part-eqb (pos n) h = ground arith
pos_part-eqb (negsuc n) h = ground arith

-- The movement of a plan is under the request's key and matches it.
record IsOwnMovement (world : World) (request : TradeRequest) (plan : PlannedTrade) : Type 0 where
  own_key :
      plan.movement.idempotency_key
      ≡ trade_key world request.user_id request.market_id request.idempotency_key
  own_match : matches plan.movement.context request ≡ true

write_trade_and_cascade-IsOwnMovement :
    (e : Engine) (world : World) (now : ℕ) (request : TradeRequest) (index : ℕ)
    (position : Option Position) (cost : TradeCost) (read : Pending) {plan : PlannedTrade}
    → leb_ℤ request.quantity (pos 0) ≡ false
    → write_trade_and_cascade e world now request index position
        (trade_of request (pos_part request.quantity) cost)
        read
      ≡ ok plan
    → IsOwnMovement world request plan
unfolding write_trade_and_cascade movement_of_trade trade_movement_of trade_of matches
write_trade_and_cascade-IsOwnMovement e world now request index position cost read positive h =
    let trade = trade_of request (pos_part request.quantity) cost in
    let (rows, wrote, h₁) = >>=-eq-ok (write_trade read index position trade now) _ h in
    let (filled, cascade, h₂) = >>=-eq-ok (write_cascade e world now rows) _ h₁ in
    subst (IsOwnMovement world request) (ok_injective h₂) (record {
      own_key = refl;
      own_match =
          rw
            (
              ==-refl request.outcome_id,
              same_side_refl request.side,
              pos_part-eqb request.quantity positive,
            )
            refl;
    })

plan_on-IsOwnMovement :
    (e : Engine) (world : World) (now : ℕ) (request : TradeRequest) (s : Tables) (book : Book)
    {plan : PlannedTrade}
    → leb_ℤ request.quantity (pos 0) ≡ false
    → plan_on e world now request s book ≡ ok plan
    → IsOwnMovement world request plan
unfolding plan_on plan_at
plan_on-IsOwnMovement e world now request s book positive h =
    let read = pending_of s book in
    let (u, unresolved, h₂) = >>=-eq-ok (raise_if _ _) _ h in
    let (v, priceable, h₃) =
      >>=-eq-ok (refuse_unpriceable_book (length read.book.outcomes) book.liquidity_b) _ h₂ in
    let (w, current, h₄) = >>=-eq-ok (raise_if _ _) _ h₃ in
    let (index, place, h₅) = >>=-eq-ok (index_in request.outcome_id read.book.outcomes) _ h₄ in
    let (z, held, h₆) =
      >>=-eq-ok (check_holding request.side s _ _ _ _ (pos_part request.quantity)) _ h₅ in
    let (cost, priced, h₇) =
      >>=-eq-ok
        (priced_by (
          trade_cost_of e (q_of read.book.outcomes) (b_of read.book) index request.side
            (pos_part request.quantity)))
        _ h₆ in
    write_trade_and_cascade-IsOwnMovement e world now request index _ cost read positive h₇

plan_trade-IsOwnMovement :
    (e : Engine) (world : World) (now : ℕ) (request : TradeRequest) (s : Tables)
    {plan : PlannedTrade}
    → leb_ℤ request.quantity (pos 0) ≡ false
    → plan_trade e world now request s ≡ ok plan
    → IsOwnMovement world request plan
unfolding plan_trade
plan_trade-IsOwnMovement e world now request s positive h =
    let (book, locked, h₁) = >>=-eq-ok (lock_book s request.market_id) _ h in
    plan_on-IsOwnMovement e world now request s book positive h₁

-- A lookup that finds a matching row
replay_if_present-found :
    (transactions : List Transaction) (key : Text) (request : TradeRequest) (row : Transaction)
    {result : TradeResult}
    → find_by_idempotency_key transactions key ≡ some row
    → matches row.context request ≡ true
    → trade_result_of row ≡ ok result
    → replay_if_present transactions key request ≡ ok (some result)
unfolding replay_if_present raise_if
replay_if_present-found transactions key request row found same read =
    rw (found, replay_if_present, same, read) refl

matches-again :
    (context : TransactionContext) (request : TradeRequest) (version : ℕ)
    → matches context (again request version) ≡ matches context request
unfolding matches again
matches-again no_context request version = refl
matches-again (granted u) request version = refl
matches-again (paid u m o q) request version = refl
matches-again (of_market m) request version = refl
matches-again (traded c) request version = refl

replay_if_present-again :
    (transactions : List Transaction) (key : Text) (request : TradeRequest) (version : ℕ)
    → replay_if_present transactions key (again request version)
      ≡ replay_if_present transactions key request
unfolding replay_if_present
replay_if_present-again transactions key request version =
    elim (Option-cases (find_by_idempotency_key transactions key)) [
      | inl e ↦ rw (e, replay_if_present) refl
      | inr (t, e) ↦ rw (e, replay_if_present, matches-again t.context request version) refl
    ]

committed-kept :
    (engine : Engine) (world : World) (env : Environment) (request : TradeRequest) (x : Executed)
    (after locked : Tables)
    → leb_ℤ request.quantity (pos 0) ≡ false
    → IsCommitted engine world env request x after locked
    → replay_if_present after.transactions (key_of engine world env request) request
      ≡ ok (some x.result)
unfolding post_trade_batch
committed-kept engine world env request x after locked positive committed =
    let plan = committed.plan in
    let own =
      plan_trade-IsOwnMovement engine world env.now request locked positive committed.planned in
    let first =
      post_all-IsFirstRow world.hashing world.account env.new_ids env.now plan.movement
        (movements_of_fills plan.fills) (flushed locked plan.pending)
        (refused_as-ok (batch_refusal_of (key_of engine world env request)) _ committed.posted) in
    let answer =
      answer_of-IsAnswer engine env.now plan committed.transactions first.row first.is_first
        committed.answered in
    replay_if_present-found after.transactions _ request first.row
      (ap (find_by_idempotency_key after.transactions) (sym own.own_key) ∙ first.by_key)
      (ap (λ c. matches c request) first.own_context ∙ own.own_match) answer.result_of_row

lookup_step :
    (engine : Engine) (world : World) (env : Environment) (request : TradeRequest) (s : Tables)
    (looked : Outcome LedgerError (Option TradeResult)) {result : TradeResult}
    → looked ≡ ok (some result)
    → then_with (looked, s) (λ found. unless_present found (trade_anew engine world env request))
      ≡ (ok (answered_again result), s)
lookup_step engine world env request s looked h = rw h refl

answered_once :
    (engine : Engine) (world : World) (env env' : Environment) (request : TradeRequest)
    (version : ℕ) (s : Tables) {result : TradeResult}
    → leb_ℤ request.quantity (pos 0) ≡ false
    → replay_if_present s.transactions (key_of engine world env request) request ≡ ok (some result)
    → execute engine world env' (again request version) s ≡ (ok (answered_again result), s)
unfolding execute ◌>>=◌ raise_if again
answered_once engine world env env' request version s positive kept = rw positive (
    lookup_step engine world env' (again request version) s _ (
      replay_if_present-again s.transactions (key_of engine world env request) request version
      ∙ kept))

-- Once `execute` has returned an answer, the same request sent again, with any quoted counter, whatever the other services
-- answer by then and wherever the market stands, gets the same answer, publishes nothing and changes no
-- table.
pub execute-replayed :
    (engine : Engine) (world : World) (env env' : Environment) (request : TradeRequest)
    (version : ℕ) (s : Tables) (x : Executed) (after : Tables)
    → execute engine world env request s ≡ (ok x, after)
    → execute engine world env' (again request version) after
      ≡ (ok (answered_again x.result), after)
execute-replayed engine world env env' request version s x after h =
    let (positive, how) = execute-cases engine world env request x after s h in
    answered_once engine world env env' request version after positive (elim how [
      | inl repeated ↦
          repeated.kept ∙ ap (λ (y : Executed). ok (some y.result)) (sym repeated.answer)
      | inr reached ↦ committed-kept engine world env request x after reached.locked positive (
          trade_under_lock-IsCommitted engine world env request x after reached.locked
            reached.traded_there)
    ])
