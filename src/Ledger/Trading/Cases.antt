-- ===== src/Ledger/Trading/Cases.antt =====
-- backend/ledger_service/service/trading.py: the two ways that `execute` returns.
use cs.Base.{
  ◌≡◌, refl, false, Option, none, some, List, ok, ok_injective, ◌⊎◌, inl, inr, raise_if-ok, sym,
  ◌∙◌, ap, subst,
}
use cs.Base.Int.{pos, leb_ℤ}
use cs.Ledger.Lmsr.{Engine}
use cs.Ledger.Rows.{Tables, Transaction, bad_value}
use cs.Ledger.Accounts.{World}
use cs.Ledger.Gates.{refuse_if_suspended, ensure_trading}
use cs.Ledger.Session.{committed_by-ok, Session, committing-Keeps, >>=-returned}
use cs.Ledger.Trading.{TradeRequest, TradeResult, replay_if_present}
use cs.Ledger.Trading.Planning.{PlannedTrade, plan_trade}
use cs.Ledger.Trading.Frames.{Executed, answered_again, post_trade_batch, answer_of}
use cs.Ledger.Trading.Execute.{
  Environment, tables_at_lock, unless_present, key_of, trade_under_lock, trade_anew, execute,
}
use cs.Ledger.Trading.Backed.{IsBacked, ensure_open-IsBacked, ensure_granted-IsBacked}

module _ (engine : Engine) (world : World) (env : Environment) (request : TradeRequest)
    (x : Executed) (after : Tables) where
  -- A committed trade had the key: it is answered, and nothing is published.
  pub record Repeated : Type 0 where
    pub result : TradeResult
    pub answer : x ≡ answered_again result
    pub kept :
        replay_if_present after.transactions (key_of engine world env request) request
        ≡ ok (some result)

  -- The request passed the account check and the gate, and was traded on the tables that it locked.
  pub record Reached (s : Tables) : Type 0 where
    pub allowed : refuse_if_suspended env.auth_answer ≡ ok tt
    pub trading : ensure_trading s request.market_id env.gate_terms ≡ ok tt
    pub locked : Tables
    pub at_lock : locked ≡ tables_at_lock world env request.market_id request.user_id s
    pub missed :
        replay_if_present locked.transactions (key_of engine world env request) request ≡ ok none
    pub traded_there : trade_under_lock engine world env request locked ≡ (ok x, after)
    pub still_backed :
        ((t : Tables) → IsBacked t → IsBacked (env.meanwhile t)) → IsBacked s → IsBacked locked

  unless_present-cases :
      (t : Tables) (found : Option TradeResult) (go_on : Session Executed)
      → replay_if_present t.transactions (key_of engine world env request) request ≡ ok found
      → unless_present found go_on t ≡ (ok x, after)
      → Repeated ⊎ ((found ≡ none) × (go_on t ≡ (ok x, after)))
  unless_present-cases t none go_on looked h = inr (refl, h)
  unless_present-cases t (some result) go_on looked h = inl (record {
    result = result;
    answer = sym (ok_injective (ap (λ p. p.0) h));
    kept =
        subst
          (λ a.
            replay_if_present a.transactions (key_of engine world env request) request
            ≡ ok (some result))
          (ap (λ p. p.1) h) looked;
  })

  trade_anew-cases :
      (s : Tables) → trade_anew engine world env request s ≡ (ok x, after) → Repeated ⊎ Reached s
  unfolding trade_anew
  trade_anew-cases s h =
      let (u, allowed, h₁) = >>=-returned _ _ s h in
      let (v, trading, h₂) = >>=-returned _ _ s h₁ in
      let (book, opened, h₃) = >>=-returned _ _ s h₂ in
      let (id, granted, h₄) = >>=-returned _ _ _ h₃ in
      let (w, others, h₅) = >>=-returned _ _ _ h₄ in
      let (found, looked, h₆) = >>=-returned _ _ _ h₅ in
      let locked = tables_at_lock world env request.market_id request.user_id s in
      elim (unless_present-cases locked found _ looked h₆) [
        | inl repeated ↦ inl repeated
        | inr (missing, traded) ↦ inr (record {
          allowed = allowed;
          trading = trading;
          locked = locked;
          at_lock = refl;
          missed = looked ∙ ap ok missing;
          traded_there = traded;
          still_backed = λ others_keep backed. others_keep _ (
              committing-Keeps IsBacked _
                (λ t i a.
                  ensure_granted-IsBacked world env.grant_ids false env.grant_time
                    env.starting_credits request.user_id t i a)
                _
                (committing-Keeps IsBacked _
                  (λ t b a.
                    ensure_open-IsBacked world env.opening_ids env.opening_time request.market_id
                      env.opening_terms t b a)
                  s backed));
        })
      ]

  -- A request that returned asked for more than nothing, and either repeated a trade or reached its own.
  pub execute-cases :
      (s : Tables)
      → execute engine world env request s ≡ (ok x, after)
      → (leb_ℤ request.quantity (pos 0) ≡ false) × (Repeated ⊎ Reached s)
  unfolding execute
  execute-cases s h =
      let (u, positive, h₁) = >>=-returned _ _ s h in
      let (found, looked, h₂) = >>=-returned _ _ s h₁ in
      (
        raise_if-ok (leb_ℤ request.quantity (pos 0)) bad_value positive,
        elim (unless_present-cases s found _ looked h₂) [
          | inl repeated ↦ inl repeated
          | inr (missing, anew) ↦ trade_anew-cases s anew
        ],
      )

-- A trade that returned planned, committed its batch and answered.
pub record IsCommitted (engine : Engine) (world : World) (env : Environment)
    (request : TradeRequest) (x : Executed) (after locked : Tables) : Type 0 where
  pub plan : PlannedTrade
  pub planned : plan_trade engine world env.now request locked ≡ ok plan
  pub transactions : List Transaction
  pub posted :
      post_trade_batch world env.new_ids env.now (key_of engine world env request) plan locked
      ≡ ok (transactions, after)
  pub answered : answer_of engine env.now plan transactions ≡ ok x

pub trade_under_lock-IsCommitted :
    (engine : Engine) (world : World) (env : Environment) (request : TradeRequest) (x : Executed)
    (after locked : Tables)
    → trade_under_lock engine world env request locked ≡ (ok x, after)
    → IsCommitted engine world env request x after locked
unfolding trade_under_lock
trade_under_lock-IsCommitted engine world env request x after locked h =
    let (plan, planned, h₁) = >>=-returned _ _ locked h in
    let (transactions, posted, h₂) = >>=-returned _ _ locked h₁ in
    let key = key_of engine world env request in
    let batch = post_trade_batch world env.new_ids env.now key plan locked in
    record {
      plan = plan;
      planned = planned;
      transactions = transactions;
      posted =
          committed_by-ok locked batch posted ∙ ap (λ t. ok (transactions, t)) (ap (λ p. p.1) h₂);
      answered = ap (λ p. p.0) h₂;
    }
