-- ===== src/Market/Tests.antt =====
-- One market through market_service.py, from its draft to its settlement.
mod Examples
use cs.Base.{
  ℕ, suc, ◌+◌, ◌≤◌, ◌≡◌, refl, inl, inr, Bool, true, false, not, Option, none, some, List, [], ◌∷◌,
  Outcome, ok, err, raise_if, is_ok, ◌++◌, ◌⊎◌, ◌↔◌, arith,
}
use cs.Base.Int.{ℤ, pos}
use cs.Base.Text.{Text, strip, text_eq}
use cs.Market.{Market, Actor, MarketStatus, status_is, approved, settled, voided}
use cs.Market.Validation.{
  Problem, OutcomeProposalRequest, problems_blocking_submission, problems_blocking_proposal,
  reason_problems,
}
use cs.Market.Lifecycle.Rows.{
  Store, MarketError, load, commit, refuse_if_problems, raise_found, frozen_status_error,
  past_decision_status_error, resolution_status_error, refuse_if_superseded,
  second_administrator_required,
}
use cs.Market.Lifecycle.Steps.{
  Settings, Written, publish, propose_outcome, approve_outcome, proposal_to_decide, settle, void,
  send_back_outcome, refuse_if_not_returnable,
}
use cs.Market.Lifecycle.Saves.{
  DraftRequest, save_once, new_market, apply, find_by_draft_key, close_due_markets, close_row,
}
use cs.Market.Lifecycle.Reach.{
  Request, publishing, proposing, approving, settling, voiding, handle, init, Reach, started, next,
  Step, handled, saved, swept, IsUnused,
}
use cs.Market.Settling.{voidable, settleable, dispute_window_ends_at, is_in_dispute_window}
use cs.Market.Audit.{AuditEntry}
use cs.Market.Validation.Complete.{problems_blocking_submission-IsSubmittable}
use cs.Market.Lifecycle.Invariant.{IsSound, Reach-IsSound}
use cs.Market.Lifecycle.Edges.{settle-void_exclusive, send_back_before_settle, voidable-void}
use cs.Market.Lifecycle.Diagram.{IsFinal}
use cs.Market.Lifecycle.Log.{IsKeyed, handle-final, handle-log}

abbrev pub settings : Settings
settings = record {
  casefold = λ t. t;
  is_reachable_url = λ _. true;
  dispute_window_seconds = 60;
  default_liquidity_b = pos 1000000;
}

abbrev pub alice : Actor
alice = record { id = 1; username = 97 ∷ []; role = 120 ∷ [] }

abbrev pub bob : Actor
bob = record { id = 2; username = 98 ∷ []; role = 120 ∷ [] }

-- Ten characters and a last one.
abbrev pub text_ending : ℕ → Text
text_ending c = 97 ∷ 98 ∷ 99 ∷ 100 ∷ 101 ∷ 102 ∷ 103 ∷ 104 ∷ 105 ∷ 106 ∷ c ∷ []

abbrev form : DraftRequest
form = record {
  draft_key = 9;
  submitting = true;
  question = some (text_ending 63);
  description = none;
  outcomes = some (121 ∷ []) ∷ some (110 ∷ []) ∷ [];
  close_time = some 500;
  resolution_time = some 1000;
  resolution_criteria = some (text_ending 46);
  resolution_sources = record { url = some (104 ∷ []); label = none } ∷ [];
  liquidity_b = none;
  seed_subsidy = some (pos 1000000);
}

abbrev evidence : OutcomeProposalRequest
evidence = record { winning_outcome_id = 100; evidence_url = some (104 ∷ []); evidence_note = none }

abbrev result_of : {E A : Type 0} → A → Outcome E A → A
result_of junk (ok a) = a
result_of junk (err e) = junk

pub result_of-ok :
    {E A : Type 0} (junk : A) (o : Outcome E A) → is_ok o ≡ true → o ≡ ok (result_of junk o)
result_of-ok junk (ok a) h = refl
result_of-ok junk (err e) h = cc

abbrev pub blank : Market
blank = new_market 5 alice form (apply (λ i. 100 + i) form (pos 1000000))

abbrev saving : Outcome MarketError (Market × List Problem × Bool × Store)
saving = save_once settings (λ i. 100 + i) 5 alice form 10 init

abbrev saved_store : Store
saved_store = (result_of (blank, [], true, init) saving).3

saving-ok : is_ok saving ≡ true
unfolding save_once apply find_by_draft_key refuse_if_problems problems_blocking_submission strip
    text_eq
saving-ok = refl

-- One request's store, and that the request is accepted.
abbrev pub after : Actor → Request → ℕ → Store → Store
after actor request now s = (result_of (blank, s) (handle settings actor request now s)).1

abbrev published : Store
published = after alice (publishing 5) 20 saved_store

-- The close time passes, and the sweep closes the market.
abbrev swept_store : Store
swept_store = (close_due_markets 10 600 published).1

abbrev pub proposed : Store
proposed = after alice (proposing 5 evidence 77) 700 swept_store

abbrev pub agreed : Store
agreed = after bob (approving 5 (some 77)) 800 proposed

published-ok : is_ok (handle settings alice (publishing 5) 20 saved_store) ≡ true
unfolding handle settle send_back_outcome voidable publish propose_outcome approve_outcome
    proposal_to_decide load close_due_markets close_row save_once find_by_draft_key
    refuse_if_problems problems_blocking_submission problems_blocking_proposal strip apply text_eq
    raise_found frozen_status_error raise_if status_is commit refuse_if_superseded
    past_decision_status_error resolution_status_error settleable dispute_window_ends_at
    refuse_if_not_returnable is_in_dispute_window reason_problems
published-ok = refl

proposed-ok : is_ok (handle settings alice (proposing 5 evidence 77) 700 swept_store) ≡ true
unfolding handle settle send_back_outcome voidable publish propose_outcome approve_outcome
    proposal_to_decide load close_due_markets close_row save_once find_by_draft_key
    refuse_if_problems problems_blocking_submission problems_blocking_proposal strip apply text_eq
    raise_found frozen_status_error raise_if status_is commit refuse_if_superseded
    past_decision_status_error resolution_status_error settleable dispute_window_ends_at
    refuse_if_not_returnable is_in_dispute_window reason_problems
proposed-ok = refl

pub agreed-ok : is_ok (handle settings bob (approving 5 (some 77)) 800 proposed) ≡ true
unfolding handle settle send_back_outcome voidable publish propose_outcome approve_outcome
    proposal_to_decide load close_due_markets close_row save_once find_by_draft_key
    refuse_if_problems problems_blocking_submission problems_blocking_proposal strip apply text_eq
    raise_found frozen_status_error raise_if status_is commit refuse_if_superseded
    past_decision_status_error resolution_status_error settleable dispute_window_ends_at
    refuse_if_not_returnable is_in_dispute_window reason_problems
agreed-ok = refl

-- The proposer cannot approve.
alone-refused :
    handle settings alice (approving 5 (some 77)) 800 proposed ≡ err second_administrator_required
unfolding handle settle send_back_outcome voidable publish propose_outcome approve_outcome
    proposal_to_decide load close_due_markets close_row save_once find_by_draft_key
    refuse_if_problems problems_blocking_submission problems_blocking_proposal strip apply text_eq
    raise_found frozen_status_error raise_if status_is commit refuse_if_superseded
    past_decision_status_error resolution_status_error settleable dispute_window_ends_at
    refuse_if_not_returnable is_in_dispute_window reason_problems
alone-refused = refl

request-ok :
    (actor : Actor) (request : Request) (now : ℕ) (s : Store)
    → is_ok (handle settings actor request now s) ≡ true
    → Step settings s (after actor request now s)
request-ok actor request now s h =
    handled actor request now (result_of-ok (blank, s) (handle settings actor request now s) h)

pub agreed-Reach : Reach settings agreed
agreed-Reach =
    next
      (next
        (next
          (next
            (next started
              (saved (λ i. 100 + i) 5 alice form 10 tt (result_of-ok _ saving saving-ok)))
            (request-ok alice (publishing 5) 20 saved_store published-ok))
          (swept 10 600 refl))
        (request-ok alice (proposing 5 evidence 77) 700 swept_store proposed-ok))
      (request-ok bob (approving 5 (some 77)) 800 proposed agreed-ok)

abbrev pub agreed_market : Market
agreed_market = result_of blank (load none 5 agreed.markets)

loaded-ok : is_ok (load none 5 agreed.markets) ≡ true
unfolding handle settle send_back_outcome voidable publish propose_outcome approve_outcome
    proposal_to_decide load close_due_markets close_row save_once find_by_draft_key
    refuse_if_problems problems_blocking_submission problems_blocking_proposal strip apply text_eq
    raise_found frozen_status_error raise_if status_is commit refuse_if_superseded
    past_decision_status_error resolution_status_error settleable dispute_window_ends_at
    refuse_if_not_returnable is_in_dispute_window reason_problems
loaded-ok = refl

pub agreed-found : load none 5 agreed.markets ≡ ok agreed_market
agreed-found = result_of-ok blank (load none 5 agreed.markets) loaded-ok

pub agreed-approved : agreed_market.status ≡ approved
unfolding handle settle send_back_outcome voidable publish propose_outcome approve_outcome
    proposal_to_decide load close_due_markets close_row save_once find_by_draft_key
    refuse_if_problems problems_blocking_submission problems_blocking_proposal strip apply text_eq
    raise_found frozen_status_error raise_if status_is commit refuse_if_superseded
    past_decision_status_error resolution_status_error settleable dispute_window_ends_at
    refuse_if_not_returnable is_in_dispute_window reason_problems
agreed-approved = refl

-- The window ends sixty seconds after the approval at 800.
pub agreed-window : agreed_market.dispute_window_ends_at ≡ some 60000800
unfolding handle settle send_back_outcome voidable publish propose_outcome approve_outcome
    proposal_to_decide load close_due_markets close_row save_once find_by_draft_key
    refuse_if_problems problems_blocking_submission problems_blocking_proposal strip apply text_eq
    raise_found frozen_status_error raise_if status_is commit refuse_if_superseded
    past_decision_status_error resolution_status_error settleable dispute_window_ends_at
    refuse_if_not_returnable is_in_dispute_window reason_problems
agreed-window = refl

pub sent_back-ok : is_ok (send_back_outcome bob 5 (some 77) (text_ending 46) 900 agreed) ≡ true
unfolding handle settle send_back_outcome voidable publish propose_outcome approve_outcome
    proposal_to_decide load close_due_markets close_row save_once find_by_draft_key
    refuse_if_problems problems_blocking_submission problems_blocking_proposal strip apply text_eq
    raise_found frozen_status_error raise_if status_is commit refuse_if_superseded
    past_decision_status_error resolution_status_error settleable dispute_window_ends_at
    refuse_if_not_returnable is_in_dispute_window reason_problems
sent_back-ok = refl

pub agreed-voidable : voidable agreed_market.status agreed_market.dispute_window_ends_at 900 ≡ true
unfolding handle settle send_back_outcome voidable publish propose_outcome approve_outcome
    proposal_to_decide load close_due_markets close_row save_once find_by_draft_key
    refuse_if_problems problems_blocking_submission problems_blocking_proposal strip apply text_eq
    raise_found frozen_status_error raise_if status_is commit refuse_if_superseded
    past_decision_status_error resolution_status_error settleable dispute_window_ends_at
    refuse_if_not_returnable is_in_dispute_window reason_problems
agreed-voidable = refl

-- Five minutes after the window, the market settles; a second settle step repeats the first.
abbrev pub settled_store : Store
settled_store = after bob (settling 5) 360000800 agreed

abbrev pub settled_market : Market
settled_market = result_of blank (load none 5 settled_store.markets)

pub settled-loaded : is_ok (load none 5 settled_store.markets) ≡ true
unfolding handle settle send_back_outcome voidable publish propose_outcome approve_outcome
    proposal_to_decide load close_due_markets close_row save_once find_by_draft_key
    refuse_if_problems problems_blocking_submission problems_blocking_proposal strip apply text_eq
    raise_found frozen_status_error raise_if status_is commit refuse_if_superseded
    past_decision_status_error resolution_status_error settleable dispute_window_ends_at
    refuse_if_not_returnable is_in_dispute_window reason_problems
settled-loaded = refl

pub settled-IsFinal : IsFinal settled_market
unfolding handle settle send_back_outcome voidable publish propose_outcome approve_outcome
    proposal_to_decide load close_due_markets close_row save_once find_by_draft_key
    refuse_if_problems problems_blocking_submission problems_blocking_proposal strip apply text_eq
    raise_found frozen_status_error raise_if status_is commit refuse_if_superseded
    past_decision_status_error resolution_status_error settleable dispute_window_ends_at
    refuse_if_not_returnable is_in_dispute_window reason_problems
settled-IsFinal = inl refl

pub settled-again : is_ok (handle settings alice (settling 5) 360000900 settled_store) ≡ true
unfolding handle settle send_back_outcome voidable publish propose_outcome approve_outcome
    proposal_to_decide load close_due_markets close_row save_once find_by_draft_key
    refuse_if_problems problems_blocking_submission problems_blocking_proposal strip apply text_eq
    raise_found frozen_status_error raise_if status_is commit refuse_if_superseded
    past_decision_status_error resolution_status_error settleable dispute_window_ends_at
    refuse_if_not_returnable is_in_dispute_window reason_problems
settled-again = refl

pub settled-IsKeyed : IsKeyed settled_store.markets
unfolding handle settle send_back_outcome voidable publish propose_outcome approve_outcome
    proposal_to_decide load close_due_markets close_row save_once find_by_draft_key
    refuse_if_problems problems_blocking_submission problems_blocking_proposal strip apply text_eq
    raise_found frozen_status_error raise_if status_is commit refuse_if_superseded
    past_decision_status_error resolution_status_error settleable dispute_window_ends_at
    refuse_if_not_returnable is_in_dispute_window reason_problems
settled-IsKeyed = (tt, tt)

pub proposed-IsKeyed : IsKeyed proposed.markets
unfolding handle settle send_back_outcome voidable publish propose_outcome approve_outcome
    proposal_to_decide load close_due_markets close_row save_once find_by_draft_key
    refuse_if_problems problems_blocking_submission problems_blocking_proposal strip apply text_eq
    raise_found frozen_status_error raise_if status_is commit refuse_if_superseded
    past_decision_status_error resolution_status_error settleable dispute_window_ends_at
    refuse_if_not_returnable is_in_dispute_window reason_problems
proposed-IsKeyed = (tt, tt)

-- The row that the approval returns.
abbrev pub approved_row : Market
approved_row =
    (result_of (blank, proposed) (handle settings bob (approving 5 (some 77)) 800 proposed)).0
