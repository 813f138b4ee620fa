-- ===== src/Market/Lifecycle/Effects.antt =====
-- What each operation of Steps does, when it returns: the row it found, and one edge of the
-- diagram with its entry, or nothing.
use cs.Base.{
  ℕ, ◌≡◌, refl, ◌≢◌, true, false, not, Option, none, some, arith, ok, >>=-eq-ok, raise_if,
}
use cs.Base.Text.{Text}
use cs.Market.{submitted, opened, closed, pending_resolution, approved, status_is, Market, Actor}
use cs.Market.Settling.{is_open_for_trading, is_in_dispute_window, dispute_window_ends_at}
use cs.Market.Validation.{OutcomeProposalRequest}
use cs.Market.Audit.{
  record_publication, record_early_close, record_proposal, record_approval, record_rejection,
  record_send_back,
}
use cs.Market.Lifecycle.Rows.{
  Store, refuse_if_problems, past_decision_status_error, resolution_status_error,
  frozen_status_error, raise_found, load, clear_proposal, id_eq, refuse_if_superseded,
  market_not_submitted, market_not_open, market_closed, market_not_closed,
}
use cs.Market.Lifecycle.Steps.{
  Settings, publish, close_early, propose_outcome, proposal_to_decide, approve_outcome,
  reject_outcome, refuse_if_not_returnable, returned_row, send_back_outcome,
}
use cs.Market.Lifecycle.Diagram.{
  publishes, stops, proposes, agrees, rejects, sends_back, Changes, Change-of, committed,
}

publishable :
    (m : Market)
    → raise_found (frozen_status_error m.status) ≡ ok tt
    → raise_if (not (status_is m.status submitted)) market_not_submitted ≡ ok tt
    → m.status ≡ submitted
unfolding status_is raise_if
publishable m thawed h = ground arith

pub publish-Change :
    (settings : Settings) (actor : Actor) (id now : ℕ) (s : Store) {m' : Market} {t : Store}
    → publish settings actor id now s ≡ ok (m', t)
    → Changes (some actor.id) id s m' t
unfolding publish record_publication
publish-Change settings actor id now s h =
    let (m, found, h₁) = >>=-eq-ok (load (some actor.id) id s.markets) _ h in
    let (_, thawed, h₂) = >>=-eq-ok (raise_found (frozen_status_error m.status)) _ h₁ in
    let (_, sent, h₃) = >>=-eq-ok (raise_if _ market_not_submitted) _ h₂ in
    let (_, _, h₄) = >>=-eq-ok (refuse_if_problems _ _) _ h₃ in
    committed (some actor.id) id found
      (Change-of (publishable m thawed sent) refl refl publishes (refl, refl, refl) (λ w. w)) h₄

tradable :
    (m : Market) (now : ℕ)
    → raise_if (not (is_open_for_trading m now)) market_closed ≡ ok tt
    → m.status ≡ opened
unfolding is_open_for_trading raise_if
tradable m now h = ground arith

pub close_early-Change :
    (actor : Actor) (id : ℕ) (reason : Text) (now : ℕ) (s : Store) {m' : Market} {t : Store}
    → close_early actor id reason now s ≡ ok (m', t)
    → Changes none id s m' t
unfolding close_early record_early_close
close_early-Change actor id reason now s h =
    let (m, found, h₁) = >>=-eq-ok (load none id s.markets) _ h in
    let (_, _, h₂) = >>=-eq-ok (raise_found (resolution_status_error m.status)) _ h₁ in
    let (_, _, h₃) = >>=-eq-ok (raise_if _ market_not_open) _ h₂ in
    let (_, trading, h₄) = >>=-eq-ok (raise_if _ market_closed) _ h₃ in
    let (_, _, h₅) = >>=-eq-ok (refuse_if_problems _ _) _ h₄ in
    committed none id found
      (Change-of (tradable m now trading) refl refl stops (refl, refl, refl) (λ w. w)) h₅

stopped :
    (m : Market)
    → raise_if (not (status_is m.status closed)) market_not_closed ≡ ok tt
    → m.status ≡ closed
unfolding status_is raise_if
stopped m h = ground arith

pub propose_outcome-Change :
    (settings : Settings) (actor : Actor) (id : ℕ) (request : OutcomeProposalRequest)
    (fresh now : ℕ) (s : Store) {m' : Market} {t : Store}
    → propose_outcome settings actor id request fresh now s ≡ ok (m', t)
    → Changes (some actor.id) id s m' t
unfolding propose_outcome record_proposal
propose_outcome-Change settings actor id request fresh now s h =
    let (m, found, h₁) = >>=-eq-ok (load (some actor.id) id s.markets) _ h in
    let (_, _, h₂) = >>=-eq-ok (raise_found (resolution_status_error m.status)) _ h₁ in
    let (_, closed_now, h₃) = >>=-eq-ok (raise_if _ market_not_closed) _ h₂ in
    let (_, _, h₄) = >>=-eq-ok (refuse_if_problems _ _) _ h₃ in
    committed (some actor.id) id found
      (Change-of (stopped m closed_now) refl refl proposes (refl, refl, refl)
        (λ w. (actor.id, request.winning_outcome_id, refl, refl, w.1)))
      h₄

-- What a decision has checked of the row that it goes on with.
pub proposal_to_decide-ok :
    (actor : Actor) (id : ℕ) (proposal_id : Option ℕ) (s : Store) {m : Market}
    → proposal_to_decide actor id proposal_id s ≡ ok m
    → (load none id s.markets ≡ ok m)
      × (m.status ≡ pending_resolution)
      × (id_eq m.proposed_by_id (some actor.id) ≡ false)
      × (id_eq m.proposal_id proposal_id ≡ true)
unfolding proposal_to_decide past_decision_status_error raise_found status_is refuse_if_superseded
    raise_if
proposal_to_decide-ok actor id proposal_id s h =
    let (m, found, rest) = >>=-eq-ok (load none id s.markets) _ h in
    (ground arith, ground arith, ground arith, ground arith)

other_than :
    {a p : ℕ} {proposer : Option ℕ} → id_eq proposer (some a) ≡ false → proposer ≡ some p → p ≢ a
unfolding id_eq
other_than h e same = ground arith

pub approve_outcome-Change :
    (settings : Settings) (actor : Actor) (id : ℕ) (proposal_id : Option ℕ) (now : ℕ) (s : Store)
    {m' : Market} {t : Store}
    → approve_outcome settings actor id proposal_id now s ≡ ok (m', t)
    → Changes none id s m' t
unfolding approve_outcome record_approval
approve_outcome-Change settings actor id proposal_id now s h =
    let (m, decided, rest) = >>=-eq-ok (proposal_to_decide actor id proposal_id s) _ h in
    let (found, pending, other, _) = proposal_to_decide-ok actor id proposal_id s decided in
    committed none id found
      (Change-of pending refl refl agrees (refl, refl, refl)
        (λ (p, o, by, named, _). (
          p,
          actor.id,
          o,
          dispute_window_ends_at settings.dispute_window_seconds now,
          by,
          refl,
          other_than other by,
          named,
          refl,
        )))
      rest

pub reject_outcome-Change :
    (actor : Actor) (id : ℕ) (proposal_id : Option ℕ) (reason : Text) (now : ℕ) (s : Store)
    {m' : Market} {t : Store}
    → reject_outcome actor id proposal_id reason now s ≡ ok (m', t)
    → Changes none id s m' t
unfolding reject_outcome record_rejection clear_proposal
reject_outcome-Change actor id proposal_id reason now s h =
    let (m, decided, reasoned) = >>=-eq-ok (proposal_to_decide actor id proposal_id s) _ h in
    let (_, _, rest) = >>=-eq-ok (refuse_if_problems _ _) _ reasoned in
    let (found, pending, _, _) = proposal_to_decide-ok actor id proposal_id s decided in
    committed none id found
      (Change-of pending refl refl rejects (refl, refl, refl)
        (λ (_, _, _, _, none_yet). (refl, none_yet)))
      rest

pub refuse_if_not_returnable-ok :
    (m : Market) (proposal_id : Option ℕ) (now : ℕ)
    → refuse_if_not_returnable m proposal_id now ≡ ok tt
    → (m.status ≡ approved)
      × (is_in_dispute_window m.dispute_window_ends_at now ≡ true)
      × (id_eq m.proposal_id proposal_id ≡ true)
unfolding refuse_if_not_returnable status_is refuse_if_superseded raise_if
refuse_if_not_returnable-ok m proposal_id now h = (ground arith, ground arith, ground arith)

pub send_back_outcome-Change :
    (actor : Actor) (id : ℕ) (proposal_id : Option ℕ) (reason : Text) (now : ℕ) (s : Store)
    {m' : Market} {t : Store}
    → send_back_outcome actor id proposal_id reason now s ≡ ok (m', t)
    → Changes none id s m' t
unfolding send_back_outcome record_send_back returned_row clear_proposal
send_back_outcome-Change actor id proposal_id reason now s h =
    let (m, found, after) = >>=-eq-ok (load none id s.markets) _ h in
    let (_, allowed, reasoned) = >>=-eq-ok (refuse_if_not_returnable m proposal_id now) _ after in
    let (_, _, rest) = >>=-eq-ok (refuse_if_problems _ _) _ reasoned in
    let (was_approved, _, _) = refuse_if_not_returnable-ok m proposal_id now allowed in
    committed none id found
      (Change-of was_approved refl refl sends_back (refl, refl, refl) (λ w. (refl, refl))) rest
