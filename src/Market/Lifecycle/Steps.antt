-- ===== src/Market/Lifecycle/Steps.antt =====
-- The operations of market_service.py on one market, and the sweep of closing.py.
use cs.Base.{
  ℕ, Bool, not, Option, none, some, ◌||◌, if◌then◌else◌, Outcome, ok, ◌>>=◌, ◌>>◌, raise_if,
}
use cs.Base.Int.{ℤ}
use cs.Base.Text.{Text, strip, is_empty}
use cs.Market.{
  draft, submitted, opened, closed, pending_resolution, approved, settled, voided, status_is,
  Proposal, Approval, Market, Actor,
}
use cs.Market.Settling.{
  is_in_dispute_window, is_before_settlement_opens, is_awaiting_outcome, settleable,
  dispute_window_ends_at, is_open_for_trading,
}
use cs.Market.Validation.{
  OutcomeProposalRequest, problems_blocking_submission, problems_blocking_proposal, reason_problems,
  min_reason_length,
}
use cs.Market.Audit.{
  DecisionSnapshot, decision_snapshot, approval_snapshot, record_publication, record_early_close,
  record_proposal, record_approval, record_rejection, record_send_back, record_marked_settled,
  record_marked_voided,
}
use cs.Market.Lifecycle.Rows.{
  Store, MarketError, market_not_submitted, market_not_open, market_closed, market_not_closed,
  market_pending_resolution, market_not_pending_resolution, market_not_approved,
  market_already_settled, market_already_voided, market_not_voidable, second_administrator_required,
  dispute_window_open, dispute_window_closed, draft_incomplete, close_incomplete,
  proposal_incomplete, rejection_incomplete, send_back_incomplete, refuse_if_problems,
  past_decision_status_error, resolution_status_error, frozen_status_error, raise_found, load,
  commit, no_approval, clear_proposal, id_eq, refuse_if_superseded,
}

-- What the operations read besides their request: the settings, pydantic's URL parser and
-- `str.casefold`.
pub record Settings : Type 0 where
  pub casefold : Text → Text
  pub is_reachable_url : Text → Bool
  pub dispute_window_seconds : ℕ
  pub default_liquidity_b : ℤ

abbrev pub Written : Type 0
Written = Outcome MarketError (Market × Store)

-- `_blank_to_none`
unfoldable pub blank_to_none : Option Text → Option Text
blank_to_none none = none
blank_to_none (some value) =
    let stripped = strip value in if is_empty stripped then none else some stripped

unfoldable pub publish : Settings → Actor → ℕ → ℕ → Store → Written
publish settings actor market_id now s = do
  market ← load (some actor.id) market_id s.markets
  raise_found (frozen_status_error market.status)
  raise_if (not (status_is market.status submitted)) market_not_submitted
  refuse_if_problems draft_incomplete
      (problems_blocking_submission settings.casefold settings.is_reachable_url market.terms now)
  let published = record market { status = opened; published_at = some now }
  ok (published, commit s published (record_publication actor published now))

unfoldable pub close_early : Actor → ℕ → Text → ℕ → Store → Written
close_early actor market_id reason now s = do
  market ← load none market_id s.markets
  raise_found (resolution_status_error market.status)
  raise_if (status_is market.status draft || status_is market.status submitted) market_not_open
  raise_if (not (is_open_for_trading market now)) market_closed
  refuse_if_problems close_incomplete (reason_problems reason min_reason_length)
  let stopped = record market { status = closed; closed_at = some now }
  ok (stopped, commit s stopped (record_early_close actor stopped (strip reason) now))

-- `proposal_id` is the fresh `uuid.uuid4()`.
unfoldable pub propose_outcome :
    Settings → Actor → ℕ → OutcomeProposalRequest → ℕ → ℕ → Store → Written
unfolding blank_to_none
propose_outcome settings actor market_id request proposal_id now s = do
  market ← load (some actor.id) market_id s.markets
  raise_found (resolution_status_error market.status)
  raise_if (not (status_is market.status closed)) market_not_closed
  refuse_if_problems proposal_incomplete
      (problems_blocking_proposal settings.is_reachable_url market.outcomes request)
  let proposal : Proposal = record {
    proposal_id = some proposal_id;
    proposed_outcome_id = some request.winning_outcome_id;
    proposed_by_id = some actor.id;
    proposed_by_username = some actor.username;
    proposed_at = some now;
    proposal_evidence_url = blank_to_none request.evidence_url;
    proposal_evidence_note = blank_to_none request.evidence_note;
  }
  let proposed = record market { status = pending_resolution; proposal = proposal }
  ok (proposed, commit s proposed (record_proposal actor proposed now))

-- `_proposal_to_decide`
unfoldable pub proposal_to_decide : Actor → ℕ → Option ℕ → Store → Outcome MarketError Market
proposal_to_decide actor market_id proposal_id s = do
  market ← load none market_id s.markets
  raise_found (past_decision_status_error market.status)
  raise_if (not (status_is market.status pending_resolution)) market_not_pending_resolution
  raise_if (id_eq market.proposed_by_id (some actor.id)) second_administrator_required
  refuse_if_superseded market proposal_id
  ok market

unfoldable pub approve_outcome : Settings → Actor → ℕ → Option ℕ → ℕ → Store → Written
approve_outcome settings actor market_id proposal_id now s = do
  market ← proposal_to_decide actor market_id proposal_id s
  let approval : Approval = record {
    approved_by_id = some actor.id;
    approved_by_username = some actor.username;
    approved_at = some now;
    dispute_window_ends_at = some (dispute_window_ends_at settings.dispute_window_seconds now);
  }
  let agreed = record market { status = approved; approval = approval }
  ok (agreed, commit s agreed (record_approval actor agreed now))

unfoldable pub reject_outcome : Actor → ℕ → Option ℕ → Text → ℕ → Store → Written
reject_outcome actor market_id proposal_id reason now s = do
  market ← proposal_to_decide actor market_id proposal_id s
  refuse_if_problems rejection_incomplete (reason_problems reason min_reason_length)
  let snapshot = decision_snapshot market
  let rejected = clear_proposal (record market { status = closed })
  ok (rejected, commit s rejected (record_rejection actor rejected (strip reason) snapshot now))

-- The guards of `send_back_outcome` before its reason, in its order.
unfoldable pub refuse_if_not_returnable : Market → Option ℕ → ℕ → Outcome MarketError Unit
refuse_if_not_returnable market proposal_id now = do
  raise_if (status_is market.status settled) market_already_settled
  raise_if (status_is market.status voided) market_already_voided
  raise_if (status_is market.status pending_resolution) market_pending_resolution
  raise_if (not (status_is market.status approved)) market_not_approved
  raise_if (not (is_in_dispute_window market.dispute_window_ends_at now)) dispute_window_closed
  refuse_if_superseded market proposal_id

-- The row that a send-back writes: the proposal, the approval and the window's end are cleared.
unfoldable pub returned_row : Market → Market
returned_row market =
    let cleared = clear_proposal (record market { status = closed }) in
    record cleared { approval = no_approval }

unfoldable pub send_back_outcome : Actor → ℕ → Option ℕ → Text → ℕ → Store → Written
send_back_outcome actor market_id proposal_id reason now s = do
  market ← load none market_id s.markets
  refuse_if_not_returnable market proposal_id now
  refuse_if_problems send_back_incomplete (reason_problems reason min_reason_length)
  let snapshot = approval_snapshot market
  let returned = returned_row market
  ok (returned, commit s returned (record_send_back actor returned (strip reason) snapshot now))

unfoldable pub settle : Actor → ℕ → ℕ → Store → Written
settle actor market_id now s = do
  market ← load none market_id s.markets
  if status_is market.status settled then ok (market, s) else do
    raise_if (status_is market.status voided) market_already_voided
    raise_if (not (status_is market.status approved)) market_not_approved
    raise_if (not (settleable market.status market.dispute_window_ends_at now)) dispute_window_open
    let paid = record market { status = settled }
    ok (paid, commit s paid (record_marked_settled actor paid now))

-- `_refuse_if_not_voidable`
unfoldable pub refuse_if_not_voidable : Market → ℕ → Outcome MarketError Unit
refuse_if_not_voidable market now = do
  raise_if (status_is market.status settled) market_already_settled
  if is_awaiting_outcome market.status then ok tt else do
    raise_if (not (status_is market.status approved)) market_not_voidable
    raise_if (not (is_before_settlement_opens market.dispute_window_ends_at now))
        market_not_voidable

-- The row that a void writes: a pending proposal is cleared, and an approval kept.
unfoldable pub voided_row : Market → Text → ℕ → Market
voided_row market reason now =
    let kept =
      if status_is market.status pending_resolution then clear_proposal market else market in
    record kept { status = voided; voided_at = some now; void_reason = some reason }

unfoldable pub void : Actor → ℕ → Text → ℕ → Store → Written
void actor market_id reason now s = do
  market ← load none market_id s.markets
  if status_is market.status voided then ok (market, s) else do
    refuse_if_not_voidable market now
    let cleared_proposal : Option DecisionSnapshot =
        if status_is market.status pending_resolution then some (decision_snapshot market) else none
    let ended = voided_row market reason now
    let entry = record_marked_voided actor ended reason market.status cleared_proposal now
    ok (ended, commit s ended entry)
