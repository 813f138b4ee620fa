-- ===== src/Market/Audit.antt =====
-- backend/market_service/service/market_audit.py with backend/shared/audit.py: what each
-- lifecycle step appends to the audit log. An entry's id and its service's name are left out.
use cs.Base.{ℕ, Option, none, some, List, map, ◌==◌, if◌then◌else◌, [], ◌∷◌}
use cs.Base.Int.{ℤ}
use cs.Base.Text.{Text}
use cs.Market.{MarketStatus, MarketOutcome, ResolutionSource, Market, Approval, Actor}

-- `AdminAction`
pub data AdminAction : Type 0 where
  market_submitted market_published market_closed_early market_outcome_proposed : AdminAction
  market_outcome_approved market_outcome_rejected market_outcome_sent_back : AdminAction
  market_marked_settled market_marked_voided : AdminAction

pub record TermsSnapshot : Type 0 where
  pub liquidity_b : Option ℤ
  pub seed_subsidy : Option ℤ
  pub outcomes : List Text
  pub close_time : Option ℕ
  pub resolution_time : Option ℕ
  pub resolution_criteria : Option Text
  pub resolution_sources : List Text

pub record ProposalSnapshot : Type 0 where
  pub proposal_id : Option ℕ
  pub winning_outcome_id : Option ℕ
  pub winning_outcome : Option Text
  pub evidence_url : Option Text
  pub evidence_note : Option Text

pub record DecisionSnapshot : Type 0 where
  pub of_proposal : ProposalSnapshot
  pub proposed_by_id : Option ℕ
  pub proposed_by_username : Option Text
  pub proposed_at : Option ℕ

pub record ApprovalSnapshot : Type 0 where
  pub of_decision : DecisionSnapshot
  pub of_approval : Approval

-- The `context` of an entry.
pub data Context : Type 0 where
  with_terms : TermsSnapshot → Context
  with_close_time : Option ℕ → Context
  with_proposal : ProposalSnapshot → Context
  with_decision : DecisionSnapshot → Context
  with_approval : ApprovalSnapshot → Context
  with_void : MarketStatus → Option DecisionSnapshot → Context

pub record AuditEntry : Type 0 where
  pub occurred_at : ℕ
  pub actor : Actor
  pub action_type : AdminAction
  pub target_id : ℕ
  pub target_label : Option Text
  pub reason : Option Text
  pub context : Context

-- `next((o for o in market.outcomes if o.id == ...), None)`, and its label
unfoldable pub winner_label : Option ℕ → List MarketOutcome → Option Text
winner_label none outcomes = none
winner_label (some id) [] = none
winner_label (some id) (o ∷ rest) = if o.id == id then some o.label else winner_label (some id) rest

unfoldable pub terms_snapshot : Market → TermsSnapshot
terms_snapshot market = record {
  liquidity_b = market.liquidity_b;
  seed_subsidy = market.seed_subsidy;
  outcomes = map (λ (o : MarketOutcome). o.label) market.outcomes;
  close_time = market.close_time;
  resolution_time = market.resolution_time;
  resolution_criteria = market.resolution_criteria;
  resolution_sources = map (λ (s : ResolutionSource). s.url) market.resolution_sources;
}

unfoldable pub proposal_snapshot : Market → ProposalSnapshot
unfolding winner_label
proposal_snapshot market = record {
  proposal_id = market.proposal_id;
  winning_outcome_id = market.proposed_outcome_id;
  winning_outcome = winner_label market.proposed_outcome_id market.outcomes;
  evidence_url = market.proposal_evidence_url;
  evidence_note = market.proposal_evidence_note;
}

unfoldable pub decision_snapshot : Market → DecisionSnapshot
unfolding proposal_snapshot
decision_snapshot market = record {
  of_proposal = proposal_snapshot market;
  proposed_by_id = market.proposed_by_id;
  proposed_by_username = market.proposed_by_username;
  proposed_at = market.proposed_at;
}

unfoldable pub approval_snapshot : Market → ApprovalSnapshot
unfolding decision_snapshot
approval_snapshot market = record {
  of_decision = decision_snapshot market;
  of_approval = market.approval;
}

-- `_record`
unfoldable pub entry_of : Actor → Market → AdminAction → ℕ → Option Text → Context → AuditEntry
entry_of actor market action now reason context = record {
  occurred_at = now;
  actor = actor;
  action_type = action;
  target_id = market.id;
  target_label = market.question;
  reason = reason;
  context = context;
}

unfoldable pub record_submission : Actor → Market → ℕ → AuditEntry
unfolding entry_of terms_snapshot
record_submission actor market now =
    entry_of actor market market_submitted now none (with_terms (terms_snapshot market))

unfoldable pub record_publication : Actor → Market → ℕ → AuditEntry
unfolding entry_of terms_snapshot
record_publication actor market now =
    entry_of actor market market_published now none (with_terms (terms_snapshot market))

unfoldable pub record_early_close : Actor → Market → Text → ℕ → AuditEntry
unfolding entry_of
record_early_close actor market reason now =
    entry_of actor market market_closed_early now (some reason) (with_close_time market.close_time)

unfoldable pub record_proposal : Actor → Market → ℕ → AuditEntry
unfolding entry_of proposal_snapshot
record_proposal actor market now =
    entry_of actor market market_outcome_proposed now none
      (with_proposal (proposal_snapshot market))

unfoldable pub record_approval : Actor → Market → ℕ → AuditEntry
unfolding entry_of decision_snapshot
record_approval actor market now =
    entry_of actor market market_outcome_approved now none
      (with_decision (decision_snapshot market))

unfoldable pub record_rejection : Actor → Market → Text → DecisionSnapshot → ℕ → AuditEntry
unfolding entry_of
record_rejection actor market reason snapshot now =
    entry_of actor market market_outcome_rejected now (some reason) (with_decision snapshot)

unfoldable pub record_send_back : Actor → Market → Text → ApprovalSnapshot → ℕ → AuditEntry
unfolding entry_of
record_send_back actor market reason snapshot now =
    entry_of actor market market_outcome_sent_back now (some reason) (with_approval snapshot)

unfoldable pub record_marked_settled : Actor → Market → ℕ → AuditEntry
unfolding entry_of decision_snapshot
record_marked_settled actor market now =
    entry_of actor market market_marked_settled now none (with_decision (decision_snapshot market))

unfoldable pub record_marked_voided :
    Actor → Market → Text → MarketStatus → Option DecisionSnapshot → ℕ → AuditEntry
unfolding entry_of
record_marked_voided actor market reason from_status cleared_proposal now =
    entry_of actor market market_marked_voided now (some reason)
      (with_void from_status cleared_proposal)
