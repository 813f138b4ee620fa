-- ===== src/Market/Lifecycle/Rows.antt =====
-- The rows and the log that a session of market_service commits, the errors its operations raise
-- (core/errors.py), and the status tables that the operations share.
use cs.Base.{
  ℕ, Bool, true, false, not, Option, none, some, List, [], ◌∷◌, ◌++◌, ◌&&◌, ◌==◌, if◌then◌else◌,
  Outcome, ok, err, raise_if,
}
use cs.Market.{
  MarketStatus, opened, closed, pending_resolution, approved, settled, voided, Market, Proposal,
  Approval,
}
use cs.Market.Audit.{AuditEntry}
use cs.Market.Validation.{Problem}

pub record Store : Type 0 where
  pub markets : List Market
  pub log : List AuditEntry

pub data MarketError : Type 0 where
  market_not_found market_not_editable market_not_submitted market_not_open : MarketError
  market_already_open market_closed market_not_closed market_pending_resolution : MarketError
  market_not_pending_resolution market_already_approved market_not_approved : MarketError
  market_already_settled market_already_voided market_not_voidable : MarketError
  second_administrator_required proposal_superseded : MarketError
  dispute_window_open dispute_window_closed : MarketError
  draft_incomplete close_incomplete proposal_incomplete : List Problem → MarketError
  rejection_incomplete send_back_incomplete : List Problem → MarketError

-- `if problems: raise Incomplete(problems)`
unfoldable pub refuse_if_problems :
    (List Problem → MarketError) → List Problem → Outcome MarketError Unit
refuse_if_problems incomplete [] = ok tt
refuse_if_problems incomplete (p ∷ ps) = err (incomplete (p ∷ ps))

-- `_PAST_DECISION_STATUS_ERRORS`
unfoldable pub past_decision_status_error : MarketStatus → Option MarketError
past_decision_status_error approved = some market_already_approved
past_decision_status_error settled = some market_already_settled
past_decision_status_error voided = some market_already_voided
past_decision_status_error _ = none

-- `_RESOLUTION_STATUS_ERRORS`
unfoldable pub resolution_status_error : MarketStatus → Option MarketError
unfolding past_decision_status_error
resolution_status_error pending_resolution = some market_pending_resolution
resolution_status_error status = past_decision_status_error status

-- `_FROZEN_STATUS_ERRORS`
unfoldable pub frozen_status_error : MarketStatus → Option MarketError
unfolding resolution_status_error
frozen_status_error opened = some market_already_open
frozen_status_error closed = some market_closed
frozen_status_error status = resolution_status_error status

-- `if error is not None: raise error`
unfoldable pub raise_found : Option MarketError → Outcome MarketError Unit
raise_found none = ok tt
raise_found (some e) = err e

-- `Market.id == market_id`, and the creator's when `creator_id` is given
unfoldable pub is_wanted : Option ℕ → ℕ → Market → Bool
is_wanted none market_id m = m.id == market_id
is_wanted (some creator_id) market_id m = (m.id == market_id) && (m.creator_id == creator_id)

-- `_load`
unfoldable pub load : Option ℕ → ℕ → List Market → Outcome MarketError Market
unfolding is_wanted
load creator_id market_id [] = err market_not_found
load creator_id market_id (m ∷ ms) =
    if is_wanted creator_id market_id m then ok m else load creator_id market_id ms

-- The row of the market's id, as the flush writes it.
unfoldable pub put : Market → List Market → List Market
put market [] = []
put market (m ∷ ms) = if m.id == market.id then market ∷ ms else m ∷ put market ms

-- The flush, the entry and the commit of one operation.
unfoldable pub commit : Store → Market → AuditEntry → Store
unfolding put
commit s market entry = record { markets = put market s.markets; log = s.log ++ (entry ∷ []) }

abbrev pub no_proposal : Proposal
no_proposal = record {
  proposal_id = none;
  proposed_outcome_id = none;
  proposed_by_id = none;
  proposed_by_username = none;
  proposed_at = none;
  proposal_evidence_url = none;
  proposal_evidence_note = none;
}

abbrev pub no_approval : Approval
no_approval = record {
  approved_by_id = none;
  approved_by_username = none;
  approved_at = none;
  dispute_window_ends_at = none;
}

-- `_clear_proposal`
unfoldable pub clear_proposal : Market → Market
clear_proposal market = record market { proposal = no_proposal }

-- `a == b` on two nullable ids
unfoldable pub id_eq : Option ℕ → Option ℕ → Bool
id_eq none none = true
id_eq none (some b) = false
id_eq (some a) none = false
id_eq (some a) (some b) = a == b

-- `_refuse_if_superseded`
unfoldable pub refuse_if_superseded : Market → Option ℕ → Outcome MarketError Unit
unfolding id_eq
refuse_if_superseded market proposal_id =
    raise_if (not (id_eq market.proposal_id proposal_id)) proposal_superseded
