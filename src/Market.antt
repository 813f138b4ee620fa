-- ===== src/Market.antt =====
-- backend/market_service/model: a market's row with its outcomes and sources, the audit entries
-- the service appends, the store they are committed to, and the service's errors.
-- A `datetime` is its instant in microseconds of UTC, a uuid a number that is only compared, and
-- `None` in a nullable column is `none`.
pub mod Settling
pub mod Validation
pub mod Audit
pub mod Lifecycle
mod Tests
use cs.Base.{ℕ, Bool, true, false, Option, List}
use cs.Base.Int.{ℤ}
use cs.Base.Text.{Text}

-- `MarketStatus`; `opened` is OPEN.
pub data MarketStatus : Type 0 where
  draft submitted opened closed pending_resolution approved settled voided : MarketStatus

-- `market.status is other`
unfoldable pub status_is : MarketStatus → MarketStatus → Bool
status_is draft draft = true
status_is submitted submitted = true
status_is opened opened = true
status_is closed closed = true
status_is pending_resolution pending_resolution = true
status_is approved approved = true
status_is settled settled = true
status_is voided voided = true
status_is _ _ = false

pub record MarketOutcome : Type 0 where
  pub id : ℕ
  pub position : ℕ
  pub label : Text

pub record ResolutionSource : Type 0 where
  pub position : ℕ
  pub url : Text
  pub label : Option Text

-- The seven columns that `propose_outcome` writes together and `_clear_proposal` nulls.
pub record Proposal : Type 0 where
  pub proposal_id : Option ℕ
  pub proposed_outcome_id : Option ℕ
  pub proposed_by_id : Option ℕ
  pub proposed_by_username : Option Text
  pub proposed_at : Option ℕ
  pub proposal_evidence_url : Option Text
  pub proposal_evidence_note : Option Text

-- The three columns of an approval and the end of its dispute window.
pub record Approval : Type 0 where
  pub approved_by_id : Option ℕ
  pub approved_by_username : Option Text
  pub approved_at : Option ℕ
  pub dispute_window_ends_at : Option ℕ

-- The terms that a draft's form holds.
pub record Terms : Type 0 where
  pub question : Option Text
  pub description : Option Text
  pub close_time : Option ℕ
  pub resolution_time : Option ℕ
  pub resolution_criteria : Option Text
  pub liquidity_b : Option ℤ
  pub seed_subsidy : Option ℤ
  pub outcomes : List MarketOutcome
  pub resolution_sources : List ResolutionSource

pub record Market : Type 0 where
  pub id : ℕ
  pub creator_id : ℕ
  pub draft_key : ℕ
  pub terms : Terms
  pub open terms use *
  pub status : MarketStatus
  pub submitted_at : Option ℕ
  pub published_at : Option ℕ
  pub closed_at : Option ℕ
  pub proposal : Proposal
  pub open proposal use *
  pub approval : Approval
  pub open approval use *
  pub voided_at : Option ℕ
  pub void_reason : Option Text

-- The administrator a request is made by.
pub record Actor : Type 0 where
  pub id : ℕ
  pub username : Text
  pub role : Text
