-- ===== src/Market/Lifecycle/Saves.antt =====
-- `save` of market_service.py, which creates or overwrites a draft, and `close_due_markets` of
-- service/closing.py. The retry of `save` after a lost insert race is one more `save_once`.
use cs.Base.{
  ℕ, zero, suc, Bool, true, false, not, Option, none, some, List, [], ◌∷◌, ◌++◌, ◌&&◌, ◌==◌, any,
  leb, if◌then◌else◌, Outcome, ok, ◌>>=◌, ◌>>◌, raise_if,
}
use cs.Base.Int.{ℤ}
use cs.Base.Text.{Text, strip, or_empty}
use cs.Market.{
  draft, submitted, opened, closed, status_is, MarketOutcome, ResolutionSource, Terms, Market,
  Actor,
}
use cs.Market.Validation.{Problem, problems_blocking_submission}
use cs.Market.Audit.{record_submission}
use cs.Market.Lifecycle.Rows.{
  Store, MarketError, market_not_editable, draft_incomplete, refuse_if_problems,
  frozen_status_error, raise_found, put, no_proposal, no_approval,
}
use cs.Market.Lifecycle.Steps.{Settings, blank_to_none}

pub record SourceIn : Type 0 where
  pub url : Option Text
  pub label : Option Text

-- `MarketDraftRequest`; `submitting` is `status is SUBMITTED`.
pub record DraftRequest : Type 0 where
  pub draft_key : ℕ
  pub submitting : Bool
  pub question : Option Text
  pub description : Option Text
  pub outcomes : List (Option Text)
  pub close_time : Option ℕ
  pub resolution_time : Option ℕ
  pub resolution_criteria : Option Text
  pub resolution_sources : List SourceIn
  pub liquidity_b : Option ℤ
  pub seed_subsidy : Option ℤ

-- The new rows, whose ids come from `fresh`.
outcomes_of : (ℕ → ℕ) → ℕ → List (Option Text) → List MarketOutcome
outcomes_of fresh index [] = []
outcomes_of fresh index (label ∷ rest) =
    record { id = fresh index; position = index; label = strip (or_empty label) }
    ∷ outcomes_of fresh (suc index) rest

sources_of : ℕ → List SourceIn → List ResolutionSource
sources_of index [] = []
sources_of index (item ∷ rest) =
    record { position = index; url = strip (or_empty item.url); label = blank_to_none item.label }
    ∷ sources_of (suc index) rest

abbrev or_default : Option ℤ → ℤ → Option ℤ
or_default none b = some b
or_default (some v) b = some v

-- `_apply`: every term is the form's.
unfoldable pub apply : (ℕ → ℕ) → DraftRequest → ℤ → Terms
unfolding outcomes_of sources_of blank_to_none
apply fresh form default_liquidity_b = record {
  question = blank_to_none form.question;
  description = blank_to_none form.description;
  close_time = form.close_time;
  resolution_time = form.resolution_time;
  resolution_criteria = blank_to_none form.resolution_criteria;
  liquidity_b = or_default form.liquidity_b default_liquidity_b;
  seed_subsidy = form.seed_subsidy;
  outcomes = outcomes_of fresh 0 form.outcomes;
  resolution_sources = sources_of 0 form.resolution_sources;
}

-- `_find_by_draft_key`
unfoldable pub find_by_draft_key : ℕ → ℕ → List Market → Option Market
find_by_draft_key creator_id draft_key [] = none
find_by_draft_key creator_id draft_key (m ∷ ms) =
    if (m.creator_id == creator_id) && (m.draft_key == draft_key)
    then some m
    else find_by_draft_key creator_id draft_key ms

-- `Market(creator_id=..., draft_key=...)`, with no term yet
unfoldable pub new_market : ℕ → Actor → DraftRequest → Terms → Market
new_market id actor form terms = record {
  id = id;
  creator_id = actor.id;
  draft_key = form.draft_key;
  terms = terms;
  status = draft;
  submitted_at = none;
  published_at = none;
  closed_at = none;
  proposal = no_proposal;
  approval = no_approval;
  voided_at = none;
  void_reason = none;
}

-- The row that the save writes to: a new one, or the caller's, unless its terms are frozen or a
-- late autosave would un-submit it.
unfoldable pub row_to_save :
    Option Market → ℕ → Actor → DraftRequest → Terms → Outcome MarketError Market
unfolding new_market
row_to_save none id actor form terms = ok (new_market id actor form terms)
row_to_save (some market) id actor form terms = do
  raise_found (frozen_status_error market.status)
  raise_if (status_is market.status submitted && not form.submitting) market_not_editable
  ok (record market { terms = terms })

abbrev pub is_new : Option Market → Bool
is_new none = true
is_new (some m) = false

-- An existing row is rewritten in its place; a new one is added.
unfoldable pub write_row : Bool → Market → List Market → List Market
write_row true market rows = rows ++ (market ∷ [])
write_row false market rows = put market rows

-- `_save_once`: the market, its problems, whether it was created, and the store.
unfoldable pub save_once :
    Settings
    → (ℕ → ℕ)
    → ℕ
    → Actor
    → DraftRequest
    → ℕ
    → Store
    → Outcome MarketError (Market × List Problem × Bool × Store)
unfolding row_to_save write_row
save_once settings fresh new_id actor form now s = do
  let found = find_by_draft_key actor.id form.draft_key s.markets
  let terms = apply fresh form settings.default_liquidity_b
  market ← row_to_save found new_id actor form terms
  let problems = problems_blocking_submission settings.casefold settings.is_reachable_url terms now
  if form.submitting
      then (do
        refuse_if_problems draft_incomplete problems
        let sent = record market { status = submitted; submitted_at = some now }
        let entry = record_submission actor sent now
        ok (
          sent,
          problems,
          is_new found,
          record { markets = write_row (is_new found) sent s.markets; log = s.log ++ (entry ∷ []) },
        ))
      else (do
        let kept = record market { status = draft }
        ok (
          kept,
          problems,
          is_new found,
          record s { markets = write_row (is_new found) kept s.markets },
        ))

-- `status == OPEN and close_time <= now`
unfoldable pub is_due : ℕ → Market → Bool
is_due now m = status_is m.status opened && elim m.close_time [ none ↦ false | some t ↦ leb t now ]

abbrev closing_time : Market → ℕ
closing_time m = elim m.close_time [ none ↦ 0 | some t ↦ t ]

insert_due : Market → List Market → List Market
insert_due m [] = m ∷ []
insert_due m (x ∷ xs) =
    if leb (closing_time m) (closing_time x) then m ∷ x ∷ xs else x ∷ insert_due m xs

-- `order_by(close_time)` over the due rows
pub due_rows : ℕ → List Market → List Market
unfolding insert_due
due_rows now [] = []
due_rows now (m ∷ ms) =
    let rest = due_rows now ms in if is_due now m then insert_due m rest else rest

pub take_ids : ℕ → List Market → List ℕ
take_ids zero ms = []
take_ids (suc n) [] = []
take_ids (suc n) (m ∷ ms) = m.id ∷ take_ids n ms

-- The sub-select re-checks its condition on the row that it locks.
unfoldable pub close_row : ℕ → List ℕ → Market → Market
unfolding is_due
close_row now due m =
    if any (λ id. id == m.id) due && is_due now m
    then record m { status = closed; closed_at = some now }
    else m

unfoldable pub close_rows : ℕ → List ℕ → List Market → List Market
close_rows now due [] = []
close_rows now due (m ∷ ms) = close_row now due m ∷ close_rows now due ms

-- The ids closed, oldest close time first, and the rows after the commit. Nothing is logged.
unfoldable pub close_due_markets : ℕ → ℕ → Store → List ℕ × Store
unfolding due_rows take_ids close_rows
close_due_markets limit now s =
    let due = take_ids limit (due_rows now s.markets) in
    (due, record s { markets = close_rows now due s.markets })
