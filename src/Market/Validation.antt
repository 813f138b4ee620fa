-- ===== src/Market/Validation.antt =====
-- backend/market_service/service/validation.py: the rules a submission, a proposal and a reason
-- have to pass. A `ValidationProblem` is one constructor for each pair of field and message.
-- pydantic's URL parser and `str.casefold` are parameters, as the service only calls them.
pub mod Submittable
pub mod Complete
use cs.Base.{
  ℕ, suc, Bool, true, false, not, ◌&&◌, ◌||◌, Option, none, some, List, [], ◌∷◌, ◌++◌, any, length,
  ◌==◌, ltb, leb, if◌then◌else◌,
}
use cs.Base.Int.{ℤ, pos, leb_ℤ}
use cs.Base.Text.{Text, strip, is_empty, or_empty, text_eq}
use cs.Market.{MarketOutcome, ResolutionSource, Terms}

pub data Problem : Type 0 where
  question_required question_short outcomes_few : Problem
  outcome_blank outcome_repeated : ℕ → Problem
  close_time_missing close_time_past resolution_time_missing resolution_time_past : Problem
  close_after_resolution criteria_missing criteria_short : Problem
  source_blank source_unreachable : ℕ → Problem
  sources_missing liquidity_missing liquidity_nonpositive : Problem
  subsidy_missing subsidy_nonpositive : Problem
  winner_foreign evidence_unreachable evidence_note_short evidence_missing : Problem
  reason_missing reason_short : Problem

-- What the form of a proposal sends.
pub record OutcomeProposalRequest : Type 0 where
  pub winning_outcome_id : ℕ
  pub evidence_url : Option Text
  pub evidence_note : Option Text

abbrev pub min_outcomes : ℕ
min_outcomes = 2

abbrev pub min_question_length : ℕ
min_question_length = 10

abbrev pub min_criteria_length : ℕ
min_criteria_length = 10

abbrev pub min_evidence_note_length : ℕ
min_evidence_note_length = 10

-- The close, rejection and send-back floors, which agree.
abbrev pub min_reason_length : ℕ
min_reason_length = 10

abbrev pub problem_if : Bool → Problem → List Problem
problem_if true p = p ∷ []
problem_if false p = []

pub question_problems : Terms → List Problem
question_problems terms =
    let question = strip (or_empty terms.question) in
    if is_empty question
    then question_required ∷ []
    else problem_if (ltb (length question) min_question_length) question_short

pub blank_outcomes : List MarketOutcome → List Problem
blank_outcomes [] = []
blank_outcomes (o ∷ rest) =
    problem_if (is_empty (strip o.label)) (outcome_blank o.position) ++ blank_outcomes rest

pub count_named : List MarketOutcome → ℕ
count_named [] = 0
count_named (o ∷ rest) =
    let others = count_named rest in if is_empty (strip o.label) then others else suc others

abbrev is_seen : Text → List Text → Bool
is_seen t seen = any (text_eq t) seen

module _ (casefold : Text → Text) where
  -- `seen` holds the folded labels of the outcomes above.
  pub repeated_outcomes : List Text → List MarketOutcome → List Problem
  repeated_outcomes seen [] = []
  repeated_outcomes seen (o ∷ rest) =
      let folded = casefold (strip o.label) in
      let skipped = repeated_outcomes seen rest in
      let others = repeated_outcomes (folded ∷ seen) rest in
      if is_empty folded
      then skipped
      else problem_if (is_seen folded seen) (outcome_repeated o.position) ++ others

  pub outcome_problems : Terms → List Problem
  unfolding blank_outcomes count_named repeated_outcomes
  outcome_problems terms =
      blank_outcomes terms.outcomes
      ++ (problem_if (ltb (count_named terms.outcomes) min_outcomes) outcomes_few
          ++ repeated_outcomes [] terms.outcomes)

-- `_future_problems`, with its two messages.
pub future_problems : Option ℕ → ℕ → Problem → Problem → List Problem
future_problems none now missing past = missing ∷ []
future_problems (some moment) now missing past = problem_if (leb moment now) past

order_problems : Option ℕ → Option ℕ → List Problem
order_problems none resolve = []
order_problems (some close) none = []
order_problems (some close) (some resolve) = problem_if (leb resolve close) close_after_resolution

pub timing_problems : Terms → ℕ → List Problem
unfolding future_problems order_problems
timing_problems terms now =
    future_problems terms.close_time now close_time_missing close_time_past
    ++ (future_problems terms.resolution_time now resolution_time_missing resolution_time_past
        ++ order_problems terms.close_time terms.resolution_time)

criteria_problems : Terms → List Problem
criteria_problems terms =
    let criteria = strip (or_empty terms.resolution_criteria) in
    if is_empty criteria
    then criteria_missing ∷ []
    else problem_if (ltb (length criteria) min_criteria_length) criteria_short

module _ (is_reachable_url : Text → Bool) where
  pub source_problems : List ResolutionSource → List Problem
  source_problems [] = []
  source_problems (s ∷ rest) =
      let url = strip s.url in
      (if is_empty url
        then source_blank s.position ∷ []
        else problem_if (not (is_reachable_url url)) (source_unreachable s.position))
      ++ source_problems rest

  pub count_usable : List ResolutionSource → ℕ
  count_usable [] = 0
  count_usable (s ∷ rest) =
      let url = strip s.url in
      let others = count_usable rest in
      if is_empty url then others else if is_reachable_url url then suc others else others

  pub resolution_problems : Terms → List Problem
  unfolding criteria_problems source_problems count_usable
  resolution_problems terms =
      criteria_problems terms
      ++ (source_problems terms.resolution_sources
          ++ problem_if (count_usable terms.resolution_sources == 0) sources_missing)

-- `_positive_problems`, with its two messages.
pub positive_problems : Option ℤ → Problem → Problem → List Problem
positive_problems none missing nonpositive = missing ∷ []
positive_problems (some value) missing nonpositive = problem_if (leb_ℤ value (pos 0)) nonpositive

pub liquidity_problems : Terms → List Problem
unfolding positive_problems
liquidity_problems terms =
    positive_problems terms.liquidity_b liquidity_missing liquidity_nonpositive
    ++ positive_problems terms.seed_subsidy subsidy_missing subsidy_nonpositive

-- `_winner_problems`
pub winner_problems : List MarketOutcome → OutcomeProposalRequest → List Problem
winner_problems outcomes proposal =
    problem_if (not (any (λ o. o.id == proposal.winning_outcome_id) outcomes)) winner_foreign

pub evidence_problems : (Text → Bool) → OutcomeProposalRequest → List Problem
evidence_problems is_reachable_url proposal =
    let url = strip (or_empty proposal.evidence_url) in
    let note = strip (or_empty proposal.evidence_note) in
    let url_usable = not (is_empty url) && is_reachable_url url in
    let note_usable = not (is_empty note) && leb min_evidence_note_length (length note) in
    problem_if (not (is_empty url) && not (is_reachable_url url)) evidence_unreachable
    ++ (problem_if (not (is_empty note) && ltb (length note) min_evidence_note_length)
          evidence_note_short
        ++ problem_if (not (url_usable || note_usable)) evidence_missing)

-- `_reason_problems`
unfoldable pub reason_problems : Text → ℕ → List Problem
reason_problems raw minimum =
    let reason = strip raw in
    if is_empty reason
    then reason_missing ∷ []
    else problem_if (ltb (length reason) minimum) reason_short

module _ (casefold : Text → Text) (is_reachable_url : Text → Bool) where
  unfoldable pub problems_blocking_submission : Terms → ℕ → List Problem
  unfolding question_problems outcome_problems timing_problems resolution_problems
      liquidity_problems
  problems_blocking_submission terms now =
      question_problems terms
      ++ (outcome_problems casefold terms
          ++ (timing_problems terms now
              ++ (resolution_problems is_reachable_url terms ++ liquidity_problems terms)))

unfoldable pub problems_blocking_proposal :
    (Text → Bool) → List MarketOutcome → OutcomeProposalRequest → List Problem
unfolding winner_problems evidence_problems
problems_blocking_proposal is_reachable_url outcomes proposal =
    winner_problems outcomes proposal ++ evidence_problems is_reachable_url proposal
