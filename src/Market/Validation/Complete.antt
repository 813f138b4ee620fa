-- ===== src/Market/Validation/Complete.antt =====
-- backend/market_service/service/validation.py: no problem is found exactly in submittable terms.
use cs.Base.{
  ℕ, ◌≤◌, ◌<◌, ◌≡◌, refl, ◌↔◌, Bool, true, false, Option, none, some, [], ◌∷◌, ◌++◌, length, All,
  ltb, arith,
}
use cs.Base.Int.{ℤ}
use cs.Base.Text.{Text, strip, is_empty, or_empty}
use cs.Market.{Terms}
use cs.Market.Validation.{
  Problem, problem_if, question_problems, count_named, blank_outcomes, outcome_problems,
  future_problems, order_problems, timing_problems, criteria_problems, source_problems,
  resolution_problems, positive_problems, liquidity_problems, problems_blocking_submission,
  min_outcomes, min_question_length, min_criteria_length, close_time_missing, close_time_past,
  resolution_time_missing, resolution_time_past, outcomes_few, liquidity_missing,
  liquidity_nonpositive,
}
use cs.Market.Validation.Submittable.{
  IsLong, IsNamed, IsPositive, IsTimely, IsDistinct, IsUsable, IsSubmittable, append-eq-nil,
  repeated_outcomes→IsDistinct, IsDistinct→repeated_outcomes, blank_outcomes→named,
  named→blank_outcomes, count_named-length, source_problems→usable, usable→source_problems,
  count_usable-length,
}

length-empty : (t : Text) → is_empty t ≡ true → length t ≡ 0
length-empty [] h = refl
length-empty (c ∷ t) h = cc

long-nonempty : (t : Text) → 1 ≤ length t → is_empty t ≡ false
long-nonempty [] h = absurd (omega arith)
long-nonempty (c ∷ t) h = refl

question_problems↔ :
    (terms : Terms) → (question_problems terms ≡ []) ↔ IsLong min_question_length terms.question
unfolding question_problems
question_problems↔ terms = (
  λ h. ground (arith, length-empty (strip (or_empty terms.question))),
  λ h. ground (arith, long-nonempty (strip (or_empty terms.question))),
)

criteria_problems↔ :
    (terms : Terms)
    → (criteria_problems terms ≡ []) ↔ IsLong min_criteria_length terms.resolution_criteria
unfolding criteria_problems
criteria_problems↔ terms = (
  λ h. ground (arith, length-empty (strip (or_empty terms.resolution_criteria))),
  λ h. ground (arith, long-nonempty (strip (or_empty terms.resolution_criteria))),
)

timely_of :
    (close resolve : Option ℕ) (now : ℕ)
    → (future_problems close now close_time_missing close_time_past
        ++ (future_problems resolve now resolution_time_missing resolution_time_past
            ++ order_problems close resolve))
      ≡ []
    → (c : ℕ) × (r : ℕ) × (close ≡ some c) × (resolve ≡ some r) × (now < c) × (c < r)
unfolding future_problems order_problems
timely_of none resolve now h = cc
timely_of (some c) none now h = ground arith
timely_of (some c) (some r) now h = (c, r, refl, refl, ground arith, ground arith)

timing_problems→ : (terms : Terms) (now : ℕ) → timing_problems terms now ≡ [] → IsTimely terms now
unfolding timing_problems
timing_problems→ terms now h = timely_of terms.close_time terms.resolution_time now h

timing_problems← : (terms : Terms) (now : ℕ) → IsTimely terms now → timing_problems terms now ≡ []
unfolding timing_problems
timing_problems← terms now h = ground arith

IsPositive-problems↔ :
    (v : Option ℤ) (missing nonpositive : Problem)
    → (positive_problems v missing nonpositive ≡ []) ↔ IsPositive v
unfolding positive_problems
IsPositive-problems↔ none missing nonpositive = (λ h. cc, λ h. ground arith)
IsPositive-problems↔ (some v) missing nonpositive =
    (λ h. (v, refl, ground arith), λ h. ground arith)

outcome_problems→ :
    (casefold : Text → Text) (terms : Terms)
    → outcome_problems casefold terms ≡ []
    → All IsNamed terms.outcomes
      × (min_outcomes ≤ length terms.outcomes)
      × IsDistinct casefold [] terms.outcomes
unfolding outcome_problems
outcome_problems→ casefold terms h =
    let (no_blank, rest) = append-eq-nil (blank_outcomes terms.outcomes) _ h in
    let (many, fresh) =
      append-eq-nil (problem_if (ltb (count_named terms.outcomes) min_outcomes) outcomes_few) _
        rest in
    let named = blank_outcomes→named terms.outcomes no_blank in
    (
      named,
      ground (arith, count_named-length terms.outcomes named),
      repeated_outcomes→IsDistinct casefold [] terms.outcomes fresh,
    )

outcome_problems← :
    (casefold : Text → Text) (terms : Terms)
    → All IsNamed terms.outcomes
    → min_outcomes ≤ length terms.outcomes
    → IsDistinct casefold [] terms.outcomes
    → outcome_problems casefold terms ≡ []
unfolding outcome_problems
outcome_problems← casefold terms named enough distinct = ground (
  arith,
  named→blank_outcomes terms.outcomes named,
  count_named-length terms.outcomes named,
  IsDistinct→repeated_outcomes casefold [] terms.outcomes distinct,
)

resolution_problems→ :
    (is_reachable_url : Text → Bool) (terms : Terms)
    → resolution_problems is_reachable_url terms ≡ []
    → IsLong min_criteria_length terms.resolution_criteria
      × All (IsUsable is_reachable_url) terms.resolution_sources
      × (1 ≤ length terms.resolution_sources)
unfolding resolution_problems
resolution_problems→ reachable terms h =
    let (criteria, rest) = append-eq-nil (criteria_problems terms) _ h in
    let (sources, many) =
      append-eq-nil (source_problems reachable terms.resolution_sources) _ rest in
    let usable = source_problems→usable reachable terms.resolution_sources sources in
    (
      (criteria_problems↔ terms).0 criteria,
      usable,
      ground (arith, count_usable-length reachable terms.resolution_sources usable),
    )

resolution_problems← :
    (is_reachable_url : Text → Bool) (terms : Terms)
    → IsLong min_criteria_length terms.resolution_criteria
    → All (IsUsable is_reachable_url) terms.resolution_sources
    → 1 ≤ length terms.resolution_sources
    → resolution_problems is_reachable_url terms ≡ []
unfolding resolution_problems
resolution_problems← reachable terms criteria usable sourced = ground (
  arith,
  (criteria_problems↔ terms).1 criteria,
  usable→source_problems reachable terms.resolution_sources usable,
  count_usable-length reachable terms.resolution_sources usable,
)

problems→ :
    (casefold : Text → Text) (reachable : Text → Bool) (terms : Terms) (now : ℕ)
    → problems_blocking_submission casefold reachable terms now ≡ []
    → IsSubmittable casefold reachable terms now
unfolding problems_blocking_submission liquidity_problems
problems→ casefold reachable terms now h =
    let (question, after_question) = append-eq-nil (question_problems terms) _ h in
    let (outcomes, after_outcomes) =
      append-eq-nil (outcome_problems casefold terms) _ after_question in
    let (timing, after_timing) = append-eq-nil (timing_problems terms now) _ after_outcomes in
    let (resolution, liquidity) =
      append-eq-nil (resolution_problems reachable terms) _ after_timing in
    let (b, seed) =
      append-eq-nil (positive_problems terms.liquidity_b liquidity_missing liquidity_nonpositive) _
        liquidity in
    let (named, enough, distinct) = outcome_problems→ casefold terms outcomes in
    let (criteria, usable, sourced) = resolution_problems→ reachable terms resolution in
    record {
      question = (question_problems↔ terms).0 question;
      named = named;
      enough = enough;
      distinct = distinct;
      timely = timing_problems→ terms now timing;
      criteria = criteria;
      usable = usable;
      sourced = sourced;
      liquidity = (IsPositive-problems↔ terms.liquidity_b _ _).0 b;
      subsidy = (IsPositive-problems↔ terms.seed_subsidy _ _).0 seed;
    }

problems← :
    (casefold : Text → Text) (reachable : Text → Bool) (terms : Terms) (now : ℕ)
    → IsSubmittable casefold reachable terms now
    → problems_blocking_submission casefold reachable terms now ≡ []
unfolding problems_blocking_submission liquidity_problems
problems← casefold reachable terms now s = rw ((question_problems↔ terms).1 s.question) (
    rw (outcome_problems← casefold terms s.named s.enough s.distinct) (
      rw (timing_problems← terms now s.timely) (
        rw (resolution_problems← reachable terms s.criteria s.usable s.sourced) (
          rw ((IsPositive-problems↔ terms.liquidity_b _ _).1 s.liquidity)
            ((IsPositive-problems↔ terms.seed_subsidy _ _).1 s.subsidy)))))

-- A submission or a publication finds no problem exactly when the terms have a question and a
-- resolution rule of ten characters or more once stripped, at least two outcomes, each named and
-- none repeating the folded label of one above it, a close time in the future and before the
-- resolution time, at least one source and every source a reachable address, and a liquidity
-- parameter and a seed subsidy above zero.
pub problems_blocking_submission-IsSubmittable :
    (casefold : Text → Text) (reachable : Text → Bool) (terms : Terms) (now : ℕ)
    → (problems_blocking_submission casefold reachable terms now ≡ [])
      ↔ IsSubmittable casefold reachable terms now
problems_blocking_submission-IsSubmittable casefold reachable terms now =
    (problems→ casefold reachable terms now, problems← casefold reachable terms now)
