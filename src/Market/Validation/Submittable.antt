-- ===== src/Market/Validation/Submittable.antt =====
-- backend/market_service/service/validation.py: what terms that pass are like, without the lists of
-- problems, and the loops over outcomes and sources.
use cs.Base.{
  ℕ, ◌≤◌, ◌<◌, ◌≡◌, refl, ◌⊎◌, Bool, true, false, Option, some, List, [], ◌∷◌, ◌++◌, length, All,
  if◌then◌else◌, arith,
}
use cs.Base.Int.{ℤ, pos, ◌<ℤ◌}
use cs.Base.Text.{Text, strip, is_empty, or_empty}
use cs.Market.{MarketOutcome, ResolutionSource, Terms}
use cs.Market.Validation.{
  count_named, blank_outcomes, repeated_outcomes, is_seen, source_problems, count_usable,
  min_outcomes, min_question_length, min_criteria_length,
}

pub append-eq-nil : {A : Type 0} (xs ys : List A) → (xs ++ ys) ≡ [] → (xs ≡ []) × (ys ≡ [])
append-eq-nil [] ys h = (refl, h)
append-eq-nil (x ∷ xs) ys h = cc

-- A field holds at least `minimum` characters once it is stripped.
abbrev pub IsLong : ℕ → Option Text → Type 0
IsLong minimum field = minimum ≤ length (strip (or_empty field))

abbrev pub IsNamed : MarketOutcome → Type 0
IsNamed o = is_empty (strip o.label) ≡ false

abbrev pub IsPositive : Option ℤ → Type 0
IsPositive field = (v : ℤ) × (field ≡ some v) × (pos 0 <ℤ v)

-- Trading stops in the future, and before the outcome is known.
abbrev pub IsTimely : Terms → ℕ → Type 0
IsTimely terms now =
    (c : ℕ) × (r : ℕ) × (terms.close_time ≡ some c)
    × (terms.resolution_time ≡ some r)
    × (now < c)
    × (c < r)

module _ (casefold : Text → Text) where
  abbrev pub folded : MarketOutcome → Text
  folded o = casefold (strip o.label)

  -- `o` repeats none of the labels in `seen`.
  abbrev pub IsFresh : List Text → MarketOutcome → Type 0
  IsFresh seen o = (is_empty (folded o) ≡ true) ⊎ (is_seen (folded o) seen ≡ false)

  -- No outcome repeats a label of `seen`, or of an outcome above it.
  abbrev pub IsDistinct : List Text → List MarketOutcome → Type 0
  IsDistinct seen [] = Unit
  IsDistinct seen (o ∷ rest) =
      IsFresh seen o × IsDistinct (if is_empty (folded o) then seen else folded o ∷ seen) rest

  pub repeated_outcomes→IsDistinct :
      (seen : List Text) (os : List MarketOutcome)
      → repeated_outcomes casefold seen os ≡ []
      → IsDistinct seen os
  unfolding repeated_outcomes
  repeated_outcomes→IsDistinct seen [] h = tt
  repeated_outcomes→IsDistinct seen (o ∷ rest) h = ground (
    arith,
    repeated_outcomes→IsDistinct seen rest,
    repeated_outcomes→IsDistinct (folded o ∷ seen) rest,
  )

  pub IsDistinct→repeated_outcomes :
      (seen : List Text) (os : List MarketOutcome)
      → IsDistinct seen os
      → repeated_outcomes casefold seen os ≡ []
  unfolding repeated_outcomes
  IsDistinct→repeated_outcomes seen [] h = refl
  IsDistinct→repeated_outcomes seen (o ∷ rest) h = ground (
    arith,
    IsDistinct→repeated_outcomes seen rest,
    IsDistinct→repeated_outcomes (folded o ∷ seen) rest,
  )

pub blank_outcomes→named : (os : List MarketOutcome) → blank_outcomes os ≡ [] → All IsNamed os
unfolding blank_outcomes
blank_outcomes→named [] h = tt
blank_outcomes→named (o ∷ rest) h = ground (arith, blank_outcomes→named rest)

pub named→blank_outcomes : (os : List MarketOutcome) → All IsNamed os → blank_outcomes os ≡ []
unfolding blank_outcomes
named→blank_outcomes [] h = refl
named→blank_outcomes (o ∷ rest) h = ground (arith, named→blank_outcomes rest)

pub count_named-length : (os : List MarketOutcome) → All IsNamed os → count_named os ≡ length os
unfolding count_named
count_named-length [] h = refl
count_named-length (o ∷ rest) h = ground (arith, count_named-length rest)

module _ (is_reachable_url : Text → Bool) where
  abbrev pub IsUsable : ResolutionSource → Type 0
  IsUsable s = (is_empty (strip s.url) ≡ false) × (is_reachable_url (strip s.url) ≡ true)

  pub source_problems→usable :
      (ss : List ResolutionSource) → source_problems is_reachable_url ss ≡ [] → All IsUsable ss
  unfolding source_problems
  source_problems→usable [] h = tt
  source_problems→usable (s ∷ rest) h = ground (arith, source_problems→usable rest)

  pub usable→source_problems :
      (ss : List ResolutionSource) → All IsUsable ss → source_problems is_reachable_url ss ≡ []
  unfolding source_problems
  usable→source_problems [] h = refl
  usable→source_problems (s ∷ rest) h = ground (arith, usable→source_problems rest)

  pub count_usable-length :
      (ss : List ResolutionSource) → All IsUsable ss → count_usable is_reachable_url ss ≡ length ss
  unfolding count_usable
  count_usable-length [] h = refl
  count_usable-length (s ∷ rest) h = ground (arith, count_usable-length rest)

-- The terms that every submission rule passes, written without the lists of problems.
pub record IsSubmittable (casefold : Text → Text) (is_reachable_url : Text → Bool) (terms : Terms)
    (now : ℕ) : Type 0 where
  pub question : IsLong min_question_length terms.question
  pub named : All IsNamed terms.outcomes
  pub enough : min_outcomes ≤ length terms.outcomes
  pub distinct : IsDistinct casefold [] terms.outcomes
  pub timely : IsTimely terms now
  pub criteria : IsLong min_criteria_length terms.resolution_criteria
  pub usable : All (IsUsable is_reachable_url) terms.resolution_sources
  pub sourced : 1 ≤ length terms.resolution_sources
  pub liquidity : IsPositive terms.liquidity_b
  pub subsidy : IsPositive terms.seed_subsidy
