-- ===== src/Ledger/Books.antt =====
-- backend/ledger_service/service/books.py: a market's book, opened and funded at its first touch.
-- The request to the market service is an argument, the terms or the error that `market_terms.fetch` gives.
pub mod Reopening
use cs.Base.{
  ℕ, ◌+◌, ◌≡◌, Bool, true, false, not, Option, none, some, List, [], ◌∷◌, ◌++◌, length, any, ltb,
  ◌==◌, ◌||◌, if◌then◌else◌, Outcome, ok, err, ◌>>=◌, ◌>>◌, raise_if, is_some,
}
use cs.Base.Int.{ℤ, pos, ltb_ℤ, eqb_ℤ}
use cs.Base.Text.{Text}
use cs.Base.Decimal.{Decimal, is_zero, is_negative, of_ticks, quantize}
use cs.Ledger.Rows.{
  Book, OutcomeRow, Tables, LedgerError, market_terms_unavailable, market_not_published,
  market_seed, market_pool, of_market, MarketResult, platform,
}
use cs.Ledger.Posting.Legs.{Movement}
use cs.Ledger.Posting.{post}
use cs.Ledger.Accounts.{World, platform_id, transfer, no_drop}

-- A `Decimal` off the wire
pub data WireDecimal : Type 0 where
  finite : Decimal → WireDecimal
  infinite not_a_number : WireDecimal

pub record OutcomeTerms : Type 0 where
  pub outcome_id : ℕ
  pub position : ℤ

pub record MarketTerms : Type 0 where
  pub status : Text
  pub liquidity_b : Option WireDecimal
  pub seed_subsidy : Option WireDecimal
  pub published_at : Option ℕ
  pub outcomes : List OutcomeTerms
  pub proposed_outcome_id : Option ℕ
  pub settleable : Bool

abbrev pub min_outcomes : ℕ
min_outcomes = 2

repeats_outcome : List OutcomeTerms → Bool
repeats_outcome [] = false
repeats_outcome (o ∷ rest) =
    any (λ (other : OutcomeTerms). other.outcome_id == o.outcome_id) rest || repeats_outcome rest

repeats_position : List OutcomeTerms → Bool
repeats_position [] = false
repeats_position (o ∷ rest) =
    any (λ (other : OutcomeTerms). eqb_ℤ other.position o.position) rest || repeats_position rest

unfoldable pub refuse_unpriceable : List OutcomeTerms → Outcome LedgerError Unit
unfolding repeats_outcome repeats_position
refuse_unpriceable outcomes = do
  raise_if (ltb (length outcomes) min_outcomes) market_terms_unavailable
  raise_if (any (λ (o : OutcomeTerms). ltb_ℤ o.position (pos 0)) outcomes) market_terms_unavailable
  raise_if (repeats_outcome outcomes) market_terms_unavailable
  raise_if (repeats_position outcomes) market_terms_unavailable

unfoldable pub is_positive_finite : WireDecimal → Bool
is_positive_finite (finite a) = not (is_zero a || is_negative a)
is_positive_finite infinite = false
is_positive_finite not_a_number = false

-- The two refusals of a figure of the terms: a null, and one that is not positive and finite
unfoldable pub figure_of : Option WireDecimal → Outcome LedgerError Decimal
unfolding is_positive_finite
figure_of none = err market_terms_unavailable
figure_of (some (finite a)) =
    raise_if (not (is_positive_finite (finite a))) market_terms_unavailable >> ok a
figure_of (some infinite) = err market_terms_unavailable
figure_of (some not_a_number) = err market_terms_unavailable

-- `find`
unfoldable pub find_book : List Book → ℕ → Option Book
find_book [] market_id = none
find_book (book ∷ rest) market_id =
    if book.market_id == market_id then some book else find_book rest market_id

-- `find_result`
unfoldable pub find_result : List MarketResult → ℕ → Option MarketResult
find_result [] market_id = none
find_result (r ∷ rest) market_id =
    if r.market_id == market_id then some r else find_result rest market_id

-- "market-open:"
abbrev market_open_prefix : Text
market_open_prefix = 109 ∷ 97 ∷ 114 ∷ 107 ∷ 101 ∷ 116 ∷ 45 ∷ 111 ∷ 112 ∷ 101 ∷ 110 ∷ 58 ∷ []

unfoldable pub market_open_key : World → ℕ → Text
market_open_key world market_id = market_open_prefix ++ world.str_uuid market_id

-- The `MarketOutcome` rows of a new book: no share of any is out.
unfoldable pub opened_rows : List OutcomeTerms → List OutcomeRow
opened_rows [] = []
opened_rows (o ∷ rest) =
    record { outcome_id = o.outcome_id; position = o.position; q = pos 0 } ∷ opened_rows rest

-- The row as its columns keep it: `liquidity_b` has four places.
unfoldable pub opened_book : World → ℕ → ℕ → Decimal → Decimal → List OutcomeTerms → Book
unfolding opened_rows quantize
opened_book world market_id now liquidity seed outcomes = record {
  market_id = market_id;
  liquidity_b = of_ticks (quantize liquidity);
  seed_subsidy = seed;
  pool_account_id = world.id_of market_pool market_id;
  state_version = 0;
  credits_traded = 0;
  state_changed_at = now;
  opened_at = now;
  outcomes = opened_rows outcomes;
}

unfoldable pub seed_of : World → Book → Movement
unfolding market_open_key transfer
seed_of world book = record {
  idempotency_key = market_open_key world book.market_id;
  kind = market_seed;
  legs = transfer (platform_id world) book.pool_account_id book.seed_subsidy;
  context = of_market book.market_id;
  reservation_drop = no_drop;
}

-- The cold path of `ensure_open`, past the pull of the terms. The book that it adds is a pending write
-- when it posts the seed, which commits both.
unfoldable pub open_book :
    World → (ℕ → ℕ) → ℕ → ℕ → MarketTerms → Tables → Outcome LedgerError (Book × Tables)
unfolding opened_book seed_of
open_book world new_id now market_id terms s = do
  raise_if (not (is_some terms.published_at)) market_not_published
  liquidity ← figure_of terms.liquidity_b
  seed ← figure_of terms.seed_subsidy
  refuse_unpriceable terms.outcomes
  let book = opened_book world market_id now liquidity seed terms.outcomes
  posted ←
      post world.hashing world.account new_id true now (seed_of world book)
        (record s { books = s.books ++ (book ∷ []) })
  ok (book, posted.1)

unfoldable pub ensure_open :
    World
    → (ℕ → ℕ)
    → ℕ
    → ℕ
    → Outcome LedgerError MarketTerms
    → Tables
    → Outcome LedgerError (Book × Tables)
unfolding open_book
ensure_open world new_id now market_id fetched s = elim (find_book s.books market_id) [
  | some book ↦ ok (book, s)
  | none ↦ fetched >>= (λ terms. open_book world new_id now market_id terms s)
]
