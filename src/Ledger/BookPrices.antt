-- ===== src/Ledger/BookPrices.antt =====
-- backend/ledger_service/service/book_prices.py, service/preview.py and service/snapshot.py: the prices of a
-- book, and what a trade would cost at them. The first touch of a cold market is `books.ensure_open`.
use cs.Base.{
  ℕ, not, Option, none, some, List, [], ◌∷◌, length, ltb, ◌==◌, if◌then◌else◌, Outcome, ok, err,
  ◌>>=◌, ◌>>◌, raise_if, suc,
}
use cs.Base.Int.{ℤ, pos, ◌-ℤ◌, leb_ℤ}
use cs.Base.Decimal.{Decimal, quantize}
use cs.Ledger.Lmsr.{Engine, PricingError, prices}
use cs.Ledger.Pricing.{Side, buy, sell, trade_cost_of, per_share, quantize_price}
use cs.Ledger.Rows.{
  OutcomeRow, Book, LedgerError, market_book_incomplete, unknown_outcome, not_priced, bad_value,
}
use cs.Ledger.Books.{finite, is_positive_finite}

pub record PricedOutcome : Type 0 where
  pub outcome_id : ℕ
  pub position : ℤ
  pub price : ℤ

pub record Snapshot : Type 0 where
  pub market_id : ℕ
  pub state_version : ℕ
  pub prices : List PricedOutcome
  pub occurred_at : ℕ

-- A refusal of the engine
unfoldable pub priced_by : {A : Type 0} → Outcome PricingError A → Outcome LedgerError A
priced_by (ok a) = ok a
priced_by (err e) = err (not_priced e)

unfoldable pub insert_row : OutcomeRow → List OutcomeRow → List OutcomeRow
insert_row o [] = o ∷ []
insert_row o (x ∷ rest) =
    if leb_ℤ o.position x.position then o ∷ x ∷ rest else x ∷ insert_row o rest

-- `ORDER BY position`
unfoldable pub in_position_order : List OutcomeRow → List OutcomeRow
unfolding insert_row
in_position_order [] = []
in_position_order (o ∷ rest) = insert_row o (in_position_order rest)

unfoldable pub outcome_ids_of : List OutcomeRow → List ℕ
outcome_ids_of [] = []
outcome_ids_of (o ∷ rest) = o.outcome_id ∷ outcome_ids_of rest

unfoldable pub q_of : List OutcomeRow → List ℤ
q_of [] = []
q_of (o ∷ rest) = o.q ∷ q_of rest

-- `ids.index(outcome_id)`
unfoldable pub index_of : ℕ → List ℕ → Option ℕ
index_of x [] = none
index_of x (y ∷ ys) =
    let later = index_of x ys in
    if x == y then some 0 else elim later [ none ↦ none | some i ↦ some (suc i) ]

-- The book's `b` as its column keeps it
abbrev pub b_of : Book → ℤ
b_of book = quantize book.liquidity_b

-- `refuse_unpriceable` of book_prices.py
unfoldable pub refuse_unpriceable_book : ℕ → Decimal → Outcome LedgerError Unit
unfolding is_positive_finite
refuse_unpriceable_book outcome_count b = do
  raise_if (ltb outcome_count 2) market_book_incomplete
  raise_if (not (is_positive_finite (finite b))) market_book_incomplete

unfoldable pub index_in : ℕ → List OutcomeRow → Outcome LedgerError ℕ
unfolding index_of outcome_ids_of
index_in outcome_id rows = elim (index_of outcome_id (outcome_ids_of rows)) [
  | none ↦ err unknown_outcome
  | some index ↦ ok index
]

module _ (e : Engine) where
  -- `zip(rows, raw, strict=True)`
  unfoldable pub priced : List OutcomeRow → List e.Num → Outcome LedgerError (List PricedOutcome)
  priced [] [] = ok []
  priced [] (price ∷ raw) = err bad_value
  priced (row ∷ rows) [] = err bad_value
  priced (row ∷ rows) (price ∷ raw) = priced rows raw >>= (λ others. ok (
      record {
        outcome_id = row.outcome_id;
        position = row.position;
        price = quantize_price e price;
      }
      ∷ others))

  -- `book_prices.priced(rows, lmsr_prices(q, b))`
  unfoldable pub prices_at : List OutcomeRow → List ℤ → ℤ → Outcome LedgerError (List PricedOutcome)
  unfolding priced priced_by
  prices_at rows q b = priced_by (prices e q b) >>= (λ raw. priced rows raw)

  -- `snapshot` of a book that is open
  unfoldable pub snapshot_of : Book → Outcome LedgerError Snapshot
  unfolding prices_at in_position_order q_of refuse_unpriceable_book
  snapshot_of book = do
    let rows = in_position_order book.outcomes
    refuse_unpriceable_book (length rows) book.liquidity_b
    shown ← prices_at rows (q_of rows) (b_of book)
    ok (record {
      market_id = book.market_id;
      state_version = book.state_version;
      prices = shown;
      occurred_at = book.state_changed_at;
    })

pub record Quote : Type 0 where
  pub market_id : ℕ
  pub state_version : ℕ
  pub side : Side
  pub outcome_id : ℕ
  pub quantity : ℕ
  pub total : ℤ
  pub average_price : ℤ
  pub payout_if_wins : Option ℤ
  pub profit_if_wins : Option ℤ
  pub prices : List PricedOutcome
  pub post_trade_prices : List PricedOutcome

unfoldable pub payout_of_win : Side → ℕ → Option ℤ
payout_of_win buy quantity = some (pos quantity)
payout_of_win sell quantity = none

unfoldable pub profit_of_win : Side → ℕ → ℤ → Option ℤ
profit_of_win buy quantity magnitude = some (pos quantity -ℤ magnitude)
profit_of_win sell quantity magnitude = none

-- `quote` of a book that is open
unfoldable pub quote : Engine → Book → ℕ → Side → ℕ → Outcome LedgerError Quote
unfolding prices_at in_position_order q_of refuse_unpriceable_book index_in priced_by payout_of_win
    profit_of_win
quote e book outcome_id side quantity = do
  let rows = in_position_order book.outcomes
  refuse_unpriceable_book (length rows) book.liquidity_b
  index ← index_in outcome_id rows
  cost ← priced_by (trade_cost_of e (q_of rows) (b_of book) index side quantity)
  average ← priced_by (per_share e cost.magnitude quantity)
  before ← prices_at e rows (q_of rows) (b_of book)
  after ← prices_at e rows cost.after_q (b_of book)
  ok (record {
    market_id = book.market_id;
    state_version = book.state_version;
    side = side;
    outcome_id = outcome_id;
    quantity = quantity;
    total = cost.total;
    average_price = average;
    payout_if_wins = payout_of_win side quantity;
    profit_if_wins = profit_of_win side quantity cost.magnitude;
    prices = before;
    post_trade_prices = after;
  })
