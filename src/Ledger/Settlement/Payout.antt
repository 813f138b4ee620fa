-- ===== src/Ledger/Settlement/Payout.antt =====
-- `pay_out` of backend/ledger_service/service/settlement.py: a recorded settlement is answered from its
-- entries, and another is settled under the book's lock.
use cs.Base.{
  ℕ, ◌+◌, Bool, true, false, Option, none, some, List, [], ◌∷◌, ◌==◌, ◌&&◌, if◌then◌else◌, Outcome,
  ok, err, ◌>>◌,
}
use cs.Base.Int.{ℤ, pos, neg, ◌+ℤ◌}
use cs.Ledger.Rows.{
  Book, Tables, LedgerError, Entry, Transaction, TransactionKind, settlement, settlement_residue,
  MarketResult, settled, voided, market_already_voided, market_terms_unavailable,
}
use cs.Ledger.Accounts.{World}
use cs.Ledger.Books.{MarketTerms, find_book, find_result, ensure_open}
use cs.Ledger.Settlement.{SettlementResult, settle_book, refuse_if_not_settleable}

-- `pool_totals_of` for one kind: the count of its entries on the pool, and what they took.
unfoldable pub has_kind : (TransactionKind → Bool) → List Transaction → ℕ → Bool
has_kind is_kind [] transaction_id = false
has_kind is_kind (t ∷ rest) transaction_id =
    if t.id == transaction_id then is_kind t.kind else has_kind is_kind rest transaction_id

unfoldable pub pool_total : (TransactionKind → Bool) → List Transaction → ℕ → List Entry → ℕ × ℤ
unfolding has_kind
pool_total is_kind transactions pool [] = (0, pos 0)
pool_total is_kind transactions pool (entry ∷ rest) =
    let totals = pool_total is_kind transactions pool rest in
    if entry.account_id == pool && has_kind is_kind transactions entry.transaction_id
    then (totals.0 + 1, neg entry.amount +ℤ totals.1)
    else totals

abbrev is_settlement : TransactionKind → Bool
is_settlement settlement = true
is_settlement _ = false

abbrev is_settlement_residue : TransactionKind → Bool
is_settlement_residue settlement_residue = true
is_settlement_residue _ = false

-- What `_replay` answers with, from the record's own outcome and time. `pool` is the pool of the market's
-- book, of which the record has one.
unfoldable pub replayed_result : ℕ → MarketResult → ℕ → ℕ → Tables → SettlementResult
unfolding pool_total
replayed_result market_id market_result outcome_id pool s =
    let payouts = pool_total is_settlement s.transactions pool s.entries in
    let residue = pool_total is_settlement_residue s.transactions pool s.entries in
    record {
      market_id = market_id;
      outcome_id = outcome_id;
      recorded_at = market_result.recorded_at;
      holders_paid = payouts.0;
      total_paid = payouts.1;
      residue = residue.1;
    }

abbrev pool_of : Option Book → Option ℕ
pool_of none = none
pool_of (some book) = some book.pool_account_id

-- A recorded result: a void is refused, and a settlement is answered from its entries.
unfoldable pub answer_recorded : ℕ → MarketResult → Tables → Outcome LedgerError SettlementResult
unfolding replayed_result
answer_recorded market_id market_result s = elim market_result.kind [
  | voided ↦ err market_already_voided
  | settled ↦ elim market_result.outcome_id [
    | none ↦ err market_terms_unavailable
    | some outcome_id ↦ elim (pool_of (find_book s.books market_id)) [
      | none ↦ err market_terms_unavailable
      | some pool ↦ ok (replayed_result market_id market_result outcome_id pool s)
    ]
  ]
]

-- The answer of `market_terms.mark_settled` after the money moved; its error leaves the tables moved.
abbrev confirmed_by :
    Outcome LedgerError Unit
    → SettlementResult
    → Tables
    → Outcome LedgerError SettlementResult × Tables
confirmed_by confirmed result s = (confirmed >> ok result, s)

abbrev pub answered_by :
    Outcome LedgerError Unit
    → Outcome LedgerError SettlementResult
    → Tables
    → Outcome LedgerError SettlementResult × Tables
answered_by confirmed (err e) s = (err e, s)
answered_by confirmed (ok result) s = confirmed_by confirmed result s

-- `pay_out` once it has the book's lock
unfoldable pub pay_out_locked :
    World
    → (ℕ → ℕ)
    → ℕ
    → ℕ
    → ℕ
    → MarketTerms
    → Book
    → Outcome LedgerError Unit
    → Tables
    → Outcome LedgerError SettlementResult × Tables
unfolding answer_recorded settle_book
pay_out_locked world new_id now actor_id market_id terms book confirmed s =
    elim (find_result s.results market_id) [
      | some found ↦ answered_by confirmed (answer_recorded market_id found s) s
      | none ↦ elim (settle_book world new_id now actor_id market_id terms book s) [
        | err e ↦ (err e, s)
        | ok done ↦ confirmed_by confirmed done.0 done.1
      ]
    ]

-- `pay_out`: the answer and the tables. `terms` is what `read_terms` gave, `fetched` the pull of a cold
-- book, `meanwhile` what other sessions commit before this one has the book's lock, and `confirmed` what
-- `mark_settled` gave.
unfoldable pub pay_out :
    World
    → (ℕ → ℕ)
    → ℕ
    → ℕ
    → ℕ
    → Outcome LedgerError MarketTerms
    → Outcome LedgerError MarketTerms
    → (Tables → Tables)
    → Outcome LedgerError Unit
    → Tables
    → Outcome LedgerError SettlementResult × Tables
unfolding answer_recorded pay_out_locked refuse_if_not_settleable
pay_out world new_id now actor_id market_id terms fetched meanwhile confirmed s = elim terms [
  | err e ↦ (err e, s)
  | ok read ↦ elim (find_result s.results market_id) [
    | some found ↦ answered_by confirmed (answer_recorded market_id found s) s
    | none ↦
        elim (refuse_if_not_settleable read >> ensure_open world new_id now market_id fetched s) [
          | err e ↦ (err e, s)
          | ok opened ↦
              pay_out_locked world new_id now actor_id market_id read (opened.0) confirmed
                (meanwhile opened.1)
        ]
  ]
]
