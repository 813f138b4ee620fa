-- ===== src/Ledger/Posting.antt =====
-- backend/ledger_service/service/posting.py: the write path of the ledger. A session that holds the
-- account locks reads and writes alone, so a post is a function of the tables that it commits or
-- leaves. A session that loses a race on a key re-reads under its savepoint and replays, which is this
-- function on the tables that the winner left.
pub mod Legs
pub mod Floors
pub mod Nets
mod Drops
mod Solvency
pub mod Steps
pub mod Moves
pub mod Overdraft
pub mod Balance
pub mod Feed
pub mod Retry
pub mod Returned
use cs.Base.{
  ℕ, zero, suc, ◌+◌, ◌≤◌, Bool, true, false, not, Option, none, some, List, [], ◌∷◌, ◌++◌, map,
  length, any, ltb, leb, ◌==◌, ◌&&◌, ◌||◌, if◌then◌else◌, Outcome, ok, err, ◌>>=◌, ◌>>◌, raise_if,
  max,
}
use cs.Base.Int.{ℤ, pos, ◌+ℤ◌}
use cs.Base.Text.{Text, text_eq}
use cs.Ledger.Rows.{
  Account, Transaction, TransactionKind, Entry, Tables, TransactionContext, LedgerError,
  malformed_batch, unbalanced_transaction, idempotency_key_reused, pending_writes_on_replay,
}
use cs.Ledger.Posting.Legs.{
  Leg, Movement, Hashing, quantized_legs, require_balanced, fingerprint, has_malformed_drop,
  account_ids_of,
}
use cs.Ledger.Posting.Floors.{refuse_overdrafts}

unfoldable pub is_repeated : Text → List Movement → Bool
is_repeated key [] = false
is_repeated key (m ∷ rest) = text_eq key m.idempotency_key || is_repeated key rest

unfoldable pub has_repeated_key : List Movement → Bool
unfolding is_repeated
has_repeated_key [] = false
has_repeated_key (m ∷ rest) = is_repeated m.idempotency_key rest || has_repeated_key rest

module _ (account : ℕ → Account) where
  unfoldable pub refuse_if_malformed_batch : List Movement → Outcome LedgerError Unit
  unfolding has_repeated_key
  refuse_if_malformed_batch [] = err malformed_batch
  refuse_if_malformed_batch (m ∷ rest) =
      raise_if (has_repeated_key (m ∷ rest)) malformed_batch
      >> raise_if (any (has_malformed_drop account) (m ∷ rest)) malformed_batch

-- Each movement with its rounded legs.
abbrev pub Batch : Type 0
Batch = List (Movement × List (Leg ℤ))

unfoldable pub batch_legs : List Movement → Batch
unfolding quantized_legs
batch_legs [] = []
batch_legs (m ∷ rest) = (m, quantized_legs m.legs) ∷ batch_legs rest

unfoldable pub require_all_balanced : Batch → Outcome LedgerError Unit
unfolding require_balanced
require_all_balanced [] = ok tt
require_all_balanced ((m, legs) ∷ rest) = require_balanced legs >> require_all_balanced rest

-- `find_by_idempotency_key`; the unique index lets one transaction have a key.
unfoldable pub find_by_idempotency_key : List Transaction → Text → Option Transaction
find_by_idempotency_key [] key = none
find_by_idempotency_key (t ∷ rest) key =
    if text_eq t.idempotency_key key then some t else find_by_idempotency_key rest key

-- `if existing`: some key of the batch is taken.
unfoldable pub any_key_taken : List Transaction → Batch → Bool
unfolding find_by_idempotency_key
any_key_taken transactions [] = false
any_key_taken transactions ((m, legs) ∷ rest) =
    elim (find_by_idempotency_key transactions m.idempotency_key) [ none ↦ false | some t ↦ true ]
    || any_key_taken transactions rest

-- `any(key not in found for key in keys)`
unfoldable pub any_key_missing : List Transaction → Batch → Bool
any_key_missing transactions [] = false
any_key_missing transactions ((m, legs) ∷ rest) =
    elim (find_by_idempotency_key transactions m.idempotency_key) [ none ↦ true | some t ↦ false ]
    || any_key_missing transactions rest

-- `_replay`
unfoldable pub replay : Transaction → Text → Outcome LedgerError Transaction
replay existing print =
    raise_if (not (text_eq existing.request_fingerprint print)) idempotency_key_reused
    >> ok existing

newest_of : ℕ → List Entry → Option ℕ
newest_of account_id [] = none
newest_of account_id (entry ∷ rest) =
    let later = newest_of account_id rest in
    if entry.account_id == account_id
    then some (elim later [ none ↦ entry.created_at | some t ↦ max entry.created_at t ])
    else later

-- `_stamp_after_newest`, with one microsecond as the tick.
unfoldable pub stamp_after_newest : List Entry → List ℕ → ℕ → ℕ
unfolding newest_of
stamp_after_newest entries [] stamp = stamp
stamp_after_newest entries (account_id ∷ rest) stamp =
    stamp_after_newest entries rest (elim (newest_of account_id entries) [
      | none ↦ stamp
      | some newest ↦ if ltb stamp (newest + 1) then newest + 1 else stamp
    ])

-- One entry for each leg, all at the transaction's stamp.
unfoldable pub entries_of : ℕ → ℕ → List (Leg ℤ) → List Entry
entries_of transaction_id stamp [] = []
entries_of transaction_id stamp (leg ∷ rest) =
    record {
      transaction_id = transaction_id;
      account_id = leg.account_id;
      amount = leg.amount;
      created_at = stamp;
    }
    ∷ entries_of transaction_id stamp rest

-- Every account of the batch, as often as a leg names it.
unfoldable pub all_accounts_of : Batch → List ℕ
unfolding account_ids_of
all_accounts_of [] = []
all_accounts_of ((m, legs) ∷ rest) = account_ids_of legs ++ all_accounts_of rest

unfoldable pub appended : Tables → List Transaction × List Entry → Tables
appended s (transactions, entries) = record s {
  transactions = s.transactions ++ transactions;
  entries = s.entries ++ entries;
}

-- `(transaction,) = ...`
abbrev pub only_one : List Transaction → Tables → Outcome LedgerError (Transaction × Tables)
only_one [] after = err malformed_batch
only_one (t ∷ rest) after = ok (t, after)

module _ (hashing : Hashing) where
  -- `_replay_batch`, past its two refusals
  unfoldable pub replay_all : List Transaction → Batch → Outcome LedgerError (List Transaction)
  replay_all transactions [] = ok []
  replay_all transactions ((m, legs) ∷ rest) =
      elim (find_by_idempotency_key transactions m.idempotency_key) [
        | none ↦ err idempotency_key_reused
        | some existing ↦ (do
          replayed ← replay existing (fingerprint hashing m.kind legs)
          others ← replay_all transactions rest
          ok (replayed ∷ others))
      ]

  unfoldable pub replay_batch :
      List Transaction → Batch → Bool → Outcome LedgerError (List Transaction)
  replay_batch transactions batch caller_pending = do
    raise_if caller_pending pending_writes_on_replay
    raise_if (any_key_missing transactions batch) idempotency_key_reused
    replay_all transactions batch

  unfoldable pub transaction_of : (ℕ → ℕ) → ℕ → Movement → List (Leg ℤ) → ℕ → Transaction
  transaction_of new_id index movement legs stamp = record {
    id = new_id index;
    kind = movement.kind;
    idempotency_key = movement.idempotency_key;
    request_fingerprint = fingerprint hashing movement.kind legs;
    occurred_at = stamp;
    context = movement.context;
  }

  -- The loop over the batch: movement `index` lands at the first stamp plus `index` microseconds.
  unfoldable pub built : (ℕ → ℕ) → ℕ → ℕ → Batch → List Transaction × List Entry
  unfolding entries_of transaction_of
  built new_id first_stamp index [] = ([], [])
  built new_id first_stamp index ((m, legs) ∷ rest) =
      let (transactions, entries) = built new_id first_stamp (suc index) rest in
      (
        transaction_of new_id index m legs (first_stamp + index) ∷ transactions,
        entries_of (new_id index) (first_stamp + index) legs ++ entries,
      )

  module _ (account : ℕ → Account) where
    -- `post_all`: the transactions and the tables after the commit. `s` holds the caller's pending
    -- writes, which the same commit makes lasting.
    unfoldable pub post_all :
        (ℕ → ℕ)
        → Bool
        → ℕ
        → List Movement
        → Tables
        → Outcome LedgerError (List Transaction × Tables)
    post_all new_id caller_pending now movements s = do
      refuse_if_malformed_batch account movements
      let batch = batch_legs movements
      require_all_balanced batch
      if any_key_taken s.transactions batch
          then (replay_batch s.transactions batch caller_pending >>= (λ replayed. ok (replayed, s)))
          else (do
            refuse_overdrafts account s batch
            let first_stamp = stamp_after_newest s.entries (all_accounts_of batch) now
            let rows = built new_id first_stamp 0 batch
            ok (rows.0, appended s rows))

    -- `post`: a batch of one, of which `post_all` returns one transaction
    unfoldable pub post :
        (ℕ → ℕ) → Bool → ℕ → Movement → Tables → Outcome LedgerError (Transaction × Tables)
    post new_id caller_pending now movement s =
        post_all new_id caller_pending now (movement ∷ []) s
        >>= (λ posted. only_one posted.0 posted.1)
