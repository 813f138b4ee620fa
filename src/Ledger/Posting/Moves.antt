-- ===== src/Ledger/Posting/Moves.antt =====
-- What a batch of backend/ledger_service/service/posting.py moves on an account.
use cs.Base.{
  ℕ, suc, ◌+◌, ◌≡◌, refl, Bool, true, List, [], ◌∷◌, ◌++◌, inl, inr, ok, raise_if, >>=-eq-ok,
  ok_injective, ap, sym, ◌∙◌, arith,
}
use cs.Base.Int.{ℤ, ◌+ℤ◌, ◌*ℤ◌, int_laws}
use cs.Base.Decimal.{quantize, of_ticks}
use cs.Ledger.Rows.{Account, Transaction, Tables}
use cs.Ledger.Reservations.{balance_of}
use cs.Ledger.Posting.Legs.{Movement, Hashing}
use cs.Ledger.Posting.Nets.{net_of_batch, balance_of-append, balance_of-entries_of}
use cs.Ledger.Posting.Steps.{post_all-cases}
use cs.Ledger.Posting.{
  Batch, batch_legs, built, entries_of, appended, replay_batch, post_all, only_one, post,
}

pub balance_of-built :
    (hashing : Hashing) (new_id : ℕ → ℕ) (stamp index : ℕ) (batch : Batch) (j : ℕ)
    → balance_of (built hashing new_id stamp index batch).1 j ≡ net_of_batch j batch
unfolding built net_of_batch balance_of
balance_of-built hashing new_id stamp index [] j = refl
balance_of-built hashing new_id stamp index ((m, legs) ∷ rest) j =
    balance_of-append (entries_of (new_id index) (stamp + index) legs) _ j
    ∙ rw
        (
          balance_of-entries_of (new_id index) (stamp + index) legs j,
          balance_of-built hashing new_id stamp (suc index) rest j,
        )
        refl

pub quantize-of_ticks : (n : ℤ) → quantize (of_ticks n) ≡ n
unfolding quantize ◌*ℤ◌
quantize-of_ticks n = ground arith

pub net_of_batch-append :
    (j : ℕ) (xs ys : List Movement)
    → net_of_batch j (batch_legs (xs ++ ys))
      ≡ net_of_batch j (batch_legs xs) +ℤ net_of_batch j (batch_legs ys)
unfolding net_of_batch batch_legs
net_of_batch-append j [] ys = grind int_laws
net_of_batch-append j (m ∷ rest) ys = rw (net_of_batch-append j rest ys) (grind int_laws)

never_replayed :
    (hashing : Hashing) (known : List Transaction) (batch : Batch) {replayed : List Transaction}
    {B : Type 0}
    → replay_batch hashing known batch true ≡ ok replayed
    → B
unfolding replay_batch raise_if
never_replayed hashing known batch h = absurd cc

-- A batch posted with pending writes is written, never replayed.
pub post_all-moves :
    (hashing : Hashing) (account : ℕ → Account) (new_id : ℕ → ℕ) (now : ℕ)
    (movements : List Movement) (s : Tables) {transactions : List Transaction} {after : Tables}
    → post_all hashing account new_id true now movements s ≡ ok (transactions, after)
    → (j : ℕ)
    → balance_of after.entries j ≡ balance_of s.entries j +ℤ net_of_batch j (batch_legs movements)
unfolding appended
post_all-moves hashing account new_id now movements s h j =
    let posted = post_all-cases hashing account new_id true now movements s h in
    elim posted.how [
      | inl old ↦ never_replayed hashing s.transactions (batch_legs movements) old.returned
      | inr written ↦
          rw
            (
              written.committed,
              balance_of-append s.entries _ j,
              balance_of-built hashing new_id _ 0 (batch_legs movements) j,
            )
            refl
    ]

-- A post leaves every table but the transactions and the entries.
pub post_all-others :
    (hashing : Hashing) (account : ℕ → Account) (new_id : ℕ → ℕ) (pending : Bool) (now : ℕ)
    (movements : List Movement) (s : Tables) {transactions : List Transaction} {after : Tables}
    → post_all hashing account new_id pending now movements s ≡ ok (transactions, after)
    → (after.results ≡ s.results)
      × (after.books ≡ s.books)
      × (after.orders ≡ s.orders)
      × (after.positions ≡ s.positions)
unfolding appended
post_all-others hashing account new_id pending now movements s h =
    let posted = post_all-cases hashing account new_id pending now movements s h in
    elim posted.how [
      | inl old ↦ rw old.unchanged (refl, refl, refl, refl)
      | inr written ↦ rw written.committed (refl, refl, refl, refl)
    ]

only_one-after :
    (transactions : List Transaction) (s : Tables) {t : Transaction} {after : Tables}
    → only_one transactions s ≡ ok (t, after)
    → s ≡ after
only_one-after [] s h = absurd cc
only_one-after (t ∷ rest) s h = ap (λ p. p.1) (ok_injective h)

-- `post` is `post_all` of a batch of one.
pub post-batch :
    (hashing : Hashing) (account : ℕ → Account) (new_id : ℕ → ℕ) (pending : Bool) (now : ℕ)
    (m : Movement) (s : Tables) {t : Transaction} {after : Tables}
    → post hashing account new_id pending now m s ≡ ok (t, after)
    → (transactions : List Transaction) × (post_all hashing account new_id pending now (m ∷ []) s
        ≡ ok (transactions, after))
unfolding post
post-batch hashing account new_id pending now m s h =
    let (posted, returned, h₁) =
      >>=-eq-ok (post_all hashing account new_id pending now (m ∷ []) s) _ h in
    (posted.0, rw (sym (only_one-after posted.0 posted.1 h₁)) returned)
