-- ===== src/Ledger/Posting/Balance.antt =====
-- Double entry in backend/ledger_service/service/posting.py: the entries of a transaction sum to zero.
use cs.Base.{
  ℕ, suc, ◌+◌, ◌≡◌, refl, Bool, List, [], ◌∷◌, ◌++◌, ◌==◌, inl, inr, ok, raise_if, raise_if-ok,
  >>=-eq-ok, if◌then◌else◌, ◌∙◌, arith, Bool-cases,
}
use cs.Base.Int.{ℤ, pos, ◌+ℤ◌, eqb_ℤ→eq, int_laws}
use cs.Ledger.Rows.{Account, Transaction, Entry, Tables}
use cs.Ledger.Posting.Legs.{Leg, Movement, Hashing, sum_legs, require_balanced}
use cs.Ledger.Posting.Steps.{post_all-cases}
use cs.Ledger.Posting.{
  Batch, batch_legs, require_all_balanced, built, entries_of, appended, post_all,
}

-- The sum of the entries of one transaction
unfoldable pub total_in : ℕ → List Entry → ℤ
total_in t [] = pos 0
total_in t (entry ∷ rest) =
    (if entry.transaction_id == t then entry.amount else pos 0) +ℤ total_in t rest

total_in-append :
    (t : ℕ) (xs ys : List Entry) → total_in t (xs ++ ys) ≡ total_in t xs +ℤ total_in t ys
unfolding total_in
total_in-append t [] ys = grind int_laws
total_in-append t (x ∷ xs) ys = rw (total_in-append t xs ys) (grind int_laws)

total_in-entries_of :
    (t transaction_id stamp : ℕ) (legs : List (Leg ℤ))
    → total_in t (entries_of transaction_id stamp legs)
      ≡ (if transaction_id == t then sum_legs legs else pos 0)
unfolding total_in entries_of sum_legs
total_in-entries_of t transaction_id stamp [] = ground arith
total_in-entries_of t transaction_id stamp (leg ∷ rest) =
    rw (total_in-entries_of t transaction_id stamp rest) (elim (Bool-cases (transaction_id == t)) [
      | inl e ↦ rw e refl
      | inr e ↦ rw e (grind int_laws)
    ])

require_balanced-sum : (legs : List (Leg ℤ)) → require_balanced legs ≡ ok tt → sum_legs legs ≡ pos 0
unfolding require_balanced
require_balanced-sum legs h =
    let (u, large, balanced) = >>=-eq-ok (raise_if _ _) _ h in
    let tested = raise_if-ok _ _ balanced in eqb_ℤ→eq _ _ (ground (arith, tested))

total_in-built :
    (hashing : Hashing) (new_id : ℕ → ℕ) (stamp index t : ℕ) (batch : Batch)
    → require_all_balanced batch ≡ ok tt
    → total_in t (built hashing new_id stamp index batch).1 ≡ pos 0
unfolding built require_all_balanced total_in
total_in-built hashing new_id stamp index t [] h = refl
total_in-built hashing new_id stamp index t ((m, legs) ∷ rest) h =
    let (u, one, others) = >>=-eq-ok (require_balanced legs) _ h in
    total_in-append t (entries_of (new_id index) (stamp + index) legs) _
    ∙ rw
        (
          total_in-entries_of t (new_id index) (stamp + index) legs,
          require_balanced-sum legs one,
          total_in-built hashing new_id stamp (suc index) t rest others,
        )
        (elim (Bool-cases (new_id index == t)) [
          | inl e ↦ rw e (grind int_laws)
          | inr e ↦ rw e (grind int_laws)
        ])

-- A batch that `post_all` returns leaves the sum of the entries of every transaction as it was, so where
-- the entries of each transaction summed to zero they still do.
pub post_all-total_in :
    (hashing : Hashing) (account : ℕ → Account) (new_id : ℕ → ℕ) (pending : Bool) (now : ℕ)
    (movements : List Movement) (s : Tables) (transactions : List Transaction) (after : Tables)
    → post_all hashing account new_id pending now movements s ≡ ok (transactions, after)
    → (t : ℕ) → total_in t after.entries ≡ total_in t s.entries
unfolding appended
post_all-total_in hashing account new_id pending now movements s transactions after h t =
    let posted = post_all-cases hashing account new_id pending now movements s h in
    elim posted.how [
      | inl replayed ↦ rw replayed.unchanged refl
      | inr written ↦
          rw
            (
              written.committed,
              total_in-append t s.entries _,
              total_in-built hashing new_id _ 0 t (batch_legs movements) posted.balanced,
            )
            (grind int_laws)
    ]
