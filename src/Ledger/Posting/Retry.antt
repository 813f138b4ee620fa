-- ===== src/Ledger/Posting/Retry.antt =====
-- A retry in backend/ledger_service/service/posting.py: the batch again, on the tables that it left.
use cs.Base.{
  ℕ, suc, ◌+◌, ◌≡◌, refl, Bool, true, false, none, some, List, [], ◌∷◌, ◌++◌, inl, inr, ok,
  raise_if, >>=-eq-ok, ◌∙◌, Bool-cases, Option-cases, append_assoc, subst,
}
use cs.Base.Int.{ℤ}
use cs.Base.Text.{Text, text_eq, text_eq_refl}
use cs.Ledger.Rows.{Account, Transaction, Tables}
use cs.Ledger.Posting.Legs.{Leg, Movement, Hashing, quantized_legs, fingerprint}
use cs.Ledger.Posting.Drops.{parts_of_or}
use cs.Ledger.Posting.Steps.{post_all-cases, malformed_batch-drops}
use cs.Ledger.Posting.{
  Batch, batch_legs, built, transaction_of, appended, post_all, find_by_idempotency_key,
  any_key_taken, any_key_missing, replay, replay_all, replay_batch, stamp_after_newest,
  all_accounts_of, is_repeated, has_repeated_key, refuse_if_malformed_batch, require_all_balanced,
}

find-append :
    (known others : List Transaction) (key : Text)
    → find_by_idempotency_key known key ≡ none
    → find_by_idempotency_key (known ++ others) key ≡ find_by_idempotency_key others key
unfolding find_by_idempotency_key
find-append [] others key h = refl
find-append (t ∷ rest) others key h = elim (Bool-cases (text_eq t.idempotency_key key)) [
  | inl e ↦ absurd (let found = rw e at h in cc)
  | inr e ↦ rw e (find-append rest others key (rw e at h))
]

untaken :
    (known : List Transaction) (m : Movement) (legs : List (Leg ℤ)) (rest : Batch)
    → any_key_taken known ((m, legs) ∷ rest) ≡ false
    → (find_by_idempotency_key known m.idempotency_key ≡ none) × (any_key_taken known rest ≡ false)
unfolding any_key_taken
untaken known m legs rest h =
    elim (Option-cases (find_by_idempotency_key known m.idempotency_key)) [
      | inl e ↦ (e, rw e at h)
      | inr (t, e) ↦ absurd (let taken = rw e at h in cc)
    ]

still_untaken :
    (known : List Transaction) (t : Transaction) (movements : List Movement)
    → is_repeated t.idempotency_key movements ≡ false
    → any_key_taken known (batch_legs movements) ≡ false
    → any_key_taken (known ++ (t ∷ [])) (batch_legs movements) ≡ false
unfolding any_key_taken is_repeated find_by_idempotency_key batch_legs
still_untaken known t [] single fresh = refl
still_untaken known t (m ∷ rest) single fresh =
    let (other, others) = parts_of_or (text_eq t.idempotency_key m.idempotency_key) _ single in
    let (missing, later) = untaken known m (quantized_legs m.legs) (batch_legs rest) fresh in
    rw
      (
        find-append known (t ∷ []) m.idempotency_key missing,
        other,
        still_untaken known t rest others later,
      )
      refl

find-own :
    (known : List Transaction) (t : Transaction) (others : List Transaction)
    → find_by_idempotency_key known t.idempotency_key ≡ none
    → find_by_idempotency_key (known ++ (t ∷ others)) t.idempotency_key ≡ some t
unfolding find_by_idempotency_key
find-own known t others missing =
    find-append known (t ∷ others) t.idempotency_key missing
    ∙ rw (text_eq_refl t.idempotency_key) refl

replay_one :
    (hashing : Hashing) (known : List Transaction) (m : Movement) (legs : List (Leg ℤ))
    (rest : Batch) (t : Transaction) {others : List Transaction}
    → find_by_idempotency_key known m.idempotency_key ≡ some t
    → t.request_fingerprint ≡ fingerprint hashing m.kind legs
    → replay_all hashing known rest ≡ ok others
    → replay_all hashing known ((m, legs) ∷ rest) ≡ ok (t ∷ others)
unfolding replay_all replay raise_if
replay_one hashing known m legs rest t found same later =
    rw (found, replay_all, same, text_eq_refl (fingerprint hashing m.kind legs), later) refl

module _ (hashing : Hashing) (new_id : ℕ → ℕ) (stamp : ℕ) where
  -- The rows of a batch are what a lookup of its keys replays.
  replay_all-built :
      (index : ℕ) (movements : List Movement) (known : List Transaction)
      → any_key_taken known (batch_legs movements) ≡ false
      → has_repeated_key movements ≡ false
      → replay_all hashing
          (known ++ (built hashing new_id stamp index (batch_legs movements)).0)
          (batch_legs movements)
        ≡ ok (built hashing new_id stamp index (batch_legs movements)).0
  unfolding replay_all built batch_legs has_repeated_key
  replay_all-built index [] known fresh single = refl
  replay_all-built index (m ∷ rest) known fresh single =
      let (once, others) = parts_of_or (is_repeated m.idempotency_key rest) _ single in
      let (missing, later) = untaken known m (quantized_legs m.legs) (batch_legs rest) fresh in
      let row = transaction_of hashing new_id index m (quantized_legs m.legs) (stamp + index) in
      let found =
        find-own known row (built hashing new_id stamp (suc index) (batch_legs rest)).0 missing in
      let others_found =
        subst
          (λ ts.
            replay_all hashing ts (batch_legs rest)
            ≡ ok (built hashing new_id stamp (suc index) (batch_legs rest)).0)
          (append_assoc known (row ∷ []) _)
          (replay_all-built (suc index) rest (known ++ (row ∷ []))
            (still_untaken known row rest once later) others) in
      replay_one hashing _ m (quantized_legs m.legs) (batch_legs rest) row found refl others_found

replay_all-found :
    (hashing : Hashing) (transactions : List Transaction) (batch : Batch)
    {replayed : List Transaction}
    → replay_all hashing transactions batch ≡ ok replayed
    → any_key_missing transactions batch ≡ false
unfolding replay_all any_key_missing
replay_all-found hashing transactions [] h = refl
replay_all-found hashing transactions ((m, legs) ∷ rest) h =
    elim (Option-cases (find_by_idempotency_key transactions m.idempotency_key)) [
      | inl e ↦ absurd (let refused = rw (e, replay_all) at h in cc)
      | inr (t, e) ↦
          let (first, replayed, h₁) =
            >>=-eq-ok (replay t (fingerprint hashing m.kind legs)) _ (rw (e, replay_all) at h) in
          let (others, h₂, h₃) = >>=-eq-ok (replay_all hashing transactions rest) _ h₁ in
          rw (e, replay_all-found hashing transactions rest h₂) refl
    ]

any_key_taken-found :
    (transactions : List Transaction) (m : Movement) (legs : List (Leg ℤ)) (rest : Batch)
    → any_key_missing transactions ((m, legs) ∷ rest) ≡ false
    → any_key_taken transactions ((m, legs) ∷ rest) ≡ true
unfolding any_key_taken any_key_missing
any_key_taken-found transactions m legs rest h =
    elim (Option-cases (find_by_idempotency_key transactions m.idempotency_key)) [
      | inl e ↦ absurd (let missing = rw e at h in cc)
      | inr (t, e) ↦ rw e refl
    ]

batch_taken :
    (account : ℕ → Account) (transactions : List Transaction) (movements : List Movement)
    → refuse_if_malformed_batch account movements ≡ ok tt
    → any_key_missing transactions (batch_legs movements) ≡ false
    → any_key_taken transactions (batch_legs movements) ≡ true
unfolding refuse_if_malformed_batch batch_legs
batch_taken account transactions [] formed h = absurd cc
batch_taken account transactions (m ∷ rest) formed h =
    any_key_taken-found transactions m (quantized_legs m.legs) (batch_legs rest) h

replay_batch-clean :
    (hashing : Hashing) (transactions : List Transaction) (batch : Batch)
    {replayed : List Transaction}
    → replay_all hashing transactions batch ≡ ok replayed
    → replay_batch hashing transactions batch false ≡ ok replayed
unfolding replay_batch raise_if
replay_batch-clean hashing transactions batch h =
    rw (replay_all-found hashing transactions batch h, h) refl

pub replay_all-of_batch :
    (hashing : Hashing) (transactions : List Transaction) (batch : Batch) (pending : Bool)
    {replayed : List Transaction}
    → replay_batch hashing transactions batch pending ≡ ok replayed
    → replay_all hashing transactions batch ≡ ok replayed
unfolding replay_batch
replay_all-of_batch hashing transactions batch pending h =
    let (u, clean, h₁) = >>=-eq-ok (raise_if pending _) _ h in
    let (v, whole, h₂) = >>=-eq-ok (raise_if _ _) _ h₁ in h₂

post_all-known :
    (hashing : Hashing) (account : ℕ → Account) (new_id : ℕ → ℕ) (now : ℕ)
    (movements : List Movement) (s : Tables) {replayed : List Transaction}
    → refuse_if_malformed_batch account movements ≡ ok tt
    → require_all_balanced (batch_legs movements) ≡ ok tt
    → replay_all hashing s.transactions (batch_legs movements) ≡ ok replayed
    → post_all hashing account new_id false now movements s ≡ ok (replayed, s)
unfolding post_all
post_all-known hashing account new_id now movements s formed balanced h =
    let whole = replay_all-found hashing s.transactions (batch_legs movements) h in
    rw
      (
        formed,
        balanced,
        batch_taken account s.transactions movements formed whole,
        replay_batch-clean hashing s.transactions (batch_legs movements) h,
      )
      refl

-- The keys of a batch that `post_all` returned name the transactions that it returned.
pub post_all-kept :
    (hashing : Hashing) (account : ℕ → Account) (new_id : ℕ → ℕ) (pending : Bool) (now : ℕ)
    (movements : List Movement) (s : Tables) (transactions : List Transaction) (after : Tables)
    → post_all hashing account new_id pending now movements s ≡ ok (transactions, after)
    → replay_all hashing after.transactions (batch_legs movements) ≡ ok transactions
unfolding appended
post_all-kept hashing account new_id pending now movements s transactions after h =
    let posted = post_all-cases hashing account new_id pending now movements s h in
    elim posted.how [
      | inl old ↦
          rw old.unchanged
            (replay_all-of_batch hashing s.transactions (batch_legs movements) pending old.returned)
      | inr written ↦
          rw (written.committed, written.returned)
            (replay_all-built hashing new_id
              (stamp_after_newest s.entries (all_accounts_of (batch_legs movements)) now) 0
              movements s.transactions written.fresh
              (malformed_batch-drops account movements posted.formed).0)
    ]

-- A batch that `post_all` returned, sent again with nothing pending, at any later time and with the ids
-- that the next rows would get, returns the same transactions and changes no table.
pub post_all-replayed :
    (hashing : Hashing) (account : ℕ → Account) (new_id new_id' : ℕ → ℕ) (pending : Bool)
    (now now' : ℕ) (movements : List Movement) (s : Tables) (transactions : List Transaction)
    (after : Tables)
    → post_all hashing account new_id pending now movements s ≡ ok (transactions, after)
    → post_all hashing account new_id' false now' movements after ≡ ok (transactions, after)
post_all-replayed hashing account new_id new_id' pending now now' movements s transactions after h =
    let posted = post_all-cases hashing account new_id pending now movements s h in
    post_all-known hashing account new_id' now' movements after posted.formed posted.balanced
      (post_all-kept hashing account new_id pending now movements s transactions after h)

pub find-replayed :
    (hashing : Hashing) (known : List Transaction) (m : Movement) {replayed : List Transaction}
    → replay_all hashing known (batch_legs (m ∷ [])) ≡ ok replayed
    → (t : Transaction) × (find_by_idempotency_key known m.idempotency_key ≡ some t)
unfolding batch_legs replay_all
find-replayed hashing known m h =
    elim (Option-cases (find_by_idempotency_key known m.idempotency_key)) [
      | inl e ↦ absurd (let refused = rw (e, replay_all) at h in cc)
      | inr found ↦ found
    ]
