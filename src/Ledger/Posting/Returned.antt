-- ===== src/Ledger/Posting/Returned.antt =====
-- What `post_all` of backend/ledger_service/service/posting.py returns: a transaction for each movement.
use cs.Base.{
  ℕ, suc, ◌≡◌, refl, Bool, some, List, [], ◌∷◌, inl, inr, ok, raise_if, raise_if-ok, >>=-eq-ok,
  ok_injective, some_injective, sym, arith, Bool-cases, Option-cases,
}
use cs.Base.Text.{Text, text_eq, text_eq→eq}
use cs.Ledger.Rows.{Account, Transaction, Tables}
use cs.Ledger.Posting.Legs.{Movement, Hashing, quantized_legs, fingerprint}
use cs.Ledger.Posting.Retry.{replay_all-of_batch}
use cs.Ledger.Posting.Steps.{post_all-cases}
use cs.Ledger.Posting.{
  batch_legs, built, transaction_of, post_all, find_by_idempotency_key, replay, replay_all,
}

-- What a transaction keeps of its movement: the key, and the digest of its kind and legs
abbrev pub asked : Hashing → List Movement → List (Text × Text)
asked hashing [] = []
asked hashing (m ∷ rest) =
    (m.idempotency_key, fingerprint hashing m.kind (quantized_legs m.legs)) ∷ asked hashing rest

abbrev pub answered : List Transaction → List (Text × Text)
answered [] = []
answered (t ∷ rest) = (t.idempotency_key, t.request_fingerprint) ∷ answered rest

find-key :
    (transactions : List Transaction) (key : Text) {t : Transaction}
    → find_by_idempotency_key transactions key ≡ some t
    → t.idempotency_key ≡ key
unfolding find_by_idempotency_key
find-key [] key h = absurd cc
find-key (u ∷ rest) key h = elim (Bool-cases (text_eq u.idempotency_key key)) [
  | inl e ↦ rw (sym (some_injective (rw e at h))) (text_eq→eq _ _ e)
  | inr e ↦ find-key rest key (rw e at h)
]

replay-print :
    (existing : Transaction) (print : Text) {t : Transaction}
    → replay existing print ≡ ok t
    → (t ≡ existing) × (existing.request_fingerprint ≡ print)
unfolding replay
replay-print existing print h =
    let (u, same, returned) = >>=-eq-ok (raise_if _ _) _ h in
    let equal = raise_if-ok _ _ same in
    (sym (ok_injective returned), text_eq→eq _ _ (ground (arith, equal)))

replay_all-answered :
    (hashing : Hashing) (known : List Transaction) (movements : List Movement)
    {transactions : List Transaction}
    → replay_all hashing known (batch_legs movements) ≡ ok transactions
    → answered transactions ≡ asked hashing movements
unfolding replay_all batch_legs
replay_all-answered hashing known [] h = rw (sym (ok_injective h)) refl
replay_all-answered hashing known (m ∷ rest) h =
    elim (Option-cases (find_by_idempotency_key known m.idempotency_key)) [
      | inl e ↦ absurd (let refused = rw (e, replay_all) at h in cc)
      | inr (t, e) ↦
          let (first, replayed, h₁) =
            >>=-eq-ok (replay t (fingerprint hashing m.kind (quantized_legs m.legs))) _
              (rw (e, replay_all) at h) in
          let (others, later, returned) =
            >>=-eq-ok (replay_all hashing known (batch_legs rest)) _ h₁ in
          let (same, print) = replay-print t _ replayed in
          rw
            (
              sym (ok_injective returned),
              same,
              print,
              find-key known m.idempotency_key e,
              replay_all-answered hashing known rest later,
            )
            refl
    ]

built-answered :
    (hashing : Hashing) (new_id : ℕ → ℕ) (stamp index : ℕ) (movements : List Movement)
    → answered (built hashing new_id stamp index (batch_legs movements)).0 ≡ asked hashing movements
unfolding built transaction_of batch_legs
built-answered hashing new_id stamp index [] = refl
built-answered hashing new_id stamp index (m ∷ rest) =
    rw (built-answered hashing new_id stamp (suc index) rest) refl

-- A batch that `post_all` returns, written or replayed, is answered with one transaction for each movement,
-- in the batch's order, with the movement's key and with the digest of its kind and its rounded legs.
pub post_all-answered :
    (hashing : Hashing) (account : ℕ → Account) (new_id : ℕ → ℕ) (pending : Bool) (now : ℕ)
    (movements : List Movement) (s : Tables) (transactions : List Transaction) (after : Tables)
    → post_all hashing account new_id pending now movements s ≡ ok (transactions, after)
    → answered transactions ≡ asked hashing movements
post_all-answered hashing account new_id pending now movements s transactions after h =
    let posted = post_all-cases hashing account new_id pending now movements s h in
    elim posted.how [
      | inl old ↦
          replay_all-answered hashing s.transactions movements
            (replay_all-of_batch hashing s.transactions (batch_legs movements) pending old.returned)
      | inr written ↦ rw written.returned (built-answered hashing new_id _ 0 movements)
    ]
