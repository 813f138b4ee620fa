-- ===== src/Ledger/Accounts/Grants.antt =====
-- backend/ledger_service/service/grants.py: a user is granted the starting credits once.
use cs.Base.{
  ℕ, ◌≡◌, refl, Bool, ok, >>=-eq-ok, ok_injective, sym, ap, Option-cases, inl, inr, is_some, true,
  some,
}
use cs.Base.Decimal.{Decimal}
use cs.Ledger.Rows.{Tables, Transaction, user}
use cs.Ledger.Posting.Moves.{post-batch}
use cs.Ledger.Posting.Retry.{post_all-kept, find-replayed}
use cs.Ledger.Posting.{post, find_by_idempotency_key}
use cs.Ledger.Accounts.{World, grant_key, grant_of, ensure_granted}

granted_after :
    (world : World) (new_id : ℕ → ℕ) (pending : Bool) (now : ℕ) (amount : Decimal) (user_id : ℕ)
    (s : Tables) {id : ℕ} {after : Tables}
    → ensure_granted world new_id pending now amount user_id s ≡ ok (id, after)
    → (is_some (find_by_idempotency_key after.transactions (grant_key world user_id)) ≡ true)
      × (id ≡ world.id_of user user_id)
unfolding ensure_granted grant_of
granted_after world new_id pending now amount user_id s h =
    elim (Option-cases (find_by_idempotency_key s.transactions (grant_key world user_id))) [
      | inr (t, e) ↦
          let pair = ok_injective (rw (e, ensure_granted) at h) in
          (rw (sym (ap (λ p. p.1) pair), e) refl, sym (ap (λ p. p.0) pair))
      | inl e ↦
          let (posted, written, h₁) =
            >>=-eq-ok
              (post world.hashing world.account new_id pending now (grant_of world amount user_id)
                s)
              _ (rw (e, ensure_granted) at h) in
          let pair = ok_injective h₁ in
          let (transactions, batch) =
            post-batch world.hashing world.account new_id pending now
              (grant_of world amount user_id) s written in
          let kept =
            post_all-kept world.hashing world.account new_id pending now _ s transactions posted.1
              batch in
          let (t, found) =
            find-replayed world.hashing posted.1.transactions (grant_of world amount user_id)
              kept in
          (rw (sym (ap (λ p. p.1) pair), found) refl, sym (ap (λ p. p.0) pair))
    ]

-- Once `ensure_granted` has returned for a user, and whatever other sessions have committed since, as long as the
-- ledger still has each transaction under that user's grant key, the next call for the user returns the same
-- account and changes no table, whatever the amount of the grant has become, and with writes pending or not.
pub ensure_granted-once :
    (world : World) (new_id new_id' : ℕ → ℕ) (pending pending' : Bool) (now now' : ℕ)
    (amount amount' : Decimal) (user_id : ℕ) (others : Tables → Tables) (s : Tables) (id : ℕ)
    (after : Tables)
    → ((t : Tables) (row : Transaction)
        → find_by_idempotency_key t.transactions (grant_key world user_id) ≡ some row
        → find_by_idempotency_key (others t).transactions (grant_key world user_id) ≡ some row)
    → ensure_granted world new_id pending now amount user_id s ≡ ok (id, after)
    → ensure_granted world new_id' pending' now' amount' user_id (others after)
      ≡ ok (id, others after)
unfolding ensure_granted
ensure_granted-once world new_id new_id' pending pending' now now' amount amount' user_id others s
      id after lasting h =
    let (kept, same) = granted_after world new_id pending now amount user_id s h in
    elim (Option-cases (find_by_idempotency_key after.transactions (grant_key world user_id))) [
      | inl e ↦ absurd (let gone = rw e at kept in cc)
      | inr (t, e) ↦ rw (lasting after t e, ensure_granted, same) refl
    ]
