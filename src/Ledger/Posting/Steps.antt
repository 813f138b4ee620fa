-- ===== src/Ledger/Posting/Steps.antt =====
-- The two ways that `post_all` of backend/ledger_service/service/posting.py returns.
use cs.Base.{
  ℕ, ◌≡◌, refl, Bool, true, false, List, [], ◌∷◌, Bool-cases, inl, inr, ◌⊎◌, ok, raise_if,
  raise_if-ok, >>=-eq-ok, ok_injective, any, is_ok, sym, ap,
}
use cs.Base.Dict.{Dict}
use cs.Ledger.Rows.{Account, Transaction, Entry, Tables}
use cs.Ledger.Posting.Legs.{Movement, Hashing, has_malformed_drop}
use cs.Ledger.Posting.Floors.{Floor, refuse_overdrafts}
use cs.Ledger.Posting.{
  refuse_if_malformed_batch, has_repeated_key, batch_legs, require_all_balanced, any_key_taken,
  replay_batch, stamp_after_newest, all_accounts_of, built, appended, post_all,
}

module _ (hashing : Hashing) (account : ℕ → Account) (new_id : ℕ → ℕ) (pending : Bool) (now : ℕ)
    (movements : List Movement) (s : Tables) where
  abbrev pub first_stamp : ℕ
  first_stamp = stamp_after_newest s.entries (all_accounts_of (batch_legs movements)) now

  abbrev pub rows : List Transaction × List Entry
  rows = built hashing new_id first_stamp 0 (batch_legs movements)

  pub record Replayed (transactions : List Transaction) (after : Tables) : Type 0 where
    pub taken : any_key_taken s.transactions (batch_legs movements) ≡ true
    pub returned :
        replay_batch hashing s.transactions (batch_legs movements) pending ≡ ok transactions
    pub unchanged : after ≡ s

  pub record Written (transactions : List Transaction) (after : Tables) : Type 0 where
    pub fresh : any_key_taken s.transactions (batch_legs movements) ≡ false
    pub floors : Dict Floor
    pub covered : refuse_overdrafts account s (batch_legs movements) ≡ ok floors
    pub returned : transactions ≡ rows.0
    pub committed : after ≡ appended s rows

  pub record Posted (transactions : List Transaction) (after : Tables) : Type 0 where
    pub formed : refuse_if_malformed_batch account movements ≡ ok tt
    pub balanced : require_all_balanced (batch_legs movements) ≡ ok tt
    pub how : Replayed transactions after ⊎ Written transactions after

  pub post_all-cases :
      {transactions : List Transaction} {after : Tables}
      → post_all hashing account new_id pending now movements s ≡ ok (transactions, after)
      → Posted transactions after
  unfolding post_all
  post_all-cases h =
      let (u, formed, h₁) = >>=-eq-ok (refuse_if_malformed_batch account movements) _ h in
      let (v, balanced, h₂) = >>=-eq-ok (require_all_balanced (batch_legs movements)) _ h₁ in
      record {
        formed = formed;
        balanced = balanced;
        how = elim (Bool-cases (any_key_taken s.transactions (batch_legs movements))) [
          | inl e ↦
              let (replayed, h₃, h₄) =
                >>=-eq-ok (replay_batch hashing s.transactions _ pending) _ (rw e at h₂) in
              let eq = ok_injective h₄ in
              inl (record {
                taken = e;
                returned = rw (sym (ap (λ p. p.0) eq)) h₃;
                unchanged = sym (ap (λ p. p.1) eq);
              })
          | inr e ↦
              let (floors, h₃, h₄) = >>=-eq-ok (refuse_overdrafts account s _) _ (rw e at h₂) in
              let eq = ok_injective h₄ in
              inr (record {
                fresh = e;
                floors = floors;
                covered = h₃;
                returned = sym (ap (λ p. p.0) eq);
                committed = sym (ap (λ p. p.1) eq);
              })
        ];
      }

pub malformed_batch-drops :
    (account : ℕ → Account) (movements : List Movement)
    → refuse_if_malformed_batch account movements ≡ ok tt
    → (has_repeated_key movements ≡ false) × (any (has_malformed_drop account) movements ≡ false)
unfolding refuse_if_malformed_batch
malformed_batch-drops account [] h = absurd cc
malformed_batch-drops account (m ∷ rest) h =
    let (u, once, h₁) = >>=-eq-ok (raise_if (has_repeated_key (m ∷ rest)) _) _ h in
    (raise_if-ok _ _ once, raise_if-ok _ _ h₁)

pub post_all-is_ok :
    (hashing : Hashing) (account : ℕ → Account) (new_id : ℕ → ℕ) (pending : Bool) (now : ℕ)
    (movements : List Movement) (s : Tables) {floors : Dict Floor}
    → refuse_if_malformed_batch account movements ≡ ok tt
    → require_all_balanced (batch_legs movements) ≡ ok tt
    → any_key_taken s.transactions (batch_legs movements) ≡ false
    → refuse_overdrafts account s (batch_legs movements) ≡ ok floors
    → is_ok (post_all hashing account new_id pending now movements s) ≡ true
unfolding post_all
post_all-is_ok hashing account new_id pending now movements s formed balanced fresh covered =
    rw (formed, balanced, fresh, covered) refl
