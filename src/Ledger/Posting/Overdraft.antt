-- ===== src/Ledger/Posting/Overdraft.antt =====
-- No batch that `post_all` of backend/ledger_service/service/posting.py writes leaves a user whom it
-- debits with less than what the user's buy orders reserve.
use cs.Base.{
  ℕ, ◌≡◌, Bool, true, false, List, [], ◌∷◌, Bool-cases, inl, inr, ◌⊎◌, ok, arith, sym, ◌∙◌,
  >>=-eq-ok, any, ◌==◌, ◌&&◌, ◌||◌, if◌then◌else◌, ==→eq, ==-refl,
}
use cs.Base.Int.{ℤ, pos, ◌+ℤ◌, ◌-ℤ◌, ◌≤ℤ◌, ltb_ℤ, int_laws}
use cs.Base.Dict.{Dict, lookup, member}
use cs.Ledger.Rows.{Account, Transaction, Tables}
use cs.Ledger.Reservations.{balance_of, reserved_of}
use cs.Ledger.Posting.Legs.{
  Movement, Hashing, net_by_account, is_user, add_to_set, has_malformed_drop,
}
use cs.Ledger.Posting.Floors.{
  floors_before_batch, refuse_overdrafts, debited_in, debited_users_of, drops_by_account,
}
use cs.Ledger.Posting.Nets.{
  net_of, net_of_batch, dict_sum, dict_sum-net_by_account, balance_of-append,
}
use cs.Ledger.Posting.Drops.{add_to_set-member, drops-cover}
use cs.Ledger.Posting.Solvency.{walk-IsFloor, floors_for-IsFloor}
use cs.Ledger.Posting.Steps.{post_all-cases, malformed_batch-drops}
use cs.Ledger.Posting.Moves.{balance_of-built}
use cs.Ledger.Posting.{Batch, batch_legs, appended, post_all, any_key_taken}

-- Some movement of the batch takes credits from the account.
unfoldable pub debits : ℕ → Batch → Bool
unfolding net_of
debits j [] = false
debits j ((m, legs) ∷ rest) = ltb_ℤ (net_of j legs) (pos 0) || debits j rest

-- The account's balance is at least what its owner's live buy orders hold.
abbrev pub IsCovered : (ℕ → Account) → Tables → ℕ → Type 0
IsCovered account s j =
    reserved_of s.results s.orders (account j).owner_id ≤ℤ balance_of s.entries j

module _ (account : ℕ → Account) (j : ℕ) (user : is_user (account j).kind ≡ true) where
  abbrev next_debited : ℕ → ℤ → List ℕ → List ℕ
  next_debited k net debited =
      if ltb_ℤ net (pos 0) && is_user (account k).kind then add_to_set k debited else debited

  next_debited-kept :
      (k : ℕ) (net : ℤ) (debited : List ℕ)
      → member j debited ≡ true
      → member j (next_debited k net debited) ≡ true
  next_debited-kept k net debited listed =
      elim (Bool-cases (ltb_ℤ net (pos 0) && is_user (account k).kind)) [
        | inl e ↦ rw (e, add_to_set-member j k debited) (ground (arith, listed))
        | inr e ↦ rw e listed
      ]

  next_debited-own :
      (net : ℤ) (debited : List ℕ)
      → ltb_ℤ net (pos 0) ≡ true
      → member j (next_debited j net debited) ≡ true
  next_debited-own net debited low =
      rw (low, user, add_to_set-member j j debited) (ground (arith, ==-refl j))

  next_debited-started :
      (k : ℕ) (net : ℤ) (remaining : ℤ) (debited : List ℕ)
      → (member j debited ≡ true)
        ⊎ (ltb_ℤ ((if k == j then net else pos 0) +ℤ remaining) (pos 0) ≡ true)
      → (member j (next_debited k net debited) ≡ true) ⊎ (ltb_ℤ remaining (pos 0) ≡ true)
  next_debited-started k net remaining debited (inl listed) =
      inl (next_debited-kept k net debited listed)
  next_debited-started k net remaining debited (inr negative) = elim (Bool-cases (k == j)) [
    | inl e ↦
        let same = ==→eq k j e in
        elim (Bool-cases (ltb_ℤ net (pos 0))) [
          | inl low ↦ inl (rw same (next_debited-own net debited low))
          | inr high ↦ inr (grind (int_laws, rw e at negative, high))
        ]
    | inr e ↦ inr (grind (int_laws, rw e at negative))
  ]

  debited_in-member :
      (nets : Dict ℤ) (debited : List ℕ)
      → (member j debited ≡ true) ⊎ (ltb_ℤ (dict_sum j nets) (pos 0) ≡ true)
      → member j (debited_in account debited nets) ≡ true
  unfolding debited_in dict_sum
  debited_in-member [] debited (inl listed) = listed
  debited_in-member [] debited (inr negative) = absurd cc
  debited_in-member ((k, net) ∷ rest) debited start =
      debited_in-member rest (next_debited k net debited)
        (next_debited-started k net (dict_sum j rest) debited start)

  debited_users_of-member :
      (batch : Batch) (debited : List ℕ)
      → (member j debited ≡ true) ⊎ (debits j batch ≡ true)
      → member j (debited_users_of account debited batch) ≡ true
  unfolding debited_users_of debits
  debited_users_of-member [] debited (inl listed) = listed
  debited_users_of-member [] debited (inr taken) = absurd cc
  debited_users_of-member ((m, legs) ∷ rest) debited (inl listed) =
      debited_users_of-member rest _
        (inl (debited_in-member (net_by_account ◌+ℤ◌ legs) debited (inl listed)))
  debited_users_of-member ((m, legs) ∷ rest) debited (inr taken) =
      elim (Bool-cases (ltb_ℤ (net_of j legs) (pos 0))) [
        | inl e ↦ debited_users_of-member rest _ (
            inl (
              debited_in-member (net_by_account ◌+ℤ◌ legs) debited
                (inr (rw (dict_sum-net_by_account j legs) e))))
        | inr e ↦ debited_users_of-member rest _ (inr (ground (arith, taken, e)))
      ]

covered_after :
    (held dropped taken balance net : ℤ)
    → (held +ℤ dropped) -ℤ taken ≤ℤ balance +ℤ net
    → pos 0 +ℤ taken ≤ℤ dropped
    → held ≤ℤ balance +ℤ net
covered_after held dropped taken balance net end enough = grind int_laws

-- The floor that the walk ends with is the account after the batch.
refuse_overdrafts-covers :
    (account : ℕ → Account) (s : Tables) (movements : List Movement) (j : ℕ) {floors : _}
    → any (has_malformed_drop account) movements ≡ false
    → is_user (account j).kind ≡ true
    → debits j (batch_legs movements) ≡ true
    → refuse_overdrafts account s (batch_legs movements) ≡ ok floors
    → reserved_of s.results s.orders (account j).owner_id
      ≤ℤ balance_of s.entries j +ℤ net_of_batch j (batch_legs movements)
unfolding refuse_overdrafts floors_before_batch lookup
refuse_overdrafts-covers account s movements j formed user debited h =
    let (opened, opening, walked) =
      >>=-eq-ok (floors_before_batch account s (batch_legs movements)) _ h in
    let listed = debited_users_of-member account j user (batch_legs movements) [] (inr debited) in
    let drops = drops_by_account account [] (batch_legs movements) in
    let start = floors_for-IsFloor account s drops j _ [] (inr listed) opening in
    let end = walk-IsFloor account j movements opened _ _ formed start walked in
    let enough = drops-cover account j user movements [] formed in
    covered_after _ _ _ _ _ end.covered enough

-- After a batch that `post_all` wrote, the balance of every user account that some movement of it debits
-- is at least what the owner's live buy orders reserve.
pub post_all-IsCovered :
    (hashing : Hashing) (account : ℕ → Account) (new_id : ℕ → ℕ) (pending : Bool) (now : ℕ)
    (movements : List Movement) (s : Tables) (transactions : List Transaction) (after : Tables)
    → post_all hashing account new_id pending now movements s ≡ ok (transactions, after)
    → any_key_taken s.transactions (batch_legs movements) ≡ false
    → (j : ℕ) → is_user (account j).kind ≡ true
    → debits j (batch_legs movements) ≡ true
    → IsCovered account after j
unfolding appended
post_all-IsCovered hashing account new_id pending now movements s transactions after h fresh j user
      debited =
    let posted = post_all-cases hashing account new_id pending now movements s h in
    let drops = (malformed_batch-drops account movements posted.formed).1 in
    elim posted.how [
      | inl replayed ↦ absurd (let clash = sym fresh ∙ replayed.taken in cc)
      | inr written ↦
          rw
            (
              written.committed,
              balance_of-append s.entries _ j,
              balance_of-built hashing new_id _ 0 (batch_legs movements) j,
            )
            (refuse_overdrafts-covers account s movements j drops user debited written.covered)
    ]
