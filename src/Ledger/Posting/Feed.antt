-- ===== src/Ledger/Posting/Feed.antt =====
-- The stamps of backend/ledger_service/service/posting.py: on each account the entries' times follow the
-- order of the commits.
use cs.Base.{
  ℕ, suc, max, ◌+◌, ◌≤◌, ◌<◌, ◌≡◌, refl, Bool, true, false, Option, none, some, List, [], ◌∷◌, ◌++◌,
  ltb, ◌==◌, ◌||◌, inl, inr, ◌⊎◌, ok, if◌then◌else◌, sym, ◌∙◌, arith, Bool-cases, Option-cases, All,
  All-append, All-map, All-each, ==→eq, eq→==, ==-refl,
}
use cs.Base.Int.{ℤ}
use cs.Base.Dict.{member}
use cs.Ledger.Rows.{Account, Transaction, Entry, Tables}
use cs.Ledger.Posting.Legs.{Leg, Movement, Hashing, account_ids_of}
use cs.Ledger.Posting.Steps.{post_all-cases}
use cs.Ledger.Posting.{
  Batch, batch_legs, built, entries_of, appended, post_all, stamp_after_newest, newest_of,
  all_accounts_of,
}

-- Two entries of one account, the first committed no later than the second: both are of one
-- transaction, at its time, or the second is later.
abbrev pub IsBefore : Entry → Entry → Type 0
IsBefore old new =
    old.account_id ≡ new.account_id
    → ((old.transaction_id ≡ new.transaction_id) × (old.created_at ≡ new.created_at))
      ⊎ (old.created_at < new.created_at)

-- The entries in the order of their commits
abbrev pub IsFeed : List Entry → Type 0
IsFeed [] = Unit
IsFeed (entry ∷ rest) = All (IsBefore entry) rest × IsFeed rest

IsFeed-append :
    (xs ys : List Entry)
    → IsFeed xs
    → IsFeed ys
    → All (λ x. All (IsBefore x) ys) xs
    → IsFeed (xs ++ ys)
IsFeed-append [] ys hx hy across = hy
IsFeed-append (x ∷ xs) ys hx hy across =
    (All-append (IsBefore x) xs ys hx.0 across.0, IsFeed-append xs ys hx.1 hy across.1)

-- What the entries of one movement, and of a batch, have in common
abbrev IsOf : ℕ → ℕ → Entry → Type 0
IsOf transaction_id stamp entry =
    (entry.transaction_id ≡ transaction_id) × (entry.created_at ≡ stamp)

entries_of-IsOf :
    (transaction_id stamp : ℕ) (legs : List (Leg ℤ))
    → All (IsOf transaction_id stamp) (entries_of transaction_id stamp legs)
unfolding entries_of
entries_of-IsOf transaction_id stamp [] = tt
entries_of-IsOf transaction_id stamp (leg ∷ rest) =
    ((refl, refl), entries_of-IsOf transaction_id stamp rest)

IsOf-IsFeed :
    (transaction_id stamp : ℕ) (entries : List Entry)
    → All (IsOf transaction_id stamp) entries
    → IsFeed entries
IsOf-IsFeed transaction_id stamp [] h = tt
IsOf-IsFeed transaction_id stamp (entry ∷ rest) h = (
  All-map _ (IsBefore entry) rest (λ later of same. inl (h.0.0 ∙ sym of.0, h.0.1 ∙ sym of.1)) h.1,
  IsOf-IsFeed transaction_id stamp rest h.1,
)

-- Entries from a stamp on, on accounts of a list
abbrev IsFrom : ℕ → List ℕ → Entry → Type 0
IsFrom stamp ids entry = (stamp ≤ entry.created_at) × (member entry.account_id ids ≡ true)

member-append : (x : ℕ) (xs ys : List ℕ) → member x (xs ++ ys) ≡ (member x xs || member x ys)
unfolding member
member-append x [] ys = refl
member-append x (y ∷ xs) ys = rw (member-append x xs ys) (ground arith)

entries_of-IsFrom :
    (transaction_id stamp low : ℕ) (legs : List (Leg ℤ))
    → low ≤ stamp
    → All (IsFrom low (account_ids_of legs)) (entries_of transaction_id stamp legs)
unfolding entries_of account_ids_of member
entries_of-IsFrom transaction_id stamp low [] h = tt
entries_of-IsFrom transaction_id stamp low (leg ∷ rest) h = (
  (h, rw (==-refl leg.account_id) refl),
  All-map _ _ _ (λ entry from. (from.0, grind (arith, from.1)))
      (entries_of-IsFrom transaction_id stamp low rest h),
)

module _ (hashing : Hashing) (new_id : ℕ → ℕ) (stamp : ℕ) where
  built-IsFrom :
      (index : ℕ) (batch : Batch)
      → All
          (IsFrom (stamp + index) (all_accounts_of batch))
          (built hashing new_id stamp index batch).1
  unfolding built all_accounts_of
  built-IsFrom index [] = tt
  built-IsFrom index ((m, legs) ∷ rest) =
      All-append _ (entries_of (new_id index) (stamp + index) legs) _
        (All-map _ _ _
          (λ entry from. (
            from.0,
            member-append entry.account_id (account_ids_of legs) (all_accounts_of rest)
                ∙ rw from.1 refl,
          ))
          (entries_of-IsFrom (new_id index) (stamp + index) (stamp + index) legs (omega arith)))
        (All-map _ _ _
          (λ entry from. (
            omega (arith, from.0),
            member-append entry.account_id (account_ids_of legs) (all_accounts_of rest)
                ∙ ground (arith, from.1),
          ))
          (built-IsFrom (suc index) rest))

  built-IsFeed : (index : ℕ) (batch : Batch) → IsFeed (built hashing new_id stamp index batch).1
  unfolding built
  built-IsFeed index [] = tt
  built-IsFeed index ((m, legs) ∷ rest) =
      let own = entries_of-IsOf (new_id index) (stamp + index) legs in
      IsFeed-append (entries_of (new_id index) (stamp + index) legs) _ (IsOf-IsFeed _ _ _ own)
        (built-IsFeed (suc index) rest)
        (All-map _ _ _
          (λ entry of.
            All-map _ _ _ (λ later from same. inr (omega (arith, of.1, from.0)))
              (built-IsFrom (suc index) rest))
          own)

stamp_grows :
    (entries : List Entry) (ids : List ℕ) (stamp : ℕ) → stamp ≤ stamp_after_newest entries ids stamp
unfolding stamp_after_newest
stamp_grows entries [] stamp = omega arith
stamp_grows entries (k ∷ rest) stamp = elim (Option-cases (newest_of k entries)) [
  | inl e ↦ rw e (stamp_grows entries rest stamp)
  | inr (t, e) ↦ rw e (
      let grown = stamp_grows entries rest (if ltb stamp (t + 1) then t + 1 else stamp) in
      ground (arith, grown))
]

stamp_above :
    (entries : List Entry) (ids : List ℕ) (stamp j : ℕ) {t : ℕ}
    → newest_of j entries ≡ some t
    → member j ids ≡ true
    → t < stamp_after_newest entries ids stamp
unfolding stamp_after_newest member
stamp_above entries [] stamp j newest listed = absurd cc
stamp_above entries (k ∷ rest) stamp j {t} newest listed = elim (Bool-cases (j == k)) [
  | inl e ↦
      let same = ==→eq j k e in
      let grown = stamp_grows entries rest (if ltb stamp (t + 1) then t + 1 else stamp) in
      let at_k = rw same at newest in rw at_k (ground (arith, grown))
  | inr e ↦ stamp_above entries rest _ j newest (ground (arith, listed, e))
]

-- An entry is no newer than its account's newest.
abbrev IsUpTo : Option ℕ → ℕ → Type 0
IsUpTo none n = ⊥
IsUpTo (some t) n = n ≤ t

own_bound : (newest : Option ℕ) (n : ℕ) → n ≤ elim newest [ none ↦ n | some t ↦ max n t ]
own_bound none n = omega arith
own_bound (some t) n = omega arith

older_bound :
    (newest : Option ℕ) (n k : ℕ) (test : Bool)
    → IsUpTo newest n
    → IsUpTo (if test then some (elim newest [ none ↦ k | some t ↦ max k t ]) else newest) n
older_bound none n k test h = absurd h
older_bound (some t) n k true h = omega (arith, h)
older_bound (some t) n k false h = h

newest_of-bound :
    (j : ℕ) (entries : List Entry)
    → All (λ entry. entry.account_id ≡ j → IsUpTo (newest_of j entries) entry.created_at) entries
unfolding newest_of
newest_of-bound j [] = tt
newest_of-bound j (entry ∷ rest) = (
  (λ own. rw (eq→== _ _ own) (own_bound (newest_of j rest) entry.created_at)),
  All-map _ _ _
      (λ older bound own.
        older_bound (newest_of j rest) older.created_at entry.created_at _ (bound own))
      (newest_of-bound j rest),
)

up_to_stamp :
    (entries : List Entry) (ids : List ℕ) (now j n : ℕ)
    → IsUpTo (newest_of j entries) n
    → member j ids ≡ true
    → n < stamp_after_newest entries ids now
up_to_stamp entries ids now j n bound listed = elim (Option-cases (newest_of j entries)) [
  | inl e ↦ absurd (rw e at bound)
  | inr (t, e) ↦
      let above = stamp_above entries ids now j e listed in
      let within : n ≤ t = rw e at bound in omega (arith, above, within)
]

-- Every entry of a listed account is older than the stamp.
stamp_after_newest-above :
    (entries : List Entry) (ids : List ℕ) (now : ℕ)
    → All
        (λ old.
          member old.account_id ids ≡ true → old.created_at < stamp_after_newest entries ids now)
        entries
stamp_after_newest-above entries ids now =
    All-map _ _ entries
      (λ old bound listed.
        up_to_stamp entries ids now old.account_id old.created_at (bound old.account_id refl)
          listed)
      (All-each (λ j entry. entry.account_id ≡ j → IsUpTo (newest_of j entries) entry.created_at)
        entries (λ j. newest_of-bound j entries))

-- A batch that `post_all` returns keeps the entries in the order of their commits: on each account every
-- written entry is later than every entry that was there, and than those of earlier movements.
pub post_all-IsFeed :
    (hashing : Hashing) (account : ℕ → Account) (new_id : ℕ → ℕ) (pending : Bool) (now : ℕ)
    (movements : List Movement) (s : Tables) (transactions : List Transaction) (after : Tables)
    → post_all hashing account new_id pending now movements s ≡ ok (transactions, after)
    → IsFeed s.entries
    → IsFeed after.entries
unfolding appended
post_all-IsFeed hashing account new_id pending now movements s transactions after h feed =
    let posted = post_all-cases hashing account new_id pending now movements s h in
    let batch = batch_legs movements in
    let ids = all_accounts_of batch in
    let stamp = stamp_after_newest s.entries ids now in
    elim posted.how [
      | inl replayed ↦ rw replayed.unchanged feed
      | inr written ↦ rw written.committed (
          IsFeed-append s.entries _ feed (built-IsFeed hashing new_id stamp 0 batch) (
            All-map _ _ s.entries
              (λ old above.
                All-map _ _ _
                  (λ new from same. inr (ground (arith, above (rw same from.1), from.0)))
                  (built-IsFrom hashing new_id stamp 0 batch))
              (stamp_after_newest-above s.entries ids now)))
    ]
