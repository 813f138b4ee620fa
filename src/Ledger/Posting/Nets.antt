-- ===== src/Ledger/Posting/Nets.antt =====
-- What a movement and a batch net on one account, summed leg by leg, beside the dicts of
-- backend/ledger_service/service/posting.py.
use cs.Base.{
  ℕ, ◌≡◌, refl, Bool, false, none, some, List, [], ◌∷◌, ◌++◌, ◌==◌, if◌then◌else◌, ◌∙◌, sym, ==→eq,
  ◌||◌, Bool-cases, Option-cases, inl, inr,
}
use cs.Base.Int.{ℤ, pos, ◌+ℤ◌, ◌≤ℤ◌, int_laws}
use cs.Base.Dict.{Dict, lookup, insert}
use cs.Base.Decimal.{quantize}
use cs.Ledger.Rows.{Entry}
use cs.Ledger.Reservations.{balance_of}
use cs.Ledger.Posting.Legs.{Leg, running_of, net_from, net_by_account}
use cs.Ledger.Posting.{Batch, entries_of}

-- The legs' amounts on one account
unfoldable pub net_of : ℕ → List (Leg ℤ) → ℤ
net_of j [] = pos 0
net_of j (leg ∷ rest) = (if leg.account_id == j then leg.amount else pos 0) +ℤ net_of j rest

unfoldable pub net_of_batch : ℕ → Batch → ℤ
net_of_batch j [] = pos 0
net_of_batch j ((m, legs) ∷ rest) = net_of j legs +ℤ net_of_batch j rest

-- The amounts that a dict has under one key
unfoldable pub dict_sum : ℕ → Dict ℤ → ℤ
dict_sum j [] = pos 0
dict_sum j ((k, v) ∷ rest) = (if k == j then v else pos 0) +ℤ dict_sum j rest

-- A drop for each time that the key stands in the dict
unfoldable pub taken : ℕ → ℤ → Dict ℤ → ℤ
taken j drop [] = pos 0
taken j drop ((k, v) ∷ rest) = (if k == j then drop else pos 0) +ℤ taken j drop rest

dict_sum-insert :
    (j key : ℕ) (value : ℤ) (d : Dict ℤ)
    → dict_sum j (insert key value d)
        +ℤ (if key == j then elim (lookup key d) [ none ↦ pos 0 | some r ↦ r ] else pos 0)
      ≡ dict_sum j d +ℤ (if key == j then value else pos 0)
unfolding dict_sum insert lookup
dict_sum-insert j key value [] = grind (int_laws)
dict_sum-insert j key value ((k, v) ∷ rest) = grind (int_laws, dict_sum-insert j key value rest)

step_sum :
    (j : ℕ) (leg : Leg ℤ) (d : Dict ℤ)
    → dict_sum j (insert leg.account_id (running_of ◌+ℤ◌ d leg) d)
      ≡ dict_sum j d +ℤ (if leg.account_id == j then leg.amount else pos 0)
unfolding running_of
step_sum j leg d =
    let inserted = dict_sum-insert j leg.account_id (running_of ◌+ℤ◌ d leg) d in
    elim (Option-cases (lookup leg.account_id d)) [
      | inl e ↦ rw (e, running_of) (grind (int_laws, rw e at inserted))
      | inr (r, e) ↦ rw (e, running_of) (grind (int_laws, rw (e, running_of) at inserted))
    ]

dict_sum-net_from :
    (j : ℕ) (legs : List (Leg ℤ)) (netted : Dict ℤ)
    → dict_sum j (net_from ◌+ℤ◌ legs netted) ≡ dict_sum j netted +ℤ net_of j legs
unfolding net_from net_of
dict_sum-net_from j [] netted = grind (int_laws)
dict_sum-net_from j (leg ∷ rest) netted =
    dict_sum-net_from j rest (insert leg.account_id (running_of ◌+ℤ◌ netted leg) netted)
    ∙ rw (step_sum j leg netted) (grind (int_laws))

pub dict_sum-net_by_account :
    (j : ℕ) (legs : List (Leg ℤ)) → dict_sum j (net_by_account ◌+ℤ◌ legs) ≡ net_of j legs
unfolding net_by_account dict_sum
dict_sum-net_by_account j legs = dict_sum-net_from j legs [] ∙ grind (int_laws)

-- The key stands in the dict at most once.
taken-insert :
    (j : ℕ) (drop : ℤ) (key : ℕ) (value : ℤ) (d : Dict ℤ)
    → taken j drop (insert key value d)
      ≡ taken j drop d
        +ℤ (if key == j then elim (lookup key d) [ none ↦ drop | some r ↦ pos 0 ] else pos 0)
unfolding taken insert lookup
taken-insert j drop key value [] = grind (int_laws)
taken-insert j drop key value ((k, v) ∷ rest) = grind (int_laws, taken-insert j drop key value rest)

taken-missing : (j : ℕ) (drop : ℤ) (d : Dict ℤ) → lookup j d ≡ none → taken j drop d ≡ pos 0
unfolding taken lookup
taken-missing j drop [] h = refl
taken-missing j drop ((k, v) ∷ rest) h = elim (Bool-cases (k == j)) [
  | inl e ↦ absurd (let same = rw e at h in cc)
  | inr e ↦ rw e (grind (int_laws, taken-missing j drop rest (rw e at h)))
]

taken-insert_once :
    (j : ℕ) (drop : ℤ) (key : ℕ) (value : ℤ) (d : Dict ℤ)
    → pos 0 ≤ℤ drop
    → taken j drop d ≤ℤ drop
    → taken j drop (insert key value d) ≤ℤ drop
taken-insert_once j drop key value d h bounded =
    let inserted = taken-insert j drop key value d in
    elim (Bool-cases (key == j)) [
      | inl e ↦
          let same = ==→eq key j e in
          elim (Option-cases (lookup key d)) [
            | inl missing ↦
                let absent = taken-missing j drop d (rw (sym same) missing) in
                grind (int_laws, rw (e, missing) at inserted)
            | inr (r, found) ↦ grind (int_laws, rw (e, found) at inserted)
          ]
      | inr e ↦ grind (int_laws, rw e at inserted)
    ]

taken-net_from :
    (j : ℕ) (drop : ℤ) (legs : List (Leg ℤ)) (netted : Dict ℤ)
    → pos 0 ≤ℤ drop
    → taken j drop netted ≤ℤ drop
    → taken j drop (net_from ◌+ℤ◌ legs netted) ≤ℤ drop
unfolding net_from
taken-net_from j drop [] netted h bounded = bounded
taken-net_from j drop (leg ∷ rest) netted h bounded =
    taken-net_from j drop rest (insert leg.account_id (running_of ◌+ℤ◌ netted leg) netted) h
      (taken-insert_once j drop leg.account_id (running_of ◌+ℤ◌ netted leg) netted h bounded)

pub balance_of-append :
    (xs ys : List Entry) (j : ℕ) → balance_of (xs ++ ys) j ≡ balance_of xs j +ℤ balance_of ys j
unfolding balance_of
balance_of-append [] ys j = grind (int_laws)
balance_of-append (x ∷ xs) ys j = rw (balance_of-append xs ys j) (grind (int_laws))

pub balance_of-entries_of :
    (transaction_id stamp : ℕ) (legs : List (Leg ℤ)) (j : ℕ)
    → balance_of (entries_of transaction_id stamp legs) j ≡ net_of j legs
unfolding balance_of entries_of net_of
balance_of-entries_of transaction_id stamp [] j = refl
balance_of-entries_of transaction_id stamp (leg ∷ rest) j =
    rw (balance_of-entries_of transaction_id stamp rest j) refl

unfoldable pub taken_of_batch : ℕ → Batch → ℤ
taken_of_batch j [] = pos 0
taken_of_batch j ((m, legs) ∷ rest) =
    taken j (quantize m.reservation_drop) (net_by_account ◌+ℤ◌ legs) +ℤ taken_of_batch j rest

pub taken-net_by_account :
    (j : ℕ) (drop : ℤ) (legs : List (Leg ℤ))
    → pos 0 ≤ℤ drop
    → taken j drop (net_by_account ◌+ℤ◌ legs) ≤ℤ drop
unfolding net_by_account taken
taken-net_by_account j drop legs h = taken-net_from j drop legs [] h h

abbrev pub names : {A : Type 0} → ℕ → List (Leg A) → Bool
names j [] = false
names j (leg ∷ rest) = (leg.account_id == j) || names j rest

taken-unnamed_from :
    (j : ℕ) (drop : ℤ) (legs : List (Leg ℤ)) (netted : Dict ℤ)
    → names j legs ≡ false
    → taken j drop (net_from ◌+ℤ◌ legs netted) ≡ taken j drop netted
unfolding net_from
taken-unnamed_from j drop [] netted h = refl
taken-unnamed_from j drop (leg ∷ rest) netted h = elim (Bool-cases (leg.account_id == j)) [
  | inl e ↦ absurd (let same = rw e at h in cc)
  | inr e ↦
      let value = running_of ◌+ℤ◌ netted leg in
      taken-unnamed_from j drop rest (insert leg.account_id value netted) (rw e at h)
      ∙ grind (int_laws, rw e at (taken-insert j drop leg.account_id value netted))
]

pub taken-unnamed :
    (j : ℕ) (drop : ℤ) (legs : List (Leg ℤ))
    → names j legs ≡ false
    → taken j drop (net_by_account ◌+ℤ◌ legs) ≡ pos 0
unfolding net_by_account taken
taken-unnamed j drop legs h = taken-unnamed_from j drop legs [] h
