-- ===== src/Ledger/NotFound/Window.antt =====
-- The bound and the window of backend/ledger_service/core/not_found_cache.py.
use cs.Base.{
  ℕ, suc, ◌+◌, ◌≤◌, ◌≡◌, refl, false, none, some, [], ◌∷◌, ◌++◌, length, ltb, ◌==◌, if◌then◌else◌,
  Bool-cases, inl, inr, ==→eq, ==-refl, ◌∙◌, arith,
}
use cs.Base.Dict.{Dict, lookup}
use cs.Ledger.NotFound.{NotFoundCache, drop_expired, pop_id, evict, remember, is_remembered}

-- Each id stands once in the map.
abbrev pub IsMap : Dict ℕ → Type 0
IsMap [] = Unit
IsMap ((k, v) ∷ rest) = (lookup k rest ≡ none) × IsMap rest

drop_expired-IsMap : (now : ℕ) (d : Dict ℕ) → IsMap d → IsMap (drop_expired now d)
unfolding drop_expired
drop_expired-IsMap now [] h = tt
drop_expired-IsMap now ((k, v) ∷ rest) h = elim (Bool-cases (ltb now v)) [
  | inl e ↦ rw e h
  | inr e ↦ rw e (drop_expired-IsMap now rest h.1)
]

lookup-pop_id : (j id : ℕ) (d : Dict ℕ) → lookup j d ≡ none → lookup j (pop_id id d) ≡ none
unfolding lookup pop_id
lookup-pop_id j id [] h = refl
lookup-pop_id j id ((k, v) ∷ rest) h = ground (arith, lookup-pop_id j id rest)

pop_id-IsMap :
    (id : ℕ) (d : Dict ℕ) → IsMap d → IsMap (pop_id id d) × (lookup id (pop_id id d) ≡ none)
unfolding lookup pop_id
pop_id-IsMap id [] h = (tt, refl)
pop_id-IsMap id ((k, v) ∷ rest) h = elim (Bool-cases (k == id)) [
  | inl e ↦ rw e (h.1, rw (==→eq k id e) at h.0)
  | inr e ↦
      let (others, absent) = pop_id-IsMap id rest h.1 in
      rw (e, e) ((lookup-pop_id k id rest h.0, others), absent)
]

lookup-last :
    (j k v : ℕ) (d : Dict ℕ)
    → lookup j (d ++ ((k, v) ∷ []))
      ≡ (elim (lookup j d) [ none ↦ (if k == j then some v else none) | some w ↦ some w ])
unfolding lookup
lookup-last j k v [] = refl
lookup-last j k v ((i, w) ∷ rest) = elim (Bool-cases (i == j)) [
  | inl e ↦ rw e refl
  | inr e ↦ rw e (lookup-last j k v rest)
]

last-IsMap : (id v : ℕ) (d : Dict ℕ) → IsMap d → lookup id d ≡ none → IsMap (d ++ ((id, v) ∷ []))
unfolding lookup
last-IsMap id v [] h absent = (refl, tt)
last-IsMap id v ((k, w) ∷ rest) h absent = elim (Bool-cases (k == id)) [
  | inl e ↦ absurd (let found = rw e at absent in cc)
  | inr e ↦
      (lookup-last k id v rest ∙ ground (arith, h.0, e), last-IsMap id v rest h.1 (rw e at absent))
]

evict-IsMap : (n : ℕ) (d : Dict ℕ) → IsMap d → IsMap (evict n d)
unfolding evict
evict-IsMap n [] h = tt
evict-IsMap n ((k, v) ∷ rest) h = elim (Bool-cases (ltb n (length ((k, v) ∷ rest)))) [
  | inl e ↦ rw e (evict-IsMap n rest h.1)
  | inr e ↦ rw e h
]

evict-bounded : (n : ℕ) (d : Dict ℕ) → length (evict n d) ≤ n
unfolding evict
evict-bounded n [] = omega arith
evict-bounded n (x ∷ rest) = ground (arith, evict-bounded n rest)

-- Eviction takes from the old end: the newest item stays.
evict-last :
    (n id v : ℕ) (d : Dict ℕ)
    → 1 ≤ n
    → lookup id d ≡ none
    → lookup id (evict n (d ++ ((id, v) ∷ []))) ≡ some v
unfolding evict lookup
evict-last n id v [] h absent =
    let fits : ltb n 1 ≡ false = ground (arith, h) in rw (fits, ==-refl id) refl
evict-last n id v ((k, w) ∷ rest) h absent = elim (Bool-cases (k == id)) [
  | inl e ↦ absurd (let found = rw e at absent in cc)
  | inr e ↦ elim (Bool-cases (ltb n (suc (length (rest ++ ((id, v) ∷ [])))))) [
    | inl full ↦ rw full (evict-last n id v rest h (rw e at absent))
    | inr room ↦ rw (room, e, lookup-last id id v rest, (rw e at absent), ==-refl id) refl
  ]
]

-- The map after a 404 is remembered
pub record IsRemembering (now id : ℕ) (before after : NotFoundCache) : Type 0 where
  pub still_map : IsMap after.expiry_by_id
  pub bounded : length after.expiry_by_id ≤ before.max_entries
  pub window : (later : ℕ) → is_remembered later id after ≡ ltb later (now + before.ttl)

-- In a cache that holds each id once and may hold one at least, `remember` keeps each id once, keeps to the
-- bound, and makes the id remembered at exactly the readings of the clock before its window ends.
pub remember-IsRemembering :
    (now id : ℕ) (cache : NotFoundCache)
    → IsMap cache.expiry_by_id
    → 1 ≤ cache.max_entries
    → IsRemembering now id cache (remember now id cache)
unfolding remember is_remembered
remember-IsRemembering now id cache h room =
    let (others, absent) =
      pop_id-IsMap id (drop_expired now cache.expiry_by_id)
        (drop_expired-IsMap now cache.expiry_by_id h) in
    let kept = pop_id id (drop_expired now cache.expiry_by_id) in
    record {
      still_map =
          evict-IsMap cache.max_entries _ (last-IsMap id (now + cache.ttl) kept others absent);
      bounded = evict-bounded cache.max_entries _;
      window = λ later.
          rw (evict-last cache.max_entries id (now + cache.ttl) kept room absent, is_remembered)
            refl;
    }
