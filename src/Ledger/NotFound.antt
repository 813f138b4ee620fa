-- ===== src/Ledger/NotFound.antt =====
-- backend/ledger_service/core/not_found_cache.py: the market ids that the market service answered with a 404
-- of late. The clock's reading is an argument; the ordered map is a list, oldest first.
pub mod Window
use cs.Base.{
  ℕ, ◌+◌, Bool, true, false, Option, none, some, List, [], ◌∷◌, ◌++◌, length, ltb, ◌==◌,
  if◌then◌else◌,
}
use cs.Base.Dict.{Dict, lookup}

pub record NotFoundCache : Type 0 where
  pub ttl : ℕ
  pub max_entries : ℕ
  pub expiry_by_id : Dict ℕ

-- `_drop_expired`
unfoldable pub drop_expired : ℕ → Dict ℕ → Dict ℕ
drop_expired now [] = []
drop_expired now ((id, expires_at) ∷ rest) =
    let others = drop_expired now rest in
    if ltb now expires_at then (id, expires_at) ∷ rest else others

-- `pop(market_id, None)`
unfoldable pub pop_id : ℕ → Dict ℕ → Dict ℕ
pop_id id [] = []
pop_id id ((k, expires_at) ∷ rest) = if k == id then rest else (k, expires_at) ∷ pop_id id rest

-- `while len(...) > self._max_entries: popitem(last=False)`
unfoldable pub evict : ℕ → Dict ℕ → Dict ℕ
evict max_entries [] = []
evict max_entries (x ∷ rest) =
    let others = evict max_entries rest in
    if ltb max_entries (length (x ∷ rest)) then others else x ∷ rest

unfoldable pub remember : ℕ → ℕ → NotFoundCache → NotFoundCache
unfolding drop_expired pop_id evict
remember now id cache = record cache {
  expiry_by_id =
      evict cache.max_entries
        (pop_id id (drop_expired now cache.expiry_by_id) ++ ((id, now + cache.ttl) ∷ []));
}

unfoldable pub is_remembered : ℕ → ℕ → NotFoundCache → Bool
is_remembered now id cache = elim (lookup id cache.expiry_by_id) [
  | none ↦ false
  | some expires_at ↦ ltb now expires_at
]
