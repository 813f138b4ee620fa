-- ===== src/Ledger/Voiding/Guard.antt =====
-- backend/ledger_service/core/voiding.py, refuse_if_replay_disagrees: what the guard lets through.
use cs.Base.{
  ℕ, zero, suc, ◌+◌, ◌==◌, ◌≡◌, refl, sym, ap, ◌∙◌, inl, inr, Bool, true, false, not, ◌&&◌, Option,
  none, some, List, [], ◌∷◌, map, length, ok, raise_if, >>=-eq-ok, Bool-cases, ==→eq, arith,
}
use cs.Base.Int.{ℤ, eqb_ℤ, eqb_ℤ→eq}
use cs.Ledger.Voiding.{
  HolderOutcome, Holdings, VoidTrade, LotReplay, key_eq, refuse_if_versions_not_from,
  refuse_if_versions_not_consecutive, last_version, quantity_at, is_within, held_of, same_q,
  refuse_if_replay_disagrees,
}

abbrev pub version_of : VoidTrade → ℕ
version_of trade = trade.state_version

-- `first`, the next number, and so on, `n` of them.
abbrev pub run_from : ℕ → ℕ → List ℕ
run_from first zero = []
run_from first (suc n) = first ∷ run_from (suc first) n

passed : {E : Type 0} (test : Bool) (x : E) → raise_if test x ≡ ok tt → test ≡ false
unfolding raise_if
passed true x h = absurd cc
passed false x h = refl

not-false : (b : Bool) → not b ≡ false → b ≡ true
not-false true h = refl
not-false false h = absurd cc

both_true : (a b : Bool) → (a && b) ≡ true → (a ≡ true) × (b ≡ true)
both_true true b h = (refl, h)
both_true false b h = absurd cc

refuse_if_versions_not_from-run :
    (first : ℕ) (versions : List ℕ)
    → refuse_if_versions_not_from first versions ≡ ok tt
    → versions ≡ run_from first (length versions)
unfolding refuse_if_versions_not_from
refuse_if_versions_not_from-run first [] h = refl
refuse_if_versions_not_from-run first (version ∷ rest) h =
    let (_, here, later) = >>=-eq-ok (raise_if (not (version == first)) _) _ h in
    let same = ==→eq version first (not-false _ (passed _ _ here)) in
    rw (same, sym (refuse_if_versions_not_from-run (suc first) rest later)) refl

last_version-run : (last n : ℕ) → last_version last (run_from (suc last) n) ≡ last + n
unfolding last_version
last_version-run last zero = omega arith
last_version-run last (suc n) = last_version-run (suc last) n ∙ omega arith

length-map : {A B : Type 0} (f : A → B) (xs : List A) → length (map f xs) ≡ length xs
length-map f [] = refl
length-map f (x ∷ xs) = ap suc (length-map f xs)

same_q→eq : (q r : List ℤ) → same_q q r ≡ true → q ≡ r
unfolding same_q
same_q→eq [] [] h = refl
same_q→eq [] (y ∷ ys) h = absurd cc
same_q→eq (x ∷ xs) [] h = absurd cc
same_q→eq (x ∷ xs) (y ∷ ys) h =
    let (here, later) = both_true (eqb_ℤ x y) (same_q xs ys) h in
    rw (eqb_ℤ→eq x y here, same_q→eq xs ys later) refl

key_eq→eq : (k key : HolderOutcome) → key_eq k key ≡ true → k ≡ key
unfolding key_eq
key_eq→eq (user, position) (user', position') h =
    let (a, b) = both_true (user == user') (position == position') h in
    rw (==→eq user user' a, ==→eq position position' b) refl

entry_found :
    (m : ℕ) (o : Option ℕ) → elim o [ none ↦ false | some m' ↦ m == m' ] ≡ true → o ≡ some m
entry_found m none h = absurd cc
entry_found m (some m') h = rw (==→eq m m' h) refl

is_within-found :
    (part whole : Holdings ℕ) (key : HolderOutcome) {n : ℕ}
    → is_within part whole ≡ true
    → quantity_at part key ≡ some n
    → quantity_at whole key ≡ some n
unfolding is_within quantity_at
is_within-found [] whole key h found = absurd cc
is_within-found ((k, m) ∷ rest) whole key h found =
    let (here, later) = both_true _ (is_within rest whole) h in
    elim (Bool-cases (key_eq k key)) [
      | inl same ↦
          let at_key = rw (key_eq→eq k key same) at (entry_found m (quantity_at whole k) here) in
          at_key ∙ (rw same at found)
      | inr other ↦ is_within-found rest whole key later (rw other at found)
    ]

same_option :
    (a b : Option ℕ)
    → ((n : ℕ) → a ≡ some n → b ≡ some n)
    → ((n : ℕ) → b ≡ some n → a ≡ some n)
    → a ≡ b
same_option none none f g = refl
same_option none (some n) f g = g n refl
same_option (some n) b f g = sym (f n refl)

-- The trades explain the book.
pub record IsExplained (replay : LotReplay) (trades : List VoidTrade) (positions : Holdings ℕ)
    (q : List ℤ) (state_version : ℕ) : Type 0 where
  -- The versions run 1, 2, 3, ... up to the book's, so no trade is missing and none comes twice.
  pub versions : map version_of trades ≡ run_from 1 (length trades)
  pub ends : state_version ≡ length trades
  -- Each holder's shares left in the lots are the position, or neither is there.
  pub shares :
      (key : HolderOutcome)
      → quantity_at (held_of positions) key ≡ quantity_at replay.shares_left key
  pub book : q ≡ replay.q

-- When the guard does not refuse a replay, the trades explain the book: their versions run from 1 to
-- the book's version, as many as there are trades; every holder's shares left in an outcome are the
-- holder's position above zero there, and there are no others; and the replayed `q` is the book's.
pub refuse_if_replay_disagrees-IsExplained :
    (replay : LotReplay) (trades : List VoidTrade) (positions : Holdings ℕ) (q : List ℤ)
    (state_version : ℕ)
    → refuse_if_replay_disagrees replay trades positions q state_version ≡ ok tt
    → IsExplained replay trades positions q state_version
unfolding refuse_if_replay_disagrees refuse_if_versions_not_consecutive
refuse_if_replay_disagrees-IsExplained replay trades positions q state_version h =
    let held = held_of positions in
    let (_, consecutive, h₁) =
      >>=-eq-ok (refuse_if_versions_not_from 1 (map version_of trades)) _ h in
    let (_, ended, h₂) = >>=-eq-ok (raise_if _ _) _ h₁ in
    let (_, agreed, h₃) = >>=-eq-ok (raise_if _ _) _ h₂ in
    let run = refuse_if_versions_not_from-run 1 (map version_of trades) consecutive in
    let versions = rw (length-map version_of trades) at run in
    let (left, right) = both_true _ _ (not-false _ (passed _ _ agreed)) in
    record {
      versions = versions;
      ends =
          sym (==→eq _ _ (not-false _ (passed _ _ ended)))
          ∙ (ap (last_version 0) versions ∙ (last_version-run 0 (length trades) ∙ omega arith));
      shares = λ key.
          same_option (quantity_at held key) (quantity_at replay.shares_left key)
            (λ n. is_within-found held replay.shares_left key left)
            (λ n. is_within-found replay.shares_left held key right);
      book = same_q→eq q replay.q (not-false _ (passed _ _ h₃));
    }
