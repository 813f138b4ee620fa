-- ===== src/Ledger/Trading/Shares.antt =====
-- backend/ledger_service/service/trading.py: the shares that a book's outcome has out, and those that are held of it.
use cs.Base.{
  ℕ, zero, suc, ◌+◌, ◌≡◌, refl, true, false, Option, none, some, List, [], ◌∷◌, ◌==◌, ◌&&◌,
  if◌then◌else◌, length, get_elem?, set, replicate, Option-cases, Bool-cases, inl, inr, ap, sym,
  ◌⊎◌, ==→eq, ==-refl, arith, All, some_injective,
}
use cs.Base.Int.{ℤ, pos, ◌+ℤ◌, leb_ℤ, ◌≤ℤ◌, int_laws}
use cs.Ledger.Lmsr.{add_each}
use cs.Ledger.Rows.{OutcomeRow, Position}
use cs.Ledger.BookPrices.{outcome_ids_of, q_of, index_of, in_position_order, insert_row}
use cs.Ledger.Trading.{set_q}

-- The shares that users hold of an outcome
unfoldable pub shares_in : List Position → ℕ → ℕ → ℕ
shares_in [] market_id outcome_id = 0
shares_in (p ∷ rest) market_id outcome_id =
    (if p.market_id == market_id && p.outcome_id == outcome_id then p.quantity else 0)
    + shares_in rest market_id outcome_id

-- `q` of an outcome, and nothing of one that is not there
unfoldable pub q_at : List OutcomeRow → ℕ → ℤ
q_at [] outcome_id = pos 0
q_at (o ∷ rest) outcome_id = if o.outcome_id == outcome_id then o.q else q_at rest outcome_id

pub outcome_ids_of-set_q :
    (rows : List OutcomeRow) (i : ℕ) (v : ℤ) → outcome_ids_of (set_q rows i v) ≡ outcome_ids_of rows
unfolding outcome_ids_of set_q
outcome_ids_of-set_q [] i v = refl
outcome_ids_of-set_q (o ∷ rest) zero v = refl
outcome_ids_of-set_q (o ∷ rest) (suc i) v =
    ap (λ ids. o.outcome_id ∷ ids) (outcome_ids_of-set_q rest i v)

pub q_of-set_q :
    (rows : List OutcomeRow) (i : ℕ) (v : ℤ) → q_of (set_q rows i v) ≡ set (q_of rows) i v
unfolding q_of set_q
q_of-set_q [] i v = refl
q_of-set_q (o ∷ rest) zero v = refl
q_of-set_q (o ∷ rest) (suc i) v = ap (λ qs. o.q ∷ qs) (q_of-set_q rest i v)

-- The id at the head is found there, or the id is found behind it.
index_of-cases :
    (x y : ℕ) (ys : List ℕ) (i : ℕ)
    → index_of x (y ∷ ys) ≡ some i
    → ((x ≡ y) × (i ≡ 0)) ⊎ ((j : ℕ) × ((x == y) ≡ false) × (i ≡ suc j) × (index_of x ys ≡ some j))
unfolding index_of
index_of-cases x y ys i h = elim (Bool-cases (x == y)) [
  | inl e ↦ inl (==→eq x y e, sym (some_injective (rw e at h)))
  | inr e ↦ elim (Option-cases (index_of x ys)) [
    | inl missing ↦ absurd (let no : ◌≡◌ {A = Option ℕ} none (some i) = rw (e, missing) at h in cc)
    | inr (j, found) ↦ inr (j, e, sym (some_injective (rw (e, found) at h)), found)
  ]
]

-- The first place of an id holds the `q` of its outcome.
pub q_at-index :
    (rows : List OutcomeRow) (id i : ℕ)
    → index_of id (outcome_ids_of rows) ≡ some i
    → get_elem? (q_of rows) i ≡ some (q_at rows id)
unfolding q_at q_of outcome_ids_of
q_at-index [] id i h =
    absurd (let no : ◌≡◌ {A = Option ℕ} none (some i) = unfold index_of in h in cc)
q_at-index (o ∷ rest) id i h = elim (index_of-cases id o.outcome_id (outcome_ids_of rest) i h) [
  | inl (same, here) ↦ rw (here, same, ==-refl o.outcome_id) refl
  | inr (j, other, there, found) ↦ rw there (ground (arith, q_at-index rest id j found))
]

pub q_at-set_q :
    (rows : List OutcomeRow) (id j : ℕ) (v : ℤ) (i : ℕ)
    → index_of id (outcome_ids_of rows) ≡ some i
    → q_at (set_q rows i v) j ≡ (if id == j then v else q_at rows j)
unfolding q_at set_q outcome_ids_of
q_at-set_q [] id j v i h =
    absurd (let no : ◌≡◌ {A = Option ℕ} none (some i) = unfold index_of in h in cc)
q_at-set_q (o ∷ rest) id j v i h = elim (index_of-cases id o.outcome_id (outcome_ids_of rest) i h) [
  | inl (same, here) ↦ rw (here, same) (ground arith)
  | inr (k, other, there, found) ↦ rw there (ground (arith, q_at-set_q rest id j v k found))
]

-- A trade's change of the vector is a change of its own place.
add_each-nothing : (q : List ℤ) → add_each q (replicate (length q) (pos 0)) ≡ q
unfolding add_each
add_each-nothing [] = refl
add_each-nothing (x ∷ q) = rw (add_each-nothing q) (ap (λ y. y ∷ q) (omega int_laws))

pub add_each-one :
    (q : List ℤ) (i : ℕ) (d x : ℤ)
    → get_elem? q i ≡ some x
    → add_each q (set (replicate (length q) (pos 0)) i d) ≡ set q i (x +ℤ d)
unfolding add_each
add_each-one [] i d x h = absurd cc
add_each-one (y ∷ q) zero d x h = rw (some_injective h, add_each-nothing q) refl
add_each-one (y ∷ q) (suc i) d x h =
    rw (add_each-one q i d x h) (ap (λ z. z ∷ set q i (x +ℤ d)) (omega int_laws))

pub get_elem?-set_self :
    (q : List ℤ) (i : ℕ) (v x : ℤ) → get_elem? q i ≡ some x → get_elem? (set q i v) i ≡ some v
get_elem?-set_self [] i v x h = absurd cc
get_elem?-set_self (y ∷ q) zero v x h = refl
get_elem?-set_self (y ∷ q) (suc i) v x h = get_elem?-set_self q i v x h

-- Rows in position order stay so when a `q` is written, and are read back as they are.
abbrev pub IsOrdered : List OutcomeRow → Type 0
IsOrdered [] = Unit
IsOrdered (o ∷ rest) = All (λ (x : OutcomeRow). o.position ≤ℤ x.position) rest × IsOrdered rest

All-set_q :
    (p : ℤ) (rows : List OutcomeRow) (i : ℕ) (v : ℤ)
    → All (λ (x : OutcomeRow). p ≤ℤ x.position) rows
    → All (λ (x : OutcomeRow). p ≤ℤ x.position) (set_q rows i v)
unfolding set_q
All-set_q p [] i v h = tt
All-set_q p (o ∷ rest) zero v h = (h.0, h.1)
All-set_q p (o ∷ rest) (suc i) v h = (h.0, All-set_q p rest i v h.1)

pub set_q-IsOrdered :
    (rows : List OutcomeRow) (i : ℕ) (v : ℤ) → IsOrdered rows → IsOrdered (set_q rows i v)
unfolding set_q
set_q-IsOrdered [] i v h = tt
set_q-IsOrdered (o ∷ rest) zero v h = (h.0, h.1)
set_q-IsOrdered (o ∷ rest) (suc i) v h =
    (All-set_q o.position rest i v h.0, set_q-IsOrdered rest i v h.1)

insert_row-first :
    (o : OutcomeRow) (rows : List OutcomeRow)
    → All (λ (x : OutcomeRow). o.position ≤ℤ x.position) rows
    → insert_row o rows ≡ o ∷ rows
unfolding insert_row
insert_row-first o [] h = refl
insert_row-first o (x ∷ rest) h =
    let first : leb_ℤ o.position x.position ≡ true = ground (arith, h.0) in rw first refl

pub in_position_order-same :
    (rows : List OutcomeRow) → IsOrdered rows → in_position_order rows ≡ rows
unfolding in_position_order
in_position_order-same [] h = refl
in_position_order-same (o ∷ rest) h =
    rw (in_position_order-same rest h.1) (insert_row-first o rest h.0)

insert_row-All :
    (p : ℤ) (o : OutcomeRow) (rows : List OutcomeRow)
    → p ≤ℤ o.position
    → All (λ (x : OutcomeRow). p ≤ℤ x.position) rows
    → All (λ (x : OutcomeRow). p ≤ℤ x.position) (insert_row o rows)
unfolding insert_row
insert_row-All p o [] hp h = (hp, tt)
insert_row-All p o (x ∷ rest) hp h = elim (Bool-cases (leb_ℤ o.position x.position)) [
  | inl e ↦ rw e (hp, h)
  | inr e ↦ rw e (h.0, insert_row-All p o rest hp h.1)
]

All-trans :
    (p r : ℤ) (rows : List OutcomeRow)
    → p ≤ℤ r
    → All (λ (x : OutcomeRow). r ≤ℤ x.position) rows
    → All (λ (x : OutcomeRow). p ≤ℤ x.position) rows
All-trans p r [] hp h = tt
All-trans p r (x ∷ rest) hp h =
    let first : p ≤ℤ x.position = omega (arith, h.0) in (first, All-trans p r rest hp h.1)

insert_row-IsOrdered :
    (o : OutcomeRow) (rows : List OutcomeRow) → IsOrdered rows → IsOrdered (insert_row o rows)
unfolding insert_row
insert_row-IsOrdered o [] h = (tt, tt)
insert_row-IsOrdered o (x ∷ rest) h = elim (Bool-cases (leb_ℤ o.position x.position)) [
  | inl e ↦
      let below : o.position ≤ℤ x.position = ground arith in
      rw e ((below, All-trans o.position x.position rest below h.0), h)
  | inr e ↦
      let above : x.position ≤ℤ o.position = ground arith in
      rw e (insert_row-All x.position o rest above h.0, insert_row-IsOrdered o rest h.1)
]

pub in_position_order-IsOrdered : (rows : List OutcomeRow) → IsOrdered (in_position_order rows)
unfolding in_position_order
in_position_order-IsOrdered [] = tt
in_position_order-IsOrdered (o ∷ rest) =
    insert_row-IsOrdered o (in_position_order rest) (in_position_order-IsOrdered rest)
