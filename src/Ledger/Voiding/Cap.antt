-- ===== src/Ledger/Voiding/Cap.antt =====
-- backend/ledger_service/core/voiding.py, cut_of: what the cap lets PLATFORM add, and how the cut is shared.
use native.Mathlib.Nat.{mul-div-le, le_of_mul-le-mul_right, lt-mul-div-succ}
use cs.Base.{
  ℕ, ◌+◌, ◌*◌, ◌/◌, ◌≤◌, ◌<◌, ◌≡◌, refl, inl, inr, Bool, true, false, [], ◌∷◌, length,
  if◌then◌else◌, All, ok, Bool-cases, arith,
}
use cs.Base.Int.{
  ℤ, pos, pos_part, negsuc, ◌+ℤ◌, ◌-ℤ◌, ◌≤ℤ◌, ◌<ℤ◌, parts_of_eq, eq_of_parts, ltb_ℤ, int_laws,
}
use cs.Ledger.Voiding.{Holdings, HolderOutcome}
use cs.Ledger.Voiding.Refunds.{
  paid_to_holder, owed_to_holder, refunds_owed, IsShare, paid_of-positive, paid_of-in_full,
  paid_of-IsShare, to_pay_cut,
}
use cs.Ledger.Voiding.Cut.{
  Cut, total_of_owed, total_paid, is_short_beyond_one_seed, to_pay_of, paid_of, cut_of,
}

-- Leaving a payment of nothing out of the dict leaves the total alone.
total_paid-kept :
    (key : HolderOutcome) (n s : ℕ) (others : Holdings ℤ)
    → total_paid others ≡ pos s
    → total_paid (if ltb_ℤ (pos 0) (pos n) then (key, pos n) ∷ others else others) ≡ pos (n + s)
unfolding total_paid ◌+ℤ◌
total_paid-kept key n s others h = ground arith

paid_in_full :
    (budget : ℤ) (total : ℕ) (owed : Holdings ℕ)
    → (paid : Holdings ℤ) × (paid_of false budget total owed ≡ ok paid)
      × (total_paid paid ≡ pos (total_of_owed owed))
unfolding paid_of total_of_owed total_paid to_pay_of
paid_in_full budget total [] = ([], refl, refl)
paid_in_full budget total ((key, refund) ∷ rest) =
    let (others, pays, adds) = paid_in_full budget total rest in
    (_, rw pays refl, total_paid-kept key refund (total_of_owed rest) others adds)

-- The cut refunds pay between the budget's share of what is owed and one tick a refund less.
paid_cut :
    (budget total : ℕ) (owed : Holdings ℕ)
    → 0 < total
    → (paid : Holdings ℤ) × (s : ℕ) × (paid_of true (pos budget) total owed ≡ ok paid)
      × (total_paid paid ≡ pos s)
      × (s * total ≤ total_of_owed owed * budget)
      × (total_of_owed owed * budget ≤ (s + length owed) * total)
unfolding paid_of total_of_owed total_paid
paid_cut budget total [] some_owed = ([], 0, refl, refl, omega arith, omega arith)
paid_cut budget total ((key, refund) ∷ rest) some_owed =
    let (others, s, pays, adds, low, high) = paid_cut budget total rest some_owed in
    let n = refund * budget / total in
    let floor_low = mul-div-le (refund * budget) total in
    let floor_high = lt-mul-div-succ (refund * budget) {b = total} some_owed in
    (
      _,
      n + s,
      rw (to_pay_cut budget total refund some_owed, pays) refl,
      total_paid-kept key n s others adds,
      omega arith,
      omega arith,
    )

nonneg : (a : ℤ) → pos 0 ≤ℤ a → (n : ℕ) × (a ≡ pos n)
nonneg (pos n) h = (n, refl)
nonneg (negsuc n) h = absurd (omega arith)

-- What the cap promises of the total `refunded` and the `residue`, when `count` refunds owe `total`.
pub record IsWithinCap (total count : ℕ) (pool seed refunded residue : ℤ) : Type 0 where
  -- PLATFORM tops the pool up by at most one seed, whatever is owed.
  pub top_up_bounded : pos 0 ≤ℤ residue +ℤ seed
  pub at_most_owed : refunded ≤ℤ pos total
  pub in_full : pos total ≤ℤ pool +ℤ seed → refunded ≡ pos total
  -- Otherwise the whole budget is paid out, less at most a tick a refund.
  pub little_kept : pool +ℤ seed <ℤ pos total → pool +ℤ seed ≤ℤ refunded +ℤ pos count
  -- The residue leaves nothing in the pool.
  pub pool_emptied : refunded +ℤ residue ≡ pool

enough_pays :
    (total count : ℕ) (pool seed : ℤ)
    → ltb_ℤ seed (pos total -ℤ pool) ≡ false
    → IsWithinCap total count pool seed (pos total) (pool -ℤ pos total)
enough_pays total count pool seed enough = record {
  top_up_bounded = grind int_laws;
  at_most_owed = omega arith;
  in_full = λ _. refl;
  little_kept = λ short. absurd (grind int_laws);
  pool_emptied = eq_of_parts _ _ (omega int_laws);
}

short_pays :
    (total count : ℕ) (pool seed : ℤ) (budget s : ℕ)
    → pool +ℤ seed ≡ pos budget
    → budget < total
    → s * total ≤ total * budget
    → total * budget ≤ (s + count) * total
    → IsWithinCap total count pool seed (pos s) (pool -ℤ pos s)
short_pays total count pool seed budget s budget_eq short low high =
    let within =
      le_of_mul-le-mul_right {m = s} {n = budget} {k = total} (omega arith) (omega arith) in
    let spent =
      le_of_mul-le-mul_right {m = budget} {n = s + count} {k = total} (omega arith) (omega arith) in
    let sums = parts_of_eq _ _ budget_eq in
    record {
      top_up_bounded = omega int_laws;
      at_most_owed = omega arith;
      in_full = λ enough. absurd (omega arith);
      little_kept = λ _. omega int_laws;
      pool_emptied = eq_of_parts _ _ (omega int_laws);
    }

short_of :
    (total : ℕ) (pool seed : ℤ) (budget : ℕ)
    → pool +ℤ seed ≡ pos budget
    → ltb_ℤ seed (pos total -ℤ pool) ≡ true
    → budget < total
short_of total pool seed budget budget_eq short =
    let sums = parts_of_eq _ _ budget_eq in grind int_laws

abbrev cut_with : ℕ → ℤ → Bool → Holdings ℤ → ℤ → Cut
cut_with total pool refunds_cut paid refunded = record {
  refunds = paid;
  total_owed = total;
  total_refunded = refunded;
  refunds_cut = refunds_cut;
  residue = pool -ℤ refunded;
}

cut_made :
    (owed : Holdings ℕ) (pool seed : ℤ) (short : Bool) {budget : ℤ} {paid : Holdings ℤ}
    {refunded : ℤ}
    → ltb_ℤ seed (pos (total_of_owed owed) -ℤ pool) ≡ short
    → pool +ℤ seed ≡ budget
    → paid_of short budget (total_of_owed owed) owed ≡ ok paid
    → total_paid paid ≡ refunded
    → cut_of owed pool seed ≡ ok (cut_with (total_of_owed owed) pool short paid refunded)
unfolding cut_of is_short_beyond_one_seed
cut_made owed pool seed short test budget_eq pays adds = rw (test, budget_eq, pays, adds) refl

-- The refunds that are paid: they add up to the total, each is of some ticks, each holder gets what they are owed
-- when the pool and the seed cover the debt, and otherwise their share of those two, less than a tick for each
-- refund of theirs.
pub record IsCapped (owed : Holdings ℕ) (pool seed : ℤ) (c : Cut) : Type 0 where
  pub within_cap :
      IsWithinCap (total_of_owed owed) (length owed) pool seed c.total_refunded c.residue
  pub adds_up : total_paid c.refunds ≡ c.total_refunded
  pub some_ticks : All (λ (r : HolderOutcome × ℤ). pos 0 <ℤ r.1) c.refunds
  pub each_in_full :
      pos (total_of_owed owed) ≤ℤ pool +ℤ seed
      → (key : HolderOutcome) → paid_to_holder key c.refunds ≡ pos (owed_to_holder key owed)
  pub each_share :
      pool +ℤ seed <ℤ pos (total_of_owed owed)
      → (key : HolderOutcome)
      → IsShare
          (owed_to_holder key owed)
          (refunds_owed key owed)
          (pos_part (pool +ℤ seed))
          (total_of_owed owed)
          (paid_to_holder key c.refunds)

-- Where the pool and one more seed come to no debt, `cut_of` returns a cut, and the cut is capped:
-- PLATFORM adds at most one seed and the pool ends at zero; every holder is refunded in full whenever
-- the pool and the seed cover what is owed; and otherwise each holder's refunds are their share of those
-- two, rounded down to the tick in each refund, which pays the two out but for at most a tick a refund.
-- The refunds listed add up to the total of the cut, and none of them is of nothing.
pub cut_of-IsCapped :
    (owed : Holdings ℕ) (pool seed : ℤ)
    → pos 0 ≤ℤ pool +ℤ seed
    → (c : Cut) × (cut_of owed pool seed ≡ ok c) × IsCapped owed pool seed c
cut_of-IsCapped owed pool seed solvent =
    let total = total_of_owed owed in
    elim (Bool-cases (ltb_ℤ seed (pos total -ℤ pool))) [
      | inl short ↦
          let (budget, budget_eq) = nonneg (pool +ℤ seed) solvent in
          let is_short = short_of total pool seed budget budget_eq short in
          let (paid, s, pays, adds, low, high) = paid_cut budget total owed (omega arith) in
          (
            cut_with total pool true paid (pos s),
            cut_made owed pool seed true short budget_eq pays adds,
            record {
              within_cap =
                  short_pays total (length owed) pool seed budget s budget_eq is_short low high;
              adds_up = adds;
              some_ticks = paid_of-positive true (pos budget) total owed pays;
              each_in_full = λ enough. absurd (let sums = parts_of_eq _ _ budget_eq in omega arith);
              each_share =
                  λ _ key. rw budget_eq (paid_of-IsShare budget total owed key (omega arith) pays);
            },
          )
      | inr enough ↦
          let (paid, pays, adds) = paid_in_full (pool +ℤ seed) total owed in
          (
            cut_with total pool false paid (pos total),
            cut_made owed pool seed false enough refl pays adds,
            record {
              within_cap = enough_pays total (length owed) pool seed enough;
              adds_up = adds;
              some_ticks = paid_of-positive false (pool +ℤ seed) total owed pays;
              each_in_full = λ _ key. paid_of-in_full (pool +ℤ seed) total owed key pays;
              each_share = λ short. absurd (grind int_laws);
            },
          )
    ]
