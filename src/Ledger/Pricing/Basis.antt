-- ===== src/Ledger/Pricing/Basis.antt =====
-- `release_basis`: what a sale releases of its cost basis, and what it leaves.
use native.Mathlib.Nat.{div-lt_iff_lt-mul, mul-div-le, lt-mul-div-succ, sub_self, mul-zero}
use cs.Base.{
  ℕ, ◌+◌, ◌-◌, ◌*◌, ◌≤◌, ◌<◌, ◌≡◌, refl, inl, inr, arith, ok, raise_if, Bool-cases, ==→eq, ◌==◌,
}
use cs.Ledger.Pricing.{half_up_div, release_basis}

mul_mono : (a b c : ℕ) → b ≤ c → a * b ≤ a * c
mul_mono a b c h = grind arith

pub half_up_div-le : (basis held left : ℕ) → left < held → half_up_div (basis * left) held ≤ basis
unfolding half_up_div
half_up_div-le basis held left h =
    let share = mul_mono basis left held (omega arith) in
    let below : 2 * (basis * left) + held < (basis + 1) * (2 * held) = omega arith in
    let q = (div-lt_iff_lt-mul {k = 2 * held} (omega arith)).1 below in omega arith

-- The rounded quotient is within half a unit of the exact one.
pub half_up_div_near :
    (n d : ℕ)
    → 0 < d
    → (2 * d * half_up_div n d ≤ 2 * n + d) × (2 * n < 2 * d * half_up_div n d + d)
unfolding half_up_div
half_up_div_near n d h =
    let low = mul-div-le (2 * n + d) (2 * d) in
    let high = lt-mul-div-succ (2 * n + d) {b = 2 * d} (omega arith) in (omega arith, omega arith)

-- A sale of some but not more shares than are held splits the basis into what it releases and what
-- it leaves: the two sum to the basis, a full exit leaves nothing, and what is left is within half
-- a tick of the average cost of the shares kept.
pub release_basis_split :
    (basis held quantity : ℕ)
    → 0 < quantity
    → quantity ≤ held
    → (released : ℕ) × (remaining : ℕ) × (release_basis basis held quantity
        ≡ ok (released, remaining))
      × (released + remaining ≡ basis)
      × (quantity ≡ held → remaining ≡ 0)
      × (2 * held * remaining ≤ 2 * (basis * (held - quantity)) + held)
      × (2 * (basis * (held - quantity)) ≤ 2 * held * remaining + held)
unfolding release_basis raise_if
release_basis_split basis held quantity pos_q le = elim (Bool-cases (quantity == held)) [
  | inl full ↦
      let all_sold = ==→eq quantity held full in
      let none_kept : basis * (held - quantity) ≡ 0 = rw all_sold (simp (sub_self, mul-zero)) in
      (basis, 0, ground arith, omega arith, λ _. refl, omega arith, omega arith)
  | inr part ↦
      let kept = held - quantity in
      let near = half_up_div_near (basis * kept) held (omega arith) in
      let bound = half_up_div-le basis held kept (omega arith) in
      (
        basis - half_up_div (basis * kept) held,
        half_up_div (basis * kept) held,
        ground arith,
        omega arith,
        λ e. ground arith,
        near.0,
        omega arith,
      )
]
