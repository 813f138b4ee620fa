-- ===== src/Ledger/Voiding/Refunds.antt =====
-- backend/ledger_service/core/voiding.py, cut_of: what each holder is refunded.
use native.Mathlib.Nat.{mul-div-le, lt-mul-div-succ}
use cs.Base.{
  ℕ, ◌+◌, ◌*◌, ◌/◌, ◌≤◌, ◌<◌, ◌≡◌, refl, inl, inr, Bool, true, false, [], ◌∷◌, if◌then◌else◌, All,
  ok, raise_if, Bool-cases, arith, >>=-eq-ok, ok_injective, subst, sym, ◌∙◌, ap,
}
use cs.Base.Int.{ℤ, pos, ◌+ℤ◌, ◌*ℤ◌, ◌<ℤ◌, ltb_ℤ, floor_div}
use cs.Ledger.Voiding.{Holdings, HolderOutcome, key_eq}
use cs.Ledger.Voiding.Cut.{to_pay_of, paid_of}

unfoldable pub owed_to_holder : HolderOutcome → Holdings ℕ → ℕ
owed_to_holder key [] = 0
owed_to_holder key ((k, refund) ∷ rest) =
    (if key_eq k key then refund else 0) + owed_to_holder key rest

unfoldable pub paid_to_holder : HolderOutcome → Holdings ℤ → ℤ
paid_to_holder key [] = pos 0
paid_to_holder key ((k, amount) ∷ rest) =
    (if key_eq k key then amount else pos 0) +ℤ paid_to_holder key rest

-- How many refunds of the holder there are
unfoldable pub refunds_owed : HolderOutcome → Holdings ℕ → ℕ
refunds_owed key [] = 0
refunds_owed key ((k, refund) ∷ rest) = (if key_eq k key then 1 else 0) + refunds_owed key rest

-- `paid` is the share of `budget` that `owed` has of `total`, less at most a tick for each of `count` refunds.
pub record IsShare (owed count budget total : ℕ) (paid : ℤ) : Type 0 where
  pub ticks : ℕ
  pub is_ticks : paid ≡ pos ticks
  pub at_most : ticks * total ≤ owed * budget
  pub little_less : owed * budget ≤ (ticks + count) * total

pub to_pay_cut :
    (budget total refund : ℕ)
    → 0 < total
    → to_pay_of true (pos budget) total refund ≡ ok (pos (refund * budget / total))
unfolding to_pay_of ◌*ℤ◌ floor_div raise_if
to_pay_cut budget total refund some_owed = ground arith

-- Leaving a payment of nothing out of the dict leaves each holder's total alone.
paid_to_holder-kept :
    (key k : HolderOutcome) (n s : ℕ) (others : Holdings ℤ)
    → paid_to_holder key others ≡ pos s
    → paid_to_holder key (if ltb_ℤ (pos 0) (pos n) then (k, pos n) ∷ others else others)
      ≡ pos ((if key_eq k key then n else 0) + s)
unfolding paid_to_holder ◌+ℤ◌
paid_to_holder-kept key k n s others h = elim (Bool-cases (key_eq k key)) [
  | inl e ↦ rw e (ground arith)
  | inr e ↦ rw e (ground arith)
]

kept-positive :
    (k : HolderOutcome) (amount : ℤ) (others : Holdings ℤ)
    → All (λ (r : HolderOutcome × ℤ). pos 0 <ℤ r.1) others
    → All
        (λ (r : HolderOutcome × ℤ). pos 0 <ℤ r.1)
        (if ltb_ℤ (pos 0) amount then (k, amount) ∷ others else others)
kept-positive k amount others h = elim (Bool-cases (ltb_ℤ (pos 0) amount)) [
  | inl e ↦ rw e ((ground arith), h)
  | inr e ↦ rw e h
]

pub paid_of-positive :
    (cut : Bool) (budget : ℤ) (total : ℕ) (owed : Holdings ℕ) {paid : Holdings ℤ}
    → paid_of cut budget total owed ≡ ok paid
    → All (λ (r : HolderOutcome × ℤ). pos 0 <ℤ r.1) paid
unfolding paid_of
paid_of-positive cut budget total [] h = subst (All _) (ok_injective h) tt
paid_of-positive cut budget total ((k, refund) ∷ rest) h =
    let (to_pay, pays, h₁) = >>=-eq-ok (to_pay_of cut budget total refund) _ h in
    let (others, later, h₂) = >>=-eq-ok (paid_of cut budget total rest) _ h₁ in
    subst (All _) (ok_injective h₂)
      (kept-positive k to_pay others (paid_of-positive cut budget total rest later))

pub paid_of-in_full :
    (budget : ℤ) (total : ℕ) (owed : Holdings ℕ) (key : HolderOutcome) {paid : Holdings ℤ}
    → paid_of false budget total owed ≡ ok paid
    → paid_to_holder key paid ≡ pos (owed_to_holder key owed)
unfolding paid_of to_pay_of owed_to_holder
paid_of-in_full budget total [] key h =
    ap (paid_to_holder key) (sym (ok_injective h)) ∙ unfold paid_to_holder in refl
paid_of-in_full budget total ((k, refund) ∷ rest) key h =
    let (others, later, h₁) = >>=-eq-ok (paid_of false budget total rest) _ h in
    ap (paid_to_holder key) (sym (ok_injective h₁))
    ∙ paid_to_holder-kept key k refund (owed_to_holder key rest) others
        (paid_of-in_full budget total rest key later)

share_more :
    (same : Bool) (budget total refund owed count s : ℕ)
    → 0 < total
    → s * total ≤ owed * budget
    → owed * budget ≤ (s + count) * total
    → let n = refund * budget / total in
      (((if same then n else 0) + s) * total ≤ ((if same then refund else 0) + owed) * budget)
      × (((if same then refund else 0) + owed) * budget
          ≤ ((if same then n else 0) + s + ((if same then 1 else 0) + count)) * total)
share_more true budget total refund owed count s some_owed low high =
    let floor_low = mul-div-le (refund * budget) total in
    let floor_high = lt-mul-div-succ (refund * budget) {b = total} some_owed in
    (omega arith, omega arith)
share_more false budget total refund owed count s some_owed low high = (omega arith, omega arith)

pub paid_of-IsShare :
    (budget total : ℕ) (owed : Holdings ℕ) (key : HolderOutcome) {paid : Holdings ℤ}
    → 0 < total
    → paid_of true (pos budget) total owed ≡ ok paid
    → IsShare
        (owed_to_holder key owed)
        (refunds_owed key owed)
        budget
        total
        (paid_to_holder key paid)
unfolding paid_of owed_to_holder refunds_owed
paid_of-IsShare budget total [] key some_owed h =
    subst (λ p. IsShare 0 0 budget total (paid_to_holder key p)) (ok_injective h)
      (record {
        ticks = 0;
        is_ticks = unfold paid_to_holder in refl;
        at_most = omega arith;
        little_less = omega arith;
      })
paid_of-IsShare budget total ((k, refund) ∷ rest) key some_owed h =
    let (to_pay, pays, h₁) = >>=-eq-ok (to_pay_of true (pos budget) total refund) _ h in
    let (others, later, h₂) = >>=-eq-ok (paid_of true (pos budget) total rest) _ h₁ in
    let share = paid_of-IsShare budget total rest key some_owed later in
    let n = refund * budget / total in
    let is_n : pos n ≡ to_pay =
      ok_injective (sym (to_pay_cut budget total refund some_owed) ∙ pays) in
    let (low, high) =
      share_more (key_eq k key) budget total refund (owed_to_holder key rest)
        (refunds_owed key rest) share.ticks some_owed share.at_most share.little_less in
    subst
      (λ p.
        IsShare ((if key_eq k key then refund else 0) + owed_to_holder key rest)
          ((if key_eq k key then 1 else 0) + refunds_owed key rest) budget total
          (paid_to_holder key p))
      (ok_injective h₂)
      (record {
        ticks = (if key_eq k key then n else 0) + share.ticks;
        is_ticks =
            ap (λ a. paid_to_holder key (if ltb_ℤ (pos 0) a then (k, a) ∷ others else others))
              (sym is_n)
            ∙ paid_to_holder-kept key k n share.ticks others share.is_ticks;
        at_most = low;
        little_less = high;
      })
