-- ===== src/Ledger/Voiding/Cut.antt =====
-- backend/ledger_service/core/voiding.py, cut_of: the refunds that are paid, after the cap.
use cs.Base.{
  ℕ, ◌+◌, ◌==◌, Bool, true, false, [], ◌∷◌, if◌then◌else◌, Outcome, ok, ◌>>=◌, ◌>>◌, raise_if,
}
use cs.Base.Int.{ℤ, pos, ◌+ℤ◌, ◌-ℤ◌, ◌*ℤ◌, ltb_ℤ, floor_div}
use cs.Ledger.Voiding.{Holdings, VoidError, division_undefined}

pub record Cut : Type 0 where
  pub refunds : Holdings ℤ
  pub total_owed : ℕ
  pub total_refunded : ℤ
  pub refunds_cut : Bool
  pub residue : ℤ

unfoldable pub total_of_owed : Holdings ℕ → ℕ
total_of_owed [] = 0
total_of_owed ((key, refund) ∷ rest) = refund + total_of_owed rest

unfoldable pub total_paid : Holdings ℤ → ℤ
total_paid [] = pos 0
total_paid ((key, amount) ∷ rest) = amount +ℤ total_paid rest

unfoldable pub is_short_beyond_one_seed : ℕ → ℤ → ℤ → Bool
is_short_beyond_one_seed total_owed pool seed = ltb_ℤ seed (pos total_owed -ℤ pool)

-- The product of two column values is exact at the engine's fifty digits, and its quotient by a third
-- is either a whole number of ticks or too far from one for the fiftieth digit to reach it, so the
-- floor is the exact one.
unfoldable pub to_pay_of : Bool → ℤ → ℕ → ℕ → Outcome VoidError ℤ
to_pay_of false budget total_owed refund = ok (pos refund)
to_pay_of true budget total_owed refund = do
  raise_if (total_owed == 0) division_undefined
  ok (floor_div (refund *ℤ budget) total_owed)

-- The loop over `owed`; `budget` is `pool + seed`.
unfoldable pub paid_of : Bool → ℤ → ℕ → Holdings ℕ → Outcome VoidError (Holdings ℤ)
paid_of refunds_cut budget total_owed [] = ok []
paid_of refunds_cut budget total_owed ((key, refund) ∷ rest) = do
  to_pay ← to_pay_of refunds_cut budget total_owed refund
  others ← paid_of refunds_cut budget total_owed rest
  ok (if ltb_ℤ (pos 0) to_pay then (key, to_pay) ∷ others else others)

unfoldable pub cut_of : Holdings ℕ → ℤ → ℤ → Outcome VoidError Cut
cut_of owed pool seed = do
  let total_owed = total_of_owed owed
  let refunds_cut = is_short_beyond_one_seed total_owed pool seed
  paid ← paid_of refunds_cut (pool +ℤ seed) total_owed owed
  let total_refunded = total_paid paid
  ok (record {
    refunds = paid;
    total_owed = total_owed;
    total_refunded = total_refunded;
    refunds_cut = refunds_cut;
    residue = pool -ℤ total_refunded;
  })
