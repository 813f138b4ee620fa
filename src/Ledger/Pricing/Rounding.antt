-- ===== src/Ledger/Pricing/Rounding.antt =====
-- What one priced trade is charged or paid, and the book it leaves.
use cs.Base.{
  ok_injective, ℕ, ◌≡◌, refl, sym, subst, Bool, true, false, List, length, set, replicate, arith,
  ok, >>=-eq-ok, raise_if,
}
use cs.Base.Int.{ℤ, pos, ◌≤ℤ◌, eqb_ℤ}
use cs.Ledger.Lmsr.{Engine, IsDecimal, add_each, cost_to_trade}
use cs.Ledger.Pricing.{
  Side, buy, sell, TradeCost, max_magnitude, signed, total_of, refuse_oversold, at, rounded,
  quantize_cost, trade_cost_of,
}

raise_if-ok : {E : Type 0} (b : Bool) (x : E) → raise_if b x ≡ ok tt → b ≡ false
unfolding raise_if
raise_if-ok true x h = cc
raise_if-ok false x h = refl

not_oversold :
    (side : Side) (quantity : ℕ) (outstanding : ℤ)
    → refuse_oversold side quantity outstanding ≡ ok tt
    → side ≡ sell
    → pos quantity ≤ℤ outstanding
unfolding refuse_oversold raise_if
not_oversold buy quantity outstanding h e = cc
not_oversold sell quantity outstanding h e = ground arith

-- `delta`: the trade's quantity in its own outcome.
abbrev pub delta_of : List ℤ → ℕ → Side → ℕ → List ℤ
delta_of q index side quantity = set (replicate (length q) (pos 0)) index (signed side quantity)

abbrev priced_at : List ℤ → ℕ → Side → ℕ → ℤ → TradeCost
priced_at q index side quantity m = record {
  after_q = add_each q (delta_of q index side quantity);
  magnitude = m;
  total = total_of side m;
}

tick_of : (m : ℤ) → pos 0 ≤ℤ m → eqb_ℤ m (pos 0) ≡ false → pos 1 ≤ℤ m
tick_of m low nonzero = ground arith

module _ (e : Engine) where
  -- A cost that was rounded and not refused.
  quantize_cost-ok :
      (x : e.Num) (side : Side) {m : ℤ}
      → quantize_cost e x side ≡ ok m
      → (m ≡ rounded e side x) × (eqb_ℤ m (pos 0) ≡ false) × (e.less x (e.of_ticks (pos 0)) ≡ false)
  unfolding quantize_cost
  quantize_cost-ok x side h =
      let (_, nonneg, h₁) = >>=-eq-ok (raise_if _ _) _ h in
      let (_, nonzero, h₂) = >>=-eq-ok (raise_if _ _) _ h₁ in
      let is_it = raise_if-ok _ _ nonzero in
      let pos_it = raise_if-ok _ _ nonneg in (ground arith, ground arith, pos_it)

  rounded_bounds :
      (d : IsDecimal e) (side : Side) (x : e.Num)
      → e.less x (e.of_ticks (pos 0)) ≡ false
      → e.less (e.of_ticks max_magnitude) x ≡ false
      → (pos 0 ≤ℤ rounded e side x) × (rounded e side x ≤ℤ max_magnitude)
  unfolding rounded
  rounded_bounds d buy x nonneg fits = (d.ceil_nonneg x nonneg, d.ceil_least x max_magnitude fits)
  rounded_bounds d sell x nonneg fits =
      (d.floor_nonneg x nonneg, d.floor_least x max_magnitude fits)

  -- The residue of the rounding is the pool's: a buyer is charged no less than the cost, and a
  -- seller paid no more.
  abbrev pub FavoursPool : Side → ℤ → e.Num → Type 0
  FavoursPool buy m x = e.less (e.of_ticks m) x ≡ false
  FavoursPool sell m x = e.less x (e.of_ticks m) ≡ false

  rounded-FavoursPool :
      (d : IsDecimal e) (side : Side) (x : e.Num) → FavoursPool side (rounded e side x) x
  unfolding rounded
  rounded-FavoursPool d buy x = d.ceil_above x
  rounded-FavoursPool d sell x = d.floor_below x

  -- What a priced trade is: its size within the column, its sign, its cost rounded for the pool,
  -- and, for a sale, no more shares than are outstanding.
  pub record IsPriced (q : List ℤ) (b : ℤ) (index : ℕ) (side : Side) (quantity : ℕ) (c : TradeCost)
      : Type 0 where
    pub outstanding : ℤ
    pub raw : e.Num
    pub known : at q index ≡ ok outstanding
    pub covered : side ≡ sell → pos quantity ≤ℤ outstanding
    pub priced : cost_to_trade e q b (delta_of q index side quantity) ≡ ok raw
    pub favours_pool : FavoursPool side c.magnitude (e.copy_abs raw)
    pub at_least_a_tick : pos 1 ≤ℤ c.magnitude
    pub fits : c.magnitude ≤ℤ max_magnitude
    pub moved : c.after_q ≡ add_each q (delta_of q index side quantity)
    pub sign : c.total ≡ total_of side c.magnitude

  IsPriced-of :
      (d : IsDecimal e) (q : List ℤ) (b : ℤ) (index : ℕ) (side : Side) (quantity : ℕ)
      (outstanding m : ℤ) (raw : e.Num)
      → at q index ≡ ok outstanding
      → refuse_oversold side quantity outstanding ≡ ok tt
      → cost_to_trade e q b (delta_of q index side quantity) ≡ ok raw
      → e.less (e.of_ticks max_magnitude) (e.copy_abs raw) ≡ false
      → quantize_cost e (e.copy_abs raw) side ≡ ok m
      → IsPriced q b index side quantity (priced_at q index side quantity m)
  IsPriced-of d q b index side quantity outstanding m raw known allowed priced small quantized =
      let (is_rounded, nonzero, nonneg) = quantize_cost-ok (e.copy_abs raw) side quantized in
      let (low, high) = rounded_bounds d side (e.copy_abs raw) nonneg small in
      record {
        outstanding = outstanding;
        raw = raw;
        known = known;
        covered = not_oversold side quantity outstanding allowed;
        priced = priced;
        favours_pool =
            subst (λ x. FavoursPool side x (e.copy_abs raw)) (sym is_rounded)
              (rounded-FavoursPool d side (e.copy_abs raw));
        at_least_a_tick = tick_of m (rw is_rounded low) nonzero;
        fits = rw is_rounded high;
        moved = refl;
        sign = refl;
      }

  -- With the rounding that `decimal` documents, a trade that is priced is charged or paid at least one tick and at most what the column holds,
  -- rounded so that the residue is the pool's, with the sign of its side; a sale is of no more shares
  -- than its outcome has outstanding; and the book moves by the quantity in that outcome alone.
  pub trade_cost_of-IsPriced :
      (d : IsDecimal e) (q : List ℤ) (b : ℤ) (index : ℕ) (side : Side) (quantity : ℕ)
      (c : TradeCost)
      → trade_cost_of e q b index side quantity ≡ ok c
      → IsPriced q b index side quantity c
  unfolding trade_cost_of
  trade_cost_of-IsPriced d q b index side quantity c h =
      let (outstanding, known, h₁) = >>=-eq-ok (at q index) _ h in
      let (_, allowed, h₂) = >>=-eq-ok (refuse_oversold side quantity outstanding) _ h₁ in
      let (moved, _, h₃) = >>=-eq-ok (at _ index) _ h₂ in
      let (_, _, h₄) = >>=-eq-ok (raise_if _ _) _ h₃ in
      let (raw, priced, h₅) = >>=-eq-ok (cost_to_trade e q b _) _ h₄ in
      let (_, small, h₆) = >>=-eq-ok (raise_if _ _) _ h₅ in
      let (m, quantized, h₇) = >>=-eq-ok (quantize_cost e (e.copy_abs raw) side) _ h₆ in
      subst (IsPriced q b index side quantity) (ok_injective h₇) (
        IsPriced-of d q b index side quantity outstanding m raw known allowed priced
          (raise_if-ok _ _ small) quantized)
