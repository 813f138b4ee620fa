-- ===== src/Ledger/Trading/Held.antt =====
-- backend/ledger_service/service/trading.py: a trade's write of its position moves the shares held of its outcome
-- by its quantity, and of no other.
use cs.Base.{
  ℕ, ◌+◌, ◌-◌, ◌≤◌, ◌≡◌, refl, Bool, true, false, Option, none, some, List, [], ◌∷◌, ◌++◌, ◌==◌,
  ◌&&◌, if◌then◌else◌, Bool-cases, inl, inr, sym, ◌∙◌, ap, arith, ok, err, raise_if, raise_if-ok,
  >>=-eq-ok, ok_injective, Outcome, leb, ltb, not, some_injective, subst,
}
use cs.Base.Int.{ℤ, pos, neg, ◌+ℤ◌, int_laws}
use cs.Ledger.Lmsr.{PricingError}
use cs.Ledger.Pricing.{Side, buy, sell, signed, release_basis}
use cs.Ledger.Rows.{Position}
use cs.Ledger.BookPrices.{priced_by}
use cs.Ledger.Trading.{
  PricedTrade, is_position_of, find_position, write_position, add_to_position,
  release_from_position, positions_after,
}
use cs.Ledger.Trading.Shares.{shares_in}

-- `n` where the position is of the outcome
abbrev pub here : ℕ → ℕ → ℕ → ℕ → ℕ → ℕ
here m o market_id outcome_id n = if m == market_id && o == outcome_id then n else 0

shares_in-append :
    (ps : List Position) (p : Position) (m o : ℕ)
    → shares_in (ps ++ (p ∷ [])) m o
      ≡ shares_in ps m o + here p.market_id p.outcome_id m o p.quantity
unfolding shares_in
shares_in-append [] p m o = omega arith
shares_in-append (x ∷ ps) p m o = omega (arith, shares_in-append ps p m o)

-- The row found is of the position's key.
record IsKeyed (p : Position) (user_id market_id outcome_id : ℕ) : Type 0 where
  user : p.user_id ≡ user_id
  market : p.market_id ≡ market_id
  outcome : p.outcome_id ≡ outcome_id

is_position_of-IsKeyed :
    (p : Position) (u m o : ℕ) → is_position_of p u m o ≡ true → IsKeyed p u m o
unfolding is_position_of
is_position_of-IsKeyed p u m o h = record {
  user = ground arith;
  market = ground arith;
  outcome = ground arith;
}

find_position-IsKeyed :
    (ps : List Position) (u m o : ℕ) (p : Position)
    → find_position ps u m o ≡ some p
    → IsKeyed p u m o
unfolding find_position
find_position-IsKeyed [] u m o p h = absurd cc
find_position-IsKeyed (x ∷ rest) u m o p h = elim (Bool-cases (is_position_of x u m o)) [
  | inl e ↦
      subst (λ y. IsKeyed y u m o) (some_injective (rw e at h)) (is_position_of-IsKeyed x u m o e)
  | inr e ↦ find_position-IsKeyed rest u m o p (rw e at h)
]

-- The row that a lookup finds is the one that a write replaces.
shares_in-write :
    (ps : List Position) (p new : Position) (m o : ℕ)
    → find_position ps new.user_id new.market_id new.outcome_id ≡ some p
    → shares_in (write_position new ps) m o + here new.market_id new.outcome_id m o p.quantity
      ≡ shares_in ps m o + here new.market_id new.outcome_id m o new.quantity
unfolding shares_in write_position find_position
shares_in-write [] p new m o h = absurd cc
shares_in-write (x ∷ rest) p new m o h =
    elim (Bool-cases (is_position_of x new.user_id new.market_id new.outcome_id)) [
      | inl e ↦
          let keyed = is_position_of-IsKeyed x new.user_id new.market_id new.outcome_id e in
          let same : x ≡ p = some_injective (rw e at h) in
          rw (e, sym same, keyed.market, keyed.outcome) (omega arith)
      | inr e ↦ rw e (omega (arith, shares_in-write rest p new m o (rw e at h)))
    ]

-- The row of a key with another quantity and basis
abbrev changed : Position → ℕ → ℕ → Position
changed p quantity cost_basis = record p { quantity = quantity; cost_basis = cost_basis }

shares_in-changed :
    (ps : List Position) (p : Position) (u mk out quantity basis m o : ℕ)
    → find_position ps u mk out ≡ some p
    → shares_in (write_position (changed p quantity basis) ps) m o + here mk out m o p.quantity
      ≡ shares_in ps m o + here mk out m o quantity
shares_in-changed ps p u mk out quantity basis m o h =
    let keyed = find_position-IsKeyed ps u mk out p h in
    subst
      (λ (k : ℕ × ℕ).
        shares_in (write_position (changed p quantity basis) ps) m o + here k.0 k.1 m o p.quantity
        ≡ shares_in ps m o + here k.0 k.1 m o quantity)
      (λ i. (keyed.market i, keyed.outcome i))
      (shares_in-write ps p (changed p quantity basis) m o
        ((λ i. find_position ps (keyed.user i) (keyed.market i) (keyed.outcome i)) ∙ h))

release_basis-held :
    (basis held quantity : ℕ) {r : ℕ × ℕ}
    → release_basis basis held quantity ≡ ok r
    → quantity ≤ held
unfolding release_basis
release_basis-held basis held quantity h =
    let (u, within, h₁) = >>=-eq-ok (raise_if (not (ltb 0 quantity && leb quantity held)) _) _ h in
    let e = raise_if-ok _ _ within in ground arith

pub priced_by-ok : {A : Type 0} (m : Outcome PricingError A) {a : A} → priced_by m ≡ ok a → m ≡ ok a
unfolding priced_by
priced_by-ok (ok x) h = ap ok (ok_injective h)
priced_by-ok (err e) h = absurd cc

-- A row's quantity goes up, or down by no more than it is.
raised :
    (own : Bool) (after before held quantity : ℕ)
    → after + (if own then held else 0) ≡ before + (if own then held + quantity else 0)
    → pos after ≡ (if own then pos before +ℤ pos quantity else pos before)
raised true after before held quantity h = omega int_laws
raised false after before held quantity h = omega int_laws

lowered :
    (own : Bool) (after before held quantity : ℕ)
    → quantity ≤ held
    → after + (if own then held else 0) ≡ before + (if own then held - quantity else 0)
    → pos after ≡ (if own then pos before +ℤ neg (pos quantity) else pos before)
lowered true after before held quantity le h = omega int_laws
lowered false after before held quantity le h = omega int_laws

-- The shares held of an outcome, moved by a trade where the outcome is its own
abbrev moved_by : PricedTrade → Side → ℕ → ℕ → ℤ → ℤ
moved_by trade side m o held =
    if trade.market_id == m && trade.outcome_id == o
    then held +ℤ signed side trade.quantity
    else held

bought :
    (ps : List Position) (trade : PricedTrade) (m o : ℕ) (found : Option Position)
    → found ≡ find_position ps trade.user_id trade.market_id trade.outcome_id
    → pos (shares_in (add_to_position ps found trade) m o)
      ≡ moved_by trade buy m o (pos (shares_in ps m o))
unfolding add_to_position signed
bought ps trade m o none h = rw (shares_in-append ps _ m o) (grind int_laws)
bought ps trade m o (some p) h =
    raised (trade.market_id == m && trade.outcome_id == o) _ (shares_in ps m o) p.quantity
      trade.quantity
      (shares_in-changed ps p trade.user_id trade.market_id trade.outcome_id _ _ m o (sym h))

sold :
    (ps : List Position) (trade : PricedTrade) (m o : ℕ) (found : Option Position)
    {after : List Position}
    → found ≡ find_position ps trade.user_id trade.market_id trade.outcome_id
    → release_from_position ps found trade.quantity ≡ ok after
    → pos (shares_in after m o) ≡ moved_by trade sell m o (pos (shares_in ps m o))
unfolding release_from_position signed
sold ps trade m o none same h = absurd cc
sold ps trade m o (some p) same h =
    let (released, held, h₁) =
      >>=-eq-ok (priced_by (release_basis p.cost_basis p.quantity trade.quantity)) _ h in
    rw (sym (ok_injective h₁)) (
      lowered (trade.market_id == m && trade.outcome_id == o) _ (shares_in ps m o) p.quantity
        trade.quantity
        (release_basis-held p.cost_basis p.quantity trade.quantity (priced_by-ok _ held))
        (shares_in-changed ps p trade.user_id trade.market_id trade.outcome_id _ _ m o (sym same)))

held_after :
    (side : Side) (ps : List Position) (trade : PricedTrade) (m o : ℕ) {after : List Position}
    → positions_after side ps
        (find_position ps trade.user_id trade.market_id trade.outcome_id)
        trade
      ≡ ok after
    → pos (shares_in after m o) ≡ moved_by trade side m o (pos (shares_in ps m o))
unfolding positions_after
held_after buy ps trade m o h = rw (sym (ok_injective h)) (bought ps trade m o _ refl)
held_after sell ps trade m o h = sold ps trade m o _ refl h

-- The shares held of every outcome, after a trade's write of its position
pub positions_after-shares :
    (ps : List Position) (trade : PricedTrade) (m o : ℕ) {after : List Position}
    → positions_after trade.side ps
        (find_position ps trade.user_id trade.market_id trade.outcome_id)
        trade
      ≡ ok after
    → pos (shares_in after m o) ≡ (
        if trade.market_id == m && trade.outcome_id == o
        then pos (shares_in ps m o) +ℤ signed trade.side trade.quantity
        else pos (shares_in ps m o))
positions_after-shares ps trade m o h = held_after trade.side ps trade m o h
