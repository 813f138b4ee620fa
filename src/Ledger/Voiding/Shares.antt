-- ===== src/Ledger/Voiding/Shares.antt =====
-- backend/ledger_service/core/voiding.py, lot_replay_of: the shares that the lots keep.
use cs.Base.{
  ℕ, zero, suc, ◌+◌, ◌-◌, ◌<◌, ◌==◌, ◌≡◌, refl, sym, ap, ◌⊎◌, inl, inr, ◌≢◌, true, List, [], ◌∷◌,
  some, Option-cases, length, length-set, length-replicate, get_elem?, set, replicate,
  if◌then◌else◌, Outcome, ok, err, >>=-eq-ok, ok_injective, Bool-cases, ==→eq, ==-refl, arith, min,
  subst,
}
use cs.Base.Int.{ℤ, pos, ◌+ℤ◌, int_laws, eq_of_parts, parts_of_eq}
use cs.Ledger.Lmsr.{Engine}
use cs.Ledger.Pricing.{Side, buy, sell}
use cs.Ledger.Voiding.{
  HolderOutcome, Holdings, Lot, VoidTrade, VoidError, Replaying, LotReplay, key_eq, stack_of, put,
  sell_newest_first, moved_at, lots_after, change_of_q, replay_trade, replay_trades, lots_left,
  shares_left_of, owed_of, lot_replay_of,
}

-- The shares of every holder in one outcome.
unfoldable pub shares_at : ℕ → Holdings ℕ → ℕ
shares_at position [] = 0
shares_at position ((key, n) ∷ rest) =
    (if key.1 == position then n else 0) + shares_at position rest

unfoldable held_in : ℕ → Holdings (List Lot) → ℕ
held_in position [] = 0
held_in position ((key, lots) ∷ rest) =
    (if key.1 == position then lots_left lots else 0) + held_in position rest

sold_left :
    (newest : Lot) (rest : List Lot) (to_sell : ℕ) (dropped : Outcome VoidError (List Lot))
    {after : List Lot}
    → ((lots : List Lot)
        → dropped ≡ ok lots
        → lots_left lots + (to_sell - min newest.left to_sell) ≡ lots_left rest)
    → (if newest.left - min newest.left to_sell == 0
        then dropped
        else ok (record newest { left = newest.left - min newest.left to_sell } ∷ rest))
      ≡ ok after
    → lots_left after + to_sell ≡ newest.left + lots_left rest
unfolding lots_left
sold_left newest rest to_sell dropped {after} drops h =
    elim (Bool-cases (newest.left - min newest.left to_sell == 0)) [
      | inl emptied ↦
          let kept = drops after (rw emptied at h) in
          let all_taken = ==→eq _ _ emptied in ground arith
      | inr keeps ↦ rw (sym (ok_injective (rw keeps at h))) (ground arith)
    ]

-- A sale takes exactly its quantity off its holder's lots.
pub sell_newest_first-left :
    (lots : List Lot) (quantity : ℕ) {after : List Lot}
    → sell_newest_first lots quantity ≡ ok after
    → lots_left after + quantity ≡ lots_left lots
unfolding sell_newest_first lots_left
sell_newest_first-left lots zero h = rw (sym (ok_injective h)) (omega arith)
sell_newest_first-left [] (suc to_sell) h = absurd cc
sell_newest_first-left (newest ∷ rest) (suc to_sell) h =
    sold_left newest rest (suc to_sell) _
      (λ lots dropped.
        sell_newest_first-left rest (suc to_sell - min newest.left (suc to_sell)) dropped)
      h

key_eq-position : (k key : HolderOutcome) → key_eq k key ≡ true → k.1 ≡ key.1
unfolding key_eq
key_eq-position (u, p) (v, r) h = ground (arith, ==→eq p r)

-- Writing a holder's stack moves that outcome's shares by what the stack's shares move.
held_in-put :
    (position : ℕ) (stacks : Holdings (List Lot)) (key : HolderOutcome) (lots : List Lot)
    → held_in position (put stacks key lots)
        + (if key.1 == position then lots_left (stack_of stacks key) else 0)
      ≡ held_in position stacks + (if key.1 == position then lots_left lots else 0)
unfolding held_in put stack_of lots_left
held_in-put position [] key lots = ground arith
held_in-put position ((k, v) ∷ rest) key lots =
    let later = held_in-put position rest key lots in
    elim (Bool-cases (key_eq k key)) [
      | inl here ↦ rw (here, key_eq-position k key here) (omega arith)
      | inr elsewhere ↦ rw elsewhere (omega arith)
    ]

get_elem?-set :
    (q : List ℤ) (i p : ℕ) {v x y : ℤ}
    → get_elem? q i ≡ some y
    → get_elem? (set q i v) p ≡ some x
    → ((i ≡ p) × (x ≡ v) × (get_elem? q p ≡ some y)) ⊎ ((i ≢ p) × (get_elem? q p ≡ some x))
get_elem?-set [] i p hi hp = absurd cc
get_elem?-set (z ∷ q) zero zero hi hp = inl (refl, cc, hi)
get_elem?-set (z ∷ q) zero (suc p) hi hp = inr ((λ e. omega arith), hp)
get_elem?-set (z ∷ q) (suc i) zero hi hp = inr ((λ e. omega arith), hp)
get_elem?-set (z ∷ q) (suc i) (suc p) hi hp = elim (get_elem?-set q i p hi hp) [
  | inl (e, v, at_p) ↦ inl (ap suc e, v, at_p)
  | inr (ne, at_p) ↦ inr ((λ e. ne (omega arith)), at_p)
]

moved_at-ok :
    (q : List ℤ) (i : ℕ) (d : ℤ) {after : List ℤ}
    → moved_at q i d ≡ ok after
    → (y : ℤ) × (get_elem? q i ≡ some y) × (after ≡ set q i (y +ℤ d))
unfolding moved_at
moved_at-ok q i d h = elim (Option-cases (get_elem? q i)) [
  | inl out ↦ absurd (not_moved (rw (out, moved_at) at h))
  | inr (y, found) ↦ (y, found, sym (ok_injective (rw (found, moved_at) at h)))
]
  where
    not_moved :
        {e : VoidError} {l : List ℤ} → ◌≡◌ {A = Outcome VoidError (List ℤ)} (err e) (ok l) → ⊥
    not_moved h = cc

lots_after-left :
    (q : List ℤ) (trade : VoidTrade) (side : Side) (lots : List Lot) {after : List Lot}
    → lots_after q trade side lots ≡ ok after
    → pos (lots_left after) ≡ pos (lots_left lots) +ℤ change_of_q side trade.quantity
unfolding lots_after change_of_q lots_left
lots_after-left q trade buy lots h = rw (sym (ok_injective h)) (eq_of_parts _ _ (omega int_laws))
lots_after-left q trade sell lots h =
    let taken = sell_newest_first-left lots trade.quantity h in eq_of_parts _ _ (omega int_laws)

-- `q` counts the shares that the lots keep.
record IsCounted (n : ℕ) (s : Replaying) : Type 0 where
  pub as_long : length s.q ≡ n
  pub counts : (p : ℕ) {x : ℤ} → get_elem? s.q p ≡ some x → x ≡ pos (held_in p s.stacks)

count_moves :
    (stacks : Holdings (List Lot)) (key : HolderOutcome) (lots : List Lot) (y x d : ℤ)
    → y ≡ pos (held_in key.1 stacks)
    → x ≡ y +ℤ d
    → pos (lots_left lots) ≡ pos (lots_left (stack_of stacks key)) +ℤ d
    → x ≡ pos (held_in key.1 (put stacks key lots))
count_moves stacks key lots y x d counted moved changed =
    let totals = held_in-put key.1 stacks key lots in
    let same = rw (==-refl key.1) at totals in
    let y_parts = parts_of_eq _ _ counted in
    let x_parts = parts_of_eq _ _ moved in
    let lot_parts = parts_of_eq _ _ changed in eq_of_parts _ _ (omega int_laws)

count_stays :
    (position : ℕ) (stacks : Holdings (List Lot)) (key : HolderOutcome) (lots : List Lot) (x : ℤ)
    → key.1 ≢ position
    → x ≡ pos (held_in position stacks)
    → x ≡ pos (held_in position (put stacks key lots))
count_stays position stacks key lots x other counted =
    let totals = held_in-put position stacks key lots in
    elim (Bool-cases (key.1 == position)) [
      | inl same ↦ absurd (other (==→eq _ _ same))
      | inr apart ↦ let kept = rw apart at totals in rw counted (ap pos (omega (arith, kept)))
    ]

put-IsCounted :
    (n : ℕ) (s : Replaying) (key : HolderOutcome) (lots : List Lot) (d y : ℤ)
    → IsCounted n s
    → get_elem? s.q key.1 ≡ some y
    → pos (lots_left lots) ≡ pos (lots_left (stack_of s.stacks key)) +ℤ d
    → IsCounted n (record { q = set s.q key.1 (y +ℤ d); stacks = put s.stacks key lots })
put-IsCounted n s key lots d y counted found changed = record {
  as_long = rw (length-set s.q key.1 (y +ℤ d)) counted.as_long;
  counts = λ p {x} at_p. elim (get_elem?-set s.q key.1 p found at_p) [
    | inl (here, moved, was) ↦
        subst (λ p'. x ≡ pos (held_in p' (put s.stacks key lots))) here
          (count_moves s.stacks key lots y x d (counted.counts key.1 found) moved changed)
    | inr (other, was) ↦ count_stays p s.stacks key lots x other (counted.counts p was)
  ];
}

replay_trade-IsCounted :
    (n : ℕ) (s : Replaying) (trade : VoidTrade) {after : Replaying}
    → IsCounted n s
    → replay_trade s trade ≡ ok after
    → IsCounted n after
unfolding replay_trade
replay_trade-IsCounted n s trade counted h =
    let key : HolderOutcome = (trade.user_id, trade.position) in
    let (lots, took, h₁) =
      >>=-eq-ok (lots_after s.q trade trade.side (stack_of s.stacks key)) _ h in
    let d = change_of_q trade.side trade.quantity in
    let (q, moved, h₂) = >>=-eq-ok (moved_at s.q trade.position d) _ h₁ in
    let (y, found, q_eq) = moved_at-ok s.q trade.position d moved in
    let changed = lots_after-left s.q trade trade.side (stack_of s.stacks key) took in
    subst (IsCounted n) (ok_injective h₂) (
      subst (λ q'. IsCounted n (record { q = q'; stacks = put s.stacks key lots })) (sym q_eq)
        (put-IsCounted n s key lots d y counted found changed))

replay_trades-IsCounted :
    (n : ℕ) (s : Replaying) (trades : List VoidTrade) {after : Replaying}
    → IsCounted n s
    → replay_trades s trades ≡ ok after
    → IsCounted n after
unfolding replay_trades
replay_trades-IsCounted n s [] counted h = subst (IsCounted n) (ok_injective h) counted
replay_trades-IsCounted n s (trade ∷ rest) counted h =
    let (next, stepped, h₁) = >>=-eq-ok (replay_trade s trade) _ h in
    replay_trades-IsCounted n next rest (replay_trade-IsCounted n s trade counted stepped) h₁

shares_at-shares_left_of :
    (position : ℕ) (stacks : Holdings (List Lot))
    → shares_at position (shares_left_of stacks) ≡ held_in position stacks
unfolding shares_at shares_left_of held_in lots_left
shares_at-shares_left_of position [] = refl
shares_at-shares_left_of position ((key, []) ∷ rest) =
    let later = shares_at-shares_left_of position rest in ground arith
shares_at-shares_left_of position ((key, lot ∷ lots) ∷ rest) =
    let later = shares_at-shares_left_of position rest in omega arith

get_elem?-replicate : (n p : ℕ) {v x : ℤ} → get_elem? (replicate n v) p ≡ some x → x ≡ v
get_elem?-replicate zero p h = absurd cc
get_elem?-replicate (suc n) zero h = cc
get_elem?-replicate (suc n) (suc p) h = get_elem?-replicate n p h

get_elem?-some : (q : List ℤ) (p : ℕ) → p < length q → (x : ℤ) × (get_elem? q p ≡ some x)
get_elem?-some [] p h = absurd (omega arith)
get_elem?-some (x ∷ q) zero h = (x, refl)
get_elem?-some (x ∷ q) (suc p) h = get_elem?-some q p (omega arith)

start-IsCounted : (n : ℕ) → IsCounted n (record { q = replicate n (pos 0); stacks = [] })
unfolding held_in
start-IsCounted n = record {
  as_long = length-replicate n (pos 0);
  counts = λ p {x} at_p. get_elem?-replicate n p at_p;
}

-- When the replay returns, its `q` holds for each outcome the sum of every holder's shares left in the
-- lots of that outcome.
pub lot_replay_of-shares :
    (e : Engine) (trades : List VoidTrade) (n : ℕ) (b : ℤ) {r : LotReplay}
    → lot_replay_of e trades n b ≡ ok r
    → (p : ℕ) → p < n
    → get_elem? r.q p ≡ some (pos (shares_at p r.shares_left))
unfolding lot_replay_of
lot_replay_of-shares e trades n b h p below =
    let (s, replayed, h₁) = >>=-eq-ok (replay_trades _ trades) _ h in
    let (owed, _, h₂) = >>=-eq-ok (owed_of e s.stacks b) _ h₁ in
    let counted = replay_trades-IsCounted n _ trades (start-IsCounted n) replayed in
    let (x, found) = get_elem?-some s.q p (omega (arith, counted.as_long)) in
    subst (λ (r' : LotReplay). get_elem? r'.q p ≡ some (pos (shares_at p r'.shares_left)))
      (ok_injective h₂)
      (rw (found, shares_at-shares_left_of p s.stacks) (ap some (counted.counts p found)))
