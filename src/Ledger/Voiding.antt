-- ===== src/Ledger/Voiding.antt =====
-- backend/ledger_service/core/voiding.py and core/state_versions.py: a void's refunds, from the lots
-- that the market's trades leave, the guard on the replay, and the cap on what is paid.
pub mod Cut
pub mod Shares
pub mod Guard
pub mod Refunds
pub mod Cap
use cs.Base.{
  ℕ, zero, suc, ◌+◌, ◌-◌, ◌*◌, Bool, true, false, not, Option, none, some, List, [], ◌∷◌, map,
  length, get_elem?, set, replicate, ltb, leb, ◌==◌, ◌&&◌, ◌||◌, if◌then◌else◌, Outcome, ok, err,
  ◌>>=◌, ◌>>◌, raise_if, min,
}
use cs.Base.Int.{ℤ, pos, pos_part, ◌+ℤ◌, ◌-ℤ◌, ◌*ℤ◌, neg, ltb_ℤ, eqb_ℤ, floor_div}
use cs.Ledger.Lmsr.{Engine, PricingError, proceeds_below_tick}
use cs.Ledger.Pricing.{Side, buy, sell, TradeCost, trade_cost_of}

-- `(user_id, outcome position)`
abbrev pub HolderOutcome : Type 0
HolderOutcome = ℕ × ℕ

-- A dict in insertion order. Its keys are written by `put` alone, so none comes twice.
abbrev pub Holdings : Type 0 → Type 0
Holdings A = List (HolderOutcome × A)

unfoldable pub key_eq : HolderOutcome → HolderOutcome → Bool
key_eq (user, position) (user', position') = user == user' && position == position'

-- `setdefault(key, [])`, read
unfoldable pub stack_of {ℓ} : {A : Type ℓ} → List (HolderOutcome × List A) → HolderOutcome → List A
unfolding key_eq
stack_of [] key = []
stack_of ((k, lots) ∷ rest) key = if key_eq k key then lots else stack_of rest key

unfoldable pub put {ℓ} :
    {A : Type ℓ} → List (HolderOutcome × A) → HolderOutcome → A → List (HolderOutcome × A)
unfolding key_eq
put [] key value = (key, value) ∷ []
put ((k, v) ∷ rest) key value =
    if key_eq k key then (k, value) ∷ rest else (k, v) ∷ put rest key value

-- Quantities and `total` are in ticks, the four places of their columns.
pub record VoidTrade : Type 0 where
  pub user_id : ℕ
  pub position : ℕ
  pub side : Side
  pub quantity : ℕ
  pub total : ℕ
  pub state_version : ℕ

pub record Lot : Type 0 where
  pub bought : ℕ
  pub charged : ℕ
  pub q_before : List ℤ
  pub left : ℕ

pub record LotReplay : Type 0 where
  pub owed : Holdings ℕ
  pub shares_left : Holdings ℕ
  pub q : List ℤ
  pub traders : List ℕ

pub data VoidError : Type 0 where
  sale_exceeds_lots no_such_position versions_not_consecutive ends_elsewhere shares_disagree :
      VoidError
  q_disagrees division_undefined : VoidError
  not_priced : PricingError → VoidError

-- The lots with the newest first. A lot that keeps shares has met the whole sale, which ends the loop.
unfoldable pub sell_newest_first : List Lot → ℕ → Outcome VoidError (List Lot)
sell_newest_first lots zero = ok lots
sell_newest_first [] (suc to_sell) = err sale_exceeds_lots
sell_newest_first (newest ∷ rest) (suc to_sell) =
    let taken = min newest.left (suc to_sell) in
    let dropped = sell_newest_first rest (suc to_sell - taken) in
    if newest.left - taken == 0
    then dropped
    else ok (record newest { left = newest.left - taken } ∷ rest)

-- `q[position] += change`
unfoldable pub moved_at : List ℤ → ℕ → ℤ → Outcome VoidError (List ℤ)
moved_at q position change = elim (get_elem? q position) [
  | none ↦ err no_such_position
  | some x ↦ ok (set q position (x +ℤ change))
]

-- What the loop over the trades keeps: `q` and the stacks.
pub record Replaying : Type 0 where
  pub q : List ℤ
  pub stacks : Holdings (List Lot)

unfoldable pub lots_after : List ℤ → VoidTrade → Side → List Lot → Outcome VoidError (List Lot)
lots_after q trade buy lots = ok (
    record { bought = trade.quantity; charged = trade.total; q_before = q; left = trade.quantity }
    ∷ lots)
lots_after q trade sell lots = sell_newest_first lots trade.quantity

unfoldable pub change_of_q : Side → ℕ → ℤ
change_of_q buy quantity = pos quantity
change_of_q sell quantity = neg (pos quantity)

unfoldable pub replay_trade : Replaying → VoidTrade → Outcome VoidError Replaying
replay_trade state trade = do
  let key : HolderOutcome = (trade.user_id, trade.position)
  lots ← lots_after state.q trade trade.side (stack_of state.stacks key)
  q ← moved_at state.q trade.position (change_of_q trade.side trade.quantity)
  ok (record { q = q; stacks = put state.stacks key lots })

unfoldable pub replay_trades : Replaying → List VoidTrade → Outcome VoidError Replaying
replay_trades state [] = ok state
replay_trades state (trade ∷ rest) =
    replay_trade state trade >>= (λ after. replay_trades after rest)

unfoldable pub lots_left : List Lot → ℕ
lots_left [] = 0
lots_left (lot ∷ lots) = lot.left + lots_left lots

-- The stacks that still hold a lot, each with the shares left in it.
unfoldable pub shares_left_of : Holdings (List Lot) → Holdings ℕ
unfolding lots_left
shares_left_of [] = []
shares_left_of ((key, []) ∷ rest) = shares_left_of rest
shares_left_of ((key, lot ∷ lots) ∷ rest) = (key, lots_left (lot ∷ lots)) ∷ shares_left_of rest

member : ℕ → List ℕ → Bool
member x [] = false
member x (y ∷ ys) = x == y || member x ys

unfoldable pub traders_of : List VoidTrade → List ℕ
unfolding member
traders_of [] = []
traders_of (trade ∷ rest) =
    let others = traders_of rest in
    if member trade.user_id others then others else trade.user_id ∷ others

-- A sale's price, which is above zero, or nothing where it floors to nothing.
unfoldable pub sale_price : Outcome PricingError TradeCost → Outcome VoidError ℕ
sale_price (ok sale) = ok (pos_part sale.magnitude)
sale_price (err proceeds_below_tick) = ok 0
sale_price (err other) = err (not_priced other)

module _ (e : Engine) where
  unfoldable pub refund_of : Lot → ℕ → ℤ → Outcome VoidError ℕ
  refund_of lot position b = if lot.left == lot.bought then ok lot.charged else (do
    top ← moved_at lot.q_before position (pos lot.left)
    sale_price (trade_cost_of e top b position sell lot.left))

  unfoldable pub refunds_of : List Lot → ℕ → ℤ → Outcome VoidError ℕ
  refunds_of [] position b = ok 0
  refunds_of (lot ∷ lots) position b = do
    refund ← refund_of lot position b
    others ← refunds_of lots position b
    ok (refund + others)

  unfoldable pub owed_of : Holdings (List Lot) → ℤ → Outcome VoidError (Holdings ℕ)
  owed_of [] b = ok []
  owed_of ((key, []) ∷ rest) b = owed_of rest b
  owed_of ((key, lot ∷ lots) ∷ rest) b = do
    owed ← refunds_of (lot ∷ lots) key.1 b
    others ← owed_of rest b
    ok ((key, owed) ∷ others)

  unfoldable pub lot_replay_of : List VoidTrade → ℕ → ℤ → Outcome VoidError LotReplay
  lot_replay_of trades outcome_count b = do
    state ← replay_trades (record { q = replicate outcome_count (pos 0); stacks = [] }) trades
    owed ← owed_of state.stacks b
    ok (record {
      owed = owed;
      shares_left = shares_left_of state.stacks;
      q = state.q;
      traders = traders_of trades;
    })

unfoldable pub refuse_if_versions_not_from : ℕ → List ℕ → Outcome VoidError Unit
refuse_if_versions_not_from expected [] = ok tt
refuse_if_versions_not_from expected (version ∷ rest) =
    raise_if (not (version == expected)) versions_not_consecutive
    >> refuse_if_versions_not_from (suc expected) rest

unfoldable pub refuse_if_versions_not_consecutive : List ℕ → Outcome VoidError Unit
refuse_if_versions_not_consecutive versions = refuse_if_versions_not_from 1 versions

-- `versions[-1] if versions else 0`
unfoldable pub last_version : ℕ → List ℕ → ℕ
last_version last [] = last
last_version last (version ∷ rest) = last_version version rest

unfoldable pub quantity_at : Holdings ℕ → HolderOutcome → Option ℕ
quantity_at [] key = none
quantity_at ((k, n) ∷ rest) key = if key_eq k key then some n else quantity_at rest key

-- Every entry of the one dict is in the other.
unfoldable pub is_within : Holdings ℕ → Holdings ℕ → Bool
is_within [] whole = true
is_within ((key, n) ∷ rest) whole =
    elim (quantity_at whole key) [ none ↦ false | some m ↦ n == m ] && is_within rest whole

unfoldable pub held_of : Holdings ℕ → Holdings ℕ
held_of [] = []
held_of ((key, n) ∷ rest) = if n == 0 then held_of rest else (key, n) ∷ held_of rest

unfoldable pub same_q : List ℤ → List ℤ → Bool
same_q [] [] = true
same_q (x ∷ xs) (y ∷ ys) = eqb_ℤ x y && same_q xs ys
same_q [] (y ∷ ys) = false
same_q (x ∷ xs) [] = false

unfoldable pub refuse_if_replay_disagrees :
    LotReplay → List VoidTrade → Holdings ℕ → List ℤ → ℕ → Outcome VoidError Unit
refuse_if_replay_disagrees replay trades positions q state_version = do
  let versions = map (λ (trade : VoidTrade). trade.state_version) trades
  refuse_if_versions_not_consecutive versions
  raise_if (not (last_version 0 versions == state_version)) ends_elsewhere
  let held = held_of positions
  raise_if (not (is_within held replay.shares_left && is_within replay.shares_left held))
      shares_disagree
  raise_if (not (same_q q replay.q)) q_disagrees
