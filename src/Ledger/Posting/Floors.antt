-- ===== src/Ledger/Posting/Floors.antt =====
-- backend/ledger_service/service/posting.py: the overdraft check of a batch.
use cs.Base.{
  ℕ, Option, none, some, List, [], ◌∷◌, ◌&&◌, if◌then◌else◌, Outcome, ok, ◌>>=◌, ◌>>◌, raise_if,
}
use cs.Base.Int.{ℤ, pos, ◌+ℤ◌, ◌-ℤ◌, ltb_ℤ}
use cs.Base.Dict.{Dict, lookup, insert}
use cs.Base.Decimal.{quantize, is_zero}
use cs.Ledger.Rows.{Account, Tables, LedgerError, insufficient_funds}
use cs.Ledger.Reservations.{balance_of, reserved_of}
use cs.Ledger.Posting.Legs.{Leg, Movement, net_by_account, is_user, user_account_ids_of, add_to_set}

pub record Floor : Type 0 where
  pub balance_before : ℤ
  pub balance : ℤ
  pub reserved : ℤ

abbrev pub or_zero : Option ℤ → ℤ
or_zero none = pos 0
or_zero (some d) = d

-- `drops.get(account_id, ZERO)`
abbrev pub drop_of : Dict ℤ → ℕ → ℤ
drop_of drops account_id = or_zero (lookup account_id drops)

-- `(account_id,) = _user_account_ids_of(...)`; any other number of them was refused.
abbrev pub add_drop : Dict ℤ → List ℕ → ℤ → Dict ℤ
add_drop drops [] dropped = drops
add_drop drops (account_id ∷ rest) dropped =
    insert account_id (drop_of drops account_id +ℤ dropped) drops

module _ (account : ℕ → Account) where
  unfoldable pub debited_in : List ℕ → Dict ℤ → List ℕ
  unfolding is_user add_to_set
  debited_in debited [] = debited
  debited_in debited ((account_id, net) ∷ rest) =
      debited_in
        (if ltb_ℤ net (pos 0) && is_user (account account_id).kind
          then add_to_set account_id debited
          else debited)
        rest

  -- `_debited_users_of`
  unfoldable pub debited_users_of : List ℕ → List (Movement × List (Leg ℤ)) → List ℕ
  unfolding debited_in
  debited_users_of debited [] = debited
  debited_users_of debited ((m, legs) ∷ rest) =
      debited_users_of (debited_in debited (net_by_account ◌+ℤ◌ legs)) rest

  -- `_drops_by_account`
  unfoldable pub drops_by_account : Dict ℤ → List (Movement × List (Leg ℤ)) → Dict ℤ
  drops_by_account drops [] = drops
  drops_by_account drops ((m, legs) ∷ rest) =
      drops_by_account
        (if is_zero m.reservation_drop
          then drops
          else add_drop drops (user_account_ids_of account m.legs) (quantize m.reservation_drop))
        rest

  -- The account's floor before the batch: the batch's drops are added back to what it reserves.
  unfoldable pub opening_floor : Tables → Dict ℤ → ℕ → Floor
  opening_floor s drops account_id =
      let balance = balance_of s.entries account_id in
      record {
        balance_before = balance;
        balance = balance;
        reserved =
            reserved_of s.results s.orders (account account_id).owner_id
            +ℤ drop_of drops account_id;
      }

  -- The loop of `_floors_before_batch`
  unfoldable pub floors_for :
      Tables → Dict ℤ → Dict Floor → List ℕ → Outcome LedgerError (Dict Floor)
  unfolding opening_floor
  floors_for s drops floors [] = ok floors
  floors_for s drops floors (account_id ∷ rest) = do
    let floor = opening_floor s drops account_id
    raise_if (ltb_ℤ floor.balance floor.reserved) (
        insufficient_funds (record {
          account_id = account_id;
          balance = floor.balance;
          reserved = floor.reserved;
          required = none;
          shortfall = some (floor.reserved -ℤ floor.balance);
          movement_key = none;
        }))
    floors_for s drops (insert account_id floor floors) rest

  unfoldable pub floors_before_batch :
      Tables → List (Movement × List (Leg ℤ)) → Outcome LedgerError (Dict Floor)
  floors_before_batch s batch =
      floors_for s (drops_by_account [] batch) [] (debited_users_of [] batch)

-- A floor after a movement that nets `net` on its account.
unfoldable pub lowered : Floor → ℤ → Movement → Floor
lowered floor net movement = record floor {
  balance = floor.balance +ℤ net;
  reserved = floor.reserved -ℤ quantize movement.reservation_drop;
}

unfoldable pub check_floor : ℕ → Floor → ℤ → Movement → Outcome LedgerError Floor
unfolding lowered
check_floor account_id floor net movement = do
  let after = lowered floor net movement
  raise_if (ltb_ℤ net (pos 0) && ltb_ℤ after.balance after.reserved) (
      insufficient_funds (record {
        account_id = account_id;
        balance = after.balance_before;
        reserved = after.reserved;
        required = some (after.balance_before -ℤ after.balance);
        shortfall = none;
        movement_key = some movement.idempotency_key;
      }))
  ok after

-- One movement of the walk, account by account.
unfoldable pub walk_nets : Movement → Dict ℤ → Dict Floor → Outcome LedgerError (Dict Floor)
walk_nets movement [] floors = ok floors
walk_nets movement ((account_id, net) ∷ rest) floors = elim (lookup account_id floors) [
  | none ↦ walk_nets movement rest floors
  | some floor ↦
      check_floor account_id floor net movement
      >>= (λ after. walk_nets movement rest (insert account_id after floors))
]

unfoldable pub walk : List (Movement × List (Leg ℤ)) → Dict Floor → Outcome LedgerError (Dict Floor)
walk [] floors = ok floors
walk ((m, legs) ∷ rest) floors =
    walk_nets m (net_by_account ◌+ℤ◌ legs) floors >>= (λ after. walk rest after)

-- `_refuse_overdrafts`
unfoldable pub refuse_overdrafts :
    (ℕ → Account) → Tables → List (Movement × List (Leg ℤ)) → Outcome LedgerError (Dict Floor)
refuse_overdrafts account s batch =
    floors_before_batch account s batch >>= (λ floors. walk batch floors)
