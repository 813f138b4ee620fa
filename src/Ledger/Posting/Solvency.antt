-- ===== src/Ledger/Posting/Solvency.antt =====
-- The overdraft check of backend/ledger_service/service/posting.py: the floor that the walk keeps for an
-- account is its balance and its reservation after each movement.
use cs.Base.{
  ℕ, ◌≡◌, refl, true, false, some, List, [], ◌∷◌, ◌==◌, ◌&&◌, any, if◌then◌else◌, arith, Bool-cases,
  Option-cases, inl, inr, ==→eq, ==-refl, sym, ◌∙◌, ok, raise_if, raise_if-ok, >>=-eq-ok,
  ok_injective, some_injective, none_not_some, ◌⊎◌,
}
use cs.Base.Int.{ℤ, pos, ◌+ℤ◌, ◌-ℤ◌, ◌≤ℤ◌, ltb_ℤ, int_laws}
use cs.Base.Dict.{Dict, lookup, insert, lookup-insert, member}
use cs.Base.Decimal.{quantize}
use cs.Ledger.Rows.{Account, Tables}
use cs.Ledger.Reservations.{balance_of, reserved_of}
use cs.Ledger.Posting.Legs.{Movement, has_malformed_drop, quantized_legs}
use cs.Ledger.Posting.Floors.{
  Floor, lowered, check_floor, walk_nets, walk, opening_floor, floors_for, drop_of,
}
use cs.Ledger.Posting.Nets.{dict_sum, taken, net_of_batch, taken_of_batch, dict_sum-net_by_account}
use cs.Ledger.Posting.Drops.{malformed_drop, parts_of_or}
use cs.Ledger.Posting.{batch_legs}

-- The dict holds a floor of `j` with this balance, and this reservation inside it.
pub record IsFloor (floors : Dict Floor) (j : ℕ) (balance reserved : ℤ) : Type 0 where
  pub floor : Floor
  pub found : lookup j floors ≡ some floor
  pub balance_eq : floor.balance ≡ balance
  pub reserved_eq : floor.reserved ≡ reserved
  pub covered : reserved ≤ℤ balance

check_floor-eq :
    (k : ℕ) (floor : Floor) (net : ℤ) (m : Movement) {after : Floor}
    → check_floor k floor net m ≡ ok after
    → (after ≡ lowered floor net m)
      × ((ltb_ℤ net (pos 0) && ltb_ℤ (lowered floor net m).balance (lowered floor net m).reserved)
          ≡ false)
unfolding check_floor raise_if
check_floor-eq k floor net m h = ground arith

recast :
    {floors : Dict Floor} {j : ℕ} (b b' r r' : ℤ)
    → b ≡ b'
    → r ≡ r'
    → IsFloor floors j b r
    → IsFloor floors j b' r'
recast b b' r r' hb hr kept = record {
  floor = kept.floor;
  found = kept.found;
  balance_eq = kept.balance_eq ∙ hb;
  reserved_eq = kept.reserved_eq ∙ hr;
  covered = rw (sym hb, sym hr) kept.covered;
}

lowered_covers :
    (b r net q : ℤ)
    → pos 0 ≤ℤ q
    → r ≤ℤ b
    → (ltb_ℤ net (pos 0) && ltb_ℤ (b +ℤ net) (r -ℤ q)) ≡ false
    → r -ℤ q ≤ℤ b +ℤ net
lowered_covers b r net q nonneg before checked = grind int_laws

module _ (m : Movement) (nonneg : pos 0 ≤ℤ quantize m.reservation_drop) (j : ℕ) where
  at_own :
      (net : ℤ) (floors : Dict Floor) (floor : Floor) (balance reserved : ℤ) {after : Floor}
      → lookup j floors ≡ some floor
      → check_floor j floor net m ≡ ok after
      → IsFloor floors j balance reserved
      → IsFloor (insert j after floors) j (balance +ℤ net) (reserved -ℤ quantize m.reservation_drop)
  unfolding lowered
  at_own net floors floor balance reserved {after} at_j checked before =
      let (eq, passed) = check_floor-eq j floor net m checked in
      let same : before.floor ≡ floor = some_injective (sym before.found ∙ at_j) in
      let b_eq : floor.balance ≡ balance = rw (sym same) before.balance_eq in
      let r_eq : floor.reserved ≡ reserved = rw (sym same) before.reserved_eq in
      record {
        floor = after;
        found = lookup-insert j j after floors ∙ rw (==-refl j) refl;
        balance_eq = rw (eq, b_eq) refl;
        reserved_eq = rw (eq, r_eq) refl;
        covered =
            lowered_covers balance reserved net _ nonneg before.covered (rw (b_eq, r_eq) at passed);
      }

  at_other :
      (k : ℕ) (floors : Dict Floor) (balance reserved : ℤ) (after : Floor)
      → (k == j) ≡ false
      → IsFloor floors j balance reserved
      → IsFloor (insert k after floors) j balance reserved
  at_other k floors balance reserved after different before = record {
    floor = before.floor;
    found = lookup-insert j k after floors ∙ rw different before.found;
    balance_eq = before.balance_eq;
    reserved_eq = before.reserved_eq;
    covered = before.covered;
  }

  walk_one :
      (k : ℕ) (net : ℤ) (floors : Dict Floor) (floor : Floor) (balance reserved : ℤ) {after : Floor}
      → lookup k floors ≡ some floor
      → check_floor k floor net m ≡ ok after
      → IsFloor floors j balance reserved
      → IsFloor
          (insert k after floors)
          j
          (balance +ℤ (if k == j then net else pos 0))
          (reserved -ℤ (if k == j then quantize m.reservation_drop else pos 0))
  walk_one k net floors floor balance reserved {after} at_k checked before =
      elim (Bool-cases (k == j)) [
        | inl e ↦
            let same = ==→eq k j e in
            rw (e, same)
              (at_own net floors floor balance reserved (rw same at at_k) (rw same at checked)
                before)
        | inr e ↦ rw e (
            recast balance _ reserved _ (grind int_laws) (grind int_laws)
              (at_other k floors balance reserved after e before))
      ]

  walk_nets-IsFloor :
      (nets : Dict ℤ) (floors : Dict Floor) (balance reserved : ℤ) {after : Dict Floor}
      → IsFloor floors j balance reserved
      → walk_nets m nets floors ≡ ok after
      → IsFloor after j
          (balance +ℤ dict_sum j nets)
          (reserved -ℤ taken j (quantize m.reservation_drop) nets)
  unfolding walk_nets dict_sum taken
  walk_nets-IsFloor [] floors balance reserved before h =
      rw (sym (ok_injective h))
        (recast balance _ reserved _ (grind int_laws) (grind int_laws) before)
  walk_nets-IsFloor ((k, net) ∷ rest) floors balance reserved before h =
      elim (Option-cases (lookup k floors)) [
        | inl missing ↦ elim (Bool-cases (k == j)) [
          | inl e ↦
              let same = ==→eq k j e in none_not_some (sym (rw same at missing) ∙ before.found)
          | inr e ↦ rw e (
              recast _ _ _ _ (grind int_laws) (grind int_laws) (
                walk_nets-IsFloor rest floors balance reserved before
                  (rw (missing, walk_nets) at h)))
        ]
        | inr (floor, at_k) ↦
            let (after, checked, later) =
              >>=-eq-ok (check_floor k floor net m) _ (rw (at_k, walk_nets) at h) in
            recast _ _ _ _ (grind int_laws) (grind int_laws) (
              walk_nets-IsFloor rest (insert k after floors) _ _
                (walk_one k net floors floor balance reserved at_k checked before) later)
      ]

pub walk-IsFloor :
    (account : ℕ → Account) (j : ℕ) (movements : List Movement) (floors : Dict Floor)
    (balance reserved : ℤ) {after : Dict Floor}
    → any (has_malformed_drop account) movements ≡ false
    → IsFloor floors j balance reserved
    → walk (batch_legs movements) floors ≡ ok after
    → IsFloor after j
        (balance +ℤ net_of_batch j (batch_legs movements))
        (reserved -ℤ taken_of_batch j (batch_legs movements))
unfolding walk net_of_batch taken_of_batch batch_legs
walk-IsFloor account j [] floors balance reserved formed before h =
    rw (sym (ok_injective h)) (recast balance _ reserved _ (grind int_laws) (grind int_laws) before)
walk-IsFloor account j (m ∷ rest) floors balance reserved formed before h =
    let (one, others) = parts_of_or _ _ formed in
    let (after, walked, later) = >>=-eq-ok (walk_nets m _ floors) _ h in
    let moved =
      walk_nets-IsFloor m (malformed_drop account m one) j _ floors balance reserved before
        walked in
    let netted = dict_sum-net_by_account j (quantized_legs m.legs) in
    recast _ _ _ _ (grind (int_laws, netted)) (grind int_laws)
      (walk-IsFloor account j rest after _ _ others moved later)

-- The loop gives each listed account its floor, whatever the dict held of it.
module _ (account : ℕ → Account) (s : Tables) (drops : Dict ℤ) (j : ℕ) where
  abbrev pub Starts : Dict Floor → Type 0
  Starts floors =
      IsFloor floors j (balance_of s.entries j)
        (reserved_of s.results s.orders (account j).owner_id +ℤ drop_of drops j)

  Starts-here :
      (floors : Dict Floor)
      → ltb_ℤ (opening_floor account s drops j).balance (opening_floor account s drops j).reserved
        ≡ false
      → Starts (insert j (opening_floor account s drops j) floors)
  unfolding opening_floor
  Starts-here floors passed = record {
    floor = opening_floor account s drops j;
    found = lookup-insert j j _ floors ∙ rw (==-refl j) refl;
    balance_eq = refl;
    reserved_eq = refl;
    covered = ground (arith, passed);
  }

  Starts-later :
      (k : ℕ) (floors : Dict Floor) (floor : Floor)
      → (k == j) ≡ false
      → Starts floors
      → Starts (insert k floor floors)
  Starts-later k floors floor different started = record {
    floor = started.floor;
    found = lookup-insert j k floor floors ∙ rw different started.found;
    balance_eq = started.balance_eq;
    reserved_eq = started.reserved_eq;
    covered = started.covered;
  }

  pub floors_for-IsFloor :
      (ids : List ℕ) (floors : Dict Floor) {after : Dict Floor}
      → (Starts floors) ⊎ (member j ids ≡ true)
      → floors_for account s drops floors ids ≡ ok after
      → Starts after
  unfolding floors_for member
  floors_for-IsFloor [] floors (inl started) h = rw (sym (ok_injective h)) started
  floors_for-IsFloor [] floors (inr listed) h = absurd cc
  floors_for-IsFloor (k ∷ rest) floors start h =
      let (u, checked, later) = >>=-eq-ok (raise_if _ _) _ h in
      let passed = raise_if-ok _ _ checked in
      elim (Bool-cases (k == j)) [
        | inl e ↦
            let same = ==→eq k j e in
            floors_for-IsFloor rest _ (inl (rw same (Starts-here floors (rw same at passed)))) later
        | inr e ↦
            floors_for-IsFloor rest _
              (elim start [
                | inl started ↦ inl (Starts-later k floors _ e started)
                | inr listed ↦ inr (ground (arith, listed, e))
              ])
              later
      ]
