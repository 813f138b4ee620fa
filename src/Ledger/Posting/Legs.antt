-- ===== src/Ledger/Posting/Legs.antt =====
-- backend/ledger_service/service/posting.py: legs and movements, before any table is read.
use cs.Base.{
  ℕ, Bool, true, false, not, none, some, List, [], ◌∷◌, ◌++◌, map, length, any, ltb, ◌||◌,
  if◌then◌else◌, Outcome, ◌>>◌, raise_if,
}
use cs.Base.Int.{ℤ, pos, ◌+ℤ◌, eqb_ℤ}
use cs.Base.Text.{Text, leb_text}
use cs.Base.Dict.{Dict, lookup, insert, member}
use cs.Base.Decimal.{Decimal, add_decimal, is_zero, is_negative, quantize}
use cs.Ledger.Rows.{
  Account, AccountKind, user, platform, market_pool, TransactionKind, TransactionContext,
  LedgerError, unbalanced_transaction,
}

-- `account_id` is the row that `leg.account` is.
pub record Leg (A : Type 0) : Type 0 where
  pub account_id : ℕ
  pub amount : A

pub record Movement : Type 0 where
  pub idempotency_key : Text
  pub kind : TransactionKind
  pub legs : List (Leg Decimal)
  pub context : TransactionContext
  pub reservation_drop : Decimal

-- `hashlib.sha256`, and the texts that it is given: `kind.value`, and `f"{account.id}:{amount}"`.
pub record Hashing : Type 0 where
  pub sha256 : Text → Text
  pub value_of : TransactionKind → Text
  pub line_of : ℕ → ℤ → Text

unfoldable pub quantized_legs : List (Leg Decimal) → List (Leg ℤ)
quantized_legs [] = []
quantized_legs (leg ∷ rest) =
    record { account_id = leg.account_id; amount = quantize leg.amount } ∷ quantized_legs rest

unfoldable pub sum_legs : List (Leg ℤ) → ℤ
sum_legs [] = pos 0
sum_legs (leg ∷ rest) = leg.amount +ℤ sum_legs rest

unfoldable pub require_balanced : List (Leg ℤ) → Outcome LedgerError Unit
unfolding sum_legs
require_balanced legs = do
  raise_if (ltb (length legs) 2 || any (λ (leg : Leg ℤ). eqb_ℤ leg.amount (pos 0)) legs)
      unbalanced_transaction
  raise_if (not (eqb_ℤ (sum_legs legs) (pos 0))) unbalanced_transaction

insert_text : Text → List Text → List Text
insert_text t [] = t ∷ []
insert_text t (x ∷ xs) = if leb_text t x then t ∷ x ∷ xs else x ∷ insert_text t xs

-- `sorted(...)` of texts
unfoldable pub sort_texts : List Text → List Text
unfolding insert_text
sort_texts [] = []
sort_texts (t ∷ rest) = insert_text t (sort_texts rest)

-- `"|".join(...)`; 124 is the code of the bar.
unfoldable pub join : List Text → Text
join [] = []
join (t ∷ []) = t
join (t ∷ u ∷ rest) = t ++ (124 ∷ join (u ∷ rest))

unfoldable pub fingerprint : Hashing → TransactionKind → List (Leg ℤ) → Text
unfolding sort_texts join
fingerprint hashing kind legs =
    let parts =
      sort_texts (map (λ (leg : Leg ℤ). hashing.line_of leg.account_id leg.amount) legs) in
    hashing.sha256 (join (hashing.value_of kind ∷ parts))

unfoldable pub is_user : AccountKind → Bool
is_user user = true
is_user platform = false
is_user market_pool = false

unfoldable pub add_to_set : ℕ → List ℕ → List ℕ
unfolding member
add_to_set x xs = if member x xs then xs else xs ++ (x ∷ [])

module _ {A : Type 0} where
  -- `{leg.account.id for leg in legs}`
  unfoldable pub account_ids_of : List (Leg A) → List ℕ
  account_ids_of [] = []
  account_ids_of (leg ∷ rest) = leg.account_id ∷ account_ids_of rest

  -- `running + leg.amount`
  unfoldable pub running_of : (A → A → A) → Dict A → Leg A → A
  running_of add netted leg = elim (lookup leg.account_id netted) [
    | none ↦ leg.amount
    | some r ↦ add r leg.amount
  ]

  unfoldable pub net_from : (A → A → A) → List (Leg A) → Dict A → Dict A
  unfolding running_of
  net_from add [] netted = netted
  net_from add (leg ∷ rest) netted =
      net_from add rest (insert leg.account_id (running_of add netted leg) netted)

  -- `_net_by_account`
  unfoldable pub net_by_account : (A → A → A) → List (Leg A) → Dict A
  unfolding net_from
  net_by_account add legs = net_from add legs []

  -- `_user_account_ids_of`
  unfoldable pub users_from : (ℕ → Account) → List ℕ → List (Leg A) → List ℕ
  unfolding is_user add_to_set
  users_from account found [] = found
  users_from account found (leg ∷ rest) =
      users_from account
        (if is_user (account leg.account_id).kind then add_to_set leg.account_id found else found)
        rest

  unfoldable pub user_account_ids_of : (ℕ → Account) → List (Leg A) → List ℕ
  unfolding users_from
  user_account_ids_of account legs = users_from account [] legs

abbrev pub is_malformed_for : Movement → List ℕ → Bool
is_malformed_for movement [] = true
is_malformed_for movement (account_id ∷ []) =
    elim (lookup account_id (net_by_account add_decimal movement.legs)) [
      | none ↦ true
      | some net ↦ not (is_negative net)
    ]
is_malformed_for movement (a ∷ b ∷ rest) = true

-- `_has_malformed_drop`
unfoldable pub has_malformed_drop : (ℕ → Account) → Movement → Bool
has_malformed_drop account movement =
    if is_zero movement.reservation_drop
    then false
    else is_negative movement.reservation_drop
      || is_malformed_for movement (user_account_ids_of account movement.legs)
