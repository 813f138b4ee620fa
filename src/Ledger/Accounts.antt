-- ===== src/Ledger/Accounts.antt =====
-- backend/ledger_service/service/accounts.py and service/grants.py. An account has no state but its row,
-- and the unique index keeps one row for a kind and an owner, so `ensure` is the row's id.
pub mod Grants
pub mod Ids
use cs.Base.{
  ℕ, ◌≡◌, Bool, Option, none, some, List, [], ◌∷◌, ◌++◌, Outcome, ok, err, ◌>>=◌, ◌>>◌, true,
}
use cs.Base.Int.{ℤ, pos, neg}
use cs.Base.Text.{Text}
use cs.Base.Decimal.{Decimal}
use cs.Ledger.Rows.{
  Account, AccountKind, user, platform, market_pool, Tables, LedgerError, signup_grant, granted,
  Transaction,
}
use cs.Ledger.Posting.Legs.{Leg, Movement, Hashing}
use cs.Ledger.Posting.{post, find_by_idempotency_key}

-- The accounts' rows by id, the id that each row has, the digests, and `str` of a UUID and of a
-- counter.
pub record World : Type 0 where
  pub account : ℕ → Account
  pub id_of : AccountKind → ℕ → ℕ
  pub hashing : Hashing
  pub str_uuid : ℕ → Text
  pub str_int : ℕ → Text

-- The unique index on the accounts, and one text for each UUID
pub record IsWorld (world : World) : Type 0 where
  pub account_at :
      (kind : AccountKind) (owner : ℕ)
      → world.account (world.id_of kind owner) ≡ record { kind = kind; owner_id = owner }
  pub str_injective : (a b : ℕ) → world.str_uuid a ≡ world.str_uuid b → a ≡ b

-- `PLATFORM_OWNER_ID`
abbrev pub platform_owner_id : ℕ
platform_owner_id = 0

-- `ensure_platform`
abbrev pub platform_id : World → ℕ
platform_id world = world.id_of platform platform_owner_id

-- The amount at a place after the point, and its negative
abbrev pub negated : Decimal → Decimal
negated amount = record amount { coefficient = neg amount.coefficient }

-- Credits from one account to another, with no reservation to lower
unfoldable pub transfer : ℕ → ℕ → Decimal → List (Leg Decimal)
transfer source target amount =
    record { account_id = source; amount = negated amount }
    ∷ record { account_id = target; amount = amount }
    ∷ []

abbrev pub no_drop : Decimal
no_drop = record { coefficient = pos 0; places = 0 }

-- "signup-grant:"
abbrev signup_grant_prefix : Text
signup_grant_prefix = 115 ∷ 105 ∷ 103 ∷ 110 ∷ 117 ∷ 112 ∷ 45 ∷ 103 ∷ 114 ∷ 97 ∷ 110 ∷ 116 ∷ 58 ∷ []

unfoldable pub grant_key : World → ℕ → Text
grant_key world user_id = signup_grant_prefix ++ world.str_uuid user_id

unfoldable pub grant_of : World → Decimal → ℕ → Movement
unfolding grant_key transfer
grant_of world amount user_id = record {
  idempotency_key = grant_key world user_id;
  kind = signup_grant;
  legs = transfer (platform_id world) (world.id_of user user_id) amount;
  context = granted user_id;
  reservation_drop = no_drop;
}

-- `ensure_granted`: the user's account, and the tables with the grant that it made
unfoldable pub ensure_granted :
    World → (ℕ → ℕ) → Bool → ℕ → Decimal → ℕ → Tables → Outcome LedgerError (ℕ × Tables)
unfolding grant_of
ensure_granted world new_id caller_pending now starting_credits user_id s =
    elim (find_by_idempotency_key s.transactions (grant_key world user_id)) [
      | some existing ↦ ok (world.id_of user user_id, s)
      | none ↦
          post world.hashing world.account new_id caller_pending now
            (grant_of world starting_credits user_id) s
          >>= (λ posted. ok (world.id_of user user_id, posted.1))
    ]
