-- ===== src/Ledger/Tests/Rows.antt =====
-- A few rows of the ledger: a user with credits, an order and shares, a market with its pool, and calls on
-- them.
use cs.Base.{
  ℕ, ◌+◌, ◌*◌, ◌/◌, ◌%◌, ◌≡◌, refl, true, false, none, some, List, [], ◌∷◌, ◌==◌, if◌then◌else◌,
  Outcome, ok, err, is_ok, arith, raise_if,
}
use cs.Base.Int.{ℤ, pos, negsuc, ◌+ℤ◌, ◌-ℤ◌, ◌*ℤ◌, neg}
use cs.Base.Text.{text_eq, leb_text}
use cs.Base.Dict.{lookup, insert, member}
use cs.Base.Decimal.{of_ticks, quantize, add_decimal, half_up}
use cs.Ledger.Pricing.{buy, is_buy}
use cs.Ledger.Rows.{
  AccountKind, user, platform, market_pool, trade_buy, Transaction, Entry, Order, opened, Tables,
  Book, no_context,
}
use cs.Ledger.Reservations.{balance_of, has_result, held_credits, is_live, is_open, reserved_of}
use cs.Ledger.Posting.Legs.{
  Movement, has_malformed_drop, net_by_account, account_ids_of, add_to_set, fingerprint, is_user,
  join, net_from, quantized_legs, require_balanced, running_of, sort_texts, sum_legs,
  user_account_ids_of, users_from,
}
use cs.Ledger.Posting.Floors.{
  refuse_overdrafts, floors_before_batch, floors_for, debited_users_of, check_floor, debited_in,
  drops_by_account, lowered, opening_floor, walk, walk_nets,
}
use cs.Ledger.Posting.{
  post_all, post, refuse_if_malformed_batch, require_all_balanced, batch_legs, any_key_taken,
  all_accounts_of, any_key_missing, appended, built, entries_of, find_by_idempotency_key,
  has_repeated_key, is_repeated, replay, replay_all, replay_batch, stamp_after_newest,
  transaction_of,
}
use cs.Ledger.Accounts.{World, IsWorld, no_drop, ensure_granted, grant_of, grant_key, transfer}
use cs.Ledger.Books.{
  MarketTerms, finite, ensure_open, open_book, opened_book, seed_of, market_open_key, figure_of,
  is_positive_finite, refuse_unpriceable, find_book,
}
use cs.Ledger.Settlement.{
  SettlementResult, settle_book, approved_text, settle_winner, winner_of, listed_in, list_winners,
  insert_winner, total_of_winners, result_of, recorded, movements_of, payouts_of, payout_of,
  payout_key, residue_movements, residue_of,
}
use cs.Ledger.Cancellation.{
  Cancellation, cancel, cancel_locked, get_order_market, find_order, reaches, refuse_if_ended,
  order_view_of, cancelled_order, write_order, admin_entries_of,
}
use cs.Ledger.Tests.{whole_ticks}

abbrev kind_code : AccountKind → ℕ
kind_code user = 0
kind_code platform = 1
kind_code market_pool = 2

abbrev kind_at : ℕ → AccountKind
kind_at n = if n == 0 then user else if n == 1 then platform else market_pool

abbrev pub small_world : World
small_world = record {
  account = λ id. record { kind = kind_at (id % 3); owner_id = id / 3 };
  id_of = λ kind owner. 3 * owner + kind_code kind;
  hashing = record { sha256 = λ t. t; value_of = λ kind. []; line_of = λ id n. id ∷ [] };
  str_uuid = λ id. id ∷ [];
  str_int = λ n. n ∷ [];
}

row_at :
    (kind : AccountKind) (owner : ℕ)
    → small_world.account (small_world.id_of kind owner) ≡ record { kind = kind; owner_id = owner }
row_at user owner =
    let code : (3 * owner + 0) % 3 ≡ 0 = omega arith in
    let whole : (3 * owner + 0) / 3 ≡ owner = omega arith in rw (code, whole) refl
row_at platform owner =
    let code : (3 * owner + 1) % 3 ≡ 1 = omega arith in
    let whole : (3 * owner + 1) / 3 ≡ owner = omega arith in rw (code, whole) refl
row_at market_pool owner =
    let code : (3 * owner + 2) % 3 ≡ 2 = omega arith in
    let whole : (3 * owner + 2) / 3 ≡ owner = omega arith in rw (code, whole) refl

pub small_world-IsWorld : IsWorld small_world
small_world-IsWorld = record { account_at = row_at; str_injective = λ a b h. cc }

abbrev buy_order : Order
buy_order = record {
  id = 90;
  seq = 1;
  user_id = 7;
  market_id = 4;
  outcome_id = 1;
  side = buy;
  limit_price = 5000;
  quantity = 10000;
  filled_quantity = 0;
  budget = some 1000;
  filled_value = 0;
  status = opened;
  cancelled_at = none;
  idempotency_key = [];
  book_state_version = 0;
}

abbrev pub small_book : Book
small_book = record {
  market_id = 4;
  liquidity_b = of_ticks (pos 10000);
  seed_subsidy = of_ticks (pos 7000);
  pool_account_id = 14;
  state_version = 0;
  credits_traded = 0;
  state_changed_at = 3;
  opened_at = 3;
  outcomes =
      record { outcome_id = 1; position = pos 0; q = pos 0 }
      ∷ record { outcome_id = 2; position = pos 1; q = pos 0 }
      ∷ [];
}

abbrev entry : ℕ → ℕ → ℤ → Entry
entry id account amount = record {
  transaction_id = id;
  account_id = account;
  amount = amount;
  created_at = id;
}

abbrev pub small_tables : Tables
small_tables = record {
  transactions = [];
  entries =
      entry 1 21 (pos 5000)
      ∷ entry 1 1 (negsuc 4999)
      ∷ entry 2 14 (pos 7000)
      ∷ entry 2 1 (negsuc 6999)
      ∷ [];
  orders = buy_order ∷ [];
  results = [];
  positions =
      record { user_id = 7; market_id = 4; outcome_id = 1; quantity = 3000; cost_basis = 1500 }
      ∷ [];
  books = small_book ∷ [];
  admin_entries = [];
}

-- The user pays 2000 ticks to the market's pool.
abbrev pub small_batch : List Movement
small_batch =
    record {
      idempotency_key = 107 ∷ [];
      kind = trade_buy;
      legs =
          record { account_id = 21; amount = of_ticks (negsuc 1999) }
          ∷ record { account_id = 14; amount = of_ticks (pos 2000) }
          ∷ [];
      context = no_context;
      reservation_drop = no_drop;
    }
    ∷ []

abbrev pub small_terms : MarketTerms
small_terms = record {
  status = approved_text;
  liquidity_b = some (finite (of_ticks (pos 10000)));
  seed_subsidy = some (finite (of_ticks (pos 7000)));
  published_at = some 1;
  outcomes =
      record { outcome_id = 1; position = pos 0 }
      ∷ record { outcome_id = 2; position = pos 1 }
      ∷ [];
  proposed_outcome_id = some 1;
  settleable = true;
}

abbrev pub from_ok : {E A : Type 0} → Outcome E A → A → A
from_ok (ok a) d = a
from_ok (err e) d = d

pub from_ok-ok : {E A : Type 0} (m : Outcome E A) (d : A) → is_ok m ≡ true → m ≡ ok (from_ok m d)
from_ok-ok (ok a) d h = refl
from_ok-ok (err e) d h = absurd cc

abbrev pub posted : List Transaction × Tables
posted =
    from_ok
      (post_all small_world.hashing small_world.account (λ i. 50 + i) false 9 small_batch
        small_tables)
      ([], small_tables)

pub posted_ok :
    is_ok (
      post_all small_world.hashing small_world.account
        (λ i. 50 + i)
        false
        9
        small_batch
        small_tables)
    ≡ true
unfolding post_all refuse_if_malformed_batch raise_if has_malformed_drop require_all_balanced
    batch_legs quantize ◌*ℤ◌ ◌+ℤ◌ any_key_taken refuse_overdrafts floors_before_batch floors_for
    debited_users_of net_by_account insert lookup add_decimal half_up member neg ◌-ℤ◌ leb_text
    text_eq check_floor debited_in drops_by_account lowered opening_floor walk walk_nets
    account_ids_of add_to_set fingerprint is_user join net_from quantized_legs require_balanced
    running_of sort_texts sum_legs user_account_ids_of users_from all_accounts_of any_key_missing
    appended built entries_of find_by_idempotency_key has_repeated_key is_repeated replay replay_all
    replay_batch stamp_after_newest transaction_of is_buy balance_of has_result held_credits is_live
    is_open reserved_of
posted_ok = refl

pub granted_ok :
    is_ok (ensure_granted small_world (λ i. 60 + i) false 9 (of_ticks (pos 1000)) 8 small_tables)
    ≡ true
unfolding ensure_granted grant_of grant_key transfer post post_all refuse_if_malformed_batch
    raise_if has_malformed_drop require_all_balanced batch_legs quantize ◌*ℤ◌ ◌+ℤ◌ any_key_taken
    refuse_overdrafts floors_before_batch floors_for debited_users_of net_by_account insert lookup
    add_decimal half_up member neg ◌-ℤ◌ leb_text text_eq check_floor debited_in drops_by_account
    lowered opening_floor walk walk_nets account_ids_of add_to_set fingerprint is_user join net_from
    quantized_legs require_balanced running_of sort_texts sum_legs user_account_ids_of users_from
    all_accounts_of any_key_missing appended built entries_of find_by_idempotency_key
    has_repeated_key is_repeated replay replay_all replay_batch stamp_after_newest transaction_of
    is_buy balance_of has_result held_credits is_live is_open reserved_of
granted_ok = refl

pub opened_ok :
    is_ok (ensure_open small_world (λ i. 60 + i) 9 5 (ok small_terms) small_tables) ≡ true
unfolding ensure_open open_book opened_book seed_of market_open_key figure_of is_positive_finite
    refuse_unpriceable find_book transfer post post_all refuse_if_malformed_batch raise_if
    has_malformed_drop require_all_balanced batch_legs quantize ◌*ℤ◌ ◌+ℤ◌ any_key_taken
    refuse_overdrafts floors_before_batch floors_for debited_users_of net_by_account insert lookup
    add_decimal half_up member neg ◌-ℤ◌ leb_text text_eq check_floor debited_in drops_by_account
    lowered opening_floor walk walk_nets account_ids_of add_to_set fingerprint is_user join net_from
    quantized_legs require_balanced running_of sort_texts sum_legs user_account_ids_of users_from
    all_accounts_of any_key_missing appended built entries_of find_by_idempotency_key
    has_repeated_key is_repeated replay replay_all replay_batch stamp_after_newest transaction_of
    is_buy balance_of has_result held_credits is_live is_open reserved_of
opened_ok = refl

pub settled_ok :
    is_ok (settle_book small_world (λ i. 70 + i) 9 3 4 small_terms small_book small_tables) ≡ true
unfolding settle_book settle_winner winner_of listed_in list_winners insert_winner total_of_winners
    result_of recorded movements_of payouts_of payout_of payout_key residue_movements residue_of
    transfer post_all refuse_if_malformed_batch raise_if has_malformed_drop require_all_balanced
    batch_legs quantize ◌*ℤ◌ ◌+ℤ◌ any_key_taken refuse_overdrafts floors_before_batch floors_for
    debited_users_of net_by_account insert lookup add_decimal half_up member neg ◌-ℤ◌ leb_text
    text_eq check_floor debited_in drops_by_account lowered opening_floor walk walk_nets
    account_ids_of add_to_set fingerprint is_user join net_from quantized_legs require_balanced
    running_of sort_texts sum_legs user_account_ids_of users_from all_accounts_of any_key_missing
    appended built entries_of find_by_idempotency_key has_repeated_key is_repeated replay replay_all
    replay_batch stamp_after_newest transaction_of is_buy balance_of has_result held_credits is_live
    is_open reserved_of
settled_ok = refl

pub cancelled_ok : is_ok (cancel whole_ticks (some 7) none (λ t. t) 9 90 small_tables) ≡ true
unfolding cancel cancel_locked get_order_market find_order reaches refuse_if_ended order_view_of
    cancelled_order write_order admin_entries_of raise_if is_live is_open has_result
cancelled_ok = refl

abbrev pub granted : ℕ × Tables
granted =
    from_ok (ensure_granted small_world (λ i. 60 + i) false 9 (of_ticks (pos 1000)) 8 small_tables)
      (0, small_tables)

abbrev pub opened_market : Book × Tables
opened_market =
    from_ok (ensure_open small_world (λ i. 60 + i) 9 5 (ok small_terms) small_tables)
      (small_book, small_tables)

abbrev no_result : SettlementResult
no_result = record {
  market_id = 0;
  outcome_id = 0;
  recorded_at = 0;
  holders_paid = 0;
  total_paid = pos 0;
  residue = pos 0;
}

abbrev pub settled_market : SettlementResult × Tables
settled_market =
    from_ok (settle_book small_world (λ i. 70 + i) 9 3 4 small_terms small_book small_tables)
      (no_result, small_tables)

abbrev no_cancellation : Cancellation
no_cancellation = record {
  view = order_view_of whole_ticks buy_order true;
  released_credits = none;
  released_shares = none;
}

abbrev pub cancelled_one : Cancellation × Tables
cancelled_one =
    from_ok (cancel whole_ticks (some 7) none (λ t. t) 9 90 small_tables)
      (no_cancellation, small_tables)
