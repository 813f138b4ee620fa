-- ===== src/Ledger/Tests/Trades.antt =====
-- Trades on a market whose book has 3000 ticks out, with a buyer's order resting below the price.
use cs.Base.{Outcome, ok, err, is_ok, ◌≡◌, refl, true, none, some, [], ◌∷◌, ◌+◌, arith, raise_if}
use cs.Ledger.Trading.{
  same_side, matches, result_from, trade_result_of, replay_if_present, write_book, flushed,
  is_position_of, find_position, write_position, add_to_position, release_from_position,
  positions_after, set_q, traded_book, write_trade, TradeRequest,
}
use cs.Ledger.Trading.Filling.{
  list_open_orders, resting_order_of, resting_orders_of, order_by_seq, status_after, write_by_seq,
  add_fill_to, reservation_drop_of, fill_key, trade_kind, trade_movement_of, trade_of_fill,
  movement_of_fill, write_fill, write_fills, write_cascade,
}
use cs.Ledger.Trading.Planning.{
  trade_key, lock_book, refuse_if_short_of_shares, check_holding, pending_of, movement_of_trade,
  trade_of, write_trade_and_cascade, plan_at, plan_on, plan_trade, PlannedTrade,
}
use cs.Ledger.Trading.Frames.{
  batch_refusal_of, movements_of_fills, post_trade_batch, order_events_of, price_event_of,
  answer_of, Executed, answered_again,
}
use cs.Ledger.Trading.Execute.{trade_under_lock, trade_anew, execute, Environment}
use cs.Ledger.Gates.{
  is_suspension, refuse_if_suspended, ensure_trading, answered, no_answer, open_text,
}
use cs.Ledger.BookPrices.{
  priced_by, insert_row, in_position_order, outcome_ids_of, q_of, index_of, refuse_unpriceable_book,
  index_in, priced, prices_at, Quote, quote, payout_of_win, profit_of_win,
}
use cs.Ledger.Session.{◌>>=◌}
use cs.Ledger.Pricing.{
  is_buy, below_tick, signed, total_of, refuse_oversold, at, quantize_price, rounded, quantize_cost,
  trade_cost_of, half_up_div, release_basis, buy, sell, per_share,
}
use cs.Ledger.Lmsr.{
  require_positive_b, require_outcomes, add_each, top_of, log_sum_exp, cost, cost_to_trade, prices,
}
use cs.Ledger.Orders.{
  cascade_from, is_up_pusher, threshold_of, priority_of, is_before, is_within_limit,
  opposing_thresholds, minimum, maximum, crosses, refuse_if_crosses_book, capped, insert_order,
  sort_orders, fill_quantity_of, executable_fill_of, next_fill, cascade_of,
}
use cs.Ledger.Posting.{
  is_repeated, has_repeated_key, refuse_if_malformed_batch, batch_legs, require_all_balanced,
  find_by_idempotency_key, any_key_taken, any_key_missing, replay, stamp_after_newest, entries_of,
  all_accounts_of, appended, replay_all, replay_batch, transaction_of, built, post_all, post,
}
use cs.Ledger.Posting.Legs.{
  quantized_legs, sum_legs, require_balanced, sort_texts, join, fingerprint, is_user, add_to_set,
  account_ids_of, running_of, net_from, net_by_account, users_from, user_account_ids_of,
  has_malformed_drop,
}
use cs.Ledger.Posting.Floors.{
  debited_in, debited_users_of, drops_by_account, opening_floor, floors_for, floors_before_batch,
  lowered, check_floor, walk_nets, walk, refuse_overdrafts,
}
use cs.Ledger.Reservations.{
  balance_of, has_result, is_open, is_live, held_credits, reserved_of, reserved_shares_of,
}
use cs.Ledger.Accounts.{transfer, grant_key, grant_of, ensure_granted}
use cs.Ledger.Books.{
  refuse_unpriceable, is_positive_finite, figure_of, find_book, find_result, market_open_key,
  opened_rows, opened_book, seed_of, open_book, ensure_open,
}
use cs.Base.Int.{◌+ℤ◌, ◌-ℤ◌, neg, ◌*ℤ◌, floor_div, pos, negsuc}
use cs.Base.Dict.{lookup, insert, member}
use cs.Base.Decimal.{add_decimal, half_up, quantize, of_ticks}
use cs.Base.Text.{text_eq, leb_text}
use cs.Ledger.Rows.{Tables, Order, opened, Book, LedgerError}
use cs.Ledger.Tests.{whole_ticks}
use cs.Ledger.Tests.Rows.{small_world, small_book, small_tables, small_terms, from_ok, from_ok-ok}
use cs.Ledger.Trading.Backed.{IsBacked}
use cs.Ledger.Trading.Invariant.{execute-IsBacked}
use cs.Ledger.Trading.Quoted.{legs_at, quote-charged}
use cs.Ledger.Trading.Once.{again, execute-replayed}
use cs.Ledger.Trading.Shares.{q_at, shares_in}

abbrev trade_book : Book
trade_book = record small_book {
  outcomes =
      record { outcome_id = 1; position = pos 0; q = pos 3000 }
      ∷ record { outcome_id = 2; position = pos 1; q = pos 0 }
      ∷ [];
}

abbrev pub patient : Order
patient = record {
  id = 91;
  seq = 2;
  user_id = 9;
  market_id = 4;
  outcome_id = 1;
  side = buy;
  limit_price = 7500;
  quantity = 5000;
  filled_quantity = 0;
  budget = some 3750;
  filled_value = 0;
  status = opened;
  cancelled_at = none;
  idempotency_key = [];
  book_state_version = 0;
}

abbrev pub trade_tables : Tables
trade_tables = record small_tables {
  entries =
      record { transaction_id = 1; account_id = 27; amount = pos 5000; created_at = 1 }
      ∷ record { transaction_id = 1; account_id = 1; amount = negsuc 4999; created_at = 1 }
      ∷ record { transaction_id = 2; account_id = 14; amount = pos 7000; created_at = 2 }
      ∷ record { transaction_id = 2; account_id = 1; amount = negsuc 6999; created_at = 2 }
      ∷ [];
  orders = patient ∷ [];
  books = trade_book ∷ [];
}

abbrev pub sale : TradeRequest
sale = record {
  user_id = 7;
  market_id = 4;
  outcome_id = 1;
  side = sell;
  quantity = pos 1000;
  state_version = 0;
  idempotency_key = 65 ∷ [];
}

abbrev pub calm : Environment
calm = record {
  auth_answer = answered 200 none;
  gate_terms = ok (record small_terms { status = open_text });
  opening_terms = ok small_terms;
  opening_ids = λ i. 200 + i;
  grant_ids = λ i. 300 + i;
  new_ids = λ i. 400 + i;
  opening_time = 10;
  grant_time = 11;
  now = 12;
  starting_credits = of_ticks (pos 1000);
  meanwhile = λ t. t;
}

abbrev pub sold : Outcome LedgerError Executed × Tables
sold = execute whole_ticks small_world calm sale trade_tables

pub sold_ok : is_ok sold.0 ≡ true
unfolding raise_if cascade_from same_side matches result_from trade_result_of replay_if_present
    write_book flushed is_position_of find_position write_position add_to_position
    release_from_position positions_after set_q traded_book write_trade list_open_orders
    resting_order_of resting_orders_of order_by_seq status_after write_by_seq add_fill_to
    reservation_drop_of fill_key trade_kind trade_movement_of trade_of_fill movement_of_fill
    write_fill write_fills write_cascade trade_key lock_book refuse_if_short_of_shares check_holding
    pending_of movement_of_trade trade_of write_trade_and_cascade plan_at plan_on plan_trade
    batch_refusal_of movements_of_fills post_trade_batch order_events_of price_event_of answer_of
    trade_under_lock trade_anew execute is_suspension refuse_if_suspended ensure_trading priced_by
    insert_row in_position_order outcome_ids_of q_of index_of refuse_unpriceable_book index_in
    priced prices_at ◌>>=◌ is_buy below_tick signed total_of refuse_oversold at quantize_price
    rounded quantize_cost trade_cost_of half_up_div release_basis require_positive_b
    require_outcomes add_each top_of log_sum_exp cost cost_to_trade prices is_up_pusher threshold_of
    priority_of is_before is_within_limit opposing_thresholds minimum maximum crosses
    refuse_if_crosses_book capped insert_order sort_orders fill_quantity_of executable_fill_of
    next_fill cascade_of is_repeated has_repeated_key refuse_if_malformed_batch batch_legs
    require_all_balanced find_by_idempotency_key any_key_taken any_key_missing replay
    stamp_after_newest entries_of all_accounts_of appended replay_all replay_batch transaction_of
    built post_all post quantized_legs sum_legs require_balanced sort_texts join fingerprint is_user
    add_to_set account_ids_of running_of net_from net_by_account users_from user_account_ids_of
    has_malformed_drop debited_in debited_users_of drops_by_account opening_floor floors_for
    floors_before_batch lowered check_floor walk_nets walk refuse_overdrafts balance_of has_result
    is_open is_live held_credits reserved_of reserved_shares_of transfer grant_key grant_of
    ensure_granted refuse_unpriceable is_positive_finite figure_of find_book find_result
    market_open_key opened_rows opened_book seed_of open_book ensure_open ◌+ℤ◌ ◌-ℤ◌ neg ◌*ℤ◌
    floor_div lookup insert member add_decimal half_up quantize text_eq leb_text
sold_ok = refl

abbrev no_answer_yet : Executed
no_answer_yet = answered_again (record {
  transaction_id = 0;
  user_id = 0;
  market_id = 0;
  outcome_id = 0;
  side = sell;
  quantity = 0;
  total = pos 0;
  state_version = 0;
  book_state_version = 0;
})

abbrev pub sold_answer : Executed
sold_answer = from_ok sold.0 no_answer_yet

sold_eq : sold ≡ (ok sold_answer, sold.1)
sold_eq = λ i. (from_ok-ok sold.0 no_answer_yet sold_ok i, sold.1)

pub trade_tables-IsBacked : IsBacked trade_tables
unfolding find_book in_position_order q_at shares_in
trade_tables-IsBacked = record { shares = λ m o. ground arith; own_seqs = (tt, tt) }

execute-IsBacked_example : IsBacked sold.1
execute-IsBacked_example =
    execute-IsBacked whole_ticks small_world calm sale trade_tables (λ t kept. kept)
      trade_tables-IsBacked

-- The market has closed, and auth is down.
abbrev stormy : Environment
stormy = record calm { auth_answer = no_answer; gate_terms = ok small_terms }

execute-replayed_example :
    execute whole_ticks small_world stormy (again sale 2) sold.1
    ≡ (ok (answered_again sold_answer.result), sold.1)
execute-replayed_example =
    execute-replayed whole_ticks small_world calm stormy sale 2 trade_tables sold_answer sold.1
      sold_eq

-- The sale's plan and its quote
planned_ok : is_ok (plan_trade whole_ticks small_world 12 sale trade_tables) ≡ true
unfolding raise_if cascade_from same_side matches result_from trade_result_of replay_if_present
    write_book flushed is_position_of find_position write_position add_to_position
    release_from_position positions_after set_q traded_book write_trade list_open_orders
    resting_order_of resting_orders_of order_by_seq status_after write_by_seq add_fill_to
    reservation_drop_of fill_key trade_kind trade_movement_of trade_of_fill movement_of_fill
    write_fill write_fills write_cascade trade_key lock_book refuse_if_short_of_shares check_holding
    pending_of movement_of_trade trade_of write_trade_and_cascade plan_at plan_on plan_trade
    batch_refusal_of movements_of_fills post_trade_batch order_events_of price_event_of answer_of
    trade_under_lock trade_anew execute is_suspension refuse_if_suspended ensure_trading priced_by
    insert_row in_position_order outcome_ids_of q_of index_of refuse_unpriceable_book index_in
    priced prices_at ◌>>=◌ is_buy below_tick signed total_of refuse_oversold at quantize_price
    rounded quantize_cost trade_cost_of half_up_div release_basis require_positive_b
    require_outcomes add_each top_of log_sum_exp cost cost_to_trade prices is_up_pusher threshold_of
    priority_of is_before is_within_limit opposing_thresholds minimum maximum crosses
    refuse_if_crosses_book capped insert_order sort_orders fill_quantity_of executable_fill_of
    next_fill cascade_of is_repeated has_repeated_key refuse_if_malformed_batch batch_legs
    require_all_balanced find_by_idempotency_key any_key_taken any_key_missing replay
    stamp_after_newest entries_of all_accounts_of appended replay_all replay_batch transaction_of
    built post_all post quantized_legs sum_legs require_balanced sort_texts join fingerprint is_user
    add_to_set account_ids_of running_of net_from net_by_account users_from user_account_ids_of
    has_malformed_drop debited_in debited_users_of drops_by_account opening_floor floors_for
    floors_before_batch lowered check_floor walk_nets walk refuse_overdrafts balance_of has_result
    is_open is_live held_credits reserved_of reserved_shares_of transfer grant_key grant_of
    ensure_granted refuse_unpriceable is_positive_finite figure_of find_book find_result
    market_open_key opened_rows opened_book seed_of open_book ensure_open ◌+ℤ◌ ◌-ℤ◌ neg ◌*ℤ◌
    floor_div lookup insert member add_decimal half_up quantize text_eq leb_text
planned_ok = refl

quoted_ok : is_ok (quote whole_ticks trade_book 1 sell 1000) ≡ true
unfolding raise_if quote per_share payout_of_win profit_of_win priced_by insert_row
    in_position_order outcome_ids_of q_of index_of refuse_unpriceable_book index_in priced prices_at
    is_buy below_tick signed total_of refuse_oversold at quantize_price rounded quantize_cost
    trade_cost_of require_positive_b require_outcomes add_each top_of log_sum_exp cost cost_to_trade
    prices is_positive_finite figure_of ◌+ℤ◌ ◌-ℤ◌ neg ◌*ℤ◌ floor_div add_decimal half_up quantize
quoted_ok = refl

returned : {E A : Type 0} (m : Outcome E A) → is_ok m ≡ true → (a : A) × (m ≡ ok a)
returned (ok a) h = (a, refl)
returned (err e) h = absurd cc

abbrev sale_plan :
    (plan : PlannedTrade) × (plan_trade whole_ticks small_world 12 sale trade_tables ≡ ok plan)
sale_plan = returned (plan_trade whole_ticks small_world 12 sale trade_tables) planned_ok

abbrev sale_quote : (q : Quote) × (quote whole_ticks trade_book 1 sell 1000 ≡ ok q)
sale_quote = returned (quote whole_ticks trade_book 1 sell 1000) quoted_ok

quote-charged_example :
    (sale_plan.0.movement.legs
      ≡ legs_at small_world sale trade_book.pool_account_id sale_quote.0.total)
    × (sale_quote.0.state_version ≡ 0)
unfolding find_book
quote-charged_example =
    quote-charged whole_ticks small_world 12 sale trade_tables trade_book sale_plan.0 sale_quote.0
      (tt, tt) refl sale_quote.1 sale_plan.1
