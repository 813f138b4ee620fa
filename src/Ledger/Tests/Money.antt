-- ===== src/Ledger/Tests/Money.antt =====
-- The theorems on the ledger's money, orders and cache, each at the rows of the tests.
use cs.Base.{
  ℕ, List, ◌++◌, ◌==◌, err, ap, some_injective, Bool-cases, ◌+◌, ◌≡◌, refl, true, false, none, some,
  [], ◌∷◌, ok, is_ok, inl, inr, arith,
}
use cs.Base.Int.{pos, ◌+ℤ◌, ◌-ℤ◌, ◌*ℤ◌, eqb_ℤ}
use cs.Base.Dict.{lookup}
use cs.Base.Decimal.{of_ticks, quantize}
use cs.Base.Text.{Text, text_eq}
use cs.Ledger.Rows.{market_pool, Tables, Book, Transaction, trade_buy, no_context, market_not_found}
use cs.Ledger.Reservations.{balance_of}
use cs.Ledger.Posting.Legs.{is_user, quantized_legs}
use cs.Ledger.Posting.Nets.{net_of}
use cs.Ledger.Posting.Balance.{total_in, post_all-total_in}
use cs.Ledger.Posting.Overdraft.{IsCovered, debits, post_all-IsCovered}
use cs.Ledger.Posting.Feed.{IsFeed, post_all-IsFeed}
use cs.Ledger.Posting.Retry.{post_all-replayed}
use cs.Ledger.Posting.Returned.{asked, answered, post_all-answered}
use cs.Ledger.Posting.{batch_legs, post_all, any_key_taken, find_by_idempotency_key}
use cs.Ledger.Accounts.Grants.{ensure_granted-once}
use cs.Ledger.Accounts.{grant_key, ensure_granted}
use cs.Ledger.Books.Reopening.{ensure_open-once, ensure_open-funded}
use cs.Ledger.Books.{ensure_open, find_book, find_result}
use cs.Ledger.Settlement.Paid.{IsSettled, settle_book-IsSettled}
use cs.Ledger.Settlement.Returns.{result_row, settle_book-settles}
use cs.Ledger.Settlement.Payout.{pay_out}
use cs.Ledger.Settlement.Once.{pay_out-settled}
use cs.Ledger.Settlement.{
  SettlementResult, settle_book, listed_in, movements_of, list_winners, total_of_winners,
  payouts_of, residue_movements, insert_winner,
}
use cs.Ledger.NotFound.{NotFoundCache, remember}
use cs.Ledger.NotFound.Window.{IsRemembering, remember-IsRemembering}
use cs.Ledger.Cancellation.Release.{IsCancelled, cancel-IsCancelled}
use cs.Ledger.Cancellation.Twice.{cancel-twice}
use cs.Ledger.Cancellation.{cancel}
use cs.Ledger.Tests.Rows.{
  small_world, small_world-IsWorld, small_book, small_tables, small_batch, small_terms, from_ok-ok,
  posted, posted_ok, granted, granted_ok, opened_market, opened_ok, settled_market, settled_ok,
  cancelled_one, cancelled_ok,
}
use cs.Ledger.Tests.{whole_ticks}

posted_eq :
    post_all small_world.hashing small_world.account (λ i. 50 + i) false 9 small_batch small_tables
    ≡ ok posted
posted_eq = from_ok-ok _ ([], small_tables) posted_ok

posted_fresh : any_key_taken small_tables.transactions (batch_legs small_batch) ≡ false
unfolding any_key_taken batch_legs find_by_idempotency_key
posted_fresh = refl

user_paid : debits 21 (batch_legs small_batch) ≡ true
unfolding debits batch_legs net_of quantized_legs quantize ◌*ℤ◌ ◌+ℤ◌
user_paid = refl

user_is : is_user (small_world.account 21).kind ≡ true
unfolding is_user
user_is = refl

post_all-total_in_example : total_in 50 posted.1.entries ≡ total_in 50 small_tables.entries
post_all-total_in_example =
    post_all-total_in small_world.hashing small_world.account (λ i. 50 + i) false 9 small_batch
      small_tables posted.0 posted.1 posted_eq 50

post_all-IsCovered_example : IsCovered small_world.account posted.1 21
post_all-IsCovered_example =
    post_all-IsCovered small_world.hashing small_world.account (λ i. 50 + i) false 9 small_batch
      small_tables posted.0 posted.1 posted_eq posted_fresh 21 user_is user_paid

small-IsFeed : IsFeed small_tables.entries
small-IsFeed = (
  ((λ _. inl (refl, refl)), ((λ _. inr (omega arith)), ((λ _. inr (omega arith)), tt))),
  (
    ((λ _. inr (omega arith)), ((λ _. inr (omega arith)), tt)),
    (((λ _. inl (refl, refl)), tt), (tt, tt)),
  ),
)

post_all-IsFeed_example : IsFeed posted.1.entries
post_all-IsFeed_example =
    post_all-IsFeed small_world.hashing small_world.account (λ i. 50 + i) false 9 small_batch
      small_tables posted.0 posted.1 posted_eq small-IsFeed

post_all-replayed_example :
    post_all small_world.hashing small_world.account (λ i. 80 + i) false 30 small_batch posted.1
    ≡ ok posted
post_all-replayed_example =
    post_all-replayed small_world.hashing small_world.account (λ i. 50 + i) (λ i. 80 + i) false 9 30
      small_batch small_tables posted.0 posted.1 posted_eq

post_all-answered_example : answered posted.0 ≡ asked small_world.hashing small_batch
post_all-answered_example =
    post_all-answered small_world.hashing small_world.account (λ i. 50 + i) false 9 small_batch
      small_tables posted.0 posted.1 posted_eq

granted_eq :
    ensure_granted small_world (λ i. 60 + i) false 9 (of_ticks (pos 1000)) 8 small_tables
    ≡ ok granted
granted_eq = from_ok-ok _ (0, small_tables) granted_ok

-- Other sessions post a transaction, trade on every book and add an entry.
abbrev noise : Transaction
noise = record {
  id = 99;
  kind = trade_buy;
  idempotency_key = 90 ∷ [];
  request_fingerprint = [];
  occurred_at = 20;
  context = no_context;
}

abbrev traded_on : List Book → List Book
traded_on [] = []
traded_on (b ∷ rest) = record b { state_version = b.state_version + 1 } ∷ traded_on rest

abbrev busy : Tables → Tables
busy t = record t {
  transactions = t.transactions ++ (noise ∷ []);
  entries =
      t.entries
      ++ (record { transaction_id = 99; account_id = 27; amount = pos 1; created_at = 20 } ∷ []);
  books = traded_on t.books;
}

found_still :
    (transactions : List Transaction) (key : Text) (row : Transaction)
    → find_by_idempotency_key transactions key ≡ some row
    → find_by_idempotency_key (transactions ++ (noise ∷ [])) key ≡ some row
unfolding find_by_idempotency_key
found_still [] key row h = absurd cc
found_still (t ∷ rest) key row h = elim (Bool-cases (text_eq t.idempotency_key key)) [
  | inl e ↦ rw e (rw e at h)
  | inr e ↦ rw e (found_still rest key row (rw e at h))
]

traded_book_found :
    (books : List Book) (market_id : ℕ) (b : Book)
    → find_book books market_id ≡ some b
    → find_book (traded_on books) market_id
      ≡ some (record b { state_version = b.state_version + 1 })
unfolding find_book
traded_book_found [] market_id b h = absurd cc
traded_book_found (x ∷ rest) market_id b h = elim (Bool-cases (x.market_id == market_id)) [
  | inl e ↦ rw e (
      ap (λ (y : Book). some (record y { state_version = y.state_version + 1 }))
        (some_injective (rw e at h)))
  | inr e ↦ rw e (traded_book_found rest market_id b (rw e at h))
]

ensure_granted-once_example :
    ensure_granted small_world (λ i. 90 + i) true 40 (of_ticks (pos 2000)) 8 (busy granted.1)
    ≡ ok (granted.0, busy granted.1)
ensure_granted-once_example =
    ensure_granted-once small_world (λ i. 60 + i) (λ i. 90 + i) false true 9 40
      (of_ticks (pos 1000)) (of_ticks (pos 2000)) 8 busy small_tables granted.0 granted.1
      (λ t row. found_still t.transactions (grant_key small_world 8) row) granted_eq

opened_eq :
    ensure_open small_world (λ i. 60 + i) 9 5 (ok small_terms) small_tables ≡ ok opened_market
opened_eq = from_ok-ok _ (small_book, small_tables) opened_ok

ensure_open-once_example :
    (find_book opened_market.1.books 5 ≡ some opened_market.0)
    × (current : Book) × (find_book (busy opened_market.1).books 5 ≡ some current)
    × (current.pool_account_id ≡ opened_market.0.pool_account_id)
    × (ensure_open small_world (λ i. 90 + i) 40 5 (err market_not_found) (busy opened_market.1)
        ≡ ok (current, busy opened_market.1))
ensure_open-once_example =
    ensure_open-once small_world (λ i. 60 + i) (λ i. 90 + i) 9 40 5 (ok small_terms)
      (err market_not_found) busy small_tables opened_market.0 opened_market.1
      (λ t b h. (_, traded_book_found t.books 5 b h, refl)) opened_eq

unopened : find_book small_tables.books 5 ≡ none
unfolding find_book
unopened = refl

ensure_open-funded_example :
    (opened_market.0.pool_account_id ≡ small_world.id_of market_pool 5)
    × (balance_of opened_market.1.entries opened_market.0.pool_account_id
        ≡ balance_of small_tables.entries opened_market.0.pool_account_id
          +ℤ quantize opened_market.0.seed_subsidy)
ensure_open-funded_example =
    ensure_open-funded small_world (λ i. 60 + i) 9 5 (ok small_terms) small_tables opened_market.0
      opened_market.1 small_world-IsWorld unopened opened_eq

settled_eq :
    settle_book small_world (λ i. 70 + i) 9 3 4 small_terms small_book small_tables
    ≡ ok settled_market
settled_eq = from_ok-ok _ _ settled_ok

settle_book-IsSettled_example :
    IsSettled small_world 4 small_tables settled_market.1 settled_market.0
settle_book-IsSettled_example =
    settle_book-IsSettled small_world (λ i. 70 + i) 9 3 4 small_terms small_book small_tables
      settled_market.0 settled_market.1 small_world-IsWorld refl settled_eq

small_listed : listed_in 1 small_book.outcomes ≡ true
unfolding listed_in
small_listed = refl

small_held : eqb_ℤ (balance_of small_tables.entries 14) (pos 0) ≡ false
unfolding balance_of ◌+ℤ◌
small_held = refl

small_fresh :
    any_key_taken small_tables.transactions (
      batch_legs (
        movements_of small_world 4 1 14 (list_winners small_tables.positions 4 1) (
          balance_of small_tables.entries 14
          -ℤ total_of_winners (list_winners small_tables.positions 4 1))))
    ≡ false
unfolding any_key_taken batch_legs movements_of list_winners total_of_winners balance_of ◌-ℤ◌ ◌+ℤ◌
    payouts_of residue_movements find_by_idempotency_key insert_winner
small_fresh = refl

settle_book-settles_example :
    (result : SettlementResult) × (after : Tables) × (settle_book small_world
        (λ i. 70 + i)
        9
        3
        4
        small_terms
        small_book
        small_tables
      ≡ ok (result, after))
    × (result.outcome_id ≡ 1)
    × (after.results ≡ small_tables.results ++ (result_row 4 1 9 ∷ []))
    × IsSettled small_world 4 small_tables after result
settle_book-settles_example =
    settle_book-settles small_world (λ i. 70 + i) 9 3 4 1 small_terms small_book small_tables
      small_world-IsWorld refl (refl, tt) refl small_listed small_held small_fresh

unsettled : find_result small_tables.results 4 ≡ none
unfolding find_result
unsettled = refl

pay_out-settled_example :
    (pay_out small_world
      (λ i. 90 + i)
      40
      5
      4
      (ok small_terms)
      (ok small_terms)
      (λ t. t)
      (ok tt)
      (busy settled_market.1)).1
    ≡ busy settled_market.1
pay_out-settled_example =
    pay_out-settled small_world (λ i. 70 + i) (λ i. 90 + i) 9 40 3 5 4 small_terms small_book
      small_tables settled_market.0 settled_market.1 (busy settled_market.1) unsettled settled_eq
      refl (ok small_terms) (ok small_terms) (λ t. t) (ok tt)

cancelled_eq : cancel whole_ticks (some 7) none (λ t. t) 9 90 small_tables ≡ ok cancelled_one
cancelled_eq = from_ok-ok _ _ cancelled_ok

cancel-IsCancelled_example : IsCancelled small_tables cancelled_one.1 90 cancelled_one.0
cancel-IsCancelled_example =
    cancel-IsCancelled whole_ticks (some 7) none (λ t. t) 9 90 small_tables cancelled_one.0
      cancelled_one.1 cancelled_eq

cancel-twice_example :
    is_ok (cancel whole_ticks (some 7) none (λ t. t) 11 90 cancelled_one.1) ≡ false
cancel-twice_example =
    cancel-twice whole_ticks (some 7) (some 7) none none (λ t. t) 9 11 90 small_tables
      cancelled_one.0 cancelled_one.1 cancelled_eq

-- Two ids fill the cache, and one of them is answered with a 404 again.
abbrev full_cache : NotFoundCache
full_cache = record { ttl = 10; max_entries = 2; expiry_by_id = (4, 15) ∷ (5, 18) ∷ [] }

remember-IsRemembering_example : IsRemembering 9 4 full_cache (remember 9 4 full_cache)
unfolding lookup
remember-IsRemembering_example =
    remember-IsRemembering 9 4 full_cache (refl, (refl, tt)) (omega arith)
