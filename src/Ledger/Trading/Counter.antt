-- ===== src/Ledger/Trading/Counter.antt =====
-- backend/ledger_service/service/trading.py: what a trade that `execute` commits has passed, and how far it moves the book's
-- counter.
use cs.Base.{◌+◌, ◌≡◌, none, some, [], ◌∷◌, length, map}
use cs.Base.Int.{pos, pos_part, ◌-ℤ◌, ◌≤ℤ◌}
use cs.Base.Text.{Text}
use cs.Ledger.Pricing.{sell}
use cs.Ledger.Rows.{Book, Tables}
use cs.Ledger.Accounts.{World}
use cs.Ledger.Books.{find_book, find_result}
use cs.Ledger.Gates.{IsAllowed, IsTrading}
use cs.Ledger.Trading.{TradeRequest}
use cs.Ledger.Trading.Frames.{PriceEvent, Executed}
use cs.Ledger.Trading.Execute.{Environment, tables_at_lock}
use cs.Ledger.Trading.Planned.{held_by, reserved_by}

-- A trade that `execute` commits on the tables at the book's lock, which are those of the request with the book's
-- first touch, the grant and what other sessions committed: the account check passed and the market was
-- open for trading; the market has no result; the quote was at the book's counter; and a sale is of no more
-- than the trader holds and has not reserved. The trade is the counter's next number, each fill of its
-- cascade one more, and the one price frame is at the last.
pub record IsTraded (world : World) (env : Environment) (request : TradeRequest) (s : Tables)
    (x : Executed) (after : Tables) : Type 0 where
  pub allowed : IsAllowed env.auth_answer
  pub locked : Tables
  pub at_lock : locked ≡ tables_at_lock world env request.market_id request.user_id s
  pub trading : IsTrading env.gate_terms
  pub unresolved : find_result locked.results request.market_id ≡ none
  pub book : Book
  pub found : find_book locked.books request.market_id ≡ some book
  pub quoted : request.state_version ≡ book.state_version
  pub covered :
      request.side ≡ sell
      → pos (pos_part request.quantity) ≤ℤ held_by request locked -ℤ reserved_by request locked
  pub next_version : x.result.state_version ≡ book.state_version + 1
  pub last_version : x.result.book_state_version ≡ book.state_version + 1 + length x.order_frames
  pub book_after : Book
  pub found_after : find_book after.books request.market_id ≡ some book_after
  pub counter_after : book_after.state_version ≡ x.result.book_state_version
  pub one_price_frame :
      map (λ (f : PriceEvent). f.state_version) x.price_frames ≡ x.result.book_state_version ∷ []
