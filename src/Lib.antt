-- ===== src/Lib.antt =====
-- A prediction market in Python. The market service takes a market from its draft to its
-- settlement. The ledger service prices trades with a market maker, fills resting orders and moves
-- the credits. Two administrators decide each outcome, the ledger pays out or refunds
-- after asking the market service, the market service then marks the market settled or voided, and
-- the realtime service forwards each market's prices.
-- All the code modelled is under backend/.
--
-- Base: lists, results, signed integers and text that the parts share.
-- Market: market_service/model/entities.py, a market's row. A datetime is its instant in
-- microseconds, a uuid a number that is only compared.
-- Market/Settling: market_service/core/settling.py, core/closing.py, service/settling.py and
-- `is_open_for_trading` of service/closing.py: the tests on the clock.
-- Market/Validation: market_service/service/validation.py. A problem is one constructor for each
-- pair of field and message.
-- Market/Audit: market_service/service/market_audit.py and shared/audit.py: the log's entries.
-- Market/Lifecycle: market_service/service/market_service.py and `close_due_markets` of
-- service/closing.py. Rows has the store, the errors and the status tables; Steps the eight
-- operations on an existing market; Saves the save and the sweep. An operation takes the store and
-- returns the row with the next store, or an error and no store, since a handler that raises commits
-- nothing. Every write holds the row's lock from its read to its commit, so the commits are a
-- sequence, and Reach is that sequence as an inductive type.
-- Ledger/Lmsr, Ledger/Pricing: ledger_service/core/lmsr.py and core/pricing.py. The arithmetic of
-- Python's `decimal` at fifty digits is a parameter, the record Engine, and IsDecimal what its
-- documentation says of rounding. An amount or a quantity that a column stores is a whole number of
-- ticks of 0.0001.
-- Ledger/Orders: ledger_service/core/limit_orders.py. The cascade runs on fuel, one round for each
-- waiting order, which is enough since each round takes one order out.
-- Ledger/Voiding: ledger_service/core/voiding.py and core/state_versions.py. A stack of lots is a
-- list with the newest lot first. The refund replay prices with the same Engine; the cut's division
-- is the exact floor, which the fifty digits reach.
-- Ledger/Rows: ledger_service/model/entities.py, the tables as lists of rows. A datetime is its
-- microsecond, a uuid a number, an amount its ticks.
-- Ledger/Reservations: ledger_service/service/reservations.py and the balance of service/accounts.py.
-- Ledger/Posting: ledger_service/service/posting.py. Legs has what is computed from a batch alone, Floors
-- the overdraft check, and Posting the keys, the stamps and `post_all`. A session holds the locks of
-- the accounts from its first read to its commit, so a post is a function from the tables that it
-- reads to those that it commits, or an error that leaves them. SHA-256 and the texts that it is given
-- are parameters.
-- Ledger/Accounts: ledger_service/service/accounts.py and grants.py. The World is the accounts' unique
-- index; IsWorld says that one row has a kind and an owner, and that `str` tells two UUIDs apart.
-- Ledger/Books: ledger_service/service/books.py, the opening and the funding of a market's book. The
-- terms that the market service sends are an argument.
-- Ledger/Settlement: ledger_service/service/settlement.py. What other sessions commit between the
-- unlocked lookup and the lock is an argument of `pay_out`, any function on the tables; the calls of
-- the market service are arguments too.
-- Ledger/Cancellation: ledger_service/service/cancellation.py and `order_view_of` of service/orders.py.
-- Ledger/NotFound: ledger_service/core/not_found_cache.py, with the clock's reading as an argument.
-- Ledger/Session: what a request commits stays when a later step raises, and what it has only written does
-- not. A session is a function from tables to an answer or an error with the tables committed by then.
-- Ledger/BookPrices: service/book_prices.py, and the quote and the snapshot of service/preview.py and
-- service/snapshot.py, for a book that is open.
-- Ledger/Gates: service/account_status.py and service/market_status.py, with the two responses as arguments.
-- Ledger/Trading: service/trading.py. Trading has the writes of one trade, Filling the cascade, Planning what
-- is checked and written under the book's lock, Frames the commit and what is published, and Execute the
-- steps in order. A quantity that passed the routes is ticks. The ids and the times of rows, and what other
-- sessions commit between the first lookup and the book's lock, are the Environment.
-- Ledger/Placing: service/orders.py. Placing has the order's row and its budget, Stored the answer to a retry, Planning
-- what is checked and written under the book's lock, Committing the commit and the answer, and Place the
-- steps in order, with `list_live`. The `seq` that the database gives a row is a parameter that no other row has.
-- Realtime: realtime_service/service/ordering.py and the dispatch of price events in service/bus.py:
-- which events one process forwards to its clients.
-- Tests, in each part: one market and a few trades that are run, with each result at them.
--
-- Not modelled: the routes, schemas' parsing and the database access, which only call the code above;
-- the parsing of a market's terms (service/market_terms.py), the payments of the ledger's void
-- (service/voiding.py), price history, leaderboard and valuation, the auth and the audit service,
-- and the realtime service's sockets; the React frontend, the SQL and the deployment.
pub mod Base
pub mod Market
pub mod Ledger
pub mod Realtime
