-- ===== src/Market/Lifecycle.antt =====
-- backend/market_service/service/market_service.py and the sweep of service/closing.py: every
-- operation on a market's row, with its guards in the source's order. An operation that raises
-- commits nothing, so it returns no store. Every write holds the row's lock from its read to its
-- commit, so operations on one market are a sequence. `now` is the database's clock, read after
-- the lock, and a fresh uuid is an argument.
pub mod Rows
pub mod Saves
pub mod Steps
pub mod Diagram
pub mod Effects
pub mod Endings
pub mod Reach
pub mod Invariant
pub mod Edges
pub mod Log
pub mod Keys
