-- ===== src/Ledger.antt =====
-- backend/ledger_service: the pricing engine, the resting orders, the void's replay, the write path
-- of the entries, and the settlement. Amounts, quantities and prices are whole ticks of 0.0001, the
-- columns' scale; unrounded engine numbers are the `Num` of an `Engine`.
pub mod Lmsr
pub mod Pricing
pub mod Orders
pub mod Voiding
pub mod Rows
pub mod Reservations
pub mod Posting
pub mod Accounts
pub mod Books
pub mod Settlement
pub mod Cancellation
pub mod NotFound
pub mod Session
pub mod BookPrices
pub mod Gates
pub mod Trading
pub mod Placing
mod Tests
