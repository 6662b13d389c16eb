-- ===== src/Executor.antt =====
-- Order placement (app/executor.py): the two ledgers, and the life of an order from `pending` to
-- `working`, `success`, `retrying` or `dead`. The fill arithmetic is in Fills, the ledger writes in
-- Ledger, the handlers in Orders, and
-- the booking of partial fills in Partial.
pub mod Fills
pub mod Ledger
pub mod Rows
pub mod Orders
pub mod Partial
