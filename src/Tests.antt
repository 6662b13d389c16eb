-- ===== src/Tests.antt =====
-- Concrete inputs, tests of the definitions on them, and the theorems applied to them.
mod Data
mod Portfolio
mod Executor
mod Webhook
mod Endpoint
mod Arb
mod Funding
mod ArbBook
mod Accounts
mod Reconcile
mod Equity
mod Pages
mod Bybit
mod Store
mod Curve
mod Snapshots
mod Report
mod Form
mod KillSwitch
