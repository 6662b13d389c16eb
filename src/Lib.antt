-- ===== src/Lib.antt =====
-- Verification library of the position manager: a middleware that turns TradingView alerts into
-- orders on several crypto venues, and keeps a ledger of the positions of each strategy.
--
-- Parts and files. The root of the program is app/. A signal enters at app/routes/webhook.py
-- (Webhook): each enabled venue of the strategy's route (Routing, app/routing.py) gets one session
-- of the database (Session, app/db.py) in which a resting entry may be cancelled, the portfolio
-- manager decides (Portfolio, app/portfolio.py with app/risk.py), and the executor places the order
-- and books its fill (Executor, app/executor.py: Fills for the fill arithmetic, Ledger for the two
-- position tables, Rows and Orders for the life of an order, Partial for the booking of a resting
-- order's fill). Two background scans use the same operations: RetryWorker (app/retry_worker.py)
-- and LimitWorker (app/limit_worker.py). The rows of app/models.py and the values of app/schemas.py
-- are in Models, the adapters' interface (app/exchanges/base.py) in Exchange, the settings that the
-- handlers read (app/config.py) in Config. Soundness has the rules by which a handler keeps a
-- property of the database in every state that it commits, Prelude the shared types and lemmas,
-- Tests the concrete inputs. Functions keep the source's names, less a leading underscore.
--
-- How code is modelled. A handler is an action on a session: it reads and writes the tables,
-- records what it sends to the venues and which notices it emits, may raise, and keeps the list of
-- committed states. An exception inside a session rolls back to its last commit. Adapters, the
-- registry of adapters, the clock and the hash of the client order ids are parameters; within one
-- handler a venue gives the same answer to the same question. Orders are found by their id,
-- positions by their key, as the tables' constraints say.
--
-- Numbers. Floats are integers on a grid: a base quantity counts units of 1e-12, a price units of
-- 1e-8, money units of 1e-20, so that quantity times price is exact. The average entry is rounded
-- down to the price grid. Instants and durations count seconds, those of the equity curve and its
-- snapshots milliseconds. The rounding of floats, the values nan and infinity (which `float` takes
-- from a form's text, and which pass a test such as <= 0 in the source), and quantities, prices or
-- sizes below zero are not modelled.
--
-- Loops are structural recursion over lists or a number of rounds; only the loop over the windows
-- of the history takes fuel, with a theorem that one round per window and one more are enough.
--
-- The endpoint, with the dedup gate that stores an alert once, is in Webhook/Endpoint, the alerts'
-- keys (app/dedup.py) in Dedup; SHA-256 is a parameter, and the text of the body and its schema
-- check come before. Reconcile models the reconciliation (app/reconcile.py): the owners of a pair
-- and the sync to the live positions, in Reconcile/Audit the replay of a strategy's fills and the
-- audit, and in Reconcile/Backfill the backfill of entry prices; the oracle's closes are a
-- parameter there. EquityBackfill models the curve from the venues' own history
-- (app/equity_backfill.py). Bybit models the adapter of Bybit (app/exchanges/bybit.py) over a
-- client that stands for its SDK: Fills the polls of the executions, Answers what an order returns,
-- Orders the orders, Status the cancel and the state of a resting one, Positions what the account
-- holds, History the history in windows, and Venue the interface that the handlers use. Dashboard
-- models the figures of the pages (app/routes/dashboard.py), Dashboard/Positions what the venues
-- hold, Dashboard/OpenPositions the open legs, Dashboard/Tally and Dashboard/Performance the profit
-- per strategy and exchange, Dashboard/Curve the equity curve and its metrics, Dashboard/Dataset
-- what the page keeps of them. FundingWorker/Snapshots (app/funding_worker.py) writes the curve's
-- points and cleans and fills it at the startup, FundingWorker/ArbSnapshots those of the arb book.
-- FundingArb/View and FundingArb/Report (app/routes/funding_arb.py) are what the arb service shows
-- of its pairs. Admin/Strategies are the forms of the strategies, Admin/Risk is the risk form and
-- Admin/Fire is the order that is fired by hand (app/routes/admin.py), the last two are steps of
-- the whole system too (Soundness/System). StrategyStore is the configuration file with its
-- operations (app/strategy_store.py), and Routing/Build is the router that parses it
-- (app/routing.py). The funding-arbitrage book has its rows in ArbModels and its symbols in Symbols
-- (app/exchanges/symbols.py). FundingArb models the routes that open and close a pair
-- (app/routes/funding_arb.py), with the request in ArbRequest (app/schemas_arb.py) and the new rows
-- in ArbRows, ArbExecutor what runs after them (app/arb_executor.py): Sizing the size of a pair,
-- Legs the placing of one leg, Opening the two legs with the hedge of what the first one filled,
-- Closing the close; its grids and the hedge are in ArbExecutor itself. FundingWorker models the
-- two funding polls (app/funding_worker.py), and RetryWorker the retries of both books.
-- Soundness/System puts all background handlers together as steps of one relation, Soundness/Intake
-- those through which new orders come in. ArbPnl models the profit roll-up (app/arb_pnl.py),
-- ArbFunding the funding of a leg (app/arb_funding.py) and the breakdown of a closed pair. Accounts
-- models the credentials of the accounts (app/config.py) and the registry of adapters with its
-- guard (app/exchanges/registry.py).
--
-- Not modelled: the venues' SDKs, the adapter of Hyperliquid, which signs its requests, HTTP
-- parsing, HTML pages, Telegram, the asyncio loops, logging, the execution table, the warnings of
-- the admin page, and the display of the reconciliation.
pub mod Admin
pub mod Prelude
pub mod Models
pub mod Session
pub mod Exchange
pub mod Routing
pub mod StrategyStore
pub mod Portfolio
pub mod Config
pub mod Executor
pub mod Dedup
pub mod Webhook
pub mod Soundness
pub mod Accounts
pub mod Symbols
pub mod ArbRequest
pub mod ArbRows
pub mod FundingArb
pub mod FundingWorker
pub mod Reconcile
pub mod ArbModels
pub mod ArbExecutor
pub mod ArbPnl
pub mod ArbFunding
pub mod RetryWorker
pub mod LimitWorker
mod Tests
pub mod EquityBackfill
pub mod Dashboard
pub mod Bybit
