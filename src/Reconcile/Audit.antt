-- ===== src/Reconcile/Audit.antt =====
-- The audit of app/reconcile.py: a strategy's own fills are replayed against its row, and the netted
-- ledger of a pair is held against the venue's position.
use text.Mathlib.Text.{◌==◌ as str_eq}
use mochi_position_manager.Prelude.{
  ℕ, ◌/◌, String, Bool, true, false, ◌&&◌, ◌||◌, not, Option, none, some, List, [], ◌∷◌, any_of,
  select, leb, ltb, ◌==◌, if◌then◌else◌,
}
use mochi_position_manager.Prelude.Int.{ℤ, pos, abs, ◌+ℤ◌, ◌-ℤ◌}
use mochi_position_manager.Prelude.Table.{string_key, pair_key}
use mochi_position_manager.Models.{
  Side, sell, same_side, signed_qty, is_success, Order, StrategyPosition, money_unit, base_unit,
  flat_eps,
}
use mochi_position_manager.Session.{Db, Result, ok, raised}
use mochi_position_manager.Config.{Env}
use mochi_position_manager.Executor.Fills.{fill_math}
use mochi_position_manager.Webhook.{is_of_strategy}
use mochi_position_manager.ArbExecutor.Sizing.{asked}
use mochi_position_manager.Reconcile.{Pair, oracle_symbol}

-- The filled orders of a strategy at one venue, by their time; SQLite keeps the order of equals.
abbrev pub is_fill_of : (strategy_id exchange symbol : String) → Db → Order → Bool
is_fill_of strategy_id exchange symbol d o =
    is_of_strategy strategy_id d o
    && (str_eq o.exchange exchange && (str_eq o.symbol symbol && is_success o.status))

unfoldable pub insert_order : Order → List Order → List Order
insert_order o [] = o ∷ []
insert_order o (x ∷ xs) =
    if leb o.created_at x.created_at then o ∷ x ∷ xs else x ∷ insert_order o xs

unfoldable pub by_time : List Order → List Order
by_time [] = []
by_time (o ∷ os) = insert_order o (by_time os)

abbrev pub fills_of : (strategy_id exchange symbol : String) → Db → List Order
fills_of strategy_id exchange symbol d =
    by_time (select (is_fill_of strategy_id exchange symbol d) d.orders)

-- A recorded fill price, above zero.
abbrev pub recorded_price : Option ℕ → Option ℕ
recorded_price none = none
recorded_price (some p) = if p == 0 then none else some p

-- The price of a fill: the recorded one, or the oracle's close at its minute.
abbrev pub price_of : (kline : ℕ → Result ℕ) → Order → Option ℕ → Result ℕ
price_of kline o none = kline o.created_at
price_of kline o (some p) = ok p

pub record Replay : Type 0 where
  pub net : ℤ
  pub avg : ℕ
  pub realized : ℤ

abbrev pub flat : Replay
flat = record { net = pos 0; avg = 0; realized = pos 0 }

abbrev pub replay_one : Replay → Side → (qty price : ℕ) → Replay
replay_one r side qty price =
    let (net, avg, delta) = fill_math r.net r.avg (signed_qty side qty) qty price in
    record { net = net; avg = avg; realized = r.realized +ℤ delta }

-- The loop over the fills of the audit, which stops at a fill that has no price or no quantity.
unfoldable pub replay : (kline : ℕ → Result ℕ) → Replay → List Order → Result (Option Replay)
replay kline r [] = ok (some r)
replay kline r (o ∷ os) = asked (price_of kline o (recorded_price o.fill_price)) λ price.
    if price == 0 || o.qty_base == 0
    then ok none
    else replay kline (replay_one r o.side o.qty_base price) os

-- The thresholds of the audit: $0.50, and 1e-4 of the base asset.
abbrev pub realized_eps : ℕ
realized_eps = money_unit / 2

abbrev pub net_eps : ℕ
net_eps = base_unit / 10000

pub data StrategyIssue : Type 0 where
  unpriced_fill : StrategyIssue
  drifted :
      (realized_drift net_drift : ℤ) (suspect_truncated unpriced actionable : Bool) → StrategyIssue

abbrev pub is_missing : Option ℕ → Bool
is_missing none = true
is_missing (some p) = p == 0

abbrev pub is_unpriced : Order → Bool
is_unpriced o = is_missing o.fill_price

abbrev pub starts_with_sell : List Order → Bool
starts_with_sell [] = false
starts_with_sell (o ∷ os) = same_side o.side sell

-- What the audit says of a row and its replayed fills.
unfoldable pub judge : StrategyPosition → List Order → Option Replay → Option StrategyIssue
judge sp fills none = some unpriced_fill
judge sp fills (some r) =
    let realized_drift = r.realized -ℤ sp.realized_pnl in
    let net_drift = r.net -ℤ sp.net_qty_base in
    let suspect = starts_with_sell fills in
    let unpriced = any_of is_unpriced fills in
    if ltb realized_eps (abs realized_drift) || ltb net_eps (abs net_drift)
    then some (drifted realized_drift net_drift suspect unpriced (not unpriced && not suspect))
    else none

-- The first check of `audit_pnl`, for one row; a strategy without fills is left out.
unfoldable pub audit_row :
    (kline : ℕ → Result ℕ) → StrategyPosition → List Order → Result (Option StrategyIssue)
audit_row kline sp [] = ok none
audit_row kline sp (o ∷ os) = asked (replay kline flat (o ∷ os)) λ r. ok (judge sp (o ∷ os) r)

abbrev pub reported :
    String × Pair
    → Option StrategyIssue
    → List ((String × Pair) × StrategyIssue)
    → List ((String × Pair) × StrategyIssue)
reported key none issues = issues
reported key (some issue) issues = (key, issue) ∷ issues

-- The first check, over all rows.
unfoldable pub audit_rows :
    Env
    → (oracle : (symbol : String) (created_at : ℕ) → Result ℕ) → Db
    → List ((String × Pair) × StrategyPosition)
    → Result (List ((String × Pair) × StrategyIssue))
audit_rows env oracle d [] = ok []
audit_rows env oracle d (((strategy_id, (exchange, symbol)), sp) ∷ rows) =
    let rest = audit_rows env oracle d rows in
    asked
      (audit_row (oracle (oracle_symbol env exchange symbol)) sp
        (fills_of strategy_id exchange symbol d))
      λ found. asked rest λ issues. ok (reported (strategy_id, (exchange, symbol)) found issues)

-- The second check: the netted ledger of a pair against the venue's live position.
pub data ExchangeDrift : Type 0 where
  read_failed : (why : String) → ExchangeDrift
  drift : (ledger_net exchange_net : ℤ) → ExchangeDrift

unfoldable pub netted : Pair → List ((String × Pair) × StrategyPosition) → ℤ
netted pair [] = pos 0
netted pair (((strategy, place), sp) ∷ rows) =
    if pair_key.same place pair then sp.net_qty_base +ℤ netted pair rows else netted pair rows

abbrev pub against : (ledger_net : ℤ) → Result (ℤ × ℕ) → Option ExchangeDrift
against ledger_net (raised e) = some (read_failed e)
against ledger_net (ok (live, price)) =
    if ltb net_eps (abs (live -ℤ ledger_net)) then some (drift ledger_net live) else none

unfoldable pub audit_pair : Env → Db → Pair → Option ExchangeDrift
audit_pair env d (exchange, symbol) =
    let ledger_net = netted (exchange, symbol) d.strategy_positions in
    if ltb (abs ledger_net) flat_eps
    then none
    else against ledger_net (asked (env.registry exchange "default") λ ex. ex.get_position symbol)

-- Whether nothing that was found asks for an operator.
abbrev pub is_actionable : (String × Pair) × StrategyIssue → Bool
is_actionable (key, drifted r n s u actionable) = actionable
is_actionable (key, unpriced_fill) = false

abbrev pub is_clean : List ((String × Pair) × StrategyIssue) → List (Pair × ExchangeDrift) → Bool
is_clean issues [] = not (any_of is_actionable issues)
is_clean issues (found ∷ drifts) = false
