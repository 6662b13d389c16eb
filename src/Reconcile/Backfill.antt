-- ===== src/Reconcile/Backfill.antt =====
-- The backfill of entry prices from a strategy's own fills (app/reconcile.py,
-- backfill_pnl_from_klines).
pub mod Entries
use mochi_position_manager.Prelude.{
  ℕ, ◌/◌, String, Bool, ◌&&◌, Option, none, some, List, [], ◌∷◌, max, leb, ltb, if◌then◌else◌,
}
use mochi_position_manager.Prelude.Int.{ℤ, pos, abs, ◌-ℤ◌}
use mochi_position_manager.Models.{Order, StrategyPosition, base_unit, price_unit}
use mochi_position_manager.Session.{
  Db, Result, ok, Action, ◌>>=◌, ◌>>◌, lift, reads, modify, session_scope,
}
use mochi_position_manager.Config.{Env}
use mochi_position_manager.ArbExecutor.Sizing.{asked}
use mochi_position_manager.Reconcile.{Pair, oracle_symbol}
use mochi_position_manager.Reconcile.Audit.{Replay, flat, replay, fills_of}

-- The fills explain the row's net: within 1 % of it, or 1e-6 of the base asset.
abbrev pub net_matches : (net stored : ℤ) → Bool
net_matches net stored = leb (abs (net -ℤ stored)) (max (base_unit / 1000000) (abs stored / 100))

-- An entry that the replay found, and that is off by more than 0.01.
abbrev pub is_off : (avg stored : ℕ) → Bool
is_off avg stored = ltb 0 avg && ltb (price_unit / 100) (abs (pos avg -ℤ pos stored))

abbrev pub rewritten : (now : ℕ) → StrategyPosition → Replay → StrategyPosition
rewritten now sp r =
    if net_matches r.net sp.net_qty_base && is_off r.avg sp.avg_entry_price
    then record sp { avg_entry_price = r.avg; updated_at = now }
    else sp

-- A replay that lacked a price changes nothing.
abbrev pub rebuilt : (now : ℕ) → StrategyPosition → Option Replay → StrategyPosition
rebuilt now sp none = sp
rebuilt now sp (some r) = rewritten now sp r

-- One row; a row without fills stays.
unfoldable pub backfill_row :
    (now : ℕ) (kline : ℕ → Result ℕ) → StrategyPosition → List Order → Result StrategyPosition
backfill_row now kline sp [] = ok sp
backfill_row now kline sp (o ∷ os) = asked (replay kline flat (o ∷ os)) λ r. ok (rebuilt now sp r)

-- The oracle's closes of a symbol, which the venues' adapters do not carry in this development.
abbrev pub Oracle : Type 0
Oracle = (symbol : String) (created_at : ℕ) → Result ℕ

-- The loop over the rows.
unfoldable pub backfill_rows :
    Env
    → Oracle
    → Db
    → List ((String × Pair) × StrategyPosition)
    → Result (List ((String × Pair) × StrategyPosition))
backfill_rows env oracle d [] = ok []
backfill_rows env oracle d (((strategy_id, (exchange, symbol)), sp) ∷ rows) =
    let rest = backfill_rows env oracle d rows in
    asked
      (backfill_row env.now (oracle (oracle_symbol env exchange symbol)) sp
        (fills_of strategy_id exchange symbol d))
      λ sp'. asked rest λ rows'. ok (((strategy_id, (exchange, symbol)), sp') ∷ rows')

abbrev pub with_rows : List ((String × Pair) × StrategyPosition) → Db → Db
with_rows rows d = record d { strategy_positions = rows }

-- `backfill_pnl_from_klines`, less its report.
unfoldable pub backfill_pnl_from_klines : Env → Oracle → Action (Unit {0})
backfill_pnl_from_klines env oracle = do
  ex ← lift (env.registry "bybit" "default")
  session_scope (do
    d ← reads (λ d. d)
    rows ← lift (backfill_rows env oracle d d.strategy_positions)
    modify (with_rows rows))
