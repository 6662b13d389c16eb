-- ===== src/Executor/Ledger.antt =====
-- The ledger writes of app/executor.py: the aggregate position, the strategy's position, and the
-- two commits around them.
pub mod Agreement
use mochi_position_manager.Prelude.{ℕ, String, Option, none, some, ◌∷◌}
use mochi_position_manager.Prelude.Int.{ℤ, pos, ◌+ℤ◌, ◌*ℤ◌}
use mochi_position_manager.Prelude.Table.{lookup, upsert, string_key, pair_key}
use mochi_position_manager.Models.{Side, signed_qty, Position, StrategyPosition}
use mochi_position_manager.Session.{Db, Action, ok}
use mochi_position_manager.Executor.Fills.{fill_math}

-- `_bump_position`: insert or increment, in one statement.
abbrev pub bumped : (signed_delta : ℤ) (price now : ℕ) → Option Position → Position
bumped signed_delta price now none = record {
  net_qty_base = signed_delta;
  net_qty_usd = signed_delta *ℤ pos price;
  last_price = price;
  updated_at = now;
}
bumped signed_delta price now (some row) = record {
  net_qty_base = row.net_qty_base +ℤ signed_delta;
  net_qty_usd = (row.net_qty_base +ℤ signed_delta) *ℤ pos price;
  last_price = price;
  updated_at = now;
}

pub bump_position : (exchange symbol : String) (signed_delta : ℤ) (price now : ℕ) → Db → Db
bump_position exchange symbol signed_delta price now d = record d {
  positions =
      upsert (exchange, symbol)
        (bumped signed_delta price now (lookup (exchange, symbol) d.positions)) d.positions;
}

-- The new row of `_apply_strategy_fill`, and the profit that the fill booked.
unfoldable pub strategy_fill :
    (signed : ℤ) (qty price now : ℕ) → Option StrategyPosition → StrategyPosition × ℤ
strategy_fill signed qty price now none = (
  record {
    net_qty_base = signed;
    net_qty_usd = signed *ℤ pos price;
    last_price = price;
    avg_entry_price = price;
    realized_pnl = pos 0;
    updated_at = now;
  },
  pos 0,
)
strategy_fill signed qty price now (some row) =
    let (new_net, new_avg, realized_delta) =
      fill_math row.net_qty_base row.avg_entry_price signed qty price in
    (
      record {
        net_qty_base = new_net;
        net_qty_usd = new_net *ℤ pos price;
        last_price = price;
        avg_entry_price = new_avg;
        realized_pnl = row.realized_pnl +ℤ realized_delta;
        updated_at = now;
      },
      realized_delta,
    )

pub apply_strategy_fill :
    (strategy_id exchange symbol : String) (signed : ℤ) (qty price now : ℕ) → Db → Db × ℤ
apply_strategy_fill strategy_id exchange symbol signed qty price now d =
    let key : String × (String × String) = (strategy_id, (exchange, symbol)) in
    let (row, realized_delta) =
      strategy_fill signed qty price now (lookup key d.strategy_positions) in
    (record d { strategy_positions = upsert key row d.strategy_positions }, realized_delta)

-- Both ledgers after a fill.
pub filled_db :
    (strategy_id exchange symbol : String) (side : Side) (qty_base price now : ℕ) → Db → Db × ℤ
filled_db strategy_id exchange symbol side qty_base price now d =
    let signed = signed_qty side qty_base in
    apply_strategy_fill strategy_id exchange symbol signed qty_base price now
      (bump_position exchange symbol signed price now d)

-- `_apply_fill_to_position`. The lock serializes the callers; the first commit writes what the
-- caller has changed before, the second one the ledgers.
unfoldable pub apply_fill_to_position :
    (strategy_id exchange symbol : String) (side : Side) (qty_base price now : ℕ) → Action ℤ
apply_fill_to_position strategy_id exchange symbol side qty_base price now s =
    let (d, realized_delta) =
      filled_db strategy_id exchange symbol side qty_base price now s.current in
    (ok realized_delta, record s { current = d; commits = d ∷ s.current ∷ s.commits })
