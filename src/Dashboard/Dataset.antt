-- ===== src/Dashboard/Dataset.antt =====
-- What the performance page reads and keeps for a while (app/routes/dashboard.py): the snapshots of the
-- equity curve, those of the strategies, and the breakdown. A snapshot's JSON is kept as its mapping, and
-- the execution table is left out.
use Prim.Native.Nat.{Ordering}
use Prim.Native.String.{compare}
use mochi_position_manager.Prelude.{
  ℕ, ◌-◌, String, Bool, true, false, ◌||◌, Option, none, some, List, [], ◌∷◌, map, ltb, leb,
  if◌then◌else◌,
}
use mochi_position_manager.Prelude.Int.{ℤ}
use mochi_position_manager.Prelude.Totals.{total}
use mochi_position_manager.Session.{Db}
use mochi_position_manager.Config.{Env}
use mochi_position_manager.Routing.{StrategyRoute}
use mochi_position_manager.EquityBackfill.{EquitySnapshot}
use mochi_position_manager.Dashboard.Curve.{SnapshotRow}
use mochi_position_manager.Dashboard.Performance.{Performance, row_total, performance}

-- `_by_exchange_totals`.
unfoldable pub by_exchange_totals : Performance → List (String × ℤ)
by_exchange_totals perf = map (λ (ex, r). (ex, row_total r)) perf.per_exchange

abbrev pub text_before : String → String → Bool
text_before a b = elim (compare a b) [ Ordering.gt ↦ false | _ ↦ true ]

unfoldable pub insert_total : String × ℤ → List (String × ℤ) → List (String × ℤ)
insert_total x [] = x ∷ []
insert_total x (y ∷ ys) = if text_before x.0 y.0 then x ∷ y ∷ ys else y ∷ insert_total x ys

unfoldable pub by_name : List (String × ℤ) → List (String × ℤ)
by_name [] = []
by_name (x ∷ xs) = insert_total x (by_name xs)

-- `_by_strategy_totals`, sorted by the strategies' ids.
unfoldable pub by_strategy_totals : Performance → List (String × ℤ)
by_strategy_totals perf = by_name (map (λ (sid, r). (sid, row_total r)) perf.per_strategy)

-- `order_by(captured_at)`.
unfoldable pub insert_snapshot : EquitySnapshot → List EquitySnapshot → List EquitySnapshot
insert_snapshot s [] = s ∷ []
insert_snapshot s (x ∷ xs) =
    if leb s.captured_at x.captured_at then s ∷ x ∷ xs else x ∷ insert_snapshot s xs

unfoldable pub in_time : List EquitySnapshot → List EquitySnapshot
in_time [] = []
in_time (s ∷ ss) = insert_snapshot s (in_time ss)

-- `_load_snapshots`.
unfoldable pub load_snapshots : List EquitySnapshot → List SnapshotRow
load_snapshots table =
    map (λ s. record { at = s.captured_at; total = s.total_pnl; by = s.by_exchange })
      (in_time table)

-- A row without a breakdown by strategy is left out.
abbrev pub and_parts : (at : ℕ) → List (String × ℤ) → List SnapshotRow → List SnapshotRow
and_parts at [] rest = rest
and_parts at (p ∷ parts) rest =
    record { at = at; total = total (λ name v. v) (p ∷ parts); by = p ∷ parts } ∷ rest

unfoldable pub strategy_rows : List EquitySnapshot → List SnapshotRow
strategy_rows [] = []
strategy_rows (s ∷ ss) = and_parts s.captured_at s.by_strategy (strategy_rows ss)

-- `_load_strategy_snapshots`.
unfoldable pub load_strategy_snapshots : List EquitySnapshot → List SnapshotRow
load_strategy_snapshots table = strategy_rows (in_time table)

-- `_EQ_CACHE`, when it is filled.
pub record Dataset : Type 0 where
  pub at : ℕ
  pub snapshots : List SnapshotRow
  pub perf : Performance
  pub strat_snapshots : List SnapshotRow

-- The tables of the curve, and the cache.
pub record History : Type 0 where
  pub equity_snapshots : List EquitySnapshot
  pub app_meta : List (String × String)
  pub cache : Option Dataset

-- `_EQ_CACHE_TTL`, in seconds.
abbrev pub cache_ttl : ℕ
cache_ttl = 30

abbrev pub built : Env → List StrategyRoute → Db → History → Dataset
built env routes d h = record {
  at = env.now;
  snapshots = load_snapshots h.equity_snapshots;
  perf = performance env routes d;
  strat_snapshots = load_strategy_snapshots h.equity_snapshots;
}

abbrev pub served :
    (now : ℕ) (force : Bool) (fresh : Dataset) → Option Dataset → History → Dataset × History
served now force fresh none h = (fresh, record h { cache = some fresh })
served now force fresh (some c) h =
    if force || ltb cache_ttl (now - c.at) then (fresh, record h { cache = some fresh }) else (c, h)

-- `_equity_dataset`.
unfoldable pub equity_dataset :
    Env → List StrategyRoute → (force : Bool) → Db → History → Dataset × History
equity_dataset env routes force d h = served env.now force (built env routes d h) h.cache h

-- `_clear_equity_cache`.
abbrev pub clear_equity_cache : History → History
clear_equity_cache h = record h { cache = none }
