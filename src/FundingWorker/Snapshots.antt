-- ===== src/FundingWorker/Snapshots.antt =====
-- The snapshots of the equity curve (app/funding_worker.py): the hourly one, the removal of old live ones
-- that stand off the hour, and the backfill, which is done once for each version and start.
pub mod Coherent
pub mod OnHour
use Prim.Native.String.{◌++◌ as text_append}
use mochi_position_manager.Prelude.{
  ℕ, ◌+◌, ◌*◌, ◌%◌, String, Bool, true, false, not, ◌&&◌, ◌||◌, Option, none, some, List, [], ◌∷◌,
  ◌++◌, any_of, select, length, ltb, ◌==◌, if◌then◌else◌,
}
use mochi_position_manager.Prelude.Int.{ℤ}
use mochi_position_manager.Prelude.Table.{string_key, lookup, upsert}
use mochi_position_manager.Session.{Db, Result}
use mochi_position_manager.Config.{Env}
use mochi_position_manager.Routing.{StrategyRoute}
use mochi_position_manager.EquityBackfill.{
  Event, Source, EquitySnapshot, is_live, hour_ms, pulled, build_daily_rows, backfill_equity,
}
use mochi_position_manager.Dashboard.Performance.{Performance, performance}
use mochi_position_manager.Dashboard.Dataset.{
  History, by_exchange_totals, by_strategy_totals, clear_equity_cache, equity_dataset,
}
use mochi_position_manager.FundingWorker.{hour_floor}

abbrev pub live_snapshot : (captured_at : ℕ) → Performance → EquitySnapshot
live_snapshot captured_at perf = record {
  captured_at = captured_at;
  total_pnl = perf.totals.total;
  realized = perf.totals.realized;
  unrealized = perf.totals.unrealized;
  funding = perf.totals.funding;
  commission = perf.totals.commission;
  by_exchange = by_exchange_totals perf;
  by_strategy = by_strategy_totals perf;
  source = Source.live;
}

abbrev pub with_snapshot : EquitySnapshot → History → History
with_snapshot s h =
    clear_equity_cache (record h { equity_snapshots = h.equity_snapshots ++ s ∷ [] })

-- `write_equity_snapshot`, where the database takes the row. The clock counts seconds.
unfoldable pub write_equity_snapshot :
    Env → List StrategyRoute → (captured_at : Option ℕ) → Db → History → Bool × History
write_equity_snapshot env routes none d h =
    (true, with_snapshot (live_snapshot (env.now * 1000) (performance env routes d)) h)
write_equity_snapshot env routes (some t) d h =
    (true, with_snapshot (live_snapshot (t * 1000) (performance env routes d)) h)

-- The snapshot of `funding_loop`, stamped on the hour.
abbrev pub hourly_snapshot : Env → List StrategyRoute → Db → History → History
hourly_snapshot env routes d h =
    (write_equity_snapshot env routes (some (hour_floor env.now)) d h).1

-- `db.merge(AppMeta(key=..., value=...))`, and the test of a marker.
abbrev pub marked : (key value : String) → History → History
marked key value h = record h { app_meta = upsert key value h.app_meta }

abbrev pub is_value : (value : String) → Option String → Bool
is_value value none = false
is_value value (some v) = string_key.same v value

abbrev pub is_marked : (key value : String) → History → Bool
is_marked key value h = is_value value (lookup key h.app_meta)

-- A live row off the hour.
abbrev pub is_cruft : EquitySnapshot → Bool
is_cruft r = is_live r && not (r.captured_at % hour_ms == 0)

abbrev pub swept : History → History
swept h = record h { equity_snapshots = select (λ r. not (is_cruft r)) h.equity_snapshots }

-- `_maybe_cleanup_offhour_live`.
unfoldable pub maybe_cleanup_offhour_live : History → History
maybe_cleanup_offhour_live h =
    if is_marked "offhour_live_cleanup" "v1" h
    then h
    else if any_of is_cruft h.equity_snapshots
    then clear_equity_cache (marked "offhour_live_cleanup" "v1" (swept h))
    else marked "offhour_live_cleanup" "v1" (swept h)

-- The setting EQUITY_BACKFILL_START, stripped, and its day in milliseconds as `strptime` reads it;
-- `round6` is `round(x, 6)`.
pub record BackfillStart : Type 0 where
  pub start : String
  pub start_ms : Option ℕ
  pub round6 : ℤ → ℤ

-- What the venues answer to the pull: Bybit's closed profits and funding, Hyperliquid's history.
pub record Answers : Type 0 where
  pub closed_pnl : (start_ms now_ms : ℕ) → Result (List Event)
  pub account_funding : (start_ms now_ms : ℕ) → Result (List Event)
  pub pnl_history : Result (List Event)

-- `s["rows"] > 0 and not s["errors"]`.
abbrev pub is_clean :
    (round6 : ℤ → ℤ) (start_ms now_ms : ℕ) → Option (List Event × List Event) → Bool
is_clean round6 start_ms now_ms none = false
is_clean round6 start_ms now_ms (some (bybit, hl)) =
    ltb 0 (length (build_daily_rows round6 start_ms bybit hl now_ms))

abbrev pub fingerprint : String → String
fingerprint start = text_append "v2:" start

module _ (c : BackfillStart) (a : Answers) (now_ms : ℕ) where
  abbrev pub pull : (start_ms : ℕ) → Option (List Event × List Event)
  pull start_ms =
      pulled (a.closed_pnl start_ms now_ms) (a.account_funding start_ms now_ms) a.pnl_history

  abbrev pub filled_in : (start_ms : ℕ) → History → History
  filled_in start_ms h = record h {
    equity_snapshots =
        backfill_equity c.round6 start_ms now_ms (a.closed_pnl start_ms now_ms)
          (a.account_funding start_ms now_ms) a.pnl_history h.equity_snapshots;
  }

  -- The backfill from a start that could be read, marked as done after a clean run.
  abbrev pub run_backfill : Option ℕ → History → History
  run_backfill none h = h
  run_backfill (some start_ms) h =
      if is_clean c.round6 start_ms now_ms (pull start_ms)
      then clear_equity_cache
          (marked "equity_backfill" (fingerprint c.start) (filled_in start_ms h))
      else filled_in start_ms h

  -- `_maybe_backfill_equity`.
  unfoldable pub maybe_backfill_equity : History → History
  maybe_backfill_equity h =
      if string_key.same c.start "" || is_marked "equity_backfill" (fingerprint c.start) h
      then h
      else run_backfill c.start_ms h

  -- `_startup_backfill`, unless the process stops first.
  abbrev pub startup_backfill : History → History
  startup_backfill h = maybe_backfill_equity (maybe_cleanup_offhour_live h)

-- What happens to the curve while the process runs, from an instant on: pages are shown, the worker writes
-- the snapshot of the hour, and the task of the startup runs.
pub data HistoryStep (c : BackfillStart) (boot_ms : ℕ) : History → History → Type 0 where
  page :
      (env : Env) (routes : List StrategyRoute) (force : Bool) (d : Db) (h : History)
      → HistoryStep c boot_ms h (equity_dataset env routes force d h).1
  hour :
      (env : Env) (routes : List StrategyRoute) (d : Db) (h : History)
      → HistoryStep c boot_ms h (hourly_snapshot env routes d h)
  startup :
      (a : Answers) (elapsed : ℕ) (h : History)
      → HistoryStep c boot_ms h (startup_backfill c a (boot_ms + elapsed) h)

pub data HistorySteps (c : BackfillStart) (boot_ms : ℕ) : History → History → Type 0 where
  done : (h : History) → HistorySteps c boot_ms h h
  next :
      {h i j : History}
      → HistoryStep c boot_ms h i
      → HistorySteps c boot_ms i j
      → HistorySteps c boot_ms h j
