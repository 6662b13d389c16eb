-- ===== src/Tests/Snapshots.antt =====
-- A curve with an old snapshot off the hour, from the startup to the next page.
use mochi_position_manager.Prelude.{
  ℕ, ◌*◌, ◌+◌, ◌≡◌, ◌≤◌, refl, none, some, [], ◌∷◌, map, All, arith, false,
}
use mochi_position_manager.Prelude.Int.{pos}
use mochi_position_manager.Prelude.Table.{lookup, upsert}
use mochi_position_manager.Session.{ok}
use mochi_position_manager.EquityBackfill.{
  Source, EquitySnapshot, day_ms, hour_ms, insert_event, by_ts, walk, daily_loop, build_daily_rows,
  pulled, backfill_equity,
}
use mochi_position_manager.Dashboard.Dataset.{
  History, load_snapshots, load_strategy_snapshots, equity_dataset,
}
use mochi_position_manager.FundingWorker.Snapshots.{
  BackfillStart, Answers, hourly_snapshot, is_marked, startup_backfill, maybe_cleanup_offhour_live,
  maybe_backfill_equity, HistorySteps, HistoryStep,
}
use mochi_position_manager.FundingWorker.Snapshots.Coherent.{equity_dataset-Coherent}
use mochi_position_manager.FundingWorker.Snapshots.OnHour.{OnHour, startup-OnHour}
use mochi_position_manager.Tests.Data.{env, route, long_db}

abbrev start : BackfillStart
start = record { start = "1970-01-02"; start_ms = some day_ms; round6 = λ x. x }

abbrev answers : Answers
answers = record {
  closed_pnl = λ from to. ok ((day_ms + 5, pos 40) ∷ []);
  account_funding = λ from to. ok [];
  pnl_history = ok [];
}

abbrev snapshot : (captured_at : ℕ) → EquitySnapshot
snapshot captured_at = record {
  captured_at = captured_at;
  total_pnl = pos 7;
  realized = pos 7;
  unrealized = pos 0;
  funding = pos 0;
  commission = pos 0;
  by_exchange = [];
  by_strategy = [];
  source = Source.live;
}

abbrev old : History
old = record {
  equity_snapshots = snapshot 90 ∷ snapshot (2 * hour_ms) ∷ [];
  app_meta = [];
  cache = none;
}

abbrev boot : ℕ
boot = 2 * day_ms

abbrev cleaned : History
cleaned = startup_backfill start answers boot old

abbrev later : History
later = hourly_snapshot env (route ∷ []) long_db cleaned

not_cleaned : is_marked "offhour_live_cleanup" "v1" old ≡ false
unfolding lookup
not_cleaned = refl

startup-OnHour_example : All OnHour later.equity_snapshots
startup-OnHour_example = startup-OnHour start boot answers boot old later not_cleaned (
    HistorySteps.next (HistoryStep.hour env (route ∷ []) long_db cleaned) (HistorySteps.done later))

starts_before : (start_ms : ℕ) → start.start_ms ≡ some start_ms → start_ms ≤ boot
starts_before start_ms e = ground (arith, e)

equity_dataset-Coherent_example :
    let shown = (equity_dataset env (route ∷ []) false long_db later).0 in
    (shown.snapshots ≡ load_snapshots later.equity_snapshots)
    × (shown.strat_snapshots ≡ load_strategy_snapshots later.equity_snapshots)
equity_dataset-Coherent_example =
    equity_dataset-Coherent start boot starts_before {h = old} {i = later} env (route ∷ []) false
      long_db refl
      (HistorySteps.next (HistoryStep.startup answers 0 old) (
        HistorySteps.next (HistoryStep.hour env (route ∷ []) long_db cleaned)
          (HistorySteps.done later)))

-- The snapshot off the hour is gone; the backfill has a row for each of the two days, at noon and at the
-- hour of the boot.
test_startup :
    map (λ r. r.captured_at) cleaned.equity_snapshots
    ≡ (2 * hour_ms) ∷ (day_ms + 12 * hour_ms) ∷ (2 * day_ms) ∷ []
unfolding maybe_cleanup_offhour_live maybe_backfill_equity backfill_equity build_daily_rows
    daily_loop walk by_ts insert_event pulled lookup upsert
test_startup = refl
