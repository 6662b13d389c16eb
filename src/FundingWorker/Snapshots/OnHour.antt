-- ===== src/FundingWorker/Snapshots/OnHour.antt =====
-- Where the live snapshots stand.
use text.Mathlib.TextEquality.{eq_iff}
use mochi_position_manager.Prelude.{
  ℕ, ◌+◌, ◌-◌, ◌*◌, ◌%◌, ◌≡◌, ◌≢◌, refl, inl, inr, Bool-cases, Bool, true, false, not, ◌||◌, Option,
  none, some, String, List, [], ◌∷◌, map, any_of, select, All, All-append, ltb, arith,
}
use mochi_position_manager.Prelude.Int.{ℤ}
use mochi_position_manager.Prelude.Table.{string_key, upsert, lookup-upsert_self, lookup-upsert_ne}
use mochi_position_manager.EquityBackfill.{
  Event, Row, EquitySnapshot, is_live, hour_ms, snapshot_of, with_backfill, backfill_equity,
}
use mochi_position_manager.Dashboard.Dataset.{
  Dataset, History, cache_ttl, built, served, equity_dataset,
}
use mochi_position_manager.FundingWorker.{hour_floor}
use mochi_position_manager.FundingWorker.Snapshots.{
  write_equity_snapshot, is_marked, is_cruft, maybe_cleanup_offhour_live, BackfillStart, Answers,
  is_clean, fingerprint, pull, run_backfill, maybe_backfill_equity, startup_backfill, HistoryStep,
  HistorySteps,
}

-- A live snapshot stands on the hour.
abbrev pub OnHour : EquitySnapshot → Type 0
OnHour r = is_live r ≡ true → r.captured_at % hour_ms ≡ 0

hour_floor_on_hour : (now : ℕ) → hour_floor now * 1000 % hour_ms ≡ 0
unfolding hour_floor
hour_floor_on_hour now = grind arith

swept-OnHour : (rows : List EquitySnapshot) → All OnHour (select (λ r. not (is_cruft r)) rows)
swept-OnHour [] = tt
swept-OnHour (r ∷ rows) = elim (Bool-cases (is_cruft r)) [
  | inl b ↦ rw b (swept-OnHour rows)
  | inr b ↦ rw b ((λ h. let k = rw h at b in ground (arith, k)), swept-OnHour rows)
]

All-select :
    (test : EquitySnapshot → Bool) (rows : List EquitySnapshot)
    → All OnHour rows
    → All OnHour (select test rows)
All-select test [] h = tt
All-select test (r ∷ rows) (h, hs) = elim (Bool-cases (test r)) [
  | inl b ↦ rw b (h, All-select test rows hs)
  | inr b ↦ rw b (All-select test rows hs)
]

backfilled-OnHour : (now_ms : ℕ) (rows : List Row) → All OnHour (map (snapshot_of now_ms) rows)
backfilled-OnHour now_ms [] = tt
backfilled-OnHour now_ms (r ∷ rows) = ((λ h. ground (arith, h)), backfilled-OnHour now_ms rows)

with_backfill-OnHour :
    (round6 : ℤ → ℤ) (start_ms now_ms : ℕ) (p : Option (List Event × List Event))
    (table : List EquitySnapshot)
    → All OnHour table
    → All OnHour (with_backfill round6 start_ms now_ms p table)
with_backfill-OnHour round6 start_ms now_ms none table h = h
with_backfill-OnHour round6 start_ms now_ms (some (bybit, hl)) table h =
    All-append OnHour (select is_live table) _ (All-select is_live table h)
      (backfilled-OnHour now_ms _)

-- The cleanup is marked as done, and the live snapshots stand on the hour.
abbrev Cleaned : History → Type 0
Cleaned h = (is_marked "offhour_live_cleanup" "v1" h ≡ true) × All OnHour h.equity_snapshots

is_marked_self :
    (key value : String) (h : History)
    → string_key.same value value ≡ true
    → is_marked key value (record h { app_meta = upsert key value h.app_meta }) ≡ true
is_marked_self key value h e = rw (lookup-upsert_self key value h.app_meta) e

first_cleanup :
    (h : History)
    → is_marked "offhour_live_cleanup" "v1" h ≡ false
    → Cleaned (maybe_cleanup_offhour_live h)
unfolding maybe_cleanup_offhour_live
first_cleanup h b =
    let now_marked = is_marked_self "offhour_live_cleanup" "v1" h refl in
    elim (Bool-cases (any_of is_cruft h.equity_snapshots)) [
      | inl k ↦ rw (b, k) (now_marked, swept-OnHour h.equity_snapshots)
      | inr k ↦ rw (b, k) (now_marked, swept-OnHour h.equity_snapshots)
    ]

later_cleanup : (h : History) → Cleaned h → Cleaned (maybe_cleanup_offhour_live h)
unfolding maybe_cleanup_offhour_live
later_cleanup h (m, i) = rw m (m, i)

other_key : ◌≢◌ {A = String} "equity_backfill" "offhour_live_cleanup"
other_key e = cc ((eq_iff "equity_backfill" "offhour_live_cleanup").1 e)

module _ (c : BackfillStart) (a : Answers) (now_ms : ℕ) where
  run-Cleaned :
      (start : Option ℕ) (h : History) → Cleaned h → Cleaned (run_backfill c a now_ms start h)
  unfolding backfill_equity
  run-Cleaned none h k = k
  run-Cleaned (some start_ms) h (m, i) =
      let rows =
        with_backfill-OnHour c.round6 start_ms now_ms (pull c a now_ms start_ms) h.equity_snapshots
          i in
      elim (Bool-cases (is_clean c.round6 start_ms now_ms (pull c a now_ms start_ms))) [
        | inl b ↦ rw b (
          rw
              (lookup-upsert_ne "equity_backfill" "offhour_live_cleanup" (fingerprint c.start)
                h.app_meta other_key)
              m,
          rows,
        )
        | inr b ↦ rw b (m, rows)
      ]

  backfill-Cleaned : (h : History) → Cleaned h → Cleaned (maybe_backfill_equity c a now_ms h)
  unfolding maybe_backfill_equity
  backfill-Cleaned h k =
      elim (Bool-cases
        (string_key.same c.start "" || is_marked "equity_backfill" (fingerprint c.start) h)) [
          | inl b ↦ rw b k
          | inr b ↦ rw b (run-Cleaned c.start_ms h k)
        ]

page-Cleaned :
    (now : ℕ) (force : Bool) (fresh : Dataset) (cache : Option Dataset) (h : History)
    → Cleaned h
    → Cleaned (served now force fresh cache h).1
page-Cleaned now force fresh none h k = k
page-Cleaned now force fresh (some c) h k =
    elim (Bool-cases (force || ltb cache_ttl (now - c.at))) [ inl b ↦ rw b k | inr b ↦ rw b k ]

module _ (c : BackfillStart) (boot_ms : ℕ) where
  step-Cleaned : (h i : History) → HistoryStep c boot_ms h i → Cleaned h → Cleaned i
  unfolding equity_dataset write_equity_snapshot
  step-Cleaned h i (HistoryStep.page env routes force d g) k =
      page-Cleaned env.now force (built env routes d g) g.cache g k
  step-Cleaned h i (HistoryStep.hour env routes d g) (m, k) =
      (m, All-append OnHour g.equity_snapshots _ k ((λ e. hour_floor_on_hour env.now), tt))
  step-Cleaned h i (HistoryStep.startup a elapsed g) k =
      backfill-Cleaned c a (boot_ms + elapsed) (maybe_cleanup_offhour_live g) (later_cleanup g k)

  steps-Cleaned : {h i : History} → HistorySteps c boot_ms h i → Cleaned h → Cleaned i
  steps-Cleaned (HistorySteps.done h) k = k
  steps-Cleaned (HistorySteps.next r rs) k = steps-Cleaned rs (step-Cleaned _ _ r k)

  -- The points of the curve stand on the hour: once the startup task ran over a history that was not cleaned
  -- before, whatever stood in it and whatever the venues answered, every live snapshot stands on the
  -- hour, and stays so whatever pages are shown, snapshots written and startup tasks run after it.
  pub startup-OnHour :
      (a : Answers) (now_ms : ℕ) (h i : History)
      → is_marked "offhour_live_cleanup" "v1" h ≡ false
      → HistorySteps c boot_ms (startup_backfill c a now_ms h) i
      → All OnHour i.equity_snapshots
  startup-OnHour a now_ms h i b steps =
      (steps-Cleaned steps
        (backfill-Cleaned c a now_ms (maybe_cleanup_offhour_live h) (first_cleanup h b))).1
