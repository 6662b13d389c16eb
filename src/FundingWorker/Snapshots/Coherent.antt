-- ===== src/FundingWorker/Snapshots/Coherent.antt =====
-- What the performance page shows, and what the table holds.
use mochi_position_manager.Prelude.{
  ℕ, zero, suc, ◌+◌, ◌-◌, ◌/◌, ◌≤◌, ◌<◌, ◌≡◌, refl, ap, inl, inr, Bool-cases, Bool, true, false,
  not, ◌||◌, Option, none, some, List, [], ◌∷◌, any_of, select, ltb, length, arith,
}
use mochi_position_manager.Prelude.Int.{ℤ}
use mochi_position_manager.Prelude.Table.{string_key}
use mochi_position_manager.Session.{Db}
use mochi_position_manager.Config.{Env}
use mochi_position_manager.Routing.{StrategyRoute}
use mochi_position_manager.EquityBackfill.{
  Event, EquitySnapshot, day_ms, daily_loop, build_daily_rows, backfill_equity,
}
use mochi_position_manager.Dashboard.Dataset.{
  Dataset, History, load_snapshots, load_strategy_snapshots, cache_ttl, built, served,
  equity_dataset,
}
use mochi_position_manager.FundingWorker.Snapshots.{
  write_equity_snapshot, is_marked, is_cruft, maybe_cleanup_offhour_live, BackfillStart, Answers,
  fingerprint, pull, run_backfill, maybe_backfill_equity, startup_backfill, HistoryStep,
  HistorySteps,
}

-- A dataset that holds the snapshots of the table.
abbrev Holds : List EquitySnapshot → Dataset → Type 0
Holds table c =
    (c.snapshots ≡ load_snapshots table) × (c.strat_snapshots ≡ load_strategy_snapshots table)

abbrev InStep : List EquitySnapshot → Option Dataset → Type 0
InStep table none = Unit
InStep table (some c) = Holds table c

-- The cache is empty, or holds the snapshots of the table.
abbrev pub Coherent : History → Type 0
Coherent h = InStep h.equity_snapshots h.cache

served-Holds :
    (table : List EquitySnapshot) (now : ℕ) (force : Bool) (fresh : Dataset)
    (cache : Option Dataset) (h : History)
    → h.equity_snapshots ≡ table
    → h.cache ≡ cache
    → Holds table fresh
    → InStep table cache
    → Holds table (served now force fresh cache h).0 × Coherent (served now force fresh cache h).1
served-Holds table now force fresh none h e k f i = (f, rw e f)
served-Holds table now force fresh (some c) h e k f i =
    elim (Bool-cases (force || ltb cache_ttl (now - c.at))) [
      | inl b ↦ rw b (f, rw e f)
      | inr b ↦ rw b (i, rw (e, k) i)
    ]

dataset-Coherent :
    (env : Env) (routes : List StrategyRoute) (force : Bool) (d : Db) (h : History)
    → Coherent h
    → Holds h.equity_snapshots (equity_dataset env routes force d h).0
      × Coherent (equity_dataset env routes force d h).1
unfolding equity_dataset
dataset-Coherent env routes force d h i =
    served-Holds h.equity_snapshots env.now force (built env routes d h) h.cache h refl refl
      (refl, refl) i

module _ {A : Type 0} (test : A → Bool) where
  -- If nothing is to go, everything stays.
  select_all : (xs : List A) → any_of test xs ≡ false → select (λ x. not (test x)) xs ≡ xs
  select_all [] h = refl
  select_all (x ∷ xs) h = elim (Bool-cases (test x)) [
    | inl b ↦ let k = rw b at h in ground (arith, k)
    | inr b ↦ let k = rw b at h in rw b (ap (λ l. x ∷ l) (select_all xs k))
  ]

cleanup-Coherent : (h : History) → Coherent h → Coherent (maybe_cleanup_offhour_live h)
unfolding maybe_cleanup_offhour_live
cleanup-Coherent h i = elim (Bool-cases (is_marked "offhour_live_cleanup" "v1" h)) [
  | inl b ↦ rw b i
  | inr b ↦ elim (Bool-cases (any_of is_cruft h.equity_snapshots)) [
    | inl k ↦ rw (b, k) tt
    | inr k ↦ rw (b, k) (rw (select_all is_cruft h.equity_snapshots k) i)
  ]
]

-- A backfill that does not start after now has a row at least.
loop_rows :
    (round6 : ℤ → ℤ) (start_ms : ℕ) (base : ℤ) (days d : ℕ) (b k : ℤ) (bybit hl : List Event)
    → 0 < days
    → ltb 0 (length (daily_loop round6 start_ms base days d b k bybit hl)) ≡ true
unfolding daily_loop
loop_rows round6 start_ms base zero d b k bybit hl h = absurd (omega arith)
loop_rows round6 start_ms base (suc days) d b k bybit hl h = ground arith

rows_positive :
    (round6 : ℤ → ℤ) (start_ms now_ms : ℕ) (bybit hl : List Event)
    → start_ms ≤ now_ms
    → ltb 0 (length (build_daily_rows round6 start_ms bybit hl now_ms)) ≡ true
unfolding build_daily_rows
rows_positive round6 start_ms now_ms bybit hl h =
    let days : 0 < suc (now_ms / day_ms) - start_ms / day_ms = grind arith in
    loop_rows round6 start_ms _ (suc (now_ms / day_ms) - start_ms / day_ms) _ _ _ _ _ days

backfill-Coherent :
    (c : BackfillStart) (a : Answers) (start_ms now_ms : ℕ) (h : History)
    → start_ms ≤ now_ms
    → Coherent h
    → Coherent (run_backfill c a now_ms (some start_ms) h)
unfolding backfill_equity
backfill-Coherent c a start_ms now_ms h le i = go (pull c a now_ms start_ms) refl
  where
    go :
        (p : Option (List Event × List Event))
        → pull c a now_ms start_ms ≡ p
        → Coherent (run_backfill c a now_ms (some start_ms) h)
    go none e = rw e i
    go (some (bybit, hl)) e = rw (e, rows_positive c.round6 start_ms now_ms bybit hl le) tt

startup-Coherent :
    (c : BackfillStart) (a : Answers) (now_ms : ℕ) (h : History)
    → ((start_ms : ℕ) → c.start_ms ≡ some start_ms → start_ms ≤ now_ms)
    → Coherent h
    → Coherent (startup_backfill c a now_ms h)
unfolding maybe_backfill_equity
startup-Coherent c a now_ms h le i =
    let h' = maybe_cleanup_offhour_live h in
    let k = cleanup-Coherent h i in
    elim (Bool-cases
      (string_key.same c.start "" || is_marked "equity_backfill" (fingerprint c.start) h')) [
        | inl b ↦ rw b k
        | inr b ↦ rw b (run c.start_ms refl)
      ]
  where
    run :
        (start : Option ℕ)
        → c.start_ms ≡ start
        → Coherent (run_backfill c a now_ms start (maybe_cleanup_offhour_live h))
    run none e = cleanup-Coherent h i
    run (some start_ms) e =
        backfill-Coherent c a start_ms now_ms (maybe_cleanup_offhour_live h) (le start_ms e)
          (cleanup-Coherent h i)

module _ (c : BackfillStart) (boot_ms : ℕ)
    (started : (start_ms : ℕ) → c.start_ms ≡ some start_ms → start_ms ≤ boot_ms) where
  step-Coherent : (h i : History) → HistoryStep c boot_ms h i → Coherent h → Coherent i
  unfolding write_equity_snapshot
  step-Coherent h i (HistoryStep.page env routes force d g) k =
      (dataset-Coherent env routes force d g k).1
  step-Coherent h i (HistoryStep.hour env routes d g) k = tt
  step-Coherent h i (HistoryStep.startup a elapsed g) k =
      startup-Coherent c a (boot_ms + elapsed) g
        (λ start_ms e. let le = started start_ms e in omega (arith, le)) k

  steps-Coherent : {h i : History} → HistorySteps c boot_ms h i → Coherent h → Coherent i
  steps-Coherent (HistorySteps.done h) k = k
  steps-Coherent (HistorySteps.next r rs) k = steps-Coherent rs (step-Coherent _ _ r k)

  -- A page shows what the table holds: if the backfill does not start after the process, then from an
  -- empty cache on, whatever pages were shown, snapshots written and startup tasks run, the next
  -- page's snapshots are those of the table at that time, though it may not read it again.
  pub equity_dataset-Coherent :
      {h i : History} (env : Env) (routes : List StrategyRoute) (force : Bool) (d : Db)
      → h.cache ≡ none
      → HistorySteps c boot_ms h i
      → let shown = (equity_dataset env routes force d i).0 in
        (shown.snapshots ≡ load_snapshots i.equity_snapshots)
        × (shown.strat_snapshots ≡ load_strategy_snapshots i.equity_snapshots)
  equity_dataset-Coherent {h} {i} env routes force d e steps =
      (dataset-Coherent env routes force d i (steps-Coherent steps (rw e tt))).0
