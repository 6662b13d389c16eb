-- ===== src/FundingWorker/ArbSnapshots.antt =====
-- The equity curve of the funding-arb book: its snapshots (app/funding_worker.py) and the dataset that its
-- page keeps (app/routes/funding_arb.py). The table is its own, apart from the directional one.
use mochi_position_manager.Prelude.{
  ℕ, ◌-◌, ◌*◌, ◌≡◌, String, Bool, true, false, ◌||◌, Option, none, some, List, [], ◌∷◌, ◌++◌, map,
  All, All-append, ltb, leb, if◌then◌else◌,
}
use mochi_position_manager.Prelude.Int.{ℤ}
use mochi_position_manager.ArbModels.{ArbPosition}
use mochi_position_manager.Session.{Db}
use mochi_position_manager.Config.{Env}
use mochi_position_manager.ArbExecutor.Legs.{legs_of}
use mochi_position_manager.Dashboard.Curve.{SnapshotRow}
use mochi_position_manager.Dashboard.Dataset.{cache_ttl}
use mochi_position_manager.FundingArb.Report.{ArbReport, arb_performance, arb_by_venue}
use mochi_position_manager.FundingArb.Report.Venues.{Distinct, sum_venues, arb_by_venue-sum}

pub record ArbEquitySnapshot : Type 0 where
  pub captured_at : ℕ
  pub net : ℤ
  pub funding : ℤ
  pub commission : ℤ
  pub by_venue : List (String × ℤ)

-- `_ARB_EQ_CACHE`, when it is filled.
pub record ArbDataset : Type 0 where
  pub at : ℕ
  pub snapshots : List SnapshotRow
  pub report : ArbReport

pub record ArbHistory : Type 0 where
  pub arb_equity_snapshots : List ArbEquitySnapshot
  pub cache : Option ArbDataset

-- `order_by(captured_at)`.
unfoldable pub insert_arb_snapshot :
    ArbEquitySnapshot → List ArbEquitySnapshot → List ArbEquitySnapshot
insert_arb_snapshot s [] = s ∷ []
insert_arb_snapshot s (x ∷ xs) =
    if leb s.captured_at x.captured_at then s ∷ x ∷ xs else x ∷ insert_arb_snapshot s xs

unfoldable pub arb_in_time : List ArbEquitySnapshot → List ArbEquitySnapshot
arb_in_time [] = []
arb_in_time (s ∷ ss) = insert_arb_snapshot s (arb_in_time ss)

-- `_load_arb_snapshots`.
unfoldable pub load_arb_snapshots : List ArbEquitySnapshot → List SnapshotRow
load_arb_snapshots table =
    map (λ s. record { at = s.captured_at; total = s.net; by = s.by_venue }) (arb_in_time table)

abbrev pub arb_served :
    (now : ℕ) (force : Bool) (fresh : ArbDataset)
    → Option ArbDataset
    → ArbHistory
    → ArbDataset × ArbHistory
arb_served now force fresh none h = (fresh, record h { cache = some fresh })
arb_served now force fresh (some c) h =
    if force || ltb cache_ttl (now - c.at) then (fresh, record h { cache = some fresh }) else (c, h)

-- `_arb_equity_dataset`.
unfoldable pub arb_equity_dataset : Env → (force : Bool) → Db → ArbHistory → ArbDataset × ArbHistory
arb_equity_dataset env force d h =
    let fresh : ArbDataset = record {
      at = env.now;
      snapshots = load_arb_snapshots h.arb_equity_snapshots;
      report = arb_performance env d;
    } in
    arb_served env.now force fresh h.cache h

abbrev pub snapshot_at : (captured_at : ℕ) → ArbReport → ArbEquitySnapshot
snapshot_at captured_at report = record {
  captured_at = captured_at;
  net = report.totals.net;
  funding = report.totals.funding;
  commission = report.totals.commission;
  by_venue = arb_by_venue report;
}

abbrev pub moment : (now : ℕ) → Option ℕ → ℕ
moment now none = now * 1000
moment now (some t) = t * 1000

-- Nothing is written while the book has no pair.
abbrev pub write_for : List ArbPosition → ArbEquitySnapshot → ArbHistory → Bool × ArbHistory
write_for [] s h = (false, h)
write_for (a ∷ arbs) s h =
    (true, record { arb_equity_snapshots = h.arb_equity_snapshots ++ s ∷ []; cache = none })

-- `write_arb_equity_snapshot`, where the database takes the row.
unfoldable pub write_arb_equity_snapshot :
    Env → (captured_at : Option ℕ) → Db → ArbHistory → Bool × ArbHistory
write_arb_equity_snapshot env captured_at d h =
    write_for d.arb_positions (snapshot_at (moment env.now captured_at) (arb_performance env d)) h

-- The venues of a snapshot add up to its net.
abbrev pub Balanced : ArbEquitySnapshot → Type 0
Balanced s = sum_venues s.by_venue ≡ s.net

-- If the legs of each pair differ in exchange, account or symbol, a snapshot that is written keeps the
-- venues of every stored snapshot adding up to its net.
pub write_arb_equity_snapshot-Balanced :
    (env : Env) (captured_at : Option ℕ) (d : Db) (h : ArbHistory)
    → ((arb_id : ℕ) → Distinct (legs_of arb_id d))
    → All Balanced h.arb_equity_snapshots
    → All Balanced (write_arb_equity_snapshot env captured_at d h).1.arb_equity_snapshots
unfolding write_arb_equity_snapshot
write_arb_equity_snapshot-Balanced env captured_at d h distinct k = go d.arb_positions
  where
    go :
        (arbs : List ArbPosition)
        → All Balanced
            (write_for arbs
              (snapshot_at (moment env.now captured_at) (arb_performance env d))
              h).1.arb_equity_snapshots
    go [] = k
    go (a ∷ arbs) =
        All-append Balanced h.arb_equity_snapshots _ k (arb_by_venue-sum env d distinct, tt)
