-- ===== src/EquityBackfill.antt =====
-- The daily rows of the equity backfill (app/equity_backfill.py, _build_daily_rows).
pub mod Daily
pub mod Snapshots
use mochi_position_manager.Prelude.{
  ℕ, String, zero, suc, ◌+◌, ◌-◌, ◌*◌, ◌/◌, Bool, true, false, Option, none, some, List, [], ◌∷◌,
  ◌++◌, map, select, min, leb, if◌then◌else◌,
}
use mochi_position_manager.Prelude.Int.{ℤ, pos, ◌+ℤ◌, ◌-ℤ◌}
use mochi_position_manager.Session.{Result, ok}

-- A time in milliseconds with a profit: what was gained then, or the total at that time.
abbrev pub Event : Type 0
Event = ℕ × ℤ

abbrev pub day_ms : ℕ
day_ms = 86400000

-- `sorted(events, key=lambda ev: ev[0])`.
unfoldable pub insert_event : Event → List Event → List Event
insert_event e [] = e ∷ []
insert_event e (x ∷ xs) = if leb e.0 x.0 then e ∷ x ∷ xs else x ∷ insert_event e xs

unfoldable pub by_ts : List Event → List Event
by_ts [] = []
by_ts (e ∷ es) = insert_event e (by_ts es)

-- The walk over the events up to a time: the total, and the events that are left.
unfoldable pub walk : (step : ℤ → Event → ℤ) (end : ℕ) → ℤ → List Event → ℤ × List Event
walk step end total [] = (total, [])
walk step end total (e ∷ es) =
    if leb e.0 end then walk step end (step total e) es else (total, e ∷ es)

-- A step of the Bybit total: events before the start are left out.
abbrev pub gained : (start_ms : ℕ) → ℤ → Event → ℤ
gained start_ms total e = if leb start_ms e.0 then total +ℤ e.1 else total

-- A step of the Hyperliquid total, which is cumulative already.
abbrev pub carried : ℤ → Event → ℤ
carried total e = e.1

-- `hl_base`: the total at or just before the start.
abbrev pub hl_base : (start_ms : ℕ) → (hl_points : List Event) → ℤ
hl_base start_ms hl_points = (walk carried start_ms (pos 0) hl_points).0

abbrev pub Row : Type 0
Row = ℕ × (ℤ × ℤ)

abbrev pub day_end : ℕ → ℕ
day_end d = d + day_ms - 1

-- `round(x, 6)` is a parameter.
module _ (round6 : ℤ → ℤ) (start_ms : ℕ) where
  -- The loop over a number of days from the day `d`.
  unfoldable pub daily_loop :
      (base : ℤ) (days d : ℕ) (bcum hcum : ℤ) (bybit hl : List Event) → List Row
  daily_loop base zero d bcum hcum bybit hl = []
  daily_loop base (suc days) d bcum hcum bybit hl =
      let (bcum', bybit') = walk (gained start_ms) (day_end d) bcum bybit in
      let (hcum', hl') = walk carried (day_end d) hcum hl in
      (d, (round6 bcum', round6 (hcum' -ℤ base)))
      ∷ daily_loop base days (d + day_ms) bcum' hcum' bybit' hl'

  -- The loop runs while `d <= last`: once a day from the start's to now's.
  abbrev pub day_count : (now_ms : ℕ) → ℕ
  day_count now_ms = suc (now_ms / day_ms) - start_ms / day_ms

  unfoldable pub build_daily_rows : (bybit_events hl_points : List Event) (now_ms : ℕ) → List Row
  build_daily_rows bybit_events hl_points now_ms =
      let hl = by_ts hl_points in
      let base = hl_base start_ms hl in
      daily_loop base (day_count now_ms) (start_ms / day_ms * day_ms) (pos 0) base
        (by_ts bybit_events) hl

-- Where a snapshot comes from.
pub data Source : Type 0 where
  live : Source
  backfill : Source

pub record EquitySnapshot : Type 0 where
  pub captured_at : ℕ
  pub total_pnl : ℤ
  pub realized : ℤ
  pub unrealized : ℤ
  pub funding : ℤ
  pub commission : ℤ
  pub by_exchange : List (String × ℤ)
  pub by_strategy : List (String × ℤ)
  pub source : Source

abbrev pub is_live : EquitySnapshot → Bool
is_live r = elim r.source [ live ↦ true | backfill ↦ false ]

abbrev pub hour_ms : ℕ
hour_ms = 3600000

-- The snapshot of a row: at noon, or at the hour of now if that is earlier.
abbrev pub snapshot_of : (now_ms : ℕ) → Row → EquitySnapshot
snapshot_of now_ms (d, (b, h)) = record {
  captured_at = min (d + day_ms / 2) (now_ms / hour_ms * hour_ms);
  total_pnl = b +ℤ h;
  realized = pos 0;
  unrealized = pos 0;
  funding = pos 0;
  commission = pos 0;
  by_exchange = ("bybit", b) ∷ ("hyperliquid", h) ∷ [];
  by_strategy = [];
  source = Source.backfill;
}

-- The pull of the venues: Bybit's closed profits and its funding, and Hyperliquid's history; nothing
-- if one of them raises, or if there is no event at all.
abbrev pub is_nothing : List Event → List Event → Bool
is_nothing [] [] = true
is_nothing _ _ = false

unfoldable pub pulled :
    (closed_pnl account_funding pnl_history : Result (List Event))
    → Option (List Event × List Event)
pulled (ok closed) (ok funding) (ok points) =
    if is_nothing (closed ++ funding) points then none else some (closed ++ funding, points)
pulled _ _ _ = none

-- The backfill replaces the rows of an earlier one.
abbrev pub with_backfill :
    (round6 : ℤ → ℤ) (start_ms now_ms : ℕ)
    → Option (List Event × List Event)
    → List EquitySnapshot
    → List EquitySnapshot
with_backfill round6 start_ms now_ms none table = table
with_backfill round6 start_ms now_ms (some (bybit, hl)) table =
    select is_live table
    ++ map (snapshot_of now_ms) (build_daily_rows round6 start_ms bybit hl now_ms)

-- `backfill_equity`: what it leaves in the table of snapshots.
unfoldable pub backfill_equity :
    (round6 : ℤ → ℤ) (start_ms now_ms : ℕ)
    (closed_pnl account_funding pnl_history : Result (List Event))
    → List EquitySnapshot
    → List EquitySnapshot
backfill_equity round6 start_ms now_ms closed_pnl account_funding pnl_history table =
    with_backfill round6 start_ms now_ms (pulled closed_pnl account_funding pnl_history) table
