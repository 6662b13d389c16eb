-- ===== src/Dashboard/Curve.antt =====
-- The equity curve of the performance page (app/routes/dashboard.py): the series of a window, their
-- sampling, and the metrics. Instants count milliseconds. A percentage is kept as the two numbers that it
-- is the ratio of.

pub mod Sampling
pub mod Drawdown
use mochi_position_manager.Prelude.{
  ℕ, zero, suc, ◌+◌, ◌-◌, ◌*◌, ◌/◌, String, Bool, true, false, not, Option, none, some, List, [],
  ◌∷◌, ◌++◌, map, select, length, leb, max, ◌==◌, ◌&&◌, ◌||◌, if◌then◌else◌,
}
use mochi_position_manager.Prelude.Int.{ℤ, pos, ◌+ℤ◌, ◌-ℤ◌, ltb_ℤ}
use mochi_position_manager.Prelude.Table.{lookup, upsert, string_key}

abbrev pub Point : Type 0
Point = ℕ × ℤ

-- A snapshot as `_load_snapshots` gives it: the instant, the total, and the parts by their names.
pub record SnapshotRow : Type 0 where
  pub at : ℕ
  pub total : ℤ
  pub by : List (String × ℤ)

-- `pts[i]`, or a given point if there is none.
abbrev pub point_at : {A : Type 0} → A → List A → ℕ → A
point_at d [] i = d
point_at d (x ∷ xs) zero = x
point_at d (x ∷ xs) (suc i) = point_at d xs i

-- `[pts[int(i * step)] for i in range(cap)]` from an index on, with `step` the length over `cap`.
unfoldable pub sampled : {A : Type 0} → A → List A → (cap rounds i : ℕ) → List A
sampled d pts cap zero i = []
sampled d pts cap (suc rounds) i =
    point_at d pts (i * length pts / cap) ∷ sampled d pts cap rounds (suc i)

abbrev pub last_or : {A : Type 0} → A → List A → A
last_or d [] = d
last_or d (x ∷ xs) = last_or x xs

-- The last point is appended if the sample does not end in it.
abbrev pub with_last : {A : Type 0} → (same : A → A → Bool) → A → (out : List A) (last : A) → List A
with_last same d out last = if same (last_or d out) last then out else out ++ last ∷ []

-- `_downsample`.
unfoldable pub downsample : {A : Type 0} → (same : A → A → Bool) → (cap : ℕ) → List A → List A
downsample same cap [] = []
downsample same cap (p ∷ pts) =
    if leb (length (p ∷ pts)) cap
    then p ∷ pts
    else with_last same p (sampled p (p ∷ pts) cap cap 0) (last_or p pts)

abbrev pub Series : Type 0
Series = List (String × List Point)

abbrev pub points_at : Option (List Point) → List Point
points_at none = []
points_at (some ps) = ps

-- `setdefault(name, []).append(point)` for every part of a snapshot.
unfoldable pub add_parts : (at : ℕ) → List (String × ℤ) → Series → Series
add_parts at [] series = series
add_parts at ((name, v) ∷ parts) series =
    add_parts at parts (upsert name (points_at (lookup name series) ++ (at, v) ∷ []) series)

unfoldable pub part_series : List SnapshotRow → Series → Series
part_series [] series = series
part_series (r ∷ rows) series = part_series rows (add_parts r.at r.by series)

abbrev pub total_points : List SnapshotRow → List Point
total_points rows = map (λ r. (r.at, r.total)) rows

-- The rows of a window; no window is all of them.
abbrev pub in_window : (now : ℕ) → Option ℕ → List SnapshotRow → List SnapshotRow
in_window now none rows = rows
in_window now (some seconds) rows = select (λ r. leb (now - seconds) r.at) rows

abbrev pub total_series : (include_total : Bool) → List Point → Series
total_series true pts = ("Total", pts) ∷ []
total_series false pts = []

-- The live points of the parts, where no snapshot lies in the window.
abbrev pub live_points : (now : ℕ) → List (String × ℤ) → Series → Series
live_points now [] series = series
live_points now ((name, v) ∷ parts) series =
    live_points now parts (upsert name ((now, v) ∷ []) series)

abbrev pub lone_points : (now : ℕ) (include_total : Bool) → Option ℤ → List (String × ℤ) → Series
lone_points now include_total none live = []
lone_points now include_total (some v) live =
    live_points now live (total_series include_total ((now, v) ∷ []))

-- The series with the tip of a part that has a live value.
abbrev pub tip_part : (anchor : ℕ) (name : String) (pts : List Point) → Option ℤ → Series → Series
tip_part anchor name pts none series = series
tip_part anchor name pts (some v) series = upsert name (pts ++ (anchor, v) ∷ []) series

unfoldable pub tip_parts : (anchor : ℕ) (live : List (String × ℤ)) (parts series : Series) → Series
tip_parts anchor live [] series = series
tip_parts anchor live ((name, pts) ∷ parts) series =
    tip_parts anchor live parts (tip_part anchor name pts (lookup name live) series)

-- The total and the parts; a part that is called "Total" takes its place.
unfoldable pub merged : Series → Series → Series
merged series [] = series
merged series ((name, pts) ∷ parts) = merged (upsert name pts series) parts

-- Every series is tipped to the live edge, if there is a live total.
abbrev pub tipped_series :
    (now : ℕ) (include_total : Bool)
    → Option ℤ
    → (live : List (String × ℤ)) → (pts : List Point) → (parts : Series) → Series
tipped_series now include_total none live pts parts = merged (total_series include_total pts) parts
tipped_series now include_total (some v) live pts parts =
    let anchor = max now (last_or (0, pos 0) pts).0 in
    tip_parts anchor live parts (
      merged (merged (total_series include_total pts) parts)
        (total_series include_total (pts ++ (anchor, v) ∷ [])))

abbrev pub same_point : Point → Point → Bool
same_point (a, v) (b, w) = a == b && not (ltb_ℤ v w || ltb_ℤ w v)

-- `_downsample`'s cap.
abbrev pub default_cap : ℕ
default_cap = 600

unfoldable pub downsampled : Series → Series
downsampled [] = []
downsampled ((name, pts) ∷ series) =
    (name, downsample same_point default_cap pts) ∷ downsampled series

-- A window without a snapshot has one live point, if there is any history.
unfoldable pub series_of :
    (now : ℕ) (snapshots rows : List SnapshotRow)
    → Option ℤ
    → (live : List (String × ℤ)) → (include_total : Bool) → Series
series_of now [] [] live_total live include_total = []
series_of now (s ∷ snapshots) [] live_total live include_total =
    lone_points now include_total live_total live
series_of now snapshots (r ∷ rows) live_total live include_total = downsampled (
    tipped_series now include_total live_total live (total_points (r ∷ rows))
      (part_series (r ∷ rows) []))

-- `_equity_series`.
unfoldable pub equity_series :
    (now : ℕ)
    → List SnapshotRow
    → Option ℕ
    → Option ℤ
    → (live : List (String × ℤ)) → (include_total : Bool) → Series
equity_series now snapshots window live_total live include_total =
    series_of now snapshots (in_window now window snapshots) live_total live include_total

abbrev pub max_ℤ : ℤ → ℤ → ℤ
max_ℤ a b = if ltb_ℤ a b then b else a

abbrev pub min_ℤ : ℤ → ℤ → ℤ
min_ℤ a b = if ltb_ℤ b a then b else a

-- The running peak, the largest fall from it, and the peak that it fell from.
pub record Falls : Type 0 where
  pub run : ℤ
  pub max_dd : ℤ
  pub dd_peak : ℤ

abbrev pub at_start : ℤ → Falls
at_start v = record { run = v; max_dd = pos 0; dd_peak = v }

abbrev pub fall_to : ℤ → Falls → Falls
fall_to v f =
    let run = max_ℤ f.run v in
    if ltb_ℤ f.max_dd (run -ℤ v)
    then record { run = run; max_dd = run -ℤ v; dd_peak = run }
    else record f { run = run }

unfoldable pub falls : List ℤ → Falls → Falls
falls [] f = f
falls (v ∷ vs) f = falls vs (fall_to v f)

unfoldable pub peak_of : ℤ → List ℤ → ℤ
peak_of m [] = m
peak_of m (v ∷ vs) = peak_of (max_ℤ m v) vs

unfoldable pub trough_of : ℤ → List ℤ → ℤ
trough_of m [] = m
trough_of m (v ∷ vs) = trough_of (min_ℤ m v) vs

pub record EquityMetrics : Type 0 where
  pub current : ℤ
  pub period : ℤ
  pub start : ℤ
  pub peak : ℤ
  pub trough : ℤ
  pub max_drawdown : ℤ
  -- The drawdown over the peak that it fell from, with the capital, if that is above zero.
  pub max_drawdown_pct : Option (ℤ × ℤ)
  pub dd_from_peak : ℤ
  pub points : ℕ
  pub capital_base : ℕ
  -- The last value and the change, over the capital, if there is any.
  pub return_pct : Option (ℤ × ℕ)
  pub period_return_pct : Option (ℤ × ℕ)

abbrev pub over_capital : (capital_base : ℕ) → ℤ → Option (ℤ × ℕ)
over_capital capital_base v = if capital_base == 0 then none else some (v, capital_base)

abbrev pub drawdown_ratio : (capital_base : ℕ) → Falls → Option (ℤ × ℤ)
drawdown_ratio capital_base f =
    let over = pos capital_base +ℤ f.dd_peak in
    if ltb_ℤ (pos 0) over then some (f.max_dd, over) else none

-- `_equity_metrics`, less the annualized return and the Sharpe ratio.
unfoldable pub equity_metrics : (capital_base : ℕ) → List ℤ → Option EquityMetrics
equity_metrics capital_base [] = none
equity_metrics capital_base (v ∷ vs) =
    let f = falls (v ∷ vs) (at_start v) in
    let peak = peak_of v vs in
    some (record {
      current = last_or v vs;
      period = last_or v vs -ℤ v;
      start = v;
      peak = peak;
      trough = trough_of v vs;
      max_drawdown = f.max_dd;
      max_drawdown_pct = drawdown_ratio capital_base f;
      dd_from_peak = peak -ℤ last_or v vs;
      points = length (v ∷ vs);
      capital_base = capital_base;
      return_pct = over_capital capital_base (last_or v vs);
      period_return_pct = over_capital capital_base (last_or v vs -ℤ v);
    })
