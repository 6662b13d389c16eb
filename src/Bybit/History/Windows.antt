-- ===== src/Bybit/History/Windows.antt =====
-- The windows of the history: they end, and what they cover.
use mochi_position_manager.Prelude.{
  ℕ, zero, suc, ◌+◌, ◌-◌, ◌/◌, ◌≤◌, ◌<◌, ◌≡◌, refl, inl, inr, Bool-cases, Option, some, List, [],
  ◌∷◌, arith, min, ltb,
}
use mochi_position_manager.Bybit.{BybitExchange}
use mochi_position_manager.Bybit.History.{
  window_ms, Window, and_window, windows, history, timed_rows, get_closed_pnl,
}

-- The windows lie side by side from a time on: none is empty or longer than seven days, the next one
-- starts a millisecond after it, and the last one ends a millisecond before the end at the earliest
-- and at the end at the latest.
abbrev pub Tiles : (ws end_ms : ℕ) → List Window → Type 0
Tiles ws end_ms [] = end_ms ≤ ws
Tiles ws end_ms ((a, b) ∷ rest) =
    (a ≡ ws) × (a ≤ b) × (b < a + window_ms) × (b ≤ end_ms) × Tiles (b + 1) end_ms rest

and_window-some :
    (ws we end_ms : ℕ) (r : Option (List Window))
    → (ws ≤ we) × (we < ws + window_ms) × (we ≤ end_ms)
    → ((rest : List Window) × (r ≡ some rest) × Tiles (we + 1) end_ms rest)
    → (all : List Window) × (and_window (ws, we) r ≡ some all) × Tiles ws end_ms all
and_window-some ws we end_ms r (a, b, c) (rest, e, tiles) =
    ((ws, we) ∷ rest, rw e refl, (refl, a, b, c, tiles))

windows-Tiles :
    (fuel ws end_ms : ℕ)
    → (end_ms + window_ms - 1 - ws) / window_ms < fuel
    → (all : List Window) × (windows fuel ws end_ms ≡ some all) × Tiles ws end_ms all
unfolding windows
windows-Tiles zero ws end_ms h = absurd (omega arith)
windows-Tiles (suc fuel) ws end_ms h = elim (Bool-cases (ltb ws end_ms)) [
  | inl more ↦
      let we = min (ws + window_ms - 1) end_ms in
      let before : ws < end_ms = ground (arith, more) in
      rw more (
        and_window-some ws we end_ms (windows fuel (we + 1) end_ms) (omega arith)
          (windows-Tiles fuel (we + 1) end_ms (omega arith)))
  | inr done ↦ rw done ([], refl, ground (arith, done))
]

-- The walk over the windows ends: with more rounds than windows of seven days fit between the start and
-- the end, rounded up, the closed profits are those of the windows of the loop, which lie side by
-- side from the start on, none of them longer than seven days, and end at the end or, if the time is
-- a whole number of windows, a millisecond before it.
pub get_closed_pnl_ends :
    (ex : BybitExchange) (fuel start_ms end_ms : ℕ)
    → (end_ms + window_ms - 1 - start_ms) / window_ms < fuel
    → (all : List Window) × (get_closed_pnl ex fuel start_ms end_ms
        ≡ some (history timed_rows ex.client.closed_pnl all))
      × Tiles start_ms end_ms all
unfolding get_closed_pnl
get_closed_pnl_ends ex fuel start_ms end_ms h =
    let (all, e, tiles) = windows-Tiles fuel start_ms end_ms h in (all, rw e refl, tiles)
