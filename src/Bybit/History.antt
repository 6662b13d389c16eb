-- ===== src/Bybit/History.antt =====
-- The account's history at Bybit in windows of seven days (app/exchanges/bybit.py, get_closed_pnl and
-- get_account_funding).
pub mod Windows
use text.Mathlib.Text.{◌==◌ as str_eq}
use mochi_position_manager.Prelude.{
  ℕ, zero, suc, ◌+◌, ◌-◌, ◌*◌, String, Option, none, some, List, [], ◌∷◌, ◌++◌, min, ltb, ◌==◌,
  if◌then◌else◌,
}
use mochi_position_manager.Prelude.Int.{ℤ}
use mochi_position_manager.Session.{Result, ok, raised}
use mochi_position_manager.Bybit.{HistoryRow, Page, BybitExchange}
use mochi_position_manager.Bybit.Positions.{settlement_rows}

-- Seven days in milliseconds.
abbrev pub window_ms : ℕ
window_ms = 7 * 24 * 3600 * 1000

abbrev pub Window : Type 0
Window = ℕ × ℕ

abbrev pub and_window : Window → Option (List Window) → Option (List Window)
and_window w none = none
and_window w (some ws) = some (w ∷ ws)

-- `while ws < end_ms`, with fuel; `none` means that the fuel ran out.
unfoldable pub windows : (fuel ws end_ms : ℕ) → Option (List Window)
windows zero ws end_ms = none
windows (suc fuel) ws end_ms =
    let we = min (ws + window_ms - 1) end_ms in
    let rest = windows fuel (we + 1) end_ms in
    if ltb ws end_ms then and_window (ws, we) rest else some []

-- The pages of a window, 50 at most; a page that fails ends them.
abbrev pub page_rows :
    (pick : List HistoryRow → List (ℕ × ℤ)) (rest : String → List (ℕ × ℤ))
    → Result Page
    → List (ℕ × ℤ)
page_rows pick rest (raised e) = []
page_rows pick rest (ok p) =
    if str_eq p.next_cursor "" then pick p.rows else pick p.rows ++ rest p.next_cursor

unfoldable pub pages :
    (pick : List HistoryRow → List (ℕ × ℤ)) (page : (cursor : String) → Result Page) (cap : ℕ)
    (cursor : String)
    → List (ℕ × ℤ)
pages pick page zero cursor = []
pages pick page (suc cap) cursor = page_rows pick (λ next. pages pick page cap next) (page cursor)

-- A row of closed profits without a time is left out.
unfoldable pub timed_rows : List HistoryRow → List (ℕ × ℤ)
timed_rows [] = []
timed_rows (r ∷ rows) =
    if r.time_ms == 0 then timed_rows rows else (r.time_ms, r.amount) ∷ timed_rows rows

unfoldable pub history :
    (pick : List HistoryRow → List (ℕ × ℤ))
    (page : (start_ms end_ms : ℕ) (cursor : String) → Result Page)
    → List Window
    → List (ℕ × ℤ)
history pick page [] = []
history pick page ((ws, we) ∷ rest) = pages pick (page ws we) 50 "" ++ history pick page rest

abbrev pub over_windows :
    (List Window → List (ℕ × ℤ)) → Option (List Window) → Option (List (ℕ × ℤ))
over_windows f none = none
over_windows f (some ws) = some (f ws)

-- Both need one round for each window, and one more for the test that ends the loop.
unfoldable pub get_closed_pnl : BybitExchange → (fuel start_ms end_ms : ℕ) → Option (List (ℕ × ℤ))
get_closed_pnl ex fuel start_ms end_ms =
    over_windows (history timed_rows ex.client.closed_pnl) (windows fuel start_ms end_ms)

unfoldable pub get_account_funding :
    BybitExchange → (fuel start_ms end_ms : ℕ) → Option (List (ℕ × ℤ))
get_account_funding ex fuel start_ms end_ms =
    over_windows (history settlement_rows ex.client.account_settlements)
      (windows fuel start_ms end_ms)
