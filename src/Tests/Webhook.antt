-- ===== src/Tests/Webhook.antt =====
-- A signal, its fan-out and the two scans on concrete input.
use mochi_position_manager.Prelude.{◌≡◌, ◌≤◌, ◌<◌, ◌⊎◌, refl}
use mochi_position_manager.Prelude.Int.{abs}
use mochi_position_manager.Prelude.Table.{lookup}
use mochi_position_manager.Prelude.Totals.{total}
use mochi_position_manager.Models.{flat_eps}
use mochi_position_manager.Session.{Session, ok}
use mochi_position_manager.Portfolio.{net_qty}
use mochi_position_manager.Executor.Ledger.Agreement.{Agrees}
use mochi_position_manager.Executor.Rows.{new_order}
use mochi_position_manager.Webhook.{
  find_working_entry, is_working_entry, is_of_strategy, cancel_working_entry, decide_and_act,
  dispatch_venue,
}
use mochi_position_manager.Webhook.Cancel.{Cancelled, cancel_working_entry-Cancelled}
use mochi_position_manager.Webhook.Dispatch.{dispatch_closes_entry}
use mochi_position_manager.Tests.Data.{
  venue, adapter, env, route, sell_alert, resting, resting_db, in_db,
}

cancel_working_entry-Cancelled_example :
    (s' : Session) × (cancel_working_entry env resting "trend" (in_db resting_db) ≡ (ok tt, s'))
    × Cancelled adapter "trend" resting (in_db resting_db) s'
cancel_working_entry-Cancelled_example =
    cancel_working_entry-Cancelled env resting "trend" (in_db resting_db) refl

dispatch_closes_entry_example :
    (s₁ : Session) × Cancelled adapter "trend" resting (in_db resting_db) s₁
    × ((abs (net_qty s₁.current "trend" "bybit" "BTCUSDT") ≤ flat_eps)
          × (dispatch_venue env sell_alert route venue 0 (in_db resting_db) ≡ (ok tt, s₁))
        ⊎ (flat_eps < abs (net_qty s₁.current "trend" "bybit" "BTCUSDT"))
          × (dispatch_venue env sell_alert route venue 0 (in_db resting_db)
              ≡ decide_and_act env sell_alert route venue 0 s₁))
unfolding find_working_entry is_working_entry is_of_strategy new_order
dispatch_closes_entry_example =
    dispatch_closes_entry env sell_alert route venue 0 (in_db resting_db) resting {ex = adapter}
      refl refl refl

pub resting_db-Agrees : Agrees resting_db
unfolding total lookup
resting_db-Agrees place = refl
