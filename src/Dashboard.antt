-- ===== src/Dashboard.antt =====
-- The figures of the pages (app/routes/dashboard.py): when a venue or a strategy is flat, and the
-- slippage of a fill. Its children hold the performance page, the equity curve and the dataset that the page keeps.
pub mod Positions
pub mod OpenPositions
pub mod Tally
pub mod Performance
pub mod Curve
pub mod Dataset
use mochi_position_manager.Prelude.{◌/◌, Bool, ◌&&◌, ltb}
use mochi_position_manager.Prelude.Int.{ℤ, abs}
use mochi_position_manager.Models.{base_unit, money_unit}

-- `_venue_flat`: below 1e-4 of the base asset and below $1.
unfoldable pub venue_flat : (net_qty_base net_qty_usd : ℤ) → Bool
venue_flat net_qty_base net_qty_usd =
    ltb (abs net_qty_usd) money_unit && ltb (abs net_qty_base) (base_unit / 10000)
