-- ===== src/ArbExecutor.antt =====
-- The funding-arb executor (app/arb_executor.py): the quantity grids and the hedge of a pair, and the
-- order in which its legs fire. A step is what the leg's adapter answers for the leg's product.
pub mod Hedge
pub mod Sizing
pub mod Legs
pub mod Opening
pub mod Closing
use mochi_position_manager.Prelude.{ℕ, ◌+◌, ◌*◌, ◌/◌, ◌^◌, ◌||◌, ltb, ◌==◌, if◌then◌else◌}
use mochi_position_manager.Prelude.Int.{ℤ, pos, sub_ℕ, ◌*ℤ◌}
use mochi_position_manager.Models.{Side, signed_qty}

-- `_QTY_EPS`: 1e-12, one unit of the grid of quantities.
abbrev pub qty_eps : ℕ
qty_eps = 1

-- The dust tolerance of a division by a step, 1e-9, as its inverse.
abbrev pub dust_inverse : ℕ
dust_inverse = 10 ^ 9

-- `(qty / step + 1e-9)` rounded down: the whole steps of a quantity.
abbrev pub whole_steps : (qty step : ℕ) → ℕ
whole_steps qty step = (qty * dust_inverse + step) / (step * dust_inverse)

unfoldable pub snap_down : (qty step : ℕ) → ℕ
snap_down qty step = if qty == 0 || step == 0 then 0 else whole_steps qty step * step

-- Rounded to the nearest step, half up.
unfoldable pub snap_nearest : (qty step : ℕ) → ℕ
snap_nearest qty step = if qty == 0 || step == 0 then 0 else (2 * qty + step) / (2 * step) * step

-- `_hedge_qty`: the second leg's quantity for the first leg's fill, on the second leg's grid.
unfoldable pub hedge_qty : (first_fill step : ℕ) → ℕ
hedge_qty first_fill step =
    if step == 0
    then 0
    else if ltb (whole_steps first_fill step) 1
    then 0
    else snap_nearest first_fill step

-- `_leg_realized`.
unfoldable pub leg_realized : Side → (avg_fill close_mark closed_qty : ℕ) → ℤ
leg_realized side avg_fill close_mark closed_qty =
    if avg_fill == 0 || (close_mark == 0 || closed_qty == 0)
    then pos 0
    else signed_qty side closed_qty *ℤ sub_ℕ close_mark avg_fill
