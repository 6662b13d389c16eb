-- ===== src/Executor/Fills.antt =====
-- `_fill_math` of app/executor.py: the average entry and the realized profit of one fill.
pub mod Worth
pub mod Equity
use mochi_position_manager.Prelude.{ℕ, ◌+◌, ◌*◌, ◌/◌, min, Bool, true, false, ltb, if◌then◌else◌}
use mochi_position_manager.Prelude.Int.{ℤ, pos, negsuc, pos_part, sub_ℕ, abs, ◌+ℤ◌, ◌*ℤ◌}
use mochi_position_manager.Models.{flat_eps}

abbrev pub is_positive : ℤ → Bool
is_positive n = ltb 0 (pos_part n)

abbrev pub same_bool : Bool → Bool → Bool
same_bool true b = b
same_bool false true = false
same_bool false false = true

-- The weighted average is rounded down to the price grid.
pub increased_avg : (old_net : ℤ) (old_avg qty price : ℕ) → ℕ
increased_avg old_net old_avg qty price =
    (abs old_net * old_avg + qty * price) / (abs old_net + qty)

-- 1.0 for a long position, -1.0 for a short one.
abbrev pub direction : ℤ → ℤ
direction net = if is_positive net then pos 1 else negsuc 0

unfoldable pub closing_profit : (old_net : ℤ) (old_avg qty price : ℕ) → ℤ
closing_profit old_net old_avg qty price =
    direction old_net *ℤ sub_ℕ price old_avg *ℤ pos (min qty (abs old_net))

-- (new_net, new_avg_entry, realized_delta).
unfoldable pub fill_math : (old_net : ℤ) (old_avg : ℕ) (signed : ℤ) (qty price : ℕ) → ℤ × ℕ × ℤ
fill_math old_net old_avg signed qty price =
    let new_net = old_net +ℤ signed in
    if ltb (abs old_net) flat_eps
    then (new_net, price, pos 0)
    else if same_bool (is_positive old_net) (is_positive signed)
    then (new_net, increased_avg old_net old_avg qty price, pos 0)
    else (
      new_net,
      (if ltb (abs old_net + flat_eps) qty
          then price
          else if ltb (abs new_net) flat_eps
          then 0
          else old_avg),
      closing_profit old_net old_avg qty price,
    )
