-- ===== src/Portfolio/Quantities.antt =====
-- The managed quantity and the minimum quantity on the grid of a venue.
use native.Mathlib.Nat.{le_trans, mul-le-mul_right, div-mul-le_self, lt-div-mul-add}
use mochi_position_manager.Prelude.{ℕ, max, ◌+◌, ◌-◌, ◌*◌, ◌/◌, ◌≤◌, ◌<◌, ◌≡◌, arith}
use mochi_position_manager.Portfolio.{paper_qty, compute_managed_qty, min_qty, ceil_div}

-- The managed quantity is a whole number of steps whose notional is within the budget, and one step
-- more would exceed the budget.
pub compute_managed_qty_largest :
    (usdt price step : ℕ)
    → 0 < price
    → 0 < step
    → let qty = compute_managed_qty usdt price step in
      ((k : ℕ) × (qty ≡ k * step)) × (qty * price ≤ usdt) × (usdt < (qty + step) * price)
unfolding compute_managed_qty
compute_managed_qty_largest usdt price step hp hs =
    let unit : 0 < price * step = grind arith in
    (
      (usdt / (price * step), ground arith),
      ground (arith, div-mul-le_self usdt (price * step)),
      ground (arith, lt-div-mul-add {a = usdt} unit),
    )

-- Two divisions rounded up.
ceil_div_bounds : (a b : ℕ) → 0 < b → (a ≤ ceil_div a b * b) × (ceil_div a b * b < a + b)
ceil_div_bounds a b h =
    (omega (arith, lt-div-mul-add {a = a + b - 1} h), omega (arith, div-mul-le_self (a + b - 1) b))

-- The minimum quantity is a whole number of steps that reaches the notional, and one step less
-- would not.
pub min_qty_smallest :
    (min_notional price step : ℕ)
    → 0 < min_notional
    → 0 < price
    → 0 < step
    → let qty = min_qty min_notional price step in
      ((k : ℕ) × (qty ≡ k * step))
      × (min_notional ≤ qty * price)
      × (qty * price < min_notional + step * price)
unfolding min_qty
min_qty_smallest min_notional price step hm hp hs =
    let unit : 0 < price * step = grind arith in
    let bounds = ceil_div_bounds min_notional (price * step) unit in
    ((ceil_div min_notional (price * step), ground arith), ground arith, ground arith)

-- The paper quantity is at least one step and reaches the venue's minimum.
pub paper_qty_valid :
    (step min_notional price : ℕ)
    → 0 < step
    → 0 < min_notional
    → 0 < price
    → (step ≤ paper_qty step min_notional price)
      × (min_notional ≤ paper_qty step min_notional price * price)
unfolding paper_qty
paper_qty_valid step min_notional price hs hm hp =
    let reached = (min_qty_smallest min_notional price step hm hp hs).1 in
    let m = min_qty min_notional price step in
    let bigger : m ≤ max step m = omega arith in
    (ground arith, ground (arith, le_trans reached (mul-le-mul_right price bigger)))
