-- ===== src/ArbExecutor/Hedge.antt =====
-- How close the hedge comes to the first leg's fill, and what closing a hedged pair realizes.
use native.Mathlib.Nat.{div-mul-le_self, lt-div-mul-add}
use native.Mathlib.Decide.{dec_lt}
use mochi_position_manager.Prelude.{ℕ, ◌+◌, ◌*◌, ◌/◌, ◌≤◌, ◌<◌, ◌≡◌, ◌⊎◌, refl, inl, inr, arith}
use mochi_position_manager.Prelude.Int.{sub_ℕ, ◌+ℤ◌, ◌*ℤ◌}
use mochi_position_manager.Models.{Side, buy, sell, signed_qty}
use mochi_position_manager.ArbPnl.Attribution.{move_both}
use mochi_position_manager.ArbExecutor.{
  leg_realized, dust_inverse, whole_steps, snap_nearest, hedge_qty,
}

-- A quotient by a positive number is zero below it, and at least one from it on.
quotient_none : (a b : ℕ) → 0 < b → a / b < 1 → a < b
quotient_none a b h k =
    let empty : a / b ≡ 0 = omega arith in
    let most : a < 0 * b + b = rw empty at (lt-div-mul-add {a = a} h) in omega arith

quotient_some : (a b : ℕ) → ¬ (a / b < 1) → b ≤ a
quotient_some a b k = grind (arith, div-mul-le_self a b)

product_some : (k s : ℕ) → 0 < k → s ≤ k * s
product_some k s h = grind arith

module _ (f s : ℕ) (h : 0 < s) where
  abbrev nearest : ℕ
  nearest = (2 * f + s) / (2 * s)

  nearest_low : 2 * (nearest * s) ≤ 2 * f + s
  nearest_low = grind (arith, div-mul-le_self (2 * f + s) (2 * s))

  nearest_high : 2 * f < 2 * (nearest * s) + s
  nearest_high =
      let most : 2 * f + s < nearest * (2 * s) + 2 * s = lt-div-mul-add (omega arith) in grind arith

  nearest_some : s ≤ 2 * f → 0 < nearest
  nearest_some k = elim (dec_lt 0 nearest) [
    | yes l ↦ l
    | no n ↦
        let most : 2 * f + s < 2 * s =
          quotient_none (2 * f + s) (2 * s) (omega arith) (omega arith) in
        omega arith
  ]

  hedged : ¬ (whole_steps f s < 1) → hedge_qty f s ≡ nearest * s
  unfolding hedge_qty snap_nearest
  hedged n = ground (arith, quotient_some (f * dust_inverse + s) (s * dust_inverse) n)

  unhedged : whole_steps f s < 1 → hedge_qty f s ≡ 0
  unfolding hedge_qty
  unhedged l = ground arith

-- The hedge of a fill is a whole number of steps and at least one, and it misses the fill by half a
-- step at most; a fill below one step, but for the dust tolerance, is not hedged at all.
pub hedge_qty_nearest :
    (first_fill step : ℕ)
    → 0 < step
    → let h = hedge_qty first_fill step in
      (h ≡ 0) × (first_fill * dust_inverse + step < step * dust_inverse)
      ⊎ ((k : ℕ) × (h ≡ k * step))
        × (step ≤ h)
        × (2 * h ≤ 2 * first_fill + step)
        × (2 * first_fill < 2 * h + step)
hedge_qty_nearest f s h = elim (dec_lt (whole_steps f s) 1) [
  | yes l ↦
      inl
        (unhedged f s h l, quotient_none (f * dust_inverse + s) (s * dust_inverse) (omega arith) l)
  | no n ↦
      let whole = quotient_some (f * dust_inverse + s) (s * dust_inverse) n in
      rw (hedged f s h n) (
        inr (
          (nearest f s h, refl),
          product_some (nearest f s h) s (nearest_some f s h (omega arith)),
          nearest_low f s h,
          nearest_high f s h,
        ))
]

realized_live :
    (side : Side) (avg mark qty : ℕ)
    → 0 < avg
    → 0 < mark
    → 0 < qty
    → leg_realized side avg mark qty ≡ signed_qty side qty *ℤ sub_ℕ mark avg
unfolding leg_realized
realized_live side avg mark qty a m q = ground arith

-- Closing a hedged pair realizes the same after both marks have risen by the same amount: what one
-- leg gains the other loses.
pub leg_realized_neutral :
    (spot_avg perp_avg spot_mark perp_mark qty d : ℕ)
    → 0 < spot_avg
    → 0 < perp_avg
    → 0 < spot_mark
    → 0 < perp_mark
    → 0 < qty
    → leg_realized buy spot_avg (spot_mark + d) qty
        +ℤ leg_realized sell perp_avg (perp_mark + d) qty
      ≡ leg_realized buy spot_avg spot_mark qty +ℤ leg_realized sell perp_avg perp_mark qty
leg_realized_neutral a b m n q d ha hb hm hn hq =
    rw
      (
        realized_live buy a (m + d) q ha (omega arith) hq,
        realized_live sell b (n + d) q hb (omega arith) hq,
        realized_live buy a m q ha hm hq,
        realized_live sell b n q hb hn hq,
      )
      (move_both q m n a b d)
