-- ===== src/Bybit/Rounding.antt =====
-- The grids of Bybit: what an order's quantity is rounded to.
use mochi_position_manager.Prelude.{
  ℕ, ◌+◌, ◌*◌, ◌/◌, ◌^◌, ◌≤◌, ◌<◌, ◌≡◌, sym, subst, inl, inr, Bool-cases, String, arith, ltb, ◌==◌,
}
use mochi_position_manager.Models.{base_unit}
use mochi_position_manager.Session.{ok, Result-cases}
use mochi_position_manager.Bybit.{
  Category, Instrument, BybitExchange, instrument, or_else, units_of, checked, snapped, round_qty,
}

-- A quantity on the grid: whole steps, not below the venue's minimum, above the asked quantity by a
-- billionth of a step at most, and less than a step below it.
pub record OnGrid (step min_qty qty q : ℕ) : Type 0 where
  pub units : ℕ
  pub whole : q ≡ units * step
  pub enough : min_qty ≤ q
  pub not_more : q * 10 ^ 9 ≤ qty * 10 ^ 9 + step
  pub not_less : qty < q + step

units_bounds :
    (qty step : ℕ)
    → 0 < step
    → (units_of qty step * step * 10 ^ 9 ≤ qty * 10 ^ 9 + step)
      × (qty < units_of qty step * step + step)
units_bounds qty step h = grind arith

checked_lem : (q min_qty r : ℕ) → checked q min_qty ≡ ok r → (q ≡ r) × (min_qty ≤ r)
checked_lem q min_qty r h = elim (Bool-cases (ltb q min_qty)) [
  | inl b ↦ let k = rw b at h in ground (arith, k)
  | inr b ↦ let k = rw b at h in ground (arith, k, b)
]

snapped-OnGrid :
    (qty step min_qty q : ℕ)
    → snapped (units_of qty) step min_qty ≡ ok q
    → OnGrid step min_qty qty q
snapped-OnGrid qty step min_qty q h = elim (Bool-cases (step == 0)) [
  | inl z ↦ let k = rw z at h in ground (arith, k)
  | inr z ↦
      let k = rw z at h in
      let (e, enough) = checked_lem (units_of qty step * step) min_qty q k in
      let (above, below) = units_bounds qty step (ground (arith, z)) in
      record {
        units = units_of qty step;
        whole = sym e;
        enough = enough;
        not_more = subst (λ r. r * 10 ^ 9 ≤ qty * 10 ^ 9 + step) e above;
        not_less = subst (λ r. qty < r + step) e below;
      }
]

-- The quantity of a perp order, whatever the venue says of the symbol: if there is one, then the venue
-- described the symbol and the quantity is a whole number of the steps that it gave (0.001 if it
-- gave none), at least its minimum, less than a step below what was asked and above it by a
-- billionth of a step at most.
pub round_qty-OnGrid :
    (ex : BybitExchange) (symbol : String) (qty q : ℕ)
    → round_qty ex symbol qty ≡ ok q
    → (i : Instrument) × (instrument ex Category.linear symbol ≡ ok i)
      × OnGrid (or_else i.qty_step (base_unit / 1000)) (or_else i.min_order_qty 0) qty q
unfolding round_qty
round_qty-OnGrid ex symbol qty q h = elim (Result-cases (instrument ex Category.linear symbol)) [
  | inl (i, e) ↦
      let k = rw e at h in
      (
        i,
        e,
        snapped-OnGrid qty (or_else i.qty_step (base_unit / 1000)) (or_else i.min_order_qty 0) q k,
      )
  | inr (why, e) ↦ let k = rw e at h in ground (arith, k)
]
