-- ===== src/Reconcile/History.antt =====
-- The replay of a strategy's fills and the ledger that booked them.
use mochi_position_manager.Prelude.{
  ℕ, ◌≡◌, refl, ap, ◌∙◌, inl, inr, Bool-cases, Bool, true, false, ◌&&◌, ◌||◌, not, Option, none,
  some, List, [], ◌∷◌, All, arith, ◌==◌,
}
use mochi_position_manager.Prelude.Int.{ℤ, pos, abs, ◌-ℤ◌, int_laws, +ℤ_zero_left}
use mochi_position_manager.Models.{Side, signed_qty, Order, StrategyPosition}
use mochi_position_manager.Session.{Result, ok}
use mochi_position_manager.Executor.Fills.{fill_math}
use mochi_position_manager.Executor.Ledger.{strategy_fill}
use mochi_position_manager.Reconcile.Audit.{
  Replay, flat, replay_one, recorded_price, replay, is_missing, is_unpriced, judge, audit_row,
}

-- What a row stands for in a replay.
abbrev pub state_of : Option StrategyPosition → Replay
state_of none = flat
state_of (some sp) = record {
  net = sp.net_qty_base;
  avg = sp.avg_entry_price;
  realized = sp.realized_pnl;
}

-- The price that was booked, zero if there is none.
abbrev pub booked_price : Option ℕ → ℕ
booked_price none = 0
booked_price (some p) = p

-- The row after some fills were booked in their order.
unfoldable pub booked : (now : ℕ) → Option StrategyPosition → List Order → Option StrategyPosition
booked now row [] = row
booked now row (o ∷ os) =
    booked now
      (some
        (strategy_fill (signed_qty o.side o.qty_base) o.qty_base (booked_price o.fill_price) now
          row).0)
      os

-- A fill with a recorded price and a quantity.
abbrev pub is_complete : Order → Bool
is_complete o = not (is_unpriced o) && not (o.qty_base == 0)

-- Replaying one fill is booking it.
replay-strategy_fill :
    (now : ℕ) (row : Option StrategyPosition) (side : Side) (qty price : ℕ)
    → replay_one (state_of row) side qty price
      ≡ state_of (some (strategy_fill (signed_qty side qty) qty price now row).0)
unfolding strategy_fill fill_math
replay-strategy_fill now (some sp) side qty price = refl
replay-strategy_fill now none side qty price =
    rw (+ℤ_zero_left (signed_qty side qty), +ℤ_zero_left (pos 0)) refl

recorded_price_eq :
    (price : Option ℕ) (qty : ℕ)
    → (not (is_missing price) && not (qty == 0)) ≡ true
    → (recorded_price price ≡ some (booked_price price))
      × ((booked_price price == 0 || qty == 0) ≡ false)
recorded_price_eq none qty h = ground (arith, h)
recorded_price_eq (some p) qty h = elim (Bool-cases (p == 0)) [
  | inl z ↦ let r = rw z at h in ground (arith, r)
  | inr z ↦ let r = rw z at h in (rw z refl, rw z (ground (arith, r)))
]

-- Replaying complete fills is booking them.
replay-booked :
    (now : ℕ) (kline : ℕ → Result ℕ) (os : List Order) (row : Option StrategyPosition)
    → All (λ o. is_complete o ≡ true) os
    → replay kline (state_of row) os ≡ ok (some (state_of (booked now row os)))
unfolding replay booked
replay-booked now kline [] row h = refl
replay-booked now kline (o ∷ os) row (h, hs) =
    let (e, z) = recorded_price_eq o.fill_price o.qty_base h in
    rw (e, z)
      (ap (λ r. replay kline r os)
          (replay-strategy_fill now row o.side o.qty_base (booked_price o.fill_price))
        ∙ replay-booked now kline os _ hs)

pub no_drift : (a : ℤ) → abs (a -ℤ a) ≡ 0
no_drift a = let zero : a -ℤ a ≡ pos 0 = omega int_laws in ap abs zero

-- The audit has nothing to say of a row that is what the ledger books for the strategy's fills from a
-- flat start, if every fill has a recorded price and a quantity; it asks the oracle nothing.
pub audit_row-booked :
    (now : ℕ) (kline : ℕ → Result ℕ) (os : List Order) (sp : StrategyPosition)
    → All (λ o. is_complete o ≡ true) os
    → booked now none os ≡ some sp
    → audit_row kline sp os ≡ ok none
unfolding audit_row judge
audit_row-booked now kline [] sp h e = refl
audit_row-booked now kline (o ∷ os) sp h e =
    let same : replay kline flat (o ∷ os) ≡ ok (some (state_of (some sp))) =
      replay-booked now kline (o ∷ os) none h ∙ ap (λ r. ok (some (state_of r))) e in
    rw (same, no_drift sp.realized_pnl, no_drift sp.net_qty_base) refl
