-- ===== src/Tests/Portfolio.antt =====
-- The portfolio manager on concrete input.
use mochi_position_manager.Prelude.Table.{lookup}
use mochi_position_manager.Prelude.{ℕ, ◌*◌, ◌≤◌, ◌<◌, ◌+◌, ◌≡◌, ◌⊎◌, refl, arith}
use mochi_position_manager.Models.{buy, default_risk, money_unit}
use mochi_position_manager.Session.{ok}
use mochi_position_manager.Portfolio.{
  open_position, reject, Sizing, intent, paper_intent, compute_managed_qty, min_qty, paper_qty,
  decide, net_qty,
}
use mochi_position_manager.Portfolio.Quantities.{compute_managed_qty_largest, paper_qty_valid}
use mochi_position_manager.Portfolio.Intents.{Admits}
use mochi_position_manager.Portfolio.Opening.{decide_opens, decide_paper_ignores_cap}
use mochi_position_manager.Tests.Data.{
  venue, price, step, min_notional, adapter, registry, route, paper_route, empty_session,
}

-- $100 at $50,000 is two steps of 0.001; $149 too.
test_managed_qty : compute_managed_qty (149 * money_unit) price step ≡ 2 * step
unfolding compute_managed_qty
test_managed_qty = refl

test_min_qty : min_qty (51 * money_unit) price step ≡ 2 * step
unfolding min_qty
test_min_qty = refl

compute_managed_qty_largest_example :
    let qty = compute_managed_qty (149 * money_unit) price step in
    ((k : ℕ) × (qty ≡ k * step))
    × (qty * price ≤ 149 * money_unit)
    × (149 * money_unit < (qty + step) * price)
compute_managed_qty_largest_example =
    compute_managed_qty_largest (149 * money_unit) price step (omega arith) (omega arith)

paper_qty_valid_example :
    (step ≤ paper_qty step min_notional price)
    × (min_notional ≤ paper_qty step min_notional price * price)
paper_qty_valid_example =
    paper_qty_valid step min_notional price (omega arith) (omega arith) (omega arith)

decide_opens_example :
    (z : Sizing) × (decide registry route venue buy 0 empty_session ≡ (ok z, empty_session))
    × (Admits (500 * money_unit) min_notional (100 * money_unit) price step
          × (z ≡ intent open_position buy (compute_managed_qty (100 * money_unit) price step))
        ⊎ (¬ Admits (500 * money_unit) min_notional (100 * money_unit) price step)
          × (z.decision ≡ reject))
unfolding net_qty lookup
decide_opens_example =
    decide_opens registry route venue buy 0 empty_session {risk = default_risk} refl refl
      {ex = adapter} refl {price = price} refl refl {step = step} {min_notional = min_notional} refl
      (omega arith) refl refl {size = 100 * money_unit} refl (omega arith)

decide_paper_ignores_cap_example :
    (qty : ℕ) × (decide registry paper_route venue buy 0 empty_session
      ≡ (ok (paper_intent buy qty), empty_session))
    × (step ≤ qty)
    × (min_notional ≤ qty * price)
unfolding net_qty lookup
decide_paper_ignores_cap_example =
    decide_paper_ignores_cap registry paper_route venue buy 0 empty_session {risk = default_risk}
      refl refl {ex = adapter} refl {price = price} refl refl {step = step}
      {min_notional = min_notional} refl (omega arith) refl refl refl (omega arith) (omega arith)
