-- ===== src/Portfolio/Intents.antt =====
-- What `decide` may answer: for a position that is held, and with the kill switch on.
use native.Mathlib.Decide.{dec_lt, dec_le, ℕ_discrete}
use mochi_position_manager.Prelude.{
  inl, inr, ℕ, ◌*◌, ◌≤◌, ◌<◌, ◌≡◌, ◌⊎◌, true, false, if◌then◌else◌, some, none, arith,
}
use mochi_position_manager.Prelude.Int.{ℤ, abs, ◌+ℤ◌}
use mochi_position_manager.Models.{Side, signed_qty, RiskSettings, kill_switch_on, double_down}
use mochi_position_manager.Session.{Session, ok}
use mochi_position_manager.Exchange.{Registry}
use mochi_position_manager.Routing.{VenueRoute, StrategyRoute}
use mochi_position_manager.Portfolio.{
  open_position, close_position, reject, Sizing, rejection, intent, compute_managed_qty, open_sized,
  alert_intent, managed_intent, decide, get_risk_settings, same_direction,
}

-- What a decision would do to the net position, if it filled whole.
pub net_after : ℤ → Sizing → ℤ
net_after net z = elim z.side [
  | none ↦ net
  | some side ↦ elim z.qty [ none ↦ net | some q ↦ net +ℤ signed_qty side q ]
]

module _ (reg : Registry) (route : StrategyRoute) (venue : VenueRoute) (action : Side) (q : ℕ)
    (s : Session) {risk : RiskSettings} (row : s.current.risk_settings ≡ some risk) where
  -- While the kill switch is on every signal is refused, for every strategy and every venue, and
  -- nothing changes.
  pub decide_halted :
      risk.kill_switch ≡ true
      → decide reg route venue action q s ≡ (ok (rejection kill_switch_on), s)
  unfolding decide get_risk_settings
  decide_halted on = ground arith

  pub decide_managed :
      risk.kill_switch ≡ false
      → route.sar ≡ false
      → decide reg route venue action q s
        ≡ managed_intent reg risk.per_order_max_notional route venue action s
  unfolding decide get_risk_settings
  decide_managed off managed = ground arith

  pub decide_alert_driven :
      risk.kill_switch ≡ false
      → route.sar ≡ true
      → decide reg route venue action q s
        ≡ alert_intent reg risk.per_order_max_notional venue action q s
  unfolding decide get_risk_settings
  decide_alert_driven off managed = ground arith

-- The answer for a managed strategy that is in a position.
held_sizing : ℤ → Side → Sizing
held_sizing net action =
    if same_direction net action
    then rejection (double_down net action)
    else intent close_position action (abs net)

-- When the managed sizing opens: some whole step fits the budget, the venue's minimum is reached
-- and the cap is kept. The quantity is then the managed one.
pub Admits : (max_notional min_notional size price step : ℕ) → Type 0
Admits max_notional min_notional size price step =
    let qty = compute_managed_qty size price step in
    (0 < qty) × (min_notional ≤ qty * price) × ((max_notional ≡ 0) ⊎ (qty * price ≤ max_notional))

pub Admits-cases :
    (m min_notional size price step : ℕ)
    → Admits m min_notional size price step ⊎ (¬ Admits m min_notional size price step)
unfolding Admits
Admits-cases m min_notional size price step =
    let qty = compute_managed_qty size price step in
    elim (dec_lt 0 qty) [
      | no h ↦ inr (λ a. h a.0)
      | yes h ↦ elim (dec_le min_notional (qty * price)) [
        | no k ↦ inr (λ a. k a.1)
        | yes k ↦ elim (dec_le (qty * price) m) [
          | yes l ↦ inl (h, k, inr l)
          | no l ↦ elim (ℕ_discrete m 0) [
            | yes z ↦ inl (h, k, inl z)
            | no z ↦ inr (λ a. elim a.2 [ inl z' ↦ z z' | inr l' ↦ l l' ])
          ]
        ]
      ]
    ]

pub open_sized-Admits :
    (m min_notional step size price : ℕ) (action : Side)
    → 0 < price
    → Admits m min_notional size price step
        × (open_sized m min_notional step size price action
            ≡ intent open_position action (compute_managed_qty size price step))
      ⊎ (¬ Admits m min_notional size price step)
        × ((open_sized m min_notional step size price action).decision ≡ reject)
unfolding open_sized Admits
open_sized-Admits m min_notional step size price action h =
    elim (Admits-cases m min_notional size price step) [
      | inl a ↦ inl (a, ground arith)
      | inr n ↦ inr (n, ground arith)
    ]
