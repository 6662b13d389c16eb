-- ===== src/Portfolio/Opening.antt =====
-- What `decide` answers for a flat, managed strategy, and for a stop-and-reverse one.
use native.Mathlib.Decide.{dec_le, ℕ_discrete}
use mochi_position_manager.Prelude.{
  inl, inr, ℕ, ◌*◌, ◌≤◌, ◌<◌, ◌≡◌, ◌⊎◌, true, false, ◌||◌, ◌&&◌, if◌then◌else◌, ◌∙◌, some, none,
  arith, ltb,
}
use mochi_position_manager.Models.{Side, RiskSettings}
use mochi_position_manager.Session.{Session, ok}
use mochi_position_manager.Exchange.{Adapter, Registry}
use mochi_position_manager.Routing.{VenueRoute, StrategyRoute}
use mochi_position_manager.Portfolio.{
  alert_driven, open_position, reject, Sizing, intent, paper_intent, paper_qty, compute_managed_qty,
  open_sized, open_new, open_by_size, alert_sized, alert_intent, managed_intent, decide, net_qty,
  is_long, is_short,
}
use mochi_position_manager.Portfolio.Intents.{
  Admits, open_sized-Admits, decide_managed, decide_alert_driven,
}
use mochi_position_manager.Portfolio.Quantities.{paper_qty_valid}

-- The venue is asked for a price only if there are a quantity and a cap.
alert_answer : (max_notional price : ℕ) → Side → (qty : ℕ) → Sizing
alert_answer max_notional price action qty =
    if ltb 0 qty && ltb 0 max_notional
    then alert_sized max_notional price action qty
    else intent alert_driven action qty

alert_answer_cases :
    (m price : ℕ) (action : Side) (q : ℕ)
    → (0 < m) × (m < q * price) × ((alert_answer m price action q).decision ≡ reject)
      ⊎ ((m ≡ 0) ⊎ (q * price ≤ m)) × (alert_answer m price action q ≡ intent alert_driven action q)
unfolding alert_answer alert_sized
alert_answer_cases m price action q = elim (dec_le (q * price) m) [
  | yes l ↦ inr (inr l, ground arith)
  | no l ↦ elim (ℕ_discrete m 0) [
    | yes z ↦ inr (inl z, ground arith)
    | no z ↦ inl (omega arith, omega arith, ground arith)
  ]
]

module _ (reg : Registry) (route : StrategyRoute) (venue : VenueRoute) (action : Side) (q : ℕ)
    (s : Session) {risk : RiskSettings} (row : s.current.risk_settings ≡ some risk)
    (off : risk.kill_switch ≡ false) {ex : Adapter} (known : reg venue.exchange "default" ≡ ok ex)
    {price : ℕ} (priced : ex.get_price venue.symbol ≡ ok price) where
  module _ (managed : route.sar ≡ false) {step min_notional : ℕ}
      (grid : ex.get_step_size venue.symbol ≡ ok step) (gridded : 0 < step)
      (minimum : ex.get_min_notional venue.symbol ≡ ok min_notional) where
    module _
        (flat : (is_long (net_qty s.current route.strategy_id venue.exchange venue.symbol)
            || is_short (net_qty s.current route.strategy_id venue.exchange venue.symbol))
          ≡ false) where
      managed_intent_flat :
          (m : ℕ) → managed_intent reg m route venue action s ≡ open_new ex m route venue action s
      unfolding managed_intent
      managed_intent_flat m = rw (flat, known)

      open_new_sized :
          (m : ℕ) {size : ℕ}
          → route.position_size ≡ some size
          → open_new ex m route venue action s
            ≡ (ok (open_sized m min_notional step size price action), s)
      unfolding open_new open_by_size
      open_new_sized m sized = ground arith

      -- A flat, managed strategy with a position size opens exactly when the managed quantity is at
      -- least one step, reaches the venue's minimum and keeps the order cap; it then opens with the
      -- managed quantity, and it is refused otherwise. Nothing else changes.
      pub decide_opens :
          {size : ℕ}
          → route.position_size ≡ some size
          → 0 < price
          → (z : Sizing) × (decide reg route venue action q s ≡ (ok z, s))
            × (Admits risk.per_order_max_notional min_notional size price step
                  × (z ≡ intent open_position action (compute_managed_qty size price step))
                ⊎ (¬ Admits risk.per_order_max_notional min_notional size price step)
                  × (z.decision ≡ reject))
      decide_opens {size} sized h =
          let m = risk.per_order_max_notional in
          (
            open_sized m min_notional step size price action,
            decide_managed reg route venue action q s row off managed
                ∙ managed_intent_flat m
                ∙ open_new_sized m sized,
            open_sized-Admits m min_notional step size price action h,
          )

      open_new_paper :
          (m : ℕ)
          → route.position_size ≡ none
          → 0 < min_notional
          → open_new ex m route venue action s
            ≡ (ok (paper_intent action (paper_qty step min_notional price)), s)
      unfolding open_new open_by_size
      open_new_paper m paper h = ground arith

      -- With the kill switch off, a flat, managed strategy without a position size trades on paper
      -- at a venue that answers a step, a minimum and a price above zero: it opens with at least
      -- one step and at least the venue's minimum, whatever the order cap is.
      pub decide_paper_ignores_cap :
          route.position_size ≡ none
          → 0 < min_notional
          → 0 < price
          → (qty : ℕ) × (decide reg route venue action q s ≡ (ok (paper_intent action qty), s))
            × (step ≤ qty)
            × (min_notional ≤ qty * price)
      decide_paper_ignores_cap paper hm hp = (
        paper_qty step min_notional price,
        decide_managed reg route venue action q s row off managed
            ∙ managed_intent_flat risk.per_order_max_notional
            ∙ open_new_paper risk.per_order_max_notional paper hm,
        (paper_qty_valid step min_notional price gridded hm hp).0,
        (paper_qty_valid step min_notional price gridded hm hp).1,
      )

  alert_intent_answer :
      alert_intent reg risk.per_order_max_notional venue action q s
      ≡ (ok (alert_answer risk.per_order_max_notional price action q), s)
  unfolding alert_intent alert_answer
  alert_intent_answer = ground arith

  -- A stop-and-reverse strategy trades the alert's quantity unchanged, unless a cap is set and the
  -- notional at the venue's price exceeds it; then it is refused.
  pub decide_alert_quantity :
      route.sar ≡ true
      → (z : Sizing) × (decide reg route venue action q s ≡ (ok z, s))
        × ((0 < risk.per_order_max_notional)
              × (risk.per_order_max_notional < q * price)
              × (z.decision ≡ reject)
            ⊎ ((risk.per_order_max_notional ≡ 0) ⊎ (q * price ≤ risk.per_order_max_notional))
              × (z ≡ intent alert_driven action q))
  decide_alert_quantity sar = (
    alert_answer risk.per_order_max_notional price action q,
    decide_alert_driven reg route venue action q s row off sar ∙ alert_intent_answer,
    alert_answer_cases risk.per_order_max_notional price action q,
  )
