-- ===== src/Webhook/Dispatch.antt =====
-- What a signal does at one venue: the kill switch, and the close of a resting entry.
use native.Mathlib.Decide.{dec_le}
use mochi_position_manager.Prelude.{
  ℕ, ◌≤◌, ◌<◌, String, ◌≡◌, ap, ◌∙◌, ◌⊎◌, inl, inr, Bool-cases, Option-cases, true, false, some,
  none, ◌∷◌, arith,
}
use mochi_position_manager.Prelude.Int.{abs}
use mochi_position_manager.Prelude.Table.{string_key, pair_key}
use mochi_position_manager.Models.{same_side, RiskSettings, Alert, Order, flat_eps}
use mochi_position_manager.Session.{Result-cases, Sent, Session, ok, raised}
use mochi_position_manager.Exchange.{Adapter}
use mochi_position_manager.Config.{Env}
use mochi_position_manager.Routing.{VenueRoute, StrategyRoute}
use mochi_position_manager.Portfolio.{net_qty}
use mochi_position_manager.Portfolio.Intents.{decide_halted}
use mochi_position_manager.Executor.Rows.{record_rejected_order}
use mochi_position_manager.Webhook.{
  handle, find_working_entry, cancel_working_entry, cancel_on_close, decide_and_act, act_on,
  dispatch_venue,
}
use mochi_position_manager.Webhook.Cancel.{
  Cancelled, cancel_unreachable, cancel_working_entry-Cancelled,
}

module _ (env : Env) (alert : Alert) (route : StrategyRoute) (venue : VenueRoute) (q : ℕ) where
  -- With the kill switch on nothing is sent.
  decide_and_act_halted :
      (s : Session) {risk : RiskSettings}
      → s.current.risk_settings ≡ some risk
      → risk.kill_switch ≡ true
      → (decide_and_act env alert route venue q s).1.sent ≡ s.sent
  unfolding decide_and_act act_on record_rejected_order
  decide_and_act_halted s row on =
      ground (arith, decide_halted env.registry route venue alert.action q s row on)

  dispatch_none :
      (s : Session)
      → find_working_entry route.strategy_id venue.exchange venue.symbol s.current ≡ none
      → dispatch_venue env alert route venue q s ≡ decide_and_act env alert route venue q s
  unfolding dispatch_venue
  dispatch_none s e = ground arith

  dispatch_repeated :
      (s : Session) (w : Order)
      → find_working_entry route.strategy_id venue.exchange venue.symbol s.current ≡ some w
      → same_side alert.action w.side ≡ true
      → dispatch_venue env alert route venue q s ≡ (ok tt, s)
  unfolding dispatch_venue
  dispatch_repeated s w e f = ground arith

  dispatch_opposite :
      (s : Session) (w : Order)
      → find_working_entry route.strategy_id venue.exchange venue.symbol s.current ≡ some w
      → same_side alert.action w.side ≡ false
      → dispatch_venue env alert route venue q s ≡ cancel_on_close env alert route venue q w s
  unfolding dispatch_venue
  dispatch_opposite s w e f = ground arith

  close_flat :
      (s s₁ : Session) (w : Order)
      → cancel_working_entry env w route.strategy_id s ≡ (ok tt, s₁)
      → abs (net_qty s₁.current route.strategy_id venue.exchange venue.symbol) ≤ flat_eps
      → cancel_on_close env alert route venue q w s ≡ (ok tt, s₁)
  unfolding cancel_on_close
  close_flat s s₁ w e h = ground arith

  close_partial :
      (s s₁ : Session) (w : Order)
      → cancel_working_entry env w route.strategy_id s ≡ (ok tt, s₁)
      → flat_eps < abs (net_qty s₁.current route.strategy_id venue.exchange venue.symbol)
      → cancel_on_close env alert route venue q w s ≡ decide_and_act env alert route venue q s₁
  unfolding cancel_on_close
  close_partial s s₁ w e h = ground arith

  close_unreachable :
      (s : Session) (w : Order) (e : String)
      → env.registry w.exchange "default" ≡ raised e
      → cancel_on_close env alert route venue q w s ≡ (raised e, s)
  unfolding cancel_on_close
  close_unreachable s w e h = ground (arith, cancel_unreachable env w route.strategy_id s e h)

  -- A signal against a resting entry, at a venue that the registry knows, cancels it, with one message to
  -- the venue. A fill that raced the cancel and that the venue reports in a state it knows is booked but
  -- for the dust tolerance, and nothing beyond what the venue reports is. If that leaves the strategy flat, nothing else happens: no order is placed, so
  -- no short is opened. Otherwise the portfolio manager decides on the position that is left.
  pub dispatch_closes_entry :
      (s : Session) (w : Order) {ex : Adapter}
      → find_working_entry route.strategy_id venue.exchange venue.symbol s.current ≡ some w
      → same_side alert.action w.side ≡ false
      → env.registry w.exchange "default" ≡ ok ex
      → (s₁ : Session) × Cancelled ex route.strategy_id w s s₁
        × ((abs (net_qty s₁.current route.strategy_id venue.exchange venue.symbol) ≤ flat_eps)
              × (dispatch_venue env alert route venue q s ≡ (ok tt, s₁))
            ⊎ (flat_eps < abs (net_qty s₁.current route.strategy_id venue.exchange venue.symbol))
              × (dispatch_venue env alert route venue q s
                  ≡ decide_and_act env alert route venue q s₁))
  dispatch_closes_entry s w {ex} found other known =
      let (s₁, e, c) = cancel_working_entry-Cancelled env w route.strategy_id s known in
      (
        s₁,
        c,
        (elim (dec_le (abs (net_qty s₁.current route.strategy_id venue.exchange venue.symbol))
            flat_eps) [
              | yes h ↦ inl (h, dispatch_opposite s w found other ∙ close_flat s s₁ w e h)
              | no h ↦ inr (
                omega arith,
                dispatch_opposite s w found other ∙ close_partial s s₁ w e (omega arith),
              )
            ]),
      )

  -- With the kill switch on, a signal sends no order to a venue, whatever rests there: at most the
  -- cancel of one resting entry.
  pub dispatch_halted :
      (s : Session) {risk : RiskSettings}
      → s.current.risk_settings ≡ some risk
      → risk.kill_switch ≡ true
      → let s' = (dispatch_venue env alert route venue q s).1 in
        (s'.sent ≡ s.sent)
        ⊎ ((w : Order) × (s'.sent ≡ Sent.cancel_order w.exchange w.symbol (handle w) ∷ s.sent))
  dispatch_halted s row on =
      elim (Option-cases
        (find_working_entry route.strategy_id venue.exchange venue.symbol s.current)) [
          | inl no_entry ↦
              inl (ap (λ t. t.1.sent) (dispatch_none s no_entry) ∙ decide_and_act_halted s row on)
          | inr (w, found) ↦ elim (Bool-cases (same_side alert.action w.side)) [
            | inl same ↦ inl (ap (λ t. t.1.sent) (dispatch_repeated s w found same))
            | inr other ↦ elim (Result-cases (env.registry w.exchange "default")) [
              | inr (e, h) ↦ inl (
                  ap (λ t. t.1.sent)
                    (dispatch_opposite s w found other ∙ close_unreachable s w e h))
              | inl (ex, h) ↦
                  let (s₁, c, outcome) = dispatch_closes_entry s w found other h in
                  inr (
                    w,
                    elim outcome [
                      | inl (_, e) ↦ ap (λ t. t.1.sent) e ∙ c.sent_one
                      | inr (_, e) ↦
                          ap (λ t. t.1.sent) e
                          ∙ decide_and_act_halted s₁ (c.risk_same ∙ row) on
                          ∙ c.sent_one
                    ],
                  )
            ]
          ]
        ]
