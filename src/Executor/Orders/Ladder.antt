-- ===== src/Executor/Orders/Ladder.antt =====
-- The retry ladder: the delays, and how an answered attempt ends.
use native.Mathlib.Nat.{mul-le-mul_left, pow-le-pow_right, one-le-pow}
use mochi_position_manager.Prelude.{
  ℕ, ◌+◌, ◌-◌, ◌*◌, ◌^◌, ◌≤◌, ◌<◌, ◌≡◌, refl, ap, ◌∙◌, inl, inr, Bool-cases, min, true, false, some,
  none, arith, leb, ltb, ◌&&◌, if◌then◌else◌,
}
use mochi_position_manager.Prelude.Int.{ℤ, pos}
use mochi_position_manager.Models.{is_limit, Side, Status, Alert, Order, OrderResult, limit, market}
use mochi_position_manager.Session.{Session, ok, value_or}
use mochi_position_manager.Config.{Settings, Env}
use mochi_position_manager.Routing.{VenueRoute}
use mochi_position_manager.Executor.Ledger.{apply_fill_to_position}
use mochi_position_manager.Executor.Ledger.Agreement.{fill-orders}
use mochi_position_manager.Executor.Partial.Booking.{replaced_twice}
use mochi_position_manager.Executor.Orders.{
  succeeded, filled_or, rested, dead_after, failed_after, settle, on_success, on_failure,
  on_limit_placed,
}
use mochi_position_manager.Executor.Rows.{replaced, save_order, next_retry_delay}

-- The delay never falls from one attempt to the next, is never longer than the configured maximum,
-- and never shorter than the base delay or that maximum.
pub next_retry_delay_bounds :
    (s : Settings) (n m : ℕ)
    → n ≤ m
    → (next_retry_delay s n ≤ next_retry_delay s m)
      × (next_retry_delay s m ≤ s.retry_max_delay_sec)
      × (min s.retry_base_delay_sec s.retry_max_delay_sec ≤ next_retry_delay s n)
unfolding next_retry_delay
next_retry_delay_bounds s n m h =
    let base = s.retry_base_delay_sec in
    let grows : base * 3 ^ (n - 1) ≤ base * 3 ^ (m - 1) =
      mul-le-mul_left base (pow-le-pow_right (omega arith) (omega arith)) in
    let least : base * 1 ≤ base * 3 ^ (n - 1) =
      mul-le-mul_left base (one-le-pow (n - 1) 3 (omega arith)) in
    (omega arith, omega arith, omega arith)

-- How an answered attempt ends.
pub data Ends (env : Env) (order : Order) (result : OrderResult) (o : Order) : Type 0 where
  filled :
      result.success ≡ true
      → order.order_type ≡ market
      → o.status ≡ Status.success
      → o.next_retry_at ≡ none
      → Ends env order result o
  rests :
      result.success ≡ true
      → order.order_type ≡ limit
      → o.status ≡ Status.working
      → o.next_retry_at ≡ none
      → Ends env order result o
  again :
      result.success ≡ false
      → order.attempts < env.settings.retry_max_attempts
      → o.status ≡ Status.retrying
      → o.next_retry_at ≡ some (env.now + next_retry_delay env.settings order.attempts)
      → Ends env order result o
  gives_up :
      result.success ≡ false
      → env.settings.retry_max_attempts ≤ order.attempts
      → o.status ≡ Status.dead
      → o.next_retry_at ≡ none
      → Ends env order result o

on_failure-result :
    (env : Env) (order : Order) (alert : Alert) (venue : VenueRoute) (side : Side)
    (result : OrderResult) (s : Session)
    → (on_failure env order alert venue side result s).0
      ≡ ok (
          if leb env.settings.retry_max_attempts order.attempts
          then dead_after order result
          else failed_after env order result)
unfolding on_failure
on_failure-result env order alert venue side result s =
    elim (Bool-cases (leb env.settings.retry_max_attempts order.attempts)) [
      | inl e ↦ rw e
      | inr e ↦ rw e
    ]

-- The profit that a taken market order books.
abbrev booked_profit : Env → Order → Alert → VenueRoute → Side → OrderResult → Session → ℤ
booked_profit env order alert venue side result s =
    if ltb 0 result.avg_price && ltb 0 (filled_or result.filled_qty_base order.qty_base)
    then value_or
        (apply_fill_to_position alert.strategy_id venue.exchange venue.symbol side
          (filled_or result.filled_qty_base order.qty_base) result.avg_price env.now
          (save_order (succeeded order result) s).1).0
        (pos 0)
    else order.realized_pnl

on_success-result :
    (env : Env) (order : Order) (alert : Alert) (venue : VenueRoute) (side : Side)
    (result : OrderResult) (s : Session)
    → (on_success env order alert venue side result s).0
      ≡ ok (record (succeeded order result) {
        realized_pnl = booked_profit env order alert venue side result s;
      })
unfolding on_success apply_fill_to_position
on_success-result env order alert venue side result s =
    elim (Bool-cases
      (ltb 0 result.avg_price && ltb 0 (filled_or result.filled_qty_base order.qty_base))) [
        | inl e ↦ rw e
        | inr e ↦ rw e
      ]

on_limit_placed-result :
    (order : Order) (alert : Alert) (result : OrderResult) (s : Session)
    → (on_limit_placed order alert result s).0 ≡ ok (rested order result)
unfolding on_limit_placed
on_limit_placed-result order alert result s = refl

-- The table after an attempt: the returned row is the stored one.
on_success-stored :
    (env : Env) (order : Order) (alert : Alert) (venue : VenueRoute) (side : Side)
    (result : OrderResult) (s : Session)
    → (on_success env order alert venue side result s).1.current.orders
      ≡ replaced
          (record (succeeded order result) {
            realized_pnl = booked_profit env order alert venue side result s;
          })
          s.current.orders
unfolding on_success apply_fill_to_position
on_success-stored env order alert venue side result s =
    elim (Bool-cases
      (ltb 0 result.avg_price && ltb 0 (filled_or result.filled_qty_base order.qty_base))) [
        | inl e ↦ rw e (
            ap (replaced _) (
              fill-orders alert.strategy_id venue.exchange venue.symbol side
                (filled_or result.filled_qty_base order.qty_base) result.avg_price env.now _)
            ∙ replaced_twice _ (succeeded order result) s.current.orders refl)
        | inr e ↦ rw e
      ]

on_failure-stored :
    (env : Env) (order : Order) (alert : Alert) (venue : VenueRoute) (side : Side)
    (result : OrderResult) (s : Session)
    → (on_failure env order alert venue side result s).1.current.orders
      ≡ replaced
          (if leb env.settings.retry_max_attempts order.attempts
            then dead_after order result
            else failed_after env order result)
          s.current.orders
unfolding on_failure
on_failure-stored env order alert venue side result s =
    elim (Bool-cases (leb env.settings.retry_max_attempts order.attempts)) [
      | inl e ↦ rw e
      | inr e ↦ rw e
    ]

on_limit_placed-stored :
    (order : Order) (alert : Alert) (result : OrderResult) (s : Session)
    → (on_limit_placed order alert result s).1.current.orders
      ≡ replaced (rested order result) s.current.orders
unfolding on_limit_placed
on_limit_placed-stored order alert result s = refl

module _ (env : Env) (order : Order) (alert : Alert) (venue : VenueRoute) (side : Side)
    (result : OrderResult) (s : Session) where
  settle_refused :
      result.success ≡ false
      → settle env order alert venue side result s ≡ on_failure env order alert venue side result s
  unfolding settle
  settle_refused h = ground arith

  settle_rests :
      result.success ≡ true
      → is_limit order.order_type ≡ true
      → settle env order alert venue side result s ≡ on_limit_placed order alert result s
  unfolding settle
  settle_rests h k = ground arith

  settle_fills :
      result.success ≡ true
      → is_limit order.order_type ≡ false
      → settle env order alert venue side result s ≡ on_success env order alert venue side result s
  unfolding settle
  settle_fills h k = ground arith

  refused-Ends :
      (o : Order)
      → o ≡ (
          if leb env.settings.retry_max_attempts order.attempts
          then dead_after order result
          else failed_after env order result)
      → result.success ≡ false
      → Ends env order result o
  refused-Ends o e h = elim (Bool-cases (leb env.settings.retry_max_attempts order.attempts)) [
    | inl last ↦ gives_up h (ground arith) (ground arith) (ground arith)
    | inr more ↦ again h (ground arith) (ground arith) (ground arith)
  ]

  -- Every answer of a venue ends the attempt, and none raises: a market order that was taken is a
  -- success, a limit order that was taken rests, and a refused order is retried, after the delay for
  -- its attempts, while it has attempts left; at the last one it is dead. The order that is returned
  -- is the one that the table holds, and the other rows stay.
  pub settle-Ends :
      (o : Order) × ((settle env order alert venue side result s).0 ≡ ok o)
      × ((settle env order alert venue side result s).1.current.orders
          ≡ replaced o s.current.orders)
      × Ends env order result o
  settle-Ends = elim (Bool-cases result.success) [
    | inr no_fill ↦ (
      _,
      ap (λ t. t.0) (settle_refused no_fill)
          ∙ on_failure-result env order alert venue side result s,
      ap (λ t. t.1.current.orders) (settle_refused no_fill)
          ∙ on_failure-stored env order alert venue side result s,
      refused-Ends _ refl no_fill,
    )
    | inl fill ↦ elim (Bool-cases (is_limit order.order_type)) [
      | inl e ↦ (
        rested order result,
        ap (λ t. t.0) (settle_rests fill e) ∙ on_limit_placed-result order alert result s,
        ap (λ t. t.1.current.orders) (settle_rests fill e)
            ∙ on_limit_placed-stored order alert result s,
        rests fill (ground arith) refl refl,
      )
      | inr e ↦ (
        record (succeeded order result) {
          realized_pnl = booked_profit env order alert venue side result s;
        },
        ap (λ t. t.0) (settle_fills fill e) ∙ on_success-result env order alert venue side result s,
        ap (λ t. t.1.current.orders) (settle_fills fill e)
            ∙ on_success-stored env order alert venue side result s,
        filled fill (ground arith) refl refl,
      )
    ]
  ]
