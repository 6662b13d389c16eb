-- ===== src/Soundness/Webhook.antt =====
-- The fan-out of a signal (app/routes/webhook.py), and the stable properties of the database.
use mochi_position_manager.Prelude.{
  arith, ◌≡◌, ◌⊎◌, sym, subst, Bool-cases, Option-cases, inl, inr, ℕ, String, Option, some, none,
  List, [], ◌∷◌, if◌then◌else◌,
}
use mochi_position_manager.Models.{Side, same_side, Alert, Order, OrderSnapshot}
use mochi_position_manager.Session.{Db, Session, pure, ok, raised, Result, session_scope}
use mochi_position_manager.Exchange.{Adapter, Registry}
use mochi_position_manager.Config.{Env}
use mochi_position_manager.Routing.{VenueRoute, StrategyRoute, enabled_venues}
use mochi_position_manager.Portfolio.{
  Sizing, get_risk_settings, open_new, open_by_size, alert_intent, managed_intent, decide,
}
use mochi_position_manager.Webhook.{
  book_reported, book_raced_fill, cancel_working_entry, act_on, decide_and_act, cancel_on_close,
  dispatch_venue, fan_out, run_fan_out, alert_of, find_working_entry,
}
use mochi_position_manager.Soundness.{
  Stable, scope-current, settings-Keeps, Sound, Keeps, keeps_laws, Keeps-pure, Keeps-look,
  Keeps-session_scope,
}
use mochi_position_manager.Soundness.Orders.{
  save_order-Keeps, record_rejected_order-Keeps, book_limit_fill_delta-Keeps, execute_order-Keeps,
}

module _ {P : Db → Type 0} (stable : Stable P) where
  pub get_risk_settings-Keeps : Keeps P get_risk_settings
  get_risk_settings-Keeps = settings-Keeps stable.risk

  open_by_size-Keeps :
      (ex : Adapter) (m : ℕ) (venue : VenueRoute) (action : Side) (step min_notional : ℕ)
      (size : Option ℕ)
      → Keeps P (open_by_size ex m venue action step min_notional size)
  unfolding open_by_size
  open_by_size-Keeps ex m venue action step min_notional none = search keeps_laws
  open_by_size-Keeps ex m venue action step min_notional (some size) = search keeps_laws

  module _ (reg : Registry) (m : ℕ) (route : StrategyRoute) (venue : VenueRoute)
      (action : Side) where
    open_new-Keeps : (ex : Adapter) → Keeps P (open_new ex m route venue action)
    unfolding open_new
    open_new-Keeps ex = search (keeps_laws, open_by_size-Keeps)

    managed_intent-Keeps : Keeps P (managed_intent reg m route venue action)
    unfolding managed_intent
    managed_intent-Keeps = search (keeps_laws, open_new-Keeps)

    alert_intent-Keeps : (q : ℕ) → Keeps P (alert_intent reg m venue action q)
    unfolding alert_intent
    alert_intent-Keeps q = search keeps_laws

  decide-Keeps :
      (reg : Registry) (route : StrategyRoute) (venue : VenueRoute) (action : Side) (q : ℕ)
      → Keeps P (decide reg route venue action q)
  unfolding decide
  decide-Keeps reg route venue action q =
      search (keeps_laws, get_risk_settings-Keeps, managed_intent-Keeps, alert_intent-Keeps)

  act_on-Keeps :
      (env : Env) (alert : Alert) (route : StrategyRoute) (venue : VenueRoute) (z : Sizing)
      → Keeps P (act_on env alert route venue z)
  unfolding act_on
  act_on-Keeps env alert route venue z =
      search (keeps_laws, record_rejected_order-Keeps stable, execute_order-Keeps stable)

  book_reported-Keeps :
      (env : Env) (order : Order) (strategy_id : String) (answer : Result OrderSnapshot)
      → Keeps P (book_reported env order strategy_id answer)
  unfolding book_reported
  book_reported-Keeps env order strategy_id (ok st) =
      search (keeps_laws, book_limit_fill_delta-Keeps stable)
  book_reported-Keeps env order strategy_id (raised e) = search keeps_laws

  book_raced_fill-Keeps :
      (env : Env) (ex : Adapter) (order : Order) (strategy_id : String)
      → Keeps P (book_raced_fill env ex order strategy_id)
  unfolding book_raced_fill
  book_raced_fill-Keeps env ex order strategy_id = book_reported-Keeps env order strategy_id _

  cancel_working_entry-Keeps :
      (env : Env) (order : Order) (strategy_id : String)
      → Keeps P (cancel_working_entry env order strategy_id)
  unfolding cancel_working_entry
  cancel_working_entry-Keeps env order strategy_id =
      search (keeps_laws, book_raced_fill-Keeps, save_order-Keeps stable)

  module _ (env : Env) (alert : Alert) (route : StrategyRoute) (venue : VenueRoute) (q : ℕ) where
    decide_and_act-Keeps : Keeps P (decide_and_act env alert route venue q)
    unfolding decide_and_act
    decide_and_act-Keeps = search (keeps_laws, decide-Keeps, act_on-Keeps)

    cancel_on_close-Keeps : (w : Order) → Keeps P (cancel_on_close env alert route venue q w)
    unfolding cancel_on_close
    cancel_on_close-Keeps w = search (keeps_laws, cancel_working_entry-Keeps, decide_and_act-Keeps)

    found-Keeps :
        (w : Order)
        → Keeps P (λ s.
          if same_side alert.action w.side
          then (ok tt, s)
          else cancel_on_close env alert route venue q w s)
    found-Keeps w = elim (Bool-cases (same_side alert.action w.side)) [
      | inl e ↦ rw e (Keeps-pure tt)
      | inr e ↦ rw e (cancel_on_close-Keeps w)
    ]

    pub dispatch_venue-Keeps : Keeps P (dispatch_venue env alert route venue q)
    unfolding dispatch_venue
    dispatch_venue-Keeps =
        Keeps-look (λ s. find_working_entry route.strategy_id venue.exchange venue.symbol s.current)
          _ _ decide_and_act-Keeps found-Keeps

  -- One venue of the fan-out.
  pub fan_out_one :
      (env : Env) (alert_id : ℕ) (route : StrategyRoute) (q : ℕ) (venue : VenueRoute)
      (venues : List VenueRoute) (s : Session)
      → (fan_out env alert_id route q (venue ∷ venues) s ≡ (session_scope (pure (tt {0})) s).1)
        ⊎ ((alert : Alert) × (fan_out env alert_id route q (venue ∷ venues) s
              ≡ fan_out env alert_id route q venues
                  (session_scope (dispatch_venue env alert route venue q) s).1))
  unfolding fan_out
  fan_out_one env alert_id route q venue venues s =
      elim (Option-cases (alert_of alert_id s.current)) [
        | inl e ↦ inl (ground arith)
        | inr (alert, e) ↦ inr (alert, ground arith)
      ]

  fan_out-Sound :
      (env : Env) (alert_id : ℕ) (route : StrategyRoute) (q : ℕ) (venues : List VenueRoute)
      (s : Session)
      → Sound P s
      → Sound P (fan_out env alert_id route q venues s)
  unfolding fan_out
  fan_out-Sound env alert_id route q [] s h = h
  fan_out-Sound env alert_id route q (venue ∷ venues) s h =
      elim (fan_out_one env alert_id route q venue venues s) [
        | inl e ↦ subst (Sound P) (sym e) ((Keeps-session_scope (Keeps-pure tt)).run s h)
        | inr (alert, e) ↦ subst (Sound P) (sym e) (
            fan_out-Sound env alert_id route q venues _
              ((Keeps-session_scope (dispatch_venue-Keeps env alert route venue q)).run s h))
      ]

  pub run_fan_out-Sound :
      (env : Env) (alert_id : ℕ) (route : StrategyRoute) (q : ℕ) (s : Session)
      → Sound P s
      → Sound P (run_fan_out env alert_id route q s)
  unfolding run_fan_out
  run_fan_out-Sound env alert_id route q s h =
      fan_out-Sound env alert_id route q (enabled_venues route) s h

  fan_out-current :
      (env : Env) (alert_id : ℕ) (route : StrategyRoute) (q : ℕ) (venues : List VenueRoute)
      (s : Session)
      → P s.current
      → P (fan_out env alert_id route q venues s).current
  unfolding fan_out
  fan_out-current env alert_id route q [] s h = h
  fan_out-current env alert_id route q (venue ∷ venues) s h =
      elim (fan_out_one env alert_id route q venue venues s) [
        | inl e ↦ subst (λ t. P t.current) (sym e) (scope-current {P = P} (Keeps-pure tt) s h)
        | inr (alert, e) ↦
            subst (λ t. P t.current) (sym e)
              (fan_out-current env alert_id route q venues _
                (scope-current {P = P} (dispatch_venue-Keeps env alert route venue q) s h))
      ]

  pub run_fan_out-current :
      (env : Env) (alert_id : ℕ) (route : StrategyRoute) (q : ℕ) (s : Session)
      → P s.current
      → P (run_fan_out env alert_id route q s).current
  unfolding run_fan_out
  run_fan_out-current env alert_id route q s h =
      fan_out-current env alert_id route q (enabled_venues route) s h
