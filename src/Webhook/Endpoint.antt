-- ===== src/Webhook/Endpoint.antt =====
-- The endpoint itself (`tradingview_webhook`): the secret, the dedup gate that stores the alert
-- once, and the task that is left to run after the answer. The body has been parsed and passed the
-- schema; the router, the digest and the text of the body are parameters.
pub mod Gate
use mochi_position_manager.Prelude.{
  ℕ, ◌+◌, String, Bool, false, ◌&&◌, not, Option, none, some, List, [], ◌∷◌, ◌++◌, map, length,
  any_of, ◌==◌, if◌then◌else◌,
}
use mochi_position_manager.Prelude.Table.{string_key}
use mochi_position_manager.Models.{Alert, or_number}
use mochi_position_manager.Session.{
  Notice, Session, ok, raised, Action, modify, notify, ◌>>◌, pure, session_scope,
}
use mochi_position_manager.Config.{Env}
use mochi_position_manager.Routing.{VenueRoute, StrategyRoute, enabled_venues}
use mochi_position_manager.Dedup.{TradingViewAlert, idempotency_key}
use mochi_position_manager.Webhook.{run_fan_out}

-- What the endpoint reads besides the request: the secret, the digest, and the router's `get`.
pub record Site : Type 0 where
  pub webhook_secret : String
  pub digest : String → String
  pub routes : String → Option StrategyRoute
  pub env : Env

-- The body's text and the client's address.
pub record Request : Type 0 where
  pub body : String
  pub source_ip : String
  pub alert : TradingViewAlert

pub data Response : Type 0 where
  bad_secret quantity_required : Response
  duplicate : (key : String) → Response
  unknown_strategy : (alert_id : ℕ) (key : String) → Response
  no_enabled_venues : (alert_id : ℕ) (key strategy_id : String) → Response
  accepted : (alert_id : ℕ) (key strategy_id : String) (venues : List String) → Response

-- A background task.
pub data Task : Type 0 where
  nothing : Task
  tell : Notice → Task
  fan_out_alert : (alert_id : ℕ) → StrategyRoute → (quantity : ℕ) → Task

abbrev pub has_key : String → List Alert → Bool
has_key key alerts = any_of (λ a. string_key.same a.idempotency_key key) alerts

abbrev pub alert_row : (now id : ℕ) (key : String) → Request → Alert
alert_row now id key r = record {
  id = id;
  idempotency_key = key;
  strategy_id = r.alert.strategy_id;
  action = r.alert.action;
  raw_payload = r.body;
  signal_price = r.alert.price;
  received_at = now;
  source_ip = r.source_ip;
}

-- `_persist_alert`: the key is UNIQUE, so a second row with it raises.
unfoldable pub persist_alert : (now : ℕ) (key : String) → Request → Action ℕ
persist_alert now key r s =
    let id = length s.current.alerts + 1 in
    if has_key key s.current.alerts
    then (raised "IntegrityError", s)
    else (modify (λ d. record d { alerts = d.alerts ++ alert_row now id key r ∷ [] }) >> pure id) s

-- `route.sar and not alert.quantity`, for a known route.
abbrev pub lacks_quantity : Option StrategyRoute → Request → Bool
lacks_quantity none r = false
lacks_quantity (some route) r = route.sar && or_number r.alert.quantity 0 == 0

-- The answer once the alert is stored.
unfoldable pub stored_answer :
    Option StrategyRoute → (key : String) → Request → (alert_id : ℕ) → Response × Task
stored_answer none key r alert_id =
    (unknown_strategy alert_id key, tell (Notice.unknown_strategy r.alert.strategy_id))
stored_answer (some route) key r alert_id = elim (enabled_venues route) [
  | [] ↦ (
    no_enabled_venues alert_id key r.alert.strategy_id,
    tell (Notice.disabled_strategy r.alert.strategy_id),
  )
  | v ∷ vs ↦ (
    accepted alert_id key r.alert.strategy_id (map (λ (w : VenueRoute). w.exchange) (v ∷ vs)),
    fan_out_alert alert_id route (or_number r.alert.quantity 0),
  )
]

-- The gate: store the alert in a session of its own, or answer that it is a duplicate.
unfoldable pub gate : Site → (key : String) → Request → Session → (Response × Task) × Session
gate site key r s =
    let (answer, s') = session_scope (persist_alert site.env.now key r) s in
    (
      elim answer [
        | raised e ↦ (duplicate key, tell (Notice.duplicate_alert r.alert.strategy_id key))
        | ok alert_id ↦ stored_answer (site.routes r.alert.strategy_id) key r alert_id
      ],
      s',
    )

unfoldable pub tradingview_webhook : Site → Request → Session → (Response × Task) × Session
tradingview_webhook site r s =
    if not (string_key.same r.alert.secret site.webhook_secret)
    then ((bad_secret, nothing), s)
    else if lacks_quantity (site.routes r.alert.strategy_id) r
    then ((quantity_required, nothing), s)
    else gate site (idempotency_key site.digest r.alert) r s

unfoldable pub run_task : Env → Task → Session → Session
run_task env nothing s = s
run_task env (tell n) s = (notify n s).1
run_task env (fan_out_alert alert_id route quantity) s = run_fan_out env alert_id route quantity s

-- A request with the task that it leaves.
unfoldable pub receive : Site → Request → Session → Response × Session
receive site r s =
    let ((response, task), s') = tradingview_webhook site r s in
    (response, run_task site.env task s')
