-- ===== src/Admin/Fire.antt =====
-- The limit order that is fired by hand (app/routes/admin.py, fire_limit): one order for each enabled venue
-- of a strategy, at a price that is given. The form is read before: the side is one of the two or none,
-- the quantity a blank, a number or neither. A price or a quantity that `float` reads as nan or as infinite is
-- left out: nan passes the tests for a number above zero and for the cap. The key of the alert is a fresh UUID, and its payload a text.
pub mod Sends
pub mod Orders
use mochi_position_manager.Prelude.{
  ℕ, ◌+◌, ◌*◌, String, Bool, ◌&&◌, Option, none, some, List, [], ◌∷◌, ◌++◌, length, ltb, ◌==◌,
  if◌then◌else◌,
}
use mochi_position_manager.Prelude.Int.{ℤ, pos, negsuc}
use mochi_position_manager.Models.{Side, limit, Alert, RiskSettings}
use mochi_position_manager.Session.{
  Result, ok, raised, Action, ◌>>=◌, ◌>>◌, pure, lift, reads, modify, session_scope,
}
use mochi_position_manager.Config.{Env}
use mochi_position_manager.Routing.{VenueRoute, StrategyRoute, enabled_venues}
use mochi_position_manager.ArbExecutor.Sizing.{asked}
use mochi_position_manager.Portfolio.{get_risk_settings, compute_managed_qty}
use mochi_position_manager.Executor.Orders.{execute_order}
use mochi_position_manager.Webhook.{alert_of}
use mochi_position_manager.Webhook.Endpoint.{has_key}
use mochi_position_manager.Admin.{has_secret}

-- The form's quantity. `number` is a finite number: a text that `float` reads as nan or as infinite is left
-- out.
pub data Quantity : Type 0 where
  blank not_a_number : Quantity
  number : ℤ → Quantity

-- The form. Its price is a finite number, as its quantity is.
pub record FireRequest : Type 0 where
  pub secret : String
  pub strategy_id : String
  pub side : Option Side
  pub limit_price : ℤ
  pub quantity : Quantity
  pub key : String
  pub payload : String
  pub source_ip : String

-- What the page tells of one venue.
pub data FireNotice : Type 0 where
  no_size zero_size : (exchange : String) → FireNotice
  over_cap : (exchange : String) (value cap : ℕ) → FireNotice
  placed : (exchange : String) (side : Side) (qty price : ℕ) → FireNotice
  failed : (exchange error : String) → FireNotice

-- The answers of the route: 401, 400, 404, or a redirect with notices.
pub data FireAnswer : Type 0 where
  denied unknown : FireAnswer
  invalid : (detail : String) → FireAnswer
  no_venues halted : FireAnswer
  fired : List FireNotice → FireAnswer

-- The quantity at a venue: the one that is given, or the managed size at the limit price, if the
-- strategy has one.
unfoldable pub fire_qty :
    Env → StrategyRoute → VenueRoute → (limit_price : ℕ) → Option ℕ → Result (Option ℕ)
fire_qty env route venue limit_price (some q) = ok (some q)
fire_qty env route venue limit_price none = elim route.position_size [
  | none ↦ ok none
  | some size ↦ asked (env.registry venue.exchange "default") λ ex.
      asked (ex.get_step_size venue.symbol)
        λ step. ok (some (compute_managed_qty size limit_price step))
]

abbrev pub exceeds : (cap value : ℕ) → Bool
exceeds cap value = ltb 0 cap && ltb cap value

-- `try: ... except Exception`: a notice in either case.
abbrev pub guarded : (exchange : String) → Action FireNotice → Action FireNotice
guarded exchange m s =
    let (r, s') = m s in elim r [ ok n ↦ (ok n, s') | raised e ↦ (ok (failed exchange e), s') ]

-- `execute_order` for the alert that stands in the table.
abbrev pub execute_fired :
    Env → VenueRoute → (qty limit_price : ℕ) → Option Alert → Action FireNotice
execute_fired env venue qty limit_price none = lift (raised "AttributeError")
execute_fired env venue qty limit_price (some alert) = do
  execute_order env alert venue qty limit (some limit_price)
      (env.client_order_id alert.id venue.exchange venue.symbol)
  pure (placed venue.exchange alert.action qty limit_price)

abbrev pub fire_order :
    Env → (alert_id : ℕ) → VenueRoute → (qty limit_price : ℕ) → Action FireNotice
fire_order env alert_id venue qty limit_price =
    session_scope
      (do alert ← reads (alert_of alert_id); execute_fired env venue qty limit_price alert)

module _ (env : Env) (route : StrategyRoute) (alert_id limit_price cap : ℕ)
    (explicit : Option ℕ) where
  unfoldable pub fire_sized : VenueRoute → Option ℕ → Action FireNotice
  fire_sized venue none = pure (no_size venue.exchange)
  fire_sized venue (some q) =
      if q == 0
      then pure (zero_size venue.exchange)
      else if exceeds cap (q * limit_price)
      then pure (over_cap venue.exchange (q * limit_price) cap)
      else fire_order env alert_id venue q limit_price

  unfoldable pub fire_at : VenueRoute → Action FireNotice
  fire_at venue =
      guarded venue.exchange
        (lift (fire_qty env route venue limit_price explicit) >>= fire_sized venue)

  -- The loop over the enabled venues.
  unfoldable pub fire_venues : List VenueRoute → Action (List FireNotice)
  fire_venues [] = pure []
  fire_venues (venue ∷ venues) = do n ← fire_at venue; ns ← fire_venues venues; pure (n ∷ ns)

abbrev pub manual_alert : (now id limit_price : ℕ) → Side → FireRequest → Alert
manual_alert now id limit_price side f = record {
  id = id;
  idempotency_key = f.key;
  strategy_id = f.strategy_id;
  action = side;
  raw_payload = f.payload;
  signal_price = some limit_price;
  received_at = now;
  source_ip = f.source_ip;
}

-- The alert that ties the orders into the ledger; its key is UNIQUE.
unfoldable pub add_manual_alert : (now limit_price : ℕ) → Side → FireRequest → Action ℕ
add_manual_alert now limit_price side f s =
    let id = length s.current.alerts + 1 in
    if has_key f.key s.current.alerts
    then (raised "IntegrityError", s)
    else (modify
            (λ d. record d { alerts = d.alerts ++ manual_alert now id limit_price side f ∷ [] })
          >> pure id)
        s

-- The kill switch and the cap are read once, before the alert is stored.
unfoldable pub fire_checked :
    Env
    → StrategyRoute
    → FireRequest
    → Side
    → (limit_price : ℕ) → Option ℕ
    → RiskSettings
    → Action FireAnswer
fire_checked env route f side limit_price explicit risk =
    if risk.kill_switch then pure halted else (do
      alert_id ← session_scope (add_manual_alert env.now limit_price side f)
      notices ←
          fire_venues env route alert_id limit_price risk.per_order_max_notional explicit
            (enabled_venues route)
      pure (fired notices))

abbrev pub fire_with :
    Env → StrategyRoute → FireRequest → Side → (limit_price : ℕ) → Option ℕ → Action FireAnswer
fire_with env route f side limit_price explicit = do
  risk ← session_scope get_risk_settings
  fire_checked env route f side limit_price explicit risk

-- The quantity of the form: a number above zero, or none. In the source nan passes this test, and then the
-- test of the cap; it is not modelled.
abbrev pub fire_quantity :
    Env → StrategyRoute → FireRequest → Side → (limit_price : ℕ) → Quantity → Action FireAnswer
fire_quantity env route f side limit_price blank = fire_with env route f side limit_price none
fire_quantity env route f side limit_price not_a_number =
    pure (invalid "quantity must be a number (base units) or blank")
fire_quantity env route f side limit_price (number (negsuc n)) =
    pure (invalid "quantity must be > 0 (or blank for managed sizing)")
fire_quantity env route f side limit_price (number (pos n)) =
    if n == 0
    then pure (invalid "quantity must be > 0 (or blank for managed sizing)")
    else fire_with env route f side limit_price (some n)

abbrev pub fire_route :
    Env → FireRequest → Side → (limit_price : ℕ) → Option StrategyRoute → Action FireAnswer
fire_route env f side limit_price none = pure unknown
fire_route env f side limit_price (some route) =
    if length (enabled_venues route) == 0
    then pure no_venues
    else fire_quantity env route f side limit_price f.quantity

-- The price of the form, a finite number: in the source nan passes this test too.
abbrev pub fire_price : Env → Option StrategyRoute → FireRequest → Side → ℤ → Action FireAnswer
fire_price env route f side (negsuc n) = pure (invalid "limit_price must be > 0")
fire_price env route f side (pos n) =
    if n == 0 then pure (invalid "limit_price must be > 0") else fire_route env f side n route

abbrev pub fire_side : Env → Option StrategyRoute → FireRequest → Option Side → Action FireAnswer
fire_side env route f none = pure (invalid "side must be 'buy' or 'sell'")
fire_side env route f (some side) = fire_price env route f side f.limit_price

-- `fire_limit`, with the route that the router has for the strategy.
unfoldable pub fire_limit :
    Env → (expected : String) → Option StrategyRoute → FireRequest → Action FireAnswer
fire_limit env expected route f =
    if has_secret expected f.secret then fire_side env route f f.side else pure denied
