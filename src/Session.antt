-- ===== src/Session.antt =====
-- The database session of a handler (`session_scope` of app/db.py), the calls that it sends to the
-- venues, and the notices that it emits. A handler is an action on a session: it may raise, and the
-- session keeps what was committed before.
use mochi_position_manager.Prelude.{
  ◌≡◌, refl, ◌⊎◌, inl, inr, ap, arith, ℕ, String, Option, List, [], ◌∷◌, ◌++◌,
}
use mochi_position_manager.Prelude.Int.{ℤ}
use mochi_position_manager.ArbModels.{
  Product, ArbMessage, ArbPosition, ArbLeg, ArbOrder, ArbFundingEvent, FundingEvent,
}
use mochi_position_manager.Models.{
  Side, Alert, Order, Position, StrategyPosition, RiskSettings, Reason,
}

-- The directional tables and, apart from them, the tables of the funding-arb book. The key of a
-- position is (exchange, symbol), that of a strategy position (strategy_id, (exchange, symbol)).
pub record Db : Type 0 where
  pub alerts : List Alert
  pub orders : List Order
  pub positions : List ((String × String) × Position)
  pub strategy_positions : List ((String × (String × String)) × StrategyPosition)
  pub risk_settings : Option RiskSettings
  pub funding_events : List FundingEvent
  pub arb_positions : List ArbPosition
  pub arb_legs : List ArbLeg
  pub arb_orders : List ArbOrder
  pub arb_funding_events : List ArbFundingEvent

-- An order or a cancel that was sent to a venue.
pub data Sent : Type 0 where
  market_order : (exchange symbol : String) (side : Side) (qty : ℕ) → Sent
  limit_order :
      (exchange symbol : String) (side : Side) (qty price : ℕ) (client_order_id : String) → Sent
  cancel_order : (exchange symbol order_id : String) → Sent
  arb_market_order spot_market_order :
      (exchange account symbol : String) (side : Side) (qty : ℕ) → Sent
  close_position : (exchange account symbol : String) → Sent

-- The events of app/notifier.py.
pub data Notice : Type 0 where
  order_succeeded :
      (strategy exchange symbol : String) (side : Side) (qty price : ℕ) (realized : ℤ) → Notice
  order_failed order_dead :
      (strategy exchange symbol : String) (side : Side) (qty attempts : ℕ) (error : String) → Notice
  order_rejected : (strategy exchange symbol : String) (side : Side) (why : Reason) → Notice
  paper_trade : (strategy exchange symbol : String) (side : Side) (qty : ℕ) → Notice
  limit_order_placed limit_order_filled :
      (strategy exchange symbol : String) (side : Side) (qty price : ℕ) → Notice
  limit_order_cancelled :
      (strategy exchange symbol : String) (side : Side) (filled qty : ℕ) → Notice
  limit_order_stale :
      (strategy exchange symbol : String) (side : Side) (price qty filled age : ℕ) → Notice
  duplicate_alert : (strategy key : String) → Notice
  unknown_strategy disabled_strategy : (strategy : String) → Notice
  arb_leg_failed arb_leg_dead :
      (exchange account symbol : String) (side : Side) (qty attempts : ℕ) (error : String) → Notice
  arb_dead : (arb_id : ℕ) (asset : String) (why : ArbMessage) → Notice
  arb_opened :
      (arb_id : ℕ) (asset : String) (qty : ℕ) (legs : List (String × (Product × (Side × ℕ))))
      → Notice
  arb_error : (arb_id : ℕ) (asset : String) (why : ArbMessage) (skew : Option ℤ) → Notice
  arb_closed : (arb_id : ℕ) (asset : String) (funding commission realized net : ℤ) → Notice

-- `commits` holds the committed states, the newest first.
pub record Session : Type 0 where
  pub current : Db
  pub commits : List Db
  pub sent : List Sent
  pub notices : List Notice

pub data Result (A : Type 0) : Type 0 where
  ok : A → Result A
  raised : String → Result A

-- The value of a call, or a given one if it raised.
abbrev pub value_or : {A : Type 0} → Result A → A → A
value_or (ok a) d = a
value_or (raised e) d = d

abbrev pub Action : Type 0 → Type 0
Action A = Session → Result A × Session

infixl 5 ◌>>=◌ ◌>>◌
abbrev pub ◌>>=◌ : {A B : Type 0} → Action A → (A → Action B) → Action B
◌>>=◌ m f s = let (r, s') = m s in elim r [ ok a ↦ f a s' | raised e ↦ (raised e, s') ]

abbrev pub ◌>>◌ : {A B : Type 0} → Action A → Action B → Action B
m >> k = m >>= λ _. k

module _ {A : Type 0} where
  abbrev pub pure : A → Action A
  pure a s = (ok a, s)

  -- A value of code that may raise, such as an adapter's answer.
  abbrev pub lift : Result A → Action A
  lift r s = (r, s)

  abbrev pub reads : (Db → A) → Action A
  reads f s = (ok (f s.current), s)

  -- `try: m except Exception: log`, where `m` returns nothing that is used.
  abbrev pub attempt : Action A → Action (Unit {0})
  attempt m s = let (r, s') = m s in (ok tt, s')

abbrev pub modify : (Db → Db) → Action (Unit {0})
modify f s = (ok tt, record s { current = f s.current })

abbrev pub notify : Notice → Action (Unit {0})
notify n s = (ok tt, record s { notices = n ∷ s.notices })

abbrev pub send : Sent → Action (Unit {0})
send c s = (ok tt, record s { sent = c ∷ s.sent })

-- `db.commit()`.
abbrev pub commit : Action (Unit {0})
commit s = (ok tt, record s { commits = s.current ∷ s.commits })

-- The state that a rollback restores: the last commit, or the state at the start.
abbrev pub last_commit : Db → List Db → Db
last_commit start [] = start
last_commit start (d ∷ ds) = d

-- Leaving the scope: a commit, or a rollback to the last commit inside it.
abbrev pub leave : {A : Type 0} → Db → List Db → Result A × Session → Result A × Session
leave start before (ok a, s) = (ok a, record s { commits = s.current ∷ s.commits ++ before })
leave start before (raised e, s) =
    (raised e, record s { current = last_commit start s.commits; commits = s.commits ++ before })

-- `with session_scope() as db: m`.
unfoldable pub session_scope : {A : Type 0} → Action A → Action A
session_scope m s = leave s.current s.commits (m (record s { commits = [] }))

-- An action after a call that returned a value.
pub bound :
    {A B : Type 0} (p : Result A × Session) (f : A → Action B) (a : A)
    → p.0 ≡ ok a
    → elim p.0 as (λ _. Result B × Session) [ ok b ↦ f b p.1 | raised e ↦ (raised e, p.1) ]
      ≡ f a p.1
bound (ok b, s) f a h = ap (λ r. f (value_or r b) s) h
bound (raised e, s) f a h = ground arith

pub bind-ok :
    {A B : Type 0} (m : Action A) (f : A → Action B) (s : Session) (a : A)
    → (m s).0 ≡ ok a
    → (m >>= f) s ≡ f a (m s).1
bind-ok m f s a h = bound (m s) f a h

pub Result-cases :
    {A : Type 0} (r : Result A) → ((a : A) × (r ≡ ok a)) ⊎ ((e : String) × (r ≡ raised e))
Result-cases (ok a) = inl (a, refl)
Result-cases (raised e) = inr (e, refl)
