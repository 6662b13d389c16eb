-- ===== src/Soundness.antt =====
-- Properties of the database that an action keeps in every state it commits, and the rules by which
-- the handlers' actions keep them.
pub mod Orders
pub mod Webhook
pub mod Workers
pub mod ArbStable
pub mod ArbBook
pub mod Quiet
pub mod Only
pub mod ArbService
pub mod Form
pub mod Halted
pub mod Polls
pub mod Intake
pub mod KillSwitch
pub mod System
use mochi_position_manager.Prelude.{
  ◌≡◌, refl, ◌∙◌, ℕ, String, List, [], ◌∷◌, All, All-append, Option, none, some, Bool, true, false,
  if◌then◌else◌, arith,
}
use mochi_position_manager.Executor.Ledger.{filled_db}
use mochi_position_manager.Executor.Ledger.Agreement.{Agrees, filled_db-Agrees, fill-alerts}
use mochi_position_manager.Models.{Side, RiskSettings, default_risk, Alert, Order}
use mochi_position_manager.Portfolio.{store_risk, get_risk_settings}
use mochi_position_manager.Session.{
  Db, Sent, Notice, Session, Result, ok, raised, Action, ◌>>=◌, ◌>>◌, pure, lift, reads, attempt,
  modify, notify, send, session_scope, last_commit, leave,
}

module _ (P : Db → Type 0) where
  -- The current state and every committed one have the property.
  abbrev pub Sound : Session → Type 0
  Sound s = P s.current × All P s.commits

  pub record Keeps {A : Type 0} (m : Action A) : Type 0 where
    pub run : (s : Session) → Sound s → Sound (m s).1

continued :
    (P : Db → Type 0) {A B : Type 0} (k : A → Action B)
    → ((a : A) → Keeps P (k a))
    → (p : Result A × Session) → Sound P p.1
    → Sound P
        (elim p.0 as (λ r. Result B × Session) [ ok a ↦ k a p.1 | raised e ↦ (raised e, p.1) ]).1
continued P k g (ok a, s) h = (g a).run s h
continued P k g (raised e, s) h = h

last-Sound :
    (P : Db → Type 0) (start : Db) (ds : List Db) → P start → All P ds → P (last_commit start ds)
last-Sound P start [] h k = h
last-Sound P start (d ∷ ds) h (k, ks) = k

left :
    (P : Db → Type 0) {A : Type 0} (start : Db) (before : List Db)
    → P start
    → All P before
    → (p : Result A × Session) → Sound P p.1
    → Sound P (leave start before p).1
left P start before h k (ok a, s) (now, hs) = (now, (now, All-append P s.commits before hs k))
left P start before h k (raised e, s) (now, hs) =
    (last-Sound P start s.commits h hs, All-append P s.commits before hs k)

module _ {P : Db → Type 0} where
  pub Keeps-pure : {A : Type 0} (a : A) → Keeps P (pure a)
  Keeps-pure a = record { run = λ s h. h }

  pub Keeps-lift : {A : Type 0} (r : Result A) → Keeps P (lift r)
  Keeps-lift r = record { run = λ s h. h }

  pub Keeps-reads : {A : Type 0} (f : Db → A) → Keeps P (reads f)
  Keeps-reads f = record { run = λ s h. h }

  pub Keeps-notify : (n : Notice) → Keeps P (notify n)
  Keeps-notify n = record { run = λ s h. h }

  pub Keeps-send : (c : Sent) → Keeps P (send c)
  Keeps-send c = record { run = λ s h. h }

  pub Keeps-bind :
      {A B : Type 0} {m : Action A} {k : A → Action B}
      → Keeps P m
      → ((a : A) → Keeps P (k a))
      → Keeps P (m >>= k)
  Keeps-bind {m = m} {k = k} h g = record { run = λ s sound. continued P k g (m s) (h.run s sound) }

  pub Keeps-attempt : {A : Type 0} {m : Action A} → Keeps P m → Keeps P (attempt m)
  Keeps-attempt h = record { run = h.run }

  pub Keeps-if :
      {A : Type 0} (b : Bool) {m k : Action A}
      → Keeps P m
      → Keeps P k
      → Keeps P (if b then m else k)
  Keeps-if true h g = h
  Keeps-if false h g = g

  pub Keeps-modify : (f : Db → Db) → ((d : Db) → P d → P (f d)) → Keeps P (modify f)
  Keeps-modify f h = record { run = λ s sound. (h s.current sound.0, sound.1) }

  -- A session ends in a commit or in a rollback to a committed state.
  pub Keeps-session_scope : {A : Type 0} {m : Action A} → Keeps P m → Keeps P (session_scope m)
  unfolding session_scope
  Keeps-session_scope {m = m} h = record {
    run = λ s sound.
        left P s.current s.commits sound.0 sound.1 (m (record s { commits = [] }))
          (h.run (record s { commits = [] }) (sound.0, tt));
  }

looked :
    (P : Db → Type 0) {X A : Type 0} (m : Action A) (k : X → Action A)
    → Keeps P m
    → ((x : X) → Keeps P (k x))
    → (o : Option X) (s : Session) → Sound P s
    → Sound P (elim o as (λ _. Result A × Session) [ none ↦ m s | some x ↦ k x s ]).1
looked P m k h g none s sound = h.run s sound
looked P m k h g (some x) s sound = (g x).run s sound

left_current :
    (P : Db → Type 0) {A : Type 0} (start : Db) (before : List Db)
    → P start
    → (p : Result A × Session) → Sound P p.1
    → P (leave start before p).1.current
left_current P start before h (ok a, s) sound = sound.0
left_current P start before h (raised e, s) sound = last-Sound P start s.commits h sound.1

-- What a session leaves does not depend on what was committed before it.
pub scope-current :
    {P : Db → Type 0} {A : Type 0} {m : Action A}
    → Keeps P m
    → (s : Session) → P s.current
    → P (session_scope m s).1.current
unfolding session_scope
scope-current {P} {m = m} h s now =
    left_current P s.current s.commits now (m (record s { commits = [] }))
      (h.run (record s { commits = [] }) (now, tt))

module _ {P : Db → Type 0} where
  pub Keeps-match :
      {X A : Type 0} (o : Option X) (m : Action A) (k : X → Action A)
      → Keeps P m
      → ((x : X) → Keeps P (k x))
      → Keeps P (elim o as (λ _. Action A) [ none ↦ m | some x ↦ k x ])
  Keeps-match none m k h g = h
  Keeps-match (some x) m k h g = g x

  -- An action that looks something up in the session first.
  pub Keeps-look :
      {X A : Type 0} (f : Session → Option X) (m : Action A) (k : X → Action A)
      → Keeps P m
      → ((x : X) → Keeps P (k x))
      → Keeps P (λ s. elim (f s) as (λ _. Result A × Session) [ none ↦ m s | some x ↦ k x s ])
  Keeps-look f m k h g = record { run = λ s sound. looked P m k h g (f s) s sound }

-- The risk settings are read, and the defaults are stored if there are none.
module _ {P : Db → Type 0}
    (default : (d : Db)
      → d.risk_settings ≡ none
      → P d
      → P (record d { risk_settings = some default_risk })) where
  settings_looked :
      (o : Option RiskSettings) (s : Session)
      → s.current.risk_settings ≡ o
      → Sound P s
      → Sound P
          (elim o as (λ _. Result RiskSettings × Session) [
            | none ↦ store_risk default_risk s
            | some r ↦ pure r s
          ]).1
  unfolding store_risk
  settings_looked none s e h = (default s.current e h.0, h.1)
  settings_looked (some r) s e h = h

  pub settings-Keeps : Keeps P get_risk_settings
  unfolding get_risk_settings
  settings-Keeps = record { run = λ s h. settings_looked s.current.risk_settings s refl h }

-- A property that no write of the order handlers breaks: it survives a write to the orders, the
-- defaults for missing risk settings, and a fill in both ledgers.
pub record Stable (P : Db → Type 0) : Type 0 where
  pub orders : (d : Db) (os : List Order) → P d → P (record d { orders = os })
  pub risk :
      (d : Db) → d.risk_settings ≡ none → P d → P (record d { risk_settings = some default_risk })
  pub fill :
      (strategy_id exchange symbol : String) (side : Side) (qty price now : ℕ) (d : Db)
      → P d
      → P (filled_db strategy_id exchange symbol side qty price now d).0

pub ledgers_stable : Stable Agrees
ledgers_stable = record { orders = λ d os h. h; risk = λ d e h. h; fill = filled_db-Agrees }

-- No handler of orders writes an alert.
pub alerts_stable : (alerts : List Alert) → Stable (λ d. d.alerts ≡ alerts)
alerts_stable alerts = record {
  orders = λ d os h. h;
  risk = λ d e h. h;
  fill = λ strategy_id exchange symbol side qty price now d h.
      fill-alerts strategy_id exchange symbol side qty price now d ∙ h;
}

pub ruleset keeps_laws = (
  Keeps-if, Keeps-bind, Keeps-pure, Keeps-lift, Keeps-reads, Keeps-notify, Keeps-send,
  Keeps-attempt, Keeps-session_scope, Keeps-match,
)
