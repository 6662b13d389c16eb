-- ===== src/Soundness/Quiet.antt =====
-- Actions that send nothing to a venue, and the rules by which they are composed.
use mochi_position_manager.Prelude.{
  ◌≡◌, refl, ◌∙◌, List, [], Bool, true, false, Option, none, some, if◌then◌else◌,
}
use mochi_position_manager.Session.{
  Db, Notice, Session, Result, ok, raised, Action, ◌>>=◌, pure, lift, reads, modify, notify,
  session_scope, leave,
}

pub record Quiet {A : Type 0} (m : Action A) : Type 0 where
  pub run : (s : Session) → (m s).1.sent ≡ s.sent

pub continued :
    {A B : Type 0} (k : A → Action B)
    → ((a : A) → Quiet (k a))
    → (p : Result A × Session)
    → (elim p.0 as (λ r. Result B × Session) [ ok a ↦ k a p.1 | raised e ↦ (raised e, p.1) ]).1.sent
      ≡ p.1.sent
continued k g (ok a, s) = (g a).run s
continued k g (raised e, s) = refl

-- Leaving a session sends nothing.
pub leave-sent :
    {A : Type 0} (start : Db) (before : List Db) (p : Result A × Session)
    → (leave start before p).1.sent ≡ p.1.sent
leave-sent start before (ok a, s) = refl
leave-sent start before (raised e, s) = refl

pub Quiet-pure : {A : Type 0} (a : A) → Quiet (pure a)
Quiet-pure a = record { run = λ s. refl }

pub Quiet-lift : {A : Type 0} (r : Result A) → Quiet (lift r)
Quiet-lift r = record { run = λ s. refl }

pub Quiet-reads : {A : Type 0} (f : Db → A) → Quiet (reads f)
Quiet-reads f = record { run = λ s. refl }

pub Quiet-modify : (f : Db → Db) → Quiet (modify f)
Quiet-modify f = record { run = λ s. refl }

pub Quiet-notify : (n : Notice) → Quiet (notify n)
Quiet-notify n = record { run = λ s. refl }

pub Quiet-bind :
    {A B : Type 0} {m : Action A} {k : A → Action B}
    → Quiet m
    → ((a : A) → Quiet (k a))
    → Quiet (m >>= k)
Quiet-bind {m = m} {k = k} h g = record { run = λ s. continued k g (m s) ∙ h.run s }

pub Quiet-if :
    {A : Type 0} (b : Bool) {m k : Action A} → Quiet m → Quiet k → Quiet (if b then m else k)
Quiet-if true h g = h
Quiet-if false h g = g

pub Quiet-session_scope : {A : Type 0} {m : Action A} → Quiet m → Quiet (session_scope m)
unfolding session_scope
Quiet-session_scope {m = m} h = record {
  run = λ s.
      leave-sent s.current s.commits (m (record s { commits = [] }))
      ∙ h.run (record s { commits = [] });
}

looked :
    {X A : Type 0} (m : Action A) (k : X → Action A)
    → Quiet m
    → ((x : X) → Quiet (k x))
    → (o : Option X) (s : Session)
    → (elim o as (λ _. Result A × Session) [ none ↦ m s | some x ↦ k x s ]).1.sent ≡ s.sent
looked m k h g none s = h.run s
looked m k h g (some x) s = (g x).run s

pub Quiet-look :
    {X A : Type 0} (f : Session → Option X) (m : Action A) (k : X → Action A)
    → Quiet m
    → ((x : X) → Quiet (k x))
    → Quiet (λ s. elim (f s) as (λ _. Result A × Session) [ none ↦ m s | some x ↦ k x s ])
Quiet-look f m k h g = record { run = λ s. looked m k h g (f s) s }

pub ruleset quiet_laws = (
  Quiet-if, Quiet-bind, Quiet-pure, Quiet-lift, Quiet-reads, Quiet-modify, Quiet-notify,
  Quiet-session_scope,
)
