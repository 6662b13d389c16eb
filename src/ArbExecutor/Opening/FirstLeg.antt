-- ===== src/ArbExecutor/Opening/FirstLeg.antt =====
-- The first leg of an opening: what its session sent when it ends.
use mochi_position_manager.Prelude.{
  ℕ, ◌≡◌, refl, ap, sym, Bool, Option, none, some, List, [], ◌∷◌, String,
}
use mochi_position_manager.ArbModels.{is_filled, ArbLeg}
use mochi_position_manager.Session.{
  Db, Sent, Session, Result, ok, raised, lift, session_scope, leave,
}
use mochi_position_manager.Config.{Env}
use mochi_position_manager.ArbExecutor.Legs.{leg_of, leg_order, execute_leg}
use mochi_position_manager.ArbExecutor.Opening.{fire_first, open_first}
use mochi_position_manager.ArbExecutor.Opening.Fires.{Fires, execute_leg-FiresLeg, fired_if-ok}

-- The outcome of the first leg's session, over the tables that it starts from.
pub data Firsts (env : Env) (leg_id : ℕ) (d : Db) (start : List Sent)
    : Result (Bool × ℕ) × Session → Type 0 where
  before_order :
      {e : String} {s : Session} → s.sent ≡ start → Firsts env leg_id d start (raised e, s)
  after_order :
      {e : String} {s : Session} (first : ArbLeg)
      → leg_of leg_id d ≡ some first
      → s.sent ≡ leg_order first ∷ start
      → Firsts env leg_id d start (raised e, s)
  answered_order :
      {s : Session} (first done : ArbLeg) (before : Session)
      → leg_of leg_id d ≡ some first
      → before.current ≡ d
      → (execute_leg env first none before).0 ≡ ok done
      → s.current ≡ (execute_leg env first none before).1.current
      → s.sent ≡ leg_order first ∷ start
      → Firsts env leg_id d start (ok (is_filled done.status, done.filled_qty), s)

module _ (env : Env) (leg_id : ℕ) where
  first_ended :
      (leg : ArbLeg) (start : List Sent) (before : Session) (p : Result ArbLeg × Session)
      → leg_of leg_id before.current ≡ some leg
      → execute_leg env leg none before ≡ p
      → Fires leg start p
      → Firsts env leg_id before.current start (elim p.0 as (λ _. Result (Bool × ℕ) × Session) [
        | ok done ↦ (ok (is_filled done.status, done.filled_qty), p.1)
        | raised e ↦ (raised e, p.1)
      ])
  first_ended leg start before (ok done, s) found e f =
      Firsts.answered_order leg done before found refl (ap (λ p. p.0) e)
        (sym (ap (λ p. p.1.current) e)) (fired_if-ok leg start (ok done, s) done f refl)
  first_ended leg start before (raised e, s) found q (Fires.silent h) = Firsts.before_order h
  first_ended leg start before (raised e, s) found q (Fires.fired h) =
      Firsts.after_order leg found h

  first_left :
      (d : Db) (start : List Sent) (e : Db) (es : List Db) (p : Result (Bool × ℕ) × Session)
      → Firsts env leg_id d start p
      → Firsts env leg_id d start (leave e es p)
  first_left d start e es (raised w, s) (Firsts.before_order h) = Firsts.before_order h
  first_left d start e es (raised w, s) (Firsts.after_order first found h) =
      Firsts.after_order first found h
  first_left d start e es (ok v, s) (Firsts.answered_order first done before found at e' left h) =
      Firsts.answered_order first done before found at e' left h

  first_found :
      (t : Session) (o : Option ArbLeg)
      → leg_of leg_id t.current ≡ o
      → Firsts env leg_id t.current t.sent (elim o as (λ _. Result (Bool × ℕ) × Session) [
        | none ↦ lift (raised "AttributeError: no leg") t
        | some leg ↦ fire_first env leg t
      ])
  unfolding fire_first
  first_found t none found = Firsts.before_order refl
  first_found t (some leg) found =
      first_ended leg t.sent t (execute_leg env leg none t) found refl
        ((execute_leg-FiresLeg env leg).run t)

  pub open_first-Firsts :
      (s : Session) → Firsts env leg_id s.current s.sent (session_scope (open_first env leg_id) s)
  unfolding session_scope
  open_first-Firsts s =
      let t : Session = record s { commits = [] } in
      first_left s.current s.sent s.current s.commits (open_first env leg_id t)
        (first_found t (leg_of leg_id s.current) refl)
