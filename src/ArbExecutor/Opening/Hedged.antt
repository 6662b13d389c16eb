-- ===== src/ArbExecutor/Opening/Hedged.antt =====
-- What opening a pair sends.
use mochi_position_manager.Prelude.{
  ℕ, ◌≡◌, refl, ap, ◌∙◌, ◌⊎◌, subst, sym, inl, inr, Bool, Bool-cases, true, false, Option, none,
  some, List, [], ◌∷◌, ◌++◌, arith, ◌<◌, leb,
}
use mochi_position_manager.ArbModels.{is_filled, ArbLeg}
use mochi_position_manager.Session.{
  Db, Sent, Session, Result, ok, raised, Action, ◌>>=◌, ◌>>◌, lift, reads, session_scope,
}
use mochi_position_manager.Exchange.{Adapter}
use mochi_position_manager.Config.{Env}
use mochi_position_manager.Soundness.Quiet.{
  Quiet, Quiet-look, Quiet-pure, Quiet-session_scope, leave-sent, continued,
}
use mochi_position_manager.ArbExecutor.{hedge_qty, qty_eps}
use mochi_position_manager.ArbExecutor.Sizing.{leg_step}
use mochi_position_manager.ArbExecutor.Legs.{arb_of, leg_of, leg_order, execute_leg}
use mochi_position_manager.ArbExecutor.Opening.{
  finalize_open_status, open_first, hedge_with, fire_hedge, open_hedge, open_pair, legs_to_open,
  open_legs, run_open,
}
use mochi_position_manager.ArbExecutor.Opening.Order.{IsPair, legs_to_open-IsPair}
use mochi_position_manager.ArbExecutor.Opening.Fires.{
  Fires, finalize_arb-Quiet, execute_leg-FiresLeg,
}
use mochi_position_manager.ArbExecutor.Opening.FirstLeg.{Firsts, open_first-Firsts}

-- The order of the hedge.
abbrev pub hedge_order : ArbLeg → (fill step : ℕ) → Sent
hedge_order leg fill step = leg_order (record leg { target_qty = hedge_qty fill step })

-- The protocol of an opening over the tables that it starts from, by what it sends, the newest first:
-- nothing; the order of the pair's first leg; or that order, which was filled, and then an order of
-- the pair's second leg for the hedge of that fill, on the grid that the second leg's venue reports.
-- Each leg is the row of its id at the time that it fires.
pub data Opens (env : Env) (arb_id : ℕ) (d : Db) : List Sent → Type 0 where
  nothing : Opens env arb_id d []
  first_only :
      (a b first : ArbLeg)
      → IsPair arb_id d a b
      → leg_of a.id d ≡ some first
      → Opens env arb_id d (leg_order first ∷ [])
  hedged :
      (a b first second done : ArbLeg) (before : Session) (ex : Adapter) (step : ℕ)
      → IsPair arb_id d a b
      → leg_of a.id d ≡ some first
      → before.current ≡ d
      → (execute_leg env first none before).0 ≡ ok done
      → is_filled done.status ≡ true
      → leg_of b.id (execute_leg env first none before).1.current ≡ some second
      → env.registry second.exchange second.account ≡ ok ex
      → leg_step ex second ≡ ok step
      → qty_eps < hedge_qty done.filled_qty step
      → Opens env arb_id d (hedge_order second done.filled_qty step ∷ leg_order first ∷ [])

-- What the second leg's session adds to what was sent.
data Hedges (env : Env) (leg_id : ℕ) (d : Db) (leg1_ok : Bool) (fill : ℕ) (start : List Sent)
    : List Sent → Type 0 where
  no_order : {l : List Sent} → l ≡ start → Hedges env leg_id d leg1_ok fill start l
  hedge_sent :
      {l : List Sent} (second : ArbLeg) (ex : Adapter) (step : ℕ)
      → leg1_ok ≡ true
      → leg_of leg_id d ≡ some second
      → env.registry second.exchange second.account ≡ ok ex
      → leg_step ex second ≡ ok step
      → qty_eps < hedge_qty fill step
      → l ≡ hedge_order second fill step ∷ start
      → Hedges env leg_id d leg1_ok fill start l

quiet_after :
    (p : Result ArbLeg × Session)
    → (elim p.0 as (λ _. Result (Unit {0}) × Session) [
      | ok done ↦ (ok tt, p.1)
      | raised e ↦ (raised e, p.1)
    ]).1.sent
      ≡ p.1.sent
quiet_after (ok done, s) = refl
quiet_after (raised e, s) = refl

fires_sent :
    (leg : ArbLeg) (start : List Sent) (p : Result ArbLeg × Session)
    → Fires leg start p
    → (p.1.sent ≡ start) ⊎ (p.1.sent ≡ leg_order leg ∷ start)
fires_sent leg start (raised e, s) (Fires.silent h) = inl h
fires_sent leg start (r, s) (Fires.fired h) = inr h

module _ (env : Env) (leg_id : ℕ) (d : Db) (fill : ℕ) where
  hedge_with-Hedges :
      (second : ArbLeg) (ex : Adapter) (step : ℕ) (s : Session)
      → leg_of leg_id d ≡ some second
      → env.registry second.exchange second.account ≡ ok ex
      → leg_step ex second ≡ ok step
      → Hedges env leg_id d true fill s.sent
          (hedge_with env second fill (hedge_qty fill step) s).1.sent
  unfolding hedge_with
  hedge_with-Hedges second ex step s found known grid =
      elim (Bool-cases (leb (hedge_qty fill step) qty_eps)) [
        | inl e ↦ rw e (Hedges.no_order refl)
        | inr e ↦
            let leg : ArbLeg = record second { target_qty = hedge_qty fill step } in
            let p = execute_leg env leg none s in
            let same = quiet_after p in
            rw e (elim (fires_sent leg s.sent p ((execute_leg-FiresLeg env leg).run s)) [
              | inl h ↦ Hedges.no_order (same ∙ h)
              | inr h ↦
                  Hedges.hedge_sent second ex step refl found known grid (ground (arith, e))
                    (same ∙ h)
            ])
      ]

  hedge_stepped :
      (second : ArbLeg) (ex : Adapter) (r : Result ℕ) (s : Session)
      → leg_of leg_id d ≡ some second
      → env.registry second.exchange second.account ≡ ok ex
      → leg_step ex second ≡ r
      → Hedges env leg_id d true fill s.sent
          ((lift r >>= λ step. hedge_with env second fill (hedge_qty fill step)) s).1.sent
  hedge_stepped second ex (raised e) s found known grid = Hedges.no_order refl
  hedge_stepped second ex (ok step) s found known grid =
      hedge_with-Hedges second ex step s found known grid

  hedge_known :
      (second : ArbLeg) (r : Result Adapter) (s : Session)
      → leg_of leg_id d ≡ some second
      → env.registry second.exchange second.account ≡ r
      → Hedges env leg_id d true fill s.sent
          ((lift r >>= λ ex. lift (leg_step ex second) >>= λ step.
              hedge_with env second fill (hedge_qty fill step))
            s).1.sent
  hedge_known second (raised e) s found known = Hedges.no_order refl
  hedge_known second (ok ex) s found known =
      hedge_stepped second ex (leg_step ex second) s found known refl

  fire_hedge-Hedges :
      (b : Bool) (second : ArbLeg) (s : Session)
      → leg_of leg_id d ≡ some second
      → Hedges env leg_id d b fill s.sent (fire_hedge env b fill second s).1.sent
  unfolding fire_hedge
  fire_hedge-Hedges true second s found =
      hedge_known second (env.registry second.exchange second.account) s found refl
  fire_hedge-Hedges false second s found = Hedges.no_order refl

  hedge_found :
      (b : Bool) (o : Option ArbLeg) (s : Session)
      → leg_of leg_id d ≡ o
      → Hedges env leg_id d b fill s.sent
          (elim o as (λ _. Result (Unit {0}) × Session) [
            | none ↦ lift (raised "AttributeError: no leg") s
            | some leg ↦ fire_hedge env b fill leg s
          ]).1.sent
  hedge_found b none s found = Hedges.no_order refl
  hedge_found b (some leg) s found = fire_hedge-Hedges b leg s found

open_hedge-Hedges :
    (env : Env) (leg_id fill : ℕ) (b : Bool) (s : Session)
    → Hedges env leg_id s.current b fill s.sent
        (session_scope (open_hedge env b fill leg_id) s).1.sent
unfolding session_scope
open_hedge-Hedges env leg_id fill b s =
    let t : Session = record s { commits = [] } in
    subst (Hedges env leg_id s.current b fill s.sent)
      (sym (leave-sent s.current s.commits (open_hedge env b fill leg_id t)))
      (hedge_found env leg_id s.current fill b (leg_of leg_id s.current) t refl)

finalize_open_status-Quiet : (env : Env) (arb_id : ℕ) → Quiet (finalize_open_status env arb_id)
unfolding finalize_open_status
finalize_open_status-Quiet env arb_id =
    Quiet-session_scope
      (Quiet-look (λ s. arb_of arb_id s.current) _ _ (Quiet-pure tt) (finalize_arb-Quiet env))

-- What follows the first leg's session.
abbrev hedge_and_finalize : Env → (arb_id leg2_id : ℕ) → Bool × ℕ → Action (Unit {0})
hedge_and_finalize env arb_id leg2_id (leg1_ok, fill) =
    session_scope (open_hedge env leg1_ok fill leg2_id) >> finalize_open_status env arb_id

-- Some orders of the protocol were sent.
abbrev Follows : Env → (arb_id : ℕ) → Db → List Sent → List Sent → Type 0
Follows env arb_id d start l = (new : List Sent) × Opens env arb_id d new × (l ≡ new ++ start)

module _ (env : Env) (arb_id : ℕ) (d : Db) (a b : ArbLeg) (pair : IsPair arb_id d a b) where
  hedged_Follows :
      (start : List Sent) (first done : ArbLeg) (before : Session) (mid : Db) (l l' : List Sent)
      → leg_of a.id d ≡ some first
      → before.current ≡ d
      → (execute_leg env first none before).0 ≡ ok done
      → mid ≡ (execute_leg env first none before).1.current
      → l ≡ leg_order first ∷ start
      → Hedges env b.id mid (is_filled done.status) done.filled_qty l l'
      → Follows env arb_id d start l'
  hedged_Follows start first done before mid l l' found at e left h (Hedges.no_order k) =
      (leg_order first ∷ [], Opens.first_only a b first pair found, k ∙ h)
  hedged_Follows start first done before mid l l' found at e left h
        (Hedges.hedge_sent second ex step won there known grid m k) =
      (
        hedge_order second done.filled_qty step ∷ leg_order first ∷ [],
        Opens.hedged a b first second done before ex step pair found at e won
            (ap (leg_of b.id) (sym left) ∙ there) known grid m,
        k ∙ ap (λ r. hedge_order second done.filled_qty step ∷ r) h,
      )

  pair_Follows :
      (start : List Sent) (p : Result (Bool × ℕ) × Session)
      → Firsts env a.id d start p
      → Follows env arb_id d start
          (elim p.0 as (λ _. Result (Unit {0}) × Session) [
            | ok z ↦ hedge_and_finalize env arb_id b.id z p.1
            | raised e ↦ (raised e, p.1)
          ]).1.sent
  pair_Follows start (raised e, s) (Firsts.before_order h) = ([], Opens.nothing, h)
  pair_Follows start (raised e, s) (Firsts.after_order first found h) =
      (leg_order first ∷ [], Opens.first_only a b first pair found, h)
  pair_Follows start (ok v, s) (Firsts.answered_order first done before found at e left h) =
      let q = session_scope (open_hedge env (is_filled done.status) done.filled_qty b.id) s in
      let quiet =
        continued (λ u. finalize_open_status env arb_id)
          (λ u. finalize_open_status-Quiet env arb_id) q in
      hedged_Follows start first done before s.current s.sent _ found at e left h (
        subst (Hedges env b.id s.current (is_filled done.status) done.filled_qty s.sent) (sym quiet)
          (open_hedge-Hedges env b.id done.filled_qty (is_filled done.status) s))

module _ (env : Env) (arb_id : ℕ) where
  open_legs-Follows :
      (o : Option (List ArbLeg)) (s : Session)
      → legs_to_open arb_id s.current ≡ o
      → Follows env arb_id s.current s.sent (open_legs env arb_id o s).1.sent
  unfolding open_legs open_pair
  open_legs-Follows none s e = ([], Opens.nothing, refl)
  open_legs-Follows (some []) s e =
      ([], Opens.nothing, (finalize_open_status-Quiet env arb_id).run s)
  open_legs-Follows (some (a ∷ [])) s e =
      ([], Opens.nothing, (finalize_open_status-Quiet env arb_id).run s)
  open_legs-Follows (some (a ∷ b ∷ [])) s e =
      pair_Follows env arb_id s.current a b (legs_to_open-IsPair arb_id s.current a b e) s.sent
        (session_scope (open_first env a.id) s) (open_first-Firsts env a.id s)
  open_legs-Follows (some (a ∷ b ∷ c ∷ legs)) s e =
      ([], Opens.nothing, (finalize_open_status-Quiet env arb_id).run s)

  -- Opening a pair sends what the protocol allows and nothing else, whatever the venues answer and
  -- wherever it raises: nothing, or the order of the first of the pair's two legs, spot before perp and
  -- then a buy before a sell, or that order and then one of the other leg. The second order is sent
  -- only if the first one was filled, and is for the hedge of what it filled.
  pub run_open-Opens :
      (s : Session)
      → (new : List Sent) × Opens env arb_id s.current new
        × ((run_open env arb_id s).1.sent ≡ new ++ s.sent)
  unfolding run_open session_scope
  run_open-Opens s =
      open_legs-Follows (legs_to_open arb_id s.current)
        (session_scope (reads (legs_to_open arb_id)) s).1 refl
