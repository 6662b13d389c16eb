-- ===== src/Soundness/ArbService.antt =====
-- The routes of the funding-arb service and the funding polls, and the properties that their own
-- tables do not break.
use mochi_position_manager.Prelude.{
  ℕ, ◌+◌, String, Bool, true, false, List, [], ◌∷◌, ◌==◌, if◌then◌else◌,
}
use mochi_position_manager.ArbModels.{ArbPosition, ArbLeg, FundingEvent, ArbFundingEvent}
use mochi_position_manager.Session.{Db, Session, Result, ok, raised, Action}
use mochi_position_manager.Exchange.{Payment}
use mochi_position_manager.Config.{Env}
use mochi_position_manager.Routing.{StrategyRoute}
use mochi_position_manager.Portfolio.{get_risk_settings}
use mochi_position_manager.ArbExecutor.Sizing.{Sized, sized, unsized}
use mochi_position_manager.ArbExecutor.Legs.{arb_of}
use mochi_position_manager.FundingArb.{
  persist, size_added, finish_open, open_unheld, open_new, open_in_session, arb_with_key, open_arb,
  close_found, close_in_session, close_arb,
}
use mochi_position_manager.ArbRequest.{LegSpec, ArbOpenRequest}
use mochi_position_manager.FundingWorker.{
  Place, summed, insert_event, insert_arb_event, insert_payment, insert_arb_payment, fetch,
  store_payments, poll_place, poll_places, poll_once, poll_arb_once, venue_pairs,
}
use mochi_position_manager.Soundness.{
  Sound, settings-Keeps, Keeps, keeps_laws, Keeps-lift, Keeps-pure, Keeps-reads, Keeps-bind,
  Keeps-modify, Keeps-look, Keeps-if, Keeps-session_scope,
}
use mochi_position_manager.Soundness.ArbBook.{save_arb-Keeps}
use mochi_position_manager.Soundness.ArbStable.{ArbStable}

chosen :
    (P : Db → Type 0) {A : Type 0} (b : Bool) (p q : Result A × Session)
    → Sound P p.1
    → Sound P q.1
    → Sound P (if b then p else q).1
chosen P true p q h k = h
chosen P false p q h k = k

summed-Keeps :
    {P : Db → Type 0} (m rest : Action ℕ) → Keeps P m → Keeps P rest → Keeps P (summed m rest)
summed-Keeps m rest h k = Keeps-bind h λ a. Keeps-bind k λ b. Keeps-pure (a + b)

module _ {P : Db → Type 0} (insert : Place → Payment → Action ℕ)
    (insert-Keeps : (place : Place) (p : Payment) → Keeps P (insert place p)) where
  store_payments-Keeps :
      (place : Place) (ps : List Payment) → Keeps P (store_payments insert place ps)
  unfolding store_payments
  store_payments-Keeps place [] = Keeps-pure 0
  store_payments-Keeps place (p ∷ ps) = Keeps-if (p.time == 0) (store_payments-Keeps place ps) (
      summed-Keeps _ _ (Keeps-session_scope (insert-Keeps place p)) (store_payments-Keeps place ps))

  poll_place-Keeps :
      (place : Place) (r : Result (List Payment)) → Keeps P (poll_place insert place r)
  poll_place-Keeps place (raised e) = Keeps-pure 0
  poll_place-Keeps place (ok ps) = store_payments-Keeps place ps

  pub poll_places-Keeps :
      (env : Env) (places : List Place) → Keeps P (poll_places insert env places)
  unfolding poll_places
  poll_places-Keeps env [] = Keeps-pure 0
  poll_places-Keeps env (place ∷ places) =
      summed-Keeps _ _ (poll_place-Keeps place (fetch env place)) (poll_places-Keeps env places)

pub poll_once-Keeps :
    {P : Db → Type 0} (env : Env) (routes : List StrategyRoute)
    → ((d : Db) (es : List FundingEvent) → P d → P (record d { funding_events = es }))
    → Keeps P (poll_once env routes)
unfolding poll_once insert_event
poll_once-Keeps {P} env routes stable =
    poll_places-Keeps (insert_payment env.now)
      (λ place p. record { run = λ s h. chosen P _ _ _ h (stable s.current _ h.0, h.1) }) env
      (venue_pairs routes)

pub poll_arb_once-Keeps :
    {P : Db → Type 0} (env : Env)
    → ((d : Db) (es : List ArbFundingEvent) → P d → P (record d { arb_funding_events = es }))
    → Keeps P (poll_arb_once env)
unfolding poll_arb_once insert_arb_event
poll_arb_once-Keeps {P} env stable = Keeps-bind (Keeps-session_scope (Keeps-reads _)) λ places.
    poll_places-Keeps (insert_arb_payment env.now)
      (λ place p. record { run = λ s h. chosen P _ _ _ h (stable s.current _ h.0, h.1) }) env places

module _ {P : Db → Type 0} (stable : ArbStable P) where
  finish_open-Keeps :
      (arb_id : ℕ) (legs : List ArbLeg) (z : Sized) → Keeps P (finish_open arb_id legs z)
  unfolding finish_open
  finish_open-Keeps arb_id legs (unsized e) = Keeps-lift _
  finish_open-Keeps arb_id legs (sized qty) = record {
    run = λ s h. (stable.legs s.current _ h.0, h.1);
  }

  size_added-Keeps :
      (env : Env) (req : ArbOpenRequest) (arb : ArbPosition) (legs : List ArbLeg)
      → Keeps P (size_added env req arb legs)
  unfolding size_added
  size_added-Keeps env req arb legs = search (keeps_laws, finish_open-Keeps)

  persist-Keeps :
      (env : Env) (req : ArbOpenRequest) (arb : ArbPosition) (legs : List ArbLeg)
      → Keeps P (persist env req arb legs)
  persist-Keeps env req arb legs =
      Keeps-bind (Keeps-modify _ (λ d h. stable.legs _ _ (stable.positions d _ h)))
        λ u. size_added-Keeps env req arb legs

  open_unheld-Keeps :
      (env : Env) (req : ArbOpenRequest) (specs : List (LegSpec × String))
      → Keeps P (open_unheld env req specs)
  unfolding open_unheld
  open_unheld-Keeps env req specs = record {
    run = λ s h. chosen P _ _ _ h ((persist-Keeps env req _ _).run s h);
  }

  get_risk_settings-Keeps : Keeps P get_risk_settings
  get_risk_settings-Keeps = settings-Keeps stable.risk

  open_new-Keeps :
      (env : Env) (req : ArbOpenRequest) (specs : List (LegSpec × String))
      → Keeps P (open_new env req specs)
  unfolding open_new
  open_new-Keeps env req specs = search (keeps_laws, get_risk_settings-Keeps, open_unheld-Keeps)

  open_in_session-Keeps :
      (env : Env) (req : ArbOpenRequest) (specs : List (LegSpec × String))
      → Keeps P (open_in_session env req specs)
  unfolding open_in_session
  open_in_session-Keeps env req specs =
      Keeps-look (λ s. arb_with_key req.idempotency_key s.current) _ _
        (open_new-Keeps env req specs) (λ dup. Keeps-reads _)

  pub open_arb-Keeps : (env : Env) (req : ArbOpenRequest) → Keeps P (open_arb env req)
  unfolding open_arb
  open_arb-Keeps env req = search (keeps_laws, open_in_session-Keeps)

  close_found-Keeps : (env : Env) (a : ArbPosition) → Keeps P (close_found env a)
  unfolding close_found
  close_found-Keeps env a = search (keeps_laws, save_arb-Keeps stable)

  pub close_arb-Keeps : (env : Env) (arb_id : ℕ) → Keeps P (close_arb env arb_id)
  unfolding close_arb close_in_session
  close_arb-Keeps env arb_id =
      Keeps-session_scope
        (Keeps-look (λ s. arb_of arb_id s.current) _ _ (Keeps-lift _) (close_found-Keeps env))
