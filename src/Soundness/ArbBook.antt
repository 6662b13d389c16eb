-- ===== src/Soundness/ArbBook.antt =====
-- The handlers of the funding-arb book and the properties of the database that their own tables do
-- not break.
use mochi_position_manager.Prelude.{ℕ, Option, none, some, List, [], ◌∷◌, Bool, select, take}
use mochi_position_manager.Models.{OrderResult}
use mochi_position_manager.ArbModels.{CloseError, ArbPosition, ArbLeg, ArbOrder}
use mochi_position_manager.Session.{Db, Action}
use mochi_position_manager.Exchange.{Adapter}
use mochi_position_manager.Config.{Env}
use mochi_position_manager.ArbExecutor.Legs.{
  arb_of, leg_of, save_arb, save_leg, save_arb_order, with_leg, with_arb, arb_order_for,
  place_leg_order, on_leg_success, on_leg_failure, execute_leg,
}
use mochi_position_manager.ArbExecutor.Opening.{
  finalize_with, finalize_arb, finalize_open_status, fire_first, open_first, hedge_with, fire_hedge,
  open_hedge, open_pair, open_legs, run_open,
}
use mochi_position_manager.ArbExecutor.Closing.{
  settle_close, close_perp, sell_spot, close_spot, close_leg, Tally, tallied, close_one, close_all,
  finish_closed, finish_with, close_legs, run_close, no_tally,
}
use mochi_position_manager.RetryWorker.{
  retry_leg, retry_arb_order, retry_arb_orders, run_due_arb_retries, scan_limit, is_arb_due,
}
use mochi_position_manager.Soundness.{
  Keeps, keeps_laws, Keeps-modify, Keeps-look, Keeps-lift, Keeps-pure, Keeps-bind,
  Keeps-session_scope,
}
use mochi_position_manager.Soundness.ArbStable.{ArbStable}

module _ {P : Db → Type 0} (stable : ArbStable P) where
  pub save_arb-Keeps : (a : ArbPosition) → Keeps P (save_arb a)
  save_arb-Keeps a = Keeps-modify _ (λ d h. stable.positions d _ h)

  pub save_leg-Keeps : (lg : ArbLeg) → Keeps P (save_leg lg)
  save_leg-Keeps lg = Keeps-modify _ (λ d h. stable.legs d _ h)

  save_arb_order-Keeps : (o : ArbOrder) → Keeps P (save_arb_order o)
  save_arb_order-Keeps o = Keeps-modify _ (λ d h. stable.orders d _ h)

  pub with_leg-Keeps :
      {A : Type 0} (i : ℕ) (k : ArbLeg → Action A)
      → ((lg : ArbLeg) → Keeps P (k lg))
      → Keeps P (with_leg i k)
  with_leg-Keeps i k h = Keeps-look (λ s. leg_of i s.current) _ k (Keeps-lift _) h

  pub with_arb-Keeps :
      (i : ℕ) (k : ArbPosition → Action (Unit {0}))
      → ((a : ArbPosition) → Keeps P (k a))
      → Keeps P (with_arb i k)
  with_arb-Keeps i k h = Keeps-look (λ s. arb_of i s.current) _ k (Keeps-pure _) h

  arb_order_for-Keeps :
      (env : Env) (lg : ArbLeg) (o : Option ArbOrder) → Keeps P (arb_order_for env lg o)
  unfolding arb_order_for
  arb_order_for-Keeps env lg none = record { run = λ s h. (stable.orders s.current _ h.0, h.1) }
  arb_order_for-Keeps env lg (some o) = Keeps-pure o

  place_leg_order-Keeps : (ex : Adapter) (lg : ArbLeg) → Keeps P (place_leg_order ex lg)
  unfolding place_leg_order
  place_leg_order-Keeps ex lg = search keeps_laws

  on_leg_success-Keeps :
      (env : Env) (lg : ArbLeg) (o : ArbOrder) (r : OrderResult) (ref step : ℕ)
      → Keeps P (on_leg_success env lg o r ref step)
  unfolding on_leg_success
  on_leg_success-Keeps env lg o r ref step =
      search (keeps_laws, save_arb_order-Keeps, save_leg-Keeps)

  on_leg_failure-Keeps :
      (env : Env) (lg : ArbLeg) (o : ArbOrder) (r : OrderResult)
      → Keeps P (on_leg_failure env lg o r)
  unfolding on_leg_failure
  on_leg_failure-Keeps env lg o r =
      search (keeps_laws, save_arb_order-Keeps, save_leg-Keeps) depth 8

  execute_leg-Keeps :
      (env : Env) (lg : ArbLeg) (o : Option ArbOrder) → Keeps P (execute_leg env lg o)
  unfolding execute_leg
  execute_leg-Keeps env lg o =
      search
        (
          keeps_laws, arb_order_for-Keeps, save_arb_order-Keeps, place_leg_order-Keeps,
          on_leg_success-Keeps, on_leg_failure-Keeps,
        )
        depth 10

  finalize_arb-Keeps : (env : Env) (a : ArbPosition) → Keeps P (finalize_arb env a)
  unfolding finalize_arb finalize_with
  finalize_arb-Keeps env a = search (keeps_laws, save_arb-Keeps) depth 8

  finalize_open_status-Keeps : (env : Env) (i : ℕ) → Keeps P (finalize_open_status env i)
  unfolding finalize_open_status
  finalize_open_status-Keeps env i =
      Keeps-session_scope (with_arb-Keeps i _ (finalize_arb-Keeps env))

  fire_first-Keeps : (env : Env) (lg : ArbLeg) → Keeps P (fire_first env lg)
  unfolding fire_first
  fire_first-Keeps env lg = search (keeps_laws, execute_leg-Keeps)

  open_first-Keeps : (env : Env) (i : ℕ) → Keeps P (open_first env i)
  open_first-Keeps env i = with_leg-Keeps i _ (fire_first-Keeps env)

  hedge_with-Keeps : (env : Env) (lg : ArbLeg) (f h : ℕ) → Keeps P (hedge_with env lg f h)
  unfolding hedge_with
  hedge_with-Keeps env lg f h = search (keeps_laws, save_leg-Keeps, execute_leg-Keeps)

  fire_hedge-Keeps : (env : Env) (b : Bool) (f : ℕ) (lg : ArbLeg) → Keeps P (fire_hedge env b f lg)
  unfolding fire_hedge
  fire_hedge-Keeps env b f lg = search (keeps_laws, save_leg-Keeps, hedge_with-Keeps)

  open_hedge-Keeps : (env : Env) (b : Bool) (f i : ℕ) → Keeps P (open_hedge env b f i)
  open_hedge-Keeps env b f i = with_leg-Keeps i _ (fire_hedge-Keeps env b f)

  open_pair-Keeps : (env : Env) (i a b : ℕ) → Keeps P (open_pair env i a b)
  unfolding open_pair
  open_pair-Keeps env i a b =
      search (keeps_laws, open_first-Keeps, open_hedge-Keeps, finalize_open_status-Keeps)

  open_legs-Keeps : (env : Env) (i : ℕ) (o : Option (List ArbLeg)) → Keeps P (open_legs env i o)
  unfolding open_legs
  open_legs-Keeps env i none = Keeps-pure tt
  open_legs-Keeps env i (some []) = finalize_open_status-Keeps env i
  open_legs-Keeps env i (some (a ∷ [])) = finalize_open_status-Keeps env i
  open_legs-Keeps env i (some (a ∷ b ∷ [])) = open_pair-Keeps env i a.id b.id
  open_legs-Keeps env i (some (a ∷ b ∷ c ∷ xs)) = finalize_open_status-Keeps env i

  pub run_open-Keeps : (env : Env) (i : ℕ) → Keeps P (run_open env i)
  unfolding run_open
  run_open-Keeps env i = search (keeps_laws, open_legs-Keeps)

  settle_close-Keeps :
      (env : Env) (lg : ArbLeg) (mark qty : ℕ) (r : OrderResult)
      → Keeps P (settle_close env lg mark qty r)
  unfolding settle_close
  settle_close-Keeps env lg mark qty r = search (keeps_laws, save_leg-Keeps)

  close_leg-Keeps : (env : Env) (lg : ArbLeg) → Keeps P (close_leg env lg)
  unfolding close_leg close_perp close_spot sell_spot
  close_leg-Keeps env lg = search (keeps_laws, save_leg-Keeps, settle_close-Keeps) depth 12

  close_one-Keeps : (env : Env) (i : ℕ) → Keeps P (close_one env i)
  close_one-Keeps env i = record {
    run = (Keeps-session_scope (with_leg-Keeps i _ (close_leg-Keeps env))).run;
  }

  close_all-Keeps : (env : Env) (t : Tally) (legs : List ArbLeg) → Keeps P (close_all env t legs)
  unfolding close_all
  close_all-Keeps env t [] = Keeps-pure t
  close_all-Keeps env t (lg ∷ legs) =
      Keeps-bind (close_one-Keeps env lg.id) λ r. close_all-Keeps env (tallied lg.id t r) legs

  finish_with-Keeps :
      (now : ℕ) (es : List CloseError) (total : _) (a : ArbPosition)
      → Keeps P (finish_with now es total a)
  unfolding finish_with finish_closed
  finish_with-Keeps now [] total a = search (keeps_laws, save_arb-Keeps)
  finish_with-Keeps now (e ∷ es) total a = search (keeps_laws, save_arb-Keeps)

  close_legs-Keeps : (env : Env) (i : ℕ) (o : Option (List ArbLeg)) → Keeps P (close_legs env i o)
  unfolding close_legs
  close_legs-Keeps env i none = Keeps-pure tt
  close_legs-Keeps env i (some legs) =
      Keeps-bind (close_all-Keeps env no_tally legs)
        λ t. Keeps-session_scope (with_arb-Keeps i _ (finish_with-Keeps env.now t.errors t.total))

  pub run_close-Keeps : (env : Env) (i : ℕ) → Keeps P (run_close env i)
  unfolding run_close
  run_close-Keeps env i = search (keeps_laws, close_legs-Keeps)

  retry_leg-Keeps : (env : Env) (o : ArbOrder) (lg : ArbLeg) → Keeps P (retry_leg env o lg)
  unfolding retry_leg
  retry_leg-Keeps env o lg = search (keeps_laws, execute_leg-Keeps)

  retry_arb_order-Keeps : (env : Env) (o : ArbOrder) → Keeps P (retry_arb_order env o)
  unfolding retry_arb_order
  retry_arb_order-Keeps env o =
      Keeps-look (λ s. leg_of o.arb_leg_id s.current) _ _ (save_arb_order-Keeps _)
        (retry_leg-Keeps env o)

  retry_arb_orders-Keeps : (env : Env) (os : List ArbOrder) → Keeps P (retry_arb_orders env os)
  unfolding retry_arb_orders
  retry_arb_orders-Keeps env [] = Keeps-pure tt
  retry_arb_orders-Keeps env (o ∷ os) =
      search (keeps_laws, retry_arb_order-Keeps env o, retry_arb_orders-Keeps env os)

  pub run_due_arb_retries-Keeps : (env : Env) → Keeps P (run_due_arb_retries env)
  unfolding run_due_arb_retries
  run_due_arb_retries-Keeps env = Keeps-session_scope (record {
    run = λ t k.
        (retry_arb_orders-Keeps env
            (take scan_limit (select (is_arb_due env.now) t.current.arb_orders))).run
          t k;
  })
