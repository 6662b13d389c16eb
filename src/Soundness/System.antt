-- ===== src/Soundness/System.antt =====
-- The whole program as a system of handlers that run after each other in any order: the background
-- tasks, scans, fired orders and risk forms of the directional book, and those of the funding-arb book.
use mochi_position_manager.Prelude.{ℕ, String, Option, some, ◌≡◌, ◌∙◌, List}
use mochi_position_manager.Models.{Alert, RiskSettings}
use mochi_position_manager.ArbModels.{FundingEvent}
use mochi_position_manager.Session.{Db, Session}
use mochi_position_manager.Config.{Env}
use mochi_position_manager.Routing.{StrategyRoute}
use mochi_position_manager.Executor.Ledger.Agreement.{Agrees, fill-arb}
use mochi_position_manager.Webhook.{run_fan_out}
use mochi_position_manager.RetryWorker.{run_due_order_retries, run_due_arb_retries}
use mochi_position_manager.LimitWorker.{poll_working_orders}
use mochi_position_manager.FundingArb.{open_arb, close_arb}
use mochi_position_manager.ArbRequest.{ArbOpenRequest}
use mochi_position_manager.FundingWorker.{poll_once, poll_arb_once}
use mochi_position_manager.ArbExecutor.Opening.{run_open}
use mochi_position_manager.ArbExecutor.Closing.{run_close}
use mochi_position_manager.Admin.Risk.{RiskForm, save_risk}
use mochi_position_manager.Routing.Build.{Texts}
use mochi_position_manager.Admin.Fire.{FireRequest, fire_limit}
use mochi_position_manager.Soundness.Form.{fire_limit-Keeps, save_risk-Keeps}
use mochi_position_manager.Soundness.{Stable, ledgers_stable, Sound}
use mochi_position_manager.Soundness.Webhook.{run_fan_out-Sound}
use mochi_position_manager.Soundness.Workers.{
  run_due_order_retries-Sound, poll_working_orders-Sound,
}
use mochi_position_manager.Soundness.ArbBook.{
  run_open-Keeps, run_close-Keeps, run_due_arb_retries-Keeps,
}
use mochi_position_manager.Soundness.ArbStable.{ArbStable, SameBook, book_stable}
use mochi_position_manager.Soundness.ArbService.{
  open_arb-Keeps, close_arb-Keeps, poll_once-Keeps, poll_arb_once-Keeps,
}

-- A handler of the directional book. Each has an environment of its own: the clock and what the
-- venues answer change from one to the next.
pub data BookStep : Session → Session → Type 0 where
  fanned_out :
      (env : Env) (alert_id : ℕ) (route : StrategyRoute) (quantity : ℕ) (s : Session)
      → BookStep s (run_fan_out env alert_id route quantity s)
  retried : (env : Env) (s : Session) → BookStep s (run_due_order_retries env s).1
  polled : (env : Env) (s : Session) → BookStep s (poll_working_orders env s).1
  funded :
      (env : Env) (routes : List StrategyRoute) (s : Session)
      → BookStep s (poll_once env routes s).1
  fired :
      (env : Env) (expected : String) (route : Option StrategyRoute) (f : FireRequest) (s : Session)
      → BookStep s (fire_limit env expected route f s).1
  risk_saved :
      (t : Texts) (expected : String) (f : RiskForm) (s : Session)
      → BookStep s (save_risk t expected f s).1

-- A handler of the funding-arb book.
pub data ArbStep : Session → Session → Type 0 where
  open_requested :
      (env : Env) (req : ArbOpenRequest) (s : Session) → ArbStep s (open_arb env req s).1
  opened : (env : Env) (arb_id : ℕ) (s : Session) → ArbStep s (run_open env arb_id s).1
  close_requested : (env : Env) (arb_id : ℕ) (s : Session) → ArbStep s (close_arb env arb_id s).1
  closed : (env : Env) (arb_id : ℕ) (s : Session) → ArbStep s (run_close env arb_id s).1
  retried : (env : Env) (s : Session) → ArbStep s (run_due_arb_retries env s).1
  funded : (env : Env) (s : Session) → ArbStep s (poll_arb_once env s).1

pub data Step : Session → Session → Type 0 where
  book : {s t : Session} → BookStep s t → Step s t
  arb : {s t : Session} → ArbStep s t → Step s t

-- Any number of steps.
pub data Steps (R : Session → Session → Type 0) : Session → Session → Type 0 where
  done : (s : Session) → Steps R s s
  next : {s t u : Session} → R s t → Steps R t u → Steps R s u

-- A property that every step keeps is kept by any number of them.
Steps-Sound :
    (R : Session → Session → Type 0) (P : Db → Type 0)
    → ((s t : Session) → R s t → Sound P s → Sound P t)
    → {s t : Session} → Steps R s t
    → Sound P s
    → Sound P t
Steps-Sound R P f (Steps.done s) h = h
Steps-Sound R P f (Steps.next r rs) h = Steps-Sound R P f rs (f _ _ r h)

BookStep-Sound :
    {P : Db → Type 0}
    → Stable P
    → ((d : Db) (es : List FundingEvent) → P d → P (record d { funding_events = es }))
    → ((d : Db) (rows : List Alert) → P d → P (record d { alerts = rows }))
    → ((d : Db) (r : RiskSettings) → P d → P (record d { risk_settings = some r }))
    → {s t : Session} → BookStep s t
    → Sound P s
    → Sound P t
BookStep-Sound stable events alerts risks (BookStep.fanned_out env alert_id route quantity s) h =
    run_fan_out-Sound stable env alert_id route quantity s h
BookStep-Sound stable events alerts risks (BookStep.retried env s) h =
    run_due_order_retries-Sound stable env s h
BookStep-Sound stable events alerts risks (BookStep.polled env s) h =
    poll_working_orders-Sound stable env s h
BookStep-Sound stable events alerts risks (BookStep.funded env routes s) h =
    (poll_once-Keeps env routes events).run s h
BookStep-Sound stable events alerts risks (BookStep.fired env expected route f s) h =
    (fire_limit-Keeps stable alerts env expected route f).run s h
BookStep-Sound stable events alerts risks (BookStep.risk_saved t expected f s) h =
    (save_risk-Keeps risks t expected f).run s h

ArbStep-Sound :
    {P : Db → Type 0} → ArbStable P → {s t : Session} → ArbStep s t → Sound P s → Sound P t
ArbStep-Sound stable (ArbStep.open_requested env req s) h = (open_arb-Keeps stable env req).run s h
ArbStep-Sound stable (ArbStep.opened env arb_id s) h = (run_open-Keeps stable env arb_id).run s h
ArbStep-Sound stable (ArbStep.close_requested env arb_id s) h =
    (close_arb-Keeps stable env arb_id).run s h
ArbStep-Sound stable (ArbStep.closed env arb_id s) h = (run_close-Keeps stable env arb_id).run s h
ArbStep-Sound stable (ArbStep.retried env s) h = (run_due_arb_retries-Keeps stable env).run s h
ArbStep-Sound stable (ArbStep.funded env s) h = (poll_arb_once-Keeps env stable.events).run s h

Agrees-ArbStable : ArbStable Agrees
Agrees-ArbStable = record {
  positions = λ d xs h. h;
  legs = λ d xs h. h;
  orders = λ d xs h. h;
  events = λ d xs h. h;
  risk = λ d e h. h;
}

Step-Agrees : {s t : Session} → Step s t → Sound Agrees s → Sound Agrees t
Step-Agrees (Step.book r) h =
    BookStep-Sound ledgers_stable (λ d es k. k) (λ d rows k. k) (λ d r k. k) r h
Step-Agrees (Step.arb r) h = ArbStep-Sound Agrees-ArbStable r h

-- From a state in which the aggregate ledger is the sum of the strategies', any sequence of handlers
-- of both books leaves and commits such states only, whatever the venues answer and wherever a
-- handler raises.
pub Steps-Agrees : {s t : Session} → Steps Step s t → Sound Agrees s → Sound Agrees t
Steps-Agrees = Steps-Sound Step Agrees (λ s t r. Step-Agrees r)

-- Any sequence of handlers of the funding-arb book leaves the alerts, orders, positions and funding
-- payments of the directional book as they were, in every state that it commits too.
pub ArbSteps-SameBook :
    (start : Db) {s t : Session}
    → Steps ArbStep s t
    → Sound (SameBook start) s
    → Sound (SameBook start) t
ArbSteps-SameBook start =
    Steps-Sound ArbStep (SameBook start) (λ s t r. ArbStep-Sound (book_stable start) r)

-- The tables of the funding-arb book are those of a given state.
abbrev pub SameArb : (start d : Db) → Type 0
SameArb start d =
    (d.arb_positions ≡ start.arb_positions)
    × (d.arb_legs ≡ start.arb_legs)
    × (d.arb_orders ≡ start.arb_orders)
    × (d.arb_funding_events ≡ start.arb_funding_events)

SameArb-Stable : (start : Db) → Stable (SameArb start)
SameArb-Stable start = record {
  orders = λ d os h. h;
  risk = λ d e h. h;
  fill = λ strategy_id exchange symbol side qty price now d (p, l, o, e).
      let (p', l', o', e') = fill-arb strategy_id exchange symbol side qty price now d in
      (p' ∙ p, l' ∙ l, o' ∙ o, e' ∙ e);
}

-- Any sequence of handlers of the directional book leaves the pairs, legs, orders and funding
-- payments of the funding-arb book as they were, in every state that it commits too.
pub BookSteps-SameArb :
    (start : Db) {s t : Session}
    → Steps BookStep s t
    → Sound (SameArb start) s
    → Sound (SameArb start) t
BookSteps-SameArb start =
    Steps-Sound BookStep (SameArb start)
      (λ s t r. BookStep-Sound (SameArb-Stable start) (λ d es h. h) (λ d rows h. h) (λ d r h. h) r)
