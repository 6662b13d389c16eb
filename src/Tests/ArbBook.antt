-- ===== src/Tests/ArbBook.antt =====
-- A Bitcoin pair of the funding-arb book, from the request to the close.
use mochi_position_manager.Prelude.{String, ◌≡◌, refl, none, some, List, ◌++◌, ◌*◌, All, map}
use mochi_position_manager.Models.{money_unit}
use mochi_position_manager.ArbModels.{SizeMode, ArbLeg}
use mochi_position_manager.Session.{Sent, Session, ok}
use mochi_position_manager.Executor.Ledger.Agreement.{Agrees}
use mochi_position_manager.Symbols.{symbol_for, spot_symbol_for, hyperliquid_spot_token}
use mochi_position_manager.Prelude.Table.{lookup}
use mochi_position_manager.LimitWorker.{poll_working_orders}
use mochi_position_manager.Webhook.{run_fan_out}
use mochi_position_manager.ArbExecutor.Closing.{run_close}
use mochi_position_manager.Portfolio.{compute_managed_qty}
use mochi_position_manager.ArbExecutor.Sizing.{
  Venue, sized, leg_step, leg_min_notional, venues_of, steps_of, notional_qty, rechecked,
  size_venues, size_pair,
}
use mochi_position_manager.ArbExecutor.Sizing.Minimums.{Sizes, size_pair-Sizes}
use mochi_position_manager.ArbExecutor.Closing.Orders.{Closes, run_close-Closes}
use mochi_position_manager.ArbExecutor.Opening.{run_open}
use mochi_position_manager.ArbExecutor.Opening.Hedged.{Opens, run_open-Opens}
use mochi_position_manager.FundingArb.{open_arb, close_arb}
use mochi_position_manager.ArbRows.{new_leg}
use mochi_position_manager.ArbRequest.{ArbOpenRequest, default_combo}
use mochi_position_manager.FundingArb.Exclusivity.{open_arb-IsExclusive}
use mochi_position_manager.FundingArb.NewPair.{IsExclusive}
use mochi_position_manager.FundingWorker.{poll_arb_once}
use mochi_position_manager.FundingWorker.Once.{poll_arb_once_twice}
use mochi_position_manager.Soundness.{Sound}
use mochi_position_manager.Soundness.ArbStable.{SameBook}
use mochi_position_manager.Soundness.System.{
  BookStep, ArbStep, Step, Steps, SameArb, Steps-Agrees, ArbSteps-SameBook, BookSteps-SameArb,
}
use mochi_position_manager.Tests.Webhook.{resting_db-Agrees}
use mochi_position_manager.Tests.Data.{
  registry, env, route, empty_db, empty_session, in_db, resting_db,
}

abbrev request : ArbOpenRequest
request = record {
  idempotency_key = "a1";
  asset = "BTC";
  notional = some (150 * money_unit);
  size_mode = SizeMode.notional;
  strategy_tag = none;
  legs = none;
}

abbrev requested : Session
requested = (open_arb env request empty_session).1

abbrev pair_open : Session
pair_open = (run_open env 1 requested).1

abbrev asked_to_close : Session
asked_to_close = (close_arb env 1 pair_open).1

abbrev same_text : String → String
same_text t = t

known_symbol : symbol_for same_text same_text "bybit" "ETH" ≡ ok "ETHUSDT"
unfolding symbol_for lookup
known_symbol = refl

known_spot_symbol : spot_symbol_for same_text same_text "hyperliquid" "ETH" ≡ ok "UETH/USDC"
unfolding spot_symbol_for hyperliquid_spot_token
known_spot_symbol = refl

no_rows : IsExclusive empty_db
no_rows = record { known = tt; apart = tt }

requested-IsExclusive : Sound IsExclusive requested
requested-IsExclusive = open_arb-IsExclusive env request empty_session (no_rows, tt)

-- The same legs are asked for again, while the first pair is still there.
open_arb-IsExclusive_example :
    Sound IsExclusive (open_arb env (record request { idempotency_key = "a2" }) requested).1
open_arb-IsExclusive_example =
    open_arb-IsExclusive env (record request { idempotency_key = "a2" }) requested
      requested-IsExclusive

poll_arb_once_twice_example :
    ((poll_arb_once env (poll_arb_once env pair_open).1).0 ≡ ok 0)
    × ((poll_arb_once env (poll_arb_once env pair_open).1).1.current
        ≡ (poll_arb_once env pair_open).1.current)
poll_arb_once_twice_example = poll_arb_once_twice env pair_open

run_open-Opens_example :
    (new : List Sent) × Opens env 1 requested.current new × (pair_open.sent ≡ new ++ requested.sent)
run_open-Opens_example = run_open-Opens env 1 requested

-- A pair is opened after a poll of the resting orders.
abbrev mixed : Session
mixed = (run_open env 1 (open_arb env request (poll_working_orders env (in_db resting_db)).1).1).1

mixed-Steps : Steps Step (in_db resting_db) mixed
mixed-Steps = Steps.next (Step.book (BookStep.polled env (in_db resting_db))) (
    Steps.next (Step.arb (ArbStep.open_requested env request _))
      (Steps.next (Step.arb (ArbStep.opened env 1 _)) (Steps.done _)))

Steps-Agrees_example : Sound Agrees mixed
Steps-Agrees_example = Steps-Agrees mixed-Steps (resting_db-Agrees, tt)

ArbSteps-SameBook_example : Sound (SameBook empty_db) pair_open
ArbSteps-SameBook_example =
    ArbSteps-SameBook empty_db
      (Steps.next (ArbStep.open_requested env request empty_session)
        (Steps.next (ArbStep.opened env 1 requested) (Steps.done pair_open)))
      ((refl, refl, refl, refl, refl), tt)

-- With a pair that is open, the resting orders are polled and a signal comes in.
abbrev traded : Session
traded = run_fan_out env 1 route 0 (poll_working_orders env (in_db mixed.current)).1

BookSteps-SameArb_example : Sound (SameArb mixed.current) traded
BookSteps-SameArb_example =
    BookSteps-SameArb mixed.current
      (Steps.next (BookStep.polled env (in_db mixed.current))
        (Steps.next (BookStep.fanned_out env 1 route 0 _) (Steps.done traded)))
      ((refl, refl, refl, refl), tt)

run_close-Closes_example :
    (new : List Sent) × All (Closes env 1 asked_to_close.current) new
    × ((run_close env 1 asked_to_close).1.sent ≡ new ++ asked_to_close.sent)
run_close-Closes_example = run_close-Closes env 1 asked_to_close

-- The two legs of the request.
abbrev legs : List ArbLeg
legs = map (λ z. new_leg 1 1 900 z) (map (λ spec. (spec, "BTC")) default_combo)

-- $150 at $50,000 is three steps.
size_legs :
    size_pair registry SizeMode.notional (some (150 * money_unit)) legs ≡ ok (sized 3000000000)
unfolding size_pair venues_of size_venues steps_of leg_step notional_qty compute_managed_qty
    rechecked leg_min_notional
size_legs = refl

size_pair-Sizes_example :
    (vs : List Venue) × (venues_of registry legs ≡ ok vs) × Sizes 3000000000 vs
size_pair-Sizes_example =
    size_pair-Sizes registry SizeMode.notional (some (150 * money_unit)) legs 3000000000 size_legs
