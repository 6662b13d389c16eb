-- ===== src/FundingArb.antt =====
-- The funding-arb service (app/routes/funding_arb.py): the secret, and the two routes that open and close
-- a pair. A session is atomic: no other session runs inside it, so that the unique key of a pair cannot be
-- taken between the look-up and the insert.
pub mod NewPair
pub mod Exclusivity
pub mod View
pub mod Report
use text.Mathlib.Text.{◌==◌ as str_eq}
use mochi_position_manager.Prelude.{
  ℕ, String, Bool, true, false, ◌&&◌, Option, none, some, List, map, find_first, any_of,
  if◌then◌else◌,
}
use mochi_position_manager.Prelude.Table.{string_key}
use mochi_position_manager.ArbModels.{ArbStatus, ArbPosition, ArbLeg}
use mochi_position_manager.Session.{
  Db, ok, raised, Action, ◌>>=◌, ◌>>◌, pure, lift, reads, modify, session_scope,
}
use mochi_position_manager.Config.{Env}
use mochi_position_manager.Portfolio.{get_risk_settings}
use mochi_position_manager.ArbExecutor.Sizing.{Sized, sized, unsized, size_pair}
use mochi_position_manager.ArbExecutor.Legs.{arb_of, legs_of, save_arb}
use mochi_position_manager.ArbRequest.{
  LegSpec, ArbOpenRequest, resolve_specs, resolved, accounts_known, SizedLeg, sized_from_legs,
}
use mochi_position_manager.ArbRows.{
  next_arb_id, next_leg_id, new_arb, new_legs, has_twins, add_pair, targeted, target_legs,
}

-- The answers of `require_arb_secret`: 503, 401, or the route.
pub data Access : Type 0 where
  unconfigured denied granted : Access

unfoldable pub require_arb_secret : (secret : String) (header : Option String) → Access
require_arb_secret secret none = if str_eq secret "" then Access.unconfigured else Access.denied
require_arb_secret secret (some header) =
    if str_eq secret ""
    then Access.unconfigured
    else if str_eq header secret
    then Access.granted
    else Access.denied

-- The answers of the open route; an error response is a raised text that begins with its code.
pub data Opened : Type 0 where
  accepted duplicate : (arb_id : ℕ) (legs : List SizedLeg) → Opened

-- `_NON_CLOSED_STATUSES`.
abbrev pub is_live : ArbStatus → Bool
is_live ArbStatus.closed = false
is_live _ = true

abbrev pub holds : Option ArbPosition → Bool
holds none = false
holds (some arb) = is_live arb.status

-- A leg that a pair which is not closed holds: the rows of the join.
unfoldable pub is_held : Db → ArbLeg → Bool
is_held d lg = holds (arb_of lg.arb_id d)

abbrev pub same_key : (exchange account symbol : String) → ArbLeg → Bool
same_key exchange account symbol lg =
    string_key.same lg.exchange exchange
    && (string_key.same lg.account account && string_key.same lg.symbol symbol)

-- A leg of the request whose (exchange, account, symbol) is held.
unfoldable pub is_taken : Db → LegSpec × String → Bool
is_taken d (spec, symbol) =
    any_of (λ lg. is_held d lg && same_key spec.exchange spec.account symbol lg) d.arb_legs

-- A pair without a size is refused, and the session rolls back.
unfoldable pub finish_open : (arb_id : ℕ) → List ArbLeg → Sized → Action Opened
finish_open arb_id legs (unsized e) = lift (raised "422 cannot size pair")
finish_open arb_id legs (sized qty) = do
  modify (λ d. record d { arb_legs = target_legs arb_id qty d.arb_legs })
  pure (Opened.accepted arb_id (sized_from_legs (map (targeted qty) legs)))

unfoldable pub size_added : Env → ArbOpenRequest → ArbPosition → List ArbLeg → Action Opened
size_added env req arb legs = do
  lift (if has_twins legs then raised "IntegrityError" else ok tt)
  size ← lift (size_pair env.registry req.size_mode req.notional legs)
  finish_open arb.id legs size

abbrev pub persist : Env → ArbOpenRequest → ArbPosition → List ArbLeg → Action Opened
persist env req arb legs = add_pair arb legs >> size_added env req arb legs

-- Symbol exclusivity, then the rows.
unfoldable pub open_unheld : Env → ArbOpenRequest → List (LegSpec × String) → Action Opened
open_unheld env req specs s =
    if any_of (is_taken s.current) specs
    then lift (raised "409 already held by a non-closed arb") s
    else persist env req (new_arb (next_arb_id s.current) env.now req)
        (new_legs (next_leg_id s.current) (next_arb_id s.current) env.now specs) s

-- The kill switch, after the look-up of the key.
unfoldable pub open_new : Env → ArbOpenRequest → List (LegSpec × String) → Action Opened
open_new env req specs = do
  risk ← get_risk_settings
  if risk.kill_switch then lift (raised "503 kill-switch is ON") else open_unheld env req specs

abbrev pub arb_with_key : String → Db → Option ArbPosition
arb_with_key key d = find_first (λ a. str_eq a.idempotency_key key) d.arb_positions

abbrev pub answer_duplicate : ArbPosition → Action Opened
answer_duplicate dup = reads λ d. Opened.duplicate dup.id (sized_from_legs (legs_of dup.id d))

unfoldable pub open_in_session : Env → ArbOpenRequest → List (LegSpec × String) → Action Opened
open_in_session env req specs s = elim (arb_with_key req.idempotency_key s.current) [
  | none ↦ open_new env req specs s
  | some dup ↦ answer_duplicate dup s
]

-- `open_arb`, for a valid request with the right secret. The pair that it accepts is then opened by
-- `run_open`.
unfoldable pub open_arb : Env → ArbOpenRequest → Action Opened
open_arb env req = do
  specs ← lift (resolved env req.asset (resolve_specs req.legs))
  lift (accounts_known env.registry (resolve_specs req.legs))
  session_scope (open_in_session env req specs)

abbrev pub can_close : ArbStatus → Bool
can_close ArbStatus.closed = false
can_close ArbStatus.closing = false
can_close _ = true

abbrev pub closing : (now : ℕ) → ArbPosition → ArbPosition
closing now arb = record arb { status = ArbStatus.closing; updated_at = now }

unfoldable pub close_found : Env → ArbPosition → Action (Unit {0})
close_found env arb =
    if can_close arb.status
    then save_arb (closing env.now arb)
    else lift (raised "409 arb already closed or closing")

unfoldable pub close_in_session : Env → (arb_id : ℕ) → Action (Unit {0})
close_in_session env arb_id s = elim (arb_of arb_id s.current) [
  | none ↦ lift (raised "404 no arb with that id") s
  | some arb ↦ close_found env arb s
]

-- `close_arb`; the pair is then closed by `run_close`.
unfoldable pub close_arb : Env → (arb_id : ℕ) → Action (Unit {0})
close_arb env arb_id = session_scope (close_in_session env arb_id)
