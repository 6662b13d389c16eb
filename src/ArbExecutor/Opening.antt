-- ===== src/ArbExecutor/Opening.antt =====
-- Opening a pair (`_run_open` of app/arb_executor.py): the thinner leg first, then the hedge of what
-- it filled, each in a session of its own, and the status of the pair.
pub mod Order
pub mod Fires
pub mod FirstLeg
pub mod Hedged
use mochi_position_manager.Prelude.{
  ℕ, ◌+◌, max, Bool, false, not, Option, none, some, List, [], ◌∷◌, map, every, select, leb,
  if◌then◌else◌,
}
use mochi_position_manager.Models.{buy, sell}
use mochi_position_manager.ArbModels.{
  spot, perp, LegStatus, is_filled, ArbStatus, ArbMessage, ArbPosition, ArbLeg,
}
use mochi_position_manager.Session.{
  Db, Notice, Action, ◌>>=◌, ◌>>◌, pure, lift, reads, notify, session_scope,
}
use mochi_position_manager.Config.{Env}
use mochi_position_manager.ArbFunding.{neutrality_skew}
use mochi_position_manager.ArbExecutor.{hedge_qty, qty_eps}
use mochi_position_manager.ArbExecutor.Sizing.{leg_step}
use mochi_position_manager.ArbExecutor.Legs.{
  arb_of, legs_of, save_arb, save_leg, with_leg, with_arb, execute_leg,
}

-- The sort key of `_open_order`: spot before perp, then buy before sell.
abbrev pub rank : ArbLeg → ℕ
rank leg = elim leg.product [ spot ↦ 0 | perp ↦ 2 ] + elim leg.side [ buy ↦ 0 | sell ↦ 1 ]

-- Python's `sorted` is stable: an insertion before the first leg of the same rank.
unfoldable pub insert_leg : ArbLeg → List ArbLeg → List ArbLeg
insert_leg a [] = a ∷ []
insert_leg a (x ∷ xs) = if leb (rank a) (rank x) then a ∷ x ∷ xs else x ∷ insert_leg a xs

unfoldable pub open_order : List ArbLeg → List ArbLeg
open_order [] = []
open_order (x ∷ xs) = insert_leg x (open_order xs)

abbrev pub max_filled : List ArbLeg → ℕ
max_filled [] = 0
max_filled (lg ∷ legs) = max lg.filled_qty (max_filled legs)

-- At least one leg, and every leg filled.
abbrev pub all_filled : List ArbLeg → Bool
all_filled [] = false
all_filled (lg ∷ legs) = every (λ l. is_filled l.status) (lg ∷ legs)

abbrev pub unfilled_legs : List ArbLeg → ArbMessage
unfilled_legs legs = ArbMessage.unfilled (
    map (λ lg. (lg.exchange, (lg.product, lg.status)))
      (select (λ l. not (is_filled l.status)) legs))

-- `arb.opened_at or _utcnow()`.
abbrev pub opened_or : (now : ℕ) → Option ℕ → Option ℕ
opened_or now none = some now
opened_or now (some t) = some t

abbrev pub opened : (now : ℕ) → ArbPosition → ArbPosition
opened now arb = record arb {
  status = ArbStatus.opened;
  opened_at = opened_or now arb.opened_at;
  error_message = ArbMessage.empty;
  updated_at = now;
}

abbrev pub failed : (now : ℕ) → ArbMessage → ArbPosition → ArbPosition
failed now why arb = record arb { status = ArbStatus.error; error_message = why; updated_at = now }

-- The body of `_finalize_open_status`.
unfoldable pub finalize_with : (now : ℕ) → ArbPosition → List ArbLeg → Action (Unit {0})
finalize_with now arb legs =
    if all_filled legs
    then (do
      save_arb (opened now arb)
      notify (
          Notice.arb_opened arb.id arb.asset (max_filled legs)
            (map (λ lg. (lg.exchange, (lg.product, (lg.side, lg.filled_qty)))) legs)))
    else (do
      save_arb (failed now (unfilled_legs legs) arb)
      notify (Notice.arb_dead arb.id arb.asset (unfilled_legs legs))
      notify (Notice.arb_error arb.id arb.asset (unfilled_legs legs) (neutrality_skew legs)))

unfoldable pub finalize_arb : Env → ArbPosition → Action (Unit {0})
finalize_arb env arb = do legs ← reads (legs_of arb.id); finalize_with env.now arb legs

-- `_finalize_open_status`.
unfoldable pub finalize_open_status : Env → (arb_id : ℕ) → Action (Unit {0})
finalize_open_status env arb_id = session_scope (with_arb arb_id (finalize_arb env))

unfoldable pub fire_first : Env → ArbLeg → Action (Bool × ℕ)
fire_first env leg = do
  done ← execute_leg env leg none
  pure (is_filled done.status, done.filled_qty)

-- The first leg's session: whether the leg was filled, and its fill.
abbrev pub open_first : Env → (leg_id : ℕ) → Action (Bool × ℕ)
open_first env leg_id = with_leg leg_id (fire_first env)

abbrev pub refused_hedge : (now : ℕ) → ArbMessage → ArbLeg → ArbLeg
refused_hedge now why leg = record leg {
  status = LegStatus.error;
  error_message = why;
  updated_at = now;
}

unfoldable pub hedge_with : Env → ArbLeg → (first_fill hedge : ℕ) → Action (Unit {0})
hedge_with env leg first_fill hedge =
    if leb hedge qty_eps
    then save_leg
        (refused_hedge env.now (ArbMessage.unhedgeable first_fill leg.exchange leg.symbol) leg)
    else (do execute_leg env (record leg { target_qty = hedge }) none; pure tt)

-- No hedge is placed for a first leg that was not filled.
unfoldable pub fire_hedge : Env → (leg1_ok : Bool) (first_fill : ℕ) → ArbLeg → Action (Unit {0})
fire_hedge env leg1_ok first_fill leg =
    if leg1_ok
    then (do
      ex ← lift (env.registry leg.exchange leg.account)
      step ← lift (leg_step ex leg)
      hedge_with env leg first_fill (hedge_qty first_fill step))
    else save_leg (refused_hedge env.now ArbMessage.hedge_not_placed leg)

-- The second leg's session.
abbrev pub open_hedge : Env → (leg1_ok : Bool) (first_fill leg_id : ℕ) → Action (Unit {0})
open_hedge env leg1_ok first_fill leg_id = with_leg leg_id (fire_hedge env leg1_ok first_fill)

unfoldable pub open_pair : Env → (arb_id leg1_id leg2_id : ℕ) → Action (Unit {0})
open_pair env arb_id leg1_id leg2_id = do
  (leg1_ok, first_fill) ← session_scope (open_first env leg1_id)
  session_scope (open_hedge env leg1_ok first_fill leg2_id)
  finalize_open_status env arb_id

-- The legs to open, if the pair is there.
abbrev pub legs_to_open : (arb_id : ℕ) → Db → Option (List ArbLeg)
legs_to_open arb_id d = elim (arb_of arb_id d) [
  | none ↦ none
  | some arb ↦ some (open_order (legs_of arb_id d))
]

unfoldable pub open_legs : Env → (arb_id : ℕ) → Option (List ArbLeg) → Action (Unit {0})
open_legs env arb_id none = pure tt
open_legs env arb_id (some (first ∷ second ∷ [])) = open_pair env arb_id first.id second.id
open_legs env arb_id (some _) = finalize_open_status env arb_id

-- `_run_open`.
unfoldable pub run_open : Env → (arb_id : ℕ) → Action (Unit {0})
run_open env arb_id = do
  legs ← session_scope (reads (legs_to_open arb_id))
  open_legs env arb_id legs
