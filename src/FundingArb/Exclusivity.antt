-- ===== src/FundingArb/Exclusivity.antt =====
-- The symbols of the pairs that are not closed, when a pair is opened.
use mochi_position_manager.Prelude.{
  ℕ, String, ◌≡◌, refl, inl, inr, Bool, Bool-cases, true, false, List, [], ◌∷◌, map, any_of,
  any_of-false, All, All-weaken, ◌==◌, if◌then◌else◌,
}
use mochi_position_manager.Prelude.Table.{string_key}
use mochi_position_manager.Models.{RiskSettings, default_risk}
use mochi_position_manager.ArbModels.{ArbPosition, ArbLeg}
use mochi_position_manager.Session.{Db, Session, Result}
use mochi_position_manager.Config.{Env}
use mochi_position_manager.Portfolio.{store_risk, get_risk_settings}
use mochi_position_manager.ArbExecutor.Sizing.{Sized, sized, unsized}
use mochi_position_manager.Soundness.{
  Sound, Keeps, keeps_laws, Keeps-lift, Keeps-pure, Keeps-reads, Keeps-bind, Keeps-modify,
  Keeps-look,
}
use mochi_position_manager.FundingArb.{
  is_held, is_taken, open_unheld, size_added, finish_open, persist, Opened, open_new,
  open_in_session, arb_with_key, open_arb,
}
use mochi_position_manager.ArbRows.{
  next_arb_id, next_leg_id, new_arb, new_legs, target_legs, targeted,
}
use mochi_position_manager.ArbRequest.{LegSpec, ArbOpenRequest, sized_from_legs}
use mochi_position_manager.FundingArb.NewPair.{
  clash, IsExclusive, new_legs-arb, with_pair, new_legs-IsFresh, with_pair-IsExclusive,
}

target-All :
    (P : ArbLeg → Type 0) (arb_id qty : ℕ) (legs : List ArbLeg)
    → ((lg : ArbLeg) → P lg → P (targeted qty lg))
    → All P legs
    → All P (target_legs arb_id qty legs)
unfolding target_legs
target-All P arb_id qty [] f h = tt
target-All P arb_id qty (lg ∷ legs) f (h, hs) = elim (Bool-cases (lg.arb_id == arb_id)) [
  | inl e ↦ rw e (f lg h, target-All P arb_id qty legs f hs)
  | inr e ↦ rw e (h, target-All P arb_id qty legs f hs)
]

target_legs-IsExclusive :
    (arb_id qty : ℕ) (d : Db)
    → IsExclusive d
    → IsExclusive (record d { arb_legs = target_legs arb_id qty d.arb_legs })
unfolding clash is_held
target_legs-IsExclusive arb_id qty d h = record {
  known = target-All _ arb_id qty d.arb_legs (λ lg k. k) h.known;
  apart =
      target-All _ arb_id qty d.arb_legs (λ lg k. k)
        (All-weaken _ _ d.arb_legs (λ x k. target-All _ arb_id qty d.arb_legs (λ lg c. c) k)
          h.apart);
}

finish_open-Keeps :
    (arb_id : ℕ) (legs : List ArbLeg) (z : Sized) → Keeps IsExclusive (finish_open arb_id legs z)
unfolding finish_open
finish_open-Keeps arb_id legs (unsized e) = Keeps-lift _
finish_open-Keeps arb_id legs (sized qty) =
    Keeps-bind (Keeps-modify _ (target_legs-IsExclusive arb_id qty))
      λ u. Keeps-pure (Opened.accepted arb_id (sized_from_legs (map (targeted qty) legs)))

size_added-Keeps :
    (env : Env) (req : ArbOpenRequest) (arb : ArbPosition) (legs : List ArbLeg)
    → Keeps IsExclusive (size_added env req arb legs)
unfolding size_added
size_added-Keeps env req arb legs = search (keeps_laws, finish_open-Keeps)

unheld :
    (env : Env) (req : ArbOpenRequest) (specs : List (LegSpec × String)) (s : Session)
    → Sound IsExclusive s
    → any_of (is_taken s.current) specs ≡ false
    → Sound IsExclusive
        (persist env req
          (new_arb (next_arb_id s.current) env.now req)
          (new_legs (next_leg_id s.current) (next_arb_id s.current) env.now specs)
          s).1
unheld env req specs s h e =
    let arb = new_arb (next_arb_id s.current) env.now req in
    let legs = new_legs (next_leg_id s.current) (next_arb_id s.current) env.now specs in
    let own = new_legs-arb (next_leg_id s.current) (next_arb_id s.current) env.now specs in
    let fresh =
      new_legs-IsFresh s.current (next_leg_id s.current) (next_arb_id s.current) env.now specs
        (any_of-false _ specs e) in
    (size_added-Keeps env req arb legs).run (record s { current = with_pair arb legs s.current })
      (with_pair-IsExclusive s.current arb legs own fresh refl h.0, h.1)

tested :
    {A : Type 0} (b : Bool) (p q : Result A × Session)
    → Sound IsExclusive p.1
    → (b ≡ false → Sound IsExclusive q.1)
    → Sound IsExclusive (if b then p else q).1
tested true p q h k = h
tested false p q h k = k refl

open_unheld-Keeps :
    (env : Env) (req : ArbOpenRequest) (specs : List (LegSpec × String))
    → Keeps IsExclusive (open_unheld env req specs)
unfolding open_unheld
open_unheld-Keeps env req specs = record {
  run = λ s h. tested (any_of (is_taken s.current) specs) _ _ h (unheld env req specs s h);
}

store_risk-Keeps : (r : RiskSettings) → Keeps IsExclusive (store_risk r)
unfolding store_risk clash is_held
store_risk-Keeps r =
    Keeps-bind (Keeps-modify _ (λ d h. record { known = h.known; apart = h.apart }))
      λ u. Keeps-pure r

get_risk_settings-Keeps : Keeps IsExclusive get_risk_settings
unfolding get_risk_settings
get_risk_settings-Keeps =
    Keeps-look (λ s. s.current.risk_settings) _ _ (store_risk-Keeps default_risk) Keeps-pure

open_new-Keeps :
    (env : Env) (req : ArbOpenRequest) (specs : List (LegSpec × String))
    → Keeps IsExclusive (open_new env req specs)
unfolding open_new
open_new-Keeps env req specs = search (keeps_laws, get_risk_settings-Keeps, open_unheld-Keeps)

open_in_session-Keeps :
    (env : Env) (req : ArbOpenRequest) (specs : List (LegSpec × String))
    → Keeps IsExclusive (open_in_session env req specs)
unfolding open_in_session
open_in_session-Keeps env req specs =
    Keeps-look (λ s. arb_with_key req.idempotency_key s.current) _ _ (open_new-Keeps env req specs)
      (λ dup. Keeps-reads _)

-- Whatever is asked and whatever the venues answer, opening a pair keeps the symbols of the pairs
-- that are not closed apart: if no two of them have legs of one exchange, account and symbol, and no
-- leg has the id of a pair that is yet to come, then so it is in the state that opening leaves and
-- in every state that it commits.
pub open_arb-IsExclusive :
    (env : Env) (req : ArbOpenRequest) (s : Session)
    → Sound IsExclusive s
    → Sound IsExclusive (open_arb env req s).1
unfolding open_arb
open_arb-IsExclusive env req s h =
    let keeps : Keeps IsExclusive (open_arb env req) = search (keeps_laws, open_in_session-Keeps) in
    keeps.run s h
