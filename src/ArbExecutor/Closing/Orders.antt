-- ===== src/ArbExecutor/Closing/Orders.antt =====
-- What closing a pair sends.
use mochi_position_manager.Prelude.{
  ℕ, ◌≡◌, refl, sym, ◌∙◌, subst, arith, Option, none, some, List, [], ◌∷◌, ◌++◌, All, All-weaken,
  Occurs, find_first, ◌==◌,
}
use mochi_position_manager.Prelude.Int.{ℤ}
use mochi_position_manager.ArbModels.{CloseError, ArbPosition, ArbLeg}
use mochi_position_manager.Session.{Db, Sent, Session, Result, raised, lift, session_scope}
use mochi_position_manager.Config.{Env}
use mochi_position_manager.Soundness.{scope-current, Sound, Keeps}
use mochi_position_manager.Soundness.Quiet.{
  Quiet, quiet_laws, Quiet-pure, Quiet-look, Quiet-session_scope, leave-sent, continued,
}
use mochi_position_manager.Soundness.Only.{Allowed, chained}
use mochi_position_manager.ArbExecutor.Legs.{arb_of, leg_of, legs_of, with_leg, with_arb}
use mochi_position_manager.ArbExecutor.Closing.{
  Closed, close_leg, Tally, tallied, close_all, finish_closed, finish_with, finish_close,
  close_legs, run_close, no_tally,
}
use mochi_position_manager.ArbExecutor.Closing.Sales.{ClosesLeg, close_leg-Only}
use mochi_position_manager.ArbExecutor.Closing.Rows.{Stems, Kept, Kept-start, close_leg-Keeps}

-- An order that may be sent for a pair over the tables that the close starts from: it closes a leg of
-- the pair, which has the venue, account, symbol, product and fill of the leg's row at the start, and
-- was not closed there.
abbrev pub Closes : Env → (arb_id : ℕ) → (start : Db) → Sent → Type 0
Closes env arb_id start c =
    (lg leg : ArbLeg) × Occurs lg (legs_of arb_id start)
    × Stems start lg.id leg
    × ClosesLeg env leg c

own_elements : (xs : List ArbLeg) → All (λ x. Occurs x xs) xs
own_elements [] = tt
own_elements (x ∷ xs) =
    (Occurs.head refl, All-weaken _ _ xs (λ y h. Occurs.tail h) (own_elements xs))

find_id :
    (i : ℕ) (xs : List ArbLeg) (leg : ArbLeg)
    → find_first (λ lg. lg.id == i) xs ≡ some leg
    → leg.id ≡ i
find_id i [] leg e = cc e
find_id i (x ∷ xs) leg e = let rest = find_id i xs leg in ground (arith, e, rest)

module _ (env : Env) (arb_id : ℕ) (start : Db) where
  module _ (lg : ArbLeg) (mine : Occurs lg (legs_of arb_id start)) where
    allowed :
        (leg : ArbLeg)
        → Stems start lg.id leg
        → (old now : List Sent) → Allowed (ClosesLeg env leg) old now
        → Allowed (Closes env arb_id start) old now
    allowed leg from old now (new, h, e) =
        (new, All-weaken _ _ new (λ c k. (lg, leg, mine, from, k)) h, e)

    -- What the session of a leg sends, and the rows that it leaves.
    close_looked :
        (o : Option ArbLeg) (s : Session)
        → leg_of lg.id s.current ≡ o
        → Kept start s.current
        → Allowed
            (Closes env arb_id start)
            s.sent
            (elim o as (λ _. Result Closed × Session) [
              | none ↦ lift (raised "AttributeError: no leg") s
              | some leg ↦ close_leg env leg s
            ]).1.sent
    close_looked none s e kept = ([], tt, refl)
    close_looked (some leg) s e kept =
        allowed leg (kept lg.id leg e) s.sent _ ((close_leg-Only env leg).run s)

    session_sends :
        (s : Session)
        → Kept start s.current
        → Allowed
            (Closes env arb_id start)
            s.sent
            (session_scope (with_leg lg.id (close_leg env)) s).1.sent
    unfolding session_scope
    session_sends s kept =
        let t : Session = record s { commits = [] } in
        let (new, h, e) = close_looked (leg_of lg.id s.current) t refl kept in
        (new, h, leave-sent s.current s.commits (with_leg lg.id (close_leg env) t) ∙ e)

    keep_found :
        (o : Option ArbLeg) (s : Session)
        → leg_of lg.id s.current ≡ o
        → Sound (Kept start) s
        → Sound
            (Kept start)
            (elim o as (λ _. Result Closed × Session) [
              | none ↦ lift (raised "AttributeError: no leg") s
              | some leg ↦ close_leg env leg s
            ]).1
    keep_found none s e sound = sound
    keep_found (some leg) s e sound =
        let from : Stems start leg.id leg =
          subst (λ i. Stems start i leg) (sym (find_id lg.id s.current.arb_legs leg e))
            (sound.0 lg.id leg e) in
        (close_leg-Keeps start leg from env).run s sound

    session_keeps :
        (s : Session)
        → Kept start s.current
        → Kept start (session_scope (with_leg lg.id (close_leg env)) s).1.current
    session_keeps s kept =
        let keeps : Keeps (Kept start) (with_leg lg.id (close_leg env)) = record {
          run = λ t. keep_found (leg_of lg.id t.current) t refl;
        } in
        scope-current {P = Kept start} keeps s kept

  close_all-sends :
      (t : Tally) (legs : List ArbLeg)
      → All (λ lg. Occurs lg (legs_of arb_id start)) legs
      → (s : Session) → Kept start s.current
      → Allowed (Closes env arb_id start) s.sent (close_all env t legs s).1.sent
  unfolding close_all
  close_all-sends t [] mine s kept = ([], tt, refl)
  close_all-sends t (lg ∷ legs) (mine, others) s kept =
      let p = session_scope (with_leg lg.id (close_leg env)) s in
      chained (Closes env arb_id start) s.sent p.1.sent _ (session_sends lg mine s kept)
        (close_all-sends (tallied lg.id t p.0) legs others p.1 (session_keeps lg mine s kept))

finish_with-Quiet :
    (now : ℕ) (es : List CloseError) (total : ℤ) (a : ArbPosition)
    → Quiet (finish_with now es total a)
unfolding finish_with finish_closed
finish_with-Quiet now [] total a = search quiet_laws
finish_with-Quiet now (e ∷ es) total a = search quiet_laws

finish-Quiet :
    (env : Env) (arb_id : ℕ) (t : Tally)
    → Quiet (session_scope (with_arb arb_id (finish_close env.now t)))
finish-Quiet env arb_id t = Quiet-session_scope (
    Quiet-look (λ s. arb_of arb_id s.current) _ _ (Quiet-pure tt)
      (finish_with-Quiet env.now t.errors t.total))

close_legs-sends :
    (env : Env) (arb_id : ℕ) (s : Session) (o : Option ArbPosition)
    → Allowed
        (Closes env arb_id s.current)
        s.sent
        (close_legs env arb_id
          (elim o as (λ _. Option (List ArbLeg)) [
            | none ↦ none
            | some arb ↦ some (legs_of arb_id s.current)
          ])
          s).1.sent
unfolding close_legs
close_legs-sends env arb_id s none = ([], tt, refl)
close_legs-sends env arb_id s (some arb) =
    let legs = legs_of arb_id s.current in
    let (new, h, e) =
      close_all-sends env arb_id s.current no_tally legs (own_elements legs) s
        (Kept-start s.current) in
    (new, h, continued _ (finish-Quiet env arb_id) (close_all env no_tally legs s) ∙ e)

-- Closing a pair sends nothing but closes of perp positions and sales of spot, each for a leg of the
-- pair by its row in the tables that the close starts from: with that row's venue, account and symbol,
-- and only if that row is not closed. A sale is of more than dust, and it exceeds neither what the row
-- says was filled nor what the adapter of the row's venue and account says is free, but for one part
-- in 1e9 of a step. This holds wherever it raises.
pub run_close-Closes :
    (env : Env) (arb_id : ℕ) (s : Session)
    → (new : List Sent) × All (Closes env arb_id s.current) new
      × ((run_close env arb_id s).1.sent ≡ new ++ s.sent)
unfolding run_close session_scope
run_close-Closes env arb_id s =
    close_legs-sends env arb_id (record s { commits = s.current ∷ s.commits })
      (arb_of arb_id s.current)
