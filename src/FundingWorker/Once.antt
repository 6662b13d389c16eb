-- ===== src/FundingWorker/Once.antt =====
-- The poll of the arb funding, and a second one after it.
use mochi_position_manager.Prelude.{
  ℕ, ◌≡◌, refl, sym, ap, ◌∙◌, subst, inl, inr, Bool-cases, List, [], ◌∷◌, All, ◌==◌,
}
use mochi_position_manager.Prelude.Table.{string_key}
use mochi_position_manager.Session.{Db, Session, Result, ok, raised, reads, session_scope}
use mochi_position_manager.Exchange.{Payment}
use mochi_position_manager.Config.{Env}
use mochi_position_manager.FundingWorker.{
  Place, insert_arb_payment, fetch, poll_place, poll_places, arb_perp_legs, poll_arb_once,
}
use mochi_position_manager.FundingWorker.Stored.{IsStored}
use mochi_position_manager.FundingWorker.Absorb.{
  absorb, summed-ok, Leaves, summed-Leaves, store-absorb, absorb_keeps, absorb_legs, AreStored,
  absorb-AreStored, store_again,
}

-- The payments that a place's venue reported, if it answered.
abbrev reported : Result (List Payment) → List Payment
reported (raised e) = []
reported (ok ps) = ps

place-absorb :
    (now : ℕ) (place : Place) (r : Result (List Payment)) (s : Session)
    → Leaves
        (poll_place (insert_arb_payment now) place r)
        s
        (absorb now place (reported r) s.current)
unfolding absorb
place-absorb now place (raised e) s = (0, refl, refl)
place-absorb now place (ok ps) s = store-absorb now place ps s

place_again :
    (now : ℕ) (place : Place) (r : Result (List Payment)) (s : Session)
    → AreStored now place (reported r) s.current
    → ((poll_place (insert_arb_payment now) place r s).0 ≡ ok 0)
      × ((poll_place (insert_arb_payment now) place r s).1.current ≡ s.current)
place_again now place (raised e) s h = (refl, refl)
place_again now place (ok ps) s h = store_again now place ps s h

module _ (env : Env) where
  after : List Place → Db → Db
  after [] d = d
  after (place ∷ places) d = after places (absorb env.now place (reported (fetch env place)) d)

  -- Everything that the venues reported for some places is stored.
  abbrev Settled : List Place → Db → Type 0
  Settled places d = All (λ q. AreStored env.now q (reported (fetch env q)) d) places

  poll-after :
      (places : List Place) (s : Session)
      → Leaves (poll_places (insert_arb_payment env.now) env places) s (after places s.current)
  unfolding poll_places after
  poll-after [] s = (0, refl, refl)
  poll-after (place ∷ places) s =
      let m = poll_place (insert_arb_payment env.now) place (fetch env place) in
      let (n, r, c) = place-absorb env.now place (fetch env place) s in
      let (k, r', c') = poll-after places (m s).1 in
      summed-Leaves m (poll_places (insert_arb_payment env.now) env places) s _ _ (n, r, c)
        (k, r', c' ∙ ap (after places) c)

  after_legs : (places : List Place) (d : Db) → arb_perp_legs (after places d) ≡ arb_perp_legs d
  unfolding after
  after_legs [] d = refl
  after_legs (place ∷ places) d =
      after_legs places (absorb env.now place (reported (fetch env place)) d)
      ∙ absorb_legs env.now place (reported (fetch env place)) d

  after_keeps :
      (places : List Place) (d : Db) (place' : Place) (p' : Payment)
      → IsStored d place' p'
      → IsStored (after places d) place' p'
  unfolding after
  after_keeps [] d place' p' h = h
  after_keeps (place ∷ places) d place' p' h =
      after_keeps places _ place' p'
        (absorb_keeps env.now place (reported (fetch env place)) d place' p' h)

  after_stored :
      (places : List Place) (d : Db) (place : Place) (ps : List Payment)
      → AreStored env.now place ps d
      → AreStored env.now place ps (after places d)
  after_stored places d place [] h = tt
  after_stored places d place (p ∷ ps) (h, hs) = (
    elim (Bool-cases (p.time == 0)) [
      | inl e ↦ rw e refl
      | inr e ↦ rw e (after_keeps places d place p (rw e at h))
    ],
    after_stored places d place ps hs,
  )

  after-Settled : (places : List Place) (d : Db) → Settled places (after places d)
  unfolding after
  after-Settled [] d = tt
  after-Settled (place ∷ places) d =
      let ps = reported (fetch env place) in
      (
        after_stored places _ place ps (absorb-AreStored env.now place ps d),
        after-Settled places (absorb env.now place ps d),
      )

  poll_again :
      (places : List Place) (s : Session)
      → Settled places s.current
      → ((poll_places (insert_arb_payment env.now) env places s).0 ≡ ok 0)
        × ((poll_places (insert_arb_payment env.now) env places s).1.current ≡ s.current)
  unfolding poll_places
  poll_again [] s h = (refl, refl)
  poll_again (place ∷ places) s (h, hs) =
      let m = poll_place (insert_arb_payment env.now) place (fetch env place) in
      let (r, c) = place_again env.now place (fetch env place) s h in
      let (r', c') = poll_again places (m s).1 (subst (Settled places) (sym c) hs) in
      let done = summed-ok m (poll_places (insert_arb_payment env.now) env places) s 0 0 r r' in
      (ap (λ z. z.0) done, ap (λ z. z.1.current) done ∙ c' ∙ c)

-- A second poll of the arb funding at one time returns zero and leaves every table as the first one
-- left it, whatever the venues report and whichever of them do not answer.
pub poll_arb_once_twice :
    (env : Env) (s : Session)
    → ((poll_arb_once env (poll_arb_once env s).1).0 ≡ ok 0)
      × ((poll_arb_once env (poll_arb_once env s).1).1.current ≡ (poll_arb_once env s).1.current)
unfolding poll_arb_once session_scope
poll_arb_once_twice env s =
    let places = arb_perp_legs s.current in
    let t : Session = (session_scope (reads arb_perp_legs) s).1 in
    let (n, r, c) = poll-after env places t in
    let s' : Session = (poll_arb_once env s).1 in
    let legs : places ≡ arb_perp_legs s'.current =
      sym (ap arb_perp_legs c ∙ after_legs env places s.current) in
    let now : Settled env places s'.current =
      subst (Settled env places) (sym c) (after-Settled env places s.current) in
    let stored : Settled env (arb_perp_legs s'.current) s'.current =
      subst (λ ls. Settled env ls s'.current) legs now in
    poll_again env (arb_perp_legs s'.current) (session_scope (reads arb_perp_legs) s').1 stored
