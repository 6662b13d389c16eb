-- ===== src/FundingWorker/Absorb.antt =====
-- The arb funding table after the payments of one place.
use mochi_position_manager.Prelude.{
  ℕ, ◌+◌, ◌≡◌, refl, sym, ap, ◌∙◌, subst, inl, inr, Bool-cases, true, List, [], ◌∷◌, ◌||◌, any_of,
  All, ◌==◌, if◌then◌else◌,
}
use mochi_position_manager.Prelude.Table.{string_key}
use mochi_position_manager.Session.{
  Db, Session, Result, ok, raised, Action, ◌>>=◌, pure, bound, session_scope,
}
use mochi_position_manager.Exchange.{Payment}
use mochi_position_manager.Config.{Env}
use mochi_position_manager.FundingWorker.{
  Place, same_arb_event, arb_event, insert_arb_payment, fetch, summed, store_payments,
  arb_perp_legs,
}
use mochi_position_manager.FundingWorker.Stored.{
  IsStored, updated, insert-updated, insert_again, updated-IsStored, updated_keeps, updated_legs,
}

-- The table after the payments of a place, and after those of several places.
unfoldable pub absorb : (now : ℕ) → Place → List Payment → Db → Db
absorb now place [] d = d
absorb now place (p ∷ ps) d =
    if p.time == 0 then absorb now place ps d else absorb now place ps (updated now place p d)

unfoldable pub absorb_place : (now : ℕ) → Place → Result (List Payment) → Db → Db
absorb_place now place (raised e) d = d
absorb_place now place (ok ps) d = absorb now place ps d

unfoldable pub absorb_places : Env → List Place → Db → Db
absorb_places env [] d = d
absorb_places env (place ∷ places) d =
    absorb_places env places (absorb_place env.now place (fetch env place) d)

pub summed-ok :
    (m rest : Action ℕ) (s : Session) (n k : ℕ)
    → (m s).0 ≡ ok n
    → (rest (m s).1).0 ≡ ok k
    → summed m rest s ≡ (ok (n + k), (rest (m s).1).1)
summed-ok m rest s n k h h' =
    bound (m s) (λ a. rest >>= λ b. pure (a + b)) n h
    ∙ bound (rest (m s).1) (λ b. pure (n + b)) k h'

-- An action that returns a number and leaves a given state.
abbrev pub Leaves : Action ℕ → Session → Db → Type 0
Leaves m s d = (n : ℕ) × ((m s).0 ≡ ok n) × ((m s).1.current ≡ d)

pub summed-Leaves :
    (m rest : Action ℕ) (s : Session) (d d' : Db)
    → Leaves m s d
    → Leaves rest (m s).1 d'
    → Leaves (summed m rest) s d'
summed-Leaves m rest s d d' (n, r, c) (k, r', c') =
    let done = summed-ok m rest s n k r r' in
    (n + k, ap (λ z. z.0) done, ap (λ z. z.1.current) done ∙ c')

module _ (now : ℕ) (place : Place) where
  pub store-absorb :
      (ps : List Payment) (s : Session)
      → Leaves (store_payments (insert_arb_payment now) place ps) s (absorb now place ps s.current)
  unfolding store_payments absorb
  store-absorb [] s = (0, refl, refl)
  store-absorb (p ∷ ps) s = elim (Bool-cases (p.time == 0)) [
    | inl e ↦ rw e (store-absorb ps s)
    | inr e ↦
        let m = session_scope (insert_arb_payment now place p) in
        let (n, r, c) = insert-updated now place p s in
        let (k, r', c') = store-absorb ps (m s).1 in
        rw e (
          summed-Leaves m (store_payments (insert_arb_payment now) place ps) s _ _ (n, r, c)
            (k, r', c' ∙ ap (absorb now place ps) c))
  ]

  -- What is stored stays stored, and the legs that are polled do not change.
  pub absorb_keeps :
      (ps : List Payment) (d : Db) (place' : Place) (p' : Payment)
      → IsStored d place' p'
      → IsStored (absorb now place ps d) place' p'
  unfolding absorb
  absorb_keeps [] d place' p' h = h
  absorb_keeps (p ∷ ps) d place' p' h = elim (Bool-cases (p.time == 0)) [
    | inl e ↦ rw e (absorb_keeps ps d place' p' h)
    | inr e ↦ rw e (
        absorb_keeps ps (updated now place p d) place' p' (updated_keeps now place p d place' p' h))
  ]

  pub absorb_legs :
      (ps : List Payment) (d : Db) → arb_perp_legs (absorb now place ps d) ≡ arb_perp_legs d
  unfolding absorb
  absorb_legs [] d = refl
  absorb_legs (p ∷ ps) d = elim (Bool-cases (p.time == 0)) [
    | inl e ↦ rw e (absorb_legs ps d)
    | inr e ↦ rw e (absorb_legs ps (updated now place p d) ∙ updated_legs now place p d)
  ]

  -- Every payment with a time is stored.
  abbrev pub AreStored : List Payment → Db → Type 0
  AreStored ps d =
      All
        (λ p.
          (p.time == 0 || any_of (same_arb_event (arb_event 0 0 place p)) d.arb_funding_events)
          ≡ true)
        ps

  pub absorb-AreStored : (ps : List Payment) (d : Db) → AreStored ps (absorb now place ps d)
  unfolding absorb
  absorb-AreStored [] d = tt
  absorb-AreStored (p ∷ ps) d = elim (Bool-cases (p.time == 0)) [
    | inl e ↦
        let same : absorb now place (p ∷ ps) d ≡ absorb now place ps d = rw e refl in
        subst (AreStored (p ∷ ps)) (sym same) (rw e refl, absorb-AreStored ps d)
    | inr e ↦
        let d' = updated now place p d in
        let same : absorb now place (p ∷ ps) d ≡ absorb now place ps d' = rw e refl in
        subst (AreStored (p ∷ ps)) (sym same) (
          rw e (absorb_keeps ps d' place p (updated-IsStored now place p d)),
          absorb-AreStored ps d',
        )
  ]

  -- Payments that are stored are not stored again.
  pub store_again :
      (ps : List Payment) (s : Session)
      → AreStored ps s.current
      → ((store_payments (insert_arb_payment now) place ps s).0 ≡ ok 0)
        × ((store_payments (insert_arb_payment now) place ps s).1.current ≡ s.current)
  unfolding store_payments
  store_again [] s h = (refl, refl)
  store_again (p ∷ ps) s (h, hs) = elim (Bool-cases (p.time == 0)) [
    | inl e ↦ rw e (store_again ps s hs)
    | inr e ↦
        let m = session_scope (insert_arb_payment now place p) in
        let (r, c) = insert_again now place p s (rw e at h) in
        let (r', c') = store_again ps (m s).1 (subst (AreStored ps) (sym c) hs) in
        let done = summed-ok m (store_payments (insert_arb_payment now) place ps) s 0 0 r r' in
        rw e (ap (λ z. z.0) done, ap (λ z. z.1.current) done ∙ c' ∙ c)
  ]
