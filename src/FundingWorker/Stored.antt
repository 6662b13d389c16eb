-- ===== src/FundingWorker/Stored.antt =====
-- One payment in the funding table: the table after it, and the same payment again.
use mochi_position_manager.Prelude.{
  ℕ, ◌+◌, ◌≡◌, refl, inl, inr, Bool, Bool-cases, true, List, [], ◌∷◌, ◌++◌, any_of, length, arith,
  if◌then◌else◌,
}
use mochi_position_manager.Prelude.Table.{string_key}
use mochi_position_manager.ArbModels.{ArbFundingEvent}
use mochi_position_manager.Session.{Db, Session, ok, session_scope}
use mochi_position_manager.Exchange.{Payment}
use mochi_position_manager.FundingArb.{is_held}
use mochi_position_manager.FundingWorker.{
  Place, same_arb_event, arb_event, insert_arb_event, insert_arb_payment, arb_perp_legs,
}

-- The settlement of a place at a time is in the table.
abbrev pub IsStored : Db → Place → Payment → Type 0
IsStored d place p = any_of (same_arb_event (arb_event 0 0 place p)) d.arb_funding_events ≡ true

pub any_of-append :
    (t : ArbFundingEvent → Bool) (xs ys : List ArbFundingEvent)
    → any_of t xs ≡ true
    → any_of t (xs ++ ys) ≡ true
any_of-append t (x ∷ xs) ys h = ground (arith, any_of-append t xs ys)
any_of-append t [] ys h = ground (arith, h)

pub any_of-last :
    (t : ArbFundingEvent → Bool) (xs : List ArbFundingEvent) (y : ArbFundingEvent)
    → t y ≡ true
    → any_of t (xs ++ y ∷ []) ≡ true
any_of-last t [] y h = rw h refl
any_of-last t (x ∷ xs) y h = ground (arith, any_of-last t xs y h)

pub same_self :
    (place : Place) (p : Payment) (i j now : ℕ)
    → same_arb_event (arb_event 0 0 place p) (arb_event i now place p) ≡ true
same_self (e, (a, s)) p i j now =
    ground (arith, string_key.same_iff e e, string_key.same_iff a a, string_key.same_iff s s)

-- The table after a payment.
abbrev pub updated : (now : ℕ) → Place → Payment → Db → Db
updated now place p d =
    if any_of (same_arb_event (arb_event 0 0 place p)) d.arb_funding_events then d else record d {
      arb_funding_events =
          d.arb_funding_events ++ arb_event (length d.arb_funding_events + 1) now place p ∷ [];
    }

module _ (now : ℕ) (place : Place) (p : Payment) where
  pub insert-updated :
      (s : Session)
      → (n : ℕ) × ((session_scope (insert_arb_payment now place p) s).0 ≡ ok n)
        × ((session_scope (insert_arb_payment now place p) s).1.current
            ≡ updated now place p s.current)
  unfolding session_scope insert_arb_event
  insert-updated s =
      elim (Bool-cases
        (any_of (same_arb_event (arb_event 0 0 place p)) s.current.arb_funding_events)) [
          | inl e ↦ (0, rw e refl, rw e refl)
          | inr e ↦ (1, rw e refl, rw e refl)
        ]

  pub insert_again :
      (s : Session)
      → IsStored s.current place p
      → ((session_scope (insert_arb_payment now place p) s).0 ≡ ok 0)
        × ((session_scope (insert_arb_payment now place p) s).1.current ≡ s.current)
  unfolding session_scope insert_arb_event
  insert_again s h = (rw h refl, rw h refl)

  pub updated-IsStored : (d : Db) → IsStored (updated now place p d) place p
  updated-IsStored d =
      elim (Bool-cases (any_of (same_arb_event (arb_event 0 0 place p)) d.arb_funding_events)) [
        | inl e ↦ rw e e
        | inr e ↦ rw e (
            any_of-last (same_arb_event (arb_event 0 0 place p)) d.arb_funding_events _
              (same_self place p 0 (length d.arb_funding_events + 1) now))
      ]

  pub updated_keeps :
      (d : Db) (place' : Place) (p' : Payment)
      → IsStored d place' p'
      → IsStored (updated now place p d) place' p'
  updated_keeps d place' p' h =
      elim (Bool-cases (any_of (same_arb_event (arb_event 0 0 place p)) d.arb_funding_events)) [
        | inl e ↦ rw e h
        | inr e ↦ rw e (any_of-append _ d.arb_funding_events _ h)
      ]

  pub updated_legs : (d : Db) → arb_perp_legs (updated now place p d) ≡ arb_perp_legs d
  unfolding arb_perp_legs is_held
  updated_legs d =
      elim (Bool-cases (any_of (same_arb_event (arb_event 0 0 place p)) d.arb_funding_events)) [
        | inl e ↦ rw e refl
        | inr e ↦ rw e refl
      ]
