-- ===== src/ArbExecutor/Opening/Order.antt =====
-- The order in which the legs of a pair fire (`_open_order` of app/arb_executor.py).
use mochi_position_manager.Prelude.{
  ℕ, suc, ◌+◌, ◌≤◌, ◌≡◌, refl, ap, sym, ◌∙◌, ◌⊎◌, inl, inr, Bool-cases, Option, none, some, List,
  [], ◌∷◌, arith, leb, length,
}
use mochi_position_manager.Models.{Side, buy, sell}
use mochi_position_manager.ArbModels.{Product, spot, perp, ArbLeg}
use mochi_position_manager.Session.{Db}
use mochi_position_manager.ArbExecutor.Legs.{arb_of, legs_of}
use mochi_position_manager.ArbExecutor.Opening.{rank, insert_leg, open_order, legs_to_open}

-- Spot before perp, and then a buy before a sell.
abbrev pub Precedes : ArbLeg → ArbLeg → Type 0
Precedes a b =
    ((a.product ≡ spot) × (b.product ≡ perp))
    ⊎ ((a.product ≡ b.product) × ((a.side ≡ buy) ⊎ (b.side ≡ sell)))

-- The two legs of a pair in the order in which they fire.
abbrev pub IsPair : (arb_id : ℕ) → Db → (first second : ArbLeg) → Type 0
IsPair arb_id d first second =
    ((legs_of arb_id d ≡ first ∷ second ∷ []) ⊎ (legs_of arb_id d ≡ second ∷ first ∷ []))
    × Precedes first second

abbrev rank_of : Product → Side → ℕ
rank_of p s = elim p [ spot ↦ 0 | perp ↦ 2 ] + elim s [ buy ↦ 0 | sell ↦ 1 ]

ranked :
    (p q : Product) (x y : Side)
    → rank_of p x ≤ rank_of q y
    → ((p ≡ spot) × (q ≡ perp)) ⊎ ((p ≡ q) × ((x ≡ buy) ⊎ (y ≡ sell)))
ranked spot perp x y h = inl (refl, refl)
ranked perp spot buy buy h = absurd (omega (arith, h))
ranked perp spot buy sell h = absurd (omega (arith, h))
ranked perp spot sell buy h = absurd (omega (arith, h))
ranked perp spot sell sell h = absurd (omega (arith, h))
ranked spot spot buy y h = inr (refl, inl refl)
ranked spot spot sell sell h = inr (refl, inr refl)
ranked spot spot sell buy h = absurd (omega (arith, h))
ranked perp perp buy y h = inr (refl, inl refl)
ranked perp perp sell sell h = inr (refl, inr refl)
ranked perp perp sell buy h = absurd (omega (arith, h))

length-insert_leg : (x : ArbLeg) (xs : List ArbLeg) → length (insert_leg x xs) ≡ suc (length xs)
unfolding insert_leg
length-insert_leg x [] = refl
length-insert_leg x (y ∷ ys) = elim (Bool-cases (leb (rank x) (rank y))) [
  | inl e ↦ rw e refl
  | inr e ↦ rw (e, length-insert_leg x ys) refl
]

length-open_order : (xs : List ArbLeg) → length (open_order xs) ≡ length xs
unfolding open_order
length-open_order [] = refl
length-open_order (x ∷ xs) =
    length-insert_leg x (open_order xs) ∙ ap (λ n. suc n) (length-open_order xs)

-- Two legs that are put in order are those two.
sorted_two :
    (x y a b : ArbLeg)
    → insert_leg x (y ∷ []) ≡ a ∷ b ∷ []
    → ((x ∷ y ∷ [] ≡ a ∷ b ∷ []) ⊎ (x ∷ y ∷ [] ≡ b ∷ a ∷ [])) × (rank a ≤ rank b)
unfolding insert_leg
sorted_two x y a b e = elim (Bool-cases (leb (rank x) (rank y))) [
  | inl l ↦ let h : x ∷ y ∷ [] ≡ a ∷ b ∷ [] = rw l at e in (inl h, ground (arith, h, l))
  | inr l ↦
      let h : y ∷ x ∷ [] ≡ a ∷ b ∷ [] = rw l at e in (inr (ground (arith, h)), ground (arith, h, l))
]

open_order-two :
    (legs : List ArbLeg) (a b : ArbLeg)
    → open_order legs ≡ a ∷ b ∷ []
    → ((legs ≡ a ∷ b ∷ []) ⊎ (legs ≡ b ∷ a ∷ [])) × (rank a ≤ rank b)
unfolding open_order insert_leg
open_order-two [] a b e = cc e
open_order-two (x ∷ []) a b e =
    absurd (omega (arith, sym (length-open_order (x ∷ [])) ∙ ap length e))
open_order-two (x ∷ y ∷ []) a b e = sorted_two x y a b e
open_order-two (x ∷ y ∷ z ∷ legs) a b e =
    absurd (omega (arith, sym (length-open_order (x ∷ y ∷ z ∷ legs)) ∙ ap length e))

-- The legs to open are those of the pair, put in order.
opened_legs :
    (arb_id : ℕ) (d : Db) (legs : List ArbLeg)
    → legs_to_open arb_id d ≡ some legs
    → open_order (legs_of arb_id d) ≡ legs
opened_legs arb_id d legs e =
    elim (arb_of arb_id d)
        as (λ o.
          elim o as (λ _. Option (List ArbLeg)) [
            | none ↦ none
            | some arb ↦ some (open_order (legs_of arb_id d))
          ]
            ≡ some legs
          → open_order (legs_of arb_id d) ≡ legs) [ none ↦ λ h. cc h | some arb ↦ λ h. cc h ]
      e

pub legs_to_open-IsPair :
    (arb_id : ℕ) (d : Db) (a b : ArbLeg)
    → legs_to_open arb_id d ≡ some (a ∷ b ∷ [])
    → IsPair arb_id d a b
legs_to_open-IsPair arb_id d a b e =
    let (same, ordered) =
      open_order-two (legs_of arb_id d) a b (opened_legs arb_id d (a ∷ b ∷ []) e) in
    (same, ranked a.product b.product a.side b.side ordered)
