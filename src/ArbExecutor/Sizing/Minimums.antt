-- ===== src/ArbExecutor/Sizing/Minimums.antt =====
-- The size of a pair against the grids and the minimums of its venues.
use mochi_position_manager.Prelude.{
  ℕ, zero, suc, ◌+◌, ◌*◌, ◌≤◌, ◌<◌, ◌≡◌, refl, ◌⊎◌, true, Occurs, sym, ap, ◌∙◌, subst, inl, inr,
  Bool-cases, false, ◌||◌, ◌/◌, Option, none, some, List, [], ◌∷◌, All, max, arith, ◌==◌, any_of,
}
use mochi_position_manager.ArbModels.{SizeMode, SizingError, ArbLeg, is_spot}
use mochi_position_manager.Session.{Result, ok, raised, Result-cases}
use mochi_position_manager.Exchange.{Registry}
use mochi_position_manager.Portfolio.{compute_managed_qty}
use mochi_position_manager.ArbExecutor.{snap_down, whole_steps}
use mochi_position_manager.ArbExecutor.Sizing.{
  Venue, Sized, sized, unsized, leg_step, leg_min_notional, leg_ref_price, venues_of, steps_of,
  coarsest, reference, price_or, largest_minimum, notional_qty, qty_of, money_eps, too_small,
  rechecked, size_at, size_venues, size_pair,
}

-- The price that a quantity is valued at: the leg's own, or the reference price if its own is zero.
abbrev pub valued_at : (price ref_price : ℕ) → ℕ
valued_at zero ref_price = ref_price
valued_at (suc n) ref_price = suc n

valued_at-price_or : (price ref_price : ℕ) → price_or price ref_price ≡ valued_at price ref_price
valued_at-price_or zero ref_price = refl
valued_at-price_or (suc n) ref_price = ground arith

-- The quantity's value reaches the minimum that the leg's own venue reports, but for 1e-12 of the quote
-- currency.
abbrev pub Reaches : (qty ref_price : ℕ) → Venue → Type 0
Reaches qty ref_price v =
    (price : ℕ) × (least : ℕ) × (leg_ref_price v.ex v.leg ≡ ok price)
    × (leg_min_notional v.ex v.leg ≡ ok least)
    × (least ≤ qty * valued_at price ref_price + money_eps)

-- The size of an outcome, nothing if there is none.
abbrev size_or : Result Sized → Sized
size_or (ok z) = z
size_or (raised e) = unsized SizingError.no_grid

sized_inj : {a b : ℕ} → ok (sized a) ≡ ok (sized b) → a ≡ b
sized_inj {a} {b} h = ground (arith, h)

rechecked-Reaches :
    (qty ref_price q : ℕ) (vs : List Venue)
    → rechecked qty ref_price vs ≡ ok (sized q)
    → (qty ≡ q) × All (Reaches qty ref_price) vs
unfolding rechecked
rechecked-Reaches qty ref_price q [] h = (sized_inj h, tt)
rechecked-Reaches qty ref_price q (v ∷ vs) h = elim (Result-cases (leg_ref_price v.ex v.leg)) [
  | inr (e, p) ↦ let r : raised e ≡ ok (sized q) = rw p at h in ground arith
  | inl (price, p) ↦ elim (Result-cases (leg_min_notional v.ex v.leg)) [
    | inr (e, m) ↦ let r : raised e ≡ ok (sized q) = rw (p, m) at h in ground arith
    | inl (least, m) ↦ elim (Bool-cases (too_small qty (price_or price ref_price) least)) [
      | inl t ↦ let r = rw (p, m, t) at h in ground arith
      | inr t ↦
          let (same, rest) = rechecked-Reaches qty ref_price q vs (rw (p, m, t) at h) in
          (
            same,
            (
              (price, least, p, m, rw (← (valued_at-price_or price ref_price)) (ground (arith, t))),
              rest,
            ),
          )
    ]
  ]
]

-- A positive whole number of steps.
abbrev pub OnGrid : (qty coarse : ℕ) → Type 0
OnGrid qty coarse = ((k : ℕ) × (qty ≡ k * coarse)) × (0 < qty)

compute_managed_qty-grid :
    (usdt price step : ℕ) → (k : ℕ) × (compute_managed_qty usdt price step ≡ k * step)
unfolding compute_managed_qty
compute_managed_qty-grid usdt price step =
    elim (Bool-cases (usdt == 0 || (price == 0 || step == 0))) [
      | inl e ↦ (0, rw e (omega arith))
      | inr e ↦ (usdt / (price * step), rw e refl)
    ]

snap_down-grid : (q s : ℕ) → (k : ℕ) × (snap_down q s ≡ k * s)
unfolding snap_down
snap_down-grid q s = elim (Bool-cases (q == 0 || s == 0)) [
  | inl e ↦ (0, rw e (omega arith))
  | inr e ↦ (whole_steps q s, rw e refl)
]

max_one_step : (q s k : ℕ) → q ≡ k * s → 0 < s → OnGrid (max q s) s
max_one_step q s zero e h = ((1, omega (arith, e)), omega (arith, h))
max_one_step q s (suc k) e h =
    let grows : s ≤ suc k * s = grind arith in ((suc k, omega (arith, e, grows)), omega (arith, h))

notional_qty-OnGrid :
    (notional : Option ℕ) (price coarse q : ℕ)
    → notional_qty notional price coarse ≡ sized q
    → OnGrid q coarse
unfolding notional_qty
notional_qty-OnGrid none price coarse q h = ground arith
notional_qty-OnGrid (some notional) price coarse q h =
    let (k, e) = compute_managed_qty-grid notional price coarse in
    elim (Bool-cases (notional == 0)) [
      | inl z ↦ let r = rw z at h in ground arith
      | inr z ↦ elim (Bool-cases (compute_managed_qty notional price coarse == 0)) [
        | inl n ↦ let r = rw (z, n) at h in ground arith
        | inr n ↦
            let r : sized (compute_managed_qty notional price coarse) ≡ sized q = rw (z, n) at h in
            let same : compute_managed_qty notional price coarse ≡ q = sized_inj (ap ok r) in
            ((k, sym same ∙ e), ground (arith, n, same))
      ]
    ]

qty_of-OnGrid :
    (mode : SizeMode) (notional : Option ℕ) (price coarse q : ℕ) (vs : List Venue)
    → 0 < coarse
    → qty_of mode notional price coarse vs ≡ ok (sized q)
    → OnGrid q coarse
qty_of-OnGrid SizeMode.notional notional price coarse q vs h e =
    notional_qty-OnGrid notional price coarse q (ap (λ r. size_or r) e)
qty_of-OnGrid SizeMode.minimum notional price coarse q vs h e =
    elim (Result-cases (largest_minimum price coarse vs)) [
      | inr (why, l) ↦ let r = rw l at e in ground arith
      | inl (most, l) ↦
          let r : ok (sized (max (snap_down most coarse) coarse)) ≡ ok (sized q) = rw l at e in
          let (k, g) = snap_down-grid most coarse in
          subst (λ n. OnGrid n coarse) (sized_inj r)
            (max_one_step (snap_down most coarse) coarse k g h)
    ]

-- The leg that gives the reference price: a perp leg, or a leg of a pair without one.
abbrev pub Refers : Venue → List Venue → Type 0
Refers ref vs =
    Occurs ref vs × ((is_spot ref.leg.product ≡ false) ⊎ All (λ v. is_spot v.leg.product ≡ true) vs)

reference-found :
    (first : Venue) (vs : List Venue)
    → (Occurs (reference first vs) vs × (is_spot (reference first vs).leg.product ≡ false))
      ⊎ ((reference first vs ≡ first) × All (λ v. is_spot v.leg.product ≡ true) vs)
reference-found first [] = inr (refl, tt)
reference-found first (v ∷ vs) = elim (Bool-cases (is_spot v.leg.product)) [
  | inr e ↦ rw e (inl (Occurs.head refl, e))
  | inl e ↦ rw e (elim (reference-found first vs) [
    | inl (o, p) ↦ inl (Occurs.tail o, p)
    | inr (q, all) ↦ inr (q, (refl, all))
  ])
]

reference-Refers : (v : Venue) (vs : List Venue) → Refers (reference v (v ∷ vs)) (v ∷ vs)
reference-Refers v vs = elim (reference-found v (v ∷ vs)) [
  | inl (o, p) ↦ (o, inl p)
  | inr (q, all) ↦ (Occurs.head q, inr all)
]

-- The size is on the coarser grid and reaches every minimum, at a reference price that the reference
-- leg's venue answers, which is above zero.
abbrev pub Sizes : (qty : ℕ) → List Venue → Type 0
Sizes qty vs =
    (steps : List ℕ) × (ref : Venue) × (ref_price : ℕ) × (steps_of vs ≡ ok steps)
    × Refers ref vs
    × (leg_ref_price ref.ex ref.leg ≡ ok ref_price)
    × (0 < ref_price)
    × OnGrid qty (coarsest steps)
    × All (Reaches qty ref_price) vs

size_at-Reaches :
    (mode : SizeMode) (notional : Option ℕ) (ref : Venue) (vs : List Venue) (coarse price q : ℕ)
    → 0 < coarse
    → size_at mode notional ref vs coarse price ≡ ok (sized q)
    → (0 < price) × (OnGrid q coarse × All (Reaches q price) vs)
size_at-Reaches mode notional ref vs coarse price q h e = elim (Bool-cases (price == 0)) [
  | inl z ↦ let r = rw z at e in ground arith
  | inr z ↦ elim (Result-cases (qty_of mode notional price coarse vs)) [
    | inr (why, l) ↦ let r = rw (z, l) at e in ground arith
    | inl (unsized why, l) ↦ let r = rw (z, l) at e in ground arith
    | inl (sized n, l) ↦
        let (same, fits) = rechecked-Reaches n price q vs (rw (z, l) at e) in
        (
          ground (arith, z),
          subst (λ k. OnGrid k coarse × All (Reaches k price) vs) same
              (qty_of-OnGrid mode notional price coarse n vs h l, fits),
        )
  ]
]

some_step :
    (step : ℕ) (steps : List ℕ)
    → any_of (λ s. s == 0) (step ∷ steps) ≡ false
    → 0 < coarsest (step ∷ steps)
some_step step steps h = ground (arith, h)

-- At least one step, and none that is zero.
steps_positive :
    (v : Venue) (vs : List Venue) (steps : List ℕ)
    → steps_of (v ∷ vs) ≡ ok steps
    → any_of (λ s. s == 0) steps ≡ false
    → 0 < coarsest steps
unfolding steps_of
steps_positive v vs (step ∷ steps) l z = some_step step steps z
steps_positive v vs [] l z = elim (Result-cases (leg_step v.ex v.leg)) [
  | inr (why, s) ↦ let r = rw s at l in ground arith
  | inl (step, s) ↦ elim (Result-cases (steps_of vs)) [
    | inr (why, t) ↦ let r = rw (s, t) at l in ground arith
    | inl (rest, t) ↦ let r = rw (s, t) at l in ground arith
  ]
]

size_venues-Sizes :
    (mode : SizeMode) (notional : Option ℕ) (vs : List Venue) (q : ℕ)
    → size_venues mode notional vs ≡ ok (sized q)
    → Sizes q vs
unfolding size_venues
size_venues-Sizes mode notional [] q h = ground arith
size_venues-Sizes mode notional (v ∷ vs) q h = elim (Result-cases (steps_of (v ∷ vs))) [
  | inr (why, l) ↦ let r = rw l at h in ground arith
  | inl (steps, l) ↦ elim (Bool-cases (any_of (λ s. s == 0) steps)) [
    | inl z ↦ let r = rw (l, z) at h in ground arith
    | inr z ↦
        elim (Result-cases (leg_ref_price (reference v (v ∷ vs)).ex (reference v (v ∷ vs)).leg)) [
          | inr (why, p) ↦ let r = rw (l, z, p) at h in ground arith
          | inl (price, p) ↦
              let (positive, (grid, fits)) =
                size_at-Reaches mode notional (reference v (v ∷ vs)) (v ∷ vs) (coarsest steps) price
                  q (steps_positive v vs steps l z) (rw (l, z, p) at h) in
              (
                steps,
                reference v (v ∷ vs),
                price,
                l,
                reference-Refers v vs,
                p,
                positive,
                grid,
                fits,
              )
        ]
  ]
]

-- A size that the pair is given is a positive whole number of steps of the coarser grid, and its value
-- at each leg's price reaches the minimum that the leg's venue reports, but for 1e-12 of the quote
-- currency; a leg without a price counts at the price above zero that the venue of a perp leg
-- answers, or that of a leg if there is no perp.
pub size_pair-Sizes :
    (registry : Registry) (mode : SizeMode) (notional : Option ℕ) (legs : List ArbLeg) (q : ℕ)
    → size_pair registry mode notional legs ≡ ok (sized q)
    → (vs : List Venue) × (venues_of registry legs ≡ ok vs) × Sizes q vs
unfolding size_pair
size_pair-Sizes registry mode notional legs q h = elim (Result-cases (venues_of registry legs)) [
  | inr (why, l) ↦ let r = rw l at h in ground arith
  | inl (vs, l) ↦ (vs, l, size_venues-Sizes mode notional vs q (rw l at h))
]
