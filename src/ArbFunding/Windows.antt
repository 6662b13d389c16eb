-- ===== src/ArbFunding/Windows.antt =====
-- The settlements that count for an arb, and the funding of a closed pair.
use mochi_position_manager.Prelude.{
  ℕ, ◌<◌, ◌≡◌, refl, ap, ◌∙◌, false, ◌&&◌, Bool-cases, inl, inr, some, List, [], ◌∷◌, map, arith,
  ◌==◌, ◌||◌,
}
use mochi_position_manager.Prelude.Int.{
  ℤ, pos, sub_ℕ, ◌+ℤ◌, ◌-ℤ◌, ◌*ℤ◌, int_laws, *ℤ_zero_right, +ℤ_zero_right,
}
use mochi_position_manager.Prelude.Table.{string_key}
use mochi_position_manager.Models.{signed_qty}
use mochi_position_manager.ArbModels.{is_spot, ArbPosition, ArbLeg, ArbFundingEvent}
use mochi_position_manager.ArbPnl.{leg_funding as input_funding, directional_unrealized}
use mochi_position_manager.ArbPnl.Attribution.{legs_value, compute_arb_pnl-net}
use mochi_position_manager.ArbFunding.{counts, leg_funding, closed_input, close_breakdown}

-- A settlement is never counted for two arbs of which one closed before the other opened, whatever
-- legs they have: the windows do not overlap.
pub counts_once :
    (now : ℕ) (first second : ArbPosition) (a b : ArbLeg) (e : ArbFundingEvent) {hi lo : ℕ}
    → first.closed_at ≡ some hi
    → second.opened_at ≡ some lo
    → hi < lo
    → (counts now first a e && counts now second b e) ≡ false
unfolding counts
counts_once now first second a b e c o h = ground arith

-- What a closed pair is worth by the books: the funding of its legs less their fees.
abbrev pub carry : (now : ℕ) → List ArbFundingEvent → ArbPosition → List ArbLeg → ℤ
carry now events arb [] = pos 0
carry now events arb (lg ∷ legs) =
    leg_funding now events arb lg -ℤ lg.commission +ℤ carry now events arb legs

closed_flat :
    (now : ℕ) (events : List ArbFundingEvent) (arb : ArbPosition) (lg : ArbLeg)
    → directional_unrealized (closed_input now events arb lg) ≡ pos 0
unfolding directional_unrealized closed_input
closed_flat now events arb lg =
    let same : sub_ℕ lg.avg_fill lg.avg_fill ≡ pos 0 = ground arith in
    let flat : signed_qty lg.side lg.filled_qty *ℤ sub_ℕ lg.avg_fill lg.avg_fill ≡ pos 0 =
      ap (λ v. signed_qty lg.side lg.filled_qty *ℤ v) same ∙ *ℤ_zero_right _ in
    elim (Bool-cases (lg.filled_qty == 0 || (lg.avg_fill == 0 || lg.avg_fill == 0))) [
      | inl e ↦ rw e
      | inr e ↦ rw e flat
    ]

-- A spot leg has no funding in either place.
closed_funding :
    (now : ℕ) (events : List ArbFundingEvent) (arb : ArbPosition) (lg : ArbLeg)
    → input_funding (closed_input now events arb lg) ≡ leg_funding now events arb lg
unfolding leg_funding closed_input
closed_funding now events arb lg = elim (Bool-cases (is_spot lg.product)) [
  | inl e ↦ rw e
  | inr e ↦ rw e
]

flat_value : (f g c d r t : ℤ) → f ≡ g → d ≡ pos 0 → r ≡ t → f -ℤ c +ℤ d +ℤ r ≡ g -ℤ c +ℤ t
flat_value f g c d r t e z e' = rw (e, z, e') (omega int_laws)

closed_value :
    (now : ℕ) (events : List ArbFundingEvent) (arb : ArbPosition) (legs : List ArbLeg)
    → legs_value (map (closed_input now events arb) legs) ≡ carry now events arb legs
unfolding closed_input
closed_value now events arb [] = refl
closed_value now events arb (lg ∷ legs) =
    flat_value _ _ lg.commission _ _ _ (closed_funding now events arb lg)
      (closed_flat now events arb lg) (closed_value now events arb legs)

-- The net of a closed pair is the funding of its legs less their fees, and the realized profit: no
-- mark-to-market is left in it.
pub close_breakdown-net :
    (now : ℕ) (events : List ArbFundingEvent) (arb : ArbPosition) (legs : List ArbLeg)
    (realized_total : ℤ)
    → (close_breakdown now events arb legs realized_total).net
      ≡ carry now events arb legs +ℤ realized_total
unfolding close_breakdown
close_breakdown-net now events arb legs realized_total =
    compute_arb_pnl-net (map (closed_input now events arb) legs) (pos 0) realized_total
    ∙ +ℤ_zero_right _
    ∙ ap (λ v. v +ℤ realized_total) (closed_value now events arb legs)
