-- ===== src/ArbPnl/Attribution.antt =====
-- The roll-up of a pair's profit and what each of its legs is worth.
use mochi_position_manager.Prelude.{
  ◌*◌, Bool-cases, inl, inr, ℕ, ◌+◌, ◌<◌, ◌≡◌, refl, sym, ap, ◌∙◌, List, [], ◌∷◌, arith,
}
use mochi_position_manager.Prelude.Int.{
  ℤ, pos, sub_ℕ, ◌+ℤ◌, ◌-ℤ◌, ◌*ℤ◌, int_laws, +ℤ_assoc, +ℤ_zero_left,
}
use mochi_position_manager.Models.{buy, sell, signed_qty}
use mochi_position_manager.Executor.Fills.Worth.{worth, worth_parts, worth_sell}
use mochi_position_manager.ArbModels.{spot, perp, is_spot}
use mochi_position_manager.ArbPnl.{
  LegPnlInput, LegSums, leg_funding, directional_unrealized, add_leg, add_legs, no_legs,
  compute_arb_pnl,
}

-- What one leg is worth: its funding less its fee, and its mark-to-market.
abbrev pub leg_value : LegPnlInput → ℤ
leg_value lg = leg_funding lg -ℤ lg.commission +ℤ directional_unrealized lg

abbrev pub legs_value : List LegPnlInput → ℤ
legs_value [] = pos 0
legs_value (lg ∷ legs) = leg_value lg +ℤ legs_value legs

abbrev sums_value : LegSums → ℤ
sums_value t = t.funding_total -ℤ t.commission_total +ℤ (t.spot_unrealized +ℤ t.perp_unrealized)

add_leg-value :
    (t : LegSums) (lg : LegPnlInput) → sums_value (add_leg t lg) ≡ sums_value t +ℤ leg_value lg
unfolding add_leg
add_leg-value t lg = elim (Bool-cases (is_spot lg.product)) [
  | inl e ↦ rw e (omega int_laws)
  | inr e ↦ rw e (omega int_laws)
]

add_legs-value :
    (t : LegSums) (legs : List LegPnlInput)
    → sums_value (add_legs t legs) ≡ sums_value t +ℤ legs_value legs
unfolding add_legs
add_legs-value t [] = omega int_laws
add_legs-value t (lg ∷ legs) =
    add_legs-value (add_leg t lg) legs
    ∙ ap (λ v. v +ℤ legs_value legs) (add_leg-value t lg)
    ∙ +ℤ_assoc (sums_value t) (leg_value lg) (legs_value legs)

distribute : (q m d : ℕ) → q * (m + d) ≡ q * m + q * d
distribute q m d = grind arith

pub move_both :
    (q m n a b d : ℕ)
    → pos q *ℤ sub_ℕ (m + d) a +ℤ sub_ℕ 0 q *ℤ sub_ℕ (n + d) b
      ≡ pos q *ℤ sub_ℕ m a +ℤ sub_ℕ 0 q *ℤ sub_ℕ n b
unfolding worth
move_both q m n a b d = omega (
  int_laws,
  worth_parts (pos q) a (m + d),
  worth_sell q b (n + d),
  worth_parts (pos q) a m,
  worth_sell q b n,
  distribute q m d,
  distribute q n d,
)

-- The net of an arb is the sum of what its legs are worth, each its funding (none for a spot leg)
-- less its fee and with its mark-to-market, and of the realized profit and the basis.
pub compute_arb_pnl-net :
    (legs : List LegPnlInput) (basis realized : ℤ)
    → (compute_arb_pnl legs basis realized).net ≡ legs_value legs +ℤ realized +ℤ basis
unfolding compute_arb_pnl ◌+ℤ◌ ◌-ℤ◌
compute_arb_pnl-net legs basis realized =
    ap (λ v. v +ℤ realized +ℤ basis) (add_legs-value no_legs legs ∙ +ℤ_zero_left (legs_value legs))

-- The two legs of a cash-and-carry at given marks: a spot leg bought and a perp leg sold.
abbrev pub at_mark : LegPnlInput → ℕ → LegPnlInput
at_mark lg m = record lg { mark = m }

abbrev pub IsLive : LegPnlInput → Type 0
IsLive lg = (0 < lg.filled) × (0 < lg.mark) × (0 < lg.avg_fill)

live_value :
    (lg : LegPnlInput)
    → IsLive lg
    → directional_unrealized lg ≡ signed_qty lg.side lg.filled *ℤ sub_ℕ lg.mark lg.avg_fill
unfolding directional_unrealized
live_value lg (f, m, a) = ground arith

module _ (spot_leg perp_leg : LegPnlInput) where
  pair_directional :
      (basis realized : ℤ)
      → spot_leg.product ≡ spot
      → perp_leg.product ≡ perp
      → (compute_arb_pnl (spot_leg ∷ perp_leg ∷ []) basis realized).directional_net
        ≡ directional_unrealized spot_leg +ℤ directional_unrealized perp_leg
  unfolding compute_arb_pnl add_legs add_leg
  pair_directional basis realized s p = rw (s, p) (omega int_laws)

  -- The mark-to-market of a live pair, for its sides and its one quantity.
  pair_value :
      {q : ℕ} (basis realized : ℤ)
      → spot_leg.product ≡ spot
      → perp_leg.product ≡ perp
      → spot_leg.side ≡ buy
      → perp_leg.side ≡ sell
      → spot_leg.filled ≡ q
      → perp_leg.filled ≡ q
      → IsLive spot_leg
      → IsLive perp_leg
      → (compute_arb_pnl (spot_leg ∷ perp_leg ∷ []) basis realized).directional_net
        ≡ pos q *ℤ sub_ℕ spot_leg.mark spot_leg.avg_fill
          +ℤ sub_ℕ 0 q *ℤ sub_ℕ perp_leg.mark perp_leg.avg_fill
  pair_value basis realized s p long short fs fp ls lp =
      pair_directional basis realized s p
      ∙ rw (live_value spot_leg ls, live_value perp_leg lp, long, short, fs, fp)

-- A hedged pair is neutral: a spot leg that was bought and a perp leg of the same quantity that was
-- sold, both live, have the same mark-to-market after both marks rise by the same amount.
pub compute_arb_pnl_neutral :
    (spot_leg perp_leg : LegPnlInput) (basis realized : ℤ) (d : ℕ)
    → spot_leg.product ≡ spot
    → perp_leg.product ≡ perp
    → spot_leg.side ≡ buy
    → perp_leg.side ≡ sell
    → spot_leg.filled ≡ perp_leg.filled
    → IsLive spot_leg
    → IsLive perp_leg
    → (compute_arb_pnl
        (at_mark spot_leg (spot_leg.mark + d) ∷ at_mark perp_leg (perp_leg.mark + d) ∷ [])
        basis
        realized).directional_net
      ≡ (compute_arb_pnl (spot_leg ∷ perp_leg ∷ []) basis realized).directional_net
compute_arb_pnl_neutral spot_leg perp_leg basis realized d s p long short same (f, m, a) (g, n, b) =
    pair_value (at_mark spot_leg (spot_leg.mark + d)) (at_mark perp_leg (perp_leg.mark + d)) basis
      realized s p long short same refl (f, omega arith, a) (g, omega arith, b)
    ∙ move_both perp_leg.filled spot_leg.mark perp_leg.mark spot_leg.avg_fill perp_leg.avg_fill d
    ∙ sym (pair_value spot_leg perp_leg basis realized s p long short same refl (f, m, a) (g, n, b))
