-- ===== src/FundingArb/Report.antt =====
-- The report of the funding-arb book (app/routes/funding_arb.py): a row for each pair with its legs, the
-- totals, and the net of each venue.
pub mod Venues
use mochi_position_manager.Prelude.{
  ℕ, ◌+◌, ◌*◌, max, String, Bool, true, false, ◌&&◌, Option, none, some, List, [], ◌∷◌, map, select,
  any_of, length, ltb, if◌then◌else◌,
}
use mochi_position_manager.Prelude.Int.{ℤ, pos, ◌+ℤ◌, ◌-ℤ◌, ◌*ℤ◌}
use mochi_position_manager.Prelude.Table.{string_key, pair_key, lookup, upsert}
use mochi_position_manager.Models.{signed_qty}
use mochi_position_manager.ArbModels.{is_spot, ArbStatus, ArbPosition, ArbLeg}
use mochi_position_manager.Session.{Db}
use mochi_position_manager.Config.{Env}
use mochi_position_manager.ArbExecutor.Legs.{legs_of}
use mochi_position_manager.ArbPnl.{
  LegPnlInput, ArbPnlResult, directional_unrealized, compute_arb_pnl,
}
use mochi_position_manager.FundingArb.View.{
  key_of, by_key, leg_pnl_inputs, skew_of, all_success, realized_of, pair_neutral, newest_first,
}

-- A leg of a row; the unrealized profit stands as that of its product too, which is left out.
pub record LegRow : Type 0 where
  pub leg : ArbLeg
  pub mark : ℕ
  pub funding : ℤ
  pub directional_net : ℤ

abbrev pub leg_row : ArbLeg → Option LegPnlInput → LegRow
leg_row lg none = record { leg = lg; mark = 0; funding = pos 0; directional_net = pos 0 }
leg_row lg (some i) = record {
  leg = lg;
  mark = i.mark;
  funding = if is_spot lg.product then pos 0 else i.funding;
  directional_net = directional_unrealized i;
}

-- The rows of the legs, each with the input under its exchange, account and symbol.
abbrev pub leg_rows : List LegPnlInput → List ArbLeg → List LegRow
leg_rows inputs legs = map (λ lg. leg_row lg (lookup (key_of lg) (by_key (λ i. i) inputs []))) legs

-- The cash of a fill: a sale brings it, a purchase costs it.
abbrev pub fill_cash : ArbLeg → ℤ
fill_cash lg = pos 0 -ℤ signed_qty lg.side lg.filled_qty *ℤ pos lg.avg_fill

abbrev pub has_ref : ArbLeg → Bool
has_ref lg = ltb 0 lg.ref_price && ltb 0 lg.filled_qty

-- The cost of a fill against the price that was recorded before it.
abbrev pub slip_cost : ArbLeg → ℤ
slip_cost lg = signed_qty lg.side lg.filled_qty *ℤ (pos lg.avg_fill -ℤ pos lg.ref_price)

unfoldable pub sum_by : {A : Type 0} → (A → ℤ) → List A → ℤ
sum_by f [] = pos 0
sum_by f (x ∷ xs) = f x +ℤ sum_by f xs

abbrev pub is_running : ArbStatus → Bool
is_running ArbStatus.opening = true
is_running ArbStatus.opened = true
is_running ArbStatus.closing = true
is_running _ = false

pub record ArbRow : Type 0 where
  pub arb : ArbPosition
  pub neutral : Bool
  pub neutrality_skew : ℤ
  pub show_neutrality : Bool
  pub basis : ℤ
  pub slippage : ℤ
  pub slippage_known : Bool
  pub result : ArbPnlResult
  pub realized : ℤ
  pub legs : List LegRow

unfoldable pub arb_row : Env → Db → ArbPosition → ArbRow
arb_row env d arb =
    let legs = legs_of arb.id d in
    let inputs = leg_pnl_inputs env d arb legs in
    record {
      arb = arb;
      neutral = pair_neutral env legs (skew_of legs) (all_success legs);
      neutrality_skew = skew_of legs;
      show_neutrality = is_running arb.status;
      basis = sum_by fill_cash legs;
      slippage = sum_by slip_cost (select has_ref legs);
      slippage_known = any_of has_ref legs;
      result = compute_arb_pnl inputs (pos 0) (realized_of legs);
      realized = realized_of legs;
      legs = leg_rows inputs legs;
    }

pub record ArbTotals : Type 0 where
  pub funding : ℤ
  pub commission : ℤ
  pub net : ℤ
  pub basis : ℤ
  pub slippage : ℤ
  pub slippage_known : Bool
  pub spot_unrealized : ℤ
  pub perp_unrealized : ℤ
  pub directional_net : ℤ
  pub realized : ℤ
  pub open_count : ℕ
  pub total_count : ℕ

pub record ArbReport : Type 0 where
  pub arbs : List ArbRow
  pub totals : ArbTotals

abbrev pub totals_of : List ArbRow → ArbTotals
totals_of rows =
    let spot_unrealized = sum_by (λ r. r.result.sums.spot_unrealized) rows in
    let perp_unrealized = sum_by (λ r. r.result.sums.perp_unrealized) rows in
    record {
      funding = sum_by (λ r. r.result.sums.funding_total) rows;
      commission = sum_by (λ r. r.result.sums.commission_total) rows;
      net = sum_by (λ r. r.result.net) rows;
      basis = sum_by (λ r. r.basis) rows;
      slippage = sum_by (λ r. r.slippage) rows;
      slippage_known = any_of (λ r. r.slippage_known) rows;
      spot_unrealized = spot_unrealized;
      perp_unrealized = perp_unrealized;
      directional_net = spot_unrealized +ℤ perp_unrealized;
      realized = sum_by (λ r. r.realized) rows;
      open_count = length (select (λ r. is_running r.arb.status) rows);
      total_count = length rows;
    }

-- `_arb_performance`.
unfoldable pub arb_performance : Env → Db → ArbReport
arb_performance env d =
    let rows = map (arb_row env d) (newest_first d.arb_positions) in
    record { arbs = rows; totals = totals_of rows }

abbrev pub net_at : Option ℤ → ℤ
net_at none = pos 0
net_at (some v) = v

-- What a leg adds to the net of its venue.
abbrev pub leg_net : LegRow → ℤ
leg_net r = r.funding -ℤ r.leg.commission +ℤ r.directional_net +ℤ r.leg.realized_pnl

unfoldable pub add_rows : List LegRow → List (String × ℤ) → List (String × ℤ)
add_rows [] by = by
add_rows (r ∷ rows) by =
    add_rows rows (upsert r.leg.exchange (net_at (lookup r.leg.exchange by) +ℤ leg_net r) by)

unfoldable pub add_arbs : List ArbRow → List (String × ℤ) → List (String × ℤ)
add_arbs [] by = by
add_arbs (a ∷ arbs) by = add_arbs arbs (add_rows a.legs by)

-- `_arb_by_venue`.
unfoldable pub arb_by_venue : ArbReport → List (String × ℤ)
arb_by_venue report = add_arbs report.arbs []

-- `_arb_capital_base`: the setting, or what is deployed in the running pairs.
abbrev pub largest_notional : List LegRow → ℕ
largest_notional [] = 0
largest_notional (r ∷ rows) = max (r.leg.filled_qty * r.leg.avg_fill) (largest_notional rows)

unfoldable pub deployed : List ArbRow → ℕ
deployed [] = 0
deployed (a ∷ arbs) =
    let rest = deployed arbs in
    if is_running a.arb.status then largest_notional a.legs + rest else rest

unfoldable pub arb_capital_base : (setting : ℕ) → ArbReport → ℕ
arb_capital_base setting report = if ltb 0 setting then setting else deployed report.arbs
