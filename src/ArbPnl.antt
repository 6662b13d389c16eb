-- ===== src/ArbPnl.antt =====
-- The profit of one funding arb (app/arb_pnl.py): funding, fees and mark-to-market of its legs.
pub mod Attribution
use mochi_position_manager.Prelude.{ℕ, String, ◌||◌, List, [], ◌∷◌, ◌==◌, if◌then◌else◌}
use mochi_position_manager.Prelude.Int.{ℤ, pos, sub_ℕ, ◌+ℤ◌, ◌-ℤ◌, ◌*ℤ◌}
use mochi_position_manager.Prelude.Table.{upsert, string_key, pair_key}
use mochi_position_manager.Models.{Side, signed_qty}
use mochi_position_manager.ArbModels.{Product, is_spot}

pub record LegPnlInput : Type 0 where
  pub exchange : String
  pub account : String
  pub product : Product
  pub symbol : String
  pub side : Side
  pub filled : ℕ
  pub avg_fill : ℕ
  pub mark : ℕ
  pub funding : ℤ
  pub commission : ℤ

unfoldable pub directional_unrealized : LegPnlInput → ℤ
directional_unrealized lg =
    if lg.filled == 0 || (lg.mark == 0 || lg.avg_fill == 0)
    then pos 0
    else signed_qty lg.side lg.filled *ℤ sub_ℕ lg.mark lg.avg_fill

-- The sums of the loop. The key of `funding_by_leg` is a text in the source, the three names with
-- colons between them.
pub record LegSums : Type 0 where
  pub funding_total : ℤ
  pub funding_by_leg : List ((String × (String × String)) × ℤ)
  pub commission_total : ℤ
  pub spot_unrealized : ℤ
  pub perp_unrealized : ℤ

pub record ArbPnlResult : Type 0 where
  pub sums : LegSums
  pub directional_net : ℤ
  pub net : ℤ

-- The funding that counts: a spot leg has none.
abbrev pub leg_funding : LegPnlInput → ℤ
leg_funding lg = if is_spot lg.product then pos 0 else lg.funding

-- One turn of the loop.
unfoldable pub add_leg : LegSums → LegPnlInput → LegSums
add_leg t lg = record {
  funding_total = t.funding_total +ℤ leg_funding lg;
  funding_by_leg = upsert (lg.exchange, (lg.account, lg.symbol)) (leg_funding lg) t.funding_by_leg;
  commission_total = t.commission_total +ℤ lg.commission;
  spot_unrealized =
      if is_spot lg.product
      then t.spot_unrealized +ℤ directional_unrealized lg
      else t.spot_unrealized;
  perp_unrealized =
      if is_spot lg.product
      then t.perp_unrealized
      else t.perp_unrealized +ℤ directional_unrealized lg;
}

unfoldable pub add_legs : LegSums → List LegPnlInput → LegSums
add_legs t [] = t
add_legs t (lg ∷ legs) = add_legs (add_leg t lg) legs

abbrev pub no_legs : LegSums
no_legs = record {
  funding_total = pos 0;
  funding_by_leg = [];
  commission_total = pos 0;
  spot_unrealized = pos 0;
  perp_unrealized = pos 0;
}

unfoldable pub compute_arb_pnl : List LegPnlInput → (basis realized : ℤ) → ArbPnlResult
compute_arb_pnl legs basis realized =
    let t = add_legs no_legs legs in
    let directional_net = t.spot_unrealized +ℤ t.perp_unrealized in
    record {
      sums = t;
      directional_net = directional_net;
      net = t.funding_total -ℤ t.commission_total +ℤ directional_net +ℤ realized +ℤ basis;
    }
