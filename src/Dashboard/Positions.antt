-- ===== src/Dashboard/Positions.antt =====
-- What the venues hold (app/routes/dashboard.py, _actual_positions): the ledger of each pair against
-- the venue's position.
use mochi_position_manager.Prelude.{
  ℕ, ◌+◌, ◌*◌, ◌/◌, String, Bool, true, false, ◌&&◌, not, Option, none, some, List, [], ◌∷◌, ltb,
  ◌==◌, if◌then◌else◌,
}
use mochi_position_manager.Prelude.Int.{ℤ, pos, abs, ◌+ℤ◌, ◌-ℤ◌, ◌*ℤ◌}
use mochi_position_manager.Prelude.Table.{lookup, upsert, string_key, pair_key}
use mochi_position_manager.Models.{StrategyPosition, or_number}
use mochi_position_manager.Session.{Db, Result, ok, raised}
use mochi_position_manager.Exchange.{PositionDetail}
use mochi_position_manager.Config.{Env}
use mochi_position_manager.Reconcile.{Pair}
use mochi_position_manager.ArbExecutor.Sizing.{asked}
use mochi_position_manager.Dashboard.{venue_flat}

-- The ledger of one pair over its strategies: the net, the last mark, whether a leg is open, and
-- the cost and the size of the open legs with an entry.
pub record Blend : Type 0 where
  pub net : ℤ
  pub last : ℕ
  pub probed : Bool
  pub cost : ℕ
  pub qsum : ℕ

abbrev pub no_blend : Blend
no_blend = record { net = pos 0; last = 0; probed = false; cost = 0; qsum = 0 }

-- An open leg with an entry counts for the blended entry.
abbrev pub with_leg : StrategyPosition → Blend → Blend
with_leg sp b =
    if venue_flat sp.net_qty_base sp.net_qty_usd
    then b
    else if sp.avg_entry_price == 0
    then record b { probed = true }
    else record b {
      probed = true;
      cost = b.cost + abs sp.net_qty_base * sp.avg_entry_price;
      qsum = b.qsum + abs sp.net_qty_base;
    }

unfoldable pub blend_row : StrategyPosition → Blend → Blend
blend_row sp b = with_leg sp (record b {
  net = b.net +ℤ sp.net_qty_base;
  last = if sp.last_price == 0 then b.last else sp.last_price;
})

abbrev pub blend_at : Option Blend → Blend
blend_at none = no_blend
blend_at (some b) = b

-- The loop over the rows.
unfoldable pub blends :
    List ((String × Pair) × StrategyPosition) → List (Pair × Blend) → List (Pair × Blend)
blends [] bs = bs
blends (((strategy_id, pair), sp) ∷ rows) bs =
    blends rows (upsert pair (blend_row sp (blend_at (lookup pair bs))) bs)

-- Where a figure comes from.
pub data PositionSource : Type 0 where
  ledger exchange : PositionSource

pub record ActualPosition : Type 0 where
  pub net_qty_base : ℤ
  pub mark : ℕ
  pub entry : ℕ
  pub source : PositionSource
  pub unrealized : ℤ

-- The ledger's blended entry, rounded down to the price grid.
abbrev pub blended_entry : Blend → ℕ
blended_entry b = if b.qsum == 0 then 0 else b.cost / b.qsum

abbrev pub marked_unrealized : (qty : ℤ) (mark entry : ℕ) → ℤ
marked_unrealized qty mark entry =
    if ltb 0 entry && ltb 0 mark then qty *ℤ (pos mark -ℤ pos entry) else pos 0

abbrev pub unrealized_or : Option ℤ → ℤ → ℤ
unrealized_or none u = u
unrealized_or (some u) v = u

-- The venue's answer for a pair, or the ledger's figures if the venue does not answer.
unfoldable pub actual_of : Blend → Result PositionDetail → ActualPosition
actual_of b (raised e) = record {
  net_qty_base = b.net;
  mark = b.last;
  entry = blended_entry b;
  source = ledger;
  unrealized = marked_unrealized b.net b.last (blended_entry b);
}
actual_of b (ok p) =
    let mark = or_number (some p.mark) b.last in
    let entry = or_number (some p.entry) (blended_entry b) in
    record {
      net_qty_base = p.qty;
      mark = mark;
      entry = entry;
      source = exchange;
      unrealized = unrealized_or p.unrealized (marked_unrealized p.qty mark entry);
    }

abbrev pub is_flat_at : ActualPosition → Bool
is_flat_at a = venue_flat a.net_qty_base (a.net_qty_base *ℤ pos a.mark)

unfoldable pub actual_list : Env → List (Pair × Blend) → List (Pair × ActualPosition)
actual_list env [] = []
actual_list env (((ex, sym), b) ∷ bs) =
    let rest = actual_list env bs in
    let a =
      actual_of b (asked (env.registry ex "default") λ adapter. adapter.get_position_detail sym) in
    if b.probed && not (is_flat_at a) then ((ex, sym), a) ∷ rest else rest

-- `_actual_positions`, in the order of the ledger; the sorting by exchange and symbol is left out.
abbrev pub actual_positions : Env → Db → List (Pair × ActualPosition)
actual_positions env d = actual_list env (blends d.strategy_positions [])
