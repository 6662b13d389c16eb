-- ===== src/ArbRows.antt =====
-- The rows of a new pair (app/routes/funding_arb.py): the position, its legs, their ids and their targets.
use mochi_position_manager.Prelude.{
  ℕ, suc, max, String, Bool, true, false, ◌&&◌, ◌||◌, not, Option, none, some, List, [], ◌∷◌, ◌++◌,
  map, any_of, ◌==◌, if◌then◌else◌,
}
use mochi_position_manager.Prelude.Int.{pos}
use mochi_position_manager.Prelude.Table.{string_key}
use mochi_position_manager.ArbModels.{
  is_spot, ArbStatus, LegStatus, ArbMessage, ArbPosition, ArbLeg,
}
use mochi_position_manager.Session.{Db, Action, modify}
use mochi_position_manager.ArbRequest.{LegSpec, ArbOpenRequest}

-- The next id of a table.
unfoldable pub next_id : List ℕ → ℕ
next_id [] = 1
next_id (i ∷ is) = max (suc i) (next_id is)

abbrev pub next_arb_id : Db → ℕ
next_arb_id d = next_id (map (λ a. a.id) d.arb_positions)

abbrev pub next_leg_id : Db → ℕ
next_leg_id d = next_id (map (λ l. l.id) d.arb_legs)

abbrev pub new_arb : (id now : ℕ) → ArbOpenRequest → ArbPosition
new_arb id now req = record {
  id = id;
  idempotency_key = req.idempotency_key;
  asset = req.asset;
  strategy_tag = req.strategy_tag;
  notional_target = req.notional;
  status = ArbStatus.opening;
  realized_pnl = pos 0;
  error_message = ArbMessage.empty;
  opened_at = none;
  closed_at = none;
  created_at = now;
  updated_at = now;
}

abbrev pub number_or_zero : Option ℕ → ℕ
number_or_zero none = 0
number_or_zero (some n) = n

abbrev pub new_leg : (id arb_id now : ℕ) → LegSpec × String → ArbLeg
new_leg id arb_id now (spec, symbol) = record {
  id = id;
  arb_id = arb_id;
  exchange = spec.exchange;
  account = spec.account;
  product = spec.product;
  symbol = symbol;
  side = spec.side;
  target_qty = number_or_zero spec.target_qty;
  filled_qty = 0;
  avg_fill = 0;
  ref_price = 0;
  grid_step = 0;
  commission = pos 0;
  commission_asset = "";
  funding = pos 0;
  realized_pnl = pos 0;
  status = LegStatus.pending;
  error_message = ArbMessage.empty;
  created_at = now;
  updated_at = now;
}

unfoldable pub new_legs : (id arb_id now : ℕ) → List (LegSpec × String) → List ArbLeg
new_legs id arb_id now [] = []
new_legs id arb_id now (leg ∷ legs) = new_leg id arb_id now leg ∷ new_legs (suc id) arb_id now legs

-- UNIQUE(arb_id, exchange, product, symbol) on the new rows.
abbrev pub is_twin : ArbLeg → ArbLeg → Bool
is_twin a b =
    string_key.same a.exchange b.exchange
    && (string_key.same a.symbol b.symbol
        && (is_spot a.product && is_spot b.product
            || not (is_spot a.product) && not (is_spot b.product)))

unfoldable pub has_twins : List ArbLeg → Bool
has_twins [] = false
has_twins (lg ∷ legs) = if any_of (is_twin lg) legs then true else has_twins legs

-- The rows of the pair are added, the position first.
abbrev pub add_pair : ArbPosition → List ArbLeg → Action (Unit {0})
add_pair arb legs =
    modify
      λ d. record d { arb_positions = d.arb_positions ++ arb ∷ []; arb_legs = d.arb_legs ++ legs }

-- `leg.target_qty = qty`, for each leg of the pair.
abbrev pub targeted : (qty : ℕ) → ArbLeg → ArbLeg
targeted qty lg = record lg { target_qty = qty }

unfoldable pub target_legs : (arb_id qty : ℕ) → List ArbLeg → List ArbLeg
target_legs arb_id qty [] = []
target_legs arb_id qty (lg ∷ legs) =
    (if lg.arb_id == arb_id then targeted qty lg else lg) ∷ target_legs arb_id qty legs
