-- ===== src/Bybit/Status.antt =====
-- The cancel and the state of a resting order of Bybit (app/exchanges/bybit.py).
use mochi_position_manager.Prelude.{
  String, Bool, true, false, ◌||◌, not, Option, none, some, List, [], ◌∷◌, ◌==◌, if◌then◌else◌,
}
use mochi_position_manager.Prelude.Int.{pos}
use mochi_position_manager.Prelude.Table.{lookup, string_key}
use mochi_position_manager.Models.{OrderState, is_unknown, OrderSnapshot}
use mochi_position_manager.Session.{Result, ok, raised, value_or}
use mochi_position_manager.ArbExecutor.Sizing.{asked}
use mochi_position_manager.Bybit.{Answer, OrderRow, BybitExchange}
use mochi_position_manager.Bybit.Answers.{has_part}

-- A cancel of an order that is gone is a success.
abbrev pub is_gone : (lower : String → String) → Result Answer → Bool
is_gone lower (raised e) = false
is_gone lower (ok a) =
    a.ret_code == 0 || (a.ret_code == 110001 || has_part (lower a.ret_msg) "not exist")

unfoldable pub cancel_order : BybitExchange → (symbol order_id : String) → Bool
cancel_order ex symbol order_id =
    if ex.dry_run then true else is_gone ex.lower (ex.client.cancel_order symbol order_id)

-- `_BYBIT_STATE_MAP`.
abbrev pub bybit_state_map : List (String × OrderState)
bybit_state_map =
    ("New", OrderState.working)
    ∷ ("Created", OrderState.working)
    ∷ ("Untriggered", OrderState.working)
    ∷ ("PartiallyFilled", OrderState.partially_filled)
    ∷ ("Filled", OrderState.filled)
    ∷ ("Cancelled", OrderState.cancelled)
    ∷ ("PartiallyFilledCanceled", OrderState.cancelled)
    ∷ ("Deactivated", OrderState.cancelled)
    ∷ ("Rejected", OrderState.rejected)
    ∷ []

abbrev pub state_or_unknown : Option OrderState → OrderState
state_or_unknown none = OrderState.unknown
state_or_unknown (some s) = s

-- `_query_order`: the first row, if there is one.
abbrev pub snapshot_of : List OrderRow → Option OrderSnapshot
snapshot_of [] = none
snapshot_of (r ∷ rows) = some (record {
  state = state_or_unknown (lookup r.order_status bybit_state_map);
  filled_qty_base = r.cum_exec_qty;
  avg_price = r.avg_price;
  commission = r.cum_exec_fee;
  commission_asset = "USDT";
})

abbrev pub unknown_snapshot : OrderSnapshot
unknown_snapshot = record {
  state = OrderState.unknown;
  filled_qty_base = 0;
  avg_price = 0;
  commission = pos 0;
  commission_asset = "";
}

abbrev pub snapshot_or : Option OrderSnapshot → OrderSnapshot → OrderSnapshot
snapshot_or none d = d
snapshot_or (some st) d = st

-- The history is asked if the open orders do not know the order.
abbrev pub is_settled : Option OrderSnapshot → Bool
is_settled none = false
is_settled (some st) = not (is_unknown st.state)

unfoldable pub queried : BybitExchange → (symbol order_id : String) → Result OrderSnapshot
queried ex symbol order_id = asked (ex.client.open_orders symbol order_id) λ open_rows.
    let st = snapshot_of open_rows in
    if is_settled st
    then ok (snapshot_or st unknown_snapshot)
    else asked (ex.client.order_history symbol order_id)
        λ old_rows. ok (snapshot_or (snapshot_of old_rows) (snapshot_or st unknown_snapshot))

-- `order_status` never raises.
abbrev pub order_status : BybitExchange → (symbol order_id : String) → OrderSnapshot
order_status ex symbol order_id = value_or (queried ex symbol order_id) unknown_snapshot
