-- ===== src/Bybit/Answers.antt =====
-- What the orders of Bybit return (app/exchanges/bybit.py): the leverage, a fill, a refusal.
use text.Mathlib.Text.{◌==◌ as str_eq, starts_with}
use mochi_position_manager.Prelude.{
  ℕ, ◌+◌, String, Bool, true, false, ◌||◌, Option, none, some, List, leb, ◌==◌, if◌then◌else◌,
}
use mochi_position_manager.Prelude.Int.{pos}
use mochi_position_manager.Prelude.Table.{string_key}
use mochi_position_manager.Models.{Side, FeeSource, OrderResult}
use mochi_position_manager.Session.{Result, ok, raised}
use mochi_position_manager.Bybit.{Category, Placement, Answer, BybitExchange, dust}
use mochi_position_manager.Bybit.Fills.{Fill}

-- Python's `t in s`.
unfoldable pub has_part : (s t : String) → Bool
has_part String.[] t = str_eq t ""
has_part (String.◌∷◌ c s) t = starts_with (String.◌∷◌ c s) t || has_part s t

abbrev pub Outcome : Type 0
Outcome = OrderResult × List Placement

abbrev pub no_result : OrderResult
no_result = record {
  success = true;
  exchange_order_id = "";
  filled_qty_base = 0;
  avg_price = 0;
  commission = pos 0;
  commission_asset = "";
  fee_source = FeeSource.undeclared;
  error_message = "";
}

abbrev pub failure : (why : String) → OrderResult
failure why = record no_result { success = false; error_message = why }

-- `_ensure_leverage`: an unchanged leverage is no error.
abbrev pub unless_unchanged : (lower : String → String) → Result (Unit {0}) → Result (Unit {0})
unless_unchanged lower (ok u) = ok u
unless_unchanged lower (raised msg) =
    if has_part msg "110043" || has_part (lower msg) "leverage not modified"
    then ok tt
    else raised msg

unfoldable pub ensure_leverage :
    BybitExchange → (symbol : String) (leverage : ℕ) → Result (Unit {0})
ensure_leverage ex symbol leverage =
    if leverage == 0
    then ok tt
    else unless_unchanged ex.lower (ex.client.set_leverage symbol leverage)

abbrev pub with_leverage : BybitExchange → (symbol : String) (leverage : ℕ) → Result (Unit {0})
with_leverage ex symbol leverage = if ex.dry_run then ok tt else ensure_leverage ex symbol leverage

abbrev pub dry_result : (order_id : String) (qty price : ℕ) → OrderResult
dry_result order_id qty price = record no_result {
  exchange_order_id = order_id;
  filled_qty_base = qty;
  avg_price = price;
  fee_source = FeeSource.dry_run;
}

-- The result of an order that was taken: the real fill if the executions show it, else the asked
-- quantity at the mark. The fee is the venue's only if the executions cover the quantity.
unfoldable pub filled_result : (order_id : String) (qty price : ℕ) → Option Fill → OrderResult
filled_result order_id qty price none = record no_result {
  exchange_order_id = order_id;
  filled_qty_base = qty;
  avg_price = price;
  fee_source = FeeSource.unavailable;
}
filled_result order_id qty price (some f) = record no_result {
  exchange_order_id = order_id;
  filled_qty_base = f.qty;
  avg_price = f.price;
  commission = f.fee;
  commission_asset = f.currency;
  fee_source = if leb qty (f.qty + dust) then FeeSource.exchange else FeeSource.unavailable;
}

-- The venue's answer to an order; the text of a refusal is without its code.
abbrev pub answered : (taken : Answer → OrderResult) → Result Answer → OrderResult
answered taken (raised e) = failure e
answered taken (ok a) = if a.ret_code == 0 then taken a else failure a.ret_msg

abbrev pub market_placement : Category → (symbol : String) → Side → (qty : ℕ) → Placement
market_placement category symbol side qty = record {
  category = category;
  symbol = symbol;
  side = side;
  qty = qty;
  price = none;
  order_link_id = "";
  reduce_only = false;
}
