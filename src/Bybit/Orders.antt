-- ===== src/Bybit/Orders.antt =====
-- The orders of Bybit (app/exchanges/bybit.py): market, limit and spot orders, and the close of a
-- position. Each returns its result with the orders that it placed.
pub mod Outcomes
use text.Mathlib.Text.{◌==◌ as str_eq}
use mochi_position_manager.Prelude.{
  ℕ, ◌/◌, ◌^◌, String, Bool, true, false, ◌&&◌, ◌||◌, not, Option, none, some, List, [], ◌∷◌, ◌==◌,
  if◌then◌else◌,
}
use mochi_position_manager.Prelude.Int.{ℤ, pos, negsuc, pos_part, ◌-ℤ◌}
use mochi_position_manager.Prelude.Table.{string_key, or_text}
use mochi_position_manager.Models.{Side, buy, opposite, FeeSource, OrderResult}
use mochi_position_manager.Session.{Result, ok, raised, value_or}
use mochi_position_manager.Symbols.{base_asset_of}
use mochi_position_manager.ArbExecutor.Sizing.{asked}
use mochi_position_manager.Bybit.{
  linear, spot, Placement, Answer, PositionRow, BybitExchange, mark_price, get_price, round_qty,
  spot_round_qty, round_price,
}
use mochi_position_manager.Bybit.Fills.{Fill, fill_details}
use mochi_position_manager.Bybit.Answers.{
  Outcome, no_result, failure, with_leverage, dry_result, filled_result, answered, market_placement,
}

-- A quantity that is ready is placed, unless this is a dry run; an exception before sends nothing.
abbrev pub placed :
    BybitExchange
    → (dry : ℕ → OrderResult) (placement : ℕ → Placement) (taken : ℕ → Answer → OrderResult)
    → Result ℕ
    → Outcome
placed ex dry placement taken (raised e) = (failure e, [])
placed ex dry placement taken (ok qty) =
    if ex.dry_run
    then (dry qty, [])
    else (answered (taken qty) (ex.client.place_order (placement qty)), placement qty ∷ [])

unfoldable pub market_order :
    BybitExchange → (symbol : String) → Side → (quantity leverage : ℕ) → Outcome
market_order ex symbol side quantity leverage =
    let price = get_price ex symbol in
    placed ex (λ qty. dry_result "DRY_RUN" qty price) (market_placement linear symbol side)
      (λ qty a. filled_result a.order_id qty price (fill_details ex linear symbol a.order_id qty))
      (asked (with_leverage ex symbol leverage) λ u. round_qty ex symbol quantity)

-- A fee in the base coin of a bought quantity, cut to the grid of quantities.
abbrev pub base_fee : ℤ → ℤ
base_fee (pos n) = pos (n / 10 ^ 8)
base_fee (negsuc n) = negsuc (n / 10 ^ 8)

abbrev pub is_zero : ℤ → Bool
is_zero (pos n) = n == 0
is_zero (negsuc n) = false

abbrev pub net_of_fee : (upper : String → String) (base_coin : String) → Side → Fill → Fill
net_of_fee upper base_coin Side.sell f = f
net_of_fee upper base_coin Side.buy f =
    if not (is_zero f.fee) && str_eq (upper f.currency) (upper base_coin)
    then record f { qty = pos_part (pos f.qty -ℤ base_fee f.fee) }
    else f

-- A spot fill is net of a fee in the base coin, and its fee is the venue's if there is a fill.
unfoldable pub spot_result :
    BybitExchange
    → (symbol : String) → Side
    → (order_id : String) (qty price : ℕ) → Option Fill
    → OrderResult
spot_result ex symbol side order_id qty price none = filled_result order_id qty price none
spot_result ex symbol side order_id qty price (some f) =
    let g = net_of_fee ex.upper (base_asset_of ex.lower ex.upper "bybit" symbol) side f in
    record no_result {
      exchange_order_id = order_id;
      filled_qty_base = g.qty;
      avg_price = g.price;
      commission = g.fee;
      commission_asset = g.currency;
      fee_source = FeeSource.exchange;
    }

unfoldable pub spot_market_order : BybitExchange → (symbol : String) → Side → (qty : ℕ) → Outcome
spot_market_order ex symbol side quantity =
    let price = value_or (mark_price ex spot symbol) 0 in
    placed ex (λ qty. dry_result "DRY_RUN" qty price) (market_placement spot symbol side)
      (λ qty a.
        spot_result ex symbol side a.order_id qty price
          (fill_details ex spot symbol a.order_id qty))
      (spot_round_qty ex symbol quantity)

-- The result of a limit order that was taken, or of a dry run: nothing is filled yet.
abbrev pub resting_result : (order_id : String) (price : ℕ) → FeeSource → OrderResult
resting_result order_id price fee_source = record no_result {
  exchange_order_id = order_id;
  avg_price = price;
  fee_source = fee_source;
}

abbrev pub limit_placed :
    BybitExchange
    → (symbol : String) → Side
    → (client_order_id : String) → (qty : ℕ) → Result ℕ
    → Outcome
limit_placed ex symbol side client_order_id qty (raised e) = (failure e, [])
limit_placed ex symbol side client_order_id qty (ok price) =
    let placement = record (market_placement linear symbol side qty) {
      price = some price;
      order_link_id = client_order_id;
    } in
    if ex.dry_run
    then (resting_result (or_text client_order_id "DRY_RUN") price FeeSource.dry_run, [])
    else (
      answered (λ a. resting_result (or_text a.order_id client_order_id) price FeeSource.undeclared)
          (ex.client.place_order placement),
      placement ∷ [],
    )

abbrev pub limit_sized :
    BybitExchange
    → (symbol : String) → Side
    → (price : ℕ) (client_order_id : String) → Result ℕ
    → Outcome
limit_sized ex symbol side price client_order_id (raised e) = (failure e, [])
limit_sized ex symbol side price client_order_id (ok qty) =
    limit_placed ex symbol side client_order_id qty (round_price ex symbol price)

unfoldable pub limit_order :
    BybitExchange
    → (symbol : String) → Side
    → (quantity price : ℕ) (client_order_id : String) (leverage : ℕ) → Outcome
limit_order ex symbol side quantity price client_order_id leverage =
    limit_sized ex symbol side price client_order_id
      (asked (with_leverage ex symbol leverage) λ u. round_qty ex symbol quantity)

abbrev pub close_placement : (symbol : String) → PositionRow → Placement
close_placement symbol p = record (market_placement linear symbol (opposite p.side) p.size) {
  reduce_only = true;
}

abbrev pub and_placed : Placement → Outcome → Outcome
and_placed c (r, cs) = (r, c ∷ cs)

-- The answer to one close: go on if it was taken.
abbrev pub close_answered : Placement → Result Answer → (rest : Outcome) → Outcome
close_answered c (raised e) rest = (failure e, c ∷ [])
close_answered c (ok a) rest =
    if a.ret_code == 0 then and_placed c rest else (failure a.ret_msg, c ∷ [])

unfoldable pub close_rows : BybitExchange → (symbol : String) → List PositionRow → Outcome
close_rows ex symbol [] = (record no_result { exchange_order_id = "CLOSED" }, [])
close_rows ex symbol (p ∷ ps) =
    let rest = close_rows ex symbol ps in
    if p.size == 0 || ex.dry_run
    then rest
    else close_answered (close_placement symbol p)
        (ex.client.place_order (close_placement symbol p)) rest

abbrev pub closed_rows : BybitExchange → (symbol : String) → Result (List PositionRow) → Outcome
closed_rows ex symbol (raised e) = (failure e, [])
closed_rows ex symbol (ok ps) = close_rows ex symbol ps

-- `close_position`.
abbrev pub close_position : BybitExchange → (symbol : String) → Outcome
close_position ex symbol = closed_rows ex symbol (ex.client.positions symbol)
