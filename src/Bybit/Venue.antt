-- ===== src/Bybit/Venue.antt =====
-- Bybit as an adapter of the registry: the interface that the handlers use, filled by the methods of the
-- class. A method that catches its exceptions never raises here.
use mochi_position_manager.Session.{ok}
use mochi_position_manager.Exchange.{Adapter}
use mochi_position_manager.Bybit.{
  BybitExchange, get_price, get_step_size, get_min_notional, get_spot_step_size,
  get_spot_min_notional,
}
use mochi_position_manager.Bybit.Orders.{
  market_order, limit_order, spot_market_order, close_position,
}
use mochi_position_manager.Bybit.Status.{cancel_order, order_status}
use mochi_position_manager.Bybit.Positions.{
  get_position, get_position_detail, get_funding, get_spot_balance,
}

abbrev pub bybit_adapter : BybitExchange → Adapter
bybit_adapter ex = record {
  market_order =
      λ symbol side quantity leverage. ok (market_order ex symbol side quantity leverage).0;
  limit_order = λ symbol side quantity price client_order_id leverage.
      ok (limit_order ex symbol side quantity price client_order_id leverage).0;
  cancel_order = λ symbol order_id. ok (cancel_order ex symbol order_id);
  order_status = λ symbol order_id. ok (order_status ex symbol order_id);
  close_position = λ symbol. ok (close_position ex symbol).0;
  get_position = get_position ex;
  get_price = λ symbol. ok (get_price ex symbol);
  get_step_size = λ symbol. ok (get_step_size ex symbol);
  get_min_notional = λ symbol. ok (get_min_notional ex symbol);
  spot_market_order = λ symbol side qty. ok (spot_market_order ex symbol side qty).0;
  get_spot_balance = λ base_asset. ok (get_spot_balance ex base_asset);
  get_spot_step_size = λ symbol. ok (get_spot_step_size ex symbol);
  get_spot_min_notional = λ symbol. ok (get_spot_min_notional ex symbol);
  get_position_detail = get_position_detail ex;
  get_funding = λ symbol start_ms end_ms. ok (get_funding ex symbol start_ms end_ms);
}
