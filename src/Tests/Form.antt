-- ===== src/Tests/Form.antt =====
-- A limit order that is fired by hand on a strategy with one venue.
use mochi_position_manager.Prelude.{◌*◌, ◌≡◌, refl, some}
use mochi_position_manager.Prelude.Int.{pos}
use mochi_position_manager.Models.{buy, price_unit}
use mochi_position_manager.Session.{Session, ok}
use mochi_position_manager.Admin.{has_secret}
use mochi_position_manager.Admin.Fire.{FireRequest, FireAnswer, Quantity, fire_limit}
use mochi_position_manager.Admin.Fire.Orders.{FormSends, fire_limit-Fires}
use mochi_position_manager.Tests.Data.{env, route, step, empty_session}

abbrev form : FireRequest
form = record {
  secret = "s";
  strategy_id = "trend";
  side = some buy;
  limit_price = pos (40000 * price_unit);
  quantity = Quantity.number (pos (2 * step));
  key = "manual-1";
  payload = "";
  source_ip = "";
}

abbrev after : Session
after = (fire_limit env "s" (some route) form empty_session).1

fire_limit-Fires_example : FormSends route form (has_secret "s" "s") empty_session after.sent
fire_limit-Fires_example = fire_limit-Fires env "s" route form empty_session

abbrev without_secret : FireRequest
without_secret = record form { secret = "" }

test_denied :
    fire_limit env "s" (some route) without_secret empty_session
    ≡ (ok FireAnswer.denied, empty_session)
unfolding fire_limit has_secret
test_denied = refl
