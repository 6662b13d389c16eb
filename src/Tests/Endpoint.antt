-- ===== src/Tests/Endpoint.antt =====
-- The endpoint and the keys of alerts on concrete input.
use mochi_position_manager.Prelude.{◌≡◌, ◌≢◌, refl, some, none, ◌∷◌}
use mochi_position_manager.Prelude.Table.{string_key}
use mochi_position_manager.Models.{buy, sell}
use mochi_position_manager.Session.{Notice}
use mochi_position_manager.Dedup.{TradingViewAlert, text_of, idempotency_key}
use mochi_position_manager.Webhook.Endpoint.{Site, Request, duplicate, receive}
use mochi_position_manager.Webhook.Endpoint.Gate.{key_of, receive_twice}
use mochi_position_manager.Tests.Data.{env, route, empty_session}

abbrev payload : TradingViewAlert
payload = record {
  secret = "s3cret";
  strategy_id = "trend";
  action = buy;
  quantity = none;
  alert_id = some "1700000000";
  bar_time = none;
  price = none;
}

abbrev next_payload : TradingViewAlert
next_payload = record payload { action = sell; alert_id = some "1700003600" }

abbrev site : Site
site = record { webhook_secret = "s3cret"; digest = λ t. t; routes = λ name. some route; env = env }

abbrev request : Request
request = record { body = "{}"; source_ip = "10.0.0.1"; alert = payload }

given_id : text_of payload.alert_id ≢ ""
given_id e = cc

next_id : text_of next_payload.alert_id ≢ ""
next_id e = cc

test_key : idempotency_key site.digest payload ≡ "trend:1700000000"
unfolding idempotency_key
test_key = refl

receive_twice_example :
    let s' = (receive site request empty_session).1 in
    receive site request s' ≡ (
      duplicate (key_of site request),
      record s' { notices = Notice.duplicate_alert "trend" (key_of site request) ∷ s'.notices },
    )
receive_twice_example =
    receive_twice site request request empty_session (refl, refl) (refl, refl) refl
