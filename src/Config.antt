-- ===== src/Config.antt =====
-- The settings that the handlers read (app/config.py), and the environment of a handler: the
-- registry of adapters, the settings, the clock, and the hash behind the client order ids.
use mochi_position_manager.Prelude.{ℕ, String}
use mochi_position_manager.Exchange.{Registry}

pub record Settings : Type 0 where
  pub retry_max_attempts : ℕ
  pub retry_base_delay_sec : ℕ
  pub retry_max_delay_sec : ℕ
  pub limit_stale_alert_hours : ℕ

abbrev pub default_settings : Settings
default_settings = record {
  retry_max_attempts = 4;
  retry_base_delay_sec = 2;
  retry_max_delay_sec = 60;
  limit_stale_alert_hours = 24;
}

-- `client_order_id` is `make_client_order_id` of app/executor.py, a SHA-256 of its arguments, and
-- `lower` and `upper` are the lower-casing and the upper-casing of texts.
pub record Env : Type 0 where
  pub registry : Registry
  pub settings : Settings
  pub now : ℕ
  pub client_order_id : (alert_id : ℕ) (exchange symbol : String) → String
  pub upper : String → String
  pub lower : String → String
