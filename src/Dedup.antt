-- ===== src/Dedup.antt =====
-- The key under which an alert is stored once (app/dedup.py). The SHA-256 digest, cut to sixteen
-- digits, is a parameter.
pub mod Keys
use Prim.Native.String.{◌++◌ as concat}
use mochi_position_manager.Prelude.{ℕ, String, Option, none, some, if◌then◌else◌}
use mochi_position_manager.Prelude.Table.{string_key}
use mochi_position_manager.Models.{Side, buy, sell}

-- The payload of an alert.
pub record TradingViewAlert : Type 0 where
  pub secret : String
  pub strategy_id : String
  pub action : Side
  pub quantity : Option ℕ
  pub alert_id : Option String
  pub bar_time : Option String
  pub price : Option ℕ

abbrev pub text_of : Option String → String
text_of none = ""
text_of (some t) = t

abbrev pub side_text : Side → String
side_text buy = "buy"
side_text sell = "sell"

abbrev pub parts : (a b c : String) → String
parts a b c = concat a (concat b c)

unfoldable pub idempotency_key : (digest : String → String) → TradingViewAlert → String
idempotency_key digest a =
    if string_key.same (text_of a.alert_id) ""
    then parts a.strategy_id ":hash:"
        (digest (parts (parts a.strategy_id "|" (side_text a.action)) "|" (text_of a.bar_time)))
    else parts a.strategy_id ":" (text_of a.alert_id)
