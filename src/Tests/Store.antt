-- ===== src/Tests/Store.antt =====
-- A strategy that is entered into an empty store.
use package.text.Mathlib.TextEquality.{eq_iff}
use mochi_position_manager.Prelude.{
  String, ◌≡◌, ◌≢◌, refl, Bool, true, false, some, none, List, [], ◌∷◌,
}
use mochi_position_manager.Prelude.Table.{lookup}
use mochi_position_manager.Models.{OrderType}
use mochi_position_manager.Session.{ok}
use mochi_position_manager.Symbols.{symbol_for}
use mochi_position_manager.Routing.Build.{Texts, reload, get_route}
use mochi_position_manager.Routing.Form.{form_venues, form_size, form_route, upsert-form_route}
use mochi_position_manager.StrategyStore.{
  ConfigFile, upsert_strategy, toggle_venue, toggle_entry, strategy_config,
}
use mochi_position_manager.Admin.{has_secret}
use mochi_position_manager.Admin.Strategies.{
  Site, Reply, StrategyForm, AdminRequest, validate_position_size, validate_strategy_id,
  validate_base_asset, save_form, handle, answer, answers, Synced, answers-Synced,
}
use mochi_position_manager.StrategyStore.Tree.{get, put, remove}

abbrev texts : Texts
texts = record { strip = λ s. s; lower = λ s. s; upper = λ s. s; read_number = λ s. none }

other_id : ◌≢◌ {A = String} "trend" "scalp"
other_id e = cc ((eq_iff "trend" "scalp").1 e)

hyperliquid_btc : symbol_for texts.lower texts.upper "hyperliquid" "BTC" ≡ ok "BTC"
unfolding symbol_for lookup
hyperliquid_btc = refl

bybit_btc : symbol_for texts.lower texts.upper "bybit" "BTC" ≡ ok "BTCUSDT"
unfolding symbol_for lookup
bybit_btc = refl

abbrev stored : ConfigFile
stored =
    (upsert_strategy ConfigFile.missing "trend" "BTC" (form_venues false true) true
      (form_size (some 99)) OrderType.limit).1

upsert-form_route_example :
    (get_route "trend" (reload texts stored)
      ≡ some (form_route "trend" "BTC" "BTC" "BTCUSDT" true false true (some 99) OrderType.limit))
    × (get_route "scalp" (reload texts stored)
        ≡ get_route "scalp" (reload texts ConfigFile.missing))
upsert-form_route_example =
    upsert-form_route texts "trend" "BTC" "BTC" "BTCUSDT" refl refl refl refl refl refl
      hyperliquid_btc bybit_btc ConfigFile.missing "scalp" true false true (some 99) OrderType.limit
      other_id

-- A venue of the stored strategy is switched on.
test_toggle : (toggle_venue stored "trend" "hyperliquid").0 ≡ ok (some true)
unfolding toggle_venue upsert_strategy strategy_config get put
test_toggle = refl

-- The mode goes back to the default.
test_entry : (toggle_entry texts.lower stored "trend").0 ≡ ok (some OrderType.market)
unfolding toggle_entry upsert_strategy strategy_config get put remove
test_entry = refl

abbrev form : StrategyForm
form = record {
  strategy_id = "trend";
  base_asset = "BTC";
  hyperliquid = "";
  bybit = "on";
  sar = "";
  position_size = "";
  entry_limit = "on";
}

abbrev is_name : String → Bool
is_name s = true

abbrev empty_site : Site
empty_site = record { file = ConfigFile.missing; routes = reload texts ConfigFile.missing }

abbrev requests : List (String × AdminRequest)
requests =
    ("s", AdminRequest.save_strategy form)
    ∷ ("s", AdminRequest.toggle "trend" "hyperliquid")
    ∷ ("wrong", AdminRequest.delete "trend")
    ∷ []

answers-Synced_example : Synced texts "s" is_name (answers texts "s" is_name requests empty_site)
answers-Synced_example =
    answers-Synced texts "s" is_name requests empty_site (record { agrees = refl })

test_saved :
    (answer texts "s" is_name "s" (AdminRequest.save_strategy form) empty_site).0 ≡ Reply.done
unfolding answer has_secret handle save_form validate_strategy_id validate_base_asset
    validate_position_size
test_saved = refl
