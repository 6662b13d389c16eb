-- ===== src/Routing/Form.antt =====
-- A strategy from the admin page's form to the router.
use mochi_position_manager.Prelude.{
  ℕ, suc, String, ◌≡◌, ◌≢◌, refl, Bool, true, Option, none, some, [], ◌∷◌, arith,
}
use mochi_position_manager.Prelude.Int.{ℤ, pos}
use mochi_position_manager.Prelude.Table.{lookup, string_key}
use mochi_position_manager.Models.{OrderType}
use mochi_position_manager.Session.{ok}
use mochi_position_manager.Symbols.{is_one_of, supported_base_assets, symbol_for}
use mochi_position_manager.Routing.{StrategyRoute}
use mochi_position_manager.Routing.Build.{
  Texts, venues_in, insert_venue, sort_venues, build_mapping, build_strategy, reload, get_route,
}
use mochi_position_manager.Routing.Stored.{upsert-reload}
use mochi_position_manager.StrategyStore.{ConfigFile, strategy_config, upsert_strategy}
use mochi_position_manager.StrategyStore.Tree.{Fields, boolean, mapping, end, field, get, put}

-- `{ex: _form_bool(form, f"venue_{ex}") for ex in SUPPORTED_EXCHANGES}`.
abbrev pub form_venues : (hyperliquid bybit : Bool) → Fields
form_venues hyperliquid bybit =
    field "hyperliquid" (boolean hyperliquid) (field "bybit" (boolean bybit) end)

-- A position size above zero, or none.
abbrev pub form_size : Option ℕ → Option ℤ
form_size none = none
form_size (some n) = some (pos (suc n))

abbrev pub size_of : Option ℕ → Option ℕ
size_of none = none
size_of (some n) = some (suc n)

abbrev pub form_route :
    (sid base at_hyperliquid at_bybit : String) (sar hyperliquid bybit : Bool)
    → Option ℕ
    → OrderType
    → StrategyRoute
form_route sid base at_hyperliquid at_bybit sar hyperliquid bybit size entry = record {
  strategy_id = sid;
  base_asset = base;
  venues =
      record { exchange = "hyperliquid"; symbol = at_hyperliquid; enabled = hyperliquid }
      ∷ record { exchange = "bybit"; symbol = at_bybit; enabled = bybit }
      ∷ [];
  sar = sar;
  position_size = size_of size;
  entry = entry;
}

module _ (t : Texts) (sid base at_hyperliquid at_bybit : String) (same_strip : t.strip base ≡ base)
    (same_upper : t.upper base ≡ base) (supported : is_one_of base supported_base_assets ≡ true)
    (lower_hyperliquid : t.lower "hyperliquid" ≡ "hyperliquid")
    (lower_bybit : t.lower "bybit" ≡ "bybit") (lower_limit : t.lower (t.strip "limit") ≡ "limit")
    (hyperliquid_symbol : symbol_for t.lower t.upper "hyperliquid" base ≡ ok at_hyperliquid)
    (bybit_symbol : symbol_for t.lower t.upper "bybit" base ≡ ok at_bybit) where
  build-form :
      (sar hyperliquid bybit : Bool) (size : Option ℕ) (entry : OrderType)
      → build_strategy t sid (
          mapping (strategy_config base (form_venues hyperliquid bybit) sar (form_size size) entry))
        ≡ ok (form_route sid base at_hyperliquid at_bybit sar hyperliquid bybit size entry)
  unfolding build_mapping strategy_config get put venues_in insert_venue sort_venues lookup
  build-form sar a b none OrderType.market =
      rw
        (
          same_strip, same_upper, supported, lower_hyperliquid, lower_bybit, hyperliquid_symbol,
          bybit_symbol,
        )
        refl
  build-form sar a b (some n) OrderType.market =
      rw
        (
          same_strip, same_upper, supported, lower_hyperliquid, lower_bybit, hyperliquid_symbol,
          bybit_symbol,
        )
        (ground arith)
  build-form sar a b none OrderType.limit =
      rw
        (
          same_strip, same_upper, supported, lower_hyperliquid, lower_bybit, hyperliquid_symbol,
          bybit_symbol, lower_limit,
        )
        refl
  build-form sar a b (some n) OrderType.limit =
      rw
        (
          same_strip, same_upper, supported, lower_hyperliquid, lower_bybit, hyperliquid_symbol,
          bybit_symbol, lower_limit,
        )
        (ground arith)

  -- What is entered in the form is what the router serves: whatever stood in the file, after the store
  -- saved a supported asset with its two venues, the marker, a size above zero or none and the
  -- mode of entry, and the router reloaded, it has the route with exactly these under the
  -- strategy's id, and under every other id what it had.
  pub upsert-form_route :
      (file : ConfigFile) (other : String) (sar hyperliquid bybit : Bool) (size : Option ℕ)
      (entry : OrderType)
      → sid ≢ other
      → let after =
          reload t
            (upsert_strategy file sid base
              (form_venues hyperliquid bybit)
              sar
              (form_size size)
              entry).1 in
        (get_route sid after
          ≡ some (form_route sid base at_hyperliquid at_bybit sar hyperliquid bybit size entry))
        × (get_route other after ≡ get_route other (reload t file))
  upsert-form_route file other sar hyperliquid bybit size entry h =
      upsert-reload t file sid other base (form_venues hyperliquid bybit) sar (form_size size) entry
        (form_route sid base at_hyperliquid at_bybit sar hyperliquid bybit size entry)
        (build-form sar hyperliquid bybit size entry) h
