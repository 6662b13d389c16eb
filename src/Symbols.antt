-- ===== src/Symbols.antt =====
-- The symbols of an asset at the venues (app/exchanges/symbols.py), and the default pair of legs of a
-- funding arb. The lower-casing and the upper-casing of texts are parameters.
pub mod RoundTrip
use Prim.Native.String.{len, slice, ◌++◌}
use text.Mathlib.Text.{◌==◌ as str_eq}
use mochi_position_manager.Prelude.{
  ℕ, ◌-◌, ◌/◌, ◌^◌, String, Bool, ◌&&◌, not, Option, none, some, List, [], ◌∷◌, any_of, leb,
  if◌then◌else◌,
}
use mochi_position_manager.Prelude.Table.{lookup, string_key}
use mochi_position_manager.Session.{Result, ok, raised}

abbrev pub supported_base_assets : List String
supported_base_assets = "BTC" ∷ "ETH" ∷ "SOL" ∷ "BNB" ∷ "XRP" ∷ "HYPE" ∷ "PURR" ∷ []

abbrev pub exchange_quote_suffix : List (String × String)
exchange_quote_suffix = ("hyperliquid", "") ∷ ("bybit", "USDT") ∷ []

abbrev pub hyperliquid_native_spot : List String
hyperliquid_native_spot = "HYPE" ∷ "PURR" ∷ []

abbrev pub is_one_of : String → List String → Bool
is_one_of t ts = any_of (λ u. str_eq t u) ts

-- The text ends with another one.
abbrev pub ends_with : String → String → Bool
ends_with s t = leb (len t) (len s) && str_eq (slice s (len s - len t) (len s)) t

-- `CANONICAL_STEP_SIZES`, on the grid of quantities: 1e-12.
abbrev pub canonical_step_sizes : List (String × ℕ)
canonical_step_sizes =
    ("BTC", 10 ^ 9)
    ∷ ("ETH", 10 ^ 10)
    ∷ ("SOL", 10 ^ 11)
    ∷ ("BNB", 10 ^ 10)
    ∷ ("XRP", 10 ^ 11)
    ∷ ("HYPE", 10 ^ 10)
    ∷ ("PURR", 10 ^ 12)
    ∷ []

abbrev pub step_or_default : Option ℕ → ℕ
step_or_default none = 10 ^ 9
step_or_default (some step) = step

module _ (lower upper : String → String) where
  -- `canonical_step_size`.
  unfoldable pub canonical_step_size : (base_asset : String) → ℕ
  canonical_step_size base_asset = step_or_default (lookup (upper base_asset) canonical_step_sizes)

  abbrev pub with_suffix : (base : String) → Option String → Result String
  with_suffix base none = raised "unsupported exchange"
  with_suffix base (some suffix) =
      if is_one_of base supported_base_assets
      then ok (base ++ suffix)
      else raised "unsupported base_asset"

  -- `symbol_for`.
  unfoldable pub symbol_for : (exchange base_asset : String) → Result String
  symbol_for exchange base_asset =
      with_suffix (upper base_asset) (lookup (lower exchange) exchange_quote_suffix)

  -- A venue that is not known has no suffix.
  abbrev pub without_suffix : (symbol : String) → Option String → String
  without_suffix symbol none = upper symbol
  without_suffix symbol (some suffix) =
      if not (str_eq suffix "") && ends_with (upper symbol) suffix
      then upper (slice symbol 0 (len symbol - len suffix))
      else upper symbol

  -- `base_asset_of`.
  unfoldable pub base_asset_of : (exchange symbol : String) → String
  base_asset_of exchange symbol =
      without_suffix symbol (lookup (lower exchange) exchange_quote_suffix)

  -- `hyperliquid_spot_token`.
  unfoldable pub hyperliquid_spot_token : (base_asset : String) → String
  hyperliquid_spot_token base_asset =
      if is_one_of (upper base_asset) hyperliquid_native_spot
      then upper base_asset
      else "U" ++ upper base_asset

  -- `spot_symbol_for`.
  unfoldable pub spot_symbol_for : (exchange base_asset : String) → Result String
  spot_symbol_for exchange base_asset =
      if is_one_of (upper base_asset) supported_base_assets
      then (if str_eq (lower exchange) "bybit"
          then ok (upper base_asset ++ "USDT")
          else if str_eq (lower exchange) "hyperliquid"
          then ok (hyperliquid_spot_token base_asset ++ "/USDC")
          else raised "unsupported exchange")
      else raised "unsupported base_asset"
