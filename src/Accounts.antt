-- ===== src/Accounts.antt =====
-- The accounts at the venues: the credentials of an (exchange, account) pair
-- (`Settings.account_credentials` of app/config.py) and the registry of adapters
-- (app/exchanges/registry.py). The lower-casing of texts and the adapters' constructor are
-- parameters; names are compared after lower-casing.
pub mod Isolation
use mochi_position_manager.Prelude.{
  String, Bool, false, ◌&&◌, not, Option, none, some, List, if◌then◌else◌,
}
use mochi_position_manager.Prelude.Table.{lookup, upsert, string_key, pair_key, or_text}
use mochi_position_manager.Session.{Result, ok, raised}

-- The settings that hold credentials.
pub record Secrets : Type 0 where
  pub bybit_api_key : String
  pub bybit_api_secret : String
  pub bybit_testnet : Bool
  pub bybit_arb_api_key : String
  pub bybit_arb_api_secret : String
  pub hyperliquid_private_key : String
  pub hyperliquid_account_address : String
  pub hyperliquid_vault_address : String
  pub hyperliquid_testnet : Bool
  pub hyperliquid_arb_private_key : String
  pub hyperliquid_arb_account_address : String
  pub dry_run : Bool

-- The dictionary that the adapter's constructor takes.
pub data Credentials : Type 0 where
  bybit : (api_key api_secret : String) (testnet dry_run : Bool) → Credentials
  hyperliquid :
      (private_key account_address vault_address : String) (testnet dry_run : Bool) → Credentials

abbrev pub is_text : String → String → Bool
is_text a b = string_key.same a b

-- A non-default account with an empty key is refused.
abbrev pub required : Bool → Credentials → Result Credentials
required present creds = if present then ok creds else raised "Missing credentials"

abbrev pub bybit_credentials : Secrets → (acct : String) → Result Credentials
bybit_credentials s acct =
    if is_text acct "default"
    then ok (bybit s.bybit_api_key s.bybit_api_secret s.bybit_testnet s.dry_run)
    else if is_text acct "arb"
    then required (not (is_text s.bybit_arb_api_key "") && not (is_text s.bybit_arb_api_secret ""))
        (bybit s.bybit_arb_api_key s.bybit_arb_api_secret s.bybit_testnet s.dry_run)
    else raised "Unknown account"

abbrev pub hyperliquid_credentials : Secrets → (acct : String) → Result Credentials
hyperliquid_credentials s acct =
    if is_text acct "default"
    then ok (
        hyperliquid s.hyperliquid_private_key s.hyperliquid_account_address
          s.hyperliquid_vault_address s.hyperliquid_testnet s.dry_run)
    else if is_text acct "arb"
    then required (not (is_text s.hyperliquid_arb_private_key "")) (
        hyperliquid s.hyperliquid_arb_private_key s.hyperliquid_arb_account_address ""
          s.hyperliquid_testnet s.dry_run)
    else raised "Unknown account"

-- `name` and `account` are lower-case.
unfoldable pub account_credentials : Secrets → (name account : String) → Result Credentials
account_credentials s name account =
    let acct = or_text account "default" in
    if is_text name "bybit"
    then bybit_credentials s acct
    else if is_text name "hyperliquid"
    then hyperliquid_credentials s acct
    else raised "Unknown exchange"

-- The registry's `_cache`.
abbrev pub Cache : Type 0 → Type 0
Cache A = List ((String × String) × A)

module _ {A : Type 0} (lower : String → String) (address : A → String)
    (build : Credentials → Result A) (s : Secrets) where
  -- `_guard_hyperliquid_account`: whether the adapter is refused.
  unfoldable pub shares_account : (account : String) → A → Bool
  shares_account account ex =
      let directional = lower s.hyperliquid_account_address in
      let resolved = lower (address ex) in
      if is_text account "default"
      then false
      else not (is_text directional "")
        && (not (is_text resolved "") && is_text resolved directional)

  -- A new adapter, after the guard of its venue.
  unfoldable pub construct : (name account : String) → Credentials → Result A
  construct name account creds = elim (build creds) [
    | raised e ↦ raised e
    | ok ex ↦
        if is_text name "hyperliquid" && shares_account account ex
        then raised "Hyperliquid arb account is the directional account"
        else ok ex
  ]

  unfoldable pub make : (name account : String) → Result A
  make name account = elim (account_credentials s name account) [
    | raised e ↦ raised e
    | ok creds ↦ construct name account creds
  ]

  -- A new adapter is cached; a failure is not.
  unfoldable pub kept : String × String → Result A → Cache A → Result A × Cache A
  kept key (raised e) cache = (raised e, cache)
  kept key (ok ex) cache = (ok ex, upsert key ex cache)

  unfoldable pub served : String × String → Option A → Cache A → Result A × Cache A
  served key (some ex) cache = (ok ex, cache)
  served key none cache = kept key (make key.0 key.1) cache

  -- `ExchangeRegistry.get`: the adapter, and the cache after the call.
  unfoldable pub get : (name account : String) → Cache A → Result A × Cache A
  get name account cache =
      let key : String × String = (lower name, lower (or_text account "default")) in
      served key (lookup key cache) cache
