-- ===== src/Tests/Accounts.antt =====
-- The registry of adapters on concrete input: an arb account with its own keys.
use mochi_position_manager.Prelude.{String, false, [], All}
use mochi_position_manager.Session.{Result, ok}
use mochi_position_manager.Accounts.{Secrets, Credentials, bybit, hyperliquid, get}
use mochi_position_manager.Accounts.Isolation.{IsGuarded, get-IsGuarded}

abbrev secrets : Secrets
secrets = record {
  bybit_api_key = "k1";
  bybit_api_secret = "s1";
  bybit_testnet = false;
  bybit_arb_api_key = "k2";
  bybit_arb_api_secret = "s2";
  hyperliquid_private_key = "p1";
  hyperliquid_account_address = "0xa";
  hyperliquid_vault_address = "";
  hyperliquid_testnet = false;
  hyperliquid_arb_private_key = "p2";
  hyperliquid_arb_account_address = "0xb";
  dry_run = false;
}

-- An adapter that is its address.
abbrev address_of : Credentials → Result String
address_of (bybit key secret testnet dry_run) = ok key
address_of (hyperliquid key address vault testnet dry_run) = ok address

abbrev bybit_name : String
bybit_name = "bybit"

get-IsGuarded_example :
    All
      (IsGuarded (λ t. t) (λ a. a) address_of secrets)
      (get (λ t. t) (λ a. a) address_of secrets "hyperliquid" "arb" []).1
get-IsGuarded_example = get-IsGuarded (λ t. t) (λ a. a) address_of secrets "hyperliquid" "arb" [] tt
