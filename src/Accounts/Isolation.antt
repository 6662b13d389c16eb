-- ===== src/Accounts/Isolation.antt =====
-- The keys and the address of the arb account against those of the directional account
-- (app/config.py, app/exchanges/registry.py).
use mochi_position_manager.Prelude.{
  String, ◌≡◌, ◌≢◌, refl, sym, ap, ◌∙◌, ◌⊎◌, inl, inr, Bool-cases, some, none, [], ◌∷◌, All, Option,
  arith,
}
use mochi_position_manager.Prelude.Table.{
  lookup, upsert, string_key, pair_key, or_text, lookup-upsert_self,
}
use mochi_position_manager.Session.{Result, ok, raised}
use mochi_position_manager.Accounts.{
  Secrets, Credentials, bybit, hyperliquid, is_text, account_credentials, Cache, shares_account,
  construct, make, kept, served, get,
}

-- Credentials of the arb account are made of the arb keys alone, which are not empty, and never of a
-- vault; they exist at the two known venues only.
pub account_credentials_arb :
    (s : Secrets) (name : String) (creds : Credentials)
    → account_credentials s name "arb" ≡ ok creds
    → (name ≡ "bybit")
        × (creds ≡ bybit s.bybit_arb_api_key s.bybit_arb_api_secret s.bybit_testnet s.dry_run)
        × (s.bybit_arb_api_key ≢ "")
        × (s.bybit_arb_api_secret ≢ "")
      ⊎ (name ≡ "hyperliquid")
        × (creds
            ≡ hyperliquid s.hyperliquid_arb_private_key s.hyperliquid_arb_account_address ""
                s.hyperliquid_testnet s.dry_run)
        × (s.hyperliquid_arb_private_key ≢ "")
unfolding account_credentials
account_credentials_arb s name creds h = elim (Bool-cases (is_text name "bybit")) [
  | inl b ↦
      let key = string_key.same_iff s.bybit_arb_api_key "" in
      let secret = string_key.same_iff s.bybit_arb_api_secret "" in
      inl (
        (string_key.same_iff name "bybit").0 b,
        ground (arith, key, secret),
        ground (arith, key, secret),
        ground (arith, key, secret),
      )
  | inr n ↦ elim (Bool-cases (is_text name "hyperliquid")) [
    | inl b ↦
        let key = string_key.same_iff s.hyperliquid_arb_private_key "" in
        inr ((string_key.same_iff name "hyperliquid").0 b, ground (arith, key), ground (arith, key))
    | inr m ↦ ground arith
  ]
]

abbrev answered : {A : Type 0} → Result A → Option A
answered (ok a) = some a
answered (raised e) = none

abbrev result_of : {A : Type 0} → Option A → Result A
result_of (some a) = ok a
result_of none = raised ""

module _ {A : Type 0} (lower : String → String) (address : A → String)
    (build : Credentials → Result A) (s : Secrets) where
  -- A cached adapter that is not of Hyperliquid, or is the default account's, or whose address is not
  -- the directional one of the settings, if that is set; addresses are compared in lower case.
  abbrev pub IsGuarded : (String × String) × A → Type 0
  IsGuarded ((name, account), ex) =
      (name ≢ "hyperliquid")
      ⊎ (account ≡ "default")
      ⊎ (lower s.hyperliquid_account_address ≡ "")
      ⊎ (lower (address ex) ≢ lower s.hyperliquid_account_address)

  construct-IsGuarded :
      (name account : String) (creds : Credentials) (ex : A)
      → construct lower address build s name account creds ≡ ok ex
      → IsGuarded ((name, account), ex)
  unfolding construct shares_account
  construct-IsGuarded name account creds ex h =
      let hl = string_key.same_iff name "hyperliquid" in
      let default = string_key.same_iff account "default" in
      let unset = string_key.same_iff (lower s.hyperliquid_account_address) "" in
      let empty = string_key.same_iff (lower (address ex)) "" in
      let same = string_key.same_iff (lower (address ex)) (lower s.hyperliquid_account_address) in
      ground (arith, hl, default, unset, empty, same)

  make-IsGuarded :
      (name account : String) (ex : A)
      → make lower address build s name account ≡ ok ex
      → IsGuarded ((name, account), ex)
  unfolding make
  make-IsGuarded name account ex h = made (account_credentials s name account) h
    where
      made :
          (r : Result Credentials)
          → elim r as (λ _. Result A) [
            | raised e ↦ raised e
            | ok creds ↦ construct lower address build s name account creds
          ]
            ≡ ok ex
          → IsGuarded ((name, account), ex)
      made (raised e) h = cc h
      made (ok creds) h = construct-IsGuarded name account creds ex h

  upsert-IsGuarded :
      (key : String × String) (ex : A) (cache : Cache A)
      → IsGuarded (key, ex)
      → All IsGuarded cache
      → All IsGuarded (upsert key ex cache)
  unfolding upsert
  upsert-IsGuarded key ex [] g h = (g, tt)
  upsert-IsGuarded key ex (row ∷ rows) g (h, hs) = elim (Bool-cases (pair_key.same key row.0)) [
    | inl e ↦ rw e (g, hs)
    | inr e ↦ rw e (h, upsert-IsGuarded key ex rows g hs)
  ]

  kept-IsGuarded :
      (key : String × String) (r : Result A) (cache : Cache A)
      → ((ex : A) → r ≡ ok ex → IsGuarded (key, ex))
      → All IsGuarded cache
      → All IsGuarded (kept lower address build s key r cache).1
  unfolding kept
  kept-IsGuarded key (raised e) cache g h = h
  kept-IsGuarded key (ok ex) cache g h = upsert-IsGuarded key ex cache (g ex refl) h

  served-IsGuarded :
      (key : String × String) (o : Option A) (cache : Cache A)
      → All IsGuarded cache
      → All IsGuarded (served lower address build s key o cache).1
  unfolding served
  served-IsGuarded key (some ex) cache h = h
  served-IsGuarded key none cache h =
      kept-IsGuarded key (make lower address build s key.0 key.1) cache (make-IsGuarded key.0 key.1)
        h

  -- Where the settings have the directional account's address, no call of the registry puts a Hyperliquid
  -- adapter of another account into the cache that has this address, in lower case. Without that
  -- setting the source checks nothing, though the directional adapter then has its key's address.
  pub get-IsGuarded :
      (name account : String) (cache : Cache A)
      → All IsGuarded cache
      → All IsGuarded (get lower address build s name account cache).1
  unfolding get
  get-IsGuarded name account cache h = served-IsGuarded _ (lookup _ cache) cache h

  kept-again :
      (key : String × String) (r : Result A) (cache cache' : Cache A) (ex : A)
      → kept lower address build s key r cache ≡ (ok ex, cache')
      → lookup key cache' ≡ some ex
  unfolding kept
  kept-again key (raised e) cache cache' ex h = cc (ap (λ t. t.0) h)
  kept-again key (ok new) cache cache' ex h =
      ap (lookup key) (sym (ap (λ t. t.1) h))
      ∙ lookup-upsert_self key new cache
      ∙ ap (λ t. answered t.0) h

  served-again :
      (key : String × String) (o : Option A) (cache cache' : Cache A) (ex : A)
      → lookup key cache ≡ o
      → served lower address build s key o cache ≡ (ok ex, cache')
      → lookup key cache' ≡ some ex
  unfolding served
  served-again key (some old) cache cache' ex e h =
      ap (lookup key) (sym (ap (λ t. t.1) h)) ∙ e ∙ ap (λ t. answered t.0) h
  served-again key none cache cache' ex e h =
      kept-again key (make lower address build s key.0 key.1) cache cache' ex h

  served_cached :
      (key : String × String) (o : Option A) (cache : Cache A) (ex : A)
      → o ≡ some ex
      → served lower address build s key o cache ≡ (ok ex, cache)
  unfolding served
  served_cached key (some old) cache ex e = ap (λ o. (result_of o, cache)) e
  served_cached key none cache ex e = cc

  -- An adapter that the registry has answered is answered again by the next call for the same
  -- account, and the cache does not change.
  pub get_again :
      (name account : String) (cache cache' : Cache A) (ex : A)
      → get lower address build s name account cache ≡ (ok ex, cache')
      → get lower address build s name account cache' ≡ (ok ex, cache')
  unfolding get
  get_again name account cache cache' ex h =
      served_cached _ (lookup _ cache') cache' ex
        (served-again (lower name, lower (or_text account "default")) _ cache cache' ex refl h)
