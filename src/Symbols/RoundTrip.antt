-- ===== src/Symbols/RoundTrip.antt =====
-- The asset of a symbol, and the symbol of an asset.
use Prim.Native.String.{◌++◌}
use text.Mathlib.Text.{◌==◌ as str_eq}
use text.Mathlib.TextEquality.{eq_iff}
use text.Mathlib.TextLemmas.{append-nil}
use mochi_position_manager.Prelude.{
  String, ◌≡◌, ◌⊎◌, refl, sym, ap, ◌∙◌, subst, inl, inr, Bool-cases, Option-cases, true, some,
  arith, if◌then◌else◌,
}
use mochi_position_manager.Prelude.Table.{lookup, string_key}
use mochi_position_manager.Session.{ok, raised, value_or}
use mochi_position_manager.ArbExecutor.Closing.{base_of, base_asset_of_leg}
use mochi_position_manager.Symbols.{
  with_suffix, symbol_for, without_suffix, base_asset_of, spot_symbol_for, hyperliquid_spot_token,
  is_one_of, supported_base_assets, exchange_quote_suffix, hyperliquid_native_spot,
}

suffix_cases :
    (x suffix : String)
    → lookup x exchange_quote_suffix ≡ some suffix
    → (suffix ≡ "") ⊎ (suffix ≡ "USDT")
unfolding lookup
suffix_cases x suffix h = ground arith

-- A property of every supported asset.
supported_cases :
    (P : String → Type 0) (b : String)
    → is_one_of b supported_base_assets ≡ true
    → P "BTC"
    → P "ETH"
    → P "SOL"
    → P "BNB"
    → P "XRP"
    → P "HYPE"
    → P "PURR"
    → P b
supported_cases P b h p1 p2 p3 p4 p5 p6 p7 = elim (Bool-cases (str_eq b "BTC")) [
  | inl e ↦ subst P (sym ((eq_iff b "BTC").0 e)) p1
  | inr n1 ↦ elim (Bool-cases (str_eq b "ETH")) [
    | inl e ↦ subst P (sym ((eq_iff b "ETH").0 e)) p2
    | inr n2 ↦ elim (Bool-cases (str_eq b "SOL")) [
      | inl e ↦ subst P (sym ((eq_iff b "SOL").0 e)) p3
      | inr n3 ↦ elim (Bool-cases (str_eq b "BNB")) [
        | inl e ↦ subst P (sym ((eq_iff b "BNB").0 e)) p4
        | inr n4 ↦ elim (Bool-cases (str_eq b "XRP")) [
          | inl e ↦ subst P (sym ((eq_iff b "XRP").0 e)) p5
          | inr n5 ↦ elim (Bool-cases (str_eq b "HYPE")) [
            | inl e ↦ subst P (sym ((eq_iff b "HYPE").0 e)) p6
            | inr n6 ↦ subst P (sym ((eq_iff b "PURR").0 (ground arith))) p7
          ]
        ]
      ]
    ]
  ]
]

module _ (lower upper : String → String) where
  -- The venue's suffix is taken off again.
  abbrev Stripped : String → Type 0
  Stripped b =
      upper (b ++ "USDT") ≡ b ++ "USDT"
      → upper b ≡ b
      → without_suffix lower upper (b ++ "USDT") (some "USDT") ≡ b

  stripped : (b : String) → is_one_of b supported_base_assets ≡ true → Stripped b
  stripped b h =
      supported_cases Stripped b h (λ u k. rw (u, k) refl) (λ u k. rw (u, k) refl)
        (λ u k. rw (u, k) refl) (λ u k. rw (u, k) refl) (λ u k. rw (u, k) refl)
        (λ u k. rw (u, k) refl) (λ u k. rw (u, k) refl)

  known :
      (b symbol suffix : String)
      → with_suffix lower upper b (some suffix) ≡ ok symbol
      → (is_one_of b supported_base_assets ≡ true) × (b ++ suffix ≡ symbol)
  known b symbol suffix h = elim (Bool-cases (is_one_of b supported_base_assets)) [
    | inl e ↦ let r : ok (b ++ suffix) ≡ ok symbol = rw e at h in (e, ap (λ v. value_or v "") r)
    | inr e ↦ let r : raised "unsupported base_asset" ≡ ok symbol = rw e at h in ground arith
  ]

  -- At a venue that is known, the asset whose symbol was resolved is recovered from it, in upper
  -- case. Upper-casing is idempotent, goes through the pieces of a text, and leaves "USDT" alone.
  pub base_asset_of-symbol_for :
      (exchange base_asset symbol : String)
      → ((s t : String) → upper (s ++ t) ≡ upper s ++ upper t)
      → ((s : String) → upper (upper s) ≡ upper s)
      → upper "USDT" ≡ "USDT"
      → symbol_for lower upper exchange base_asset ≡ ok symbol
      → base_asset_of lower upper exchange symbol ≡ upper base_asset
  unfolding symbol_for base_asset_of
  base_asset_of-symbol_for exchange base_asset symbol dist idem usdt h =
      let b = upper base_asset in
      elim (Option-cases (lookup (lower exchange) exchange_quote_suffix)) [
        | inl n ↦ let r : raised "unsupported exchange" ≡ ok symbol = rw n at h in ground arith
        | inr (suffix, e) ↦
            let (k, j) = known b symbol suffix (rw e at h) in
            elim (suffix_cases (lower exchange) suffix e) [
              | inl e' ↦
                  let same : symbol ≡ b = sym j ∙ ap (λ t. b ++ t) e' ∙ append-nil b in
                  rw (e, e', same, idem base_asset) refl
              | inr e' ↦
                  let whole : symbol ≡ b ++ "USDT" = sym j ∙ ap (λ t. b ++ t) e' in
                  rw (e, e', whole)
                    (stripped b k (dist b "USDT" ∙ rw (idem base_asset, usdt) refl)
                      (idem base_asset))
            ]
      ]

spot_token : String → String
spot_token b = if is_one_of b hyperliquid_native_spot then b else "U" ++ b

recovered : (b : String) → is_one_of b supported_base_assets ≡ true → base_of (b ++ "USDT") ≡ b
unfolding base_of
recovered b h =
    supported_cases (λ b. base_of (b ++ "USDT") ≡ b) b h refl refl refl refl refl refl refl

unwrapped :
    (b : String) → is_one_of b supported_base_assets ≡ true → base_of (spot_token b ++ "/USDC") ≡ b
unfolding base_of spot_token
unwrapped b h =
    supported_cases (λ b. base_of (spot_token b ++ "/USDC") ≡ b) b h refl refl refl refl refl refl
      refl

upper_token :
    (upper : String → String) (base_asset : String)
    → ((s t : String) → upper (s ++ t) ≡ upper s ++ upper t)
    → ((s : String) → upper (upper s) ≡ upper s)
    → upper "U" ≡ "U"
    → upper (spot_token (upper base_asset)) ≡ spot_token (upper base_asset)
unfolding spot_token
upper_token upper base_asset dist idem u =
    elim (Bool-cases (is_one_of (upper base_asset) hyperliquid_native_spot)) [
      | inl e ↦ rw e (idem base_asset)
      | inr e ↦ rw e (dist "U" (upper base_asset) ∙ rw (u, idem base_asset) refl)
    ]

-- The base asset that the close of a spot leg asks the balance of is the asset that the leg's symbol
-- was made of, at both venues. Upper-casing is idempotent, goes through the pieces of a text, and
-- leaves the venues' own letters alone.
pub base_asset_of_leg-spot_symbol_for :
    (lower upper : String → String) (exchange base_asset symbol : String)
    → ((s t : String) → upper (s ++ t) ≡ upper s ++ upper t)
    → ((s : String) → upper (upper s) ≡ upper s)
    → upper "USDT" ≡ "USDT"
    → upper "/USDC" ≡ "/USDC"
    → upper "U" ≡ "U"
    → spot_symbol_for lower upper exchange base_asset ≡ ok symbol
    → base_asset_of_leg upper symbol ≡ upper base_asset
unfolding spot_symbol_for hyperliquid_spot_token spot_token
base_asset_of_leg-spot_symbol_for lower upper exchange base_asset symbol dist idem usdt usdc u h =
    let b = upper base_asset in
    elim (Bool-cases (is_one_of b supported_base_assets)) [
      | inr n ↦ let r : raised "unsupported base_asset" ≡ ok symbol = rw n at h in ground arith
      | inl k ↦ elim (Bool-cases (str_eq (lower exchange) "bybit")) [
        | inl e ↦
            let r : ok (b ++ "USDT") ≡ ok symbol = rw (k, e) at h in
            let whole : upper (b ++ "USDT") ≡ b ++ "USDT" =
              dist b "USDT" ∙ rw (idem base_asset, usdt) refl in
            ap (λ t. base_of (upper t)) (sym (ap (λ v. value_or v "") r))
            ∙ ap base_of whole
            ∙ recovered b k
        | inr n ↦ elim (Bool-cases (str_eq (lower exchange) "hyperliquid")) [
          | inl e ↦
              let r : ok (spot_token b ++ "/USDC") ≡ ok symbol = rw (k, n, e) at h in
              let whole : upper (spot_token b ++ "/USDC") ≡ spot_token b ++ "/USDC" =
                dist (spot_token b) "/USDC"
                ∙ rw (usdc, upper_token upper base_asset dist idem u) refl in
              ap (λ t. base_of (upper t)) (sym (ap (λ v. value_or v "") r))
              ∙ ap base_of whole
              ∙ unwrapped b k
          | inr n' ↦
              let r : raised "unsupported exchange" ≡ ok symbol = rw (k, n, n') at h in ground arith
        ]
      ]
    ]
