-- ===== src/ArbRequest.antt =====
-- The request to open a pair (app/schemas_arb.py) and its legs (app/routes/funding_arb.py).
use mochi_position_manager.Prelude.{
  ℕ, String, Bool, true, false, ◌&&◌, not, Option, none, some, List, [], ◌∷◌, map, ◌==◌,
  if◌then◌else◌,
}
use mochi_position_manager.Prelude.Table.{string_key}
use mochi_position_manager.Models.{Side, buy, sell, same_side}
use mochi_position_manager.ArbModels.{Product, spot, perp, is_spot, SizeMode, ArbLeg}
use mochi_position_manager.Session.{Result, ok}
use mochi_position_manager.Exchange.{Registry}
use mochi_position_manager.Config.{Env}
use mochi_position_manager.Symbols.{symbol_for, spot_symbol_for}
use mochi_position_manager.ArbExecutor.Sizing.{asked}

pub record LegSpec : Type 0 where
  pub exchange : String
  pub account : String
  pub product : Product
  pub side : Side
  pub target_qty : Option ℕ

pub record ArbOpenRequest : Type 0 where
  pub idempotency_key : String
  pub asset : String
  pub notional : Option ℕ
  pub size_mode : SizeMode
  pub strategy_tag : Option String
  pub legs : Option (List LegSpec)

abbrev pub has_notional : SizeMode → Option ℕ → Bool
has_notional SizeMode.minimum notional = true
has_notional SizeMode.notional none = false
has_notional SizeMode.notional (some notional) = not (notional == 0)

abbrev pub same_targets : Option ℕ → Option ℕ → Bool
same_targets (some a) (some b) = a == b
same_targets _ _ = true

-- One buy and one sell of the same target.
abbrev pub is_pair : Option (List LegSpec) → Bool
is_pair none = true
is_pair (some (a ∷ b ∷ [])) =
    not (same_side a.side b.side) && same_targets a.target_qty b.target_qty
is_pair (some _) = false

-- `_check_sizing_and_shape`.
unfoldable pub is_valid_request : ArbOpenRequest → Bool
is_valid_request req = has_notional req.size_mode req.notional && is_pair req.legs

-- `_default_combo`.
abbrev pub default_combo : List LegSpec
default_combo =
    record {
      exchange = "hyperliquid";
      account = "arb";
      product = spot;
      side = buy;
      target_qty = none;
    }
    ∷ record {
      exchange = "hyperliquid";
      account = "arb";
      product = perp;
      side = sell;
      target_qty = none;
    }
    ∷ []

-- `_resolve_specs`.
abbrev pub resolve_specs : Option (List LegSpec) → List LegSpec
resolve_specs none = default_combo
resolve_specs (some specs) = specs

-- `_leg_symbol`.
unfoldable pub leg_symbol : Env → (asset : String) → LegSpec → Result String
leg_symbol env asset spec =
    if is_spot spec.product
    then spot_symbol_for env.lower env.upper spec.exchange asset
    else symbol_for env.lower env.upper spec.exchange asset

-- The legs with their symbols.
unfoldable pub resolved : Env → (asset : String) → List LegSpec → Result (List (LegSpec × String))
resolved env asset [] = ok []
resolved env asset (spec ∷ specs) =
    let rest = resolved env asset specs in
    asked (leg_symbol env asset spec) λ symbol. asked rest λ legs. ok ((spec, symbol) ∷ legs)

-- Every leg's account is there, before any order is sent.
unfoldable pub accounts_known : Registry → List LegSpec → Result (Unit {0})
accounts_known registry [] = ok tt
accounts_known registry (spec ∷ specs) =
    let rest = accounts_known registry specs in
    asked (registry spec.exchange spec.account) λ ex. rest

pub record SizedLeg : Type 0 where
  pub exchange : String
  pub account : String
  pub product : Product
  pub symbol : String
  pub side : Side
  pub target_qty : ℕ

abbrev pub sized_leg : ArbLeg → SizedLeg
sized_leg lg = record {
  exchange = lg.exchange;
  account = lg.account;
  product = lg.product;
  symbol = lg.symbol;
  side = lg.side;
  target_qty = lg.target_qty;
}

-- `_sized_from_legs`.
abbrev pub sized_from_legs : List ArbLeg → List SizedLeg
sized_from_legs legs = map sized_leg legs
