-- ===== src/Routing/Build.antt =====
-- The router's routes from the store's tree (app/routing.py, _build_strategy and StrategyRouter). The
-- stripping and the case of texts and the reading of a number are parameters.
use package.text.Mathlib.Text.{◌==◌ as str_eq}
use mochi_position_manager.Prelude.{
  ℕ, String, Bool, true, false, Option, none, some, List, [], ◌∷◌, leb, if◌then◌else◌,
}
use mochi_position_manager.Prelude.Int.{ℤ, pos, negsuc}
use mochi_position_manager.Prelude.Table.{lookup, string_key}
use mochi_position_manager.Models.{OrderType, money_unit, or_none}
use mochi_position_manager.Session.{Result, ok, raised}
use mochi_position_manager.ArbExecutor.Sizing.{asked}
use mochi_position_manager.Symbols.{
  supported_base_assets, exchange_quote_suffix, is_one_of, symbol_for,
}
use mochi_position_manager.Routing.{VenueRoute, StrategyRoute}
use mochi_position_manager.StrategyStore.{ConfigFile, load, strategies_in, value_or}
use mochi_position_manager.StrategyStore.Tree.{
  Value, Fields, null, boolean, number, text, mapping, end, field, get, truthy,
}

-- `_coerce_venue_enabled`.
abbrev pub coerce_venue_enabled : Value → Bool
coerce_venue_enabled (boolean b) = b
coerce_venue_enabled (mapping fs) = truthy (value_or (get "enabled" fs) (boolean true))
coerce_venue_enabled other = false

-- A size that is not above zero is none.
abbrev pub positive : ℤ → Option ℕ
positive (pos n) = or_none n
positive (negsuc n) = none

abbrev pub read_size : Option ℤ → Option ℕ
read_size none = none
read_size (some n) = positive n

-- What the coercions take from Python's texts: `read_number` is `float` of a text, in units of money. A text
-- that `float` reads as nan or as infinite is left out.
pub record Texts : Type 0 where
  pub strip : String → String
  pub lower : String → String
  pub upper : String → String
  pub read_number : String → Option ℤ

abbrev pub and_route : Result StrategyRoute → List StrategyRoute → List StrategyRoute
and_route (ok r) rest = r ∷ rest
and_route (raised e) rest = rest

module _ (t : Texts) where
  -- `_coerce_position_size`; a Boolean counts as 0 or 1.
  abbrev pub coerce_position_size : Option Value → Option ℕ
  coerce_position_size (some (number n)) = positive n
  coerce_position_size (some (text s)) = if str_eq s "" then none else read_size (t.read_number s)
  coerce_position_size (some (boolean true)) = some money_unit
  coerce_position_size other = none

  -- `_coerce_entry`: anything but "limit" is a market entry.
  abbrev pub coerce_entry : Option Value → OrderType
  coerce_entry (some (text s)) =
      if str_eq (t.lower (t.strip s)) "limit" then OrderType.limit else OrderType.market
  coerce_entry other = OrderType.market

  -- `str(cfg["base_asset"])`; the text of another value is no asset.
  abbrev pub base_of : Option Value → Result String
  base_of (some (text s)) = ok (t.upper (t.strip s))
  base_of (some other) = raised "base_asset is not supported"
  base_of none = raised "KeyError"

  abbrev pub checked_base : String → Result String
  checked_base base =
      if is_one_of base supported_base_assets then ok base else raised "base_asset is not supported"

  -- An unknown exchange is left out.
  abbrev pub venue_of :
      (ex base : String)
      → Value
      → Option String
      → Result (List VenueRoute)
      → Result (List VenueRoute)
  venue_of ex base raw none rest = rest
  venue_of ex base raw (some suffix) rest = asked (symbol_for t.lower t.upper ex base) λ symbol.
      asked rest λ venues.
        ok (record { exchange = ex; symbol = symbol; enabled = coerce_venue_enabled raw } ∷ venues)

  unfoldable pub venues_in : (base : String) → Fields → Result (List VenueRoute)
  venues_in base end = ok []
  venues_in base (field name raw rest) =
      let others = venues_in base rest in
      venue_of (t.lower name) base raw (lookup (t.lower name) exchange_quote_suffix) others

  -- The position of an exchange in `SUPPORTED_EXCHANGES`.
  abbrev pub rank : String → ℕ
  rank ex = if str_eq ex "hyperliquid" then 0 else 1

  unfoldable pub insert_venue : VenueRoute → List VenueRoute → List VenueRoute
  insert_venue v [] = v ∷ []
  insert_venue v (x ∷ xs) =
      if leb (rank v.exchange) (rank x.exchange) then v ∷ x ∷ xs else x ∷ insert_venue v xs

  -- The canonical order of the venues.
  unfoldable pub sort_venues : List VenueRoute → List VenueRoute
  sort_venues [] = []
  sort_venues (v ∷ vs) = insert_venue v (sort_venues vs)

  -- `cfg.get("venues") or {}`.
  abbrev pub venues_mapping : Value → Result Fields
  venues_mapping (mapping fs) = ok fs
  venues_mapping other = if truthy other then raised "venues must be a dict" else ok end

  abbrev pub some_venue : List VenueRoute → Result (List VenueRoute)
  some_venue [] = raised "at least one supported venue must be declared"
  some_venue (v ∷ vs) = ok (sort_venues (v ∷ vs))

  abbrev pub base_in : Fields → Result String
  base_in cfg = asked (base_of (get "base_asset" cfg)) checked_base

  abbrev pub venues_cfg : Fields → Result Fields
  venues_cfg cfg = venues_mapping (value_or (get "venues" cfg) null)

  abbrev pub sorted_in : (base : String) → Fields → Result (List VenueRoute)
  sorted_in base fs = asked (venues_in base fs) some_venue

  abbrev pub route_in : (strategy_id base : String) → Fields → List VenueRoute → StrategyRoute
  route_in strategy_id base cfg venues = record {
    strategy_id = strategy_id;
    base_asset = base;
    venues = venues;
    sar = truthy (value_or (get "sar" cfg) (boolean false));
    position_size = coerce_position_size (get "position_size" cfg);
    entry = coerce_entry (get "entry" cfg);
  }

  unfoldable pub build_mapping : (strategy_id : String) → Fields → Result StrategyRoute
  build_mapping strategy_id cfg = asked (base_in cfg) λ base.
      asked (venues_cfg cfg)
        λ fs. asked (sorted_in base fs) λ venues. ok (route_in strategy_id base cfg venues)

  -- `_build_strategy`.
  abbrev pub build_strategy : (strategy_id : String) → Value → Result StrategyRoute
  build_strategy strategy_id (mapping cfg) = build_mapping strategy_id cfg
  build_strategy strategy_id other = raised "entry must be a dict"

  -- `reload`: an entry that is bad is left out.
  unfoldable pub routes_of : Fields → List StrategyRoute
  routes_of end = []
  routes_of (field sid cfg rest) = and_route (build_strategy sid cfg) (routes_of rest)

  abbrev pub reload : ConfigFile → List StrategyRoute
  reload file = routes_of (strategies_in (load file))

-- `StrategyRouter.get`.
unfoldable pub get_route : (strategy_id : String) → List StrategyRoute → Option StrategyRoute
get_route strategy_id [] = none
get_route strategy_id (r ∷ rs) =
    if str_eq r.strategy_id strategy_id then some r else get_route strategy_id rs
