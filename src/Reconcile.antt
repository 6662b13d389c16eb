-- ===== src/Reconcile.antt =====
-- The reconciliation of the strategies' ledger (app/reconcile.py): which strategies own a pair, and the
-- sync to the venues' live positions. Audit has the audit, Backfill the backfill of entries.
pub mod Audit
pub mod Backfill
pub mod History
pub mod Sync
use Prim.Native.String.{◌++◌ as text_append}
use text.Mathlib.Text.{◌==◌ as str_eq}
use mochi_position_manager.Prelude.{
  ℕ, ◌+◌, ◌*◌, String, Bool, ◌&&◌, Option, none, some, List, [], ◌∷◌, ◌++◌, length, leb,
  if◌then◌else◌,
}
use mochi_position_manager.Prelude.Int.{ℤ, pos, ◌*ℤ◌}
use mochi_position_manager.Prelude.Table.{lookup, upsert, string_key, pair_key}
use mochi_position_manager.Models.{StrategyPosition}
use mochi_position_manager.Session.{Db, Result, ok, raised, Action, modify, session_scope}
use mochi_position_manager.Config.{Env}
use mochi_position_manager.Routing.{VenueRoute, StrategyRoute}
use mochi_position_manager.Symbols.{symbol_for, base_asset_of, ends_with}
use mochi_position_manager.ArbExecutor.Sizing.{asked}

abbrev pub Pair : Type 0
Pair = String × String

-- `_oracle_symbol`: the ticker of the price oracle, Bybit.
abbrev pub or_usdt : String → Result String → String
or_usdt symbol (ok t) = t
or_usdt symbol (raised e) = if ends_with symbol "USDT" then symbol else text_append symbol "USDT"

unfoldable pub oracle_symbol : Env → (exchange symbol : String) → String
oracle_symbol env exchange symbol =
    or_usdt symbol
      (symbol_for env.lower env.upper "bybit" (base_asset_of env.lower env.upper exchange symbol))

-- The strategies of a pair in the order of the router: one entry of `venue_claims`.
abbrev pub same_venue : Pair → VenueRoute → Bool
same_venue (exchange, symbol) v = str_eq v.exchange exchange && str_eq v.symbol symbol

unfoldable pub claims_of : Pair → (strategy_id : String) → List VenueRoute → List String
claims_of pair strategy_id [] = []
claims_of pair strategy_id (v ∷ vs) =
    if same_venue pair v
    then strategy_id ∷ claims_of pair strategy_id vs
    else claims_of pair strategy_id vs

unfoldable pub venue_claims : List StrategyRoute → Pair → List String
venue_claims [] pair = []
venue_claims (route ∷ routes) pair =
    claims_of pair route.strategy_id route.venues ++ venue_claims routes pair

-- `single_owner_map`, at one pair.
abbrev pub sole : List String → Option String
sole (owner ∷ []) = some owner
sole _ = none

abbrev pub single_owner : List StrategyRoute → Pair → Option String
single_owner routes pair = sole (venue_claims routes pair)

-- The row of `sync_strategy_positions`; the profit of an old row stays.
abbrev pub synced_row :
    (now : ℕ) (live : ℤ) (price : ℕ) → Option StrategyPosition → StrategyPosition
synced_row now live price none = record {
  net_qty_base = live;
  net_qty_usd = live *ℤ pos price;
  last_price = price;
  avg_entry_price = price;
  realized_pnl = pos 0;
  updated_at = now;
}
synced_row now live price (some row) = record {
  net_qty_base = live;
  net_qty_usd = live *ℤ pos price;
  last_price = price;
  avg_entry_price = price;
  realized_pnl = row.realized_pnl;
  updated_at = now;
}

abbrev pub store_synced :
    (now : ℕ) (strategy_id exchange symbol : String) → Result (ℤ × ℕ) → Db → Db
store_synced now strategy_id exchange symbol (raised e) d = d
store_synced now strategy_id exchange symbol (ok (live, price)) d = record d {
  strategy_positions =
      upsert (strategy_id, (exchange, symbol))
        (synced_row now live price (lookup (strategy_id, (exchange, symbol)) d.strategy_positions))
        d.strategy_positions;
}

-- One venue of a strategy: a pair that several strategies trade is left out, and so is one whose
-- venue does not answer.
unfoldable pub sync_venue : Env → List StrategyRoute → (strategy_id : String) → VenueRoute → Db → Db
sync_venue env routes strategy_id v d =
    if leb 2 (length (venue_claims routes (v.exchange, v.symbol)))
    then d
    else store_synced env.now strategy_id v.exchange v.symbol
        (asked (env.registry v.exchange "default") λ ex. ex.get_position v.symbol) d

unfoldable pub sync_venues :
    Env → List StrategyRoute → (strategy_id : String) → List VenueRoute → Db → Db
sync_venues env routes strategy_id [] d = d
sync_venues env routes strategy_id (v ∷ vs) d =
    sync_venues env routes strategy_id vs (sync_venue env routes strategy_id v d)

unfoldable pub sync_routes : Env → (all routes : List StrategyRoute) → Db → Db
sync_routes env all [] d = d
sync_routes env all (route ∷ routes) d =
    sync_routes env all routes (sync_venues env all route.strategy_id route.venues d)

-- `sync_strategy_positions`.
unfoldable pub sync_strategy_positions : Env → List StrategyRoute → Action (Unit {0})
sync_strategy_positions env routes = session_scope (modify (sync_routes env routes routes))
