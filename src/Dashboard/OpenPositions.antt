-- ===== src/Dashboard/OpenPositions.antt =====
-- The open positions of the performance page (app/routes/dashboard.py, _performance): the mark, the
-- entry and the profit of each leg.
use text.Mathlib.Text.{◌==◌ as str_eq}
use mochi_position_manager.Prelude.{
  ℕ, String, Bool, true, false, Option, none, some, List, [], ◌∷◌, ◌==◌, if◌then◌else◌,
}
use mochi_position_manager.Prelude.Int.{ℤ, pos, ◌-ℤ◌, ◌*ℤ◌}
use mochi_position_manager.Prelude.Table.{lookup, string_key, pair_key}
use mochi_position_manager.Models.{StrategyPosition, or_number}
use mochi_position_manager.Session.{Result, value_or}
use mochi_position_manager.Config.{Env}
use mochi_position_manager.Routing.{StrategyRoute}
use mochi_position_manager.Reconcile.{Pair, single_owner}
use mochi_position_manager.ArbExecutor.Sizing.{asked}
use mochi_position_manager.Dashboard.Positions.{ActualPosition}
use mochi_position_manager.Dashboard.{venue_flat}

-- The mark of an open leg: the venue's, else its live price, else the last one of the ledger.
abbrev pub live_mark : (last : ℕ) → Result ℕ → ℕ
live_mark last answer = or_number (some (value_or answer 0)) last

abbrev pub mark_at : Option ActualPosition → ℕ
mark_at none = 0
mark_at (some a) = a.mark

unfoldable pub leg_mark : Env → List (Pair × ActualPosition) → Pair → StrategyPosition → ℕ
leg_mark env actual (ex, sym) sp =
    let mark = mark_at (lookup (ex, sym) actual) in
    if mark == 0
    then live_mark sp.last_price
        (asked (env.registry ex "default") λ adapter. adapter.get_price sym)
    else mark

pub data Basis : Type 0 where
  no_entry real shared : Basis

abbrev pub is_owner : (strategy_id : String) → Option String → Bool
is_owner strategy_id none = false
is_owner strategy_id (some owner) = str_eq owner strategy_id

abbrev pub basis_of : (avg : ℕ) (owned : Bool) → Basis
basis_of avg owned = if avg == 0 then no_entry else if owned then real else shared

abbrev pub is_shared : Basis → Bool
is_shared shared = true
is_shared _ = false

pub record OpenPosition : Type 0 where
  pub strategy_id : String
  pub pair : Pair
  pub net_qty_base : ℤ
  pub net_qty_usd : ℤ
  pub avg_entry_price : ℕ
  pub mark : ℕ
  pub unrealized : ℤ
  pub basis : Basis

abbrev pub leg_unrealized : StrategyPosition → (mark : ℕ) → ℤ
leg_unrealized sp mark =
    if sp.avg_entry_price == 0
    then pos 0
    else sp.net_qty_base *ℤ (pos mark -ℤ pos sp.avg_entry_price)

unfoldable pub open_position_of :
    Env
    → List StrategyRoute
    → List (Pair × ActualPosition)
    → String × Pair
    → StrategyPosition
    → OpenPosition
open_position_of env routes actual (strategy_id, pair) sp =
    let mark = leg_mark env actual pair sp in
    record {
      strategy_id = strategy_id;
      pair = pair;
      net_qty_base = sp.net_qty_base;
      net_qty_usd = sp.net_qty_base *ℤ pos mark;
      avg_entry_price = sp.avg_entry_price;
      mark = mark;
      unrealized = leg_unrealized sp mark;
      basis = basis_of sp.avg_entry_price (is_owner strategy_id (single_owner routes pair));
    }

-- The open positions of the ledger.
unfoldable pub open_positions :
    Env
    → List StrategyRoute
    → List (Pair × ActualPosition)
    → List ((String × Pair) × StrategyPosition)
    → List OpenPosition
open_positions env routes actual [] = []
open_positions env routes actual ((key, sp) ∷ rows) =
    let rest = open_positions env routes actual rows in
    if venue_flat sp.net_qty_base sp.net_qty_usd
    then rest
    else open_position_of env routes actual key sp ∷ rest
