-- ===== src/Exchange.antt =====
-- The interface of an exchange adapter (app/exchanges/base.py) and of the registry of adapters
-- (app/exchanges/registry.py). An adapter is a parameter of the model: what a venue answers is not
-- code of the repository. Within one handler it gives the same answer to the same question.
use mochi_position_manager.Prelude.{ℕ, String, Bool, Option, List}
use mochi_position_manager.Prelude.Int.{ℤ}
use mochi_position_manager.Models.{Side, OrderResult, OrderSnapshot}
use mochi_position_manager.Session.{Result, ok, raised}

-- One item of `get_funding`. A missing time or amount is zero.
pub record Payment : Type 0 where
  pub time : ℕ
  pub amount : ℤ

-- `get_position_detail`: `unrealized` is none if the venue does not report it.
pub record PositionDetail : Type 0 where
  pub qty : ℤ
  pub mark : ℕ
  pub entry : ℕ
  pub unrealized : Option ℤ

pub record Adapter : Type 0 where
  pub market_order : (symbol : String) (side : Side) (quantity leverage : ℕ) → Result OrderResult
  pub limit_order :
      (symbol : String) (side : Side) (quantity price : ℕ) (client_order_id : String) (leverage : ℕ)
      → Result OrderResult
  pub cancel_order : (symbol order_id : String) → Result Bool
  pub order_status : (symbol order_id : String) → Result OrderSnapshot
  pub close_position : (symbol : String) → Result OrderResult
  pub get_position : (symbol : String) → Result (ℤ × ℕ)
  pub get_price : (symbol : String) → Result ℕ
  pub get_step_size : (symbol : String) → Result ℕ
  pub get_min_notional : (symbol : String) → Result ℕ
  pub spot_market_order : (symbol : String) (side : Side) (qty : ℕ) → Result OrderResult
  pub get_spot_balance : (base_asset : String) → Result ℕ
  pub get_spot_step_size : (symbol : String) → Result ℕ
  pub get_spot_min_notional : (symbol : String) → Result ℕ
  -- The live position with the venue's own entry and unrealized profit.
  pub get_position_detail : (symbol : String) → Result PositionDetail
  pub get_funding : (symbol : String) (start_ms end_ms : ℕ) → Result (List Payment)

-- The mark of a position, zero if there is none.
abbrev pub mark_in : Result PositionDetail → Result ℕ
mark_in (ok p) = ok p.mark
mark_in (raised e) = raised e

-- `get_registry().get(name, account)`.
abbrev pub Registry : Type 0
Registry = (name account : String) → Result Adapter
