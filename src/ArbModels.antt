-- ===== src/ArbModels.antt =====
-- The rows of the funding-arb book (app/models.py). They are tables of their own: no row of theirs is
-- an order, a position or an alert of the directional book.
use mochi_position_manager.Prelude.{ℕ, String, Bool, true, false, Option, List}
use mochi_position_manager.Prelude.Int.{ℤ}
use mochi_position_manager.Models.{Side}

-- The column `product`.
pub data Product : Type 0 where
  spot perp : Product

abbrev pub is_spot : Product → Bool
is_spot spot = true
is_spot perp = false

-- `ArbPosition.status`; `opened` is the text "open".
pub data ArbStatus : Type 0 where
  opening opened closing closed error : ArbStatus

-- `ArbLeg.status`, and the status of an `ArbOrder`, which is one of the first four.
pub data LegStatus : Type 0 where
  pending success retrying dead error closed : LegStatus

abbrev pub is_filled : LegStatus → Bool
is_filled LegStatus.success = true
is_filled _ = false

abbrev pub is_closed : LegStatus → Bool
is_closed LegStatus.closed = true
is_closed _ = false

abbrev pub is_retried : LegStatus → Bool
is_retried LegStatus.retrying = true
is_retried _ = false

-- The entry mode of the pair's size: `size_mode`.
pub data SizeMode : Type 0 where
  notional minimum : SizeMode

-- Why a pair has no size: the messages of `SizingError`.
pub data SizingError : Type 0 where
  no_grid no_notional : SizingError
  no_reference_price : (exchange symbol : String) → SizingError
  below_coarse_step : (notional coarse ref_price : ℕ) → SizingError
  below_venue_minimum :
      (exchange : String) (product : Product) (symbol : String) (qty price min_notional : ℕ)
      → SizingError

-- Why a leg was not closed: a venue's refusal, or an exception.
pub data CloseError : Type 0 where
  refused : (exchange : String) (product : Product) (symbol why : String) → CloseError
  failed : (leg_id : ℕ) (why : String) → CloseError

-- `error_message` of a pair or a leg.
pub data ArbMessage : Type 0 where
  empty hedge_not_placed : ArbMessage
  text : String → ArbMessage
  unhedgeable : (first_fill : ℕ) (exchange symbol : String) → ArbMessage
  unfilled : List (String × (Product × LegStatus)) → ArbMessage
  unclosed : List CloseError → ArbMessage
  unsized : SizingError → ArbMessage

pub record ArbPosition : Type 0 where
  pub id : ℕ
  pub idempotency_key : String
  pub asset : String
  pub strategy_tag : Option String
  pub notional_target : Option ℕ
  pub status : ArbStatus
  pub realized_pnl : ℤ
  pub error_message : ArbMessage
  pub opened_at : Option ℕ
  pub closed_at : Option ℕ
  pub created_at : ℕ
  pub updated_at : ℕ

pub record ArbLeg : Type 0 where
  pub id : ℕ
  pub arb_id : ℕ
  pub exchange : String
  pub account : String
  pub product : Product
  pub symbol : String
  pub side : Side
  pub target_qty : ℕ
  pub filled_qty : ℕ
  pub avg_fill : ℕ
  pub ref_price : ℕ
  pub grid_step : ℕ
  pub commission : ℤ
  pub commission_asset : String
  pub funding : ℤ
  pub realized_pnl : ℤ
  pub status : LegStatus
  pub error_message : ArbMessage
  pub created_at : ℕ
  pub updated_at : ℕ

pub record ArbOrder : Type 0 where
  pub id : ℕ
  pub arb_leg_id : ℕ
  pub exchange : String
  pub account : String
  pub product : Product
  pub symbol : String
  pub side : Side
  pub qty_base : ℕ
  pub avg_fill : Option ℕ
  pub commission : ℤ
  pub commission_asset : String
  pub status : LegStatus
  pub attempts : ℕ
  pub exchange_order_id : String
  pub error_message : ArbMessage
  pub next_retry_at : Option ℕ
  pub created_at : ℕ
  pub updated_at : ℕ

pub record ArbFundingEvent : Type 0 where
  pub id : ℕ
  pub arb_id : Option ℕ
  pub exchange : String
  pub account : String
  pub symbol : String
  pub funding_time : ℕ
  pub amount : ℤ
  pub created_at : ℕ

-- The directional funding payments.
pub record FundingEvent : Type 0 where
  pub id : ℕ
  pub exchange : String
  pub symbol : String
  pub funding_time : ℕ
  pub amount : ℤ
  pub created_at : ℕ
