-- ===== src/Routing.antt =====
-- The routes of the strategies (app/routing.py): one strategy fans out over its venues.
pub mod Build
pub mod Stored
pub mod Form
use mochi_position_manager.Prelude.{ℕ, String, Bool, Option, List, select, any_of}
use mochi_position_manager.Models.{OrderType}

pub record VenueRoute : Type 0 where
  pub exchange : String
  pub symbol : String
  pub enabled : Bool

-- `position_size` is an amount of money; `none` is paper mode.
pub record StrategyRoute : Type 0 where
  pub strategy_id : String
  pub base_asset : String
  pub venues : List VenueRoute
  pub sar : Bool
  pub position_size : Option ℕ
  pub entry : OrderType

pub enabled_venues : StrategyRoute → List VenueRoute
enabled_venues r = select (λ v. v.enabled) r.venues

-- The property `enabled`.
pub is_enabled : StrategyRoute → Bool
is_enabled r = any_of (λ v. v.enabled) r.venues
