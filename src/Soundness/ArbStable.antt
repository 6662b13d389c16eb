-- ===== src/Soundness/ArbStable.antt =====
-- A property of the tables that the writes of the arb handlers do not break.
use mochi_position_manager.Prelude.{◌≡◌, none, some, List}
use mochi_position_manager.Models.{default_risk}
use mochi_position_manager.ArbModels.{ArbPosition, ArbLeg, ArbOrder, ArbFundingEvent}
use mochi_position_manager.Session.{Db}

-- A property that no write of the arb handlers breaks.
pub record ArbStable (P : Db → Type 0) : Type 0 where
  pub positions : (d : Db) (xs : List ArbPosition) → P d → P (record d { arb_positions = xs })
  pub legs : (d : Db) (xs : List ArbLeg) → P d → P (record d { arb_legs = xs })
  pub orders : (d : Db) (xs : List ArbOrder) → P d → P (record d { arb_orders = xs })
  pub events : (d : Db) (xs : List ArbFundingEvent) → P d → P (record d { arb_funding_events = xs })
  pub risk :
      (d : Db) → d.risk_settings ≡ none → P d → P (record d { risk_settings = some default_risk })

-- The directional alerts, orders, ledgers and payments are those of a given state.
abbrev pub SameBook : (start d : Db) → Type 0
SameBook start d =
    (d.alerts ≡ start.alerts)
    × (d.orders ≡ start.orders)
    × (d.positions ≡ start.positions)
    × (d.strategy_positions ≡ start.strategy_positions)
    × (d.funding_events ≡ start.funding_events)

pub book_stable : (start : Db) → ArbStable (SameBook start)
book_stable start = record {
  positions = λ d xs h. h;
  legs = λ d xs h. h;
  orders = λ d xs h. h;
  events = λ d xs h. h;
  risk = λ d e h. h;
}
