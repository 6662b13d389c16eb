-- ===== src/Executor/Ledger/Agreement.antt =====
-- The aggregate position of a symbol and the strategies' positions in it.
use mochi_position_manager.Prelude.{
  ℕ, String, ◌≡◌, ◌≢◌, refl, sym, ap, ◌∙◌, inl, inr, Bool-cases, true, false, Option, none, some,
  List, arith, if◌then◌else◌,
}
use mochi_position_manager.Prelude.Int.{ℤ, pos, ◌+ℤ◌, +ℤ_zero_left, +ℤ_replace, +ℤ_cancel_right}
use mochi_position_manager.Prelude.Table.{
  lookup, upsert, string_key, pair_key, lookup-upsert_self, lookup-upsert_ne,
}
use mochi_position_manager.Prelude.Totals.{total, weight_at, total-upsert}
use mochi_position_manager.Models.{Side, signed_qty, Position, StrategyPosition}
use mochi_position_manager.Session.{Db}
use mochi_position_manager.Executor.Fills.{fill_math}
use mochi_position_manager.Executor.Ledger.{
  bumped, bump_position, strategy_fill, apply_strategy_fill, filled_db,
}

-- The net of the aggregate row, zero if there is none.
abbrev pub net_of : Option Position → ℤ
net_of none = pos 0
net_of (some row) = row.net_qty_base

abbrev pub held : Option StrategyPosition → ℤ
held none = pos 0
held (some row) = row.net_qty_base

-- A strategy's row counts for its own (exchange, symbol) only.
pub share : String × String → String × (String × String) → StrategyPosition → ℤ
share venue key row = if pair_key.same key.1 venue then row.net_qty_base else pos 0

abbrev pub Agrees : Db → Type 0
Agrees d =
    (venue : String × String)
    → net_of (lookup venue d.positions) ≡ total (share venue) d.strategy_positions

-- On every branch the fill is added to the net.
fill_math-net :
    (old_net : ℤ) (old_avg : ℕ) (signed : ℤ) (qty price : ℕ)
    → (fill_math old_net old_avg signed qty price).0 ≡ old_net +ℤ signed
unfolding fill_math
fill_math-net old_net old_avg signed qty price = ground arith

strategy_fill-net :
    (signed : ℤ) (qty price now : ℕ) (row : Option StrategyPosition)
    → (strategy_fill signed qty price now row).0.net_qty_base ≡ held row +ℤ signed
unfolding strategy_fill
strategy_fill-net signed qty price now none = sym (+ℤ_zero_left signed)
strategy_fill-net signed qty price now (some row) =
    fill_math-net row.net_qty_base row.avg_entry_price signed qty price

bumped-net :
    (signed : ℤ) (price now : ℕ) (row : Option Position)
    → (bumped signed price now row).net_qty_base ≡ net_of row +ℤ signed
bumped-net signed price now none = sym (+ℤ_zero_left signed)
bumped-net signed price now (some row) = refl

share_in :
    (strategy : String) (place venue : String × String) (row : StrategyPosition)
    → pair_key.same place venue ≡ true
    → share venue (strategy, place) row ≡ row.net_qty_base
unfolding share
share_in strategy place venue row e = rw e

share_out :
    (strategy : String) (place venue : String × String) (row : StrategyPosition)
    → pair_key.same place venue ≡ false
    → share venue (strategy, place) row ≡ pos 0
unfolding share
share_out strategy place venue row e = rw e

held_in :
    (strategy : String) (place venue : String × String) (o : Option StrategyPosition)
    → pair_key.same place venue ≡ true
    → weight_at (share venue) (strategy, place) o ≡ held o
held_in strategy place venue none e = refl
held_in strategy place venue (some row) e = share_in strategy place venue row e

held_out :
    (strategy : String) (place venue : String × String) (o : Option StrategyPosition)
    → pair_key.same place venue ≡ false
    → weight_at (share venue) (strategy, place) o ≡ pos 0
held_out strategy place venue none e = refl
held_out strategy place venue (some row) e = share_out strategy place venue row e

-- The strategies' total of a symbol moves by the fill if the fill is in it, and not otherwise.
module _ (strategy : String) (place venue : String × String) (signed : ℤ) (row : StrategyPosition)
    (rows : List ((String × (String × String)) × StrategyPosition)) where
  total_in :
      pair_key.same place venue ≡ true
      → row.net_qty_base ≡ held (lookup (strategy, place) rows) +ℤ signed
      → total (share venue) (upsert (strategy, place) row rows) ≡ total (share venue) rows +ℤ signed
  total_in e n = +ℤ_replace _ _ (held (lookup (strategy, place) rows)) signed (
      ap (◌+ℤ◌ (total (share venue) (upsert (strategy, place) row rows)))
        (sym (held_in strategy place venue (lookup (strategy, place) rows) e))
      ∙ total-upsert (share venue) (strategy, place) row rows
      ∙ ap (◌+ℤ◌ (total (share venue) rows)) (share_in strategy place venue row e ∙ n))

  total_out :
      pair_key.same place venue ≡ false
      → total (share venue) (upsert (strategy, place) row rows) ≡ total (share venue) rows
  total_out e = +ℤ_cancel_right _ _ (pos 0) (
      ap (◌+ℤ◌ (total (share venue) (upsert (strategy, place) row rows)))
        (sym (held_out strategy place venue (lookup (strategy, place) rows) e))
      ∙ total-upsert (share venue) (strategy, place) row rows
      ∙ ap (◌+ℤ◌ (total (share venue) rows)) (share_out strategy place venue row e))

module _ (strategy_id exchange symbol : String) (side : Side) (qty price now : ℕ) (d : Db) where
  pub fill-risk :
      (filled_db strategy_id exchange symbol side qty price now d).0.risk_settings ≡ d.risk_settings
  unfolding filled_db apply_strategy_fill bump_position
  fill-risk = refl

  pub fill-alerts : (filled_db strategy_id exchange symbol side qty price now d).0.alerts ≡ d.alerts
  unfolding filled_db apply_strategy_fill bump_position
  fill-alerts = refl

  pub fill-orders : (filled_db strategy_id exchange symbol side qty price now d).0.orders ≡ d.orders
  unfolding filled_db apply_strategy_fill bump_position
  fill-orders = refl

  -- A fill does not touch the tables of the funding-arb book.
  pub fill-arb :
      let after = (filled_db strategy_id exchange symbol side qty price now d).0 in
      (after.arb_positions ≡ d.arb_positions)
      × (after.arb_legs ≡ d.arb_legs)
      × (after.arb_orders ≡ d.arb_orders)
      × (after.arb_funding_events ≡ d.arb_funding_events)
  unfolding filled_db apply_strategy_fill bump_position
  fill-arb = (refl, refl, refl, refl)

  fill-positions_in :
      (venue : String × String)
      → pair_key.same (exchange, symbol) venue ≡ true
      → net_of
          (lookup venue (filled_db strategy_id exchange symbol side qty price now d).0.positions)
        ≡ net_of (lookup venue d.positions) +ℤ signed_qty side qty
  unfolding filled_db apply_strategy_fill bump_position
  fill-positions_in venue e =
      rw (← ((pair_key.same_iff (exchange, symbol) venue).0 e), lookup-upsert_self)
        (bumped-net (signed_qty side qty) price now (lookup (exchange, symbol) d.positions))

  fill-positions_out :
      (venue : String × String)
      → (exchange, symbol) ≢ venue
      → lookup venue (filled_db strategy_id exchange symbol side qty price now d).0.positions
        ≡ lookup venue d.positions
  unfolding filled_db apply_strategy_fill bump_position
  fill-positions_out venue e = lookup-upsert_ne (exchange, symbol) venue _ d.positions e

  -- A fill of any strategy keeps the two ledgers in agreement, on every symbol.
  pub filled_db-Agrees :
      Agrees d → Agrees (filled_db strategy_id exchange symbol side qty price now d).0
  unfolding filled_db apply_strategy_fill bump_position
  filled_db-Agrees h venue = elim (Bool-cases (pair_key.same (exchange, symbol) venue)) [
    | inl e ↦
        fill-positions_in venue e
        ∙ ap (λ t. t +ℤ signed_qty side qty) (h venue)
        ∙ sym (
            total_in strategy_id (exchange, symbol) venue (signed_qty side qty) _
              d.strategy_positions e
              (strategy_fill-net (signed_qty side qty) qty price now
                (lookup (strategy_id, (exchange, symbol)) d.strategy_positions)))
    | inr e ↦
        ap net_of (
          fill-positions_out venue
            (λ same. cc (e, (pair_key.same_iff (exchange, symbol) venue).1 same)))
        ∙ h venue
        ∙ sym (
            total_out strategy_id (exchange, symbol) venue (signed_qty side qty) _
              d.strategy_positions e)
  ]

  pub filled_db-held :
      held (
        lookup
          (strategy_id, (exchange, symbol))
          (filled_db strategy_id exchange symbol side qty price now d).0.strategy_positions)
      ≡ held (lookup (strategy_id, (exchange, symbol)) d.strategy_positions) +ℤ signed_qty side qty
  unfolding filled_db apply_strategy_fill bump_position
  filled_db-held = rw (lookup-upsert_self {V = StrategyPosition}) (
      strategy_fill-net (signed_qty side qty) qty price now
        (lookup (strategy_id, (exchange, symbol)) d.strategy_positions))

  -- A fill touches no position of another (exchange, symbol), and no strategy's position but the
  -- one of its own strategy there; that one moves by the signed quantity.
  pub filled_db_frame :
      (venue : String × String) (other : String × (String × String))
      → (exchange, symbol) ≢ venue
      → (strategy_id, (exchange, symbol)) ≢ other
      → let d' = (filled_db strategy_id exchange symbol side qty price now d).0 in
        (lookup venue d'.positions ≡ lookup venue d.positions)
        × (lookup other d'.strategy_positions ≡ lookup other d.strategy_positions)
        × (held (lookup (strategy_id, (exchange, symbol)) d'.strategy_positions)
            ≡ held (lookup (strategy_id, (exchange, symbol)) d.strategy_positions)
              +ℤ signed_qty side qty)
  unfolding filled_db apply_strategy_fill bump_position
  filled_db_frame venue other e f = (
    fill-positions_out venue e,
    lookup-upsert_ne (strategy_id, (exchange, symbol)) other _ d.strategy_positions f,
    filled_db-held,
  )
