-- ===== src/Dashboard/Performance/Balance.antt =====
-- The rows of the performance page's breakdown and its headline.
use mochi_position_manager.Prelude.{
  String, ◌≡◌, refl, sym, ap, ◌∙◌, inl, inr, Bool-cases, List, [], ◌∷◌,
}
use mochi_position_manager.Prelude.Int.{ℤ, pos, ◌+ℤ◌, ◌-ℤ◌, int_laws}
use mochi_position_manager.Prelude.Table.{string_key, pair_key}
use mochi_position_manager.Prelude.Totals.{total}
use mochi_position_manager.Models.{Order, StrategyPosition}
use mochi_position_manager.ArbModels.{FundingEvent}
use mochi_position_manager.Session.{Db}
use mochi_position_manager.Config.{Env}
use mochi_position_manager.Routing.{StrategyRoute}
use mochi_position_manager.Reconcile.{Pair}
use mochi_position_manager.Dashboard.{venue_flat}
use mochi_position_manager.Dashboard.Performance.{
  funding_total, row_total, finalize, sum_rows, totals_of, no_tally, tally, performance,
}
use mochi_position_manager.Dashboard.Positions.{ActualPosition, actual_positions}
use mochi_position_manager.Dashboard.Tally.{
  PnlRow, no_row, Store, add_row, Tally, leg_amount, book_legs, order_amount, book_orders,
  book_funding,
}
use mochi_position_manager.Dashboard.Performance.Additive.{
  Additive, sum-add_row, sum-finalize, book_orders-Even, book_legs-Even, sum-book_legs,
  sum-book_orders,
}

-- Funding leaves the strategies' rows, and adds its sum to the exchanges'.
strat-book_funding : (es : List FundingEvent) (t : Tally) → (book_funding es t).strat ≡ t.strat
unfolding book_funding
strat-book_funding [] t = refl
strat-book_funding (e ∷ es) t =
    strat-book_funding es
      (record t { exch = add_row e.exchange (record no_row { funding = e.amount }) t.exch })

realized-Additive : Additive (λ r. r.realized)
realized-Additive = record { zero = refl; adds = λ r s. refl; plain = λ r. refl }

funding-Additive : Additive (λ r. r.funding)
funding-Additive = record { zero = refl; adds = λ r s. refl; plain = λ r. refl }

row_total-Additive : Additive row_total
row_total-Additive = record {
  zero = omega int_laws;
  adds = λ r s. omega int_laws;
  plain = λ r. refl;
}

exch-book_funding :
    (es : List FundingEvent) (t : Tally)
    → sum_rows row_total (book_funding es t).exch ≡ sum_rows row_total t.exch +ℤ funding_total es
unfolding book_funding funding_total
exch-book_funding [] t = omega int_laws
exch-book_funding (e ∷ es) t =
    let amount : PnlRow = record no_row { funding = e.amount } in
    rw
      (
        exch-book_funding es (record t { exch = add_row e.exchange amount t.exch }),
        sum-add_row row_total row_total-Additive e.exchange amount t.exch,
      )
      (omega int_laws)

-- The sum of the totals is the total of the sums.
sum-row_total :
    (rows : Store)
    → sum_rows row_total rows
      ≡ sum_rows (λ r. r.realized) rows
        +ℤ sum_rows (λ r. r.unrealized) rows
        +ℤ sum_rows (λ r. r.funding) rows
        -ℤ sum_rows (λ r. r.commission) rows
unfolding total
sum-row_total [] = omega int_laws
sum-row_total ((key, r) ∷ rows) = rw (sum-row_total rows) (omega int_laws)

module _ (env : Env) (routes : List StrategyRoute) (actual : List (Pair × ActualPosition)) where
  leg_realized :
      (key : String × Pair) (sp : StrategyPosition)
      → (leg_amount env routes actual key sp).realized ≡ sp.realized_pnl
  unfolding leg_amount
  leg_realized key sp = elim (Bool-cases (venue_flat sp.net_qty_base sp.net_qty_usd)) [
    | inl e ↦ rw e refl
    | inr e ↦ rw e refl
  ]

  leg_funding :
      (key : String × Pair) (sp : StrategyPosition)
      → (leg_amount env routes actual key sp).funding ≡ pos 0
  unfolding leg_amount
  leg_funding key sp = elim (Bool-cases (venue_flat sp.net_qty_base sp.net_qty_usd)) [
    | inl e ↦ rw e refl
    | inr e ↦ rw e refl
  ]

  legs_realized :
      (rows : List ((String × Pair) × StrategyPosition))
      → total (λ key sp. (leg_amount env routes actual key sp).realized) rows
        ≡ total (λ (key : String × Pair) sp. sp.realized_pnl) rows
  unfolding total
  legs_realized [] = refl
  legs_realized ((key, sp) ∷ rows) = rw (leg_realized key sp, legs_realized rows) refl

  legs_funding :
      (rows : List ((String × Pair) × StrategyPosition))
      → total (λ key sp. (leg_amount env routes actual key sp).funding) rows ≡ pos 0
  unfolding total
  legs_funding [] = refl
  legs_funding ((key, sp) ∷ rows) = rw (leg_funding key sp, legs_funding rows) (omega int_laws)

module _ (env : Env) (routes : List StrategyRoute) (d : Db) where
  abbrev actual : List (Pair × ActualPosition)
  actual = actual_positions env d

  abbrev booked : Tally
  booked = tally env routes d actual

  abbrev before_funding : Tally
  before_funding =
      book_orders d d.orders (book_legs env routes actual d.strategy_positions no_tally)

  -- The strategies' rows have a figure that no order adds to from the ledger alone.
  sum-booked :
      (f : PnlRow → ℤ)
      → Additive f
      → ((o : Order) → f (order_amount o) ≡ pos 0)
      → sum_rows f booked.strat
        ≡ total (λ key sp. f (leg_amount env routes actual key sp)) d.strategy_positions
  unfolding total
  sum-booked f additive silent =
      ap (sum_rows f) (strat-book_funding d.funding_events before_funding)
      ∙ sum-book_orders f additive silent d d.orders _
      ∙ sum-book_legs f additive env routes actual d.strategy_positions no_tally
      ∙ omega int_laws

  exch-booked :
      sum_rows row_total booked.exch
      ≡ sum_rows row_total booked.strat +ℤ funding_total d.funding_events
  unfolding total
  exch-booked =
      let even = book_orders-Even row_total row_total-Additive d d.orders (pos 0) _ (
        book_legs-Even row_total row_total-Additive env routes actual d.strategy_positions (pos 0)
          no_tally (omega int_laws)) in
      rw
        (
          exch-book_funding d.funding_events before_funding,
          even,
          strat-book_funding d.funding_events before_funding,
        )
        (omega int_laws)

-- The breakdown adds up, whatever the venues answer: the totals of the exchanges' rows sum to the
-- headline total, so do those of the strategies' rows with the funding, and the headline's realized
-- profit is what the ledger of the strategies has booked.
pub performance_balances :
    (env : Env) (routes : List StrategyRoute) (d : Db)
    → let p = performance env routes d in
      (sum_rows row_total p.per_exchange ≡ p.totals.total)
      × (sum_rows row_total p.per_strategy +ℤ p.totals.funding ≡ p.totals.total)
      × (p.totals.realized
          ≡ total (λ (key : String × Pair) sp. sp.realized_pnl) d.strategy_positions)
unfolding performance totals_of
performance_balances env routes d =
    let actual = actual_positions env d in
    let t = tally env routes d actual in
    let no_funding =
      sum-finalize (λ r. r.funding) funding-Additive t.strat
      ∙ sum-booked env routes d (λ r. r.funding) funding-Additive (λ o. refl)
      ∙ legs_funding env routes actual d.strategy_positions in
    let strategies = sum-row_total (finalize t.strat) in
    let exchanges =
      sum-finalize row_total row_total-Additive t.exch
      ∙ exch-booked env routes d
      ∙ ap (λ z. z +ℤ funding_total d.funding_events)
          (sym (sum-finalize row_total row_total-Additive t.strat)) in
    (
      rw (exchanges, strategies, no_funding) (omega int_laws),
      rw (strategies, no_funding) (omega int_laws),
      sum-finalize (λ r. r.realized) realized-Additive t.strat
          ∙ sum-booked env routes d (λ r. r.realized) realized-Additive (λ o. refl)
          ∙ legs_realized env routes actual d.strategy_positions,
    )
