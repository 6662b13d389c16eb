-- ===== src/Dashboard/Performance/Additive.antt =====
-- A figure of the rows to which amounts add up, through the booking of the performance page.
use mochi_position_manager.Prelude.{
  String, false, ◌≡◌, refl, ap, ◌∙◌, inl, inr, Bool-cases, Option, none, some, List, [], ◌∷◌,
}
use mochi_position_manager.Prelude.Int.{ℤ, pos, +ℤ_replace, ◌+ℤ◌, ltb_ℤ, int_laws}
use mochi_position_manager.Prelude.Table.{lookup, string_key, pair_key}
use mochi_position_manager.Prelude.Totals.{total, weight_at, total-upsert}
use mochi_position_manager.Models.{is_success, Alert, Order, StrategyPosition}
use mochi_position_manager.Session.{Db}
use mochi_position_manager.Config.{Env}
use mochi_position_manager.Routing.{StrategyRoute}
use mochi_position_manager.Reconcile.{Pair}
use mochi_position_manager.Webhook.{alert_of}
use mochi_position_manager.Dashboard.Performance.{row_total, insert_row, finalize, sum_rows}
use mochi_position_manager.Dashboard.Positions.{ActualPosition}
use mochi_position_manager.Dashboard.Tally.{
  PnlRow, no_row, plus, Store, row_at, add_row, Tally, book, leg_amount, book_legs, order_amount,
  book_order, book_orders,
}

-- A figure of a row to which amounts add up, whatever is attributed.
pub record Additive (f : PnlRow → ℤ) : Type 0 where
  pub zero : f no_row ≡ pos 0
  pub adds : (r s : PnlRow) → f (plus r s) ≡ f r +ℤ f s
  pub plain : (r : PnlRow) → f (record r { attributed = false }) ≡ f r

module _ (f : PnlRow → ℤ) (additive : Additive f) where
  pub weight-plus :
      (key : String) (old : Option PnlRow) (amount : PnlRow)
      → f (plus (row_at old) amount) ≡ weight_at (λ (k : String) r. f r) key old +ℤ f amount
  weight-plus key none amount = additive.adds no_row amount ∙ ap (λ z. z +ℤ f amount) additive.zero
  weight-plus key (some r) amount = additive.adds r amount

  pub sum-add_row :
      (key : String) (amount : PnlRow) (store : Store)
      → sum_rows f (add_row key amount store) ≡ sum_rows f store +ℤ f amount
  unfolding add_row
  sum-add_row key amount store =
      let old = lookup key store in
      +ℤ_replace _ _ (weight_at (λ (k : String) r. f r) key old) (f amount) (
        total-upsert (λ (k : String) r. f r) key (plus (row_at old) amount) store
        ∙ ap (λ z. sum_rows f store +ℤ z) (weight-plus key old amount))

  pub sum-insert_row :
      (r : String × PnlRow) (rows : Store)
      → sum_rows f (insert_row r rows) ≡ f r.1 +ℤ sum_rows f rows
  unfolding insert_row total
  sum-insert_row r [] = refl
  sum-insert_row r (x ∷ xs) = elim (Bool-cases (ltb_ℤ (row_total r.1) (row_total x.1))) [
    | inl e ↦ rw (e, sum-insert_row r xs) (omega int_laws)
    | inr e ↦ rw e refl
  ]

  pub sum-finalize : (rows : Store) → sum_rows f (finalize rows) ≡ sum_rows f rows
  unfolding finalize total
  sum-finalize [] = refl
  sum-finalize (r ∷ rs) = sum-insert_row r (finalize rs) ∙ ap (◌+ℤ◌ (f r.1)) (sum-finalize rs)

  -- A booked amount is on both sides.
  abbrev pub Even : ℤ → Tally → Type 0
  Even more t = sum_rows f t.exch ≡ sum_rows f t.strat +ℤ more

  pub book-Even :
      (sid ex : String) (amount : PnlRow) (more : ℤ) (t : Tally)
      → Even more t
      → Even more (book sid ex amount t)
  book-Even sid ex amount more t h =
      rw
        (
          sum-add_row sid amount t.strat,
          sum-add_row ex (record amount { attributed = false }) t.exch,
          additive.plain amount,
          h,
        )
        (omega int_laws)

  pub book_order-Even :
      (o : Order) (a : Option Alert) (more : ℤ) (t : Tally)
      → Even more t
      → Even more (book_order o a t)
  book_order-Even o none more t h = h
  book_order-Even o (some a) more t h = elim (Bool-cases (is_success o.status)) [
    | inl e ↦ rw e (book-Even a.strategy_id o.exchange (order_amount o) more t h)
    | inr e ↦ rw e h
  ]

  pub book_orders-Even :
      (d : Db) (os : List Order) (more : ℤ) (t : Tally)
      → Even more t
      → Even more (book_orders d os t)
  unfolding book_orders
  book_orders-Even d [] more t h = h
  book_orders-Even d (o ∷ os) more t h =
      book_orders-Even d os more (book_order o (alert_of o.alert_id d) t)
        (book_order-Even o (alert_of o.alert_id d) more t h)

  module _ (env : Env) (routes : List StrategyRoute) (actual : List (Pair × ActualPosition)) where
    pub book_legs-Even :
        (rows : List ((String × Pair) × StrategyPosition)) (more : ℤ) (t : Tally)
        → Even more t
        → Even more (book_legs env routes actual rows t)
    unfolding book_legs
    book_legs-Even [] more t h = h
    book_legs-Even (((sid, (ex, symbol)), sp) ∷ rows) more t h =
        let amount = leg_amount env routes actual (sid, (ex, symbol)) sp in
        book_legs-Even rows more (book sid ex amount t) (book-Even sid ex amount more t h)

    -- The strategies' rows take what the ledger's rows add.
    pub sum-book_legs :
        (rows : List ((String × Pair) × StrategyPosition)) (t : Tally)
        → sum_rows f (book_legs env routes actual rows t).strat
          ≡ sum_rows f t.strat +ℤ total (λ key sp. f (leg_amount env routes actual key sp)) rows
    unfolding book_legs total
    sum-book_legs [] t = omega int_laws
    sum-book_legs (((sid, (ex, symbol)), sp) ∷ rows) t =
        let amount = leg_amount env routes actual (sid, (ex, symbol)) sp in
        rw (sum-book_legs rows (book sid ex amount t), sum-add_row sid amount t.strat)
          (omega int_laws)

  -- Orders that add nothing to a figure.
  sum-book_order :
      ((o : Order) → f (order_amount o) ≡ pos 0)
      → (o : Order) (a : Option Alert) (t : Tally)
      → sum_rows f (book_order o a t).strat ≡ sum_rows f t.strat
  sum-book_order silent o none t = refl
  sum-book_order silent o (some a) t = elim (Bool-cases (is_success o.status)) [
    | inl e ↦ rw (e, sum-add_row a.strategy_id (order_amount o) t.strat, silent o) (omega int_laws)
    | inr e ↦ rw e refl
  ]

  pub sum-book_orders :
      ((o : Order) → f (order_amount o) ≡ pos 0)
      → (d : Db) (os : List Order) (t : Tally)
      → sum_rows f (book_orders d os t).strat ≡ sum_rows f t.strat
  unfolding book_orders
  sum-book_orders silent d [] t = refl
  sum-book_orders silent d (o ∷ os) t =
      sum-book_orders silent d os (book_order o (alert_of o.alert_id d) t)
      ∙ sum-book_order silent o (alert_of o.alert_id d) t
