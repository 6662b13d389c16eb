-- ===== src/Executor/Partial/Booking.antt =====
-- Booking the cumulative fill of a resting order: the quantities, and the two commits.
use mochi_position_manager.Prelude.{
  ℕ, ◌+◌, ◌-◌, ◌≤◌, ◌<◌, ◌≡◌, refl, sym, ap, ◌∙◌, ◌⊎◌, inl, inr, Bool-cases, String, true, false,
  List, [], ◌∷◌, arith, leb,
}
use mochi_position_manager.Prelude.Int.{ℤ, pos, ◌+ℤ◌, +ℤ_zero_right}
use mochi_position_manager.Prelude.Table.{lookup, string_key, pair_key}
use mochi_position_manager.Models.{Side, buy, sell, signed_qty, Order, OrderSnapshot, flat_eps}
use mochi_position_manager.Session.{Db, Session, ok}
use mochi_position_manager.Executor.Ledger.{apply_fill_to_position, filled_db}
use mochi_position_manager.Executor.Ledger.Agreement.{
  fill-orders, fill-risk, fill-alerts, held, filled_db-held,
}
use mochi_position_manager.Executor.Rows.{replaced}
use mochi_position_manager.Executor.Partial.{book_limit_fill_delta, booked_columns, book_price}

-- The strategy's net position in the order's symbol.
abbrev pub net_in : (strategy_id : String) → Order → Db → ℤ
net_in strategy_id order d =
    held (lookup (strategy_id, (order.exchange, order.symbol)) d.strategy_positions)

-- What one booking does: it books at most what is new in the cumulative fill, and the ledger moves
-- by exactly what was booked.
pub record Books (strategy_id : String) (order : Order) (st : OrderSnapshot) (s : Session)
    (order' : Order) (newly : ℕ) (s' : Session) : Type 0 where
  pub counted : order'.qty_base_filled ≡ order.qty_base_filled + newly
  pub within : (newly ≡ 0) ⊎ (order'.qty_base_filled ≡ st.filled_qty_base)
  pub small : st.filled_qty_base ≤ order'.qty_base_filled + flat_eps
  pub bounded : newly ≤ st.filled_qty_base - order.qty_base_filled
  pub same_id : order'.id ≡ order.id
  pub stored :
      (s'.current.orders ≡ s.current.orders) × (order' ≡ order)
      ⊎ (s'.current.orders ≡ replaced order' s.current.orders)
  pub same_exchange : order'.exchange ≡ order.exchange
  pub same_symbol : order'.symbol ≡ order.symbol
  pub same_side : order'.side ≡ order.side
  pub sent_same : s'.sent ≡ s.sent
  pub risk_same : s'.current.risk_settings ≡ s.current.risk_settings
  pub alerts_same : s'.current.alerts ≡ s.current.alerts
  pub moved :
      net_in strategy_id order s'.current
      ≡ net_in strategy_id order s.current +ℤ signed_qty order.side newly

-- Of two changes to one row the last one counts.
pub replaced_twice :
    (x y : Order) (os : List Order) → x.id ≡ y.id → replaced x (replaced y os) ≡ replaced x os
unfolding replaced
replaced_twice x y [] e = refl
replaced_twice x y (o ∷ os) e = ground (arith, replaced_twice x y os e)

pub signed_none : (d : Side) → signed_qty d 0 ≡ pos 0
signed_none buy = refl
signed_none sell = refl

-- The same snapshot a second time books nothing.
book_again :
    (now : ℕ) (order : Order) (strategy_id : String) (st : OrderSnapshot) (s : Session)
    → book_limit_fill_delta now (booked_columns order st) strategy_id st s
      ≡ (ok (booked_columns order st, 0), s)
unfolding book_limit_fill_delta
book_again now order strategy_id st s =
    let e : leb (st.filled_qty_base - st.filled_qty_base) flat_eps ≡ true = ground arith in rw e

module _ (now : ℕ) (order : Order) (strategy_id : String) (st : OrderSnapshot) (s : Session) where
  book_nothing :
      leb (st.filled_qty_base - order.qty_base_filled) flat_eps ≡ true
      → book_limit_fill_delta now order strategy_id st s ≡ (ok (order, 0), s)
  unfolding book_limit_fill_delta
  book_nothing h = rw h

  abbrev newly : ℕ
  newly = st.filled_qty_base - order.qty_base_filled

  -- The database at the first commit: the order has the fill, the ledgers do not.
  abbrev first_commit : Db
  first_commit = record s.current { orders = replaced (booked_columns order st) s.current.orders }

  abbrev second_commit : Db × ℤ
  second_commit =
      filled_db strategy_id order.exchange order.symbol order.side newly (book_price order st) now
        first_commit

  abbrev final_order : Order
  final_order = record (booked_columns order st) {
    realized_pnl = order.realized_pnl +ℤ second_commit.1;
  }

  abbrev final_session : Session
  final_session = record s {
    current = record (second_commit.0) { orders = replaced final_order second_commit.0.orders };
    commits = second_commit.0 ∷ first_commit ∷ s.commits;
  }

  book_some :
      leb newly flat_eps ≡ false
      → book_limit_fill_delta now order strategy_id st s ≡ (ok (final_order, newly), final_session)
  unfolding book_limit_fill_delta apply_fill_to_position
  book_some h = rw h

  second_risk : second_commit.0.risk_settings ≡ s.current.risk_settings
  second_risk =
      fill-risk strategy_id order.exchange order.symbol order.side newly (book_price order st) now
        first_commit

  second_alerts : second_commit.0.alerts ≡ s.current.alerts
  second_alerts =
      fill-alerts strategy_id order.exchange order.symbol order.side newly (book_price order st) now
        first_commit

  final_stored : final_session.current.orders ≡ replaced final_order s.current.orders
  final_stored =
      ap (replaced final_order) (
        fill-orders strategy_id order.exchange order.symbol order.side newly (book_price order st)
          now first_commit)
      ∙ replaced_twice final_order (booked_columns order st) s.current.orders refl

  final_moved :
      net_in strategy_id order final_session.current
      ≡ net_in strategy_id order s.current +ℤ signed_qty order.side newly
  final_moved =
      filled_db-held strategy_id order.exchange order.symbol order.side newly (book_price order st)
        now first_commit

  -- Booking never raises. It books the new part of the cumulative fill, unless that part is within
  -- the dust tolerance, and it moves the strategy's net position by exactly the quantity that it
  -- adds to the order's filled quantity; so no fill is booked twice.
  pub book_limit_fill_delta-Books :
      (order' : Order) × (newly : ℕ) × (s' : Session) × (book_limit_fill_delta now order strategy_id
          st s
        ≡ (ok (order', newly), s'))
      × Books strategy_id order st s order' newly s'
  book_limit_fill_delta-Books =
      elim (Bool-cases (leb (st.filled_qty_base - order.qty_base_filled) flat_eps)) [
        | inl none_new ↦ (
          order,
          0,
          s,
          book_nothing none_new,
          record {
            counted = omega arith;
            within = inl refl;
            small = ground arith;
            bounded = omega arith;
            same_id = refl;
            stored = inl (refl, refl);
            same_exchange = refl;
            same_symbol = refl;
            same_side = refl;
            sent_same = refl;
            risk_same = refl;
            alerts_same = refl;
            moved = rw (signed_none order.side) (sym (+ℤ_zero_right _));
          },
        )
        | inr some_new ↦ (
          final_order,
          newly,
          final_session,
          book_some some_new,
          record {
            counted = ground arith;
            within = inr refl;
            small = omega arith;
            bounded = omega arith;
            same_id = refl;
            stored = inr final_stored;
            same_exchange = refl;
            same_symbol = refl;
            same_side = refl;
            sent_same = refl;
            risk_same = second_risk;
            alerts_same = second_alerts;
            moved = final_moved;
          },
        )
      ]

  -- The order's filled quantity is committed before the ledgers. Between the two commits the order
  -- has the whole fill and no ledger row has changed; if the process stops there, polling the same
  -- snapshot again books nothing, and the ledgers never get the fill.
  pub book_limit_fill_delta_crash_loses_fill :
      flat_eps < newly
      → (d₁ d₂ : Db) × ((book_limit_fill_delta now order strategy_id st s).1.commits
          ≡ d₂ ∷ d₁ ∷ s.commits)
        × (d₁.positions ≡ s.current.positions)
        × (d₁.strategy_positions ≡ s.current.strategy_positions)
        × (d₁.orders ≡ replaced (booked_columns order st) s.current.orders)
        × (book_limit_fill_delta now
              (booked_columns order st)
              strategy_id
              st
              (record s { current = d₁; commits = d₁ ∷ s.commits })
            ≡ (
              ok (booked_columns order st, 0),
              record s { current = d₁; commits = d₁ ∷ s.commits },
            ))
  book_limit_fill_delta_crash_loses_fill h = (
    first_commit,
    second_commit.0,
    ap (λ t. t.1.commits) (book_some (ground arith)),
    refl,
    refl,
    refl,
    book_again now order strategy_id st _,
  )
