-- ===== src/Webhook/Cancel.antt =====
-- Cancelling a resting entry: what the venue is sent, and what the tables keep.
use mochi_position_manager.Prelude.{
  ℕ, String, ◌≡◌, refl, sym, subst, ◌≤◌, ◌-◌, ap, ◌∙◌, ◌⊎◌, inl, inr, List, ◌∷◌, arith, ◌+◌,
}
use mochi_position_manager.Prelude.Int.{◌+ℤ◌, +ℤ_zero_right}
use mochi_position_manager.Models.{signed_qty, Status, OrderState, Order, OrderSnapshot, flat_eps}
use mochi_position_manager.Session.{Result-cases, Sent, Notice, Session, Result, ok, raised}
use mochi_position_manager.Exchange.{Adapter}
use mochi_position_manager.Config.{Env}
use mochi_position_manager.Executor.Rows.{replaced}
use mochi_position_manager.Executor.Partial.{book_limit_fill_delta}
use mochi_position_manager.Executor.Partial.Booking.{
  signed_none, replaced_twice, net_in, book_limit_fill_delta-Books,
}
use mochi_position_manager.Webhook.{handle, book_raced_fill, book_reported, cancel_working_entry}

OrderState-discrete : Discrete OrderState
OrderState-discrete = hlevel

-- The filled quantity that a venue reports, zero if it does not answer.
abbrev pub reported_qty : Result OrderSnapshot → ℕ
reported_qty (ok st) = st.filled_qty_base
reported_qty (raised e) = 0

-- The filled quantity that a venue knows of: none in a state that it does not know.
abbrev pub known_qty : OrderState → ℕ → ℕ
known_qty OrderState.unknown qty = 0
known_qty state qty = qty

abbrev pub known_fill : Result OrderSnapshot → ℕ
known_fill (ok st) = known_qty st.state st.filled_qty_base
known_fill (raised e) = 0

known_least : (state : OrderState) (qty least : ℕ) → qty ≤ least → known_qty state qty ≤ least
known_least OrderState.unknown qty least h = omega arith
known_least OrderState.working qty least h = h
known_least OrderState.partially_filled qty least h = h
known_least OrderState.filled qty least h = h
known_least OrderState.cancelled qty least h = h
known_least OrderState.rejected qty least h = h

-- What booking a raced fill keeps.
pub record Races (ex : Adapter) (strategy_id : String) (order : Order) (s : Session)
    (order' : Order) (s' : Session) : Type 0 where
  pub booked : ℕ
  pub sent_same : s'.sent ≡ s.sent
  pub risk_same : s'.current.risk_settings ≡ s.current.risk_settings
  pub alerts_same : s'.current.alerts ≡ s.current.alerts
  pub bounded :
      booked ≤ reported_qty (ex.order_status order.symbol (handle order)) - order.qty_base_filled
  pub same_id : order'.id ≡ order.id
  pub stored :
      (s'.current.orders ≡ s.current.orders) × (order' ≡ order)
      ⊎ (s'.current.orders ≡ replaced order' s.current.orders)
  pub counted : order'.qty_base_filled ≡ order.qty_base_filled + booked
  pub caught :
      known_fill (ex.order_status order.symbol (handle order)) ≤ order'.qty_base_filled + flat_eps
  pub moved :
      net_in strategy_id order s'.current
      ≡ net_in strategy_id order s.current +ℤ signed_qty order.side booked

module _ (env : Env) (ex : Adapter) (order : Order) (strategy_id : String) (s : Session) where
  book_raced_fill_silent :
      (e : String)
      → ex.order_status order.symbol (handle order) ≡ raised e
      → book_raced_fill env ex order strategy_id s ≡ (ok order, s)
  unfolding book_raced_fill book_reported
  book_raced_fill_silent e h = ground arith

  book_raced_fill_unknown :
      (st : OrderSnapshot)
      → ex.order_status order.symbol (handle order) ≡ ok st
      → st.state ≡ OrderState.unknown
      → book_raced_fill env ex order strategy_id s ≡ (ok order, s)
  unfolding book_raced_fill book_reported
  book_raced_fill_unknown st h u = ground arith

  book_raced_fill_known :
      (st : OrderSnapshot) (order' : Order) (newly : ℕ) (s' : Session)
      → ex.order_status order.symbol (handle order) ≡ ok st
      → (st.state ≡ OrderState.unknown → ⊥)
      → book_limit_fill_delta env.now order strategy_id st s ≡ (ok (order', newly), s')
      → book_raced_fill env ex order strategy_id s ≡ (ok order', s')
  unfolding book_raced_fill book_reported
  book_raced_fill_known st order' newly s' h u b = ground arith

  Races-none :
      known_fill (ex.order_status order.symbol (handle order)) ≡ 0
      → Races ex strategy_id order s order s
  Races-none none_known = record {
    caught = omega (arith, none_known);
    booked = 0;
    bounded = omega arith;
    same_id = refl;
    stored = inl (refl, refl);
    sent_same = refl;
    risk_same = refl;
    alerts_same = refl;
    counted = omega arith;
    moved = rw (signed_none order.side) (sym (+ℤ_zero_right _));
  }

  -- A fill that raced the cancel is booked, or the venue could not tell of one.
  book_raced_fill-Races :
      (order' : Order) × (s' : Session) × (book_raced_fill env ex order strategy_id s
        ≡ (ok order', s'))
      × Races ex strategy_id order s order' s'
  book_raced_fill-Races = elim (Result-cases (ex.order_status order.symbol (handle order))) [
    | inr (e, h) ↦ (order, s, book_raced_fill_silent e h, Races-none (ap known_fill h))
    | inl (st, h) ↦ elim (OrderState-discrete st.state OrderState.unknown) [
      | yes u ↦ (
        order,
        s,
        book_raced_fill_unknown st h u,
        Races-none (ap known_fill h ∙ ap (λ z. known_qty z st.filled_qty_base) u),
      )
      | no u ↦
          let (order', newly, s', e, b) =
            book_limit_fill_delta-Books env.now order strategy_id st s in
          (
            order',
            s',
            book_raced_fill_known st order' newly s' h u e,
            record {
              booked = newly;
              bounded =
                  subst (λ r. newly ≤ reported_qty r - order.qty_base_filled) (sym h) b.bounded;
              same_id = b.same_id;
              stored = b.stored;
              sent_same = b.sent_same;
              risk_same = b.risk_same;
              alerts_same = b.alerts_same;
              counted = b.counted;
              caught =
                  subst (λ r. known_fill r ≤ order'.qty_base_filled + flat_eps) (sym h)
                    (known_least st.state st.filled_qty_base _ b.small);
              moved = b.moved;
            },
          )
    ]
  ]

-- What a cancel keeps, and what it sends.
pub record Cancelled (ex : Adapter) (strategy_id : String) (order : Order) (s s' : Session)
    : Type 0 where
  pub booked : ℕ
  pub final : Order
  pub sent_one : s'.sent ≡ Sent.cancel_order order.exchange order.symbol (handle order) ∷ s.sent
  pub risk_same : s'.current.risk_settings ≡ s.current.risk_settings
  pub alerts_same : s'.current.alerts ≡ s.current.alerts
  pub same_id : final.id ≡ order.id
  pub stored : s'.current.orders ≡ replaced final s.current.orders
  pub is_cancelled : final.status ≡ Status.cancelled
  pub bounded :
      booked ≤ reported_qty (ex.order_status order.symbol (handle order)) - order.qty_base_filled
  pub counted : final.qty_base_filled ≡ order.qty_base_filled + booked
  pub caught :
      known_fill (ex.order_status order.symbol (handle order)) ≤ final.qty_base_filled + flat_eps
  pub moved :
      net_in strategy_id order s'.current
      ≡ net_in strategy_id order s.current +ℤ signed_qty order.side booked

abbrev written_off : Env → Order → Order
written_off env order = record order { status = Status.cancelled; updated_at = env.now }

-- The session after the last two steps of a cancel.
abbrev after_cancel : Env → (strategy_id : String) → Order → Order → Session → Session
after_cancel env strategy_id order booked s = record s {
  current = record s.current { orders = replaced (written_off env booked) s.current.orders };
  notices =
      Notice.limit_order_cancelled strategy_id order.exchange order.symbol order.side
        booked.qty_base_filled booked.qty_base
      ∷ s.notices;
}

-- The session in which the cancel has been sent.
abbrev cancel_sent : Order → Session → Session
cancel_sent order s = record s {
  sent = Sent.cancel_order order.exchange order.symbol (handle order) ∷ s.sent;
}

-- The row of a written-off order replaces whatever the booking stored.
stored_last :
    (final order' order : Order) (os os' : List Order)
    → final.id ≡ order'.id
    → (os' ≡ os) × (order' ≡ order) ⊎ (os' ≡ replaced order' os)
    → replaced final os' ≡ replaced final os
stored_last final order' order os os' e (inl (same, _)) = ap (replaced final) same
stored_last final order' order os os' e (inr changed) =
    ap (replaced final) changed ∙ replaced_twice final order' os e

module _ (env : Env) (order : Order) (strategy_id : String) (s : Session) where
  pub cancel_unreachable :
      (e : String)
      → env.registry order.exchange "default" ≡ raised e
      → cancel_working_entry env order strategy_id s ≡ (raised e, s)
  unfolding cancel_working_entry
  cancel_unreachable e h = rw h

  cancel_steps :
      (ex : Adapter) (order' : Order) (s' : Session)
      → env.registry order.exchange "default" ≡ ok ex
      → book_raced_fill env ex order strategy_id (cancel_sent order s) ≡ (ok order', s')
      → cancel_working_entry env order strategy_id s
        ≡ (ok tt, after_cancel env strategy_id order order' s')
  unfolding cancel_working_entry
  cancel_steps ex order' s' h e = ground arith

  -- Where the venue is known the cancel never raises. It is sent once; the order's row becomes
  -- cancelled and no other row changes; the filled quantity grows by what was booked, at most what the
  -- venue reports beyond it, and reaches what it reports in a known state but for the dust tolerance;
  -- the strategy's net position moves by exactly that; and the risk settings and the alerts stay.
  pub cancel_working_entry-Cancelled :
      {ex : Adapter}
      → env.registry order.exchange "default" ≡ ok ex
      → (s' : Session) × (cancel_working_entry env order strategy_id s ≡ (ok tt, s'))
        × Cancelled ex strategy_id order s s'
  cancel_working_entry-Cancelled {ex} h =
      let (order', s', e, r) =
        book_raced_fill-Races env ex order strategy_id (cancel_sent order s) in
      (
        after_cancel env strategy_id order order' s',
        cancel_steps ex order' s' h e,
        record {
          booked = r.booked;
          bounded = r.bounded;
          final = written_off env order';
          sent_one = r.sent_same;
          risk_same = r.risk_same;
          alerts_same = r.alerts_same;
          same_id = r.same_id;
          stored =
              stored_last (written_off env order') order' order s.current.orders _ refl r.stored;
          is_cancelled = refl;
          counted = r.counted;
          caught = r.caught;
          moved = r.moved;
        },
      )
