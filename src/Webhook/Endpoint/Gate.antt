-- ===== src/Webhook/Endpoint/Gate.antt =====
-- The dedup gate: the table of alerts after a request, and a second request with its key.
use mochi_position_manager.Prelude.{
  ℕ, String, ◌≡◌, refl, ap, ◌∙◌, subst, ◌+◌, length, inl, inr, Bool-cases, true, false, List, [],
  ◌∷◌, ◌++◌, arith,
}
use mochi_position_manager.Prelude.Table.{string_key}
use mochi_position_manager.Models.{Alert}
use mochi_position_manager.Session.{Db, Notice, Session, ok, raised, session_scope}
use mochi_position_manager.Config.{Env}
use mochi_position_manager.Dedup.{idempotency_key}
use mochi_position_manager.Webhook.Endpoint.{
  Site, Request, Task, duplicate, nothing, tell, fan_out_alert, has_key, alert_row, persist_alert,
  lacks_quantity, gate, tradingview_webhook, run_task, receive,
}
use mochi_position_manager.Soundness.{alerts_stable}
use mochi_position_manager.Soundness.Webhook.{run_fan_out-current}

-- The requests that reach the gate: the secret is right, and a quantity is there if it is needed.
abbrev pub Admitted : Site → Request → Type 0
Admitted site r =
    (string_key.same r.alert.secret site.webhook_secret ≡ true)
    × (lacks_quantity (site.routes r.alert.strategy_id) r ≡ false)

abbrev pub key_of : Site → Request → String
key_of site r = idempotency_key site.digest r.alert

has_key-append :
    (key : String) (alerts : List Alert) (a : Alert)
    → a.idempotency_key ≡ key
    → has_key key (alerts ++ a ∷ []) ≡ true
has_key-append key [] a e = ground (arith, string_key.same_iff a.idempotency_key key)
has_key-append key (x ∷ xs) a e = ground (arith, has_key-append key xs a e)

run_task-alerts :
    (env : Env) (t : Task) (s : Session) → (run_task env t s).current.alerts ≡ s.current.alerts
unfolding run_task
run_task-alerts env nothing s = refl
run_task-alerts env (tell n) s = refl
run_task-alerts env (fan_out_alert alert_id route quantity) s =
    run_fan_out-current (alerts_stable s.current.alerts) env alert_id route quantity s refl

module _ (now : ℕ) (key : String) (r : Request) (s : Session) where
  persist_known :
      has_key key s.current.alerts ≡ true → persist_alert now key r s ≡ (raised "IntegrityError", s)
  unfolding persist_alert
  persist_known h = ground arith

  -- The tables with the new alert.
  abbrev stored_db : Db
  stored_db = record s.current {
    alerts = s.current.alerts ++ alert_row now (length s.current.alerts + 1) key r ∷ [];
  }

  persist_new :
      has_key key s.current.alerts ≡ false
      → persist_alert now key r s
        ≡ (ok (length s.current.alerts + 1), record s { current = stored_db })
  unfolding persist_alert
  persist_new h = ground arith

  scope_known :
      has_key key s.current.alerts ≡ true
      → session_scope (persist_alert now key r) s ≡ (raised "IntegrityError", s)
  unfolding session_scope persist_alert
  scope_known h = rw h

  scope_new :
      has_key key s.current.alerts ≡ false
      → session_scope (persist_alert now key r) s ≡ (
        ok (length s.current.alerts + 1),
        record s { current = stored_db; commits = stored_db ∷ s.commits },
      )
  unfolding session_scope persist_alert
  scope_new h = rw h

module _ (site : Site) (r : Request) (s : Session) where
  gate_known :
      (key : String)
      → has_key key s.current.alerts ≡ true
      → gate site key r s
        ≡ ((duplicate key, tell (Notice.duplicate_alert r.alert.strategy_id key)), s)
  unfolding gate
  gate_known key h = ground (arith, scope_known site.env.now key r s h)

  gate_stores : (key : String) → has_key key (gate site key r s).1.current.alerts ≡ true
  unfolding gate
  gate_stores key = elim (Bool-cases (has_key key s.current.alerts)) [
    | inl e ↦ ap (λ t. has_key key t.1.current.alerts) (scope_known site.env.now key r s e) ∙ e
    | inr e ↦
        ap (λ t. has_key key t.1.current.alerts) (scope_new site.env.now key r s e)
        ∙ has_key-append key s.current.alerts _ refl
  ]

  Admitted-gate : Admitted site r → tradingview_webhook site r s ≡ gate site (key_of site r) r s
  unfolding tradingview_webhook
  Admitted-gate (h, k) = ground arith

  -- After an admitted request and its task, the alert is stored.
  receive_stores :
      Admitted site r → has_key (key_of site r) (receive site r s).1.current.alerts ≡ true
  unfolding receive
  receive_stores h =
      ap (has_key (key_of site r)) (
        run_task-alerts site.env (tradingview_webhook site r s).0.1
          (tradingview_webhook site r s).1)
      ∙ ap (λ t. has_key (key_of site r) t.1.current.alerts) (Admitted-gate h)
      ∙ gate_stores (key_of site r)

  receive_known :
      Admitted site r
      → has_key (key_of site r) s.current.alerts ≡ true
      → receive site r s ≡ (
        duplicate (key_of site r),
        record s {
          notices = Notice.duplicate_alert r.alert.strategy_id (key_of site r) ∷ s.notices;
        },
      )
  unfolding receive run_task
  receive_known h k =
      ap (λ t. (t.0.0, run_task site.env t.0.1 t.1))
        (Admitted-gate h ∙ gate_known (key_of site r) k)

-- An alert is acted on once. After an admitted request and the fan-out that it leaves, a second
-- admitted request with the same key is answered as a duplicate, whatever the venues did with the
-- first: the tables and the commits stay, nothing is sent, and one notice is emitted.
pub receive_twice :
    (site : Site) (r r' : Request) (s : Session)
    → Admitted site r
    → Admitted site r'
    → key_of site r ≡ key_of site r'
    → let s' = (receive site r s).1 in
      receive site r' s' ≡ (
        duplicate (key_of site r'),
        record s' {
          notices = Notice.duplicate_alert r'.alert.strategy_id (key_of site r') ∷ s'.notices;
        },
      )
receive_twice site r r' s h h' e = receive_known site r' (receive site r s).1 h' (
    subst (λ k. has_key k (receive site r s).1.current.alerts ≡ true) e (receive_stores site r s h))
