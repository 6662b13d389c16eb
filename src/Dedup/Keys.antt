-- ===== src/Dedup/Keys.antt =====
-- Which alerts share a key.
use text.Mathlib.TextLemmas.{append_cancel_left}
use mochi_position_manager.Prelude.{String, ◌≡◌, ◌≢◌, ◌↔◌, ap, sym, ◌∙◌, Bool-cases, inl, inr}
use mochi_position_manager.Prelude.Table.{string_key}
use mochi_position_manager.Dedup.{TradingViewAlert, parts, text_of, idempotency_key}

given_key :
    (digest : String → String) (a : TradingViewAlert)
    → text_of a.alert_id ≢ ""
    → idempotency_key digest a ≡ parts a.strategy_id ":" (text_of a.alert_id)
unfolding idempotency_key
given_key digest a h = elim (Bool-cases (string_key.same (text_of a.alert_id) "")) [
  | inl e ↦ elim (h ((string_key.same_iff (text_of a.alert_id) "").0 e)) [ ]
  | inr e ↦ rw e
]

parts-cancel : (s c d e : String) → parts s c d ≡ parts s c e → d ≡ e
parts-cancel s c d e h = append_cancel_left c _ _ (append_cancel_left s _ _ h)

-- Two alerts of one strategy that carry an alert id have the same key exactly if the ids are the
-- same, whatever else they carry: another id is never taken for a repetition, and a repeated id is
-- one even with the other action.
pub idempotency_key_by_id :
    (digest : String → String) (a b : TradingViewAlert)
    → a.strategy_id ≡ b.strategy_id
    → text_of a.alert_id ≢ ""
    → text_of b.alert_id ≢ ""
    → (idempotency_key digest a ≡ idempotency_key digest b)
      ↔ (text_of a.alert_id ≡ text_of b.alert_id)
idempotency_key_by_id digest a b e ha hb = (
  λ h. parts-cancel b.strategy_id ":" (text_of a.alert_id) (text_of b.alert_id) (
      ap (λ s. parts s ":" (text_of a.alert_id)) (sym e)
      ∙ sym (given_key digest a ha)
      ∙ h
      ∙ given_key digest b hb),
  λ h.
      given_key digest a ha
      ∙ ap (λ s. parts s ":" (text_of a.alert_id)) e
      ∙ ap (parts b.strategy_id ":") h
      ∙ sym (given_key digest b hb),
)
