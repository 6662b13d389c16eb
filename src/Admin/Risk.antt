-- ===== src/Admin/Risk.antt =====
-- The risk form (app/routes/admin.py, save_risk): the cap of an order and the kill switch. The fields of the
-- form are texts, and one that is missing is empty.
use text.Mathlib.Text.{◌==◌ as str_eq}
use mochi_position_manager.Prelude.{ℕ, String, Option, none, some, if◌then◌else◌}
use mochi_position_manager.Prelude.Int.{ℤ, pos, negsuc}
use mochi_position_manager.Session.{Result, ok, raised, Action, ◌>>◌, pure, session_scope}
use mochi_position_manager.Routing.Build.{Texts}
use mochi_position_manager.Portfolio.{update_risk_settings}
use mochi_position_manager.Admin.{has_secret, form_bool}

pub record RiskForm : Type 0 where
  pub secret : String
  pub per_order_max_notional : String
  pub kill_switch : String

-- The answers of the route: 401, 400, or a redirect.
pub data RiskAnswer : Type 0 where
  denied : RiskAnswer
  invalid : (detail : String) → RiskAnswer
  saved : RiskAnswer

module _ (t : Texts) where
  abbrev pub cap_of_number : Option ℤ → Result ℕ
  cap_of_number none = raised "per_order_max_notional must be a number (USDT) or blank"
  cap_of_number (some (negsuc n)) =
      raised "per_order_max_notional must be >= 0 (0 disables the cap)"
  cap_of_number (some (pos n)) = ok n

  -- The cap; a blank is none.
  unfoldable pub cap_of : (raw : String) → Result ℕ
  cap_of raw = if str_eq raw "" then ok 0 else cap_of_number (t.read_number raw)

  unfoldable pub save_cap : RiskForm → Result ℕ → Action RiskAnswer
  save_cap f (raised e) = pure (invalid e)
  save_cap f (ok cap) = do
    session_scope (update_risk_settings (some cap) (some (form_bool t.lower f.kill_switch)))
    pure saved

  -- `save_risk`; `expected` is the setting WEBHOOK_SECRET.
  unfoldable pub save_risk : (expected : String) → RiskForm → Action RiskAnswer
  save_risk expected f =
      if has_secret expected f.secret
      then save_cap f (cap_of (t.strip f.per_order_max_notional))
      else pure denied
