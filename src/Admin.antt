-- ===== src/Admin.antt =====
-- The forms of the admin page (app/routes/admin.py): the secret and a ticked field; the children
-- have the strategies, the risk form, and the order that is fired by hand.
pub mod Fire
pub mod Strategies
pub mod Risk
use text.Mathlib.Text.{◌==◌ as str_eq}
use mochi_position_manager.Prelude.{String, Bool, not, ◌&&◌, [], ◌∷◌}
use mochi_position_manager.Symbols.{is_one_of}

-- `_require_secret`: a missing secret on either side is refused.
unfoldable pub has_secret : (expected secret : String) → Bool
has_secret expected secret =
    not (str_eq secret "") && (not (str_eq expected "") && str_eq secret expected)

-- `_form_bool`: a ticked field. One that is missing is empty.
unfoldable pub form_bool : (lower : String → String) (field : String) → Bool
form_bool lower field = is_one_of (lower field) ("on" ∷ "true" ∷ "1" ∷ "yes" ∷ [])
