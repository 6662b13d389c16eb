-- ===== src/Prelude/Table.antt =====
-- Tables whose rows are found by a key: the database tables with a UNIQUE constraint, and Python's
-- dictionaries.
use text.Mathlib.Text.{◌==◌ as str_eq}
use text.Mathlib.TextEquality.{eq_iff}
use mochi_position_manager.Prelude.{
  ℕ, String, ◌≡◌, ◌≢◌, ◌↔◌, Bool, true, ◌&&◌, Option, none, some, List, [], ◌∷◌, arith, ◌==◌,
  ==_iff, if◌then◌else◌,
}

-- The keys that a table can be searched by: they have a Boolean equality.
pub record Key {ℓ} (K : Type ℓ) : Type ℓ where
  pub same : K → K → Bool
  pub same_iff : (a b : K) → (same a b ≡ true) ↔ (a ≡ b)

instance abbrev pub nat_key : Key ℕ
nat_key = record { same = ◌==◌; same_iff = ==_iff }

instance abbrev pub string_key : Key String
string_key = record { same = str_eq; same_iff = eq_iff }

module _ {ℓ κ} {A : Type ℓ} {B : Type κ} ⦃k : Key A⦄ ⦃l : Key B⦄ where
  abbrev pub same_pair : A × B → A × B → Bool
  same_pair p q = k.same p.0 q.0 && l.same p.1 q.1

  pub same_pair_iff : (p q : A × B) → (same_pair p q ≡ true) ↔ (p ≡ q)
  same_pair_iff p q = ground (arith, k.same_iff p.0 q.0, l.same_iff p.1 q.1)

  instance abbrev pub pair_key : Key (A × B)
  pair_key = record { same = same_pair; same_iff = same_pair_iff }

module _ {ℓ κ} {K : Type ℓ} {V : Type κ} ⦃k : Key K⦄ where
  -- The row under a key.
  unfoldable pub lookup : K → List (K × V) → Option V
  lookup x [] = none
  lookup x ((y, v) ∷ rows) = if k.same x y then some v else lookup x rows

  -- Insert a row, or replace the row that has the key.
  unfoldable pub upsert : K → V → List (K × V) → List (K × V)
  upsert x v [] = (x, v) ∷ []
  upsert x v ((y, w) ∷ rows) = if k.same x y then (x, v) ∷ rows else (y, w) ∷ upsert x v rows

  pub lookup-upsert_self :
      (x : K) (v : V) (rows : List (K × V)) → lookup x (upsert x v rows) ≡ some v
  unfolding lookup upsert
  lookup-upsert_self x v [] = ground (arith, k.same_iff x x)
  lookup-upsert_self x v ((y, w) ∷ rows) =
      ground (arith, k.same_iff x x, lookup-upsert_self x v rows)

  pub lookup-upsert_ne :
      (x y : K) (v : V) (rows : List (K × V)) → x ≢ y → lookup y (upsert x v rows) ≡ lookup y rows
  unfolding lookup upsert
  lookup-upsert_ne x y v [] h = ground (arith, k.same_iff y x)
  lookup-upsert_ne x y v ((z, w) ∷ rows) h =
      ground (arith, k.same_iff y x, k.same_iff x z, k.same_iff y z, lookup-upsert_ne x y v rows h)

-- Python's `x or y` on texts.
abbrev pub or_text : String → String → String
or_text x y = if str_eq x "" then y else x
