-- ===== src/Prelude/Totals.antt =====
-- Sums of a signed weight over the rows of a table.
use mochi_position_manager.Prelude.{
  ◌≡◌, inl, inr, Bool-cases, Option, none, some, List, [], ◌∷◌, ap, ◌∙◌, sym,
}
use mochi_position_manager.Prelude.Int.{ℤ, pos, ◌+ℤ◌, int_laws, +ℤ_assoc}
use mochi_position_manager.Prelude.Table.{Key, lookup, upsert}

module _ {ℓ κ} {K : Type ℓ} {V : Type κ} (weight : K → V → ℤ) where
  unfoldable pub total : List (K × V) → ℤ
  total [] = pos 0
  total ((x, v) ∷ rows) = weight x v +ℤ total rows

  -- The weight of the row under a key, zero if there is none.
  abbrev pub weight_at : K → Option V → ℤ
  weight_at x none = pos 0
  weight_at x (some v) = weight x v

  -- A write under a key takes the old weight off and puts the new one on.
  pub total-upsert :
      ⦃k : Key K⦄ (x : K) (v : V) (rows : List (K × V))
      → total (upsert x v rows) +ℤ weight_at x (lookup x rows) ≡ total rows +ℤ weight x v
  unfolding total lookup upsert
  total-upsert ⦃k⦄ x v [] = omega int_laws
  total-upsert ⦃k⦄ x v ((y, w) ∷ rows) = elim (Bool-cases (k.same x y)) [
    | inl e ↦ rw e (rw (← ((k.same_iff x y).0 e)) (omega int_laws))
    | inr e ↦ rw e (
        +ℤ_assoc (weight y w) (total (upsert x v rows)) (weight_at x (lookup x rows))
        ∙ ap (◌+ℤ◌ (weight y w)) (total-upsert x v rows)
        ∙ sym (+ℤ_assoc (weight y w) (total rows) (weight x v)))
  ]
