-- ===== src/Dashboard/Curve/Sampling.antt =====
-- What is drawn of a long series (`_downsample`, app/routes/dashboard.py).
use native.Mathlib.Nat.{div-lt_iff_lt-mul}
use mochi_position_manager.Prelude.{
  Occurs, head, tail, ℕ, zero, suc, ◌+◌, ◌*◌, ◌/◌, ◌≤◌, ◌<◌, ◌≡◌, refl, ap, inl, inr, ◌⊎◌,
  Bool-cases, Bool, true, List, [], ◌∷◌, ◌++◌, length, length-append, leb, arith,
}
use mochi_position_manager.Dashboard.Curve.{point_at, sampled, last_or, with_last, downsample}

-- What is drawn with a cap has one point more at most, the same first and last point, and only points
-- of the series.
pub record Drawn {A : Type 0} (cap : ℕ) (p : A) (pts out : List A) : Type 0 where
  pub at_most : length out ≤ suc cap
  pub starts : point_at p out 0 ≡ p
  pub ends : last_or p out ≡ last_or p pts
  pub only_points : (x : A) → Occurs x out → Occurs x (p ∷ pts)

-- The index of a round lies within the series.
index_bound : (i n cap : ℕ) → i < cap → 0 < n → i * n / cap < n
index_bound i n cap h k =
    let less : i * n < n * cap = grind arith in (div-lt_iff_lt-mul (omega arith)).1 less

module _ {A : Type 0} where
  last_or-append : (d y : A) (xs : List A) → last_or d (xs ++ y ∷ []) ≡ y
  last_or-append d y [] = refl
  last_or-append d y (x ∷ xs) = last_or-append x y xs

  last-Occurs : (d : A) (xs : List A) → Occurs (last_or d xs) (d ∷ xs)
  last-Occurs d [] = head refl
  last-Occurs d (x ∷ xs) = tail (last-Occurs x xs)

  Occurs-append : (x y : A) (xs : List A) → Occurs x (xs ++ y ∷ []) → Occurs x xs ⊎ (x ≡ y)
  Occurs-append x y [] (head e) = inr e
  Occurs-append x y [] (tail i) = elim i [ ]
  Occurs-append x y (z ∷ xs) (head e) = inl (head e)
  Occurs-append x y (z ∷ xs) (tail i) = elim (Occurs-append x y xs i) [
    | inl k ↦ inl (tail k)
    | inr e ↦ inr e
  ]

  -- A point that exists is taken.
  point_at-Occurs : (d : A) (pts : List A) (i : ℕ) → i < length pts → Occurs (point_at d pts i) pts
  point_at-Occurs d [] i h = absurd (omega arith)
  point_at-Occurs d (x ∷ xs) zero h = head refl
  point_at-Occurs d (x ∷ xs) (suc i) h = tail (point_at-Occurs d xs i (omega arith))

  length-sampled :
      (d : A) (pts : List A) (cap rounds i : ℕ) → length (sampled d pts cap rounds i) ≡ rounds
  unfolding sampled
  length-sampled d pts cap zero i = refl
  length-sampled d pts cap (suc rounds) i = ap suc (length-sampled d pts cap rounds (suc i))

  sampled-Occurs :
      (d : A) (pts : List A) (cap rounds i : ℕ) (x : A)
      → i + rounds ≤ cap
      → 0 < length pts
      → Occurs x (sampled d pts cap rounds i)
      → Occurs x pts
  unfolding sampled
  sampled-Occurs d pts cap zero i x h k o = elim o [ ]
  sampled-Occurs d pts cap (suc rounds) i x h k (head e) = rw e (
      point_at-Occurs d pts (i * length pts / cap) (index_bound i (length pts) cap (omega arith) k))
  sampled-Occurs d pts cap (suc rounds) i x h k (tail o) =
      sampled-Occurs d pts cap rounds (suc i) x (omega arith) k o

  first_point :
      (c : ℕ) (p : A) (pts : List A)
      → sampled p (p ∷ pts) (suc c) (suc c) 0 ≡ p ∷ sampled p (p ∷ pts) (suc c) c 1
  unfolding sampled
  first_point c p pts =
      let at_zero : 0 * length (p ∷ pts) / suc c ≡ 0 = grind arith in rw at_zero refl

  -- A long series is sampled and ends in its last point.
  with_last-Drawn :
      (same : A → A → Bool)
      → ((a b : A) → same a b ≡ true → a ≡ b)
      → (c : ℕ) (p : A) (pts : List A)
      → Drawn
          (suc c)
          p
          pts
          (with_last same p (sampled p (p ∷ pts) (suc c) (suc c) 0) (last_or p pts))
  with_last-Drawn same sound c p pts =
      let out = sampled p (p ∷ pts) (suc c) (suc c) 0 in
      let first = first_point c p pts in
      let size = length-sampled p (p ∷ pts) (suc c) (suc c) 0 in
      elim (Bool-cases (same (last_or p out) (last_or p pts))) [
        | inl b ↦ rw b (record {
          at_most = omega (arith, size);
          starts = ap (λ l. point_at p l 0) first;
          ends = sound (last_or p out) (last_or p pts) b;
          only_points =
              λ x o. sampled-Occurs p (p ∷ pts) (suc c) (suc c) 0 x (omega arith) (omega arith) o;
        })
        | inr b ↦ rw b (record {
          at_most = omega (arith, size, length-append out (last_or p pts ∷ []));
          starts = ap (λ l. point_at p (l ++ last_or p pts ∷ []) 0) first;
          ends = last_or-append p (last_or p pts) out;
          only_points = λ x o. elim (Occurs-append x (last_or p pts) out o) [
            | inl k ↦ sampled-Occurs p (p ∷ pts) (suc c) (suc c) 0 x (omega arith) (omega arith) k
            | inr e ↦ rw e (last-Occurs p pts)
          ];
        })
      ]

  -- What is drawn of a series, for any cap above zero and any test that tells its points apart: one point
  -- more than the cap at most, the series' first and last point at its ends, and only points of the series.
  pub downsample-Drawn :
      (same : A → A → Bool)
      → ((a b : A) → same a b ≡ true → a ≡ b)
      → (c : ℕ) (p : A) (pts : List A) → Drawn (suc c) p pts (downsample same (suc c) (p ∷ pts))
  unfolding downsample
  downsample-Drawn same sound c p pts = elim (Bool-cases (leb (length (p ∷ pts)) (suc c))) [
    | inl b ↦
        rw b (record {
          at_most = ground (arith, b);
          starts = refl;
          ends = refl;
          only_points = λ x o. o;
        })
    | inr b ↦ rw b (with_last-Drawn same sound c p pts)
  ]
