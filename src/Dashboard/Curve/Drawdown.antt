-- ===== src/Dashboard/Curve/Drawdown.antt =====
-- The metrics of a series (`_equity_metrics`, app/routes/dashboard.py).
use mochi_position_manager.Prelude.{
  Occurs, head, tail, ℕ, ◌≡◌, refl, sym, ap, ◌∙◌, inl, inr, ◌⊎◌, Bool-cases, none, some, List, [],
  ◌∷◌, arith, if◌then◌else◌,
}
use mochi_position_manager.Prelude.Int.{ℤ, pos, ◌+ℤ◌, ◌-ℤ◌, ◌≤ℤ◌, ltb_ℤ, int_laws}
use mochi_position_manager.Dashboard.Curve.{
  Falls, EquityMetrics, max_ℤ, at_start, fall_to, falls, peak_of, last_or, equity_metrics,
}

-- The value w stands at v's place or later.
pub data AtOrAfter (v w : ℤ) : List ℤ → Type 0 where
  here : {x : ℤ} {vs : List ℤ} → v ≡ x → Occurs w (x ∷ vs) → AtOrAfter v w (x ∷ vs)
  later : {x : ℤ} {vs : List ℤ} → AtOrAfter v w vs → AtOrAfter v w (x ∷ vs)

-- The metrics' drawdown is the largest fall of the series.
pub record LargestFall (capital_base : ℕ) (vals : List ℤ) (m : EquityMetrics) : Type 0 where
  pub bounds : (v w : ℤ) → AtOrAfter v w vals → v -ℤ w ≤ℤ m.max_drawdown
  pub from : ℤ
  pub to : ℤ
  pub falls_there : AtOrAfter from to vals
  pub is_attained : m.max_drawdown ≡ from -ℤ to
  pub ratio : m.max_drawdown_pct ≡ (
      if ltb_ℤ (pos 0) (pos capital_base +ℤ from)
      then some (m.max_drawdown, pos capital_base +ℤ from)
      else none)
  pub covers_peak : m.dd_from_peak ≤ℤ m.max_drawdown

max_bounds : (a b : ℤ) → (a ≤ℤ max_ℤ a b) × (b ≤ℤ max_ℤ a b)
max_bounds a b = ground arith

-- One more value raises the peak to it and the fall to what lies between them.
fall_to_bounds :
    (v : ℤ) (f : Falls)
    → let g = fall_to v f in
      (f.run ≤ℤ g.run) × (v ≤ℤ g.run) × (f.max_dd ≤ℤ g.max_dd) × (g.run -ℤ v ≤ℤ g.max_dd)
fall_to_bounds v f =
    let up = max_bounds f.run v in
    elim (Bool-cases (ltb_ℤ f.max_dd (max_ℤ f.run v -ℤ v))) [
      | inl b ↦ rw b (up.0, up.1, ground (arith, b), ground arith)
      | inr b ↦ rw b (up.0, up.1, ground arith, ground (arith, b))
    ]

-- Falls from a value at least as high, and bounds that are larger, cover more.
covered : (a b w m : ℤ) → a ≤ℤ b → b -ℤ w ≤ℤ m → a -ℤ w ≤ℤ m
covered a b w m h k = omega (int_laws, h, k)

≤ℤ_trans : (a b c : ℤ) → a ≤ℤ b → b ≤ℤ c → a ≤ℤ c
≤ℤ_trans a b c h k = omega (arith, h, k)

-- The fall that is found covers the one so far,
falls-grows : (vs : List ℤ) (f : Falls) → f.max_dd ≤ℤ (falls vs f).max_dd
unfolding falls
falls-grows [] f = ground arith
falls-grows (v ∷ vs) f =
    ≤ℤ_trans f.max_dd (fall_to v f).max_dd (falls vs (fall_to v f)).max_dd (fall_to_bounds v f).2
      (falls-grows vs (fall_to v f))

-- and every fall from the peak so far,
falls-run :
    (a w : ℤ) (vs : List ℤ) (f : Falls) → a ≤ℤ f.run → Occurs w vs → a -ℤ w ≤ℤ (falls vs f).max_dd
unfolding falls
falls-run a w [] f h i = elim i [ ]
falls-run a w (v ∷ vs) f h (head e) =
    let g = fall_to v f in
    let (raised, _, _, fell) = fall_to_bounds v f in
    rw e (
      ≤ℤ_trans (a -ℤ v) g.max_dd (falls vs g).max_dd
        (covered a g.run v g.max_dd (≤ℤ_trans a f.run g.run h raised) fell) (falls-grows vs g))
falls-run a w (v ∷ vs) f h (tail i) =
    let g = fall_to v f in falls-run a w vs g (≤ℤ_trans a f.run g.run h (fall_to_bounds v f).0) i

-- and so every fall of the series.
falls-bounds :
    (v w : ℤ) (vs : List ℤ) (f : Falls) → AtOrAfter v w vs → v -ℤ w ≤ℤ (falls vs f).max_dd
unfolding falls
falls-bounds v w [] f i = elim i [ ]
falls-bounds v w (x ∷ vs) f (here e (head k)) =
    let g = fall_to x f in
    let (_, reached, _, fell) = fall_to_bounds x f in
    rw (e, k)
      (≤ℤ_trans (x -ℤ x) g.max_dd (falls vs g).max_dd (covered x g.run x g.max_dd reached fell)
        (falls-grows vs g))
falls-bounds v w (x ∷ vs) f (here e (tail i)) =
    let g = fall_to x f in falls-run v w vs g (rw e (fall_to_bounds x f).1) i
falls-bounds v w (x ∷ vs) f (later i) = falls-bounds v w vs (fall_to x f) i

-- Where the fall that is found lies: it is the one so far, or one from the peak so far or within the
-- values, to a value.
data Found (f : Falls) (vs : List ℤ) (r : Falls) : Type 0 where
  kept : r.max_dd ≡ f.max_dd → r.dd_peak ≡ f.dd_peak → Found f vs r
  from_run : {to : ℤ} → r.dd_peak ≡ f.run → Occurs to vs → r.max_dd ≡ r.dd_peak -ℤ to → Found f vs r
  within : {to : ℤ} → AtOrAfter r.dd_peak to vs → r.max_dd ≡ r.dd_peak -ℤ to → Found f vs r

max-cases : (a b : ℤ) → (max_ℤ a b ≡ a) ⊎ (max_ℤ a b ≡ b)
max-cases a b = elim (Bool-cases (ltb_ℤ a b)) [ inl e ↦ inr (rw e refl) | inr e ↦ inl (rw e refl) ]

fall_to_run : (v : ℤ) (f : Falls) → (fall_to v f).run ≡ max_ℤ f.run v
fall_to_run v f = elim (Bool-cases (ltb_ℤ f.max_dd (max_ℤ f.run v -ℤ v))) [
  | inl b ↦ rw b refl
  | inr b ↦ rw b refl
]

fall_to-cases :
    (v : ℤ) (f : Falls)
    → let g = fall_to v f in
      ((g.max_dd ≡ f.max_dd) × (g.dd_peak ≡ f.dd_peak))
      ⊎ ((g.dd_peak ≡ g.run) × (g.max_dd ≡ g.dd_peak -ℤ v))
fall_to-cases v f = elim (Bool-cases (ltb_ℤ f.max_dd (max_ℤ f.run v -ℤ v))) [
  | inl b ↦ inr (rw b (refl, refl))
  | inr b ↦ inl (rw b (refl, refl))
]

-- A fall from the new peak is one from the old, or from the new value.
from_new_run :
    (v to : ℤ) (vs : List ℤ) (f r : Falls)
    → r.dd_peak ≡ (fall_to v f).run
    → Occurs to (v ∷ vs)
    → r.max_dd ≡ r.dd_peak -ℤ to
    → Found f (v ∷ vs) r
from_new_run v to vs f r e i gap = elim (max-cases f.run v) [
  | inl k ↦ from_run (e ∙ fall_to_run v f ∙ k) i gap
  | inr k ↦ within (here (e ∙ fall_to_run v f ∙ k) i) gap
]

one_more : (v : ℤ) (vs : List ℤ) (f r : Falls) → Found (fall_to v f) vs r → Found f (v ∷ vs) r
one_more v vs f r (kept e k) = elim (fall_to-cases v f) [
  | inl (d, p) ↦ kept (e ∙ d) (k ∙ p)
  | inr (p, d) ↦ from_new_run v v vs f r (k ∙ p) (head refl) (e ∙ d ∙ ap (λ q. q -ℤ v) (sym k))
]
one_more v vs f r (from_run {to} e i gap) = from_new_run v to vs f r e (tail i) gap
one_more v vs f r (within i gap) = within (later i) gap

falls-Found : (vs : List ℤ) (f : Falls) → Found f vs (falls vs f)
unfolding falls
falls-Found [] f = kept refl refl
falls-Found (v ∷ vs) f = one_more v vs f (falls vs (fall_to v f)) (falls-Found vs (fall_to v f))

peak-Occurs : (m : ℤ) (vs : List ℤ) → Occurs (peak_of m vs) (m ∷ vs)
unfolding peak_of
peak-Occurs m [] = head refl
peak-Occurs m (v ∷ vs) = elim (max-cases m v) [
  | inl e ↦ rw e (skip_second (peak-Occurs m vs))
  | inr e ↦ rw e (tail (peak-Occurs v vs))
]
  where
    skip_second : {w : ℤ} → Occurs w (m ∷ vs) → Occurs w (m ∷ v ∷ vs)
    skip_second (head e) = head e
    skip_second (tail i) = tail (tail i)

last-Occurs : (x : ℤ) (vs : List ℤ) → Occurs (last_or x vs) (x ∷ vs)
last-Occurs x [] = head refl
last-Occurs x (v ∷ vs) = tail (last-Occurs v vs)

-- The last value stands after every value.
last-AtOrAfter : (p x : ℤ) (vs : List ℤ) → Occurs p (x ∷ vs) → AtOrAfter p (last_or x vs) (x ∷ vs)
last-AtOrAfter p x vs (head e) = here e (last-Occurs x vs)
last-AtOrAfter p x [] (tail i) = elim i [ ]
last-AtOrAfter p x (v ∷ vs) (tail i) = later (last-AtOrAfter p v vs i)

-- The fall of a whole series.
falls-attained :
    (v : ℤ) (vs : List ℤ) (r : Falls)
    → Found (at_start v) (v ∷ vs) r
    → (to : ℤ) × AtOrAfter r.dd_peak to (v ∷ vs) × (r.max_dd ≡ r.dd_peak -ℤ to)
falls-attained v vs r (kept e k) = (v, here k (head refl), rw (e, k) (omega int_laws))
falls-attained v vs r (from_run {to} e i gap) = (to, here e i, gap)
falls-attained v vs r (within {to} i gap) = (to, i, gap)

-- The drawdown that the page shows of a series is its largest fall: no value lies further below an earlier
-- one, some value lies exactly that far below one at or before it, the percentage is of that earlier
-- value over the capital, and the fall from the peak to the last value is no larger.
pub equity_metrics-LargestFall :
    (capital_base : ℕ) (v : ℤ) (vs : List ℤ)
    → (m : EquityMetrics) × (equity_metrics capital_base (v ∷ vs) ≡ some m)
      × LargestFall capital_base (v ∷ vs) m
unfolding equity_metrics
equity_metrics-LargestFall capital_base v vs =
    let start = at_start v in
    let (to, i, gap) = falls-attained v vs (falls (v ∷ vs) start) (falls-Found (v ∷ vs) start) in
    (
      _,
      refl,
      record {
        bounds = λ a w k. falls-bounds a w (v ∷ vs) start k;
        from = (falls (v ∷ vs) start).dd_peak;
        to = to;
        falls_there = i;
        is_attained = gap;
        ratio = refl;
        covers_peak =
            falls-bounds (peak_of v vs) (last_or v vs) (v ∷ vs) start
              (last-AtOrAfter (peak_of v vs) v vs (peak-Occurs v vs));
      },
    )
