-- ===== src/EquityBackfill/Daily.antt =====
-- The rows of the equity backfill against their description day by day.
use mochi_position_manager.Prelude.{
  ℕ, zero, suc, ◌+◌, ◌-◌, ◌*◌, ◌/◌, ◌≤◌, ◌≡◌, refl, sym, ◌∙◌, inl, inr, Bool-cases, true, false,
  List, [], ◌∷◌, All, All-weaken, map, select, arith, leb,
}
use mochi_position_manager.Prelude.Int.{ℤ, pos, ◌+ℤ◌, ◌-ℤ◌}
use mochi_position_manager.EquityBackfill.{
  Event, day_ms, insert_event, by_ts, walk, gained, carried, Row, day_end, daily_loop,
  build_daily_rows,
}

-- The total of the events up to a time, in their order.
unfoldable total_of : (step : ℤ → Event → ℤ) → ℤ → List Event → ℤ
total_of step total [] = total
total_of step total (e ∷ es) = total_of step (step total e) es

abbrev pub upto : ℕ → List Event → List Event
upto end es = select (λ e. leb e.0 end) es

-- The sum of the profits, the first one first.
unfoldable pub gain_of : ℤ → List Event → ℤ
gain_of total [] = total
gain_of total (e ∷ es) = gain_of (total +ℤ e.1) es

-- The last total.
unfoldable pub last_of : ℤ → List Event → ℤ
last_of total [] = total
last_of total (e ∷ es) = last_of e.1 es

abbrev pub since : ℕ → List Event → List Event
since start_ms es = select (λ e. leb start_ms e.0) es

total_of-gained :
    (start_ms : ℕ) (total : ℤ) (es : List Event)
    → total_of (gained start_ms) total es ≡ gain_of total (since start_ms es)
unfolding total_of gain_of
total_of-gained start_ms total [] = refl
total_of-gained start_ms total (e ∷ es) = elim (Bool-cases (leb start_ms e.0)) [
  | inl b ↦ rw b (total_of-gained start_ms (total +ℤ e.1) es)
  | inr b ↦ rw b (total_of-gained start_ms total es)
]

total_of-carried : (total : ℤ) (es : List Event) → total_of carried total es ≡ last_of total es
unfolding total_of last_of
total_of-carried total [] = refl
total_of-carried total (e ∷ es) = total_of-carried e.1 es

-- No event is before an earlier one.
unfoldable pub IsSorted : List Event → Type 0
IsSorted [] = Unit
IsSorted (e ∷ es) = All (λ x. leb e.0 x.0 ≡ true) es × IsSorted es

insert-All :
    (P : Event → Type 0) (e : Event) (es : List Event) → P e → All P es → All P (insert_event e es)
unfolding insert_event
insert-All P e [] p h = (p, tt)
insert-All P e (x ∷ xs) p (q, h) = elim (Bool-cases (leb e.0 x.0)) [
  | inl b ↦ rw b (p, (q, h))
  | inr b ↦ rw b (q, insert-All P e xs p h)
]

insert-IsSorted : (e : Event) (es : List Event) → IsSorted es → IsSorted (insert_event e es)
unfolding insert_event IsSorted
insert-IsSorted e [] h = (tt, tt)
insert-IsSorted e (x ∷ xs) (a, h) = elim (Bool-cases (leb e.0 x.0)) [
  | inl b ↦ rw b ((b, All-weaken _ _ xs (λ y p. ground (arith, b, p)) a), (a, h))
  | inr b ↦ rw b (insert-All _ e xs (ground (arith, b)) a, insert-IsSorted e xs h)
]

by_ts-IsSorted : (es : List Event) → IsSorted (by_ts es)
unfolding by_ts IsSorted
by_ts-IsSorted [] = tt
by_ts-IsSorted (e ∷ es) = insert-IsSorted e (by_ts es) (by_ts-IsSorted es)

-- Nothing is left of events that are all after a time.
none_upto : (end : ℕ) (es : List Event) → All (λ x. leb x.0 end ≡ false) es → upto end es ≡ []
none_upto end [] h = refl
none_upto end (e ∷ es) (b, h) = rw (b, none_upto end es h) refl

module _ (step : ℤ → Event → ℤ) (end : ℕ) where
  walk-IsSorted : (total : ℤ) (es : List Event) → IsSorted es → IsSorted (walk step end total es).1
  unfolding walk IsSorted
  walk-IsSorted total [] h = tt
  walk-IsSorted total (e ∷ es) (a, h) = elim (Bool-cases (leb e.0 end)) [
    | inl b ↦ rw b (walk-IsSorted (step total e) es h)
    | inr b ↦ rw b (a, h)
  ]

  -- What the walk leaves is after the time.
  walk_rest :
      (total : ℤ) (es : List Event)
      → IsSorted es
      → All (λ x. leb x.0 end ≡ false) (walk step end total es).1
  unfolding walk IsSorted
  walk_rest total [] h = tt
  walk_rest total (e ∷ es) (a, h) = elim (Bool-cases (leb e.0 end)) [
    | inl b ↦ rw b (walk_rest (step total e) es h)
    | inr b ↦ rw b (b, All-weaken _ _ es (λ y p. ground (arith, b, p)) a)
  ]

  -- The walk goes on where a later one would.
  walk_later :
      (later : ℕ) (total : ℤ) (es : List Event)
      → end ≤ later
      → total_of step total (upto later es)
        ≡ total_of step (walk step end total es).0 (upto later (walk step end total es).1)
  unfolding walk total_of
  walk_later later total [] h = refl
  walk_later later total (e ∷ es) h = elim (Bool-cases (leb e.0 end)) [
    | inl b ↦
        let c : leb e.0 later ≡ true = ground (arith, b, h) in
        rw (b, c) (walk_later later (step total e) es h)
    | inr b ↦ rw b refl
  ]

  -- The walk is the total of the events up to its end.
  walk-total_of :
      (total : ℤ) (es : List Event)
      → IsSorted es
      → (walk step end total es).0 ≡ total_of step total (upto end es)
  unfolding total_of
  walk-total_of total es h = sym (
      walk_later end total es (ground arith)
      ∙ rw (none_upto end (walk step end total es).1 (walk_rest total es h)) refl)

-- The totals of a walk agree with the totals of all events, from a time on.
abbrev Resumes :
    (step : ℤ → Event → ℤ) (init : ℤ) (all : List Event) (lo : ℕ) → ℤ → List Event → Type 0
Resumes step init all lo total es =
    IsSorted es
    × ((t : ℕ) → lo ≤ t → total_of step init (upto t all) ≡ total_of step total (upto t es))

module _ (step : ℤ → Event → ℤ) (init : ℤ) (all : List Event) (lo end : ℕ) (below : lo ≤ end) where
  walk-Resumes :
      (total : ℤ) (es : List Event)
      → Resumes step init all lo total es
      → Resumes step init all end (walk step end total es).0 (walk step end total es).1
  walk-Resumes total es (s, f) = (
    walk-IsSorted step end total es s,
    λ t h. f t (omega (arith, below, h)) ∙ walk_later step end t total es h,
  )

  walk_found :
      (total : ℤ) (es : List Event)
      → Resumes step init all lo total es
      → (walk step end total es).0 ≡ total_of step init (upto end all)
  walk_found total es (s, f) = walk-total_of step end total es s ∙ sym (f end below)

-- The days from a day on.
unfoldable pub days_from : (d count : ℕ) → List ℕ
days_from d zero = []
days_from d (suc count) = d ∷ days_from (d + day_ms) count

-- The row of a day: both totals over the events up to its end, rounded.
abbrev pub row_of_day : (round6 : ℤ → ℤ) (start_ms : ℕ) (base : ℤ) (bybit hl : List Event) → ℕ → Row
row_of_day round6 start_ms base bybit hl d = (
  d,
  (
    round6 (gain_of (pos 0) (since start_ms (upto (day_end d) bybit))),
    round6 (last_of base (upto (day_end d) hl) -ℤ base),
  ),
)

daily_loop_rows :
    (round6 : ℤ → ℤ) (start_ms : ℕ) (base : ℤ) (bybit hl : List Event) (lo : ℕ) (days d : ℕ)
    (bcum hcum : ℤ) (bybit' hl' : List Event)
    → lo ≤ day_end d
    → Resumes (gained start_ms) (pos 0) bybit lo bcum bybit'
    → Resumes carried base hl lo hcum hl'
    → daily_loop round6 start_ms base days d bcum hcum bybit' hl'
      ≡ map (row_of_day round6 start_ms base bybit hl) (days_from d days)
unfolding daily_loop days_from
daily_loop_rows round6 start_ms base bybit hl lo zero d bcum hcum bybit' hl' h r q = refl
daily_loop_rows round6 start_ms base bybit hl lo (suc days) d bcum hcum bybit' hl' h r q =
    let b =
      walk_found (gained start_ms) (pos 0) bybit lo (day_end d) h bcum bybit' r
      ∙ total_of-gained start_ms (pos 0) (upto (day_end d) bybit) in
    let c =
      walk_found carried base hl lo (day_end d) h hcum hl' q
      ∙ total_of-carried base (upto (day_end d) hl) in
    let rest =
      daily_loop_rows round6 start_ms base bybit hl (day_end d) days (d + day_ms)
        (walk (gained start_ms) (day_end d) bcum bybit').0 (walk carried (day_end d) hcum hl').0
        (walk (gained start_ms) (day_end d) bcum bybit').1 (walk carried (day_end d) hcum hl').1
        (omega arith) (walk-Resumes (gained start_ms) (pos 0) bybit lo (day_end d) h bcum bybit' r)
        (walk-Resumes carried base hl lo (day_end d) h hcum hl' q) in
    rw rest (rw (b, c) refl)

-- The rows of the backfill are one for each day from the start's to now's, in their order: the Bybit
-- number is the total gained from the start to the end of the day, and the Hyperliquid number the last
-- total up to the end of the day, less the last one up to the start, both in the order of the times
-- and rounded.
pub build_daily_rows-row_of_day :
    (round6 : ℤ → ℤ) (start_ms now_ms : ℕ) (bybit hl : List Event)
    → build_daily_rows round6 start_ms bybit hl now_ms
      ≡ map
          (row_of_day round6 start_ms
            (last_of (pos 0) (upto start_ms (by_ts hl)))
            (by_ts bybit)
            (by_ts hl))
          (days_from (start_ms / day_ms * day_ms) (suc (now_ms / day_ms) - start_ms / day_ms))
unfolding build_daily_rows
build_daily_rows-row_of_day round6 start_ms now_ms bybit hl =
    rw
      (walk-total_of carried start_ms (pos 0) (by_ts hl) (by_ts-IsSorted hl)
        ∙ total_of-carried (pos 0) (upto start_ms (by_ts hl)))
      (daily_loop_rows round6 start_ms _ (by_ts bybit) (by_ts hl) 0 _ _ (pos 0) _ (by_ts bybit)
        (by_ts hl) (omega arith) (by_ts-IsSorted bybit, λ t h. refl)
        (by_ts-IsSorted hl, λ t h. refl))
