-- ===== src/Executor/Fills/Equity.antt =====
-- What a fill does to the booked profit and the open position together.
use mochi_position_manager.Prelude.{
  ℕ, ◌+◌, ◌*◌, ◌/◌, ◌%◌, ◌-◌, ◌<◌, ◌≡◌, refl, sym, ◌∙◌, subst, ◌⊎◌, inl, inr, arith, if◌then◌else◌,
  ltb,
}
use native.Mathlib.Decide.{dec_le}
use native.Mathlib.Nat.{mod-lt}
use mochi_position_manager.Prelude.Int.{
  ℤ, pos, negsuc, abs, ◌+ℤ◌, eq_of_parts, int_laws, +ℤ_zero_left, +ℤ_zero_right,
}
use mochi_position_manager.Models.{Side, buy, sell, signed_qty, opposite, flat_eps}
use mochi_position_manager.Executor.Fills.{fill_math, increased_avg, closing_profit}
use mochi_position_manager.Executor.Fills.Worth.{
  worth, worth_parts, abs-signed_qty, increase_worth, reduce_worth, reverse_worth,
}

-- A net position without dust: flat, or beyond the tolerance.
abbrev pub NotDust : ℤ → Type 0
NotDust net = (abs net ≡ 0) ⊎ (flat_eps < abs net)

-- The fill adds to the net, and makes no value but for a rounding of the average.
abbrev pub Conserves : (old_net : ℤ) (old_avg : ℕ) (signed : ℤ) (qty price mark : ℕ) → Type 0
Conserves old_net old_avg signed qty price mark =
    let (new_net, new_avg, realized) = fill_math old_net old_avg signed qty price in
    (new_net ≡ old_net +ℤ signed)
    × (rounding : ℤ) × (realized +ℤ worth new_net new_avg mark
        ≡ worth old_net old_avg mark +ℤ worth signed price mark +ℤ rounding)
    × ((rounding ≡ pos 0) ⊎ (abs rounding < abs new_net))

fill_math_flat :
    (avg : ℕ) (signed : ℤ) (qty price : ℕ)
    → fill_math (pos 0) avg signed qty price ≡ (signed, price, pos 0)
unfolding fill_math ◌+ℤ◌
fill_math_flat avg signed qty price = ground arith

fill_math_increase :
    (d : Side) (n avg q p : ℕ)
    → flat_eps < n
    → 0 < q
    → fill_math (signed_qty d n) avg (signed_qty d q) q p
      ≡ (signed_qty d (n + q), (n * avg + q * p) / (n + q), pos 0)
unfolding fill_math increased_avg ◌+ℤ◌
fill_math_increase buy n avg q p h k = ground arith
fill_math_increase sell n avg q p h k = ground arith

fill_math_reduce :
    (d : Side) (r avg q p : ℕ)
    → flat_eps < q + r
    → 0 < q
    → fill_math (signed_qty d (q + r)) avg (signed_qty (opposite d) q) q p ≡ (
      signed_qty d r,
      (if ltb r flat_eps then 0 else avg),
      closing_profit (signed_qty d (q + r)) avg q p,
    )
unfolding fill_math ◌+ℤ◌
fill_math_reduce buy r avg q p h k = ground arith
fill_math_reduce sell r avg q p h k = ground arith

fill_math_reverse :
    (d : Side) (n avg r p : ℕ)
    → flat_eps < n
    → flat_eps < r
    → fill_math (signed_qty d n) avg (signed_qty (opposite d) (n + r)) (n + r) p
      ≡ (signed_qty (opposite d) r, p, closing_profit (signed_qty d n) avg (n + r) p)
unfolding fill_math ◌+ℤ◌
fill_math_reverse buy n avg r p h k = ground arith
fill_math_reverse sell n avg r p h k = ground arith

signed_add : (d : Side) (n q : ℕ) → signed_qty d (n + q) ≡ signed_qty d n +ℤ signed_qty d q
unfolding ◌+ℤ◌
signed_add buy n q = ground arith
signed_add sell n q = ground arith

signed_reduce :
    (d : Side) (q r : ℕ) → signed_qty d r ≡ signed_qty d (q + r) +ℤ signed_qty (opposite d) q
unfolding ◌+ℤ◌
signed_reduce buy q r = ground arith
signed_reduce sell q r = ground arith

signed_reverse :
    (d : Side) (n r : ℕ)
    → signed_qty (opposite d) r ≡ signed_qty d n +ℤ signed_qty (opposite d) (n + r)
unfolding ◌+ℤ◌
signed_reverse buy n r = ground arith
signed_reverse sell n r = ground arith

signed_zero : (d : Side) → signed_qty d 0 ≡ pos 0
signed_zero buy = refl
signed_zero sell = refl

flat_worth : (avg mark : ℕ) → worth (pos 0) avg mark ≡ pos 0
flat_worth avg mark = omega (int_laws, worth_parts (pos 0) avg mark)

zero_worth : (avg other mark : ℕ) → worth (pos 0) avg mark ≡ worth (pos 0) other mark
zero_worth avg other mark = flat_worth avg mark ∙ sym (flat_worth other mark)

-- A position that was closed keeps no entry, and is worth nothing at any.
left_worth :
    (d : Side) (r avg mark : ℕ)
    → (r ≡ 0) ⊎ (flat_eps < r)
    → worth (signed_qty d r) (if ltb r flat_eps then 0 else avg) mark
      ≡ worth (signed_qty d r) avg mark
left_worth d r avg mark (inl z) = rw (z, signed_zero d) (zero_worth _ avg mark)
left_worth d r avg mark (inr h) = ground arith

as_signed : (net : ℤ) → (d : Side) × (net ≡ signed_qty d (abs net))
as_signed (pos n) = (buy, ground arith)
as_signed (negsuc n) = (sell, ground arith)

Conserves-flat :
    (avg : ℕ) (signed : ℤ) (qty price mark : ℕ) → Conserves (pos 0) avg signed qty price mark
Conserves-flat avg signed qty price mark =
    rw (fill_math_flat avg signed qty price)
      (sym (+ℤ_zero_left signed), pos 0, rw (flat_worth avg mark, +ℤ_zero_right), inl refl)

Conserves-increase :
    (d : Side) (n avg q p mark : ℕ)
    → flat_eps < n
    → 0 < q
    → Conserves (signed_qty d n) avg (signed_qty d q) q p mark
Conserves-increase d n avg q p mark h k =
    let total = n * avg + q * p in
    rw (fill_math_increase d n avg q p h k) (
      signed_add d n q,
      signed_qty d (total % (n + q)),
      rw +ℤ_zero_left (increase_worth d n avg q p mark),
      inr (
          rw (abs-signed_qty d (total % (n + q)), abs-signed_qty d (n + q))
            (mod-lt total (omega arith))),
    )

Conserves-reduce :
    (d : Side) (r avg q p mark : ℕ)
    → flat_eps < q + r
    → 0 < q
    → (r ≡ 0) ⊎ (flat_eps < r)
    → Conserves (signed_qty d (q + r)) avg (signed_qty (opposite d) q) q p mark
Conserves-reduce d r avg q p mark h k left = rw (fill_math_reduce d r avg q p h k) (
  signed_reduce d q r,
  pos 0,
  rw (+ℤ_zero_right, left_worth d r avg mark left) (reduce_worth d r avg q p mark (omega arith)),
  inl refl,
)

Conserves-reverse :
    (d : Side) (n avg r p mark : ℕ)
    → flat_eps < n
    → flat_eps < r
    → Conserves (signed_qty d n) avg (signed_qty (opposite d) (n + r)) (n + r) p mark
Conserves-reverse d n avg r p mark h k = rw (fill_math_reverse d n avg r p h k) (
  signed_reverse d n r,
  pos 0,
  rw +ℤ_zero_right (reverse_worth d n avg r p mark (omega arith)),
  inl refl,
)

left_clean :
    (d : Side) (q r : ℕ)
    → NotDust (signed_qty d (q + r) +ℤ signed_qty (opposite d) q)
    → (r ≡ 0) ⊎ (flat_eps < r)
left_clean d q r c =
    subst (λ t. (t ≡ 0) ⊎ (flat_eps < t)) (abs-signed_qty d r)
      (subst NotDust (sym (signed_reduce d q r)) c)

turned_clean :
    (d : Side) (n r : ℕ)
    → 0 < r
    → NotDust (signed_qty d n +ℤ signed_qty (opposite d) (n + r))
    → flat_eps < r
turned_clean d n r h c =
    let both =
      subst (λ t. (t ≡ 0) ⊎ (flat_eps < t)) (abs-signed_qty (opposite d) r)
        (subst NotDust (sym (signed_reverse d n r)) c) in
    omega arith

-- The fill against a position: part of it, all of it, or beyond it.
Conserves-opposite :
    (d : Side) (n avg q p mark : ℕ)
    → flat_eps < n
    → 0 < q
    → NotDust (signed_qty d n +ℤ signed_qty (opposite d) q)
    → Conserves (signed_qty d n) avg (signed_qty (opposite d) q) q p mark
Conserves-opposite d n avg q p mark h k new = elim (dec_le q n) [
  | yes part ↦
      subst (λ t. Conserves (signed_qty d t) avg (signed_qty (opposite d) q) q p mark) (omega arith)
        (Conserves-reduce d (n - q) avg q p mark (omega arith) k (
          left_clean d q (n - q)
            (subst (λ t. NotDust (signed_qty d t +ℤ signed_qty (opposite d) q)) (omega arith) new)))
  | no beyond ↦
      subst (λ t. Conserves (signed_qty d n) avg (signed_qty (opposite d) t) t p mark) (omega arith)
        (Conserves-reverse d n avg (q - n) p mark h (
          turned_clean d n (q - n) (omega arith)
            (subst (λ t. NotDust (signed_qty d n +ℤ signed_qty (opposite d) t)) (omega arith) new)))
]

Conserves-signed :
    (d side : Side) (n avg q p mark : ℕ)
    → flat_eps < n
    → 0 < q
    → NotDust (signed_qty d n +ℤ signed_qty side q)
    → Conserves (signed_qty d n) avg (signed_qty side q) q p mark
Conserves-signed buy buy n avg q p mark h k new = Conserves-increase buy n avg q p mark h k
Conserves-signed sell sell n avg q p mark h k new = Conserves-increase sell n avg q p mark h k
Conserves-signed buy sell n avg q p mark h k new = Conserves-opposite buy n avg q p mark h k new
Conserves-signed sell buy n avg q p mark h k new = Conserves-opposite sell n avg q p mark h k new

-- Every fill, for positions without dust: the fill is added to the net, and the booked profit and
-- the new position are together worth what the old position and the fill are worth, at any mark,
-- but for a rounding of the average entry that stays under one price unit for each unit held.
pub fill_math-Conserves :
    (old_net : ℤ) (old_avg : ℕ) (side : Side) (qty price mark : ℕ)
    → NotDust old_net
    → 0 < qty
    → NotDust (old_net +ℤ signed_qty side qty)
    → Conserves old_net old_avg (signed_qty side qty) qty price mark
fill_math-Conserves old_net old_avg side qty price mark (inl flat) h new =
    let e : old_net ≡ pos 0 = eq_of_parts old_net (pos 0) (omega arith) in
    rw e (Conserves-flat old_avg (signed_qty side qty) qty price mark)
fill_math-Conserves old_net old_avg side qty price mark (inr held) h new =
    let (d, e) = as_signed old_net in
    subst (λ t. Conserves t old_avg (signed_qty side qty) qty price mark) (sym e)
      (Conserves-signed d side (abs old_net) old_avg qty price mark held h
        (subst (λ t. NotDust (t +ℤ signed_qty side qty)) e new))
