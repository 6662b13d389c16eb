-- ===== src/Executor/Fills/Worth.antt =====
-- The worth of a position at a mark, and how it changes as a position grows, shrinks or turns.
use native.Mathlib.Nat.{div-add-mod'}
use mochi_position_manager.Prelude.{ℕ, ◌+◌, ◌*◌, ◌/◌, ◌%◌, ◌<◌, zero, ◌≡◌, arith, suc, min, ap}
use mochi_position_manager.Prelude.Int.{
  ℤ, pos, negsuc, pos_part, neg_part, sub_ℕ, sub_ℕ_parts, abs, ◌+ℤ◌, ◌*ℤ◌, *ℤ_parts, int_laws,
}
use mochi_position_manager.Models.{Side, buy, sell, signed_qty, opposite}
use mochi_position_manager.Executor.Fills.{closing_profit, direction}

-- The profit of an open position at a mark price.
unfoldable pub worth : (net : ℤ) (avg mark : ℕ) → ℤ
worth net avg mark = net *ℤ sub_ℕ mark avg

pub worth_parts :
    (net : ℤ) (avg mark : ℕ)
    → pos_part (worth net avg mark) + pos_part net * avg + neg_part net * mark
      ≡ neg_part (worth net avg mark) + pos_part net * mark + neg_part net * avg
unfolding worth
worth_parts net avg mark = omega (
  arith,
  *ℤ_parts net (sub_ℕ mark avg),
  ap (λ (t : ℕ). pos_part net * t) (sub_ℕ_parts mark avg),
  ap (λ (t : ℕ). neg_part net * t) (sub_ℕ_parts mark avg),
)

pub worth_sell :
    (n avg mark : ℕ)
    → pos_part (worth (signed_qty sell n) avg mark) + n * mark
      ≡ neg_part (worth (signed_qty sell n) avg mark) + n * avg
worth_sell zero avg mark = omega (arith, worth_parts (pos 0) avg mark)
worth_sell (suc n) avg mark =
    let short : signed_qty sell (suc n) ≡ negsuc n = ground arith in
    rw short (omega (arith, worth_parts (negsuc n) avg mark))

scaled :
    (x : ℤ) (c u v : ℕ)
    → pos_part x + u ≡ neg_part x + v
    → pos_part (x *ℤ pos c) + c * u ≡ neg_part (x *ℤ pos c) + c * v
scaled x c u v h = omega (arith, *ℤ_parts x (pos c), ap (λ (t : ℕ). t * c) h)

pub abs-signed_qty : (d : Side) (n : ℕ) → abs (signed_qty d n) ≡ n
abs-signed_qty buy n = omega arith
abs-signed_qty sell n = ground arith

closing_long :
    (n avg q p c : ℕ)
    → 0 < n
    → min q n ≡ c
    → pos_part (closing_profit (signed_qty buy n) avg q p) + c * avg
      ≡ neg_part (closing_profit (signed_qty buy n) avg q p) + c * p
unfolding closing_profit
closing_long n avg q p c h e =
    let up : direction (pos n) ≡ pos 1 = ground arith in
    rw (abs-signed_qty buy n, e, up)
      (scaled (pos 1 *ℤ sub_ℕ p avg) c avg p
        (omega (arith, *ℤ_parts (pos 1) (sub_ℕ p avg), sub_ℕ_parts p avg)))

closing_short :
    (n avg q p c : ℕ)
    → 0 < n
    → min q n ≡ c
    → pos_part (closing_profit (signed_qty sell n) avg q p) + c * p
      ≡ neg_part (closing_profit (signed_qty sell n) avg q p) + c * avg
unfolding closing_profit
closing_short n avg q p c h e =
    let down : direction (signed_qty sell n) ≡ negsuc 0 = ground arith in
    rw (abs-signed_qty sell n, e, down)
      (scaled (negsuc 0 *ℤ sub_ℕ p avg) c p avg
        (omega (arith, *ℤ_parts (negsuc 0) (sub_ℕ p avg), sub_ℕ_parts p avg)))

-- An increase: the rounded average leaves less than one price unit for each unit held.
pub increase_worth :
    (d : Side) (n avg q p m : ℕ)
    → let total = n * avg + q * p in
      worth (signed_qty d (n + q)) (total / (n + q)) m
      ≡ worth (signed_qty d n) avg m +ℤ worth (signed_qty d q) p m +ℤ signed_qty d (total % (n + q))
increase_worth buy n avg q p m =
    let total = n * avg + q * p in
    omega (
      int_laws,
      worth_parts (pos (n + q)) (total / (n + q)) m,
      worth_parts (pos n) avg m,
      worth_parts (pos q) p m,
      div-add-mod' total (n + q),
    )
increase_worth sell n avg q p m =
    let total = n * avg + q * p in
    omega (
      int_laws,
      worth_sell (n + q) (total / (n + q)) m,
      worth_sell n avg m,
      worth_sell q p m,
      sub_ℕ_parts 0 (total % (n + q)),
      div-add-mod' total (n + q),
    )

-- Closing q of q + r units: the profit and what is left are worth what was held and the fill.
pub reduce_worth :
    (d : Side) (r avg q p m : ℕ)
    → 0 < q + r
    → closing_profit (signed_qty d (q + r)) avg q p +ℤ worth (signed_qty d r) avg m
      ≡ worth (signed_qty d (q + r)) avg m +ℤ worth (signed_qty (opposite d) q) p m
reduce_worth buy r avg q p m h = omega (
  int_laws,
  closing_long (q + r) avg q p q h (omega arith),
  worth_parts (pos (q + r)) avg m,
  worth_parts (pos r) avg m,
  worth_sell q p m,
)
reduce_worth sell r avg q p m h = omega (
  int_laws,
  closing_short (q + r) avg q p q h (omega arith),
  worth_sell (q + r) avg m,
  worth_sell r avg m,
  worth_parts (pos q) p m,
)

-- A reversal: the old leg of n units is closed, and r units are opened at the fill price.
pub reverse_worth :
    (d : Side) (n avg r p m : ℕ)
    → 0 < n
    → closing_profit (signed_qty d n) avg (n + r) p +ℤ worth (signed_qty (opposite d) r) p m
      ≡ worth (signed_qty d n) avg m +ℤ worth (signed_qty (opposite d) (n + r)) p m
reverse_worth buy n avg r p m h = omega (
  int_laws,
  closing_long n avg (n + r) p n h (omega arith),
  worth_parts (pos n) avg m,
  worth_sell (n + r) p m,
  worth_sell r p m,
)
reverse_worth sell n avg r p m h = omega (
  int_laws,
  closing_short n avg (n + r) p n h (omega arith),
  worth_sell n avg m,
  worth_parts (pos (n + r)) p m,
  worth_parts (pos r) p m,
)
