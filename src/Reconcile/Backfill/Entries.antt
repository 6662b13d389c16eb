-- ===== src/Reconcile/Backfill/Entries.antt =====
-- What the backfill of entry prices changes, and a second run of it.
use mochi_position_manager.Prelude.{
  ℕ, String, ◌≡◌, refl, ap, inl, inr, Bool-cases, Bool, true, false, ◌&&◌, Option, none, some, List,
  [], ◌∷◌, ◌⊎◌, arith,
}
use mochi_position_manager.Prelude.Int.{pos}
use mochi_position_manager.Models.{Order, StrategyPosition}
use mochi_position_manager.Session.{Result, ok, raised, Result-cases}
use mochi_position_manager.Reconcile.Audit.{Replay, flat, replay}
use mochi_position_manager.Reconcile.History.{no_drift}
use mochi_position_manager.Reconcile.Backfill.{net_matches, is_off, rewritten, backfill_row}

-- All of the row but its entry price and its time.
abbrev pub Keeps : StrategyPosition → StrategyPosition → Type 0
Keeps sp sp' =
    (sp'.net_qty_base ≡ sp.net_qty_base)
    × (sp'.net_qty_usd ≡ sp.net_qty_usd)
    × (sp'.last_price ≡ sp.last_price)
    × (sp'.realized_pnl ≡ sp.realized_pnl)

-- The row is the given one but for its entry price and its time, and a later backfill with the same
-- prices leaves it.
abbrev pub Settles :
    (kline : ℕ → Result ℕ) → StrategyPosition → List Order → StrategyPosition → Type 0
Settles kline sp fills sp' =
    Keeps sp sp' × ((later : ℕ) → backfill_row later kline sp' fills ≡ ok sp')

rewritten-Keeps : (now : ℕ) (sp : StrategyPosition) (r : Replay) → Keeps sp (rewritten now sp r)
rewritten-Keeps now sp r =
    elim (Bool-cases (net_matches r.net sp.net_qty_base && is_off r.avg sp.avg_entry_price)) [
      | inl h ↦ rw h (refl, refl, refl, refl)
      | inr h ↦ rw h (refl, refl, refl, refl)
    ]

same_is_not_off : (avg : ℕ) → is_off avg avg ≡ false
same_is_not_off avg = rw (no_drift (pos avg)) (ground arith)

and_false : (a b : Bool) → b ≡ false → (a && b) ≡ false
and_false true b h = h
and_false false b h = refl

rewritten-settled :
    (later : ℕ) (sp : StrategyPosition) (r : Replay)
    → is_off r.avg sp.avg_entry_price ≡ false
    → rewritten later sp r ≡ sp
rewritten-settled later sp r h =
    rw (and_false (net_matches r.net sp.net_qty_base) (is_off r.avg sp.avg_entry_price) h) refl

rewritten-again :
    (now later : ℕ) (sp : StrategyPosition) (r : Replay)
    → rewritten later (rewritten now sp r) r ≡ rewritten now sp r
rewritten-again now later sp r =
    elim (Bool-cases (net_matches r.net sp.net_qty_base && is_off r.avg sp.avg_entry_price)) [
      | inl h ↦ rw h (
          rewritten-settled later (record sp { avg_entry_price = r.avg; updated_at = now }) r
            (same_is_not_off r.avg))
      | inr h ↦ rw (h, h) refl
    ]

backfill_fills :
    (now : ℕ) (kline : ℕ → Result ℕ) (sp : StrategyPosition) (fills : List Order)
    (r : Option Replay)
    → replay kline flat fills ≡ ok r
    → (sp' : StrategyPosition) × (backfill_row now kline sp fills ≡ ok sp')
      × Settles kline sp fills sp'
unfolding backfill_row replay
backfill_fills now kline sp [] r h = (sp, refl, ((refl, refl, refl, refl), λ later. refl))
backfill_fills now kline sp (o ∷ os) none h =
    (sp, rw h refl, ((refl, refl, refl, refl), λ later. rw h refl))
backfill_fills now kline sp (o ∷ os) (some r) h = (
  rewritten now sp r,
  rw h refl,
  (rewritten-Keeps now sp r, λ later. rw h (ap ok (rewritten-again now later sp r))),
)

-- Whatever the price oracle answers, the backfill of a row returns a row with the given quantities,
-- last price and booked profit, and a second backfill of that row, at any time and with the same fills
-- and prices, returns it as it is; or it raises what the oracle raised in the replay of the fills.
pub backfill_row-Settles :
    (now : ℕ) (kline : ℕ → Result ℕ) (sp : StrategyPosition) (fills : List Order)
    → ((sp' : StrategyPosition) × (backfill_row now kline sp fills ≡ ok sp')
        × Settles kline sp fills sp')
      ⊎ ((why : String) × (replay kline flat fills ≡ raised why)
          × (backfill_row now kline sp fills ≡ raised why))
unfolding backfill_row replay
backfill_row-Settles now kline sp [] = inl (sp, refl, ((refl, refl, refl, refl), λ later. refl))
backfill_row-Settles now kline sp (o ∷ os) = elim (Result-cases (replay kline flat (o ∷ os))) [
  | inl (r, h) ↦ inl (backfill_fills now kline sp (o ∷ os) r h)
  | inr (why, h) ↦ inr (why, h, rw h refl)
]
