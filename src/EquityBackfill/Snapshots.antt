-- ===== src/EquityBackfill/Snapshots.antt =====
-- The table of snapshots after an equity backfill.
use mochi_position_manager.Prelude.{
  ℕ, ◌≡◌, refl, ap, inl, inr, Bool-cases, Option, none, some, List, [], ◌∷◌, ◌++◌, map, select,
}
use mochi_position_manager.Prelude.Int.{ℤ}
use mochi_position_manager.Session.{Result}
use mochi_position_manager.EquityBackfill.{
  Event, Row, EquitySnapshot, is_live, snapshot_of, pulled, build_daily_rows, with_backfill,
  backfill_equity,
}

-- Rows of a backfill are no live rows, so they go with the next one.
select_live_append :
    (now_ms : ℕ) (table : List EquitySnapshot) (rows : List Row)
    → select is_live (select is_live table ++ map (snapshot_of now_ms) rows) ≡ select is_live table
select_live_append now_ms [] [] = refl
select_live_append now_ms [] (r ∷ rows) = select_live_append now_ms [] rows
select_live_append now_ms (x ∷ xs) rows = elim (Bool-cases (is_live x)) [
  | inl b ↦ rw (b, b) (ap (λ t. x ∷ t) (select_live_append now_ms xs rows))
  | inr b ↦ rw b (select_live_append now_ms xs rows)
]

with_backfill_again :
    (round6 : ℤ → ℤ) (start_ms now_ms : ℕ) (p : Option (List Event × List Event))
    (table : List EquitySnapshot)
    → (select is_live (with_backfill round6 start_ms now_ms p table) ≡ select is_live table)
      × (with_backfill round6 start_ms now_ms p (with_backfill round6 start_ms now_ms p table)
          ≡ with_backfill round6 start_ms now_ms p table)
with_backfill_again round6 start_ms now_ms none table = (refl, refl)
with_backfill_again round6 start_ms now_ms (some (bybit, hl)) table =
    let rows = build_daily_rows round6 start_ms bybit hl now_ms in
    let kept = select_live_append now_ms table rows in
    (kept, ap (λ t. t ++ map (snapshot_of now_ms) rows) kept)

-- An equity backfill keeps the live snapshots, whatever the venues answer, and a second one with the
-- same answers at the same time leaves the table as it is.
pub backfill_equity_again :
    (round6 : ℤ → ℤ) (start_ms now_ms : ℕ)
    (closed_pnl account_funding pnl_history : Result (List Event)) (table : List EquitySnapshot)
    → let run = backfill_equity round6 start_ms now_ms closed_pnl account_funding pnl_history in
      (select is_live (run table) ≡ select is_live table) × (run (run table) ≡ run table)
unfolding backfill_equity
backfill_equity_again round6 start_ms now_ms closed funding history table =
    with_backfill_again round6 start_ms now_ms (pulled closed funding history) table
