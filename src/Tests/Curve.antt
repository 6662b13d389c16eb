-- ===== src/Tests/Curve.antt =====
-- The metrics and the sampling of short series.
use mochi_position_manager.Prelude.{ℕ, ◌≡◌, refl, Bool, true, some, List, [], ◌∷◌, arith, ◌==◌}
use mochi_position_manager.Prelude.Int.{ℤ, pos, negsuc, ◌+ℤ◌, ◌-ℤ◌}
use mochi_position_manager.Dashboard.Curve.{
  EquityMetrics, sampled, downsample, falls, peak_of, trough_of, equity_metrics,
}
use mochi_position_manager.Dashboard.Curve.Drawdown.{LargestFall, equity_metrics-LargestFall}
use mochi_position_manager.Dashboard.Curve.Sampling.{Drawn, downsample-Drawn}

abbrev curve : List ℤ
curve = pos 9 ∷ negsuc 2 ∷ pos 4 ∷ pos 12 ∷ pos 7 ∷ []

equity_metrics-LargestFall_example :
    (m : EquityMetrics) × (equity_metrics 100 (pos 5 ∷ curve) ≡ some m)
    × LargestFall 100 (pos 5 ∷ curve) m
equity_metrics-LargestFall_example = equity_metrics-LargestFall 100 (pos 5) curve

test_metrics :
    equity_metrics 100 (pos 5 ∷ curve)
    ≡ some (record {
      current = pos 7;
      period = pos 2;
      start = pos 5;
      peak = pos 12;
      trough = negsuc 2;
      max_drawdown = pos 12;
      max_drawdown_pct = some (pos 12, pos 109);
      dd_from_peak = pos 5;
      points = 6;
      capital_base = 100;
      return_pct = some (pos 7, 100);
      period_return_pct = some (pos 2, 100);
    })
unfolding equity_metrics falls peak_of trough_of ◌+ℤ◌ ◌-ℤ◌
test_metrics = refl

abbrev same : ℕ → ℕ → Bool
same a b = a == b

same_sound : (a b : ℕ) → same a b ≡ true → a ≡ b
same_sound a b h = ground (arith, h)

downsample-Drawn_example :
    Drawn 2 3 (4 ∷ 5 ∷ 6 ∷ 7 ∷ []) (downsample same 2 (3 ∷ 4 ∷ 5 ∷ 6 ∷ 7 ∷ []))
downsample-Drawn_example = downsample-Drawn same same_sound 1 3 (4 ∷ 5 ∷ 6 ∷ 7 ∷ [])

-- A cap of two leaves three points.
test_over_cap : downsample same 2 (3 ∷ 4 ∷ 5 ∷ 6 ∷ 7 ∷ []) ≡ 3 ∷ 5 ∷ 7 ∷ []
unfolding downsample sampled
test_over_cap = refl
