-- ===== src/Bybit/Orders/Outcomes.antt =====
-- What a market order at Bybit sends, and what its result says of it.
use mochi_position_manager.Prelude.{ℕ, ◌+◌, ◌≤◌, ◌≢◌, ◌≡◌, ◌⊎◌, String, true, false, [], ◌∷◌}
use mochi_position_manager.Models.{Side, FeeSource, OrderResult}
use mochi_position_manager.Session.{Result, ok, raised}
use mochi_position_manager.ArbExecutor.Sizing.{asked}
use mochi_position_manager.Bybit.{Category, Placement, Answer, BybitExchange, dust, round_qty}
use mochi_position_manager.Bybit.Answers.{
  Outcome, failure, dry_result, with_leverage, market_placement,
}

-- A result vouches for its fee only if its fill covers the quantity that was sent, but for dust.
abbrev pub Vouches : (qty : ℕ) → OrderResult → Type 0
Vouches qty r =
    (r.fee_source ≡ FeeSource.unavailable)
    ⊎ ((r.fee_source ≡ FeeSource.exchange) × (qty ≤ r.filled_qty_base + dust))

-- The venue did not say that it took the order: the call raised, or the code of the answer is not zero.
abbrev pub Declines : Result Answer → Type 0
Declines answer =
    ((why : String) × (answer ≡ raised why)) ⊎ ((a : Answer) × (answer ≡ ok a) × (a.ret_code ≢ 0))

-- The outcomes of a market order for a quantity: nothing was sent and it failed with what the setting
-- of the leverage or the rounding raised; a dry run, which sends nothing; one order of the rounded
-- quantity was sent and not confirmed, and it failed; or it was taken, and the result has the venue's
-- id and vouches for its fee.
pub data MarketOutcome (ex : BybitExchange) (symbol : String) (side : Side) (quantity leverage : ℕ)
    : Outcome → Type 0 where
  unsent :
      (why : String)
      → (with_leverage ex symbol leverage ≡ raised why)
        ⊎ (round_qty ex symbol quantity ≡ raised why)
      → MarketOutcome ex symbol side quantity leverage (failure why, [])
  dry :
      (qty price : ℕ)
      → ex.dry_run ≡ true
      → round_qty ex symbol quantity ≡ ok qty
      → MarketOutcome ex symbol side quantity leverage (dry_result "DRY_RUN" qty price, [])
  not_taken :
      (qty : ℕ) (why : String)
      → ex.dry_run ≡ false
      → round_qty ex symbol quantity ≡ ok qty
      → Declines (ex.client.place_order (market_placement Category.linear symbol side qty))
      → MarketOutcome ex symbol side quantity leverage
          (failure why, market_placement Category.linear symbol side qty ∷ [])
  taken :
      (qty : ℕ) (a : Answer) (r : OrderResult)
      → ex.dry_run ≡ false
      → round_qty ex symbol quantity ≡ ok qty
      → ex.client.place_order (market_placement Category.linear symbol side qty) ≡ ok a
      → a.ret_code ≡ 0
      → r.success ≡ true
      → r.exchange_order_id ≡ a.order_id
      → Vouches qty r
      → MarketOutcome ex symbol side quantity leverage
          (r, market_placement Category.linear symbol side qty ∷ [])

module _ (ex : BybitExchange) (symbol : String) (side : Side) (quantity : ℕ) where
  abbrev prepared : (leverage : ℕ) → Result ℕ
  prepared leverage = asked (with_leverage ex symbol leverage) λ u. round_qty ex symbol quantity

  abbrev sent : ℕ → Placement
  sent qty = market_placement Category.linear symbol side qty
