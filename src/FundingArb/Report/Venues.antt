-- ===== src/FundingArb/Report/Venues.antt =====
-- The nets of the venues against the headline of the report.
use mochi_position_manager.Prelude.{
  ℕ, String, ◌≡◌, ◌≢◌, refl, sym, ap, ◌∙◌, Option, none, some, List, [], ◌∷◌, map, All,
}
use mochi_position_manager.Prelude.Int.{
  ℤ, pos, ◌+ℤ◌, int_laws, +ℤ_replace, +ℤ_assoc, +ℤ_zero_left, +ℤ_zero_right,
}
use mochi_position_manager.Prelude.Table.{
  string_key, pair_key, lookup, upsert, lookup-upsert_self, lookup-upsert_ne,
}
use mochi_position_manager.Prelude.Totals.{total, total-upsert}
use mochi_position_manager.ArbModels.{ArbPosition, ArbLeg}
use mochi_position_manager.Session.{Db}
use mochi_position_manager.Config.{Env}
use mochi_position_manager.ArbExecutor.Legs.{legs_of}
use mochi_position_manager.ArbPnl.{LegPnlInput}
use mochi_position_manager.ArbPnl.Attribution.{leg_value, legs_value, compute_arb_pnl-net}
use mochi_position_manager.FundingArb.View.{
  LegKey, key_of, by_key, leg_pnl_input, realized_of, newest_first,
}
use mochi_position_manager.FundingArb.Report.{
  LegRow, leg_row, sum_by, ArbRow, arb_row, arb_performance, net_at, leg_net, add_rows, add_arbs,
  arb_by_venue,
}

-- The legs of a pair differ in exchange, account or symbol.
abbrev pub Distinct : List ArbLeg → Type 0
Distinct [] = Unit
Distinct (lg ∷ legs) = All (λ other. key_of lg ≢ key_of other) legs × Distinct legs

abbrev pub sum_venues : List (String × ℤ) → ℤ
sum_venues by = total (λ venue v. v) by

-- A leg's net goes to its venue, and so to the sum of the venues.
add_row-sum :
    (ex : String) (v : ℤ) (by : List (String × ℤ))
    → sum_venues (upsert ex (net_at (lookup ex by) +ℤ v) by) ≡ sum_venues by +ℤ v
add_row-sum ex v by = go (lookup ex by) refl
  where
    go :
        (o : Option ℤ)
        → lookup ex by ≡ o
        → sum_venues (upsert ex (net_at o +ℤ v) by) ≡ sum_venues by +ℤ v
    go none e =
        let t = rw e at (total-upsert (λ (venue : String) (u : ℤ). u) ex (pos 0 +ℤ v) by) in
        +ℤ_replace _ (sum_venues by) (pos 0) v t
    go (some w) e =
        let t = rw e at (total-upsert (λ (venue : String) (u : ℤ). u) ex (w +ℤ v) by) in
        +ℤ_replace _ (sum_venues by) w v t

add_rows-sum :
    (rows : List LegRow) (by : List (String × ℤ))
    → sum_venues (add_rows rows by) ≡ sum_venues by +ℤ sum_by leg_net rows
unfolding add_rows sum_by
add_rows-sum [] by = sym (+ℤ_zero_right (sum_venues by))
add_rows-sum (r ∷ rows) by =
    add_rows-sum rows _
    ∙ ap (λ v. v +ℤ sum_by leg_net rows) (add_row-sum r.leg.exchange (leg_net r) by)
    ∙ +ℤ_assoc (sum_venues by) (leg_net r) (sum_by leg_net rows)

add_arbs-sum :
    (arbs : List ArbRow) (by : List (String × ℤ))
    → sum_venues (add_arbs arbs by) ≡ sum_venues by +ℤ sum_by (λ a. sum_by leg_net a.legs) arbs
unfolding add_arbs sum_by
add_arbs-sum [] by = sym (+ℤ_zero_right (sum_venues by))
add_arbs-sum (a ∷ arbs) by =
    add_arbs-sum arbs _
    ∙ ap (λ v. v +ℤ sum_by (λ b. sum_by leg_net b.legs) arbs) (add_rows-sum a.legs by)
    ∙ +ℤ_assoc (sum_venues by) (sum_by leg_net a.legs) (sum_by (λ b. sum_by leg_net b.legs) arbs)

regroup : (a b c e : ℤ) → a +ℤ b +ℤ (c +ℤ e) ≡ a +ℤ c +ℤ (b +ℤ e)
regroup a b c e = omega int_laws

module _ (env : Env) (d : Db) (arb : ArbPosition) where
  abbrev input : ArbLeg → LegPnlInput
  input lg = leg_pnl_input env d arb lg

  abbrev table : List ArbLeg → List (LegKey × LegPnlInput) → List (LegKey × LegPnlInput)
  table legs t = by_key (λ i. i) (map input legs) t

  -- A key that no leg has is found where it was.
  table-miss :
      (k : LegKey) (legs : List ArbLeg) (t : List (LegKey × LegPnlInput))
      → All (λ other. k ≢ key_of other) legs
      → lookup k (table legs t) ≡ lookup k t
  unfolding by_key
  table-miss k [] t h = refl
  table-miss k (lg ∷ legs) t (h, hs) =
      table-miss k legs (upsert (key_of lg) (input lg) t) hs
      ∙ lookup-upsert_ne (key_of lg) k (input lg) t (λ e. h (sym e))

  -- Every leg of a pair with distinct legs finds its own input.
  table-own :
      (legs : List ArbLeg) (t : List (LegKey × LegPnlInput))
      → Distinct legs
      → All (λ lg. lookup (key_of lg) (table legs t) ≡ some (input lg)) legs
  unfolding by_key
  table-own [] t h = tt
  table-own (lg ∷ legs) t (h, hs) = (
    table-miss (key_of lg) legs (upsert (key_of lg) (input lg) t) h
        ∙ lookup-upsert_self (key_of lg) (input lg) t,
    table-own legs (upsert (key_of lg) (input lg) t) hs,
  )

  rows-net :
      (t : List (LegKey × LegPnlInput)) (legs : List ArbLeg)
      → All (λ lg. lookup (key_of lg) t ≡ some (input lg)) legs
      → sum_by leg_net (map (λ lg. leg_row lg (lookup (key_of lg) t)) legs)
        ≡ legs_value (map input legs) +ℤ realized_of legs
  unfolding sum_by
  rows-net t [] h = omega int_laws
  rows-net t (lg ∷ legs) (h, hs) = rw h (
      ap (λ q. leg_value (input lg) +ℤ lg.realized_pnl +ℤ q) (rows-net t legs hs)
      ∙ regroup (leg_value (input lg)) lg.realized_pnl (legs_value (map input legs))
          (realized_of legs))

  -- The net of a pair with distinct legs is the sum of its legs' nets.
  arb_row-net :
      Distinct (legs_of arb.id d)
      → sum_by leg_net (arb_row env d arb).legs ≡ (arb_row env d arb).result.net
  unfolding arb_row
  arb_row-net h =
      let legs = legs_of arb.id d in
      rows-net (table legs []) legs (table-own legs [] h)
      ∙ sym (compute_arb_pnl-net (map input legs) (pos 0) (realized_of legs) ∙ +ℤ_zero_right _)

sum-net :
    (env : Env) (d : Db)
    → ((arb_id : ℕ) → Distinct (legs_of arb_id d))
    → (arbs : List ArbPosition)
    → sum_by (λ a. sum_by leg_net a.legs) (map (arb_row env d) arbs)
      ≡ sum_by (λ r. r.result.net) (map (arb_row env d) arbs)
unfolding sum_by
sum-net env d h [] = refl
sum-net env d h (arb ∷ arbs) =
    ap (λ v. v +ℤ sum_by (λ a. sum_by leg_net a.legs) (map (arb_row env d) arbs))
      (arb_row-net env d arb (h arb.id))
    ∙ ap (λ v. (arb_row env d arb).result.net +ℤ v) (sum-net env d h arbs)

-- The nets of the venues add up to the headline: if the legs of each pair differ in exchange, account or
-- symbol, then the sum of what the curve's tip shows per venue is the report's net, whatever the
-- venues answer.
pub arb_by_venue-sum :
    (env : Env) (d : Db)
    → ((arb_id : ℕ) → Distinct (legs_of arb_id d))
    → sum_venues (arb_by_venue (arb_performance env d)) ≡ (arb_performance env d).totals.net
unfolding arb_by_venue arb_performance total
arb_by_venue-sum env d h =
    let arbs = newest_first d.arb_positions in
    add_arbs-sum (map (arb_row env d) arbs) [] ∙ +ℤ_zero_left _ ∙ sum-net env d h arbs
