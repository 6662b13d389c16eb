-- ===== src/Reconcile/Sync.antt =====
-- The sync of the ledger to the venues' live positions: what it leaves as it was.
use mochi_position_manager.Prelude.{
  ℕ, String, ◌≡◌, ◌≢◌, refl, sym, ap, ◌∙◌, inl, inr, Bool-cases, true, false, Option, none, some,
  List, [], ◌∷◌, arith, leb, length, ◌<◌, ◌⊎◌,
}
use mochi_position_manager.Prelude.Int.{ℤ, pos}
use mochi_position_manager.Prelude.Table.{
  lookup, lookup-upsert_self, lookup-upsert_ne, string_key, pair_key,
}
use mochi_position_manager.Models.{StrategyPosition}
use mochi_position_manager.Session.{Db, Result, ok, raised}
use mochi_position_manager.Config.{Env}
use mochi_position_manager.Routing.{VenueRoute, StrategyRoute}
use mochi_position_manager.ArbExecutor.Sizing.{asked}
use mochi_position_manager.Reconcile.{
  Pair, venue_claims, synced_row, store_synced, sync_venue, sync_venues, sync_routes,
}

-- The profit that a row has booked; a strategy without a row has none.
abbrev pub profit : Option StrategyPosition → ℤ
profit none = pos 0
profit (some sp) = sp.realized_pnl

abbrev pub row_of : String × Pair → Db → Option StrategyPosition
row_of key d = lookup key d.strategy_positions

-- The booked profit stands, and so does the row of a pair that several strategies trade.
abbrev Stands : List StrategyRoute → String × Pair → Db → Db → Type 0
Stands routes key d d' =
    (profit (row_of key d') ≡ profit (row_of key d))
    × (leb 2 (length (venue_claims routes key.1)) ≡ true → row_of key d' ≡ row_of key d)

Stands-trans :
    (routes : List StrategyRoute) (key : String × Pair) (a b c : Db)
    → Stands routes key a b
    → Stands routes key b c
    → Stands routes key a c
Stands-trans routes key a b c (p, s) (q, t) = (q ∙ p, λ h. t h ∙ s h)

profit-synced_row :
    (now : ℕ) (live : ℤ) (price : ℕ) (row : Option StrategyPosition)
    → profit (some (synced_row now live price row)) ≡ profit row
profit-synced_row now live price none = refl
profit-synced_row now live price (some sp) = refl

store-other :
    (now : ℕ) (sid e s : String) (r : Result (ℤ × ℕ)) (d : Db) (key : String × Pair)
    → (sid, (e, s)) ≢ key
    → row_of key (store_synced now sid e s r d) ≡ row_of key d
store-other now sid e s (raised w) d key h = refl
store-other now sid e s (ok (live, price)) d key h =
    lookup-upsert_ne (sid, (e, s)) key _ d.strategy_positions h

store-profit :
    (now : ℕ) (sid e s : String) (r : Result (ℤ × ℕ)) (d : Db)
    → profit (row_of (sid, (e, s)) (store_synced now sid e s r d)) ≡ profit (row_of (sid, (e, s)) d)
store-profit now sid e s (raised w) d = refl
store-profit now sid e s (ok (live, price)) d =
    ap profit (lookup-upsert_self (sid, (e, s)) _ d.strategy_positions)
    ∙ profit-synced_row now live price (row_of (sid, (e, s)) d)

store-Stands :
    (now : ℕ) (routes : List StrategyRoute) (sid e s : String) (r : Result (ℤ × ℕ)) (d : Db)
    (key : String × Pair)
    → leb 2 (length (venue_claims routes (e, s))) ≡ false
    → (sid, (e, s)) ≡ key
    → Stands routes key d (store_synced now sid e s r d)
store-Stands now routes sid e s r d key alone same =
    let p = ap (λ (k : String × Pair). profit (row_of k (store_synced now sid e s r d))) same in
    let q = ap (λ (k : String × Pair). profit (row_of k d)) same in
    let c = ap (λ (k : String × Pair). leb 2 (length (venue_claims routes k.1))) same in
    (sym p ∙ (store-profit now sid e s r d ∙ q), λ h. ground (arith, h, c, alone))

sync_venue-Stands :
    (env : Env) (routes : List StrategyRoute) (sid : String) (v : VenueRoute) (d : Db)
    (key : String × Pair)
    → Stands routes key d (sync_venue env routes sid v d)
unfolding sync_venue
sync_venue-Stands env routes sid v d key =
    elim (Bool-cases (leb 2 (length (venue_claims routes (v.exchange, v.symbol))))) [
      | inl shared ↦ rw shared (refl, λ h. refl)
      | inr alone ↦
          let answer = asked (env.registry v.exchange "default") (λ ex. ex.get_position v.symbol) in
          rw alone (elim (Bool-cases (pair_key.same (sid, (v.exchange, v.symbol)) key)) [
            | inl z ↦
                store-Stands env.now routes sid v.exchange v.symbol answer d key alone
                  ((pair_key.same_iff (sid, (v.exchange, v.symbol)) key).0 z)
            | inr z ↦
                let o =
                  store-other env.now sid v.exchange v.symbol answer d key
                    (λ e. cc (sym z ∙ (pair_key.same_iff (sid, (v.exchange, v.symbol)) key).1 e)) in
                (ap profit o, λ h. o)
          ])
    ]

sync_venues-Stands :
    (env : Env) (routes : List StrategyRoute) (sid : String) (vs : List VenueRoute) (d : Db)
    (key : String × Pair)
    → Stands routes key d (sync_venues env routes sid vs d)
unfolding sync_venues
sync_venues-Stands env routes sid [] d key = (refl, λ h. refl)
sync_venues-Stands env routes sid (v ∷ vs) d key =
    let d' = sync_venue env routes sid v d in
    Stands-trans routes key d d' (sync_venues env routes sid vs d')
      (sync_venue-Stands env routes sid v d key) (sync_venues-Stands env routes sid vs d' key)

sync_routes-Stands :
    (env : Env) (all routes : List StrategyRoute) (d : Db) (key : String × Pair)
    → Stands all key d (sync_routes env all routes d)
unfolding sync_routes
sync_routes-Stands env all [] d key = (refl, λ h. refl)
sync_routes-Stands env all (route ∷ routes) d key =
    let d' = sync_venues env all route.strategy_id route.venues d in
    Stands-trans all key d d' (sync_routes env all routes d')
      (sync_venues-Stands env all route.strategy_id route.venues d key)
      (sync_routes-Stands env all routes d' key)

shared_or_alone : {A : Type 0} (n : ℕ) → (leb 2 n ≡ true → A) → (n < 2) ⊎ A
shared_or_alone n h = elim (Bool-cases (leb 2 n)) [
  | inl e ↦ inr (h e)
  | inr e ↦ inl (ground (arith, e))
]

-- Setting the strategies' rows to the venues' live positions, with any rows before it and any answers of
-- the venues, keeps the profit that any strategy has booked at any pair; and it keeps the whole row at
-- a pair that two or more strategies trade.
pub sync_routes_keeps :
    (env : Env) (routes : List StrategyRoute) (d : Db) (key : String × Pair)
    → (profit (row_of key (sync_routes env routes routes d)) ≡ profit (row_of key d))
      × ((length (venue_claims routes key.1) < 2)
          ⊎ (row_of key (sync_routes env routes routes d) ≡ row_of key d))
sync_routes_keeps env routes d key =
    let (p, s) = sync_routes-Stands env routes routes d key in
    (p, shared_or_alone (length (venue_claims routes key.1)) s)
