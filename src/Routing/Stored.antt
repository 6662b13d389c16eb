-- ===== src/Routing/Stored.antt =====
-- What the router serves after a strategy was stored.
use package.text.Mathlib.Text.{◌==◌ as str_eq}
use package.text.Mathlib.TextEquality.{eq_iff}
use mochi_position_manager.Prelude.{
  String, ◌≡◌, ◌≢◌, refl, sym, ap, ◌∙◌, inl, inr, Bool-cases, Bool, Option, some, List, [], arith,
}
use mochi_position_manager.Prelude.Int.{ℤ}
use mochi_position_manager.Prelude.Table.{string_key}
use mochi_position_manager.Models.{OrderType}
use mochi_position_manager.Session.{Result, ok, raised, Result-cases}
use mochi_position_manager.ArbExecutor.Sizing.{asked}
use mochi_position_manager.Routing.{StrategyRoute}
use mochi_position_manager.Routing.Build.{
  Texts, base_in, venues_cfg, sorted_in, route_in, build_strategy, build_mapping, and_route,
  routes_of, reload, get_route,
}
use mochi_position_manager.StrategyStore.{
  ConfigFile, load, save, strategies_in, upsert_strategy, strategy_config,
}
use mochi_position_manager.StrategyStore.Tree.{
  Value, Fields, mapping, boolean, end, field, put, get-put_self,
}

-- The strategies that were saved are the ones that are loaded.
strategies-saved :
    (root strategies : Fields)
    → strategies_in (load (save (put "strategies" (mapping strategies) root))) ≡ strategies
strategies-saved root strategies =
    rw (get-put_self "strategies" (mapping strategies) root)
      (rw (get-put_self "strategies" (mapping strategies) root) refl)

-- Every route that is built has the id.
record HasId (sid : String) (m : Result StrategyRoute) : Type 0 where
  id : (r : StrategyRoute) → m ≡ ok r → r.strategy_id ≡ sid

asked-HasId :
    {A : Type 0} (sid : String) (m : Result A) (f : A → Result StrategyRoute)
    → ((a : A) → HasId sid (f a))
    → HasId sid (asked m f)
asked-HasId sid (ok a) f h = h a
asked-HasId sid (raised e) f h = record { id = λ r k. ground (arith, k) }

abbrev id_of : (sid : String) → Result StrategyRoute → String
id_of sid (ok r) = r.strategy_id
id_of sid (raised e) = sid

build-HasId : (t : Texts) (sid : String) (cfg : Value) → HasId sid (build_strategy t sid cfg)
unfolding build_mapping
build-HasId t sid (mapping cfg) = asked-HasId sid (base_in t cfg) _ λ base.
    asked-HasId sid (venues_cfg t cfg) _ λ fs.
      asked-HasId sid (sorted_in t base fs) (λ venues. ok (route_in t sid base cfg venues))
        λ venues. record { id = λ r h. sym (ap (id_of sid) h) }
build-HasId t sid Value.null = record { id = λ r k. ground (arith, k) }
build-HasId t sid (boolean b) = record { id = λ r k. ground (arith, k) }
build-HasId t sid (Value.number n) = record { id = λ r k. ground (arith, k) }
build-HasId t sid (Value.text x) = record { id = λ r k. ground (arith, k) }

-- A route has the id of its entry.
build-id :
    (t : Texts) (sid : String) (cfg : Value) (r : StrategyRoute)
    → build_strategy t sid cfg ≡ ok r
    → r.strategy_id ≡ sid
build-id t sid cfg r h = (build-HasId t sid cfg).id r h

-- What is served from the rest counts only for the others.
get-rest :
    (other : String) (m : Result StrategyRoute) (rs rs' : List StrategyRoute)
    → get_route other rs ≡ get_route other rs'
    → get_route other (and_route m rs) ≡ get_route other (and_route m rs')
unfolding get_route
get-rest other (raised e) rs rs' h = h
get-rest other (ok r) rs rs' h = elim (Bool-cases (str_eq r.strategy_id other)) [
  | inl b ↦ rw b refl
  | inr b ↦ rw b h
]

module _ (t : Texts) where
  -- An entry of another strategy is passed over.
  get-skip :
      (k sid : String) (v : Value) (rs : List StrategyRoute)
      → k ≢ sid
      → get_route sid (and_route (build_strategy t k v) rs) ≡ get_route sid rs
  unfolding get_route
  get-skip k sid v rs h = elim (Result-cases (build_strategy t k v)) [
    | inl (r, e) ↦
        let i = build-id t k v r e in rw e (ground (arith, h, i, eq_iff r.strategy_id sid))
    | inr (why, e) ↦ rw e refl
  ]

  get-hit :
      (sid : String) (v : Value) (r : StrategyRoute) (rs : List StrategyRoute)
      → build_strategy t sid v ≡ ok r
      → get_route sid (and_route (build_strategy t sid v) rs) ≡ some r
  unfolding get_route
  get-hit sid v r rs e =
      let i = build-id t sid v r e in rw e (ground (arith, i, eq_iff r.strategy_id sid))

  get-put_route :
      (sid : String) (v : Value) (r : StrategyRoute) (fs : Fields)
      → build_strategy t sid v ≡ ok r
      → get_route sid (routes_of t (put sid v fs)) ≡ some r
  unfolding routes_of put
  get-put_route sid v r end e = get-hit sid v r [] e
  get-put_route sid v r (field k w rest) e = elim (Bool-cases (str_eq sid k)) [
    | inl b ↦ rw b (rw (← ((eq_iff sid k).0 b)) (get-hit sid v r (routes_of t rest) e))
    | inr b ↦ rw b (
        get-skip k sid w (routes_of t (put sid v rest)) (λ h. ground (arith, b, h, eq_iff sid k))
        ∙ get-put_route sid v r rest e)
  ]

  get-put_other :
      (sid other : String) (v : Value) (fs : Fields)
      → sid ≢ other
      → get_route other (routes_of t (put sid v fs)) ≡ get_route other (routes_of t fs)
  unfolding routes_of put
  get-put_other sid other v end h = get-skip sid other v [] h
  get-put_other sid other v (field k w rest) h = elim (Bool-cases (str_eq sid k)) [
    | inl b ↦ rw b (
        rw (← ((eq_iff sid k).0 b)) (
          get-skip sid other v (routes_of t rest) h
          ∙ sym (get-skip sid other w (routes_of t rest) h)))
    | inr b ↦ rw b (
        get-rest other (build_strategy t k w) (routes_of t (put sid v rest)) (routes_of t rest)
          (get-put_other sid other v rest h))
  ]

-- A strategy that was stored is served: whatever stood in the file, after a save and a reload the router
-- has, under the strategy's id, the route that is built of the saved configuration, and under every
-- other id what it had.
pub upsert-reload :
    (t : Texts) (file : ConfigFile) (sid other base_asset : String) (venues : Fields) (sar : Bool)
    (size : Option ℤ) (entry : OrderType) (r : StrategyRoute)
    → build_strategy t sid (mapping (strategy_config base_asset venues sar size entry)) ≡ ok r
    → sid ≢ other
    → let after = reload t (upsert_strategy file sid base_asset venues sar size entry).1 in
      (get_route sid after ≡ some r) × (get_route other after ≡ get_route other (reload t file))
unfolding upsert_strategy
upsert-reload t file sid other base_asset venues sar size entry r e h =
    let cfg = mapping (strategy_config base_asset venues sar size entry) in
    let fs = strategies_in (load file) in
    let loaded = ap (routes_of t) (strategies-saved (load file) (put sid cfg fs)) in
    (
      ap (get_route sid) loaded ∙ get-put_route t sid cfg r fs e,
      ap (get_route other) loaded ∙ get-put_other t sid other cfg fs h,
    )
