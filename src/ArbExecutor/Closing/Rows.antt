-- ===== src/ArbExecutor/Closing/Rows.antt =====
-- The rows of the legs while a pair is closed.
use mochi_position_manager.Prelude.{
  ℕ, ◌≡◌, refl, sym, ◌∙◌, subst, ◌⊎◌, inl, inr, Bool, true, false, some, List, [], ◌∷◌, arith,
  find_first, ◌==◌, leb, if◌then◌else◌,
}
use mochi_position_manager.Prelude.Int.{ℤ}
use mochi_position_manager.Models.{OrderResult}
use mochi_position_manager.ArbModels.{is_closed, LegStatus, ArbMessage, ArbLeg}
use mochi_position_manager.Session.{Db, Action, ◌>>◌, pure}
use mochi_position_manager.Exchange.{Adapter}
use mochi_position_manager.Config.{Env}
use mochi_position_manager.ArbExecutor.{leg_realized, qty_eps}
use mochi_position_manager.ArbExecutor.Legs.{leg_of, put_leg, save_leg}
use mochi_position_manager.ArbExecutor.Closing.{
  settle_close, close_perp, sell_spot, close_spot, close_leg, closed_leg, unclosed_leg, flat_leg,
}
use mochi_position_manager.Soundness.{
  Keeps, keeps_laws, Keeps-if, Keeps-bind, Keeps-pure, Keeps-modify,
}

-- A choice of two actions, each under what the test tells.
Keeps-test :
    {P : Db → Type 0} {A : Type 0} (b : Bool) {m k : Action A}
    → (b ≡ true → Keeps P m)
    → (b ≡ false → Keeps P k)
    → Keeps P (if b then m else k)
Keeps-test true h g = h refl
Keeps-test false h g = g refl

Keeps-then :
    {P : Db → Type 0} {A : Type 0} {m : Action (Unit {0})}
    → Keeps P m
    → (a : A) → Keeps P (m >> pure a)
Keeps-then h a = Keeps-bind h (λ u. Keeps-pure a)

-- A row that came of another: the same venue, account, symbol, product and fill, and open only if
-- the other was.
pub record CameOf (start now : ArbLeg) : Type 0 where
  pub exchange : now.exchange ≡ start.exchange
  pub account : now.account ≡ start.account
  pub symbol : now.symbol ≡ start.symbol
  pub product : now.product ≡ start.product
  pub filled_qty : now.filled_qty ≡ start.filled_qty
  pub was_open : is_closed now.status ≡ false → is_closed start.status ≡ false

abbrev pub Stems : Db → (id : ℕ) → (now : ArbLeg) → Type 0
Stems start i now = (row : ArbLeg) × (leg_of i start ≡ some row) × CameOf row now

-- Every row came of the row of its id.
abbrev pub Kept : (start now : Db) → Type 0
Kept start d = (i : ℕ) (now : ArbLeg) → leg_of i d ≡ some now → Stems start i now

pub Kept-start : (d : Db) → Kept d d
Kept-start d i now e = (
  now,
  e,
  record {
    exchange = refl;
    account = refl;
    symbol = refl;
    product = refl;
    filled_qty = refl;
    was_open = λ h. h;
  },
)

found_put :
    (a : ArbLeg) (xs : List ArbLeg) (i : ℕ) (now : ArbLeg)
    → find_first (λ lg. lg.id == i) (put_leg a xs) ≡ some now
    → ((now ≡ a) × (a.id ≡ i)) ⊎ (find_first (λ lg. lg.id == i) xs ≡ some now)
unfolding put_leg
found_put a [] i now e = inr e
found_put a (x ∷ xs) i now e = let rest = found_put a xs i now in ground (arith, e, rest)

CameOf-trans : (a b c : ArbLeg) → CameOf a b → CameOf b c → CameOf a c
CameOf-trans a b c h k = record {
  exchange = k.exchange ∙ h.exchange;
  account = k.account ∙ h.account;
  symbol = k.symbol ∙ h.symbol;
  product = k.product ∙ h.product;
  filled_qty = k.filled_qty ∙ h.filled_qty;
  was_open = λ e. h.was_open (k.was_open e);
}

row_changed :
    {leg : ArbLeg} {status : LegStatus} {profit : ℤ} {why : ArbMessage} {now : ℕ}
    → is_closed leg.status ≡ false
    → CameOf leg (record leg {
      status = status;
      realized_pnl = profit;
      error_message = why;
      updated_at = now;
    })
row_changed h = record {
  exchange = refl;
  account = refl;
  symbol = refl;
  product = refl;
  filled_qty = refl;
  was_open = λ e. h;
}

module _ (start : Db) (leg : ArbLeg) (from : Stems start leg.id leg) where
  written :
      (row : ArbLeg) (i : ℕ) (now : ArbLeg)
      → row.id ≡ leg.id
      → CameOf leg row
      → now ≡ row
      → row.id ≡ i
      → Stems start i now
  written row i now same came h k =
      let (first, found, before) = from in
      (
        first,
        subst (λ j. leg_of j start ≡ some first) (sym same ∙ k) found,
        subst (CameOf first) (sym h) (CameOf-trans first leg row before came),
      )

  -- A row that came of the leg's row is written under the leg's id.
  save_row-Keeps :
      (row : ArbLeg) → row.id ≡ leg.id → CameOf leg row → Keeps (Kept start) (save_leg row)
  save_row-Keeps row same came = Keeps-modify _ λ d kept i now e.
      elim (found_put row d.arb_legs i now e) [
        | inl (h, k) ↦ written row i now same came h k
        | inr h ↦ kept i now h
      ]

  module _ (env : Env) (open_leg : is_closed leg.status ≡ false) where
    settle_close-Keeps :
        (mark qty : ℕ) (r : OrderResult) → Keeps (Kept start) (settle_close env leg mark qty r)
    unfolding settle_close
    settle_close-Keeps mark qty r =
        let closed =
          save_row-Keeps (closed_leg env.now (leg_realized leg.side leg.avg_fill mark qty) leg) refl
            (row_changed open_leg) in
        let unclosed =
          save_row-Keeps (unclosed_leg env.now r.error_message leg) refl (row_changed open_leg) in
        Keeps-if r.success (Keeps-then closed _) (Keeps-then unclosed _)

    close_perp-Keeps : (ex : Adapter) → Keeps (Kept start) (close_perp env ex leg)
    unfolding close_perp
    close_perp-Keeps ex = search (keeps_laws, settle_close-Keeps) depth 8

    sell_spot-Keeps : (ex : Adapter) (qty : ℕ) → Keeps (Kept start) (sell_spot env ex leg qty)
    unfolding sell_spot
    sell_spot-Keeps ex qty =
        let flat = save_row-Keeps (flat_leg env.now leg) refl (row_changed open_leg) in
        Keeps-if (leb qty qty_eps) (Keeps-then flat _)
          (search (keeps_laws, settle_close-Keeps) depth 8)

    close_spot-Keeps : (ex : Adapter) → Keeps (Kept start) (close_spot env ex leg)
    unfolding close_spot
    close_spot-Keeps ex = search (keeps_laws, sell_spot-Keeps) depth 8

  pub close_leg-Keeps : (env : Env) → Keeps (Kept start) (close_leg env leg)
  unfolding close_leg
  close_leg-Keeps env =
      Keeps-test (is_closed leg.status) (λ e. Keeps-pure _)
        λ e. search (keeps_laws, close_spot-Keeps env e, close_perp-Keeps env e) depth 8
