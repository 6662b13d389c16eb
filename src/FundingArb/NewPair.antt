-- ===== src/FundingArb/NewPair.antt =====
-- The symbols of the pairs that are not closed, and a new pair whose symbols no such pair holds.
use mochi_position_manager.Prelude.{
  ℕ, suc, ◌<◌, String, ◌≡◌, refl, sym, ◌∙◌, ap, Bool, true, false, Option, none, some, ◌&&◌, not,
  List, [], ◌∷◌, ◌++◌, map, find_first, any_of-false, All, All-append, All-weaken, All-zip,
  All-swap, arith, ltb→lt, lt→ltb, ◌==◌, ltb,
}
use mochi_position_manager.Prelude.Table.{string_key}
use mochi_position_manager.ArbModels.{ArbStatus, ArbPosition, ArbLeg}
use text.Mathlib.Text.{◌==◌ as str_eq}
use mochi_position_manager.ArbExecutor.Legs.{arb_of}
use mochi_position_manager.Session.{Db}
use mochi_position_manager.FundingArb.{is_live, holds, is_held, same_key, is_taken}
use mochi_position_manager.ArbRows.{next_id, next_arb_id, new_legs}
use mochi_position_manager.ArbRequest.{LegSpec}

-- Every status but one is that of a pair that is not closed.
abbrev pub not_closed : ArbStatus → Bool
not_closed ArbStatus.opening = true
not_closed ArbStatus.opened = true
not_closed ArbStatus.closing = true
not_closed ArbStatus.closed = false
not_closed ArbStatus.error = true

-- The pair of the leg is in the table, and is not closed.
abbrev pub stands_open : Option ArbPosition → Bool
stands_open none = false
stands_open (some arb) = not_closed arb.status

-- Two legs of different pairs that are not closed, with one exchange, account and symbol.
unfoldable pub clash : Db → ArbLeg → ArbLeg → Bool
clash d x y =
    not (x.arb_id == y.arb_id)
    && (stands_open (arb_of x.arb_id d)
        && (stands_open (arb_of y.arb_id d)
            && (str_eq x.exchange y.exchange
                && (str_eq x.account y.account && str_eq x.symbol y.symbol))))

stands_open-holds : (o : Option ArbPosition) → stands_open o ≡ holds o
stands_open-holds none = refl
stands_open-holds (some arb) = by_status arb.status
  where
    by_status : (status : ArbStatus) → not_closed status ≡ is_live status
    by_status ArbStatus.opening = refl
    by_status ArbStatus.opened = refl
    by_status ArbStatus.closing = refl
    by_status ArbStatus.closed = refl
    by_status ArbStatus.error = refl

-- The same by the tests of the open route.
clash_held :
    (d : Db) (x y : ArbLeg)
    → clash d x y ≡ (
        not (x.arb_id == y.arb_id)
        && (is_held d x && (is_held d y && same_key y.exchange y.account y.symbol x)))
unfolding clash is_held
clash_held d x y =
    rw (stands_open-holds (arb_of x.arb_id d), stands_open-holds (arb_of y.arb_id d)) refl

-- Every leg is of a pair that the table has or had, and no two legs clash.
pub record IsExclusive (d : Db) : Type 0 where
  pub known : All (λ lg. ltb lg.arb_id (next_arb_id d) ≡ true) d.arb_legs
  pub apart : All (λ x. All (λ y. clash d x y ≡ false) d.arb_legs) d.arb_legs

pub find-append :
    (i : ℕ) (arb : ArbPosition) (arbs : List ArbPosition)
    → ltb i arb.id ≡ true
    → find_first (λ a. a.id == i) (arbs ++ arb ∷ []) ≡ find_first (λ a. a.id == i) arbs
find-append i arb [] h = ground arith
find-append i arb (a ∷ arbs) h = ground (arith, find-append i arb arbs h)

-- The next id is above that of the last row.
pub next_id-last :
    (arb : ArbPosition) (arbs : List ArbPosition)
    → arb.id < next_id (map (λ a. a.id) (arbs ++ arb ∷ []))
unfolding next_id
next_id-last arb [] = omega arith
next_id-last arb (a ∷ arbs) = omega (arith, next_id-last arb arbs)

pub new_legs-arb :
    (id arb_id now : ℕ) (specs : List (LegSpec × String))
    → All (λ lg. lg.arb_id ≡ arb_id) (new_legs id arb_id now specs)
unfolding new_legs
new_legs-arb id arb_id now [] = tt
new_legs-arb id arb_id now (leg ∷ legs) = (refl, new_legs-arb (suc id) arb_id now legs)

-- The state after the rows of a pair are added.
abbrev pub with_pair : ArbPosition → List ArbLeg → Db → Db
with_pair arb legs d = record d {
  arb_positions = d.arb_positions ++ arb ∷ [];
  arb_legs = d.arb_legs ++ legs;
}

-- An old leg is held as it was.
pub held_old :
    (d : Db) (arb : ArbPosition) (legs : List ArbLeg) (lg : ArbLeg)
    → ltb lg.arb_id arb.id ≡ true
    → is_held (with_pair arb legs d) lg ≡ is_held d lg
unfolding is_held
held_old d arb legs lg h = ap holds (find-append lg.arb_id arb d.arb_positions h)

pub same_key_sym :
    (x y : ArbLeg)
    → same_key x.exchange x.account x.symbol y ≡ same_key y.exchange y.account y.symbol x
same_key_sym x y = ground (
  arith,
  string_key.same_iff x.exchange y.exchange,
  string_key.same_iff y.exchange x.exchange,
  string_key.same_iff x.account y.account,
  string_key.same_iff y.account x.account,
  string_key.same_iff x.symbol y.symbol,
  string_key.same_iff y.symbol x.symbol,
)

-- No held leg has the key of a leg.
abbrev pub IsFresh : Db → ArbLeg → Type 0
IsFresh d y =
    All (λ x. (is_held d x && same_key y.exchange y.account y.symbol x) ≡ false) d.arb_legs

pub new_legs-IsFresh :
    (d : Db) (id arb_id now : ℕ) (specs : List (LegSpec × String))
    → All (λ p. is_taken d p ≡ false) specs
    → All (IsFresh d) (new_legs id arb_id now specs)
unfolding new_legs is_taken
new_legs-IsFresh d id arb_id now [] h = tt
new_legs-IsFresh d id arb_id now ((spec, symbol) ∷ specs) (h, hs) =
    (any_of-false _ d.arb_legs h, new_legs-IsFresh d (suc id) arb_id now specs hs)

module _ (d : Db) (arb : ArbPosition) (legs : List ArbLeg) where
  pub clash_old :
      (x y : ArbLeg)
      → ltb x.arb_id arb.id ≡ true
      → ltb y.arb_id arb.id ≡ true
      → clash d x y ≡ false
      → clash (with_pair arb legs d) x y ≡ false
  clash_old x y h k c =
      rw (clash_held (with_pair arb legs d) x y, held_old d arb legs x h, held_old d arb legs y k)
        (sym (clash_held d x y) ∙ c)

  pub clash_new :
      (x y : ArbLeg)
      → ltb x.arb_id arb.id ≡ true
      → (is_held d x && same_key y.exchange y.account y.symbol x) ≡ false
      → clash (with_pair arb legs d) x y ≡ false
  clash_new x y h c =
      rw (clash_held (with_pair arb legs d) x y, held_old d arb legs x h) (ground arith)

  pub clash_back :
      (x y : ArbLeg)
      → ltb x.arb_id arb.id ≡ true
      → (is_held d x && same_key y.exchange y.account y.symbol x) ≡ false
      → clash (with_pair arb legs d) y x ≡ false
  clash_back x y h c =
      rw (clash_held (with_pair arb legs d) y x, held_old d arb legs x h, same_key_sym x y)
        (ground arith)

  pub clash_own :
      (x y : ArbLeg)
      → x.arb_id ≡ arb.id
      → y.arb_id ≡ arb.id
      → clash (with_pair arb legs d) x y ≡ false
  unfolding clash
  clash_own x y h k = rw (h, k) (ground arith)

  module _ (own : All (λ lg. lg.arb_id ≡ arb.id) legs) (fresh : All (IsFresh d) legs) where
    abbrev pub Apart : ArbLeg → Type 0
    Apart x = All (λ y. clash (with_pair arb legs d) x y ≡ false) (d.arb_legs ++ legs)

    pub old-Apart :
        All (λ lg. ltb lg.arb_id arb.id ≡ true) d.arb_legs
        → (x : ArbLeg) → ltb x.arb_id arb.id ≡ true
        → All (λ y. clash d x y ≡ false) d.arb_legs
        → All (λ y. (is_held d x && same_key y.exchange y.account y.symbol x) ≡ false) legs
        → Apart x
    old-Apart known x h c f =
        All-append _ d.arb_legs legs
          (All-weaken _ _ d.arb_legs (λ y p. clash_old x y h p.0 p.1) (All-zip _ _ _ known c))
          (All-weaken _ _ legs (λ y k. clash_new x y h k) f)

    pub new-Apart :
        All (λ lg. ltb lg.arb_id arb.id ≡ true) d.arb_legs
        → (y : ArbLeg) → y.arb_id ≡ arb.id
        → IsFresh d y
        → Apart y
    new-Apart known y h f =
        All-append _ d.arb_legs legs
          (All-weaken _ _ d.arb_legs (λ x p. clash_back x y p.0 p.1) (All-zip _ _ _ known f))
          (All-weaken _ _ legs (λ z k. clash_own y z h k) own)

    pub with_pair-IsExclusive :
        arb.id ≡ next_arb_id d → IsExclusive d → IsExclusive (with_pair arb legs d)
    with_pair-IsExclusive e h =
        let known : All (λ lg. ltb lg.arb_id arb.id ≡ true) d.arb_legs = rw e h.known in
        let above : arb.id < next_arb_id (with_pair arb legs d) =
          next_id-last arb d.arb_positions in
        let swapped = All-swap _ d.arb_legs legs fresh in
        record {
          known =
              All-append _ d.arb_legs legs
                (All-weaken _ _ d.arb_legs (λ x k. lt→ltb _ _ (omega (arith, ltb→lt _ _ k, above)))
                  known)
                (All-weaken _ _ legs (λ x k. lt→ltb _ _ (omega (arith, k, above))) own);
          apart =
              All-append _ d.arb_legs legs
                (All-weaken _ _ d.arb_legs (λ x p. old-Apart known x p.0 p.1.0 p.1.1)
                  (All-zip _ _ _ known (All-zip _ _ _ h.apart swapped)))
                (All-weaken _ _ legs (λ y p. new-Apart known y p.0 p.1) (All-zip _ _ _ own fresh));
        }
