-- ===== src/StrategyStore/Tree.antt =====
-- Trees of YAML and their mappings, which keep the order in which their keys came.
use package.text.Mathlib.Text.{◌==◌ as str_eq}
use package.text.Mathlib.TextEquality.{eq_iff}
use mochi_position_manager.Prelude.{
  String, ◌≡◌, ◌≢◌, Bool, true, false, not, Option, none, some, arith, if◌then◌else◌, ◌==◌,
}
use mochi_position_manager.Prelude.Int.{ℤ, pos, negsuc}

-- Numbers count the units of money.
mutual
  pub data Value : Type 0 where
    null : Value
    boolean : Bool → Value
    number : ℤ → Value
    text : String → Value
    mapping : Fields → Value

  pub data Fields : Type 0 where
    end : Fields
    field : String → Value → Fields → Fields

-- `d.get(key)`.
unfoldable pub get : String → Fields → Option Value
get key end = none
get key (field k v rest) = if str_eq key k then some v else get key rest

-- `d[key] = value`: in its place, or at the end.
unfoldable pub put : String → Value → Fields → Fields
put key value end = field key value end
put key value (field k v rest) =
    if str_eq key k then field k value rest else field k v (put key value rest)

-- `d.pop(key, None)`.
unfoldable pub remove : String → Fields → Fields
remove key end = end
remove key (field k v rest) = if str_eq key k then rest else field k v (remove key rest)

-- Python's truth of a value.
abbrev pub truthy : Value → Bool
truthy null = false
truthy (boolean b) = b
truthy (number (pos n)) = not (n == 0)
truthy (number (negsuc n)) = true
truthy (text t) = not (str_eq t "")
truthy (mapping end) = false
truthy (mapping (field k v rest)) = true

pub get-put_self : (key : String) (v : Value) (fs : Fields) → get key (put key v fs) ≡ some v
unfolding get put
get-put_self key v end = ground (arith, eq_iff key key)
get-put_self key v (field k w rest) = ground (arith, eq_iff key k, get-put_self key v rest)

pub get-put_ne :
    (key other : String) (v : Value) (fs : Fields)
    → key ≢ other
    → get other (put key v fs) ≡ get other fs
unfolding get put
get-put_ne key other v end h = ground (arith, eq_iff other key)
get-put_ne key other v (field k w rest) h =
    ground (arith, eq_iff key k, eq_iff other k, eq_iff other key, get-put_ne key other v rest h)
