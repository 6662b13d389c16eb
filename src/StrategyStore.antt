-- ===== src/StrategyStore.antt =====
-- The store of the strategies' configurations (app/strategy_store.py). The file is the tree that the YAML
-- library reads from it; writing a tree and reading it again gives the same tree.
pub mod Tree
use package.text.Mathlib.Text.{◌==◌ as str_eq}
use mochi_position_manager.Prelude.{
  String, Bool, true, false, not, Option, none, some, if◌then◌else◌,
}
use mochi_position_manager.Prelude.Int.{ℤ}
use mochi_position_manager.Models.{OrderType}
use mochi_position_manager.Session.{Result, ok, raised}
use mochi_position_manager.StrategyStore.Tree.{
  Value, Fields, boolean, number, text, mapping, end, field, get, put, remove, truthy,
}

abbrev pub is_some : Option Value → Bool
is_some none = false
is_some (some v) = true

-- What is on disk: nothing, a text that is no YAML, or a tree.
pub data ConfigFile : Type 0 where
  missing malformed : ConfigFile
  parsed : Value → ConfigFile

abbrev pub skeleton : Fields
skeleton = field "strategies" (mapping end) end

-- A missing or wrong key is reset.
abbrev pub with_strategies : Fields → Option Value → Fields
with_strategies root (some (mapping strategies)) = root
with_strategies root other = put "strategies" (mapping end) root

-- The root of a tree; a false value is an empty mapping.
abbrev pub root_of : Value → Fields
root_of (mapping fs) = with_strategies fs (get "strategies" fs)
root_of other = if truthy other then skeleton else put "strategies" (mapping end) end

-- `load`.
abbrev pub load : ConfigFile → Fields
load missing = skeleton
load malformed = skeleton
load (parsed v) = root_of v

-- `save`.
abbrev pub save : Fields → ConfigFile
save root = parsed (mapping root)

abbrev pub mapping_or : Option Value → Fields
mapping_or (some (mapping fs)) = fs
mapping_or other = end

-- The mapping of the strategies in a loaded root.
abbrev pub strategies_in : Fields → Fields
strategies_in root = mapping_or (get "strategies" root)

abbrev pub with_size : Option ℤ → Fields → Fields
with_size none fs = fs
with_size (some size) fs = put "position_size" (number size) fs

-- The default mode is left out.
abbrev pub with_entry : OrderType → Fields → Fields
with_entry OrderType.market fs = fs
with_entry OrderType.limit fs = put "entry" (text "limit") fs

unfoldable pub strategy_config :
    (base_asset : String) (venues : Fields) (sar : Bool) → Option ℤ → OrderType → Fields
strategy_config base_asset venues sar position_size entry = put "venues" (mapping venues) (
    with_entry entry (
      with_size position_size
        (field "base_asset" (text base_asset) (field "sar" (boolean sar) end))))

-- The file after the strategies are changed.
abbrev pub saved : Fields → (strategies : Fields) → ConfigFile
saved root strategies = save (put "strategies" (mapping strategies) root)

-- `upsert_strategy`: whether it was there, and the file.
unfoldable pub upsert_strategy :
    ConfigFile
    → (strategy_id base_asset : String) (venues : Fields) (sar : Bool) → Option ℤ
    → OrderType
    → Bool × ConfigFile
upsert_strategy file strategy_id base_asset venues sar position_size entry =
    let root = load file in
    (
      is_some (get strategy_id (strategies_in root)),
      saved root (
          put strategy_id (mapping (strategy_config base_asset venues sar position_size entry))
            (strategies_in root)),
    )

-- `delete_strategy`.
unfoldable pub delete_strategy : ConfigFile → (strategy_id : String) → Bool × ConfigFile
delete_strategy file strategy_id =
    let root = load file in
    if is_some (get strategy_id (strategies_in root))
    then (true, saved root (remove strategy_id (strategies_in root)))
    else (false, file)

-- A change of one strategy's mapping: nothing if it does not exist; an entry that is no mapping
-- raises, and nothing is saved.
abbrev pub changed :
    {A : Type 0}
    → ConfigFile
    → (strategy_id : String) → (Fields → Result (A × Fields))
    → Option Value
    → Result (Option A) × ConfigFile
changed file strategy_id change none = (ok none, file)
changed file strategy_id change (some (mapping cfg)) = elim (change cfg) [
  | ok (a, cfg') ↦
      (ok (some a), saved (load file) (put strategy_id (mapping cfg') (strategies_in (load file))))
  | raised e ↦ (raised e, file)
]
changed file strategy_id change (some other) = (raised "AttributeError", file)

abbrev pub on_strategy :
    {A : Type 0}
    → ConfigFile
    → (strategy_id : String) → (Fields → Result (A × Fields))
    → Result (Option A) × ConfigFile
on_strategy file strategy_id change =
    changed file strategy_id change (get strategy_id (strategies_in (load file)))

-- The value of a key, or a default if it is missing.
abbrev pub value_or : Option Value → Value → Value
value_or none d = d
value_or (some v) d = v

-- The flipped state of a venue; a mapping keeps its other keys.
abbrev pub flip_venue : (exchange : String) (venues : Fields) → Value → Bool × Fields
flip_venue exchange venues (mapping fs) =
    let new = not (truthy (value_or (get "enabled" fs) (boolean false))) in
    (new, put exchange (mapping (put "enabled" (boolean new) fs)) venues)
flip_venue exchange venues current =
    let new = not (truthy current) in (new, put exchange (boolean new) venues)

abbrev pub flip_in : (exchange : String) → Fields → Option Value → Result (Bool × Fields)
flip_in exchange cfg none =
    let (new, venues) = flip_venue exchange end (boolean false) in
    ok (new, put "venues" (mapping venues) cfg)
flip_in exchange cfg (some (mapping venues)) =
    let (new, venues') =
      flip_venue exchange venues (value_or (get exchange venues) (boolean false)) in
    ok (new, put "venues" (mapping venues') cfg)
flip_in exchange cfg (some other) = raised "AttributeError"

-- `toggle_venue`.
unfoldable pub toggle_venue :
    ConfigFile → (strategy_id exchange : String) → Result (Option Bool) × ConfigFile
toggle_venue file strategy_id exchange =
    on_strategy file strategy_id λ cfg. flip_in exchange cfg (get "venues" cfg)

-- `toggle_sar`.
unfoldable pub toggle_sar : ConfigFile → (strategy_id : String) → Result (Option Bool) × ConfigFile
toggle_sar file strategy_id = on_strategy file strategy_id λ cfg.
    let new = not (truthy (value_or (get "sar" cfg) (boolean false))) in
    ok (new, put "sar" (boolean new) cfg)

abbrev pub is_limit_text : (lower : String → String) → Value → Bool
is_limit_text lower (text t) = str_eq (lower t) "limit"
is_limit_text lower other = false

-- `toggle_entry`; the mode "market" is left out of the file.
unfoldable pub toggle_entry :
    (lower : String → String)
    → ConfigFile
    → (strategy_id : String) → Result (Option OrderType) × ConfigFile
toggle_entry lower file strategy_id = on_strategy file strategy_id λ cfg.
    if is_limit_text lower (value_or (get "entry" cfg) (text "market"))
    then ok (OrderType.market, remove "entry" cfg)
    else ok (OrderType.limit, put "entry" (text "limit") cfg)

abbrev pub sized : Option ℤ → Fields → Fields
sized none cfg = remove "position_size" cfg
sized (some size) cfg = put "position_size" (number size) cfg

-- `set_position_size`.
unfoldable pub set_position_size :
    ConfigFile → (strategy_id : String) → Option ℤ → Result (Option Bool) × ConfigFile
set_position_size file strategy_id value =
    on_strategy file strategy_id λ cfg. ok (true, sized value cfg)
