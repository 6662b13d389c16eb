-- ===== src/Admin/Strategies.antt =====
-- The forms of the strategies (app/routes/admin.py): each checks the secret and its fields, changes the
-- store, and reloads the router. The fields of the forms are texts, and one that is missing is empty.
use mochi_position_manager.Prelude.{
  String, Bool, true, false, not, ◌||◌, Option, none, some, List, [], ◌∷◌, ◌≡◌, refl, inl, inr,
  Bool-cases, ◌==◌, if◌then◌else◌,
}
use text.Mathlib.Text.{◌==◌ as str_eq}
use mochi_position_manager.Prelude.Int.{ℤ, pos, negsuc}
use mochi_position_manager.Models.{OrderType, market, limit}
use mochi_position_manager.Session.{Result, ok, raised}
use mochi_position_manager.Symbols.{supported_base_assets, is_one_of}
use mochi_position_manager.Routing.{StrategyRoute}
use mochi_position_manager.Routing.Build.{Texts, reload}
use mochi_position_manager.Routing.Form.{form_venues}
use mochi_position_manager.StrategyStore.{
  ConfigFile, upsert_strategy, delete_strategy, toggle_venue, toggle_sar, toggle_entry,
  set_position_size,
}
use mochi_position_manager.Admin.{has_secret, form_bool}

-- The file on disk and the router's routes.
pub record Site : Type 0 where
  pub file : ConfigFile
  pub routes : List StrategyRoute

-- The replies: 401, 400, 404, 500, or the page.
pub data Reply : Type 0 where
  denied not_found : Reply
  invalid : (detail : String) → Reply
  failed : (error : String) → Reply
  done : Reply

pub record StrategyForm : Type 0 where
  pub strategy_id : String
  pub base_asset : String
  pub hyperliquid : String
  pub bybit : String
  pub sar : String
  pub position_size : String
  pub entry_limit : String

pub data AdminRequest : Type 0 where
  save_strategy : StrategyForm → AdminRequest
  delete : (sid : String) → AdminRequest
  toggle : (sid exchange : String) → AdminRequest
  flip_sar flip_entry : (sid : String) → AdminRequest
  set_size : (sid position_size : String) → AdminRequest
  reload_strategies : AdminRequest

-- `expected` is the setting WEBHOOK_SECRET, `is_name` the test of an id: what is left of it without `_`
-- and `-` is letters and digits, one at least.
module _ (t : Texts) (expected : String) (is_name : String → Bool) where
  -- `_validate_position_size`.
  abbrev pub size_of_number : Option ℤ → Result (Option ℤ)
  size_of_number none = raised "position_size must be a number (USDT) or blank"
  size_of_number (some (negsuc n)) = raised "position_size must be > 0 (or blank for paper mode)"
  size_of_number (some (pos n)) =
      if n == 0
      then raised "position_size must be > 0 (or blank for paper mode)"
      else ok (some (pos n))

  unfoldable pub validate_position_size : String → Result (Option ℤ)
  validate_position_size raw =
      if str_eq (t.strip raw) "" then ok none else size_of_number (t.read_number (t.strip raw))

  -- `_validate_strategy_id` and `_validate_base_asset`.
  unfoldable pub validate_strategy_id : String → Result String
  validate_strategy_id sid =
      if str_eq (t.strip sid) "" || not (is_name (t.strip sid))
      then raised "strategy_id must be alphanumeric (plus _ and -)"
      else ok (t.strip sid)

  unfoldable pub validate_base_asset : String → Result String
  validate_base_asset asset =
      if is_one_of (t.upper (t.strip asset)) supported_base_assets
      then ok (t.upper (t.strip asset))
      else raised "base_asset must be one of the supported"

  -- `_reload_router`, over what is on disk now.
  abbrev pub reloaded : ConfigFile → Site
  reloaded file = record { file = file; routes = reload t file }

  abbrev pub checked : {A : Type 0} → Site → Result A → (A → Reply × Site) → Reply × Site
  checked site (raised e) k = (Reply.invalid e, site)
  checked site (ok a) k = k a

  abbrev pub entry_of : Bool → OrderType
  entry_of true = limit
  entry_of false = market

  abbrev pub tick : (field : String) → Bool
  tick = form_bool t.lower

  unfoldable pub save_form : StrategyForm → Site → Reply × Site
  save_form f site = checked site (validate_strategy_id f.strategy_id) λ sid.
      checked site (validate_base_asset f.base_asset) λ base.
        checked site (validate_position_size f.position_size) λ size. (
          Reply.done,
          reloaded
              (upsert_strategy site.file sid base (form_venues (tick f.hyperliquid) (tick f.bybit))
                (tick f.sar) size (entry_of (tick f.entry_limit))).1,
        )

  -- What a change of the store comes to: a strategy that does not exist is not found.
  abbrev pub settled : {A : Type 0} → Site → Result (Option A) × ConfigFile → Reply × Site
  settled site (raised e, file) = (Reply.failed e, site)
  settled site (ok none, file) = (Reply.not_found, site)
  settled site (ok (some a), file) = (Reply.done, reloaded file)

  abbrev pub deleted : Site → Bool × ConfigFile → Reply × Site
  deleted site (false, file) = (Reply.not_found, site)
  deleted site (true, file) = (Reply.done, reloaded file)

  -- The routes of the forms, for the right secret.
  unfoldable pub handle : AdminRequest → Site → Reply × Site
  handle (save_strategy f) site = save_form f site
  handle (delete sid) site = deleted site (delete_strategy site.file sid)
  handle (toggle sid exchange) site =
      if str_eq exchange "hyperliquid" || str_eq exchange "bybit"
      then settled site (toggle_venue site.file sid exchange)
      else (Reply.invalid "unsupported exchange", site)
  handle (flip_sar sid) site = settled site (toggle_sar site.file sid)
  handle (flip_entry sid) site = settled site (toggle_entry t.lower site.file sid)
  handle (set_size sid position_size) site =
      checked site (validate_position_size position_size)
        λ size. settled site (set_position_size site.file sid size)
  handle reload_strategies site = (Reply.done, reloaded site.file)

  unfoldable pub answer : (secret : String) → AdminRequest → Site → Reply × Site
  answer secret request site =
      if has_secret expected secret then handle request site else (Reply.denied, site)

  -- Requests that come after each other, each with the secret that it carries.
  unfoldable pub answers : List (String × AdminRequest) → Site → Site
  answers [] site = site
  answers ((secret, request) ∷ requests) site = answers requests (answer secret request site).1

  -- The router serves what is on disk.
  pub record Synced (site : Site) : Type 0 where
    pub agrees : site.routes ≡ reload t site.file

  checked-Synced :
      {A : Type 0} (site : Site) (r : Result A) (k : A → Reply × Site)
      → Synced site
      → ((a : A) → Synced (k a).1)
      → Synced (checked site r k).1
  checked-Synced site (raised e) k h f = h
  checked-Synced site (ok a) k h f = f a

  settled-Synced :
      {A : Type 0} (site : Site) (p : Result (Option A) × ConfigFile)
      → Synced site
      → Synced (settled site p).1
  settled-Synced site (raised e, file) h = h
  settled-Synced site (ok none, file) h = h
  settled-Synced site (ok (some a), file) h = record { agrees = refl }

  deleted-Synced : (site : Site) (p : Bool × ConfigFile) → Synced site → Synced (deleted site p).1
  deleted-Synced site (false, file) h = h
  deleted-Synced site (true, file) h = record { agrees = refl }

  save-Synced : (f : StrategyForm) (site : Site) → Synced site → Synced (save_form f site).1
  unfolding save_form
  save-Synced f site h = checked-Synced site (validate_strategy_id f.strategy_id) _ h λ sid.
      checked-Synced site (validate_base_asset f.base_asset) _ h λ base.
        checked-Synced site (validate_position_size f.position_size) _ h
          λ size. record { agrees = refl }

  handle-Synced :
      (request : AdminRequest) (site : Site) → Synced site → Synced (handle request site).1
  unfolding handle
  handle-Synced (save_strategy f) site h = save-Synced f site h
  handle-Synced (delete sid) site h = deleted-Synced site (delete_strategy site.file sid) h
  handle-Synced (toggle sid exchange) site h =
      elim (Bool-cases (str_eq exchange "hyperliquid" || str_eq exchange "bybit")) [
        | inl b ↦ rw b (settled-Synced site (toggle_venue site.file sid exchange) h)
        | inr b ↦ rw b h
      ]
  handle-Synced (flip_sar sid) site h = settled-Synced site (toggle_sar site.file sid) h
  handle-Synced (flip_entry sid) site h = settled-Synced site (toggle_entry t.lower site.file sid) h
  handle-Synced (set_size sid position_size) site h =
      checked-Synced site (validate_position_size position_size) _ h
        λ size. settled-Synced site (set_position_size site.file sid size) h
  handle-Synced reload_strategies site h = record { agrees = refl }

  answer-Synced :
      (secret : String) (request : AdminRequest) (site : Site)
      → Synced site
      → Synced (answer secret request site).1
  unfolding answer
  answer-Synced secret request site h = elim (Bool-cases (has_secret expected secret)) [
    | inl b ↦ rw b (handle-Synced request site h)
    | inr b ↦ rw b h
  ]

  -- Memory and disk agree: after any requests to the strategy forms, with any secrets and fields, the router
  -- serves what a reload of the file would give, if it did so before.
  pub answers-Synced :
      (requests : List (String × AdminRequest)) (site : Site)
      → Synced site
      → Synced (answers requests site)
  unfolding answers
  answers-Synced [] site h = h
  answers-Synced ((secret, request) ∷ requests) site h =
      answers-Synced requests (answer secret request site).1 (answer-Synced secret request site h)
