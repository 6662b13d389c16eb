-- ===== src/FundingWorker.antt =====
-- The funding poller (app/funding_worker.py): the payments of the directional venues and of the perp
-- legs of the arb book, each stored once. Snapshots holds the equity snapshots; the asyncio loop is not modelled.
-- A payment's time counts seconds, as every instant of the model does.
pub mod Stored
pub mod Absorb
pub mod Once
pub mod Snapshots
pub mod ArbSnapshots
use Prim.Native.Nat.{Ordering}
use Prim.Native.String.{compare}
use mochi_position_manager.Prelude.{
  ℕ, ◌+◌, ◌-◌, ◌*◌, ◌%◌, max, String, Bool, ◌&&◌, not, none, List, [], ◌∷◌, ◌++◌, map, any_of,
  select, length, ◌==◌, if◌then◌else◌,
}
use mochi_position_manager.Prelude.Table.{string_key}
use mochi_position_manager.ArbModels.{is_spot, ArbFundingEvent, FundingEvent}
use mochi_position_manager.Session.{
  Db, Result, ok, raised, Action, ◌>>=◌, ◌>>◌, pure, reads, modify, session_scope,
}
use mochi_position_manager.Exchange.{Payment}
use mochi_position_manager.Config.{Env}
use mochi_position_manager.Routing.{VenueRoute, StrategyRoute, enabled_venues}
use mochi_position_manager.ArbExecutor.Sizing.{asked}
use mochi_position_manager.FundingArb.{is_held}

-- `_hour_floor` and `_seconds_to_next_hour`.
unfoldable pub hour_floor : (now : ℕ) → ℕ
hour_floor now = now - now % 3600

unfoldable pub seconds_to_next_hour : (now : ℕ) → ℕ
seconds_to_next_hour now = max 1 (hour_floor now + 3600 - now)

-- `_LOOKBACK_MS`.
abbrev pub lookback_ms : ℕ
lookback_ms = 3 * 24 * 3600 * 1000

-- Python's order of tuples of texts, and `sorted` of a set of them.
abbrev pub before : Ordering → Ordering → Ordering
before Ordering.eq o = o
before o p = o

abbrev pub Place : Type 0
Place = String × (String × String)

abbrev pub compare_places : Place → Place → Ordering
compare_places (a, (b, c)) (x, (y, z)) = before (compare a x) (before (compare b y) (compare c z))

unfoldable pub insert_place : Place → List Place → List Place
insert_place p [] = p ∷ []
insert_place p (q ∷ qs) = elim (compare_places p q) [
  | Ordering.lt ↦ p ∷ q ∷ qs
  | Ordering.eq ↦ q ∷ qs
  | Ordering.gt ↦ q ∷ insert_place p qs
]

unfoldable pub sorted_set : List Place → List Place
sorted_set [] = []
sorted_set (p ∷ ps) = insert_place p (sorted_set ps)

-- `_venue_pairs`: the account of a directional venue is the default one.
abbrev pub place_of_venue : VenueRoute → Place
place_of_venue v = (v.exchange, ("default", v.symbol))

unfoldable pub venue_places : List StrategyRoute → List Place
venue_places [] = []
venue_places (route ∷ routes) = map place_of_venue (enabled_venues route) ++ venue_places routes

abbrev pub venue_pairs : List StrategyRoute → List Place
venue_pairs routes = sorted_set (venue_places routes)

-- `_arb_perp_legs`: the perp legs of the pairs that are not closed.
unfoldable pub arb_perp_legs : Db → List Place
arb_perp_legs d = sorted_set (
    map (λ lg. (lg.exchange, (lg.account, lg.symbol)))
      (select (λ lg. not (is_spot lg.product) && is_held d lg) d.arb_legs))

-- The unique keys of the two tables.
abbrev pub same_event : FundingEvent → FundingEvent → Bool
same_event a b =
    string_key.same a.exchange b.exchange
    && (string_key.same a.symbol b.symbol && (a.funding_time == b.funding_time))

abbrev pub same_arb_event : ArbFundingEvent → ArbFundingEvent → Bool
same_arb_event a b =
    string_key.same a.exchange b.exchange
    && (string_key.same a.account b.account
        && (string_key.same a.symbol b.symbol && (a.funding_time == b.funding_time)))

abbrev pub funding_event : (id now : ℕ) → Place → Payment → FundingEvent
funding_event id now (exchange, (account, symbol)) p = record {
  id = id;
  exchange = exchange;
  symbol = symbol;
  funding_time = p.time;
  amount = p.amount;
  created_at = now;
}

abbrev pub arb_event : (id now : ℕ) → Place → Payment → ArbFundingEvent
arb_event id now (exchange, (account, symbol)) p = record {
  id = id;
  arb_id = none;
  exchange = exchange;
  account = account;
  symbol = symbol;
  funding_time = p.time;
  amount = p.amount;
  created_at = now;
}

-- `on_conflict_do_nothing`: the number of rows that were inserted.
unfoldable pub insert_event : FundingEvent → Action ℕ
insert_event e s =
    if any_of (same_event e) s.current.funding_events
    then (ok 0, s)
    else (modify (λ d. record d { funding_events = d.funding_events ++ e ∷ [] }) >> pure 1) s

unfoldable pub insert_arb_event : ArbFundingEvent → Action ℕ
insert_arb_event e s =
    if any_of (same_arb_event e) s.current.arb_funding_events
    then (ok 0, s)
    else (modify (λ d. record d { arb_funding_events = d.arb_funding_events ++ e ∷ [] }) >> pure 1)
        s

abbrev pub insert_payment : (now : ℕ) → Place → Payment → Action ℕ
insert_payment now place p s =
    insert_event (funding_event (length s.current.funding_events + 1) now place p) s

abbrev pub insert_arb_payment : (now : ℕ) → Place → Payment → Action ℕ
insert_arb_payment now place p s =
    insert_arb_event (arb_event (length s.current.arb_funding_events + 1) now place p) s

-- What the venue of a place reports for the last three days.
unfoldable pub fetch : Env → Place → Result (List Payment)
fetch env (exchange, (account, symbol)) =
    asked (env.registry exchange account)
      λ ex. ex.get_funding symbol (env.now * 1000 - lookback_ms) (env.now * 1000)

-- Two parts of a poll after each other: the rows that they inserted.
abbrev pub summed : Action ℕ → Action ℕ → Action ℕ
summed m rest = do n ← m; k ← rest; pure (n + k)

module _ (insert : Place → Payment → Action ℕ) where
  -- One session for each payment; one without a time is left out.
  unfoldable pub store_payments : Place → List Payment → Action ℕ
  store_payments place [] = pure 0
  store_payments place (p ∷ ps) =
      let rest = store_payments place ps in
      if p.time == 0 then rest else summed (session_scope (insert place p)) rest

  -- A place whose venue does not answer is left out.
  abbrev pub poll_place : Place → Result (List Payment) → Action ℕ
  poll_place place (raised e) = pure 0
  poll_place place (ok ps) = store_payments place ps

  unfoldable pub poll_places : Env → List Place → Action ℕ
  poll_places env [] = pure 0
  poll_places env (place ∷ places) =
      summed (poll_place place (fetch env place)) (poll_places env places)

-- `poll_once`.
unfoldable pub poll_once : Env → List StrategyRoute → Action ℕ
poll_once env routes = poll_places (insert_payment env.now) env (venue_pairs routes)

-- `poll_arb_once`.
unfoldable pub poll_arb_once : Env → Action ℕ
poll_arb_once env = do
  places ← session_scope (reads arb_perp_legs)
  poll_places (insert_arb_payment env.now) env places
