-- ===== src/Events/Store.antt =====
-- The operations of `EventStore` in zooid/events.go: `StoreEvent` with `SaveEvent` and the retries of
-- `ReplaceEvent`, `SignAndStoreEvent`, `DeleteEvent`, `QueryEvents` and the two `GetOrCreate…`.
-- What PostgreSQL, the deadlines and the clock do is in the store: `plan` has a reply for each
-- transaction to come, and commits when it is used up; `scan` says how many rows a read yields before
-- it breaks off.
use unicity_relay.Prelude.{
  ltb, leb, if◌then◌else◌, string_eq, nat_eq, take, ℕ, zero, suc, ◌+◌, ◌-◌, ◌*◌, ◌/◌, ◌^◌, ◌%◌,
  String, Bool, true, false, ◌||◌, Option, none, some, List, [], ◌∷◌,
}
use unicity_relay.Nostr.{Tag, Event, Filter, no_filter, Externals}
use unicity_relay.Config.{Config}
use unicity_relay.Events.Table.{Database, save_event_with, delete_event_with}
use unicity_relay.Events.Query.{query_events_with}
use unicity_relay.Events.Replace.{replace_event_once}

pub data Outcome : Type 0 where
  commits : Outcome
  -- SQLSTATE 40001
  conflicts : Outcome
  -- the deadline or the cancellation of the context
  expires : Outcome
  -- any other error
  faults : Outcome

-- A transaction ends so and takes so many nanoseconds; `drawn` is the random number of the backoff
-- behind it. The clock that stamps events is so many seconds later afterwards.
pub record Reply : Type 0 where
  pub outcome : Outcome
  pub elapsed : ℕ
  pub took : ℕ
  pub drawn : ℕ

-- `rand_panic` is no error value: `rand.IntN` panics, and with it the caller.
pub data Failure : Type 0 where
  not_signed dup_event budget_exceeded serialization_conflict database_error rand_panic : Failure

pub record EventStore : Type 0 where
  pub config : Config
  pub database : Database
  pub clock : ℕ
  pub plan : List Reply
  pub scan : Filter → Option ℕ
  pub max_attempts : ℕ
  pub base_backoff : ℕ
  pub broadcasts : List Event

-- The error, `none` for nil, and the store afterwards.
abbrev pub Attempt : Type 0
Attempt = Option Failure × EventStore

unfoldable pub advance : EventStore → List Reply → Outcome × EventStore
advance st [] = (commits, st)
advance st (reply ∷ plan) =
    (reply.outcome, record st { plan = plan; clock = st.clock + reply.elapsed })

unfoldable pub next_reply : EventStore → Outcome × EventStore
unfolding advance
next_reply st = advance st st.plan

abbrev pub set_database : EventStore → Database → EventStore
set_database st db = record st { database = db }

abbrev pub cut : Option ℕ → List Event → List Event
cut none rows = rows
cut (some n) rows = take n rows

-- `ssiConfig`: the two environment values, clamped.
unfoldable pub ssi_config : ℕ → ℕ → ℕ × ℕ
ssi_config attempts backoff = (if ltb attempts 1 then 1 else attempts, backoff)

abbrev pub max_int : ℕ
max_int = 2 ^ 63 - 1

-- The bound of the random sleep of `ReplaceEvent`: base << attempt, capped against overflow.
unfoldable pub backoff_cap : ℕ → ℕ → ℕ
backoff_cap base attempt =
    let shift = if ltb 10 attempt then 10 else attempt in
    let max_base = max_int / 2 ^ shift in
    let safe_base = if ltb max_base base then max_base else base in safe_base * 2 ^ shift

-- `replaceEventTotalBudget`, in nanoseconds.
abbrev pub replace_event_total_budget : ℕ
replace_event_total_budget = 60 * 10 ^ 9

-- The duration of so many milliseconds, an int64 of nanoseconds; a timer with a negative one fires at
-- once.
unfoldable pub sleep_time : ℕ → ℕ
sleep_time ms = let ns = ms * 10 ^ 6 % 2 ^ 64 in if ltb max_int ns then 0 else ns

-- What follows a serialization conflict.
pub data Pause : Type 0 where
  gives_up panics out_of_time : Pause
  -- the time spent so far, when the next attempt begins
  wakes : ℕ → Pause

-- Behind the given attempt, with so many left, this time spent and this random number. `rand.IntN`
-- panics when its argument, one more than the bound, overflows.
unfoldable pub pause : ℕ → ℕ → ℕ → ℕ → ℕ → Pause
unfolding backoff_cap sleep_time
pause zero base attempt spent drawn = gives_up
pause (suc left) base attempt spent drawn =
    let cap = backoff_cap base attempt in
    let awake = spent + sleep_time (drawn % (cap + 1)) in
    if ltb max_int (cap + 1)
    then panics
    else if leb replace_event_total_budget awake
    then out_of_time
    else wakes awake

-- The reply that comes next.
abbrev pub upcoming : List Reply → Reply
upcoming [] = record { outcome = commits; elapsed = 0; took = 0; drawn = 0 }
upcoming (reply ∷ plan) = reply

-- Inserts the event and its tags; the transaction has committed.
unfoldable pub save_committed : EventStore → Option Database → Attempt
save_committed st none = (some dup_event, st)
save_committed st (some db) = (none, set_database st db)

unfoldable pub save_reply : Event → Outcome → EventStore → Attempt
unfolding save_committed
save_reply evt commits st = save_committed st (save_event_with st.database evt)
save_reply evt conflicts st = (some database_error, st)
save_reply evt expires st = (some database_error, st)
save_reply evt faults st = (some database_error, st)

unfoldable pub save_event : EventStore → Event → Attempt
unfolding next_reply save_reply
save_event st evt = let (outcome, st') = next_reply st in save_reply evt outcome st'

unfoldable pub delete_reply : ℕ → Outcome → EventStore → Attempt
delete_reply id commits st = (none, set_database st (delete_event_with st.database id))
delete_reply id conflicts st = (some database_error, st)
delete_reply id expires st = (some database_error, st)
delete_reply id faults st = (some database_error, st)

unfoldable pub delete_event : EventStore → ℕ → Attempt
unfolding next_reply delete_reply
delete_event st id = let (outcome, st') = next_reply st in delete_reply id outcome st'

unfoldable pub query_events : ⦃x : Externals⦄ → EventStore → Filter → ℕ → List Event
query_events st filter max_limit =
    cut (st.scan filter) (query_events_with st.database filter max_limit)

unfoldable pub ignore_duplicate : Attempt → Attempt
ignore_duplicate (some dup_event, st) = (none, st)
ignore_duplicate (some e, st) = (some e, st)
ignore_duplicate (none, st) = (none, st)

abbrev pub announced : Bool → Event → Attempt → Attempt
announced broadcast evt (some e, st) = (some e, st)
announced true evt (none, st) = (none, record st { broadcasts = evt ∷ st.broadcasts })
announced false evt (none, st) = (none, st)

abbrev pub head_or : Event → List Event → Event
head_or evt [] = evt
head_or evt (e ∷ es) = e

-- An event before it is signed.
abbrev pub unsigned : ℕ → ℕ → List Tag → String → Event
unsigned kind created_at tags content = record {
  id = 0;
  created_at = created_at;
  kind = kind;
  pubkey = 0;
  tags = tags;
  content = content;
  sig = 0;
}

abbrev pub relay_members : ℕ
relay_members = 13534

module _ ⦃x : Externals⦄ where
  -- The retries of `ReplaceEvent`: the attempts that are left, the number of the attempt, and the
  -- time that has been spent of the budget.
  unfoldable pub replace_attempts : ℕ → ℕ → ℕ → EventStore → Event → Attempt
  unfolding pause
  replace_attempts zero attempt spent st evt = (some serialization_conflict, st)
  replace_attempts (suc left) attempt spent st evt =
      let reply = upcoming st.plan in
      let (outcome, next) = next_reply st in
      if leb replace_event_total_budget spent then (some budget_exceeded, st) else elim outcome [
        | commits ↦ (none, set_database next (replace_event_once next.database evt))
        | conflicts ↦ elim (pause left st.base_backoff attempt (spent + reply.took) reply.drawn) [
          | gives_up ↦ (some serialization_conflict, next)
          | panics ↦ (some rand_panic, next)
          | out_of_time ↦ (some budget_exceeded, next)
          | wakes awake ↦ replace_attempts left (attempt + 1) awake next evt
        ]
        | expires ↦ (some budget_exceeded, next)
        | faults ↦ (some database_error, next)
      ]

  unfoldable pub replace_event : EventStore → Event → Attempt
  unfolding replace_attempts
  replace_event st evt = replace_attempts st.max_attempts 0 0 st evt

  unfoldable pub store_event : EventStore → Event → Attempt
  unfolding replace_event ignore_duplicate
  store_event st evt =
      if x.is_replaceable evt.kind || x.is_addressable evt.kind
      then replace_event st evt
      else ignore_duplicate (save_event st evt)

  abbrev pub store_signed :
      EventStore → Event → Bool → Option Event → Option Failure × Event × EventStore
  store_signed st evt broadcast none = (some not_signed, evt, st)
  store_signed st evt broadcast (some signed) =
      let result = announced broadcast signed (store_event st signed) in
      (result.0, signed, result.1)

  -- The error, the event as the signing has left it, and the store.
  unfoldable pub sign_and_store_event :
      EventStore → Event → Bool → Option Failure × Event × EventStore
  sign_and_store_event st evt broadcast =
      store_signed st evt broadcast (x.sign st.config.secret evt)

  unfoldable pub get_or_create_application_data : EventStore → String → Event
  get_or_create_application_data st d =
      head_or (unsigned x.kinds.application_data st.clock (("d" ∷ d ∷ []) ∷ []) "") (
        query_events st
          (record no_filter { kinds = x.kinds.application_data ∷ []; tags = ("d", d ∷ []) ∷ [] }) 1)

  unfoldable pub get_or_create_relay_members_list : EventStore → Event
  get_or_create_relay_members_list st =
      head_or (unsigned relay_members st.clock (("-" ∷ []) ∷ []) "")
        (query_events st (record no_filter { kinds = relay_members ∷ [] }) 1)
