-- ===== src/Tests/Storage.antt =====
-- The event store, the debouncing and the configuration, on concrete inputs.
use unicity_relay.Nostr.{Event, Filter, no_filter}
use unicity_relay.Prelude.{
  string_eq, nat_eq, ◌==◌, length, exists, every, ℕ, ◌*◌, ◌≤◌, ◌≡◌, refl, true, false, not, ◌&&◌,
  ◌||◌, some, List, [], ◌∷◌, ◌++◌, arith,
}
use unicity_relay.Events.Store.{
  commits, conflicts, Reply, EventStore, backoff_cap, sleep_time, replace_event,
}
use unicity_relay.Events.Retries.{time_of, Ended, replace_event-retries}
use unicity_relay.Events.Answers.{tag_passes, run_query_iff}
use unicity_relay.Config.Retention.{second, parse_retention_duration}
use unicity_relay.Config.Retention.Bounds.{IsDuration, parse_retention_duration-IsDuration}
use unicity_relay.Debounce.{rescheduled}
use unicity_relay.Debounce.Runs.{
  armed, executing, Burst, quiet, call, starts, Reach, here, called, moved, Settles,
  Reach-serialized,
}
use unicity_relay.Events.Table.{Database, tag_insert_batch_size, tag_batches, concat}
use unicity_relay.Events.Query.{tag_filters, where_clause, run_query}
use unicity_relay.Events.Replace.{replace_event_once}
use unicity_relay.Events.Batches.{all_tag_rows, AllFit, tag_batches_complete}
use unicity_relay.Events.Replaced.{holds, not_newer, previous, replace_event_once-holds}
use unicity_relay.Tests.Demo.{demo, event_of, empty_store}

-- Two conflicts, the first with a sleep of 17 ms, the second with one of 20 ms, then a commit.
abbrev lost : List Reply
lost =
    record { outcome = conflicts; elapsed = 1; took = 900; drawn = 17 }
    ∷ record { outcome = conflicts; elapsed = 2; took = 800; drawn = 20 }
    ∷ []

abbrev done : Reply
done = record { outcome = commits; elapsed = 3; took = 700; drawn = 0 }

abbrev contended : EventStore
contended = record empty_store { plan = lost ++ done ∷ [] }

abbrev profile : Event
profile = event_of 10000 3 []

replace_event-retries_example : Ended true true contended profile (replace_event contended profile)
unfolding time_of backoff_cap sleep_time
replace_event-retries_example =
    replace_event-retries lost done [] contended profile (omega arith) (omega arith) refl

-- The event of the table is stored a second time.
abbrev with_profile : Database
with_profile = record { rows = profile ∷ []; tag_rows = [] }

replace_event_once-holds_example : holds (replace_event_once with_profile profile) 7 ≡ (
    not (
      exists
        (λ (row : Event). row.id == 7 && not_newer profile row)
        (previous with_profile profile))
    && (holds with_profile 7
        || (every (not_newer profile) (previous with_profile profile) && ◌==◌ {Key = ℕ} 7 7)))
replace_event_once-holds_example = replace_event_once-holds with_profile profile 7

abbrev tagged : Event
tagged = event_of 1 3 (("p" ∷ "x" ∷ []) ∷ ("alt" ∷ "y" ∷ []) ∷ ("e" ∷ "z" ∷ []) ∷ [])

tag_batches_complete_example :
    (concat (tag_batches tag_insert_batch_size tagged tagged.tags [] 0)
      ≡ all_tag_rows tagged tagged.tags)
    × AllFit (tag_batches tag_insert_batch_size tagged tagged.tags [] 0)
tag_batches_complete_example = tag_batches_complete tagged

-- The event `tagged` matches its filter by one tag of two.
abbrev with_tagged : Database
with_tagged = record {
  rows = tagged ∷ [];
  tag_rows =
      record { event_id = 7; key = "p"; value = "x"; kind = some 1 }
      ∷ record { event_id = 7; key = "e"; value = "z"; kind = some 1 }
      ∷ [];
}

abbrev by_tag : Filter
by_tag = record no_filter { kinds = 1 ∷ []; tags = ("p", "x" ∷ "w" ∷ []) ∷ ("alt", "y" ∷ []) ∷ [] }

run_query_iff_example :
    exists (λ (row : Event). row.id == 7) (run_query with_tagged by_tag)
    ≡ exists
        (λ (row : Event).
          every (tag_passes with_tagged (1 ∷ []) row.id) (tag_filters by_tag)
          && (where_clause by_tag row && row.id == 7))
        (tagged ∷ [])
run_query_iff_example = run_query_iff (λ (row : Event). row.id == 7) with_tagged by_tag refl

-- A call, the timer, and a call while the function runs.
abbrev running : Burst
running = record {
  pending = some (record { running = true; dirty = false });
  goroutines = executing ∷ [];
  unserved = false;
}

busy : Reach quiet (call running)
unfolding call rescheduled
busy = called (moved (called here) (starts [] [] armed (λ h. cc) refl refl))

Reach-serialized_example :
    (length (call running).goroutines ≤ 1)
    × ((t : Burst) × Settles (call running) t × (t.unserved ≡ false))
Reach-serialized_example = Reach-serialized busy

-- " 7d", in bytes
abbrev week : List ℕ
week = b' ' ∷ b'7' ∷ b'd' ∷ []

parse_retention_duration-IsDuration_example : IsDuration (7 * (24 * (3600 * second)))
unfolding parse_retention_duration
parse_retention_duration-IsDuration_example =
    parse_retention_duration-IsDuration week (7 * (24 * (3600 * second))) refl
