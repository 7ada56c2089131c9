-- ===== src/Debounce.antt =====
-- The debouncing of zooid/groups.go: `scheduleRewrite` and the goroutine of its timer.
pub mod Runs
use unicity_relay.Prelude.{
  if◌then◌else◌, nat_eq, string_eq, Map, lookup, insert, String, Bool, true, false, Option, none,
  some,
}

pub record DebounceEntry : Type 0 where
  pub running : Bool
  pub dirty : Bool

-- `debouncePending`
abbrev pub Debouncer : Type 0
Debouncer = Map String DebounceEntry

-- What a call does to the entry of its key.
unfoldable pub rescheduled : Option DebounceEntry → DebounceEntry
rescheduled none = record { running = false; dirty = false }
rescheduled (some entry) = if entry.running then record entry { dirty = true } else entry

unfoldable pub schedule_rewrite : String → Debouncer → Debouncer
unfolding rescheduled
schedule_rewrite key pending = insert key (rescheduled (lookup pending key)) pending
