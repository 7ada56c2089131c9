-- ===== src/Tests/Upkeep.antt =====
-- The cleaner on a relay with one expired message.
use unicity_relay.Prelude.{
  ltb, if◌then◌else◌, string_eq, nat_eq, ◌==◌, length, take, select, exists, every, contains, add,
  lookup, ℕ, zero, suc, ◌+◌, ◌≤◌, String, ◌≡◌, refl, ap, true, ◌||◌, none, some, List, [], ◌∷◌,
  arith,
}
use unicity_relay.Nostr.{Event}
use unicity_relay.Config.Retention.{parse_retention_duration, get_retention}
use unicity_relay.Events.Table.{TagRow}
use unicity_relay.Events.Store.{faults, EventStore}
use unicity_relay.Instance.State.{Instance, events_in, with_store}
use unicity_relay.Retention.{
  Unique, Planner, expired_ids, delete_in, affected, delete_expired_group_messages,
}
use unicity_relay.Retention.Runs.{
  delete_expired_group_messages_ends, delete_expired_group_messages_all,
}
use unicity_relay.Retention.Clean.{held, clean_instance_keeps}
use unicity_relay.Tests.Demo.{demo, demo_config, event_of, empty_store, group_tags, demo_instance}
use unicity_relay.Retention.Passes.{clean_instance}

-- `take` is a LIMIT.
take-contains :
    (n : ℕ) (ids : List ℕ) (i : ℕ) → contains (take n ids) i ≡ true → contains ids i ≡ true
unfolding contains
take-contains zero ids i h = absurd cc
take-contains (suc n) [] i h = h
take-contains (suc n) (j ∷ ids) i h = ground (arith, h, take-contains n ids i)

take-length :
    (n : ℕ) (ids : List ℕ) → length (take n ids) ≡ (if ltb n (length ids) then n else length ids)
take-length zero [] = refl
take-length zero (j ∷ ids) = ground arith
take-length (suc n) [] = ground arith
take-length (suc n) (j ∷ ids) = ground (arith, take-length n ids)

take_all :
    (n : ℕ) (ids : List ℕ) → length ids ≤ n → (i : ℕ) → contains (take n ids) i ≡ contains ids i
unfolding contains
take_all zero [] fits i = refl
take_all zero (j ∷ ids) fits i = absurd (omega arith)
take_all (suc n) [] fits i = refl
take_all (suc n) (j ∷ ids) fits i = ap (λ b. j == i || b) (take_all n ids (omega arith) i)

take-Unique : (n : ℕ) (ids : List ℕ) → Unique ids → Unique (take n ids)
take-Unique zero ids unique = tt
take-Unique (suc n) [] unique = tt
take-Unique (suc n) (j ∷ ids) unique =
    (ground (arith, unique.0, take-contains n ids j), take-Unique n ids unique.1)

instance abbrev planner : Planner
planner = record {
  limit = take;
  limit-contains = take-contains;
  limit-length = take-length;
  limit_all = take_all;
  limit-Unique = take-Unique;
}

-- An old message in "g", one that is not old, and an old event of another kind.
abbrev in_group : ℕ → ℕ → ℕ → Event
in_group id time kind = record (event_of kind 2 group_tags) { id = id; created_at = time }

abbrev tag_in_group : ℕ → TagRow
tag_in_group id = record { event_id = id; key = "h"; value = "g"; kind = none }

abbrev chat_store : EventStore
chat_store = record empty_store {
  config = record demo_config {
    groups = record demo_config.groups {
      retention = record { default = b'1' ∷ b's' ∷ []; groups = none };
    };
  };
  database = record {
    rows = in_group 1 10 9 ∷ in_group 2 95 9 ∷ in_group 3 10 1 ∷ [];
    tag_rows = tag_in_group 1 ∷ tag_in_group 2 ∷ tag_in_group 3 ∷ [];
  };
}

-- The first statement fails.
abbrev failing_store : EventStore
failing_store = record chat_store {
  plan = record { outcome = faults; elapsed = 0; took = 0; drawn = 0 } ∷ [];
}

delete_expired_group_messages_ends_example :
    (n : ℕ) × (st' : EventStore) × (ids : List ℕ) × (delete_expired_group_messages "g" 50
        failing_store
      ≡ some (n, st'))
    × (st'.database ≡ delete_in ids failing_store.database)
    × (every (contains (expired_ids "g" 50 failing_store.database)) ids ≡ true)
    × (n + length st'.database.rows ≡ length failing_store.database.rows)
delete_expired_group_messages_ends_example = delete_expired_group_messages_ends "g" 50 failing_store

delete_expired_group_messages_all_example :
    (st' : EventStore) × (delete_expired_group_messages "g" 50 chat_store
      ≡ some (affected (expired_ids "g" 50 chat_store.database) chat_store.database, st'))
    × (st'.database ≡ delete_in (expired_ids "g" 50 chat_store.database) chat_store.database)
delete_expired_group_messages_all_example = delete_expired_group_messages_all "g" 50 chat_store refl

abbrev chat_instance : Instance
chat_instance = with_store demo_instance chat_store

abbrev clock : String → ℕ
clock group = 96

-- The message 2 is one second old, and that is not more than the retention.
clean_instance_keeps_example :
    (n : ℕ) × (j : Instance) × (clean_instance clock chat_instance ≡ some (n, j))
    × (held 2 (events_in j).database ≡ true)
unfolding exists get_retention lookup parse_retention_duration contains expired_ids select add
clean_instance_keeps_example = clean_instance_keeps clock chat_instance 2 refl refl
