-- ===== src/Tests/Warm.antt =====
-- The start of the groups from stored snapshots, on the concrete relay.
use unicity_relay.Prelude.{string_eq, nat_eq, select, ℕ, refl, none, List, [], ◌∷◌}
use unicity_relay.Nostr.{Tag, Event}
use unicity_relay.Groups.State.{GroupStore}
use unicity_relay.Groups.Members.{latest_of}
use unicity_relay.Groups.Warm.{warm_members}
use unicity_relay.Groups.Warm.Snapshots.{IsLatestOf, Loaded, of_group, warm_members-latest}
use unicity_relay.Tests.Demo.{letters, demo, relay_key, event_of, empty_store, open_group}

-- Two snapshots of "g", the newer one with the keys 2 and 3; behind it 3 leaves and 5 comes.
abbrev snapshot : ℕ → ℕ → List Tag → Event
snapshot id time tags = record (event_of 39002 relay_key (("d" ∷ "g" ∷ []) ∷ tags)) {
  id = id;
  created_at = time;
}

abbrev change : ℕ → ℕ → ℕ → ℕ → Event
change id time kind key =
    record (event_of kind relay_key (("h" ∷ "g" ∷ []) ∷ ("p" ∷ letters key ∷ []) ∷ [])) {
      id = id;
      created_at = time;
    }

abbrev latest_snapshot : Event
latest_snapshot = snapshot 21 20 (("p" ∷ letters 2 ∷ []) ∷ ("p" ∷ letters 3 ∷ "writer" ∷ []) ∷ [])

abbrev earlier_snapshot : Event
earlier_snapshot = snapshot 11 10 (("p" ∷ letters 4 ∷ []) ∷ [])

abbrev cold_group : GroupStore
cold_group = record open_group {
  events = record empty_store {
    database = record {
      rows = earlier_snapshot ∷ change 31 30 9001 3 ∷ latest_snapshot ∷ change 32 31 9000 5 ∷ [];
      tag_rows = [];
    };
  };
  membership_cache = [];
  role_cache = [];
  membership_fully_loaded = [];
}

warm_members-latest_example :
    let events = earlier_snapshot ∷ latest_snapshot ∷ [] in
    let latest = latest_of none (select (of_group "g") events) in
    Loaded "g" latest cold_group
      (warm_members events [] cold_group).0
      (warm_members events [] cold_group).1
    × IsLatestOf latest (select (of_group "g") events)
warm_members-latest_example =
    warm_members-latest "g" (earlier_snapshot ∷ latest_snapshot ∷ []) cold_group refl
