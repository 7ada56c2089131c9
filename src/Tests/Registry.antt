-- ===== src/Tests/Registry.antt =====
-- Files of the configuration directory, on concrete instances.
use unicity_relay.Prelude.{
  string_eq, nat_eq, exists, lookup, insert, String, ◌≡◌, refl, true, false, Option, none, some,
  List, [], ◌∷◌,
}
use unicity_relay.Instance.State.{Instance}
use unicity_relay.Registry.{
  Registry, host_of, dispatch, DirEntry, no_instances, start, FileEvent, on_file_event,
}
use unicity_relay.Registry.Hosts.{IsSound, started, watched, Reach-IsSound}
use unicity_relay.Registry.Served.{on_file_event_same_host}
use unicity_relay.Tests.Demo.{demo, demo_config, empty_store, demo_instance}

abbrev entry_of : String → Option Instance → DirEntry
entry_of name made = record { name = name; is_dir = false; made = made }

-- Two files with one host.
abbrev entries : List DirEntry
entries = entry_of "a.toml" (some demo_instance) ∷ entry_of "b.toml" (some demo_instance) ∷ []

abbrev removal : FileEvent
removal = record { name = "a.toml"; is_write = false; is_create = false; is_remove = true }

abbrev write : FileEvent
write = record { name = "a.toml"; is_write = true; is_create = false; is_remove = false }

Reach-IsSound_example : IsSound (on_file_event removal none (start entries))
unfolding exists
Reach-IsSound_example = Reach-IsSound (watched removal none (started entries (refl, (refl, tt))))

-- An instance with another host, whose file comes first.
abbrev other_instance : Instance
other_instance = record demo_instance {
  groups = record demo_instance.groups {
    events = record empty_store { config = record demo_config { host = "other.example" } };
  };
}

abbrev creation : FileEvent
creation = record { name = "b.toml"; is_write = false; is_create = true; is_remove = false }

abbrev with_other : Registry
with_other = on_file_event creation (some other_instance) no_instances

on_file_event_same_host_example :
    let after = on_file_event removal none (start entries) in
    (dispatch after (host_of demo_instance) ≡ none)
    × (lookup after.instances_by_name "b.toml" ≡ some demo_instance)
    × (after.cleaned ≡ demo_instance ∷ [])
unfolding lookup start insert
on_file_event_same_host_example =
    on_file_event_same_host removal none (start entries) "b.toml" demo_instance demo_instance refl
      refl refl refl refl
