-- ===== src/Tests/Membership.antt =====
-- Members, roles and readers of groups, on the concrete relay.
use unicity_relay.Groups.Publish.{delete_group}
use unicity_relay.Groups.Deletion.{Forgotten, delete_group-Forgotten}
use unicity_relay.Prelude.{
  string_eq, nat_eq, ◌==◌, exists, contains, lookup, ◌≡◌, refl, inr, true, false, ◌&&◌, ◌||◌, some,
  List, [], ◌∷◌,
}
use unicity_relay.Nostr.{Tag, Event}
use unicity_relay.Config.{can_manage}
use unicity_relay.Events.Table.{save_event_with}
use unicity_relay.Events.Store.{save_event, store_event, sign_and_store_event}
use unicity_relay.Groups.Tags.{get_group_id_from_event}
use unicity_relay.Groups.State.{GroupStore}
use unicity_relay.Groups.Members.{add_member, remove_member}
use unicity_relay.Groups.Membership.{Changed, Outcomes, add_member-Outcomes, remove_member-Outcomes}
use unicity_relay.Groups.Latest.{log_of, Decided, is_member-log, can_write-removed}
use unicity_relay.Groups.Metadata.{event_flag, get_metadata, is_write_restricted, is_group_creator}
use unicity_relay.Groups.Access.{can_write, has_access, can_read}
use unicity_relay.Groups.Reading.{is_found, visible, can_read_iff}
use unicity_relay.Tests.Demo.{
  letters, demo, event_of, empty_store, group_tags, groups_of, open_group,
}

-- The key 4 joins the group "g", and the key 3 leaves it.
add_member-Outcomes_example : Outcomes (Changed "g" 4 true) open_group (add_member "g" 4 open_group)
add_member-Outcomes_example = add_member-Outcomes "g" 4 open_group

remove_member-Outcomes_example :
    Outcomes (Changed "g" 3 false) open_group (remove_member "g" 3 open_group)
remove_member-Outcomes_example = remove_member-Outcomes "g" 3 open_group

-- 3 was a writer of the write-restricted group, is removed and comes back.
abbrev restricted : GroupStore
restricted = groups_of (("write-restricted" ∷ []) ∷ [])

abbrev without : GroupStore
unfolding remove_member
without = (remove_member "g" 3 restricted).1

abbrev returned : GroupStore
unfolding add_member
returned = (add_member "g" 3 without).1

can_write-removed_example : can_write returned "g" 3 ≡ false
unfolding remove_member add_member can_manage is_write_restricted is_group_creator
    sign_and_store_event store_event save_event save_event_with exists lookup
can_write-removed_example =
    can_write-removed "g" 3 restricted without returned refl (inr refl) refl refl refl

-- The log of the key 4 in a group that is not loaded: added at 10, removed at 20.
abbrev member_tags : List Tag
member_tags = ("p" ∷ letters 4 ∷ []) ∷ ("h" ∷ "g" ∷ []) ∷ []

abbrev put_event : Event
put_event = record (event_of 9000 2 member_tags) { id = 1; created_at = 10 }

abbrev remove_event : Event
remove_event = record (event_of 9001 2 member_tags) { id = 2; created_at = 20 }

abbrev logged : GroupStore
logged = record open_group {
  membership_fully_loaded = [];
  events = record empty_store {
    database = record {
      rows = put_event ∷ remove_event ∷ [];
      tag_rows =
          record { event_id = 1; key = "p"; value = letters 4; kind = some 9000 }
          ∷ record { event_id = 1; key = "h"; value = "g"; kind = some 9000 }
          ∷ record { event_id = 2; key = "p"; value = letters 4; kind = some 9001 }
          ∷ record { event_id = 2; key = "h"; value = "g"; kind = some 9001 }
          ∷ [];
    };
  };
}

is_member-log_example : Decided logged "g" 4 (log_of logged "g" 4)
unfolding contains
is_member-log_example = is_member-log logged "g" 4 refl

-- 3 reads a post to a group that is hidden and private.
abbrev secluded : GroupStore
secluded = groups_of (("hidden" ∷ []) ∷ ("private" ∷ []) ∷ [])

abbrev post : Event
post = event_of 11 2 group_tags

can_read_iff_example :
    let h = get_group_id_from_event post in
    can_read secluded 3 post ≡ (
      true
      && (h == "_"
          || (is_found (get_metadata secluded h)
              && visible false
                  (has_access secluded h 3)
                  (event_flag "hidden" (get_metadata secluded h))
                  (event_flag "private" (get_metadata secluded h))
                  11)))
can_read_iff_example = can_read_iff secluded 3 post

delete_group-Forgotten_example : Forgotten "g" open_group (delete_group "g" open_group)
delete_group-Forgotten_example = delete_group-Forgotten "g" open_group refl refl
