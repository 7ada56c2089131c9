-- ===== src/Groups/Publish.antt =====
-- The lists that the relay publishes for a group in zooid/groups.go: `GetAdmins`, `UpdateAdminsList`,
-- `UpdateMembersList`, their schedule, and `DeleteGroup`.
use Prim.Native.String.{compare, ◌++◌ as ◌^++◌}
use mathlib.Core.Option
use text.Mathlib.Text.{is_le}
use unicity_relay.Prelude.{
  if◌then◌else◌, or_else, string_eq, nat_eq, ◌==◌, select, contains, remove, lookup, delete, keys,
  ℕ, String, true, not, ◌&&◌, Option, none, some, List, [], ◌∷◌, map,
}
use unicity_relay.Nostr.{Tag, Event, Filter, no_filter, Externals}
use unicity_relay.Debounce.{schedule_rewrite}
use unicity_relay.Events.Store.{
  Failure, EventStore, delete_event, query_events, unsigned, sign_and_store_event,
}
use unicity_relay.Groups.State.{Roles, GroupStore, Done, config_of}
use unicity_relay.Groups.Members.{get_members}
use unicity_relay.Groups.Metadata.{refresh_member_count, is_private_group, get_group_creator}
use unicity_relay.Management.Admins.{get_admins}

-- `sort.Strings`
unfoldable pub insert_sorted : String → List String → List String
insert_sorted s [] = s ∷ []
insert_sorted s (t ∷ ts) = if is_le (compare s t) then s ∷ t ∷ ts else t ∷ insert_sorted s ts

unfoldable pub sort_strings : List String → List String
unfolding insert_sorted
sort_strings [] = []
sort_strings (s ∷ ss) = insert_sorted s (sort_strings ss)

abbrev pub sorted_roles : Option (List String) → List String
sorted_roles none = []
sorted_roles (some roles) = sort_strings roles

abbrev pub with_events : GroupStore → Option Failure × Event × EventStore → Done
with_events g (e, event, events) = (e, record g { events = events })

-- The ids of the events that are not group deletions.
unfoldable pub ids_except : ℕ → List Event → List ℕ
ids_except kind events = map (λ event. event.id) (select (λ event. not (event.kind == kind)) events)

-- `DeleteEvent` for each id, its error ignored.
unfoldable pub delete_events : List ℕ → EventStore → EventStore
delete_events [] st = st
delete_events (id ∷ ids) st = delete_events ids (delete_event st id).1

-- The entries of a group leave every cache.
abbrev pub forget : String → GroupStore → GroupStore
forget h g = record g {
  metadata_cache = delete h g.metadata_cache;
  membership_cache = delete h g.membership_cache;
  membership_fully_loaded = remove h g.membership_fully_loaded;
  role_cache = delete h g.role_cache;
  creator_cache = delete h g.creator_cache;
}

module _ ⦃x : Externals⦄ where
  -- `none` where the code panics.
  unfoldable pub get_group_admins : GroupStore → String → Option (List ℕ)
  get_group_admins g h =
      if not (h == "_")
        && (is_private_group g h && not (config_of g).groups.private_relay_admin_access)
      then some (if get_group_creator g h == 0 then [] else get_group_creator g h ∷ [])
      else get_admins (config_of g)

  abbrev pub person_tags : List ℕ → List Tag
  person_tags keys = map (λ key. "p" ∷ x.hex key ∷ []) keys

  -- `none` where the code panics.
  unfoldable pub update_admins_list : String → GroupStore → Option Done
  unfolding get_group_admins
  update_admins_list h g =
      Option.map
        (λ admins. with_events g (
          sign_and_store_event g.events
            (unsigned x.kinds.admins g.events.clock
              (("-" ∷ []) ∷ ("d" ∷ h ∷ []) ∷ person_tags admins) "")
            true))
        (get_group_admins g h)

  -- The p-tag of a member, with the sorted roles behind the key.
  unfoldable pub member_tag : Roles → ℕ → Tag
  unfolding sort_strings
  member_tag roles key = "p" ∷ x.hex key ∷ sorted_roles (lookup roles key)

  unfoldable pub members_tags : GroupStore → String → List Tag
  unfolding member_tag
  members_tags g h =
      ("-" ∷ [])
      ∷ ("d" ∷ h ∷ [])
      ∷ map (member_tag (or_else [] (lookup g.role_cache h))) (get_members g h)

  unfoldable pub update_members_list : String → GroupStore → Done
  unfolding members_tags
  update_members_list h g =
      if contains g.membership_fully_loaded h
      then with_events g (
          sign_and_store_event g.events
            (unsigned x.kinds.members g.events.clock (members_tags g h) "") true)
      else (none, g)

  -- Behind a debounce delay the call only notes the key; the timer's goroutine calls later.
  abbrev pub scheduled : String → GroupStore → Done → Done
  scheduled key g at_once =
      if g.debounce_delay == 0
      then at_once
      else (none, record g { debounce_pending = schedule_rewrite key g.debounce_pending })

  unfoldable pub schedule_members_list_update : String → GroupStore → Done
  unfolding update_members_list schedule_rewrite
  schedule_members_list_update h g = scheduled ("members:" ^++ h) g (update_members_list h g)

  unfoldable pub schedule_member_count_refresh : String → GroupStore → Done
  unfolding refresh_member_count schedule_rewrite
  schedule_member_count_refresh h g = scheduled ("count:" ^++ h) g (refresh_member_count h g)

  -- What one of the two filters of `DeleteGroup` finds is deleted.
  unfoldable pub delete_found : Filter → EventStore → EventStore
  unfolding delete_events ids_except
  delete_found filter st =
      delete_events (ids_except x.kinds.delete_group (query_events st filter 0)) st

  abbrev pub by_d : String → Filter
  by_d h = record no_filter { kinds = x.kinds.metadata_kinds; tags = ("d", h ∷ []) ∷ [] }

  abbrev pub by_h : String → Filter
  by_h h = record no_filter { tags = ("h", h ∷ []) ∷ [] }

  unfoldable pub delete_group : String → GroupStore → GroupStore
  unfolding delete_found
  delete_group h g =
      forget h (record g { events = delete_found (by_h h) (delete_found (by_d h) g.events) })
