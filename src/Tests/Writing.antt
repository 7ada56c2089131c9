-- ===== src/Tests/Writing.antt =====
-- Writing to groups, on the concrete relay.
use unicity_relay.Nostr.{Event}
use unicity_relay.Prelude.{
  string_eq, nat_eq, ◌==◌, exists, first, contains, lookup, ◌≡◌, refl, true, false, not, ◌&&◌, ◌||◌,
  none, some, [], ◌∷◌,
}
use unicity_relay.Events.Store.{next_reply, store_event, sign_and_store_event}
use unicity_relay.Config.{can_manage}
use unicity_relay.Management.Admins.{is_admin}
use unicity_relay.Groups.Tags.{
  has_tag, is_write_restricted_group_content, is_private_group_content, get_group_id_from_event,
}
use unicity_relay.Groups.State.{GroupStore, config_of}
use unicity_relay.Groups.Members.{is_member}
use unicity_relay.Groups.Metadata.{
  get_metadata, update_metadata, is_private_group, is_write_restricted, is_group_creator,
}
use unicity_relay.Groups.Access.{can_write, has_access}
use unicity_relay.Groups.Writes.{group_not_found, check_write}
use unicity_relay.Groups.Writes.Rejected.{
  accepted, check_write_post_iff, check_write_hidden, check_write_stranger,
}
use unicity_relay.Groups.Flags.{sets_flag, Updated, update_metadata-Updated}
use unicity_relay.Groups.Flags.Bypass.{creation_flags, two_groups}
use unicity_relay.Tests.Demo.{
  demo_kinds, demo, event_of, group_tags, meta_of, groups_of, open_group,
}

-- 5 creates the group "n".
abbrev creation : Event
creation = event_of 9007 5 (("h" ∷ "n" ∷ []) ∷ [])

check_write_stranger_example :
    let groups = (config_of open_group).groups in
    (contains demo_kinds.metadata_kinds 9007 ≡ false)
    × ((creation.kind == 9007) ≡ true
        → (get_metadata open_group (get_group_id_from_event creation) ≡ none)
          × (groups.admin_create_only ≡ false)
          × ((groups.private_admin_only && is_private_group_content creation.content) ≡ false)
          × (is_write_restricted_group_content creation.content ≡ false))
    × ((creation.kind == 9007) ≡ false
        → contains demo_kinds.moderation_kinds creation.kind ≡ true
        → (is_group_creator open_group (get_group_id_from_event creation) creation.pubkey ≡ true)
          × ((creation.kind == 9002) ≡ true
              → is_write_restricted_group_content creation.content
                ≡ is_write_restricted open_group (get_group_id_from_event creation)))
unfolding can_manage check_write exists contains get_metadata lookup get_group_id_from_event first
    is_private_group_content is_write_restricted_group_content
check_write_stranger_example = check_write_stranger open_group creation refl refl

-- The creator 2 asks for write restriction by a tag.
abbrev edit : Event
edit = event_of 9002 2 (("h" ∷ "g" ∷ []) ∷ ("write-restricted" ∷ []) ∷ [])

abbrev edited : GroupStore
unfolding update_metadata
edited = (update_metadata edit open_group).1

-- 5 creates the private and restricted group "n" by tags.
abbrev flagged : Event
flagged = event_of 9007 5 (("h" ∷ "n" ∷ []) ∷ ("private" ∷ []) ∷ ("write-restricted" ∷ []) ∷ [])

abbrev created : GroupStore
unfolding update_metadata
created = (update_metadata flagged open_group).1

creation_flags_example :
    (is_write_restricted created "n" ≡ has_tag flagged.tags "write-restricted")
    × (true ≡ true → is_private_group created "n" ≡ has_tag flagged.tags "private")
unfolding can_manage check_write update_metadata exists contains get_metadata lookup
    get_group_id_from_event first is_private_group_content is_write_restricted_group_content
    sign_and_store_event store_event next_reply
creation_flags_example = creation_flags flagged open_group created refl refl refl refl refl refl

-- The creator of "g" edits another group as well.
abbrev double : Event
double = event_of 9002 2 (("h" ∷ "g" ∷ []) ∷ ("h" ∷ "other" ∷ []) ∷ ("private" ∷ []) ∷ [])

abbrev doubled : GroupStore
unfolding update_metadata
doubled = (update_metadata double open_group).1

two_groups_example :
    (is_group_creator open_group "g" 2 ≡ true)
    × (is_private_group doubled "other" ≡ sets_flag double "private")
    × (is_write_restricted doubled "other" ≡ sets_flag double "write-restricted")
unfolding check_write can_manage exists first lookup get_metadata get_group_id_from_event
    is_write_restricted_group_content update_metadata contains sign_and_store_event store_event
    next_reply is_private_group is_group_creator is_write_restricted
two_groups_example =
    two_groups double "g" "other" (("private" ∷ []) ∷ []) open_group doubled refl refl refl refl
      refl refl refl refl refl

update_metadata-Updated_example : Updated "g" edit open_group edited
unfolding update_metadata sign_and_store_event store_event next_reply
update_metadata-Updated_example = update_metadata-Updated edit open_group edited refl refl

-- A post by 2 to a group that is closed and write-restricted.
abbrev restricted : GroupStore
restricted = groups_of (("closed" ∷ []) ∷ ("write-restricted" ∷ []) ∷ [])

abbrev post : Event
post = event_of 11 3 group_tags

check_write_post_iff_example : accepted (check_write restricted post) ≡ (
    (config_of restricted).groups.enabled
    && ((has_access restricted "g" 3
          || not (
              has_tag
                (meta_of (("closed" ∷ []) ∷ ("write-restricted" ∷ []) ∷ [])).event.tags
                "hidden"
              || has_tag
                  (meta_of (("closed" ∷ []) ∷ ("write-restricted" ∷ []) ∷ [])).event.tags
                  "closed"))
        && (can_write restricted "g" 3
            || not (
                has_tag
                  (meta_of (("closed" ∷ []) ∷ ("write-restricted" ∷ []) ∷ [])).event.tags
                  "write-restricted"))))
unfolding get_metadata get_group_id_from_event contains lookup first
check_write_post_iff_example =
    check_write_post_iff restricted post
      (meta_of (("closed" ∷ []) ∷ ("write-restricted" ∷ []) ∷ [])).event
      (record {
        no_metadata = refl;
        no_creation = refl;
        no_moderation = refl;
        no_join = refl;
        no_leave = refl;
      })
      refl

abbrev hidden : GroupStore
hidden = groups_of (("hidden" ∷ []) ∷ [])

-- No group at all.
abbrev empty_group : GroupStore
empty_group = record open_group { metadata_cache = [] }

check_write_hidden_example :
    (check_write hidden (event_of 9022 5 group_tags) ≡ some group_not_found)
    × (check_write empty_group (event_of 9022 5 group_tags) ≡ some group_not_found)
unfolding get_metadata get_group_id_from_event has_access check_write contains lookup first has_tag
    exists is_private_group can_manage is_admin is_member
check_write_hidden_example =
    check_write_hidden hidden empty_group (event_of 9022 5 group_tags)
      (meta_of (("hidden" ∷ []) ∷ [])).event refl refl refl refl refl refl refl (λ h. absurd cc)
      refl refl
