-- ===== src/Instance/Saved.antt =====
-- What zooid/instance.go does once an event is stored: `OnEventSaved`. Errors
-- are logged there and the handler goes on. `none` is a panic.
use mathlib.Core.Option
use unicity_relay.Prelude.{
  if◌then◌else◌, is_some, ◌==◌, nat_eq, string_eq, drop, first, add, lookup, insert, String, Bool,
  ◌&&◌, Option, none, some, List, [], ◌∷◌,
}
use unicity_relay.Nostr.{Tag, Event, value_of, Externals}
use unicity_relay.Groups.Tags.{get_group_id_from_event}
use unicity_relay.Groups.State.{GroupStore, Done, config_of}
use unicity_relay.Groups.Members.{
  put_member, drop_member, clear_member_roles, set_member_roles, add_member, remove_member,
}
use unicity_relay.Groups.Metadata.{update_metadata}
use unicity_relay.Groups.Publish.{
  update_admins_list, schedule_members_list_update, schedule_member_count_refresh, delete_group,
}
use unicity_relay.Instance.State.{Instance, with_groups}

-- The roles behind a key in a p-tag.
abbrev pub roles_of : Tag → List String
roles_of tag = drop 2 tag

-- Steps of the handler, one after the other.
abbrev pub Step : Type 0
Step = GroupStore → Option GroupStore

infixr 5 ◌then_do◌
abbrev pub ◌then_do◌ : Step → Step → Step
(first then_do second) g = bound (first g)
  where
    bound : Option GroupStore → Option GroupStore
    bound none = none
    bound (some g') = second g'

abbrev pub always : (GroupStore → GroupStore) → Step
always f g = some (f g)

-- The error is logged.
abbrev pub logged : (GroupStore → Done) → GroupStore → GroupStore
logged f g = (f g).1

abbrev pub skip : Step
skip g = some g

abbrev pub when_do : Bool → Step → Step
when_do test step = if test then step else skip

module _ ⦃x : Externals⦄ where
  -- The loop over the p-tags of a put-user event.
  unfoldable pub put_users : String → List Tag → GroupStore → GroupStore
  put_users h [] g = g
  put_users h (tag ∷ tags) g = elim (x.pub_key_from_hex (value_of tag)) [
    | none ↦ put_users h tags g
    | some pubkey ↦
        put_users h tags (set_member_roles h pubkey (roles_of tag) (put_member h pubkey g))
  ]

  -- The loop over the p-tags of a remove-user event.
  unfoldable pub remove_users : String → List Tag → GroupStore → GroupStore
  remove_users h [] g = g
  remove_users h (tag ∷ tags) g = elim (x.pub_key_from_hex (value_of tag)) [
    | none ↦ remove_users h tags g
    | some pubkey ↦ remove_users h tags (clear_member_roles h pubkey (drop_member h pubkey g))
  ]

  abbrev pub reschedule : String → GroupStore → GroupStore
  reschedule h g =
      logged (schedule_member_count_refresh h) (logged (schedule_members_list_update h) g)

  abbrev pub admins_step : String → Step
  admins_step h g = Option.map (λ done. done.1) (update_admins_list h g)

  unfoldable pub on_join : String → Event → GroupStore → GroupStore
  on_join h event g = reschedule h (logged (add_member h event.pubkey) g)

  unfoldable pub on_leave : String → Event → GroupStore → GroupStore
  on_leave h event g = reschedule h (logged (remove_member h event.pubkey) g)

  unfoldable pub on_put_user : String → Event → GroupStore → GroupStore
  unfolding put_users
  on_put_user h event g = reschedule h (put_users h (x.find_all event.tags "p") g)

  unfoldable pub on_remove_user : String → Event → GroupStore → GroupStore
  unfolding remove_users
  on_remove_user h event g = reschedule h (
      if is_some (lookup g.membership_cache h)
      then remove_users h (x.find_all event.tags "p") g
      else g)

  unfoldable pub on_create_group : String → Event → Step
  on_create_group h event g =
      let g₁ = record g {
        creator_cache = insert h event.pubkey g.creator_cache;
        membership_fully_loaded = add h g.membership_fully_loaded;
      } in
      let g₂ = logged (update_metadata event) (logged (add_member h event.pubkey) g₁) in
      admins_step h (logged (schedule_members_list_update h) g₂)

  unfoldable pub on_edit_metadata : String → Event → Step
  on_edit_metadata h event g = admins_step h (logged (update_metadata event) g)

  -- The whole handler, on the groups.
  unfoldable pub saved_in_groups : Event → Step
  unfolding on_join on_leave on_put_user on_remove_user on_create_group on_edit_metadata
  saved_in_groups event g =
      let h = get_group_id_from_event event in
      (when_do (event.kind == x.kinds.join_request && (config_of g).groups.auto_join)
            (always (on_join h event))
          then_do when_do (event.kind == x.kinds.leave_request) (always (on_leave h event))
          then_do when_do (event.kind == x.kinds.put_user) (always (on_put_user h event))
          then_do when_do (event.kind == x.kinds.remove_user) (always (on_remove_user h event))
          then_do when_do (event.kind == x.kinds.create_group) (on_create_group h event)
          then_do when_do (event.kind == x.kinds.edit_metadata) (on_edit_metadata h event)
          then_do when_do (event.kind == x.kinds.delete_group) (always (delete_group h)))
        g

  unfoldable pub on_event_saved : Event → Instance → Option Instance
  unfolding saved_in_groups
  on_event_saved event i = Option.map (with_groups i) (saved_in_groups event i.groups)
