-- ===== src/Groups/Writes.antt =====
-- Who may write in zooid/groups.go: `CheckWrite`.
pub mod Rejected
use unicity_relay.Prelude.{
  if◌then◌else◌, ◌==◌, nat_eq, string_eq, contains, String, Bool, true, false, not, ◌&&◌, ◌||◌,
  Option, none, some,
}
use unicity_relay.Nostr.{Event, Externals}
use unicity_relay.Config.{can_manage}
use unicity_relay.Groups.Tags.{
  has_tag, is_write_restricted_group_content, is_private_group_content, get_group_id_from_event,
  get_invite_code_from_event,
}
use unicity_relay.Groups.State.{GroupStore, config_of}
use unicity_relay.Groups.Members.{is_member}
use unicity_relay.Groups.Metadata.{
  get_metadata, is_private_group, is_write_restricted, is_group_creator,
}
use unicity_relay.Groups.Access.{validate_invite_code, can_write, has_access}

-- The texts that `CheckWrite` returns; the empty text is `none`.
pub data Refusal : Type 0 where
  groups_not_enabled metadata_not_direct group_exists admins_create_only : Refusal
  admins_create_private admins_create_restricted group_not_found creator_manages_private : Refusal
  not_authorized admins_change_restricted already_member invite_required : Refusal
  not_currently_member not_a_member designated_writers_only : Refusal

unfoldable pub message : Refusal → String
message groups_not_enabled = "invalid: groups are not enabled"
message metadata_not_direct = "invalid: group metadata cannot be set directly"
message group_exists = "invalid: that group already exists"
message admins_create_only = "restricted: only admins can create groups"
message admins_create_private = "restricted: only admins can create private groups"
message admins_create_restricted = "restricted: only admins can create write-restricted groups"
message group_not_found = "invalid: group not found"
message creator_manages_private = "restricted: only the group creator can manage private groups"
message not_authorized = "restricted: you are not authorized to manage groups"
message admins_change_restricted = "restricted: only admins can change write-restricted on groups"
message already_member = "duplicate: already a member"
message invite_required = "restricted: valid invite code required to join this group"
message not_currently_member = "duplicate: not currently a member"
message not_a_member = "restricted: you are not a member of that group"
message designated_writers_only = "restricted: this group only allows designated writers to post"

-- `if test { return text }`, and what follows otherwise.
infixr 3 ◌orelse◌
abbrev pub ◌orelse◌ : Option Refusal → Option Refusal → Option Refusal
none orelse rest = rest
some text orelse rest = some text

abbrev pub refuse_if : Bool → Refusal → Option Refusal
refuse_if true text = some text
refuse_if false text = none

-- `a == b` on Booleans.
abbrev pub agree : Bool → Bool → Bool
agree true b = b
agree false b = not b

module _ ⦃x : Externals⦄ where
  -- A create-group event: is there a group with this id already?
  unfoldable pub check_create : GroupStore → Event → Option Event → Option Refusal
  check_create g event (some meta) = some group_exists
  check_create g event none =
      let config = config_of g in
      let manages = can_manage config event.pubkey in
      refuse_if (config.groups.admin_create_only && not manages) admins_create_only
      orelse refuse_if
          (config.groups.private_admin_only
            && not manages
            && is_private_group_content event.content)
          admins_create_private
      orelse refuse_if (is_write_restricted_group_content event.content && not manages)
          admins_create_restricted

  -- The checks of moderation events.
  unfoldable pub check_moderation : GroupStore → String → Event → Option Refusal
  check_moderation g h event =
      let config = config_of g in
      let manages = can_manage config event.pubkey in
      if not (contains x.kinds.moderation_kinds event.kind)
      then none
      else (if is_private_group g h && not config.groups.private_relay_admin_access
          then refuse_if (not (is_group_creator g h event.pubkey)) creator_manages_private
          else refuse_if (not manages && not (is_group_creator g h event.pubkey)) not_authorized)
        orelse refuse_if
            (event.kind == x.kinds.edit_metadata
              && (not manages
                  && not (
                      agree (is_write_restricted g h)
                        (is_write_restricted_group_content event.content))))
            admins_change_restricted

  -- A join request.
  unfoldable pub check_join : GroupStore → String → Event → Event → Option Refusal
  check_join g h event meta =
      let hidden = has_tag meta.tags "hidden" in
      refuse_if (is_member g h event.pubkey) already_member
      orelse refuse_if
          ((has_tag meta.tags "private" || hidden)
            && not (validate_invite_code g h (get_invite_code_from_event event)))
          (if hidden then group_not_found else invite_required)

  -- What is neither a creation nor a join request.
  unfoldable pub check_post : GroupStore → String → Event → Event → Option Refusal
  check_post g h event meta =
      refuse_if (has_tag meta.tags "hidden" && not (has_access g h event.pubkey)) group_not_found
      orelse (if event.kind == x.kinds.leave_request
          then refuse_if (not (is_member g h event.pubkey)) not_currently_member
          else refuse_if (has_tag meta.tags "closed" && not (has_access g h event.pubkey))
              not_a_member
            orelse refuse_if
                (has_tag meta.tags "write-restricted" && not (can_write g h event.pubkey))
                designated_writers_only)

  unfoldable pub check_existing : GroupStore → String → Event → Option Event → Option Refusal
  unfolding check_moderation check_join check_post
  check_existing g h event none = some group_not_found
  check_existing g h event (some meta) =
      check_moderation g h event
      orelse (if event.kind == x.kinds.join_request
          then check_join g h event meta
          else check_post g h event meta)

  unfoldable pub check_write : GroupStore → Event → Option Refusal
  unfolding check_create check_existing
  check_write g event =
      let h = get_group_id_from_event event in
      refuse_if (not (config_of g).groups.enabled) groups_not_enabled
      orelse refuse_if (contains x.kinds.metadata_kinds event.kind) metadata_not_direct
      orelse (if event.kind == x.kinds.create_group
          then check_create g event (get_metadata g h)
          else check_existing g h event (get_metadata g h))
