-- ===== src/Groups/Access.antt =====
-- Who may read in zooid/groups.go: `HasAccess`, `IsGroupEvent`, `CanRead`, `ValidateInviteCode`, and
-- `CanWrite` for write-restricted groups.
use unicity_relay.Prelude.{
  leb, if◌then◌else◌, ◌==◌, nat_eq, string_eq, length, exists, contains, ℕ, String, Bool, true,
  false, not, ◌&&◌, ◌||◌, Option, none, some, [], ◌∷◌,
}
use unicity_relay.Nostr.{Tag, Event, no_filter, value_of, Externals}
use unicity_relay.Config.{can_manage}
use unicity_relay.Events.Store.{query_events}
use unicity_relay.Groups.Tags.{has_tag, get_group_id_from_event}
use unicity_relay.Groups.State.{GroupStore, config_of}
use unicity_relay.Groups.Members.{has_role, is_member}
use unicity_relay.Groups.Metadata.{
  get_metadata, is_private_group, is_write_restricted, is_group_creator,
}
use unicity_relay.Management.Admins.{is_admin}

abbrev pub relay_group : String
relay_group = "_"

-- The code tag shows this code.
abbrev pub shows_code : String → Option Tag → Bool
shows_code code none = false
shows_code code (some tag) = leb 2 (length tag) && value_of tag == code

module _ ⦃x : Externals⦄ where
  unfoldable pub validate_invite_code : GroupStore → String → String → Bool
  validate_invite_code g h code =
      if code == ""
      then false
      else exists (λ event. shows_code code (x.find event.tags "code"))
          (query_events g.events (record no_filter { kinds = 9009 ∷ []; tags = ("h", h ∷ []) ∷ [] })
            0)

  unfoldable pub can_write : GroupStore → String → ℕ → Bool
  can_write g h pubkey =
      if not (is_write_restricted g h)
      then true
      else if can_manage (config_of g) pubkey || is_group_creator g h pubkey
      then true
      else is_member g h pubkey && has_role g h pubkey "writer"

  unfoldable pub has_access : GroupStore → String → ℕ → Bool
  has_access g h pubkey =
      if is_private_group g h && not (config_of g).groups.private_relay_admin_access
      then is_member g h pubkey || is_group_creator g h pubkey
      else can_manage (config_of g) pubkey
        || (is_admin (config_of g) pubkey || is_member g h pubkey)

  unfoldable pub is_group_event : Event → Bool
  is_group_event event =
      if contains x.kinds.metadata_kinds event.kind
      then true
      else if contains x.kinds.moderation_kinds event.kind
      then true
      else if contains (x.kinds.join_request ∷ x.kinds.leave_request ∷ []) event.kind
      then true
      else not (get_group_id_from_event event == "")

  -- The rest of `CanRead`, for a group with this metadata event.
  unfoldable pub can_read_group : GroupStore → String → ℕ → Event → Option Event → Bool
  can_read_group g h pubkey event none = false
  can_read_group g h pubkey event (some meta) =
      if has_tag meta.tags "hidden" && not (has_access g h pubkey)
      then false
      else if event.kind == x.kinds.metadata
      then true
      else if event.kind == x.kinds.delete_group
      then true
      else if has_tag meta.tags "private" && not (has_access g h pubkey)
      then false
      else if (config_of g).policy.open_access && not (has_tag meta.tags "private")
      then true
      else has_access g h pubkey

  unfoldable pub can_read : GroupStore → ℕ → Event → Bool
  unfolding can_read_group
  can_read g pubkey event =
      if not (config_of g).groups.enabled
      then false
      else let h = get_group_id_from_event event in
        if h == relay_group then true else can_read_group g h pubkey event (get_metadata g h)
