-- ===== src/Groups/Reading.antt =====
-- Who can read what: `CanRead` and `HasAccess` of zooid/groups.go.
use unicity_relay.Prelude.{
  ◌==◌, nat_eq, string_eq, ℕ, ◌≡◌, Bool, true, false, not, ◌&&◌, ◌||◌, Option, none, some, arith,
}
use unicity_relay.Nostr.{Event, Externals}
use unicity_relay.Groups.Tags.{get_group_id_from_event}
use unicity_relay.Groups.State.{GroupStore, config_of}
use unicity_relay.Groups.Members.{is_member}
use unicity_relay.Groups.Metadata.{event_flag, get_metadata, is_private_group, is_group_creator}
use unicity_relay.Groups.Access.{has_access, can_read}

abbrev pub is_found : Option Event → Bool
is_found none = false
is_found (some event) = true

module _ ⦃x : Externals⦄ where
  -- What the metadata of a group allows a reader with or without access: a hidden group shows
  -- nothing to others, and else the metadata and the deletion are open, the rest is for readers with
  -- access, or for everyone in a group that is not private on a relay with the open policy.
  abbrev pub visible : Bool → Bool → Bool → Bool → ℕ → Bool
  visible open_relay access hidden secluded kind =
      (access || not hidden)
      && (access
          || (kind == x.kinds.metadata
              || (kind == x.kinds.delete_group || (open_relay && not secluded))))

  -- An event is readable exactly if groups are enabled and it belongs to the relay's own list, or to
  -- a group whose metadata is known and makes it visible to the reader.
  pub can_read_iff :
      (g : GroupStore) (pubkey : ℕ) (event : Event)
      → let h = get_group_id_from_event event in
        can_read g pubkey event ≡ (
          (config_of g).groups.enabled
          && (h == "_"
              || (is_found (get_metadata g h)
                  && visible
                      (config_of g).policy.open_access
                      (has_access g h pubkey)
                      (event_flag "hidden" (get_metadata g h))
                      (event_flag "private" (get_metadata g h))
                      event.kind)))
  unfolding can_read
  can_read_iff g pubkey event = ground arith

  -- A relay admin who is neither a member nor the creator of a private group cannot read its posts
  -- when private groups are closed to relay admins: every event of the group but its metadata and its
  -- deletion is refused.
  can_read-private :
      (g : GroupStore) (pubkey : ℕ) (event : Event)
      → let h = get_group_id_from_event event in
        ((h == "_") ≡ false)
        → is_private_group g h ≡ true
        → event_flag "private" (get_metadata g h) ≡ true
        → (config_of g).groups.private_relay_admin_access ≡ false
        → is_member g h pubkey ≡ false
        → is_group_creator g h pubkey ≡ false
        → (event.kind == x.kinds.metadata) ≡ false
        → (event.kind == x.kinds.delete_group) ≡ false
        → can_read g pubkey event ≡ false
  unfolding has_access can_read
  can_read-private g pubkey event not_relay secret flag closed stranger not_creator a b =
      ground arith
