-- ===== src/Groups/Writes/Rejected.antt =====
-- What `CheckWrite` of zooid/groups.go accepts, and what its refusals reveal.
use unicity_relay.Prelude.{
  if◌then◌else◌, string_eq, nat_eq, ◌==◌, contains, ℕ, String, ◌≡◌, refl, ◌≢◌, Bool, true, false,
  not, ◌&&◌, ◌||◌, Option, none, some, arith,
}
use unicity_relay.Nostr.{Event, Externals}
use unicity_relay.Config.{can_manage}
use unicity_relay.Groups.Tags.{
  has_tag, is_write_restricted_group_content, is_private_group_content, get_group_id_from_event,
  get_invite_code_from_event,
}
use unicity_relay.Groups.State.{GroupStore, config_of}
use unicity_relay.Groups.Members.{is_member}
use unicity_relay.Groups.Metadata.{get_metadata, is_write_restricted, is_group_creator}
use unicity_relay.Groups.Access.{validate_invite_code, can_write, has_access}
use unicity_relay.Groups.Writes.{
  Refusal, group_not_found, ◌orelse◌, check_create, check_moderation, check_join, check_post,
  check_existing, check_write,
}

abbrev pub accepted : Option Refusal → Bool
accepted none = true
accepted (some text) = false

orelse-none : (a b : Option Refusal) → (a orelse b) ≡ none → a ≡ none
orelse-none none b e = refl
orelse-none (some text) b e = e

module _ ⦃x : Externals⦄ where
  -- A post to a group with this metadata: neither a creation nor moderation, a join or a leave.
  pub record IsPost (event : Event) : Type 0 where
    pub no_metadata : contains x.kinds.metadata_kinds event.kind ≡ false
    pub no_creation : (event.kind == x.kinds.create_group) ≡ false
    pub no_moderation : contains x.kinds.moderation_kinds event.kind ≡ false
    pub no_join : (event.kind == x.kinds.join_request) ≡ false
    pub no_leave : (event.kind == x.kinds.leave_request) ≡ false

  -- A post to a known group is accepted exactly if groups are enabled, the author has access where
  -- the group is hidden or closed, and may write there where it is write-restricted.
  pub check_write_post_iff :
      (g : GroupStore) (event meta : Event)
      → IsPost event
      → let h = get_group_id_from_event event in
        get_metadata g h ≡ some meta
        → accepted (check_write g event) ≡ (
            (config_of g).groups.enabled
            && ((has_access g h event.pubkey
                  || not (has_tag meta.tags "hidden" || has_tag meta.tags "closed"))
                && (can_write g h event.pubkey || not (has_tag meta.tags "write-restricted"))))
  unfolding check_write
  check_write_post_iff g event meta post known = ground arith

  no_access-no_member :
      (g : GroupStore) (h : String) (pubkey : ℕ)
      → has_access g h pubkey ≡ false
      → is_member g h pubkey ≡ false
  unfolding has_access
  no_access-no_member g h pubkey e = ground arith

  -- To an author without access a hidden group answers as the same group would if it did not exist,
  -- in any store with groups enabled, and that it is not found: to posts, to leave requests, and to
  -- join requests without a valid code.
  pub check_write_hidden :
      (g without : GroupStore) (event meta : Event)
      → let h = get_group_id_from_event event in
        (config_of g).groups.enabled ≡ true
        → contains x.kinds.metadata_kinds event.kind ≡ false
        → (event.kind == x.kinds.create_group) ≡ false
        → contains x.kinds.moderation_kinds event.kind ≡ false
        → get_metadata g h ≡ some meta
        → has_tag meta.tags "hidden" ≡ true
        → has_access g h event.pubkey ≡ false
        → ((event.kind == x.kinds.join_request) ≡ true
            → validate_invite_code g h (get_invite_code_from_event event) ≡ false)
        → (config_of without).groups.enabled ≡ true
        → get_metadata without h ≡ none
        → (check_write g event ≡ some group_not_found)
          × (check_write without event ≡ some group_not_found)
  unfolding check_write
  check_write_hidden g without event meta enabled a b c known hidden stranger code enabled'
        missing =
      (
        ground (arith, no_access-no_member g (get_group_id_from_event event) event.pubkey),
        ground arith,
      )

  -- Moderation events do tell a hidden group from a missing one: their author is checked before the
  -- group is hidden, so to someone who neither manages the relay nor has created the group the answer
  -- is not the one for a missing group.
  check_write_reveals :
      (g : GroupStore) (event meta : Event)
      → let h = get_group_id_from_event event in
        (config_of g).groups.enabled ≡ true
        → contains x.kinds.metadata_kinds event.kind ≡ false
        → (event.kind == x.kinds.create_group) ≡ false
        → contains x.kinds.moderation_kinds event.kind ≡ true
        → get_metadata g h ≡ some meta
        → can_manage (config_of g) event.pubkey ≡ false
        → is_group_creator g h event.pubkey ≡ false
        → (check_write g event ≢ some group_not_found) × (check_write g event ≢ none)
  unfolding check_write
  check_write_reveals g event meta enabled a b c known stranger not_creator =
      ((λ e. ground arith), (λ e. ground arith))

  create-stranger :
      (g : GroupStore) (event : Event) (meta : Option Event)
      → can_manage (config_of g) event.pubkey ≡ false
      → check_create g event meta ≡ none
      → (meta ≡ none)
        × ((config_of g).groups.admin_create_only ≡ false)
        × (((config_of g).groups.private_admin_only && is_private_group_content event.content)
            ≡ false)
        × (is_write_restricted_group_content event.content ≡ false)
  unfolding check_create
  create-stranger g event (some meta) stranger accept = cc
  create-stranger g event none stranger accept = (refl, ground arith, ground arith, ground arith)

  moderation-stranger :
      (g : GroupStore) (h : String) (event : Event)
      → can_manage (config_of g) event.pubkey ≡ false
      → contains x.kinds.moderation_kinds event.kind ≡ true
      → check_moderation g h event ≡ none
      → (is_group_creator g h event.pubkey ≡ true)
        × ((event.kind == x.kinds.edit_metadata) ≡ true
            → is_write_restricted_group_content event.content ≡ is_write_restricted g h)
  unfolding check_moderation
  moderation-stranger g h event stranger moderates accept = (ground arith, λ edits. ground arith)

  existing-stranger :
      (g : GroupStore) (h : String) (event : Event) (meta : Option Event)
      → can_manage (config_of g) event.pubkey ≡ false
      → contains x.kinds.moderation_kinds event.kind ≡ true
      → check_existing g h event meta ≡ none
      → (is_group_creator g h event.pubkey ≡ true)
        × ((event.kind == x.kinds.edit_metadata) ≡ true
            → is_write_restricted_group_content event.content ≡ is_write_restricted g h)
  existing-stranger g h event none stranger moderates accept = unfold check_existing in cc
  existing-stranger g h event (some meta) stranger moderates accept =
      moderation-stranger g h event stranger moderates (first_passes g h event meta accept)
    where
      first_passes :
          (g : GroupStore) (h : String) (event meta : Event)
          → check_existing g h event (some meta) ≡ none
          → check_moderation g h event ≡ none
      first_passes g h event meta e =
          orelse-none (check_moderation g h event)
            (if event.kind == x.kinds.join_request
              then check_join g h event meta
              else check_post g h event meta)
            (unfold check_existing in e)

  -- What is accepted of someone who may not manage the relay: no metadata event; a creation only of a
  -- group that is not known, not under the admins-only policy, whose content is not private under the
  -- private-admins-only policy and not write-restricted; moderation only by the creator of the group,
  -- and an edit only with the write restriction, in its content, that the group has.
  pub check_write_stranger :
      (g : GroupStore) (event : Event)
      → let h = get_group_id_from_event event in
        let groups = (config_of g).groups in
        can_manage (config_of g) event.pubkey ≡ false
        → check_write g event ≡ none
        → (contains x.kinds.metadata_kinds event.kind ≡ false)
          × ((event.kind == x.kinds.create_group) ≡ true
              → (get_metadata g h ≡ none)
                × (groups.admin_create_only ≡ false)
                × ((groups.private_admin_only && is_private_group_content event.content) ≡ false)
                × (is_write_restricted_group_content event.content ≡ false))
          × ((event.kind == x.kinds.create_group) ≡ false
              → contains x.kinds.moderation_kinds event.kind ≡ true
              → (is_group_creator g h event.pubkey ≡ true)
                × ((event.kind == x.kinds.edit_metadata) ≡ true
                    → is_write_restricted_group_content event.content ≡ is_write_restricted g h))
  unfolding check_write
  check_write_stranger g event stranger accept = (
    ground arith,
    λ creates.
        create-stranger g event (get_metadata g (get_group_id_from_event event)) stranger
          (ground arith),
    λ no_creation moderates.
        existing-stranger g (get_group_id_from_event event) event
          (get_metadata g (get_group_id_from_event event)) stranger moderates (ground arith),
  )
