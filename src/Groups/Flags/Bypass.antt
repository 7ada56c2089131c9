-- ===== src/Groups/Flags/Bypass.antt =====
-- `CheckWrite` and `UpdateMetadata` of zooid/groups.go together: what the flags of a group become
-- when an event is accepted of someone who may not manage the relay.
use unicity_relay.Prelude.{
  string_eq, nat_eq, ◌==◌, first, contains, String, ◌≡◌, refl, ap, ◌∙◌, subst, Bool, true, false,
  ◌&&◌, ◌||◌, none, List, [], ◌∷◌, arith,
}
use unicity_relay.Nostr.{Tag, Event, Externals}
use unicity_relay.Config.{can_manage}
use unicity_relay.Groups.Tags.{
  has_tag, member_of, is_write_restricted_group_content, is_private_group_content,
  get_group_id_from_event,
}
use unicity_relay.Groups.State.{GroupStore, config_of}
use unicity_relay.Groups.Metadata.{
  group_of_tags, update_metadata, is_private_group, is_write_restricted, is_group_creator,
}
use unicity_relay.Groups.Writes.{check_write}
use unicity_relay.Groups.Writes.Rejected.{check_write_stranger}
use unicity_relay.Groups.Flags.{sets_flag, Updated, update_metadata-Updated}

module _ ⦃x : Externals⦄ where
  cached_flags :
      (h : String) (event : Event) (g g' : GroupStore)
      → g.caches_warmed ≡ true
      → Updated h event g g'
      → (is_private_group g' h ≡ sets_flag event "private")
        × (is_write_restricted g' h ≡ sets_flag event "write-restricted")
  unfolding is_private_group is_write_restricted
  cached_flags h event g g' warm u = (
    rw (u.warmed ∙ warm, u.stored) u.is_private,
    rw (u.warmed ∙ warm, u.stored) u.is_write_restricted,
  )

  -- With warm caches, when a creation by someone who may not manage the relay is accepted and its
  -- metadata stored, the group is write-restricted exactly if the event has a tag of that name, and, under the policy that
  -- only admins create private groups, private exactly if it has a tag "private": the check reads the
  -- content only, and the tags are kept.
  pub creation_flags :
      (event : Event) (g g' : GroupStore)
      → g.caches_warmed ≡ true
      → can_manage (config_of g) event.pubkey ≡ false
      → (event.kind == x.kinds.create_group) ≡ true
      → check_write g event ≡ none
      → (group_of_tags "" event.tags == "") ≡ false
      → update_metadata event g ≡ (none, g')
      → (is_write_restricted g' (group_of_tags "" event.tags)
          ≡ has_tag event.tags "write-restricted")
        × ((config_of g).groups.private_admin_only ≡ true
            → is_private_group g' (group_of_tags "" event.tags) ≡ has_tag event.tags "private")
  creation_flags event g g' warm stranger creates accept named updated =
      let (_, created, _) = check_write_stranger g event stranger accept in
      let (_, _, no_private, no_restricted) = created creates in
      let (secluded, restricted) =
        cached_flags (group_of_tags "" event.tags) event g g' warm
          (update_metadata-Updated event g g' named updated) in
      (restricted ∙ unrestricted no_restricted, λ policy. secluded ∙ open_content policy no_private)
    where
      unrestricted :
          is_write_restricted_group_content event.content ≡ false
          → sets_flag event "write-restricted" ≡ has_tag event.tags "write-restricted"
      unrestricted e = unfold is_write_restricted_group_content in ground (arith, e)

      open_content :
          (config_of g).groups.private_admin_only ≡ true
          → ((config_of g).groups.private_admin_only && is_private_group_content event.content)
            ≡ false
          → sets_flag event "private" ≡ has_tag event.tags "private"
      open_content policy e = unfold is_private_group_content in ground (arith, policy, e)

  -- With warm caches, when an edit by someone who may not manage the relay is accepted and its metadata stored, for an
  -- event whose group tags agree, the group is write-restricted exactly if it was, or the event has a
  -- tag of that name.
  edit_flags :
      (event : Event) (g g' : GroupStore)
      → g.caches_warmed ≡ true
      → can_manage (config_of g) event.pubkey ≡ false
      → (event.kind == x.kinds.create_group) ≡ false
      → contains x.kinds.moderation_kinds event.kind ≡ true
      → (event.kind == x.kinds.edit_metadata) ≡ true
      → check_write g event ≡ none
      → (group_of_tags "" event.tags == "") ≡ false
      → group_of_tags "" event.tags ≡ get_group_id_from_event event
      → update_metadata event g ≡ (none, g')
      → is_write_restricted g' (get_group_id_from_event event) ≡ (
          has_tag event.tags "write-restricted"
          || is_write_restricted g (get_group_id_from_event event))
  edit_flags event g g' warm stranger no_creation moderates edits accept named same updated =
      let (_, _, existing) = check_write_stranger g event stranger accept in
      let (_, unchanged) = existing no_creation moderates in
      let (_, restricted) =
        cached_flags (group_of_tags "" event.tags) event g g' warm
          (update_metadata-Updated event g g' named updated) in
      rw same at restricted
      ∙ ap (λ (b : Bool). has_tag event.tags "write-restricted" || b) (unfolded ∙ unchanged edits)
    where
      unfolded :
          member_of (x.json_object event.content) "write-restricted"
          ≡ is_write_restricted_group_content event.content
      unfolded = unfold is_write_restricted_group_content in refl

  -- With warm caches, when `CheckWrite` accepts a moderation event, no creation, of someone who may
  -- not manage the relay, and its tags begin with those of two groups and name no third one, the
  -- author is the creator of the first group. Once `UpdateMetadata` has stored its metadata, the
  -- second group is private and write-restricted exactly if this event says so, whoever has created
  -- it.
  pub two_groups :
      (event : Event) (a b : String) (rest : List Tag) (g g' : GroupStore)
      → can_manage (config_of g) event.pubkey ≡ false
      → (event.kind == x.kinds.create_group) ≡ false
      → contains x.kinds.moderation_kinds event.kind ≡ true
      → check_write g event ≡ none
      → event.tags ≡ ("h" ∷ a ∷ []) ∷ ("h" ∷ b ∷ []) ∷ rest
      → group_of_tags b rest ≡ b
      → (b == "") ≡ false
      → g.caches_warmed ≡ true
      → update_metadata event g ≡ (none, g')
      → (is_group_creator g a event.pubkey ≡ true)
        × (is_private_group g' b ≡ sets_flag event "private")
        × (is_write_restricted g' b ≡ sets_flag event "write-restricted")
  two_groups event a b rest g g' stranger no_creation moderates accept tags last named warm
        updated =
      (
        subst (λ h. is_group_creator g h event.pubkey ≡ true) checked
            ((check_write_stranger g event stranger accept).2 no_creation moderates).0,
        subst (λ h. is_private_group g' h ≡ sets_flag event "private") second flags.0,
        subst (λ h. is_write_restricted g' h ≡ sets_flag event "write-restricted") second flags.1,
      )
    where
      checked : get_group_id_from_event event ≡ a
      checked =
          unfold get_group_id_from_event first in
          rw ((check_write_stranger g event stranger accept).0, x.find_lem event.tags "h", tags)

      second : group_of_tags "" event.tags ≡ b
      second = unfold group_of_tags in rw tags last

      flags :
          (is_private_group g' (group_of_tags "" event.tags) ≡ sets_flag event "private")
          × (is_write_restricted g' (group_of_tags "" event.tags)
              ≡ sets_flag event "write-restricted")
      flags =
          cached_flags (group_of_tags "" event.tags) event g g' warm
            (update_metadata-Updated event g g' (rw second named) updated)
