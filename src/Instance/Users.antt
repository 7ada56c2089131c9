-- ===== src/Instance/Users.antt =====
-- What a stored put-user or remove-user event does to the member sets: `OnEventSaved` of
-- zooid/instance.go.
use unicity_relay.Prelude.{
  if◌then◌else◌, Option-cases, is_some, string_eq, nat_eq, ◌==◌, ==_iff, exists, contains, lookup,
  ℕ, String, ◌≡◌, refl, ◌∙◌, subst, inl, inr, Bool, true, false, not, ◌&&◌, some, List, [], ◌∷◌,
  arith,
}
use unicity_relay.Nostr.{Tag, Event, value_of, Externals}
use unicity_relay.Groups.Tags.{get_group_id_from_event}
use unicity_relay.Groups.State.{GroupMeta, GroupStore}
use unicity_relay.Groups.Members.{get_or_create_member_set, drop_member, clear_member_roles}
use unicity_relay.Groups.Membership.{in_cache, same_members, drop_member-in_cache, names_key}
use unicity_relay.Groups.Metadata.{refreshed, refresh_member_count}
use unicity_relay.Groups.Publish.{
  update_members_list, schedule_members_list_update, schedule_member_count_refresh,
}
use unicity_relay.Instance.Saved.{logged, remove_users, reschedule, on_remove_user, saved_in_groups}

-- Without a member set nobody is in it.
uncached :
    (g : GroupStore) (h k : String) (q : ℕ)
    → is_some (lookup g.membership_cache h) ≡ false
    → h ≡ k
    → in_cache g k q ≡ false
unfolding get_or_create_member_set contains
uncached g h k q e same = subst (λ (l : String). in_cache g l q ≡ false) same empty
  where
    empty : in_cache g h q ≡ false
    empty = ground arith

clear_member_roles-membership :
    (h : String) (pubkey : ℕ) (g : GroupStore)
    → (clear_member_roles h pubkey g).membership_cache ≡ g.membership_cache
unfolding clear_member_roles
clear_member_roles-membership h pubkey g = refl

module _ ⦃x : Externals⦄ where
  remove_users-in_cache :
      (h : String) (tags : List Tag) (g : GroupStore) (k : String) (q : ℕ)
      → in_cache (remove_users h tags g) k q
        ≡ (in_cache g k q && not (h == k && exists (names_key q) tags))
  unfolding remove_users exists
  remove_users-in_cache h [] g k q = ground arith
  remove_users-in_cache h (tag ∷ tags) g k q =
      elim (Option-cases (x.pub_key_from_hex (value_of tag))) [
        | inl bad ↦ rw (bad, remove_users, names_key) (remove_users-in_cache h tags g k q)
        | inr (key, good) ↦
            rw (good, remove_users, names_key)
              (remove_users-in_cache h tags (clear_member_roles h key (drop_member h key g)) k q
                ∙ ground (
                  arith,
                  same_members (drop_member h key g)
                      (clear_member_roles h key (drop_member h key g)) k q
                      (clear_member_roles-membership h key (drop_member h key g)),
                  drop_member-in_cache h key g k q,
                ))
      ]

  -- Publishing the lists leaves the member sets alone, at once and behind a delay.
  update_members_list-membership :
      (h : String) (g : GroupStore)
      → (update_members_list h g).1.membership_cache ≡ g.membership_cache
  unfolding update_members_list
  update_members_list-membership h g = ground arith

  refreshed-membership :
      (h : String) (cached : GroupMeta) (g : GroupStore)
      → (refreshed h cached g).1.membership_cache ≡ g.membership_cache
  unfolding refreshed
  refreshed-membership h cached g = ground arith

  refresh_member_count-membership :
      (h : String) (g : GroupStore)
      → (refresh_member_count h g).1.membership_cache ≡ g.membership_cache
  unfolding refresh_member_count
  refresh_member_count-membership h g = elim (Option-cases (lookup g.metadata_cache h)) [
    | inl missing ↦ rw (missing, refresh_member_count) refl
    | inr (cached, found) ↦ rw (found, refresh_member_count) (refreshed-membership h cached g)
  ]

  schedule_members_list_update-membership :
      (h : String) (g : GroupStore)
      → (schedule_members_list_update h g).1.membership_cache ≡ g.membership_cache
  unfolding schedule_members_list_update
  schedule_members_list_update-membership h g = ground (arith, update_members_list-membership h g)

  schedule_member_count_refresh-membership :
      (h : String) (g : GroupStore)
      → (schedule_member_count_refresh h g).1.membership_cache ≡ g.membership_cache
  unfolding schedule_member_count_refresh
  schedule_member_count_refresh-membership h g = ground (arith, refresh_member_count-membership h g)

  reschedule-membership :
      (h : String) (g : GroupStore) → (reschedule h g).membership_cache ≡ g.membership_cache
  reschedule-membership h g =
      schedule_member_count_refresh-membership h (logged (schedule_members_list_update h) g)
      ∙ schedule_members_list_update-membership h g

  -- The kind of the event is this one of the two, and none of the other kinds that the handler tests.
  pub record IsUserEvent (event : Event) (put removal : Bool) : Type 0 where
    pub is_put : (event.kind == x.kinds.put_user) ≡ put
    pub is_removal : (event.kind == x.kinds.remove_user) ≡ removal
    pub no_join : (event.kind == x.kinds.join_request) ≡ false
    pub no_leave : (event.kind == x.kinds.leave_request) ≡ false
    pub no_creation : (event.kind == x.kinds.create_group) ≡ false
    pub no_edit : (event.kind == x.kinds.edit_metadata) ≡ false
    pub no_deletion : (event.kind == x.kinds.delete_group) ≡ false

  saved_removal :
      (event : Event) (g : GroupStore)
      → IsUserEvent event false true
      → saved_in_groups event g ≡ some (on_remove_user (get_group_id_from_event event) event g)
  unfolding saved_in_groups
  saved_removal event g o =
      rw (o.is_put, o.is_removal, o.no_join, o.no_leave, o.no_creation, o.no_edit, o.no_deletion)
        refl

  on_remove_user-in_cache :
      (h : String) (event : Event) (g : GroupStore) (k : String) (q : ℕ)
      → in_cache (on_remove_user h event g) k q
        ≡ (in_cache g k q && not (h == k && exists (names_key q) (x.find_all event.tags "p")))
  unfolding on_remove_user
  on_remove_user-in_cache h event g k q =
      same_members (removed cached) (on_remove_user h event g) k q
        (reschedule-membership h (removed cached))
      ∙ in_removed cached refl
    where
      cached : Bool
      cached = is_some (lookup g.membership_cache h)

      removed : Bool → GroupStore
      removed b = if b then remove_users h (x.find_all event.tags "p") g else g

      in_removed :
          (b : Bool)
          → cached ≡ b
          → in_cache (removed b) k q
            ≡ (in_cache g k q && not (h == k && exists (names_key q) (x.find_all event.tags "p")))
      in_removed true e = remove_users-in_cache h (x.find_all event.tags "p") g k q
      in_removed false e = ground (arith, uncached g h k q e, ==_iff h k)

  -- A stored remove-user event never makes the handler panic, and takes exactly the keys of its p-tags
  -- out of the member set of its group, each set being otherwise as it was.
  saved_in_groups-remove_user :
      (event : Event) (g : GroupStore)
      → IsUserEvent event false true
      → (g' : GroupStore) × (saved_in_groups event g ≡ some g')
        × ((k : String) (q : ℕ)
            → in_cache g' k q ≡ (
                in_cache g k q
                && not (
                    get_group_id_from_event event == k
                    && exists (names_key q) (x.find_all event.tags "p"))))
  saved_in_groups-remove_user event g o = (
    on_remove_user (get_group_id_from_event event) event g,
    saved_removal event g o,
    on_remove_user-in_cache (get_group_id_from_event event) event g,
  )
