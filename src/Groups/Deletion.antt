-- ===== src/Groups/Deletion.antt =====
-- What `DeleteGroup` of zooid/groups.go leaves in the caches and in the table.
use unicity_relay.Prelude.{
  if◌then◌else◌, string_eq, nat_eq, ◌==◌, select, exists, first, contains, contains-remove,
  lookup-delete, ℕ, String, ◌≡◌, refl, sym, ap, ◌∙◌, subst, Bool, true, not, ◌&&◌, ◌||◌, none, List,
  [], ◌∷◌, arith,
}
use unicity_relay.Nostr.{Event, Filter, no_filter, Externals}
use unicity_relay.Events.Table.{delete_event_with}
use unicity_relay.Events.Replaced.{holds, holds-delete}
use unicity_relay.Events.Store.{
  EventStore, Attempt, advance, next_reply, set_database, delete_reply, delete_event, query_events,
}
use unicity_relay.Groups.State.{GroupStore}
use unicity_relay.Groups.Members.{get_or_create_member_set, has_role, get_member_count}
use unicity_relay.Groups.Membership.{in_cache}
use unicity_relay.Groups.Metadata.{
  get_metadata, is_private_group, is_write_restricted, get_group_creator,
}
use unicity_relay.Groups.Publish.{ids_except, delete_events, delete_found, by_d, by_h, delete_group}

delete_event-commits :
    (st : EventStore) (id : ℕ)
    → st.plan ≡ []
    → delete_event st id ≡ (none, set_database st (delete_event_with st.database id))
unfolding delete_event next_reply delete_reply
delete_event-commits st id e =
    subst
      (λ plan.
        delete_reply id (advance st plan).0 (advance st plan).1
        ≡ (none, set_database st (delete_event_with st.database id)))
      (sym e) refl

-- What remains in the table when the deletions of these ids commit.
holds-delete_events :
    (ids : List ℕ) (st : EventStore) (k : ℕ)
    → st.plan ≡ []
    → ((delete_events ids st).plan ≡ [])
      × (holds (delete_events ids st).database k ≡ (holds st.database k && not (contains ids k)))
unfolding delete_events contains
holds-delete_events [] st k e = (e, ground arith)
holds-delete_events (id ∷ ids) st k e =
    let (same, left) =
      holds-delete_events ids (set_database st (delete_event_with st.database id)) k e in
    subst
      (λ (r : Attempt).
        ((delete_events ids r.1).plan ≡ [])
        × (holds (delete_events ids r.1).database k
            ≡ (holds st.database k && not (contains (id ∷ ids) k))))
      (sym (delete_event-commits st id e))
      (same, left ∙ ground (arith, holds-delete st.database id k))

contains-ids_except :
    (kind k : ℕ) (es : List Event)
    → contains (ids_except kind es) k ≡ exists (λ (e : Event). e.id == k && not (e.kind == kind)) es
unfolding contains ids_except exists select
contains-ids_except kind k [] = refl
contains-ids_except kind k (e ∷ es) = ground (arith, contains-ids_except kind k es)

module _ ⦃x : Externals⦄ where
  -- One of the events, no group deletion, has the id.
  abbrev pub names_id : ℕ → List Event → Bool
  names_id k es = exists (λ (e : Event). e.id == k && not (e.kind == x.kinds.delete_group)) es

  holds-delete_found :
      (filter : Filter) (st : EventStore) (k : ℕ)
      → st.plan ≡ []
      → ((delete_found filter st).plan ≡ [])
        × (holds (delete_found filter st).database k
            ≡ (holds st.database k && not (names_id k (query_events st filter 0))))
  unfolding delete_found
  holds-delete_found filter st k e =
      let found = query_events st filter 0 in
      let (same, left) = holds-delete_events (ids_except x.kinds.delete_group found) st k e in
      (
        same,
        left
            ∙ ap (λ b. holds st.database k && not b)
                (contains-ids_except x.kinds.delete_group k found),
      )

  -- The group is forgotten, and every other group is as it was.
  pub record Forgotten (h : String) (g g' : GroupStore) : Type 0 where
    pub metadata : (k : String) → get_metadata g' k ≡ (if h == k then none else get_metadata g k)
    pub privacy : (k : String) → is_private_group g' k ≡ (not (h == k) && is_private_group g k)
    pub restriction :
        (k : String) → is_write_restricted g' k ≡ (not (h == k) && is_write_restricted g k)
    pub members : (k : String) (q : ℕ) → in_cache g' k q ≡ (not (h == k) && in_cache g k q)
    pub counts : (k : String) → get_member_count g' k ≡ (if h == k then 0 else get_member_count g k)
    pub roles :
        (k : String) (q : ℕ) (role : String)
        → has_role g' k q role ≡ (not (h == k) && has_role g k q role)
    pub creators :
        (k : String) → get_group_creator g' k ≡ (if h == k then 0 else get_group_creator g k)
    pub loaded :
        (k : String)
        → contains g'.membership_fully_loaded k
          ≡ (not (h == k) && contains g.membership_fully_loaded k)
    -- Of the table exactly these events are left.
    pub stored :
        let by_d = record no_filter { kinds = x.kinds.metadata_kinds; tags = ("d", h ∷ []) ∷ [] } in
        let by_h = record no_filter { tags = ("h", h ∷ []) ∷ [] } in
        (k : ℕ)
        → holds g'.events.database k ≡ (
            holds g.events.database k
            && not (
                names_id k (query_events g.events by_d 0)
                || names_id k (query_events (delete_found by_d g.events) by_h 0)))

  -- With warm caches and no transaction that fails, `DeleteGroup` deletes from the table exactly the
  -- events that its query for the group's metadata finds and those that its query for the group's tag
  -- finds then, except the group deletions among them; the caches keep no metadata, flag, member,
  -- role, creator or authority of the group, and what they hold of any other group.
  pub delete_group-Forgotten :
      (h : String) (g : GroupStore)
      → g.caches_warmed ≡ true
      → g.events.plan ≡ []
      → Forgotten h g (delete_group h g)
  delete_group-Forgotten h g warm idle = record {
    metadata = λ k. unfold delete_group get_metadata in rw (warm, lookup-delete) (ground arith);
    privacy = λ k. unfold delete_group is_private_group in rw (warm, lookup-delete) (ground arith);
    restriction =
        λ k. unfold delete_group is_write_restricted in rw (warm, lookup-delete) (ground arith);
    members = λ k q.
        unfold delete_group get_or_create_member_set contains in rw lookup-delete (ground arith);
    counts = λ k. unfold delete_group get_member_count in rw (warm, lookup-delete) (ground arith);
    roles = λ k q role. unfold delete_group has_role in rw lookup-delete (ground arith);
    creators =
        λ k. unfold delete_group get_group_creator in rw (warm, lookup-delete) (ground arith);
    loaded = λ k. unfold delete_group in contains-remove h k g.membership_fully_loaded;
    stored = λ k.
        let (same, first) = holds-delete_found (by_d h) g.events k idle in
        unfold delete_group in
        ground
          (arith, first, (holds-delete_found (by_h h) (delete_found (by_d h) g.events) k same).1);
  }
