-- ===== src/Groups/Latest.antt =====
-- `IsMember` of zooid/groups.go against the caches and against the log.
use unicity_relay.Prelude.{
  ltb, leb, if◌then◌else◌, is_some, string_eq, nat_eq, ◌==◌, ==_refl, get_elem?, every, contains,
  lookup, ℕ, zero, suc, String, ◌≡◌, refl, ap, ◌∙◌, subst, ◌⊎◌, inl, inr, Bool, true, false, ◌&&◌,
  ◌||◌, none, some, List, [], ◌∷◌, arith,
}
use unicity_relay.Nostr.{Event, Externals}
use unicity_relay.Config.{can_manage}
use unicity_relay.Events.Store.{query_events}
use unicity_relay.Groups.State.{GroupStore, config_of}
use unicity_relay.Groups.Members.{
  get_or_create_member_set, has_role, is_later, latest_of, is_put, membership_filter, is_member,
  add_member, remove_member,
}
use unicity_relay.Groups.Membership.{
  in_cache, Changed, Outcomes, add_member-Outcomes, remove_member-Outcomes,
}
use unicity_relay.Groups.Metadata.{is_write_restricted, is_group_creator}
use unicity_relay.Groups.Access.{can_write}

-- Not later than `latest`, by time and then by id.
abbrev pub no_later : Event → Event → Bool
no_later latest event =
    ltb event.created_at latest.created_at
    || (event.created_at == latest.created_at && leb event.id latest.id)

-- The event stands in the list, and no event there is later.
pub record IsLatest (l : Event) (events : List Event) : Type 0 where
  pub index : ℕ
  pub stands : get_elem? events index ≡ some l
  pub none_later : every (no_later l) events ≡ true

no_later_trans : (a b c : Event) → no_later a b ≡ true → is_later c b ≡ false → no_later a c ≡ true
unfolding is_later
no_later_trans a b c h k = ground arith

later-no_later : (a b c : Event) → no_later a b ≡ true → is_later b c ≡ true → no_later a c ≡ true
unfolding is_later
later-no_later a b c h k = ground arith

swap_in :
    (latest event : Event) (events : List Event) (b : Bool) (l : Event)
    → is_later event latest ≡ b
    → IsLatest l ((if b then event else latest) ∷ events)
    → IsLatest l (latest ∷ event ∷ events)
unfolding every
swap_in latest event events true l e h = record {
  index = suc h.index;
  stands = h.stands;
  none_later = ground (arith, h.none_later, later-no_later l event latest);
}
swap_in latest event events false l e h = record {
  index = skip h.index;
  stands = skip-stands h.index h.stands;
  none_later = ground (arith, h.none_later, no_later_trans l latest event);
}
  where
    skip : ℕ → ℕ
    skip zero = zero
    skip (suc i) = suc (suc i)

    skip-stands :
        (i : ℕ)
        → get_elem? (latest ∷ events) i ≡ some l
        → get_elem? (latest ∷ event ∷ events) (skip i) ≡ some l
    skip-stands zero h = h
    skip-stands (suc i) h = h

pub latest_of-some :
    (latest : Event) (events : List Event)
    → (l : Event) × (latest_of (some latest) events ≡ some l) × IsLatest l (latest ∷ events)
unfolding latest_of
latest_of-some latest [] = (
  latest,
  refl,
  record { index = 0; stands = refl; none_later = unfold every is_later in ground arith },
)
latest_of-some latest (event ∷ events) =
    let (l, found, greatest) =
      latest_of-some (if is_later event latest then event else latest) events in
    (l, found, swap_in latest event events (is_later event latest) l refl greatest)

module _ ⦃x : Externals⦄ where
  -- The events of the log that `IsMember` reads for a key and a group.
  abbrev pub log_of : GroupStore → String → ℕ → List Event
  log_of g h pubkey = query_events g.events (membership_filter h pubkey) 0

  abbrev pub Decided : GroupStore → String → ℕ → List Event → Type 0
  Decided g h pubkey [] = is_member g h pubkey ≡ false
  Decided g h pubkey (event ∷ events) =
      (l : Event) × IsLatest l (event ∷ events)
      × (is_member g h pubkey ≡ (l.kind == x.kinds.put_user))

  -- Without an authoritative cache the log decides, in whatever order the database yields it: nobody
  -- is a member without an event, and otherwise the key is a member exactly if the latest of its
  -- events, by time and then by id, is a put-user event.
  pub is_member-log :
      (g : GroupStore) (h : String) (pubkey : ℕ)
      → contains g.membership_fully_loaded h ≡ false
      → Decided g h pubkey (log_of g h pubkey)
  unfolding is_member
  is_member-log g h pubkey not_loaded = go (log_of g h pubkey) refl
    where
      go : (events : List Event) → log_of g h pubkey ≡ events → Decided g h pubkey events
      go [] e = rw (not_loaded) (ap (λ (o : List Event). is_put (latest_of none o)) e)
      go (event ∷ events) e =
          let (l, found, greatest) = latest_of-some event events in
          (
            l,
            greatest,
            rw not_loaded (ap (λ (o : List Event). is_put (latest_of none o)) e ∙ ap is_put found),
          )

  cached-is_member :
      (g : GroupStore) (h : String) (q : ℕ)
      → contains g.membership_fully_loaded h ≡ true
      → is_some (lookup g.membership_cache h) ≡ true
      → is_member g h q ≡ in_cache g h q
  unfolding is_member get_or_create_member_set
  cached-is_member g h q loaded cached = ground arith

  Changed-is_member :
      (h : String) (pubkey : ℕ) (present : Bool) (g g' : GroupStore) (q : ℕ)
      → contains g.membership_fully_loaded h ≡ true
      → is_some (lookup g.membership_cache h) ≡ true
      → Changed h pubkey present g g'
      → is_member g' h q ≡ (if pubkey == q then present else is_member g h q)
  Changed-is_member h pubkey present g g' q loaded cached c =
      rw
        (
          cached-is_member g h q loaded cached,
          cached-is_member g' h q (rw c.loaded loaded) (c.kept h cached),
        )
        (c.members h q
          ∙ ap (λ (b : Bool). if b && pubkey == q then present else in_cache g h q) (==_refl h))

  -- With an authoritative cache a successful `AddMember` makes the key a member for `IsMember`, and
  -- every other key is a member of the group exactly if it was.
  is_member-add_member :
      (h : String) (pubkey : ℕ) (g g' : GroupStore) (q : ℕ)
      → contains g.membership_fully_loaded h ≡ true
      → is_some (lookup g.membership_cache h) ≡ true
      → add_member h pubkey g ≡ (none, g')
      → is_member g' h q ≡ (if pubkey == q then true else is_member g h q)
  is_member-add_member h pubkey g g' q loaded cached e =
      Changed-is_member h pubkey true g g' q loaded cached
        (subst (Outcomes (Changed h pubkey true) g) e (add_member-Outcomes h pubkey g))

  -- A member who is removed, or who is removed and then added again, cannot
  -- post to a write-restricted group, unless it may manage the relay or has created the group: the
  -- role of a writer is gone.
  pub can_write-removed :
      (h : String) (pubkey : ℕ) (g g' g'' : GroupStore)
      → remove_member h pubkey g ≡ (none, g')
      → (g'' ≡ g') ⊎ (add_member h pubkey g' ≡ (none, g''))
      → is_write_restricted g'' h ≡ true
      → can_manage (config_of g'') pubkey ≡ false
      → is_group_creator g'' h pubkey ≡ false
      → can_write g'' h pubkey ≡ false
  unfolding can_write
  can_write-removed h pubkey g g' g'' removed later restricted stranger not_creator =
      rw (restricted, stranger, not_creator, no_role later) (ground arith)
    where
      gone :
          (g₁ g₂ : GroupStore) (present : Bool)
          → Changed h pubkey present g₁ g₂
          → has_role g₂ h pubkey "writer" ≡ false
      gone g₁ g₂ present c = c.roles h pubkey "writer" ∙ ground (arith, ==_refl h, ==_refl pubkey)

      no_role :
          (g'' ≡ g') ⊎ (add_member h pubkey g' ≡ (none, g''))
          → has_role g'' h pubkey "writer" ≡ false
      no_role (inl e) = rw e (
          gone g g' false (
            subst (Outcomes (Changed h pubkey false) g) removed
              (remove_member-Outcomes h pubkey g)))
      no_role (inr e) =
          gone g' g'' true
            (subst (Outcomes (Changed h pubkey true) g') e (add_member-Outcomes h pubkey g'))
