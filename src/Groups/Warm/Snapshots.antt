-- ===== src/Groups/Warm/Snapshots.antt =====
-- What the members snapshots of zooid/groups.go leave in the caches, in whatever order they are read.
use unicity_relay.Prelude.{
  if◌then◌else◌, is_some, string_eq, nat_eq, ◌==◌, ==_iff, ==_refl, select, contains, contains-add,
  lookup, insert, lookup-insert, ℕ, String, ◌≡◌, refl, sym, subst, Bool, true, false, not, ◌&&◌,
  ◌||◌, Option, none, some, List, [], ◌∷◌, arith,
}
use unicity_relay.Nostr.{Event, Externals}
use unicity_relay.Groups.State.{Roles, GroupStore}
use unicity_relay.Groups.Members.{is_later, latest_of}
use unicity_relay.Groups.Warm.{
  SnapshotKey, key_of, newer, newer_than, Seen, snapshot_sets, apply_snapshot, warm_members,
}
use unicity_relay.Groups.Latest.{IsLatest, latest_of-some}

-- What a snapshot that has been loaded puts into the place of what was there.
abbrev pub in_place {ℓ} : {A : Type ℓ} → (Event → A) → Option Event → Option A → Option A
in_place f none before = before
in_place f (some event) before = some (f event)

abbrev pub latest_key : Option Event → Option SnapshotKey
latest_key none = none
latest_key (some event) = some (key_of event)

-- The latest event so far, when one more is read.
next_latest : Option Event → Event → Option Event
next_latest none event = some event
next_latest (some latest) event = some (if is_later event latest then event else latest)

latest_of-next :
    (l : Option Event) (event : Event) (events : List Event)
    → latest_of l (event ∷ events) ≡ latest_of (next_latest l event) events
unfolding latest_of next_latest
latest_of-next none event events = refl
latest_of-next (some l) event events = refl

latest_of-nil : (l : Option Event) → latest_of l [] ≡ l
unfolding latest_of
latest_of-nil none = refl
latest_of-nil (some l) = refl

-- Nothing is read, or the event stands in the list and none there is later.
abbrev pub IsLatestOf : Option Event → List Event → Type 0
IsLatestOf none events = events ≡ []
IsLatestOf (some l) events = IsLatest l events

latest_of-IsLatestOf : (events : List Event) → IsLatestOf (latest_of none events) events
latest_of-IsLatestOf [] = unfold latest_of in refl
latest_of-IsLatestOf (event ∷ events) =
    let (l, found, greatest) = latest_of-some event events in
    subst (λ (o : Option Event). IsLatestOf o (event ∷ events))
      (sym (found_none event events l found)) greatest
  where
    found_none :
        (event : Event) (events : List Event) (l : Event)
        → latest_of (some event) events ≡ some l
        → latest_of none (event ∷ events) ≡ some l
    found_none event events l e = unfold latest_of in e

newer-is_later : (a b : Event) → newer (key_of a) (key_of b) ≡ is_later a b
unfolding newer is_later
newer-is_later a b = ground arith

module _ ⦃x : Externals⦄ where
  abbrev pub members_of : Event → List ℕ
  members_of event = (snapshot_sets (x.find_all event.tags "p") ([], [])).0

  abbrev pub roles_in : Event → Roles
  roles_in event = (snapshot_sets (x.find_all event.tags "p") ([], [])).1

  -- The caches of a group when `latest` is the snapshot that has been loaded, if any, and `g₀` the
  -- store before.
  pub record Loaded (h : String) (latest : Option Event) (g₀ : GroupStore) (seen : Seen)
      (g : GroupStore) : Type 0 where
    pub key : lookup seen h ≡ latest_key latest
    pub members :
        lookup g.membership_cache h ≡ in_place members_of latest (lookup g₀.membership_cache h)
    pub roles : lookup g.role_cache h ≡ in_place roles_in latest (lookup g₀.role_cache h)
    pub loaded :
        contains g.membership_fully_loaded h
        ≡ (is_some latest || contains g₀.membership_fully_loaded h)

  -- One step of the loop, for an event of the group `k`.
  abbrev takes : String → Event → Seen → Bool
  takes k event seen = not (k == "") && newer_than (key_of event) (lookup seen k)

  abbrev seen_after : String → Event → Seen → Seen
  seen_after k event seen = if takes k event seen then insert k (key_of event) seen else seen

  abbrev store_after : String → Event → Seen → GroupStore → GroupStore
  store_after k event seen g = if takes k event seen then apply_snapshot k event g else g

  step_other :
      (h k : String) (event : Event) (latest : Option Event) (g₀ : GroupStore) (seen : Seen)
      (g : GroupStore)
      → (k == h) ≡ false
      → Loaded h latest g₀ seen g
      → Loaded h latest g₀ (seen_after k event seen) (store_after k event seen g)
  unfolding apply_snapshot
  step_other h k event latest g₀ seen g other r = either (takes k event seen)
    where
      either :
          (b : Bool)
          → Loaded h latest g₀
              (if b then insert k (key_of event) seen else seen)
              (if b then apply_snapshot k event g else g)
      either false = r
      either true = record {
        key = rw (lookup-insert k h (key_of event) seen, other) r.key;
        members = rw (lookup-insert k h (members_of event) g.membership_cache, other) r.members;
        roles = rw (lookup-insert k h (roles_in event) g.role_cache, other) r.roles;
        loaded = rw (contains-add k h g.membership_fully_loaded, other) r.loaded;
      }

  applied :
      (h : String) (event : Event) (latest : Option Event) (g₀ : GroupStore) (seen : Seen)
      (g : GroupStore)
      → Loaded h latest g₀ seen g
      → Loaded h (some event) g₀ (insert h (key_of event) seen) (apply_snapshot h event g)
  unfolding apply_snapshot
  applied h event latest g₀ seen g r = record {
    key = rw (lookup-insert h h (key_of event) seen, ==_refl h) refl;
    members = rw (lookup-insert h h (members_of event) g.membership_cache, ==_refl h) refl;
    roles = rw (lookup-insert h h (roles_in event) g.role_cache, ==_refl h) refl;
    loaded = rw (contains-add h h g.membership_fully_loaded, ==_refl h) refl;
  }

  step_same :
      (h : String) (event : Event) (latest : Option Event) (g₀ : GroupStore) (seen : Seen)
      (g : GroupStore)
      → (h == "") ≡ false
      → Loaded h latest g₀ seen g
      → Loaded h
          (next_latest latest event)
          g₀
          (seen_after h event seen)
          (store_after h event seen g)
  unfolding next_latest
  step_same h event none g₀ seen g named r =
      subst
        (λ (b : Bool).
          Loaded h (some event) g₀ (if b then insert h (key_of event) seen else seen)
            (if b then apply_snapshot h event g else g))
        (sym taken) (applied h event none g₀ seen g r)
    where
      taken : takes h event seen ≡ true
      taken = rw (named, r.key) refl
  step_same h event (some l) g₀ seen g named r =
      subst
        (λ (b : Bool).
          Loaded h (some (if is_later event l then event else l)) g₀
            (if b then insert h (key_of event) seen else seen)
            (if b then apply_snapshot h event g else g))
        (sym taken) (either (is_later event l))
    where
      taken : takes h event seen ≡ is_later event l
      taken = rw (named, r.key) (newer-is_later event l)

      either :
          (b : Bool)
          → Loaded h
              (some (if b then event else l))
              g₀
              (if b then insert h (key_of event) seen else seen)
              (if b then apply_snapshot h event g else g)
      either true = applied h event (some l) g₀ seen g r
      either false = r

  abbrev pub of_group : String → Event → Bool
  of_group h event = x.get_d event.tags == h

  -- One event of the loop, of the group `k`, when the rest of the loop is known.
  advance :
      (h k : String) (event : Event) (events rest : List Event) (latest : Option Event)
      (g₀ : GroupStore) (seen : Seen) (g : GroupStore)
      → (h == "") ≡ false
      → Loaded h latest g₀ seen g
      → ((l : Option Event) (s : Seen) (t : GroupStore)
          → Loaded h l g₀ s t
          → Loaded h (latest_of l rest) g₀ (warm_members events s t).0 (warm_members events s t).1)
      → (b : Bool) → (k == h) ≡ b
      → let s = seen_after k event seen in
        let t = store_after k event seen g in
        Loaded h
          (latest_of latest (if b then event ∷ rest else rest))
          g₀
          (warm_members events s t).0
          (warm_members events s t).1
  advance h k event events rest latest g₀ seen g named r ih false other =
      ih latest (seen_after k event seen) (store_after k event seen g)
        (step_other h k event latest g₀ seen g other r)
  advance h k event events rest latest g₀ seen g named r ih true same =
      subst
        (λ (j : String).
          Loaded h (latest_of latest (event ∷ rest)) g₀
            (warm_members events (seen_after j event seen) (store_after j event seen g)).0
            (warm_members events (seen_after j event seen) (store_after j event seen g)).1)
        (sym ((==_iff k h).0 same))
        (subst
          (λ (l : Option Event).
            Loaded h l g₀
              (warm_members events (seen_after h event seen) (store_after h event seen g)).0
              (warm_members events (seen_after h event seen) (store_after h event seen g)).1)
          (sym (latest_of-next latest event rest))
          (ih (next_latest latest event) (seen_after h event seen) (store_after h event seen g)
            (step_same h event latest g₀ seen g named r)))

  warm_members-Loaded :
      (h : String) (events : List Event) (latest : Option Event) (g₀ : GroupStore) (seen : Seen)
      (g : GroupStore)
      → (h == "") ≡ false
      → Loaded h latest g₀ seen g
      → Loaded h
          (latest_of latest (select (of_group h) events))
          g₀
          (warm_members events seen g).0
          (warm_members events seen g).1
  unfolding warm_members select
  warm_members-Loaded h [] latest g₀ seen g named r =
      subst (λ (l : Option Event). Loaded h l g₀ seen g) (sym (latest_of-nil latest)) r
  warm_members-Loaded h (event ∷ events) latest g₀ seen g named r =
      advance h (x.get_d event.tags) event events (select (of_group h) events) latest g₀ seen g
        named r (λ l s t q. warm_members-Loaded h events l g₀ s t named q) (of_group h event) refl

  -- Wherever the members snapshots stand in the list that is read, the sets of a group become those
  -- of its latest snapshot, by time and then by id, and the group is marked as loaded; a group without
  -- a snapshot keeps its sets and its mark.
  pub warm_members-latest :
      (h : String) (events : List Event) (g : GroupStore)
      → (h == "") ≡ false
      → let latest = latest_of none (select (of_group h) events) in
        Loaded h latest g (warm_members events [] g).0 (warm_members events [] g).1
        × IsLatestOf latest (select (of_group h) events)
  warm_members-latest h events g named = (
    warm_members-Loaded h events none g [] g named
        (record { key = unfold lookup in refl; members = refl; roles = refl; loaded = refl }),
    latest_of-IsLatestOf (select (of_group h) events),
  )
