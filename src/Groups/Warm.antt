-- ===== src/Groups/Warm.antt =====
-- `WarmCaches` of zooid/groups.go: the caches that a start fills from the stored events.
pub mod Snapshots
pub mod Tail
pub mod Kept
pub mod Started
use mathlib.Core.List.{reverse}
use unicity_relay.Prelude.{
  ltb, if◌then◌else◌, is_some, string_eq, nat_eq, ◌==◌, length, drop, add, remove, Map, lookup,
  insert, delete, ℕ, String, Bool, true, false, not, ◌&&◌, ◌||◌, Option, none, some, List, [], ◌∷◌,
}
use unicity_relay.Nostr.{Tag, Event, Filter, no_filter, value_of, Externals}
use unicity_relay.Events.Store.{query_events}
use unicity_relay.Groups.Tags.{get_group_id_from_event}
use unicity_relay.Groups.State.{Roles, GroupStore}
use unicity_relay.Groups.Members.{get_or_create_member_set, get_or_create_role_set, role_map}
use unicity_relay.Groups.Metadata.{cache_entry, set_metadata, update_metadata}

-- `snapshotKey`
pub record SnapshotKey : Type 0 where
  pub created_at : ℕ
  pub id : ℕ

abbrev pub key_of : Event → SnapshotKey
key_of event = record { created_at = event.created_at; id = event.id }

unfoldable pub newer : SnapshotKey → SnapshotKey → Bool
newer a b =
    if not (a.created_at == b.created_at) then ltb b.created_at a.created_at else ltb b.id a.id

abbrev pub newer_than : SnapshotKey → Option SnapshotKey → Bool
newer_than k none = true
newer_than k (some existing) = newer k existing

-- The metadata events.
unfoldable pub warm_metadata : ⦃x : Externals⦄ → List Event → GroupStore → GroupStore
warm_metadata [] g = g
warm_metadata ⦃x⦄ (event ∷ events) g =
    let h = x.get_d event.tags in
    warm_metadata events (if h == "" then g else set_metadata h (cache_entry event event.tags) g)

-- The creation of a group without metadata is kept, unless one is kept already.
abbrev pub noted : String → Event → GroupStore → Map String Event → Map String Event
noted h event g missing =
    if is_some (lookup g.metadata_cache h) || is_some (lookup missing h)
    then missing
    else insert h event missing

-- The creation events: `missingMeta` and the creators.
unfoldable pub warm_creators :
    ⦃x : Externals⦄ → List Event → Map String Event → GroupStore → Map String Event × GroupStore
warm_creators [] missing g = (missing, g)
warm_creators ⦃x⦄ (event ∷ events) missing g =
    let h = get_group_id_from_event event in
    warm_creators events (if h == "" then missing else noted h event g missing)
      (if h == "" then g else record g { creator_cache = insert h event.pubkey g.creator_cache })

-- The roles at the positions from 2, if there are any.
abbrev pub roles_from : ℕ → Tag → Roles → Roles
roles_from pubkey tag roles =
    if ltb 2 (length tag) then insert pubkey (role_map (drop 2 tag)) roles else roles

abbrev pub roles_or_none : ℕ → Tag → Roles → Roles
roles_or_none pubkey tag roles =
    if ltb 2 (length tag) then insert pubkey (role_map (drop 2 tag)) roles else delete pubkey roles

-- Members and roles of one group.
abbrev pub Sets : Type 0
Sets = List ℕ × Roles

abbrev pub Seen : Type 0
Seen = Map String SnapshotKey

module _ ⦃x : Externals⦄ where
  -- The loop over the p-tags of a members snapshot.
  unfoldable pub snapshot_sets : List Tag → Sets → Sets
  snapshot_sets [] sets = sets
  snapshot_sets (tag ∷ tags) sets = elim (x.pub_key_from_hex (value_of tag)) [
    | none ↦ snapshot_sets tags sets
    | some pubkey ↦ snapshot_sets tags (add pubkey sets.0, roles_from pubkey tag sets.1)
  ]

  abbrev pub set_sets : String → Sets → GroupStore → GroupStore
  set_sets h sets g = record g {
    membership_cache = insert h sets.0 g.membership_cache;
    role_cache = insert h sets.1 g.role_cache;
  }

  -- A members snapshot replaces the sets of its group.
  unfoldable pub apply_snapshot : String → Event → GroupStore → GroupStore
  unfolding snapshot_sets
  apply_snapshot h event g =
      set_sets h (snapshot_sets (x.find_all event.tags "p") ([], []))
        (record g { membership_fully_loaded = add h g.membership_fully_loaded })

  -- The loop over the members snapshots: `seenMembers`.
  unfoldable pub warm_members : List Event → Seen → GroupStore → Seen × GroupStore
  unfolding apply_snapshot newer
  warm_members [] seen g = (seen, g)
  warm_members (event ∷ events) seen g =
      let h = x.get_d event.tags in
      let taken = not (h == "") && newer_than (key_of event) (lookup seen h) in
      warm_members events (if taken then insert h (key_of event) seen else seen)
        (if taken then apply_snapshot h event g else g)

  -- The loop over the p-tags of an admins snapshot.
  unfoldable pub admin_members : List Tag → List ℕ → List ℕ
  admin_members [] members = members
  admin_members (tag ∷ tags) members = elim (x.pub_key_from_hex (value_of tag)) [
    | none ↦ admin_members tags members
    | some pubkey ↦ admin_members tags (add pubkey members)
  ]

  -- The members snapshot of the group is strictly newer, by time.
  abbrev pub outdated : Event → Option SnapshotKey → Bool
  outdated event none = false
  outdated event (some member_key) = ltb event.created_at member_key.created_at

  unfoldable pub apply_admins : String → Event → GroupStore → GroupStore
  unfolding admin_members
  apply_admins h event g = record g {
    membership_cache =
        insert h (admin_members (x.find_all event.tags "p") (get_or_create_member_set g h))
          g.membership_cache;
  }

  -- The loop over the admins snapshots: `seenAdmins`.
  unfoldable pub warm_admins : Seen → List Event → Seen → GroupStore → Seen × GroupStore
  unfolding apply_admins newer
  warm_admins seen_members [] seen g = (seen, g)
  warm_admins seen_members (event ∷ events) seen g =
      let h = x.get_d event.tags in
      let taken = not (h == "") && newer_than (key_of event) (lookup seen h) in
      warm_admins seen_members events (if taken then insert h (key_of event) seen else seen) (
        if taken && not (outdated event (lookup seen_members h)) then apply_admins h event g else g)

  -- The least `created_at` of the snapshots.
  unfoldable pub oldest_of : ℕ → Seen → ℕ
  oldest_of oldest [] = oldest
  oldest_of oldest ((h, k) ∷ seen) =
      oldest_of (if ltb k.created_at oldest then k.created_at else oldest) seen

  abbrev pub oldest_key : Seen → ℕ
  oldest_key [] = 0
  oldest_key ((h, k) ∷ seen) = oldest_of k.created_at seen

  -- The loop over the p-tags of a put-user or remove-user event.
  unfoldable pub tail_sets : ℕ → List Tag → Sets → Sets
  tail_sets kind [] sets = sets
  tail_sets kind (tag ∷ tags) sets = elim (x.pub_key_from_hex (value_of tag)) [
    | none ↦ tail_sets kind tags sets
    | some pubkey ↦ tail_sets kind tags (
        if kind == x.kinds.put_user
        then (add pubkey sets.0, roles_or_none pubkey tag sets.1)
        else (remove pubkey sets.0, delete pubkey sets.1))
  ]

  -- The group has a snapshot, and the event is newer.
  abbrev pub not_covered : Event → Option SnapshotKey → Bool
  not_covered event none = false
  not_covered event (some snap) = newer (key_of event) snap

  unfoldable pub apply_tail : String → Event → GroupStore → GroupStore
  unfolding tail_sets
  apply_tail h event g =
      set_sets h
        (tail_sets event.kind (x.find_all event.tags "p")
          (get_or_create_member_set g h, get_or_create_role_set g h))
        g

  -- The loop over the log, oldest first.
  unfoldable pub replay_tail : Seen → List Event → GroupStore → GroupStore
  unfolding apply_tail newer
  replay_tail seen [] g = g
  replay_tail seen (event ∷ events) g =
      let h = get_group_id_from_event event in
      replay_tail seen events
        (if not (h == "") && not_covered event (lookup seen h) then apply_tail h event g else g)

  abbrev pub of_kinds : List ℕ → Filter
  of_kinds kinds = record no_filter { kinds = kinds }

  abbrev pub tail_filter : Seen → Filter
  tail_filter seen = record no_filter {
    kinds = x.kinds.put_user ∷ x.kinds.remove_user ∷ [];
    since = oldest_key seen;
  }

  unfoldable pub warm_tail : Seen → GroupStore → GroupStore
  unfolding replay_tail
  warm_tail [] g = g
  warm_tail (entry ∷ seen) g =
      replay_tail (entry ∷ seen) (reverse (query_events g.events (tail_filter (entry ∷ seen)) 0)) g

  -- The groups without metadata get it from their creation; errors are logged.
  unfoldable pub heal : Map String Event → GroupStore → GroupStore
  heal [] g = g
  heal ((h, event) ∷ missing) g = heal missing (update_metadata event g).1

  abbrev pub is_empty_map {ℓ} : {A : Type ℓ} → Map String A → Bool
  is_empty_map [] = true
  is_empty_map (entry ∷ m) = false

  -- Groups without any snapshot mean that the reads have failed: the caches stay cold.
  abbrev pub finish : Seen → Seen → GroupStore → GroupStore
  finish members admins g =
      if not (is_empty_map g.metadata_cache) && (is_empty_map members && is_empty_map admins)
      then g
      else record g { caches_warmed = true }

  -- The stages, in order.
  abbrev pub with_creators : GroupStore → Map String Event × GroupStore
  with_creators g =
      let g₁ = warm_metadata (query_events g.events (of_kinds (x.kinds.metadata ∷ [])) 0) g in
      warm_creators (query_events g₁.events (of_kinds (x.kinds.create_group ∷ [])) 0) [] g₁

  abbrev pub with_members : GroupStore → Seen × GroupStore
  with_members g = warm_members (query_events g.events (of_kinds (x.kinds.members ∷ [])) 0) [] g

  abbrev pub with_admins : Seen → GroupStore → Seen × GroupStore
  with_admins members g =
      warm_admins members (query_events g.events (of_kinds (x.kinds.admins ∷ [])) 0) [] g

  unfoldable pub warm_caches : GroupStore → GroupStore
  unfolding warm_metadata warm_creators warm_members warm_admins warm_tail heal
  warm_caches g =
      let created = with_creators g in
      let members = with_members created.1 in
      let admins = with_admins members.0 members.1 in
      finish members.0 admins.0 (heal created.0 (warm_tail members.0 admins.1))
