-- ===== src/Groups/Warm/Kept.antt =====
-- What the later stages of `WarmCaches` of zooid/groups.go leave of the member sets.
use mathlib.Core.List.{reverse}
use unicity_relay.Prelude.{
  if◌then◌else◌, Option-cases, or_else, string_eq, nat_eq, ◌==◌, ==_iff, first, contains, add,
  contains-add, Map, lookup, insert, lookup-insert, ℕ, String, ◌≡◌, refl, ap, ◌∙◌, inl, inr, Bool,
  true, false, not, ◌&&◌, Option, none, some, List, [], ◌∷◌, arith,
}
use unicity_relay.Nostr.{Tag, Event, value_of, Externals}
use unicity_relay.Events.Store.{Failure, EventStore, query_events, unsigned, sign_and_store_event}
use unicity_relay.Groups.Tags.{get_group_id_from_event}
use unicity_relay.Groups.State.{GroupStore}
use unicity_relay.Groups.Members.{get_or_create_member_set, after_store}
use unicity_relay.Groups.Membership.{in_cache}
use unicity_relay.Groups.Metadata.{
  group_of_tags, cache_entry, set_metadata, new_metadata_tags, update_metadata,
}
use unicity_relay.Groups.Warm.{
  SnapshotKey, key_of, newer_than, Seen, admin_members, outdated, apply_admins, warm_admins,
  not_covered, apply_tail, replay_tail, tail_filter, warm_tail, heal, is_empty_map, finish,
}
use unicity_relay.Groups.Warm.Tail.{decided, speaks, replay_tail-in_cache}

-- The member sets and the marks of the groups are the same.
pub record SameSets (g g' : GroupStore) : Type 0 where
  pub members : g'.membership_cache ≡ g.membership_cache
  pub loaded : g'.membership_fully_loaded ≡ g.membership_fully_loaded

pub SameSets-trans : {a b c : GroupStore} → SameSets a b → SameSets b c → SameSets a c
SameSets-trans p q = record { members = q.members ∙ p.members; loaded = q.loaded ∙ p.loaded }

module _ ⦃x : Externals⦄ where
  after_store-SameSets :
      (g : GroupStore) (r : Option Failure × Event × EventStore)
      (change : Event → GroupStore → GroupStore)
      → ((event : Event) (g' : GroupStore) → SameSets g' (change event g'))
      → SameSets g (after_store g r change).1
  after_store-SameSets g (some e, event, events) change keeps = record {
    members = refl;
    loaded = refl;
  }
  after_store-SameSets g (none, event, events) change keeps =
      let k = keeps event (record g { events = events }) in
      record { members = k.members; loaded = k.loaded }

  update_metadata-SameSets :
      (event : Event) (g : GroupStore) → SameSets g (update_metadata event g).1
  unfolding update_metadata
  update_metadata-SameSets event g =
      let tags = new_metadata_tags g event in
      after_store-SameSets g
        (sign_and_store_event g.events
          (unsigned x.kinds.metadata event.created_at tags event.content) true)
        (λ stored g'.
          if group_of_tags "" event.tags == ""
          then g'
          else set_metadata (group_of_tags "" event.tags) (cache_entry stored tags) g')
        (λ stored g'. either stored g' (group_of_tags "" event.tags == ""))
    where
      either :
          (stored : Event) (g' : GroupStore) (b : Bool)
          → SameSets g' (
              if b
              then g'
              else set_metadata
                  (group_of_tags "" event.tags)
                  (cache_entry stored (new_metadata_tags g event))
                  g')
      either stored g' true = record { members = refl; loaded = refl }
      either stored g' false = record { members = refl; loaded = refl }

  pub heal-SameSets : (missing : Map String Event) (g : GroupStore) → SameSets g (heal missing g)
  unfolding heal
  heal-SameSets [] g = record { members = refl; loaded = refl }
  heal-SameSets ((h, event) ∷ missing) g =
      SameSets-trans (update_metadata-SameSets event g)
        (heal-SameSets missing (update_metadata event g).1)

  pub finish-SameSets :
      (members admins : Seen) (g : GroupStore) → SameSets g (finish members admins g)
  finish-SameSets members admins g =
      either (not (is_empty_map g.metadata_cache) && (is_empty_map members && is_empty_map admins))
    where
      either : (b : Bool) → SameSets g (if b then g else record g { caches_warmed = true })
      either true = record { members = refl; loaded = refl }
      either false = record { members = refl; loaded = refl }

  replay_tail-loaded :
      (seen : Seen) (events : List Event) (g : GroupStore)
      → (replay_tail seen events g).membership_fully_loaded ≡ g.membership_fully_loaded
  unfolding replay_tail apply_tail
  replay_tail-loaded seen [] g = refl
  replay_tail-loaded seen (event ∷ events) g =
      let h = get_group_id_from_event event in
      let next =
        if not (h == "") && not_covered event (lookup seen h) then apply_tail h event g else g in
      replay_tail-loaded seen events next ∙ ground arith

  pub warm_tail-loaded :
      (seen : Seen) (g : GroupStore)
      → (warm_tail seen g).membership_fully_loaded ≡ g.membership_fully_loaded
  unfolding warm_tail
  warm_tail-loaded [] g = refl
  warm_tail-loaded (entry ∷ seen) g =
      replay_tail-loaded (entry ∷ seen)
        (reverse (query_events g.events (tail_filter (entry ∷ seen)) 0)) g

  pub warm_tail-in_cache :
      (seen : Seen) (g : GroupStore) (h : String) (snap : SnapshotKey) (q : ℕ)
      → (h == "") ≡ false
      → lookup seen h ≡ some snap
      → in_cache (warm_tail seen g) h q
        ≡ decided
            (first (speaks h snap q) (query_events g.events (tail_filter seen) 0))
            (in_cache g h q)
  unfolding warm_tail
  warm_tail-in_cache [] g h snap q named has = absurd (unfold lookup in cc)
  warm_tail-in_cache (entry ∷ seen) g h snap q named has =
      replay_tail-in_cache (entry ∷ seen) (query_events g.events (tail_filter (entry ∷ seen)) 0) g h
        snap q named has

  -- Admins are added, and nobody is taken away.
  admin_members-keeps :
      (tags : List Tag) (members : List ℕ) (q : ℕ)
      → contains members q ≡ true
      → contains (admin_members tags members) q ≡ true
  unfolding admin_members
  admin_members-keeps [] members q is = is
  admin_members-keeps (tag ∷ tags) members q is =
      elim (Option-cases (x.pub_key_from_hex (value_of tag))) [
        | inl bad ↦ rw (bad, admin_members) (admin_members-keeps tags members q is)
        | inr (key, good) ↦
            rw (good, admin_members)
              (admin_members-keeps tags (add key members) q
                (contains-add key q members ∙ ground arith))
      ]

  apply_admins-keeps :
      (k : String) (event : Event) (g : GroupStore) (h : String) (q : ℕ)
      → in_cache g h q ≡ true
      → in_cache (apply_admins k event g) h q ≡ true
  unfolding apply_admins get_or_create_member_set
  apply_admins-keeps k event g h q is =
      let tags = x.find_all event.tags "p" in
      let members = or_else [] (lookup g.membership_cache k) in
      rw (lookup-insert k h (admin_members tags members) g.membership_cache)
        (ground (arith, ==_iff k h, admin_members-keeps tags members q, same k h))
    where
      same : (a b : String) → a ≡ b → lookup g.membership_cache a ≡ lookup g.membership_cache b
      same a b e = ap (λ (c : String). lookup g.membership_cache c) e

  pub warm_admins-keeps :
      (seen_members : Seen) (events : List Event) (seen : Seen) (g : GroupStore) (h : String)
      (q : ℕ)
      → in_cache g h q ≡ true
      → in_cache (warm_admins seen_members events seen g).1 h q ≡ true
  unfolding warm_admins
  warm_admins-keeps seen_members [] seen g h q is = is
  warm_admins-keeps seen_members (event ∷ events) seen g h q is =
      let k = x.get_d event.tags in
      let taken = not (k == "") && newer_than (key_of event) (lookup seen k) in
      let fresh = taken && not (outdated event (lookup seen_members k)) in
      warm_admins-keeps seen_members events (if taken then insert k (key_of event) seen else seen)
        (if fresh then apply_admins k event g else g) h q (kept fresh)
    where
      kept :
          (b : Bool)
          → in_cache (if b then apply_admins (x.get_d event.tags) event g else g) h q ≡ true
      kept true = apply_admins-keeps (x.get_d event.tags) event g h q is
      kept false = is

  pub warm_admins-loaded :
      (seen_members : Seen) (events : List Event) (seen : Seen) (g : GroupStore)
      → (warm_admins seen_members events seen g).1.membership_fully_loaded
        ≡ g.membership_fully_loaded
  unfolding warm_admins
  warm_admins-loaded seen_members [] seen g = refl
  warm_admins-loaded seen_members (event ∷ events) seen g =
      let k = x.get_d event.tags in
      let taken = not (k == "") && newer_than (key_of event) (lookup seen k) in
      let fresh = taken && not (outdated event (lookup seen_members k)) in
      warm_admins-loaded seen_members events (if taken then insert k (key_of event) seen else seen)
        (if fresh then apply_admins k event g else g)
      ∙ kept fresh
    where
      kept :
          (b : Bool)
          → (if b then apply_admins (x.get_d event.tags) event g else g).membership_fully_loaded
            ≡ g.membership_fully_loaded
      kept true = unfold apply_admins in refl
      kept false = refl
