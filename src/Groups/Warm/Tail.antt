-- ===== src/Groups/Warm/Tail.antt =====
-- The log behind the snapshots in zooid/groups.go: which event decides on a key.
use mathlib.Core.List.{reverse, reverse-cons}
use unicity_relay.Prelude.{
  if◌then◌else◌, Option-cases, string_eq, nat_eq, ◌==◌, ==_iff, exists, first, contains, add,
  remove, contains-add, contains-remove, lookup, delete, lookup-insert, ℕ, String, ◌≡◌, refl, ap,
  ◌∙◌, inl, inr, Bool, false, not, ◌&&◌, Option, none, some, List, [], ◌∷◌, ◌++◌, arith,
}
use unicity_relay.Nostr.{Tag, Event, value_of, Externals}
use unicity_relay.Groups.Tags.{get_group_id_from_event}
use unicity_relay.Groups.State.{GroupStore}
use unicity_relay.Groups.Members.{get_or_create_member_set, get_or_create_role_set}
use unicity_relay.Groups.Membership.{in_cache, names_key}
use unicity_relay.Groups.Warm.{
  SnapshotKey, key_of, newer, roles_or_none, Sets, Seen, tail_sets, not_covered, apply_tail,
  replay_tail,
}

-- What the event says, if there is one, and what held before otherwise.
abbrev pub decided : ⦃x : Externals⦄ → Option Event → Bool → Bool
decided none before = before
decided ⦃x⦄ (some event) before = event.kind == x.kinds.put_user

module _ ⦃x : Externals⦄ where
  -- The event is of the group, newer than the snapshot, and names the key.
  abbrev pub speaks : String → SnapshotKey → ℕ → Event → Bool
  speaks h snap q event =
      get_group_id_from_event event == h
      && (newer (key_of event) snap && exists (names_key q) (x.find_all event.tags "p"))

  tail_sets-contains :
      (kind : ℕ) (tags : List Tag) (sets : Sets) (q : ℕ)
      → contains (tail_sets kind tags sets).0 q
        ≡ (if exists (names_key q) tags then kind == x.kinds.put_user else contains sets.0 q)
  unfolding tail_sets exists
  tail_sets-contains kind [] sets q = refl
  tail_sets-contains kind (tag ∷ tags) sets q =
      elim (Option-cases (x.pub_key_from_hex (value_of tag))) [
        | inl bad ↦ rw (bad, tail_sets, names_key) (tail_sets-contains kind tags sets q)
        | inr (key, good) ↦
            rw (good, tail_sets, names_key)
              (tail_sets-contains kind tags
                  (if kind == x.kinds.put_user
                    then (add key sets.0, roles_or_none key tag sets.1)
                    else (remove key sets.0, delete key sets.1))
                  q
                ∙ ground (arith, contains-add key q sets.0, contains-remove key q sets.0))
      ]

  replay_tail-append :
      (seen : Seen) (events : List Event) (event : Event) (g : GroupStore)
      → replay_tail seen (events ++ event ∷ []) g
        ≡ replay_tail seen (event ∷ []) (replay_tail seen events g)
  unfolding replay_tail
  replay_tail-append seen [] event g = refl
  replay_tail-append seen (first ∷ events) event g = replay_tail-append seen events event _

  apply_tail-in_cache :
      (k : String) (event : Event) (g : GroupStore) (h : String) (q : ℕ)
      → in_cache (apply_tail k event g) h q ≡ (
          if k == h && exists (names_key q) (x.find_all event.tags "p")
          then event.kind == x.kinds.put_user
          else in_cache g h q)
  unfolding apply_tail get_or_create_member_set
  apply_tail-in_cache k event g h q =
      let sets : Sets = (get_or_create_member_set g k, get_or_create_role_set g k) in
      let tags = x.find_all event.tags "p" in
      rw (lookup-insert k h (tail_sets event.kind tags sets).0 g.membership_cache)
        (ground (arith, tail_sets-contains event.kind tags sets q, ==_iff k h, same k h))
    where
      same : (a b : String) → a ≡ b → lookup g.membership_cache a ≡ lookup g.membership_cache b
      same a b e = ap (λ (c : String). lookup g.membership_cache c) e

  -- One step, for an event of the group `k`.
  stepped :
      (k : String) (seen : Seen) (event : Event) (g : GroupStore) (h : String) (snap : SnapshotKey)
      (q : ℕ)
      → (h == "") ≡ false
      → lookup seen h ≡ some snap
      → in_cache
          (if not (k == "") && not_covered event (lookup seen k) then apply_tail k event g else g)
          h
          q
        ≡ (if k == h
              && (newer (key_of event) snap && exists (names_key q) (x.find_all event.tags "p"))
            then event.kind == x.kinds.put_user
            else in_cache g h q)
  stepped k seen event g h snap q named has =
      ground (arith, apply_tail-in_cache k event g h q, ==_iff k h, covered k h, empty k h)
    where
      covered :
          (a b : String)
          → a ≡ b
          → not_covered event (lookup seen a) ≡ not_covered event (lookup seen b)
      covered a b e = ap (λ (c : String). not_covered event (lookup seen c)) e

      empty : (a b : String) → a ≡ b → (a == "") ≡ (b == "")
      empty a b e = ap (λ (c : String). c == "") e

  step-in_cache :
      (seen : Seen) (event : Event) (g : GroupStore) (h : String) (snap : SnapshotKey) (q : ℕ)
      → (h == "") ≡ false
      → lookup seen h ≡ some snap
      → in_cache (replay_tail seen (event ∷ []) g) h q
        ≡ (if speaks h snap q event then event.kind == x.kinds.put_user else in_cache g h q)
  unfolding replay_tail
  step-in_cache seen event g h snap q named has =
      stepped (get_group_id_from_event event) seen event g h snap q named has

  -- The replay of a log, oldest first: the newest event that speaks of the key decides.
  pub replay_tail-in_cache :
      (seen : Seen) (events : List Event) (g : GroupStore) (h : String) (snap : SnapshotKey) (q : ℕ)
      → (h == "") ≡ false
      → lookup seen h ≡ some snap
      → in_cache (replay_tail seen (reverse events) g) h q
        ≡ decided (first (speaks h snap q) events) (in_cache g h q)
  unfolding first
  replay_tail-in_cache seen [] g h snap q named has = unfold replay_tail in refl
  replay_tail-in_cache seen (event ∷ events) g h snap q named has =
      ap (λ (es : List Event). in_cache (replay_tail seen es g) h q) (reverse-cons event events)
      ∙ (ap (λ (g' : GroupStore). in_cache g' h q)
            (replay_tail-append seen (reverse events) event g)
          ∙ (step-in_cache seen event (replay_tail seen (reverse events) g) h snap q named has
              ∙ ground (arith, replay_tail-in_cache seen events g h snap q named has)))
