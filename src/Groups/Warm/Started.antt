-- ===== src/Groups/Warm/Started.antt =====
-- The member sets after the whole of `WarmCaches` of zooid/groups.go.
use unicity_relay.Prelude.{
  string_eq, nat_eq, ◌==◌, contains, ℕ, ◌≡◌, Bool, true, not, ◌||◌, Option, none, some, List, [],
  ◌∷◌,
}
use unicity_relay.Nostr.{Event, Externals}
use unicity_relay.Events.Store.{query_events}
use unicity_relay.Groups.State.{GroupStore}
use unicity_relay.Groups.Warm.{of_kinds, tail_filter, with_creators, with_members, with_admins}
use unicity_relay.Groups.Warm.Snapshots.{members_of}

module _ ⦃x : Externals⦄ where
  -- The members snapshots that a start reads.
  abbrev pub snapshots_read : GroupStore → List Event
  snapshots_read g = query_events (with_creators g).1.events (of_kinds (x.kinds.members ∷ [])) 0

  -- The put-user and remove-user events that it reads behind the oldest snapshot, newest first.
  abbrev pub tail_read : GroupStore → List Event
  tail_read g =
      let members = with_members (with_creators g).1 in
      query_events (with_admins members.0 members.1).1.events (tail_filter members.0) 0

  -- The event that decides on the key settles its membership; without one the keys of the snapshot
  -- are members.
  abbrev pub Settled : Option Event → Event → ℕ → Bool → Type 0
  Settled (some e) l q is_in = is_in ≡ (e.kind == x.kinds.put_user)
  Settled none l q is_in = (not (contains (members_of l) q) || is_in) ≡ true
