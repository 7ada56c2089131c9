-- ===== src/Groups/Members.antt =====
-- Membership and roles in zooid/groups.go: the member and role sets, `IsMember`, `GetMembers`,
-- `GetMemberCount`, `AddMember`, `RemoveMember`, `HasRole`, `SetMemberRoles`, `ClearMemberRoles`.
use mathlib.Core.List.{reverse}
use unicity_relay.Prelude.{
  ltb, if◌then◌else◌, or_else, ◌==◌, nat_eq, string_eq, length, contains, add, remove, Map, lookup,
  insert, delete, ℕ, String, Bool, true, false, ◌&&◌, ◌||◌, Option, none, some, List, [], ◌∷◌,
}
use unicity_relay.Nostr.{Tag, Event, Filter, no_filter, value_of, Externals}
use unicity_relay.Events.Store.{Failure, EventStore, query_events, unsigned, sign_and_store_event}
use unicity_relay.Groups.State.{Roles, GroupStore, Done}

unfoldable pub get_or_create_member_set : GroupStore → String → List ℕ
get_or_create_member_set g h = or_else [] (lookup g.membership_cache h)

unfoldable pub get_or_create_role_set : GroupStore → String → Roles
get_or_create_role_set g h = or_else [] (lookup g.role_cache h)

-- The set is created where it is missing, and the member put into it.
unfoldable pub put_member : String → ℕ → GroupStore → GroupStore
unfolding get_or_create_member_set
put_member h pubkey g = record g {
  membership_cache = insert h (add pubkey (get_or_create_member_set g h)) g.membership_cache;
}

abbrev pub dropped : String → ℕ → Option (List ℕ) → Map String (List ℕ) → Map String (List ℕ)
dropped h pubkey none cache = cache
dropped h pubkey (some members) cache = insert h (remove pubkey members) cache

-- The member leaves the set, if there is one.
unfoldable pub drop_member : String → ℕ → GroupStore → GroupStore
drop_member h pubkey g = record g {
  membership_cache = dropped h pubkey (lookup g.membership_cache h) g.membership_cache;
}

abbrev pub cleared : String → ℕ → Option Roles → Map String Roles → Map String Roles
cleared h pubkey none cache = cache
cleared h pubkey (some roles) cache = insert h (delete pubkey roles) cache

unfoldable pub clear_member_roles : String → ℕ → GroupStore → GroupStore
clear_member_roles h pubkey g = record g {
  role_cache = cleared h pubkey (lookup g.role_cache h) g.role_cache;
}

-- The names are put into a set one by one.
unfoldable pub role_map : List String → List String
role_map [] = []
role_map (role ∷ roles) = add role (role_map roles)

unfoldable pub set_member_roles : String → ℕ → List String → GroupStore → GroupStore
unfolding clear_member_roles get_or_create_role_set role_map
set_member_roles h pubkey [] g = clear_member_roles h pubkey g
set_member_roles h pubkey (role ∷ roles) g = record g {
  role_cache =
      insert h (insert pubkey (role_map (role ∷ roles)) (get_or_create_role_set g h)) g.role_cache;
}

abbrev pub has_in : String → Option (List String) → Bool
has_in role none = false
has_in role (some roles) = contains roles role

abbrev pub role_in : ℕ → String → Option Roles → Bool
role_in pubkey role none = false
role_in pubkey role (some roles) = has_in role (lookup roles pubkey)

unfoldable pub has_role : GroupStore → String → ℕ → String → Bool
has_role g h pubkey role = role_in pubkey role (lookup g.role_cache h)

-- By time, and by id among events of the same second.
unfoldable pub is_later : Event → Event → Bool
is_later event latest =
    ltb latest.created_at event.created_at
    || (event.created_at == latest.created_at && ltb latest.id event.id)

-- The loop of `IsMember`: the latest event so far.
unfoldable pub latest_of : Option Event → List Event → Option Event
unfolding is_later
latest_of latest [] = latest
latest_of none (event ∷ events) = latest_of (some event) events
latest_of (some latest) (event ∷ events) =
    latest_of (some (if is_later event latest then event else latest)) events

module _ ⦃x : Externals⦄ where
  abbrev pub is_put : Option Event → Bool
  is_put none = false
  is_put (some latest) = latest.kind == x.kinds.put_user

  abbrev pub membership_filter : String → ℕ → Filter
  membership_filter h pubkey = record no_filter {
    kinds = x.kinds.put_user ∷ x.kinds.remove_user ∷ [];
    tags = ("p", x.hex pubkey ∷ []) ∷ ("h", h ∷ []) ∷ [];
  }

  -- The answer of the database.
  unfoldable pub is_member_stored : GroupStore → String → ℕ → Bool
  unfolding latest_of
  is_member_stored g h pubkey =
      is_put (latest_of none (query_events g.events (membership_filter h pubkey) 0))

  abbrev pub cached_or : Bool → ℕ → Option (List ℕ) → Bool
  cached_or fallback pubkey none = fallback
  cached_or fallback pubkey (some members) = contains members pubkey

  unfoldable pub is_member : GroupStore → String → ℕ → Bool
  unfolding is_member_stored
  is_member g h pubkey =
      if contains g.membership_fully_loaded h
      then cached_or (is_member_stored g h pubkey) pubkey (lookup g.membership_cache h)
      else is_member_stored g h pubkey

  -- The loop over the p-tags of one event of the log.
  unfoldable pub replay_tags : ℕ → List Tag → List ℕ → List ℕ
  replay_tags kind [] members = members
  replay_tags kind (tag ∷ tags) members = elim (x.pub_key_from_hex (value_of tag)) [
    | none ↦ replay_tags kind tags members
    | some pubkey ↦
        replay_tags kind tags
          (if kind == x.kinds.put_user then add pubkey members else remove pubkey members)
  ]

  -- The log, oldest first.
  unfoldable pub replay_log : List Event → List ℕ → List ℕ
  unfolding replay_tags
  replay_log [] members = members
  replay_log (event ∷ events) members =
      replay_log events (replay_tags event.kind (x.find_all event.tags "p") members)

  unfoldable pub get_members : GroupStore → String → List ℕ
  unfolding replay_log
  get_members g h =
      if g.caches_warmed
      then or_else [] (lookup g.membership_cache h)
      else replay_log (reverse (query_events g.events filter 0)) []
    where
      filter : Filter
      filter = record no_filter {
        kinds = x.kinds.put_user ∷ x.kinds.remove_user ∷ [];
        tags = ("h", h ∷ []) ∷ [];
      }

  unfoldable pub get_member_count : GroupStore → String → ℕ
  unfolding get_members
  get_member_count g h =
      if g.caches_warmed
      then length (or_else [] (lookup g.membership_cache h))
      else length (get_members g h)

  -- A put-user or remove-user event of the relay's own.
  abbrev pub membership_event : ℕ → GroupStore → String → ℕ → Event
  membership_event kind g h pubkey =
      unsigned kind g.events.clock (("p" ∷ x.hex pubkey ∷ []) ∷ ("h" ∷ h ∷ []) ∷ []) ""

  -- The store after `SignAndStoreEvent`, and the change that follows unless it has failed.
  abbrev pub after_store :
      GroupStore → Option Failure × Event × EventStore → (Event → GroupStore → GroupStore) → Done
  after_store g (some e, event, events) change = (some e, record g { events = events })
  after_store g (none, event, events) change = (none, change event (record g { events = events }))

  unfoldable pub add_member : String → ℕ → GroupStore → Done
  unfolding put_member clear_member_roles
  add_member h pubkey g =
      after_store g
        (sign_and_store_event g.events (membership_event x.kinds.put_user g h pubkey) true)
        (λ _ g'. clear_member_roles h pubkey (put_member h pubkey g'))

  unfoldable pub remove_member : String → ℕ → GroupStore → Done
  unfolding drop_member clear_member_roles
  remove_member h pubkey g =
      after_store g
        (sign_and_store_event g.events (membership_event x.kinds.remove_user g h pubkey) true)
        (λ _ g'. clear_member_roles h pubkey (drop_member h pubkey g'))
