-- ===== src/Management/Store.antt =====
-- The state and the operations of `ManagementStore` in zooid/management.go. A read of a tag beyond its
-- end panics in Go: such operations are `none` there.
use unicity_relay.Prelude.{
  leb, if◌then◌else◌, is_some, string_eq, nat_eq, ◌==◌, length, select, every, contains, add,
  remove, Map, lookup, insert, delete, ℕ, String, Bool, true, false, not, ◌&&◌, Option, none, some,
  List, [], ◌∷◌, ◌++◌, map,
}
use unicity_relay.Nostr.{Tag, Event, no_filter, value_of, Externals}
use unicity_relay.Config.{Config}
use unicity_relay.Events.Store.{
  Failure, EventStore, delete_event, query_events, unsigned, sign_and_store_event,
  get_or_create_application_data, get_or_create_relay_members_list,
}

pub record ManagementStore : Type 0 where
  pub events : EventStore
  pub relay_members : List ℕ
  pub banned_pubkeys : Map ℕ String
  pub banned_events : Map ℕ String
  pub caches_warmed : Bool

-- The error, `none` for nil, and the store.
abbrev pub Managed : Type 0
Managed = Option Failure × ManagementStore

abbrev pub managed_config : ManagementStore → Config
managed_config m = m.events.config

abbrev pub banned_pubkeys_data : String
banned_pubkeys_data = "zooid/banned_pubkeys"

abbrev pub banned_events_data : String
banned_events_data = "zooid/banned_events"

abbrev pub relay_add_member : ℕ
relay_add_member = 8000

abbrev pub relay_remove_member : ℕ
relay_remove_member = 8001

abbrev pub relay_invite : ℕ
relay_invite = 28935

-- `if err := …; err != nil { return err }`, and what follows.
infixl 5 ◌and_then◌
abbrev pub ◌and_then◌ : Managed → (ManagementStore → Managed) → Managed
(some e, m) and_then rest = (some e, m)
(none, m) and_then rest = rest m

-- An event with its time and tags replaced.
abbrev pub retagged : Event → ℕ → List Tag → Event
retagged event now tags = record event { created_at = now; tags = tags }

-- `len(t) >= 2 && t[1] != value`
abbrev pub has_other_value : String → Tag → Bool
has_other_value value tag = leb 2 (length tag) && not (value_of tag == value)

module _ ⦃x : Externals⦄ where
  abbrev pub saved : ManagementStore → Event → Bool → Managed
  saved m event broadcast =
      let (e, _, events) = sign_and_store_event m.events event broadcast in
      (e, record m { events = events })

  -- The keys of the members list.
  unfoldable pub listed_members : List Tag → List ℕ
  listed_members [] = []
  listed_members (tag ∷ tags) = elim (x.pub_key_from_hex (value_of tag)) [
    | none ↦ listed_members tags
    | some key ↦ key ∷ listed_members tags
  ]

  abbrev pub lists_value : List Tag → String → ℕ → Bool
  lists_value tags key pubkey = is_some (x.find_with_value tags key (x.hex pubkey))

  unfoldable pub get_members : ManagementStore → List ℕ
  unfolding listed_members
  get_members m =
      if m.caches_warmed
      then m.relay_members
      else listed_members (x.find_all (get_or_create_relay_members_list m.events).tags "member")

  unfoldable pub is_member : ManagementStore → ℕ → Bool
  is_member m pubkey =
      if m.caches_warmed
      then contains m.relay_members pubkey
      else lists_value (get_or_create_relay_members_list m.events).tags "member" pubkey

  unfoldable pub pubkey_is_banned : ManagementStore → ℕ → Bool
  pubkey_is_banned m pubkey =
      if m.caches_warmed
      then is_some (lookup m.banned_pubkeys pubkey)
      else lists_value (get_or_create_application_data m.events banned_pubkeys_data).tags "banned"
          pubkey

  unfoldable pub event_is_banned : ManagementStore → ℕ → Bool
  event_is_banned m id =
      if m.caches_warmed
      then is_some (lookup m.banned_events id)
      else lists_value (get_or_create_application_data m.events banned_events_data).tags "event" id

  -- The event that announces a member's coming or going.
  abbrev pub member_event : ManagementStore → ℕ → ℕ → Event
  member_event m kind pubkey =
      unsigned kind m.events.clock (("-" ∷ []) ∷ ("p" ∷ x.hex pubkey ∷ []) ∷ []) ""

  -- The operations below, down to the line that changes the cache.

  -- The two events of a key that joins.
  unfoldable pub publish_addition : ℕ → ManagementStore → Managed
  publish_addition pubkey m =
      let list = get_or_create_relay_members_list m.events in
      if lists_value list.tags "member" pubkey
      then (none, m)
      else saved m (member_event m relay_add_member pubkey) true and_then λ m₁.
          saved m₁
            (retagged list m₁.events.clock (list.tags ++ ("member" ∷ x.hex pubkey ∷ []) ∷ [])) true

  unfoldable pub add_member : ℕ → ManagementStore → Managed
  unfolding publish_addition
  add_member pubkey m = publish_addition pubkey m and_then λ m₂.
      (none, record m₂ { relay_members = add pubkey m₂.relay_members })

  unfoldable pub publish_removal : ℕ → ManagementStore → Managed
  publish_removal pubkey m =
      let list = get_or_create_relay_members_list m.events in
      if lists_value list.tags "member" pubkey
      then saved m (member_event m relay_remove_member pubkey) true and_then (λ m₁.
        saved m₁ (retagged list m₁.events.clock (select (has_other_value (x.hex pubkey)) list.tags))
          true)
      else (none, m)

  unfoldable pub remove_member : ℕ → ManagementStore → Managed
  unfolding publish_removal
  remove_member pubkey m = publish_removal pubkey m and_then λ m₂.
      (none, record m₂ { relay_members = remove pubkey m₂.relay_members })

  unfoldable pub publish_ban : ℕ → String → ManagementStore → Managed
  publish_ban pubkey reason m =
      let event = get_or_create_application_data m.events banned_pubkeys_data in
      if lists_value event.tags "banned" pubkey
      then (none, m)
      else saved m
          (retagged event m.events.clock
            (event.tags ++ ("banned" ∷ x.hex pubkey ∷ reason ∷ []) ∷ []))
          false

  unfoldable pub add_banned_pubkey : ℕ → String → ManagementStore → Managed
  unfolding publish_ban
  add_banned_pubkey pubkey reason m = publish_ban pubkey reason m and_then λ m₁.
      (none, record m₁ { banned_pubkeys = insert pubkey reason m₁.banned_pubkeys })

  unfoldable pub publish_pardon : ℕ → ManagementStore → Managed
  publish_pardon pubkey m =
      let event = get_or_create_application_data m.events banned_pubkeys_data in
      if lists_value event.tags "banned" pubkey
      then saved m
          (retagged event m.events.clock (select (has_other_value (x.hex pubkey)) event.tags)) false
      else (none, m)

  unfoldable pub remove_banned_pubkey : ℕ → ManagementStore → Managed
  unfolding publish_pardon
  remove_banned_pubkey pubkey m = publish_pardon pubkey m and_then λ m₁.
      (none, record m₁ { banned_pubkeys = delete pubkey m₁.banned_pubkeys })

  -- The deletions of `BanPubkey`, their errors ignored.
  unfoldable pub delete_ids : List ℕ → EventStore → EventStore
  delete_ids [] st = st
  delete_ids (id ∷ ids) st = delete_ids ids (delete_event st id).1

  unfoldable pub purge : ℕ → ManagementStore → ManagementStore
  unfolding delete_ids
  purge pubkey m = record m {
    events =
        delete_ids
          (map (λ event. event.id)
            (query_events m.events (record no_filter { authors = pubkey ∷ [] }) 0))
          m.events;
  }

  unfoldable pub ban_pubkey : ℕ → String → ManagementStore → Managed
  unfolding remove_member add_banned_pubkey purge
  ban_pubkey pubkey reason m =
      remove_member pubkey m and_then (λ m₁. add_banned_pubkey pubkey reason m₁) and_then λ m₂.
      (none, purge pubkey m₂)

  unfoldable pub allow_pubkey : ℕ → ManagementStore → Managed
  unfolding add_member remove_banned_pubkey
  allow_pubkey pubkey m = add_member pubkey m and_then λ m₁. remove_banned_pubkey pubkey m₁

  abbrev pub deleted : ManagementStore → ℕ → Managed
  deleted m id = let (e, events) = delete_event m.events id in (e, record m { events = events })

  unfoldable pub ban_event : ℕ → String → ManagementStore → Managed
  ban_event id reason m =
      deleted m id
      and_then (λ m₁.
          let event = get_or_create_application_data m₁.events banned_events_data in
          saved m₁
            (retagged event m₁.events.clock (event.tags ++ ("event" ∷ x.hex id ∷ reason ∷ []) ∷ []))
            false)
      and_then λ m₂. (none, record m₂ { banned_events = insert id reason m₂.banned_events })

  -- `t[1]` of a tag with one element panics.
  unfoldable pub allow_event : ℕ → ManagementStore → Option Managed
  allow_event id m =
      let event = get_or_create_application_data m.events banned_events_data in
      if every (λ tag. leb 2 (length tag)) event.tags
      then some (
          saved m
            (retagged event m.events.clock
              (select (λ tag. not (value_of tag == x.hex id)) event.tags))
            false
          and_then λ m₁. (none, record m₁ { banned_events = delete id m₁.banned_events }))
      else none
