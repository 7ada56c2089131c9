-- ===== src/Management/Warm.antt =====
-- `WarmCaches` of zooid/management.go. A read beyond the end of a tag panics: `none`.
use unicity_relay.Prelude.{
  string_eq, nat_eq, get_elem?, add, Map, insert, keys, ℕ, String, true, Option, none, some, List,
  [], ◌∷◌,
}
use unicity_relay.Nostr.{Tag, value_of, Externals}
use unicity_relay.Events.Store.{get_or_create_application_data, get_or_create_relay_members_list}
use unicity_relay.Management.Store.{
  ManagementStore, banned_pubkeys_data, banned_events_data, listed_members,
}

-- The key and the text behind it of the tags that a cache is filled from.
unfoldable pub reasons : (String → Option ℕ) → List Tag → Map ℕ String → Option (Map ℕ String)
reasons from_hex [] m = some m
reasons from_hex (tag ∷ tags) m = elim (from_hex (value_of tag)) [
  | none ↦ reasons from_hex tags m
  | some key ↦ elim (get_elem? tag 2) [
    | none ↦ none
    | some reason ↦ reasons from_hex tags (insert key reason m)
  ]
]

-- The cache is a set: every listed key is put into it.
unfoldable pub add_all : List ℕ → List ℕ → List ℕ
add_all [] members = members
add_all (key ∷ keys) members = add_all keys (add key members)

abbrev pub warmed :
    List ℕ
    → ManagementStore
    → Option (Map ℕ String)
    → Option (Map ℕ String)
    → Option ManagementStore
warmed members m none events = none
warmed members m (some pubkeys) none = none
warmed members m (some pubkeys) (some events) = some (record m {
  relay_members = members;
  banned_pubkeys = pubkeys;
  banned_events = events;
  caches_warmed = true;
})

module _ ⦃x : Externals⦄ where
  unfoldable pub warm_caches : ManagementStore → Option ManagementStore
  unfolding reasons add_all listed_members
  warm_caches m =
      warmed
        (add_all
          (listed_members (x.find_all (get_or_create_relay_members_list m.events).tags "member"))
          m.relay_members)
        m
        (reasons x.pub_key_from_hex
          (x.find_all (get_or_create_application_data m.events banned_pubkeys_data).tags "banned")
          m.banned_pubkeys)
        (reasons x.id_from_hex
          (x.find_all (get_or_create_application_data m.events banned_events_data).tags "event")
          m.banned_events)
