-- ===== src/Management/Api.antt =====
-- The lists and the guard of the management API in zooid/management.go.
use unicity_relay.Prelude.{
  if◌then◌else◌, string_eq, nat_eq, get_elem?, ℕ, String, not, Option, none, some, List, [], ◌∷◌,
  map,
}
use unicity_relay.Nostr.{Tag, value_of, Externals}
use unicity_relay.Config.{Config, can_manage}
use unicity_relay.Events.Store.{get_or_create_application_data}
use unicity_relay.Management.Store.{
  ManagementStore, banned_pubkeys_data, banned_events_data, get_members,
}

-- `nip86.IDReason` and `nip86.PubKeyReason`.
abbrev pub Item : Type 0
Item = ℕ × String

pub data ApiRefusal : Type 0 where
  not_authenticated only_relay_admins : ApiRefusal

-- An item before those of the other tags, if they can be read.
abbrev pub item_before : Option ℕ → Option String → Option (List Item) → Option (List Item)
item_before id reason none = none
item_before none reason (some items) = some items
item_before (some id) none (some items) = none
item_before (some id) (some reason) (some items) = some ((id, reason) ∷ items)

module _ ⦃x : Externals⦄ where
  -- The loops over the tags; `tag[2]` of a tag with two elements panics.
  unfoldable pub event_items : List Tag → Option (List Item)
  event_items [] = some []
  event_items (tag ∷ tags) =
      item_before (x.id_from_hex (value_of tag)) (get_elem? tag 2) (event_items tags)

  unfoldable pub get_banned_event_items : ManagementStore → Option (List Item)
  unfolding event_items
  get_banned_event_items m =
      if m.caches_warmed
      then some m.banned_events
      else event_items
          (x.find_all (get_or_create_application_data m.events banned_events_data).tags "event")

  -- `MustPubKeyFromHex` panics on a text that is no key.
  abbrev pub pubkey_item : Option ℕ → Option String → Option (List Item) → Option (List Item)
  pubkey_item none reason items = none
  pubkey_item (some pubkey) reason items = item_before (some pubkey) reason items

  unfoldable pub pubkey_items : List Tag → Option (List Item)
  pubkey_items [] = some []
  pubkey_items (tag ∷ tags) =
      pubkey_item (x.pub_key_from_hex (value_of tag)) (get_elem? tag 2) (pubkey_items tags)

  unfoldable pub get_banned_pubkey_items : ManagementStore → Option (List Item)
  unfolding pubkey_items
  get_banned_pubkey_items m =
      if m.caches_warmed
      then some m.banned_pubkeys
      else pubkey_items
          (x.find_all (get_or_create_application_data m.events banned_pubkeys_data).tags "banned")

  unfoldable pub get_allowed_pubkey_items : ManagementStore → List Item
  get_allowed_pubkey_items m = map (λ pubkey. (pubkey, "relay member")) (get_members m)

  -- `OnAPICall`; the argument is the authenticated key.
  unfoldable pub on_api_call : Config → Option ℕ → Option ApiRefusal
  on_api_call config none = some not_authenticated
  on_api_call config (some pubkey) =
      if not (can_manage config pubkey) then some only_relay_admins else none
