-- ===== src/Groups/Metadata.antt =====
-- Group metadata in zooid/groups.go: `GetMetadata`, `UpdateMetadata`, `RefreshMemberCount`, and the
-- questions about privacy, write restriction and the creator.
use unicity_relay.Prelude.{
  if◌then◌else◌, or_else, ◌==◌, nat_eq, string_eq, select, exists, lookup, insert, ℕ, String, Bool,
  true, false, not, ◌&&◌, ◌||◌, Option, none, some, List, [], ◌∷◌, ◌++◌,
}
use unicity_relay.Nostr.{Tag, Event, no_filter, has_name, has_value, value_of, Externals}
use unicity_relay.Events.Store.{query_events, unsigned, sign_and_store_event}
use unicity_relay.Groups.Tags.{is_named, has_tag, member_of}
use unicity_relay.Groups.State.{GroupMeta, GroupStore, Done}
use unicity_relay.Groups.Members.{get_member_count, after_store}

-- The loop over the tags of the event: `h` becomes `d`, and a member count is dropped.
unfoldable pub metadata_tag : Tag → List Tag
metadata_tag [] = [] ∷ []
metadata_tag (name ∷ []) = if name == "member_count" then [] else (name ∷ []) ∷ []
metadata_tag (name ∷ value ∷ rest) =
    if name == "h"
    then ("d" ∷ value ∷ []) ∷ []
    else if name == "member_count"
    then []
    else (name ∷ value ∷ rest) ∷ []

unfoldable pub metadata_tags : List Tag → List Tag
unfolding metadata_tag
metadata_tags [] = []
metadata_tags (tag ∷ tags) = metadata_tag tag ++ metadata_tags tags

-- The group that the same loop finds: the value of the last `h` tag.
unfoldable pub group_of_tags : String → List Tag → String
group_of_tags h [] = h
group_of_tags h (tag ∷ tags) = group_of_tags (if has_name "h" tag then value_of tag else h) tags

abbrev pub flag_tag : Bool → String → List Tag
flag_tag true name = (name ∷ []) ∷ []
flag_tag false name = []

-- The visibility tags of a content that decodes to an object.
unfoldable pub content_tags : ⦃x : Externals⦄ → String → List Tag
content_tags ⦃x⦄ content =
    let object = x.json_object content in
    flag_tag (member_of object "private") "private"
    ++ (flag_tag (member_of object "closed") "closed"
        ++ (flag_tag (member_of object "hidden") "hidden"
            ++ flag_tag (member_of object "write-restricted") "write-restricted"))

-- The cache entry of a stored metadata event with these tags.
abbrev pub cache_entry : Event → List Tag → GroupMeta
cache_entry event tags = record {
  event = event;
  found = true;
  is_private = has_tag tags "private";
  is_hidden = has_tag tags "hidden";
  is_closed = has_tag tags "closed";
  is_write_restricted = has_tag tags "write-restricted";
}

abbrev pub set_metadata : String → GroupMeta → GroupStore → GroupStore
set_metadata h meta g = record g { metadata_cache = insert h meta g.metadata_cache }

abbrev pub head? {ℓ} : {A : Type ℓ} → List A → Option A
head? [] = none
head? (a ∷ rest) = some a

abbrev pub cached_event : Option GroupMeta → Option Event
cached_event none = none
cached_event (some meta) = if meta.found then some meta.event else none

abbrev pub cached_private : Option GroupMeta → Bool
cached_private none = false
cached_private (some meta) = meta.is_private

abbrev pub cached_write_restricted : Option GroupMeta → Bool
cached_write_restricted none = false
cached_write_restricted (some meta) = meta.is_write_restricted

abbrev pub event_flag : String → Option Event → Bool
event_flag flag none = false
event_flag flag (some event) = has_tag event.tags flag

abbrev pub pubkey_or_zero : Option Event → ℕ
pubkey_or_zero none = 0
pubkey_or_zero (some event) = event.pubkey

-- The tag shows this count.
abbrev pub shows_count : String → Tag → Bool
shows_count count tag = has_value "member_count" count tag

module _ ⦃x : Externals⦄ where
  -- The event, if it is found.
  unfoldable pub get_metadata : GroupStore → String → Option Event
  get_metadata g h =
      if g.caches_warmed
      then cached_event (lookup g.metadata_cache h)
      else head? (
          query_events g.events
            (record no_filter { kinds = x.kinds.metadata ∷ []; tags = ("d", h ∷ []) ∷ [] }) 1)

  -- The tags of the new metadata event; the count stays hidden for a private group.
  unfoldable pub new_metadata_tags : GroupStore → Event → List Tag
  unfolding metadata_tags group_of_tags content_tags has_tag
  new_metadata_tags g event =
      let h = group_of_tags "" event.tags in
      let tags = metadata_tags event.tags ++ content_tags event.content in
      if not (h == "") && not (has_tag tags "private")
      then tags ++ ("member_count" ∷ x.itoa (get_member_count g h) ∷ []) ∷ []
      else tags

  unfoldable pub update_metadata : Event → GroupStore → Done
  unfolding new_metadata_tags
  update_metadata event g =
      let h = group_of_tags "" event.tags in
      let tags = new_metadata_tags g event in
      after_store g
        (sign_and_store_event g.events
          (unsigned x.kinds.metadata event.created_at tags event.content) true)
        (λ stored g'. if h == "" then g' else set_metadata h (cache_entry stored tags) g')

  unfoldable pub refreshed : String → GroupMeta → GroupStore → Done
  refreshed h cached g =
      let count = x.itoa (get_member_count g h) in
      let tags =
        select (λ tag. not (is_named "member_count" tag)) cached.event.tags
        ++ ("member_count" ∷ count ∷ []) ∷ [] in
      if cached.is_private || exists (shows_count count) cached.event.tags
      then (none, g)
      else after_store g
          (sign_and_store_event g.events
            (unsigned x.kinds.metadata g.events.clock tags cached.event.content) true)
          (λ stored g'. set_metadata h (record cached { event = stored; found = true }) g')

  unfoldable pub refresh_member_count : String → GroupStore → Done
  unfolding refreshed
  refresh_member_count h g = elim (lookup g.metadata_cache h) [
    | none ↦ (none, g)
    | some cached ↦ refreshed h cached g
  ]

  unfoldable pub is_private_group : GroupStore → String → Bool
  unfolding get_metadata has_tag
  is_private_group g h =
      if g.caches_warmed
      then cached_private (lookup g.metadata_cache h)
      else event_flag "private" (get_metadata g h)

  unfoldable pub is_write_restricted : GroupStore → String → Bool
  unfolding get_metadata has_tag
  is_write_restricted g h =
      if g.caches_warmed
      then cached_write_restricted (lookup g.metadata_cache h)
      else event_flag "write-restricted" (get_metadata g h)

  unfoldable pub get_group_creator : GroupStore → String → ℕ
  get_group_creator g h =
      if g.caches_warmed
      then or_else 0 (lookup g.creator_cache h)
      else pubkey_or_zero (
          head? (
            query_events g.events
              (record no_filter { kinds = x.kinds.create_group ∷ []; tags = ("h", h ∷ []) ∷ [] })
              1))

  unfoldable pub is_group_creator : GroupStore → String → ℕ → Bool
  unfolding get_group_creator
  is_group_creator g h pubkey = get_group_creator g h == pubkey
