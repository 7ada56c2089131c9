-- ===== src/Groups/Flags.antt =====
-- The flags of a group, from the event that sets them to the cache, in zooid/groups.go.
pub mod Bypass
use unicity_relay.Prelude.{
  if◌then◌else◌, ◌==◌, nat_eq, string_eq, ==_iff, ==_refl, exists, exists-append, lookup,
  lookup-insert, String, ◌≡◌, refl, sym, ap, ◌∙◌, subst, Bool, true, false, ◌||◌, Option, none,
  some, List, [], ◌∷◌, ◌++◌, arith,
}
use unicity_relay.Nostr.{Tag, Event, Externals}
use unicity_relay.Events.Store.{Failure, EventStore}
use unicity_relay.Groups.Tags.{is_named, has_tag, member_of}
use unicity_relay.Groups.State.{GroupMeta, GroupStore, Done}
use unicity_relay.Groups.Members.{after_store}
use unicity_relay.Groups.Metadata.{
  metadata_tags, group_of_tags, content_tags, cache_entry, set_metadata, new_metadata_tags,
  update_metadata,
}

-- The loop of `UpdateMetadata` keeps the tags of every other name.
metadata_tags-has_tag :
    (key : String) (tags : List Tag)
    → (key == "h") ≡ false
    → (key == "d") ≡ false
    → (key == "member_count") ≡ false
    → has_tag (metadata_tags tags) key ≡ has_tag tags key
unfolding has_tag metadata_tags exists
metadata_tags-has_tag key [] a b c = refl
metadata_tags-has_tag key ([] ∷ tags) a b c = ground (arith, metadata_tags-has_tag key tags a b c)
metadata_tags-has_tag key ((name ∷ []) ∷ tags) a b c = ground (
  arith,
  metadata_tags-has_tag key tags a b c,
  ==_iff name key,
  ==_iff name "member_count",
  ==_iff key "member_count",
)
metadata_tags-has_tag key ((name ∷ value ∷ rest) ∷ tags) a b c = ground (
  arith,
  metadata_tags-has_tag key tags a b c,
  ==_iff name key,
  ==_iff key name,
  ==_iff name "member_count",
  ==_iff name "h",
  ==_iff "d" key,
  ==_iff key "d",
  ==_iff key "h",
  ==_iff key "member_count",
)

has_tag-append :
    (xs ys : List Tag) (key : String) → has_tag (xs ++ ys) key ≡ (has_tag xs key || has_tag ys key)
unfolding has_tag
has_tag-append xs ys key = exists-append (is_named key) xs ys

module _ ⦃x : Externals⦄ where
  -- The tags that the content gives.
  content_tags-has_tag :
      (content : String)
      → (has_tag (content_tags content) "private" ≡ member_of (x.json_object content) "private")
        × (has_tag (content_tags content) "hidden" ≡ member_of (x.json_object content) "hidden")
        × (has_tag (content_tags content) "closed" ≡ member_of (x.json_object content) "closed")
        × (has_tag (content_tags content) "write-restricted"
            ≡ member_of (x.json_object content) "write-restricted")
  unfolding content_tags has_tag exists
  content_tags-has_tag content = (ground arith, ground arith, ground arith, ground arith)

  -- The event sets the flag, by a tag of its own or by its content.
  abbrev pub sets_flag : Event → String → Bool
  sets_flag event key = has_tag event.tags key || member_of (x.json_object event.content) key

  count-has_tag :
      (tags : List Tag) (count key : String) (b : Bool)
      → (key == "member_count") ≡ false
      → has_tag (if b then tags ++ ("member_count" ∷ count ∷ []) ∷ [] else tags) key
        ≡ has_tag tags key
  count-has_tag tags count key true h =
      has_tag-append tags (("member_count" ∷ count ∷ []) ∷ []) key
      ∙ unfold has_tag exists in
        ground (arith, ==_iff "member_count" key, ==_iff key "member_count")
  count-has_tag tags count key false h = refl

  new_metadata_tags-has_tag :
      (g : GroupStore) (event : Event) (key : String)
      → (key == "h") ≡ false
      → (key == "d") ≡ false
      → (key == "member_count") ≡ false
      → has_tag (content_tags event.content) key ≡ member_of (x.json_object event.content) key
      → has_tag (new_metadata_tags g event) key ≡ sets_flag event key
  new_metadata_tags-has_tag g event key a b c content =
      unfold new_metadata_tags in
      count-has_tag (metadata_tags event.tags ++ content_tags event.content) _ key _ c
      ∙ has_tag-append (metadata_tags event.tags) (content_tags event.content) key
      ∙ ground (arith, content, metadata_tags-has_tag key event.tags a b c)

  -- What a successful `UpdateMetadata` leaves in the caches: the entry of the group has each flag
  -- exactly if the event sets it, and everything else is as it was.
  pub record Updated (h : String) (event : Event) (g g' : GroupStore) : Type 0 where
    pub entry : GroupMeta
    pub stored : lookup g'.metadata_cache h ≡ some entry
    pub found : entry.found ≡ true
    pub is_private : entry.is_private ≡ sets_flag event "private"
    pub is_hidden : entry.is_hidden ≡ sets_flag event "hidden"
    pub is_closed : entry.is_closed ≡ sets_flag event "closed"
    pub is_write_restricted : entry.is_write_restricted ≡ sets_flag event "write-restricted"
    pub others :
        (k : String) → (h == k) ≡ false → lookup g'.metadata_cache k ≡ lookup g.metadata_cache k
    pub membership : g'.membership_cache ≡ g.membership_cache
    pub roles : g'.role_cache ≡ g.role_cache
    pub creators : g'.creator_cache ≡ g.creator_cache
    pub warmed : g'.caches_warmed ≡ g.caches_warmed
    pub loaded : g'.membership_fully_loaded ≡ g.membership_fully_loaded

  set-Updated :
      (h : String) (event stored : Event) (g : GroupStore) (events : EventStore)
      → Updated h event g (
          set_metadata h
            (cache_entry stored (new_metadata_tags g event))
            (record g { events = events }))
  set-Updated h event stored g events =
      let (p, hid, clo, wr) = content_tags-has_tag event.content in
      record {
        entry = cache_entry stored (new_metadata_tags g event);
        stored = lookup-insert h h _ g.metadata_cache ∙ ground (arith, ==_refl h);
        found = refl;
        is_private = new_metadata_tags-has_tag g event "private" refl refl refl p;
        is_hidden = new_metadata_tags-has_tag g event "hidden" refl refl refl hid;
        is_closed = new_metadata_tags-has_tag g event "closed" refl refl refl clo;
        is_write_restricted =
            new_metadata_tags-has_tag g event "write-restricted" refl refl refl wr;
        others = λ k e. lookup-insert h k _ g.metadata_cache ∙ ground (arith, e);
        membership = refl;
        roles = refl;
        creators = refl;
        warmed = refl;
        loaded = refl;
      }

  after_store-none :
      (g g' : GroupStore) (stored : Option Failure × Event × EventStore)
      (change : Event → GroupStore → GroupStore)
      → after_store g stored change ≡ (none, g')
      → (event : Event) × (events : EventStore) × (g' ≡ change event (record g { events = events }))
  after_store-none g g' (none, event, events) change e =
      (event, events, sym (ap (λ (d : Done). d.1) e))
  after_store-none g g' (some f, event, events) change e =
      absurd (some_is-none f (ap (λ (d : Done). d.0) e))
    where
      some_is-none : (f : Failure) → some f ≡ none → ⊥
      some_is-none f e = cc

  -- The store that `UpdateMetadata` returns when the metadata event is stored.
  abbrev cached_metadata : Event → Event → GroupStore → EventStore → GroupStore
  cached_metadata event stored g events =
      if group_of_tags "" event.tags == ""
      then record g { events = events }
      else set_metadata (group_of_tags "" event.tags)
          (cache_entry stored (new_metadata_tags g event)) (record g { events = events })

  update_metadata-parts :
      (event : Event) (g g' : GroupStore)
      → update_metadata event g ≡ (none, g')
      → (stored : Event) × (events : EventStore) × (g' ≡ cached_metadata event stored g events)
  unfolding update_metadata
  update_metadata-parts event g g' e = after_store-none g g' _ _ e

  -- A successful `UpdateMetadata` for an event with a group gives the cached metadata of that group
  -- each of the four flags exactly if a tag of the event or its content sets it, and changes no other
  -- group's metadata, no membership, no role and no creator.
  pub update_metadata-Updated :
      (event : Event) (g g' : GroupStore)
      → (group_of_tags "" event.tags == "") ≡ false
      → update_metadata event g ≡ (none, g')
      → Updated (group_of_tags "" event.tags) event g g'
  update_metadata-Updated event g g' named e = conclude (update_metadata-parts event g g' e)
    where
      h : String
      h = group_of_tags "" event.tags

      conclude :
          (stored : Event) × (events : EventStore) × (g' ≡ cached_metadata event stored g events)
          → Updated h event g g'
      conclude (stored, events, same) =
          subst (Updated h event g) (sym (rw named at same)) (set-Updated h event stored g events)
