-- ===== src/Management/Start.antt =====
-- The caches that `WarmCaches` of zooid/management.go fills, against the members list in the database.
use unicity_relay.Prelude.{
  is_some, or_else, string_eq, nat_eq, ◌==◌, ==_iff, ==_refl, select, exists, first, exists_mono,
  contains, add, contains-add, Map, ℕ, String, ◌≡◌, refl, sym, ap, ◌∙◌, Bool, true, false, ◌&&◌,
  ◌||◌, Option, none, some, List, [], ◌∷◌, arith,
}
use unicity_relay.Nostr.{Tag, has_name, has_value, value_of, Externals}
use unicity_relay.Events.Store.{get_or_create_application_data, get_or_create_relay_members_list}
use unicity_relay.Management.Store.{
  ManagementStore, banned_pubkeys_data, banned_events_data, listed_members, is_member,
}
use unicity_relay.Management.Warm.{reasons, add_all, warmed, warm_caches}

contains-add_all :
    (keys members : List ℕ) (q : ℕ)
    → contains (add_all keys members) q ≡ (contains keys q || contains members q)
unfolding add_all contains
contains-add_all [] members q = refl
contains-add_all (key ∷ rest) members q =
    ground (arith, contains-add_all rest (add key members) q, contains-add key q members)

contains-nil : (q : ℕ) → contains [] q ≡ false
unfolding contains
contains-nil q = refl

is_some-first : (p : Tag → Bool) (tags : List Tag) → is_some (first p tags) ≡ exists p tags
unfolding first exists
is_some-first p [] = refl
is_some-first p (tag ∷ tags) = ground (arith, is_some-first p tags)

warmed-parts :
    (members : List ℕ) (m m' : ManagementStore) (pubkeys events : Option (Map ℕ String))
    → warmed members m pubkeys events ≡ some m'
    → (m'.relay_members ≡ members) × (m'.caches_warmed ≡ true)
warmed-parts members m m' none events h = cc
warmed-parts members m m' (some pubkeys) none h = cc
warmed-parts members m m' (some pubkeys) (some events) h = (
  ap (λ (o : Option ManagementStore). (or_else m' o).relay_members) (sym h),
  ap (λ (o : Option ManagementStore). (or_else m' o).caches_warmed) (sym h),
)

module _ ⦃x : Externals⦄ where
  -- The tag has the name and its value decodes to the key.
  abbrev pub lists_key : String → ℕ → Tag → Bool
  lists_key name q tag =
      has_name name tag
      && elim (x.pub_key_from_hex (value_of tag)) [ none ↦ false | some key ↦ key == q ]

  listed_members-lists :
      (tags : List Tag) (q : ℕ)
      → contains (listed_members (select (has_name "member") tags)) q
        ≡ exists (lists_key "member" q) tags
  unfolding listed_members select exists contains
  listed_members-lists [] q = refl
  listed_members-lists (tag ∷ tags) q = ground (arith, listed_members-lists tags q)

  has_value-lists :
      (q : ℕ) (tag : Tag)
      → has_value "member" (x.hex q) tag ≡ true
      → lists_key "member" q tag ≡ true
  has_value-lists q [] h = cc
  has_value-lists q (name ∷ []) h = cc
  has_value-lists q (name ∷ value ∷ rest) h = rw decoded (ground (arith, ==_refl q))
    where
      decoded : x.pub_key_from_hex value ≡ some q
      decoded =
          ap x.pub_key_from_hex ((==_iff value (x.hex q)).0 (ground arith))
          ∙ x.pub_key_from_hex-hex q

  -- After `WarmCaches` from empty caches the members are exactly the keys that the list of the
  -- database decodes to, so that whoever was a member by a search in the list is one by the cache.
  pub warm_caches-is_member :
      (m m' : ManagementStore) (q : ℕ)
      → m.caches_warmed ≡ false
      → m.relay_members ≡ []
      → warm_caches m ≡ some m'
      → let tags = (get_or_create_relay_members_list m.events).tags in
        (is_member m' q ≡ exists (lists_key "member" q) tags)
        × (is_member m q ≡ true → is_member m' q ≡ true)
  warm_caches-is_member m m' q cold empty h = (by_cache, λ is. by_cache ∙ found is)
    where
      tags : List Tag
      tags = (get_or_create_relay_members_list m.events).tags

      listed : List ℕ
      listed = listed_members (x.find_all tags "member")

      parts : (m'.relay_members ≡ add_all listed m.relay_members) × (m'.caches_warmed ≡ true)
      parts =
          warmed-parts (add_all listed m.relay_members) m m'
            (reasons x.pub_key_from_hex
              (x.find_all (get_or_create_application_data m.events banned_pubkeys_data).tags
                "banned")
              m.banned_pubkeys)
            (reasons x.id_from_hex
              (x.find_all (get_or_create_application_data m.events banned_events_data).tags "event")
              m.banned_events)
            (unfold warm_caches in h)

      by_cache : is_member m' q ≡ exists (lists_key "member" q) tags
      by_cache =
          unfold is_member in
          rw (parts.1, parts.0, empty)
            (contains-add_all listed [] q
              ∙ rw (x.find_all_lem tags "member")
                  (ground (arith, listed_members-lists tags q, contains-nil q)))

      searched : is_member m q ≡ is_some (first (has_value "member" (x.hex q)) tags)
      searched =
          unfold is_member in rw cold (ap is_some (x.find_with_value_lem tags "member" (x.hex q)))

      found : is_member m q ≡ true → exists (lists_key "member" q) tags ≡ true
      found is =
          exists_mono (has_value "member" (x.hex q)) (lists_key "member" q) tags (has_value-lists q)
            (sym (searched ∙ is_some-first (has_value "member" (x.hex q)) tags) ∙ is)
