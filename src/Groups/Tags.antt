-- ===== src/Groups/Tags.antt =====
-- What zooid/groups.go and zooid/util.go read from an event: group ids, flags in tags and in content,
-- invite codes.
use unicity_relay.Prelude.{
  if◌then◌else◌, ◌==◌, nat_eq, string_eq, exists, contains, String, Bool, false, Option, none, some,
  List, [], ◌∷◌,
}
use unicity_relay.Nostr.{Tag, Event, value_of, Externals}

abbrev pub is_named : String → Tag → Bool
is_named key [] = false
is_named key (name ∷ rest) = name == key

-- `HasTag`
unfoldable pub has_tag : List Tag → String → Bool
has_tag tags key = exists (is_named key) tags

-- `data[key].(bool)`, false for a member that is absent or no Boolean.
abbrev pub flag_of : Option Bool → Bool
flag_of none = false
flag_of (some b) = b

abbrev pub member_of : Option (String → Option Bool) → String → Bool
member_of none key = false
member_of (some object) key = flag_of (object key)

abbrev pub found_value : Option Tag → String
found_value none = ""
found_value (some tag) = value_of tag

module _ ⦃x : Externals⦄ where
  unfoldable pub is_write_restricted_group_content : String → Bool
  is_write_restricted_group_content content = member_of (x.json_object content) "write-restricted"

  unfoldable pub is_private_group_content : String → Bool
  is_private_group_content content = member_of (x.json_object content) "private"

  unfoldable pub get_group_id_from_event : Event → String
  get_group_id_from_event event =
      let tag_name = if contains x.kinds.metadata_kinds event.kind then "d" else "h" in
      found_value (x.find event.tags tag_name)

  unfoldable pub get_invite_code_from_event : Event → String
  get_invite_code_from_event event = found_value (x.find event.tags "code")
