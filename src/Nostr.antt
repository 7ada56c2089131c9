-- ===== src/Nostr.antt =====
-- The types of the nostr library that the relay's code stands on, and what the code calls of it, of
-- PostgreSQL and of the JSON decoder. These are not part of the repository: the functions are the
-- fields of `Externals`, with the documented behaviour that the code relies on.
use unicity_relay.Prelude.{
  or_else, ◌==◌, nat_eq, string_eq, get_elem?, select, exists, first, Map, ℕ, ◌≤◌, String, ◌≡◌,
  Bool, false, ◌&&◌, Option, some, List, [], ◌∷◌,
}

abbrev pub Tag : Type 0
Tag = List String

-- Public keys, event ids and signatures are big-endian numbers, so that `bytes.Compare` is their
-- order and the zero value is 0.
pub record Event : Type 0 where
  pub id : ℕ
  pub created_at : ℕ
  pub kind : ℕ
  pub pubkey : ℕ
  pub tags : List Tag
  pub content : String
  pub sig : ℕ

-- A query. A field that is empty or 0 does not restrict it.
pub record Filter : Type 0 where
  pub ids : List ℕ
  pub kinds : List ℕ
  pub authors : List ℕ
  pub tags : Map String (List String)
  pub since : ℕ
  pub until : ℕ
  pub limit : ℕ
  pub limit_zero : Bool
  pub search : String

-- `nostr.Filter{}`, for the literals of the code.
abbrev pub no_filter : Filter
no_filter = record {
  ids = [];
  kinds = [];
  authors = [];
  tags = [];
  since = 0;
  until = 0;
  limit = 0;
  limit_zero = false;
  search = "";
}

-- The kinds that the code names by the nostr library's constants and lists.
pub record Kinds : Type 0 where
  pub application_data : ℕ
  pub zap : ℕ
  pub gift_wrap : ℕ
  pub put_user : ℕ
  pub remove_user : ℕ
  pub edit_metadata : ℕ
  pub create_group : ℕ
  pub delete_group : ℕ
  pub join_request : ℕ
  pub leave_request : ℕ
  pub metadata : ℕ
  pub admins : ℕ
  pub members : ℕ
  pub metadata_kinds : List ℕ
  pub moderation_kinds : List ℕ

-- The tag has this name and a value behind it.
abbrev pub has_name : String → Tag → Bool
has_name key (name ∷ value ∷ rest) = name == key
has_name key (name ∷ []) = false
has_name key [] = false

-- The tag has this name and this value.
abbrev pub has_value : String → String → Tag → Bool
has_value key wanted (name ∷ value ∷ rest) = name == key && value == wanted
has_value key wanted (name ∷ []) = false
has_value key wanted [] = false

-- `tag[1]` of a tag that a search by name has found.
abbrev pub value_of : Tag → String
value_of tag = or_else "" (get_elem? tag 1)

-- Newest first.
abbrev pub Descending : List Event → Type 0
Descending [] = Unit {0}
Descending (e ∷ []) = Unit {0}
Descending (e ∷ f ∷ es) = (f.created_at ≤ e.created_at) × Descending (f ∷ es)

pub record Externals : Type 0 where
  pub kinds : Kinds
  -- nostr: hexadecimal keys and ids
  pub hex : ℕ → String
  pub pub_key_from_hex : String → Option ℕ
  pub pub_key_from_hex-hex : (key : ℕ) → pub_key_from_hex (hex key) ≡ some key
  pub id_from_hex : String → Option ℕ
  -- nostr: searches in tags
  pub find : List Tag → String → Option Tag
  pub find_lem : (tags : List Tag) (key : String) → find tags key ≡ first (has_name key) tags
  pub find_all : List Tag → String → List Tag
  pub find_all_lem :
      (tags : List Tag) (key : String) → find_all tags key ≡ select (has_name key) tags
  pub find_with_value : List Tag → String → String → Option Tag
  pub find_with_value_lem :
      (tags : List Tag) (key value : String)
      → find_with_value tags key value ≡ first (has_value key value) tags
  pub get_d : List Tag → String
  -- nostr: `Filter.Matches`
  pub matches : Filter → Event → Bool
  -- nostr: keys, signatures and the classes of kinds
  pub public : ℕ → ℕ
  pub sign : ℕ → Event → Option Event
  pub is_replaceable : ℕ → Bool
  pub is_addressable : ℕ → Bool
  -- encoding/json: the Boolean members of a text that decodes to an object
  pub json_object : String → Option (String → Option Bool)
  -- strconv.Itoa
  pub itoa : ℕ → String
  -- PostgreSQL: the full-text test, and ORDER BY created_at DESC, which leaves ties open
  pub matches_search : String → Event → Bool
  pub order : List Event → List Event
  pub order-Descending : (es : List Event) → Descending (order es)
  pub exists-order : (p : Event → Bool) (es : List Event) → exists p (order es) ≡ exists p es
