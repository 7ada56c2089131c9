-- ===== src/Tests/Demo.antt =====
-- A relay with two keys: 1 is the owner, 9 the relay's own. The libraries around it are small functions
-- with the documented behaviour.
use unicity_relay.Tests.Sorting.{newest_first, exists-newest_first, Descending-newest_first}
use unicity_relay.Prelude.{
  ltb, leb, if◌then◌else◌, or_else, string_eq, nat_eq, ◌==◌, get_elem?, select, exists, first,
  contains, ℕ, zero, suc, ◌+◌, String, ◌≡◌, refl, ap, Bool, true, false, ◌&&◌, Option, none, some,
  List, [], ◌∷◌,
}
use unicity_relay.Nostr.{Tag, Event, Kinds, has_name, has_value, value_of, Externals}
use unicity_relay.Config.{Config}
use unicity_relay.Events.Store.{EventStore}
use unicity_relay.Groups.State.{GroupMeta, GroupStore}
use unicity_relay.Management.Store.{ManagementStore}
use unicity_relay.Instance.State.{Instance}

-- A key as a text: as many letters.
abbrev pub letters : ℕ → String
letters zero = String.[]
letters (suc n) = String.◌∷◌ "a" (letters n)

abbrev pub size : String → ℕ
size String.[] = 0
size (String.◌∷◌ c s) = suc (size s)

pub size-letters : (n : ℕ) → size (letters n) ≡ n
size-letters zero = refl
size-letters (suc n) = ap suc (size-letters n)

abbrev pub demo_kinds : Kinds
demo_kinds = record {
  application_data = 30078;
  zap = 9735;
  gift_wrap = 1059;
  put_user = 9000;
  remove_user = 9001;
  edit_metadata = 9002;
  create_group = 9007;
  delete_group = 9008;
  join_request = 9021;
  leave_request = 9022;
  metadata = 39000;
  admins = 39001;
  members = 39002;
  metadata_kinds = 39000 ∷ 39001 ∷ 39002 ∷ 39003 ∷ [];
  moderation_kinds = 9000 ∷ 9001 ∷ 9002 ∷ 9005 ∷ 9007 ∷ 9008 ∷ 9009 ∷ [];
}

-- The content that makes a group private; any other text is no object.
abbrev pub private_text : String
private_text = "{private}"

abbrev pub demo_object : String → Option (String → Option Bool)
demo_object text =
    if text == private_text
    then some (λ key. if key == "private" then some true else none)
    else none

instance abbrev pub demo : Externals
demo = record {
  kinds = demo_kinds;
  hex = letters;
  pub_key_from_hex = λ s. some (size s);
  pub_key_from_hex-hex = λ key. ap some (size-letters key);
  id_from_hex = λ s. some (size s);
  find = λ tags key. first (has_name key) tags;
  find_lem = λ tags key. refl;
  find_all = λ tags key. select (has_name key) tags;
  find_all_lem = λ tags key. refl;
  find_with_value = λ tags key value. first (has_value key value) tags;
  find_with_value_lem = λ tags key value. refl;
  get_d = λ tags. value_of (or_else [] (first (has_name "d") tags));
  matches = λ filter event. contains filter.kinds event.kind;
  public = λ secret. secret;
  sign = λ secret event.
      some (record event { pubkey = secret; id = event.kind + event.created_at; sig = 1 });
  is_replaceable = λ kind. leb 10000 kind && ltb kind 20000;
  is_addressable = λ kind. leb 30000 kind && ltb kind 40000;
  json_object = demo_object;
  itoa = letters;
  matches_search = λ text event. true;
  order = newest_first;
  order-Descending = Descending-newest_first;
  exists-order = exists-newest_first;
}

abbrev pub owner_key : ℕ
owner_key = 1

abbrev pub relay_key : ℕ
relay_key = 9

-- The owner and the relay manage; members are enough to read, and only admins create private groups.
abbrev pub demo_config : Config
demo_config = record {
  host = "relay.example";
  schema = "demo";
  owner = owner_key;
  policy = record { open_access = false; public_join = false; strip_signatures = true };
  groups = record {
    enabled = true;
    auto_join = false;
    admin_create_only = false;
    private_admin_only = true;
    private_relay_admin_access = false;
    retention = record { default = []; groups = none };
  };
  roles = [];
  secret = relay_key;
}

abbrev pub event_of : ℕ → ℕ → List Tag → Event
event_of kind pubkey tags = record {
  id = 7;
  created_at = 50;
  kind = kind;
  pubkey = pubkey;
  tags = tags;
  content = "";
  sig = 3;
}

abbrev pub empty_store : EventStore
empty_store = record {
  config = demo_config;
  database = record { rows = []; tag_rows = [] };
  clock = 100;
  plan = [];
  scan = λ filter. none;
  max_attempts = 5;
  base_backoff = 50;
  broadcasts = [];
}

abbrev pub group_tags : List Tag
group_tags = ("h" ∷ "g" ∷ []) ∷ []

abbrev pub meta_of : List Tag → GroupMeta
meta_of flags = record {
  event = event_of 39000 relay_key (("d" ∷ "g" ∷ []) ∷ flags);
  found = true;
  is_private = exists (has_flag "private") flags;
  is_hidden = exists (has_flag "hidden") flags;
  is_closed = exists (has_flag "closed") flags;
  is_write_restricted = exists (has_flag "write-restricted") flags;
}
  where
    has_flag : String → Tag → Bool
    has_flag name tag = or_else "" (get_elem? tag 0) == name

-- A relay with the group "g" of these flags: 2 has created it, 2 and 3 are its members, 3 may write.
abbrev pub groups_of : List Tag → GroupStore
groups_of flags = record {
  events = empty_store;
  metadata_cache = ("g", meta_of flags) ∷ [];
  membership_cache = ("g", 2 ∷ 3 ∷ []) ∷ [];
  role_cache = ("g", (3, "writer" ∷ []) ∷ []) ∷ [];
  creator_cache = ("g", 2) ∷ [];
  caches_warmed = true;
  membership_fully_loaded = "g" ∷ [];
  debounce_delay = 200;
  debounce_pending = [];
}

abbrev pub open_group : GroupStore
open_group = groups_of []

-- 1 and 3 are members of the relay, 6 is banned.
abbrev pub managed : ManagementStore
managed = record {
  events = empty_store;
  relay_members = 1 ∷ 3 ∷ [];
  banned_pubkeys = (6, "spam") ∷ [];
  banned_events = [];
  caches_warmed = true;
}

abbrev pub demo_instance : Instance
demo_instance = record { groups = open_group; management = managed }
