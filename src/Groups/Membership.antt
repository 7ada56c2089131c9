-- ===== src/Groups/Membership.antt =====
-- What `AddMember`, `RemoveMember` and the role operations of zooid/groups.go change, and what not.
use unicity_relay.Prelude.{
  if◌then◌else◌, Option-cases, is_some, or_else, string_eq, nat_eq, ◌==◌, ==_iff, contains, add,
  remove, contains-add, contains-remove, Map, lookup, insert, delete, lookup-insert, lookup-delete,
  ℕ, String, ◌≡◌, refl, ap, ◌∙◌, inl, inr, Bool, true, false, not, ◌&&◌, ◌||◌, Option, none, some,
  List, [], ◌∷◌, arith,
}
use unicity_relay.Nostr.{Tag, Event, value_of, Externals}
use unicity_relay.Events.Store.{Failure, EventStore}
use unicity_relay.Groups.State.{Roles, GroupStore, Done}
use unicity_relay.Groups.Members.{
  get_or_create_member_set, put_member, dropped, drop_member, cleared, clear_member_roles, role_map,
  set_member_roles, role_in, has_role, after_store, add_member, remove_member,
}

-- The cached member set of a group holds the key.
abbrev pub in_cache : GroupStore → String → ℕ → Bool
in_cache g h pubkey = contains (get_or_create_member_set g h) pubkey

pub same_members :
    (g g' : GroupStore) (k : String) (q : ℕ)
    → g'.membership_cache ≡ g.membership_cache
    → in_cache g' k q ≡ in_cache g k q
unfolding get_or_create_member_set
same_members g g' k q e =
    ap (λ (cache : Map String (List ℕ)). contains (or_else [] (lookup cache k)) q) e

pub put_member-in_cache :
    (h : String) (pubkey : ℕ) (g : GroupStore) (k : String) (q : ℕ)
    → in_cache (put_member h pubkey g) k q ≡ (h == k && pubkey == q || in_cache g k q)
unfolding put_member get_or_create_member_set
put_member-in_cache h pubkey g k q =
    let members = or_else [] (lookup g.membership_cache h) in
    rw (lookup-insert h k (add pubkey members) g.membership_cache)
      (ground (arith, contains-add pubkey q members, ==_iff h k, same_set h k))
  where
    same_set : (a b : String) → a ≡ b → lookup g.membership_cache a ≡ lookup g.membership_cache b
    same_set a b e = ap (λ (c : String). lookup g.membership_cache c) e

pub drop_member-in_cache :
    (h : String) (pubkey : ℕ) (g : GroupStore) (k : String) (q : ℕ)
    → in_cache (drop_member h pubkey g) k q ≡ (not (h == k && pubkey == q) && in_cache g k q)
unfolding drop_member get_or_create_member_set contains
drop_member-in_cache h pubkey g k q = elim (Option-cases (lookup g.membership_cache h)) [
  | inl missing ↦ rw (missing, dropped) (ground (arith, ==_iff h k, same_set h k))
  | inr (members, present) ↦
      rw (present, dropped)
        (rw (lookup-insert h k (remove pubkey members) g.membership_cache)
          (ground (arith, contains-remove pubkey q members, ==_iff h k, same_set h k)))
]
  where
    same_set : (a b : String) → a ≡ b → lookup g.membership_cache a ≡ lookup g.membership_cache b
    same_set a b e = ap (λ (c : String). lookup g.membership_cache c) e

clear-has_role :
    (h : String) (pubkey : ℕ) (g : GroupStore) (k : String) (q : ℕ) (role : String)
    → has_role (clear_member_roles h pubkey g) k q role
      ≡ (not (h == k && pubkey == q) && has_role g k q role)
unfolding clear_member_roles has_role
clear-has_role h pubkey g k q role = elim (Option-cases (lookup g.role_cache h)) [
  | inl missing ↦ rw (missing, cleared) (ground (arith, ==_iff h k, same_roles h k))
  | inr (roles, present) ↦
      rw (present, cleared)
        (rw (lookup-insert h k (delete pubkey roles) g.role_cache)
          (ground (arith, lookup-delete pubkey q roles, ==_iff h k, same_roles h k)))
]
  where
    same_roles : (a b : String) → a ≡ b → lookup g.role_cache a ≡ lookup g.role_cache b
    same_roles a b e = ap (λ (c : String). lookup g.role_cache c) e

role_map-contains :
    (roles : List String) (role : String) → contains (role_map roles) role ≡ contains roles role
unfolding role_map contains
role_map-contains [] role = refl
role_map-contains (r ∷ roles) role =
    ground (arith, contains-add r role (role_map roles), role_map-contains roles role)

role_in-insert :
    (pubkey q : ℕ) (names : List String) (old : Option Roles) (role : String)
    → role_in q role (some (insert pubkey names (or_else [] old)))
      ≡ (if pubkey == q then contains names role else role_in q role old)
unfolding lookup
role_in-insert pubkey q names none role = ground (arith, lookup-insert pubkey q names [])
role_in-insert pubkey q names (some roles) role = ground (arith, lookup-insert pubkey q names roles)

-- Setting the roles of a member gives exactly the listed roles and takes all others away, an empty
-- list takes all away, and the roles of everyone else, in every group, are as they were.
set_member_roles-has_role :
    (h : String) (pubkey : ℕ) (roles : List String) (g : GroupStore) (k : String) (q : ℕ)
    (role : String)
    → has_role (set_member_roles h pubkey roles g) k q role
      ≡ (if h == k && pubkey == q then contains roles role else has_role g k q role)
unfolding set_member_roles
set_member_roles-has_role h pubkey [] g k q role =
    clear-has_role h pubkey g k q role ∙ unfold contains in ground arith
set_member_roles-has_role h pubkey (r ∷ roles) g k q role =
    unfold has_role in
    rw
      (lookup-insert h k (insert pubkey (role_map (r ∷ roles)) (or_else [] (lookup g.role_cache h)))
        g.role_cache)
      (ground (
        arith,
        role_in-insert pubkey q (role_map (r ∷ roles)) (lookup g.role_cache h) role,
        role_map-contains (r ∷ roles) role,
        ==_iff h k,
        same_roles h k,
      ))
  where
    same_roles : (a b : String) → a ≡ b → lookup g.role_cache a ≡ lookup g.role_cache b
    same_roles a b e = ap (λ (c : String). lookup g.role_cache c) e

-- The caches of the two stores are equal; the event store behind them may differ.
pub record SameCaches (g g' : GroupStore) : Type 0 where
  pub metadata : g'.metadata_cache ≡ g.metadata_cache
  pub membership : g'.membership_cache ≡ g.membership_cache
  pub roles : g'.role_cache ≡ g.role_cache
  pub creators : g'.creator_cache ≡ g.creator_cache
  pub warmed : g'.caches_warmed ≡ g.caches_warmed
  pub loaded : g'.membership_fully_loaded ≡ g.membership_fully_loaded

-- A change of one member's membership: what the caches say of every group, key and role afterwards.
pub record Changed (h : String) (pubkey : ℕ) (present : Bool) (g g' : GroupStore) : Type 0 where
  pub members :
      (k : String) (q : ℕ)
      → in_cache g' k q ≡ (if h == k && pubkey == q then present else in_cache g k q)
  pub roles :
      (k : String) (q : ℕ) (role : String)
      → has_role g' k q role ≡ (not (h == k && pubkey == q) && has_role g k q role)
  pub kept :
      (k : String)
      → is_some (lookup g.membership_cache k) ≡ true
      → is_some (lookup g'.membership_cache k) ≡ true
  pub metadata : g'.metadata_cache ≡ g.metadata_cache
  pub creators : g'.creator_cache ≡ g.creator_cache
  pub warmed : g'.caches_warmed ≡ g.caches_warmed
  pub loaded : g'.membership_fully_loaded ≡ g.membership_fully_loaded

abbrev pub Outcomes : (GroupStore → GroupStore → Type 0) → GroupStore → Done → Type 0
Outcomes Success g (none, g') = Success g g'
Outcomes Success g (some e, g') = SameCaches g g'

put-kept :
    (h : String) (pubkey : ℕ) (g : GroupStore) (k : String)
    → is_some (lookup g.membership_cache k) ≡ true
    → is_some (lookup (put_member h pubkey g).membership_cache k) ≡ true
unfolding put_member
put-kept h pubkey g k e = rw lookup-insert (ground arith)

drop-kept :
    (h : String) (pubkey : ℕ) (g : GroupStore) (k : String)
    → is_some (lookup g.membership_cache k) ≡ true
    → is_some (lookup (drop_member h pubkey g).membership_cache k) ≡ true
unfolding drop_member
drop-kept h pubkey g k e = elim (Option-cases (lookup g.membership_cache h)) [
  | inl missing ↦ rw (missing, dropped) e
  | inr (members, present) ↦ rw (present, dropped) (rw lookup-insert (ground arith))
]

put-Changed :
    (h : String) (pubkey : ℕ) (g : GroupStore)
    → Changed h pubkey true g (clear_member_roles h pubkey (put_member h pubkey g))
unfolding put_member
put-Changed h pubkey g = record {
  members = λ k q. unfold clear_member_roles in put_member-in_cache h pubkey g k q ∙ ground arith;
  roles = λ k q role.
      clear-has_role h pubkey (put_member h pubkey g) k q role ∙ unfold put_member has_role in refl;
  kept = λ k e. unfold clear_member_roles in put-kept h pubkey g k e;
  metadata = unfold clear_member_roles put_member in refl;
  creators = unfold clear_member_roles put_member in refl;
  warmed = unfold clear_member_roles put_member in refl;
  loaded = unfold clear_member_roles put_member in refl;
}

drop-Changed :
    (h : String) (pubkey : ℕ) (g : GroupStore)
    → Changed h pubkey false g (clear_member_roles h pubkey (drop_member h pubkey g))
unfolding drop_member lookup get_or_create_member_set
drop-Changed h pubkey g = record {
  members = λ k q. unfold clear_member_roles in drop_member-in_cache h pubkey g k q ∙ ground arith;
  roles = λ k q role.
      clear-has_role h pubkey (drop_member h pubkey g) k q role
      ∙ unfold drop_member has_role in refl;
  kept = λ k e. unfold clear_member_roles in drop-kept h pubkey g k e;
  metadata = unfold clear_member_roles drop_member in refl;
  creators = unfold clear_member_roles drop_member in refl;
  warmed = unfold clear_member_roles drop_member in refl;
  loaded = unfold clear_member_roles drop_member in refl;
}

-- The events do not matter to what `Changed` compares.
Changed-events :
    {h : String} {pubkey : ℕ} {present : Bool} (g g' : GroupStore) (events : EventStore)
    → Changed h pubkey present (record g { events = events }) g'
    → Changed h pubkey present g g'
unfolding get_or_create_member_set has_role
Changed-events g g' events c = record {
  members = c.members;
  roles = c.roles;
  kept = c.kept;
  metadata = c.metadata;
  creators = c.creators;
  warmed = c.warmed;
  loaded = c.loaded;
}

SameCaches-events :
    (g : GroupStore) (events : EventStore) → SameCaches g (record g { events = events })
SameCaches-events g events = record {
  metadata = refl;
  membership = refl;
  roles = refl;
  creators = refl;
  warmed = refl;
  loaded = refl;
}

module _ ⦃x : Externals⦄ where
  -- The tag names the key.
  abbrev pub names_key : ℕ → Tag → Bool
  names_key q tag = elim (x.pub_key_from_hex (value_of tag)) [ none ↦ false | some key ↦ key == q ]

  after_store-Outcomes :
      (Success : GroupStore → GroupStore → Type 0) (g : GroupStore)
      (stored : Option Failure × Event × EventStore) (change : Event → GroupStore → GroupStore)
      → ((event : Event) (events : EventStore)
          → Success g (change event (record g { events = events })))
      → Outcomes Success g (after_store g stored change)
  after_store-Outcomes Success g (some e, event, events) change h = SameCaches-events g events
  after_store-Outcomes Success g (none, event, events) change h = h event events

  -- `AddMember` returns an error and leaves every cache as it was, or the key is now in the group's
  -- member set, without roles there; all other memberships and roles are as they were, and so are the
  -- metadata and the creators.
  pub add_member-Outcomes :
      (h : String) (pubkey : ℕ) (g : GroupStore)
      → Outcomes (Changed h pubkey true) g (add_member h pubkey g)
  unfolding add_member
  add_member-Outcomes h pubkey g =
      after_store-Outcomes (Changed h pubkey true) g _ _
        λ _ events. Changed-events g _ events (put-Changed h pubkey (record g { events = events }))

  -- `RemoveMember` returns an error and leaves every cache as it was, or the key is no longer in the
  -- group's member set and has no roles there; all other memberships and roles are as they were, and
  -- so are the metadata and the creators.
  pub remove_member-Outcomes :
      (h : String) (pubkey : ℕ) (g : GroupStore)
      → Outcomes (Changed h pubkey false) g (remove_member h pubkey g)
  unfolding remove_member
  remove_member-Outcomes h pubkey g =
      after_store-Outcomes (Changed h pubkey false) g _ _
        λ _ events. Changed-events g _ events (drop-Changed h pubkey (record g { events = events }))
