-- ===== src/Management/Lists.antt =====
-- What the operations of zooid/management.go on one member or one ban change in the caches.
use unicity_relay.Prelude.{
  if◌then◌else◌, string_eq, nat_eq, select, add, remove, Map, insert, delete, ℕ, String, ◌≡◌, refl,
  ap, ◌∙◌, subst, Bool, true, false, none, some, List, [], ◌∷◌, ◌++◌,
}
use unicity_relay.Nostr.{Event, Externals}
use unicity_relay.Events.Store.{
  Failure, get_or_create_application_data, get_or_create_relay_members_list,
}
use unicity_relay.Management.Store.{
  ManagementStore, Managed, banned_pubkeys_data, relay_add_member, relay_remove_member, ◌and_then◌,
  retagged, has_other_value, saved, lists_value, member_event, publish_addition, add_member,
  publish_removal, remove_member, publish_ban, add_banned_pubkey, publish_pardon,
  remove_banned_pubkey,
}

pub and_then-ok :
    (r : Managed) (rest : ManagementStore → Managed) {m' : ManagementStore}
    → (r and_then rest) ≡ (none, m')
    → (m₁ : ManagementStore) × (r ≡ (none, m₁)) × (rest m₁ ≡ (none, m'))
and_then-ok (none, m₁) rest h = (m₁, refl, h)
and_then-ok (some e, m₁) rest h = absurd (some_is-none e (ap (λ (r : Managed). r.0) h))
  where
    some_is-none : (f : Failure) → some f ≡ none → ⊥
    some_is-none f h = cc

pub state_of : (m m' : ManagementStore) → ◌≡◌ {A = Managed} (none, m) (none, m') → m ≡ m'
state_of m m' h = ap (λ (r : Managed). r.1) h

-- The caches are equal; the events behind them may differ.
pub record SameLists (m m' : ManagementStore) : Type 0 where
  pub members : m'.relay_members ≡ m.relay_members
  pub bans : m'.banned_pubkeys ≡ m.banned_pubkeys
  pub event_bans : m'.banned_events ≡ m.banned_events
  pub warmed : m'.caches_warmed ≡ m.caches_warmed

SameLists-refl : (m : ManagementStore) → SameLists m m
SameLists-refl m = record { members = refl; bans = refl; event_bans = refl; warmed = refl }

SameLists-trans : {a b c : ManagementStore} → SameLists a b → SameLists b c → SameLists a c
SameLists-trans p q = record {
  members = q.members ∙ p.members;
  bans = q.bans ∙ p.bans;
  event_bans = q.event_bans ∙ p.event_bans;
  warmed = q.warmed ∙ p.warmed;
}

module _ ⦃x : Externals⦄ where
  saved-SameLists :
      (m m' : ManagementStore) (event : Event) (b : Bool)
      → saved m event b ≡ (none, m')
      → SameLists m m'
  saved-SameLists m m' event b h =
      subst (SameLists m) (ap (λ (r : Managed). r.1) h)
        (record { members = refl; bans = refl; event_bans = refl; warmed = refl })

  -- One event or two are stored, or none.
  two_saved :
      (m m' : ManagementStore) (event : Event) (next : ManagementStore → Event) (b c : Bool)
      → (saved m event b and_then λ m₁. saved m₁ (next m₁) c) ≡ (none, m')
      → SameLists m m'
  two_saved m m' event next b c h =
      let (m₁, first_saved, then_saved) = and_then-ok (saved m event b) _ h in
      SameLists-trans (saved-SameLists m m₁ event b first_saved)
        (saved-SameLists m₁ m' (next m₁) c then_saved)

  if_listed :
      (m : ManagementStore) (listed : Bool) {a b : Managed}
      → ((m' : ManagementStore) → a ≡ (none, m') → SameLists m m')
      → ((m' : ManagementStore) → b ≡ (none, m') → SameLists m m')
      → (m' : ManagementStore) → (if listed then a else b) ≡ (none, m')
      → SameLists m m'
  if_listed m true p q = p
  if_listed m false p q = q

  unchanged : (m m' : ManagementStore) → ◌≡◌ {A = Managed} (none, m) (none, m') → SameLists m m'
  unchanged m m' h = subst (SameLists m) (state_of m m' h) (SameLists-refl m)

  -- The caches of `m'` are those of `m` with these members and bans.
  abbrev pub With : ManagementStore → List ℕ → Map ℕ String → ManagementStore → Type 0
  With m members bans m' =
      SameLists (record m { relay_members = members; banned_pubkeys = bans }) m'

  members-With :
      (f : List ℕ → List ℕ) (m m₁ m' : ManagementStore)
      → SameLists m m₁
      → ◌≡◌ {A = Managed} (none, record m₁ { relay_members = f m₁.relay_members }) (none, m')
      → With m (f m.relay_members) m.banned_pubkeys m'
  members-With f m m₁ m' same h =
      subst (With m (f m.relay_members) m.banned_pubkeys) (state_of _ m' h) (record {
        members = ap f same.members;
        bans = same.bans;
        event_bans = same.event_bans;
        warmed = same.warmed;
      })

  bans-With :
      (f : Map ℕ String → Map ℕ String) (m m₁ m' : ManagementStore)
      → SameLists m m₁
      → ◌≡◌ {A = Managed} (none, record m₁ { banned_pubkeys = f m₁.banned_pubkeys }) (none, m')
      → With m m.relay_members (f m.banned_pubkeys) m'
  bans-With f m m₁ m' same h =
      subst (With m m.relay_members (f m.banned_pubkeys)) (state_of _ m' h) (record {
        members = same.members;
        bans = ap f same.bans;
        event_bans = same.event_bans;
        warmed = same.warmed;
      })

  publish_addition-SameLists :
      (pubkey : ℕ) (m m' : ManagementStore)
      → publish_addition pubkey m ≡ (none, m')
      → SameLists m m'
  unfolding publish_addition
  publish_addition-SameLists pubkey m =
      let list = get_or_create_relay_members_list m.events in
      if_listed m (lists_value list.tags "member" pubkey) (unchanged m) (λ m' h.
        two_saved m m' (member_event m relay_add_member pubkey)
          (λ m₁. retagged list m₁.events.clock (list.tags ++ ("member" ∷ x.hex pubkey ∷ []) ∷ []))
          true true h)

  publish_removal-SameLists :
      (pubkey : ℕ) (m m' : ManagementStore) → publish_removal pubkey m ≡ (none, m') → SameLists m m'
  unfolding publish_removal
  publish_removal-SameLists pubkey m =
      let list = get_or_create_relay_members_list m.events in
      if_listed m (lists_value list.tags "member" pubkey)
        (λ m' h.
          two_saved m m' (member_event m relay_remove_member pubkey)
            (λ m₁.
              retagged list m₁.events.clock (select (has_other_value (x.hex pubkey)) list.tags))
            true true h)
        (unchanged m)

  publish_ban-SameLists :
      (pubkey : ℕ) (reason : String) (m m' : ManagementStore)
      → publish_ban pubkey reason m ≡ (none, m')
      → SameLists m m'
  unfolding publish_ban
  publish_ban-SameLists pubkey reason m =
      let event = get_or_create_application_data m.events banned_pubkeys_data in
      if_listed m (lists_value event.tags "banned" pubkey) (unchanged m) (λ m' h.
        saved-SameLists m m'
          (retagged event m.events.clock
            (event.tags ++ ("banned" ∷ x.hex pubkey ∷ reason ∷ []) ∷ []))
          false h)

  publish_pardon-SameLists :
      (pubkey : ℕ) (m m' : ManagementStore) → publish_pardon pubkey m ≡ (none, m') → SameLists m m'
  unfolding publish_pardon
  publish_pardon-SameLists pubkey m =
      let event = get_or_create_application_data m.events banned_pubkeys_data in
      if_listed m (lists_value event.tags "banned" pubkey)
        (λ m' h.
          saved-SameLists m m'
            (retagged event m.events.clock (select (has_other_value (x.hex pubkey)) event.tags))
            false h)
        (unchanged m)

  -- The last line of the two operations on members, and of the two on bans.
  change_members :
      (f : List ℕ → List ℕ) (m m' : ManagementStore) (r : Managed)
      → ((m₁ : ManagementStore) → r ≡ (none, m₁) → SameLists m m₁)
      → (r and_then λ m₂. (none, record m₂ { relay_members = f m₂.relay_members })) ≡ (none, m')
      → With m (f m.relay_members) m.banned_pubkeys m'
  change_members f m m' r keeps h =
      let (m₁, stored, last) =
        and_then-ok r (λ m₂. (none, record m₂ { relay_members = f m₂.relay_members })) h in
      members-With f m m₁ m' (keeps m₁ stored) last

  change_bans :
      (f : Map ℕ String → Map ℕ String) (m m' : ManagementStore) (r : Managed)
      → ((m₁ : ManagementStore) → r ≡ (none, m₁) → SameLists m m₁)
      → (r and_then λ m₂. (none, record m₂ { banned_pubkeys = f m₂.banned_pubkeys })) ≡ (none, m')
      → With m m.relay_members (f m.banned_pubkeys) m'
  change_bans f m m' r keeps h =
      let (m₁, stored, last) =
        and_then-ok r (λ m₂. (none, record m₂ { banned_pubkeys = f m₂.banned_pubkeys })) h in
      bans-With f m m₁ m' (keeps m₁ stored) last

  pub add_member-With :
      (pubkey : ℕ) (m m' : ManagementStore)
      → add_member pubkey m ≡ (none, m')
      → With m (add pubkey m.relay_members) m.banned_pubkeys m'
  add_member-With pubkey m m' h =
      change_members (add pubkey) m m' (publish_addition pubkey m)
        (publish_addition-SameLists pubkey m) (unfold add_member in h)

  pub remove_member-With :
      (pubkey : ℕ) (m m' : ManagementStore)
      → remove_member pubkey m ≡ (none, m')
      → With m (remove pubkey m.relay_members) m.banned_pubkeys m'
  remove_member-With pubkey m m' h =
      change_members (remove pubkey) m m' (publish_removal pubkey m)
        (publish_removal-SameLists pubkey m) (unfold remove_member in h)

  pub add_banned_pubkey-With :
      (pubkey : ℕ) (reason : String) (m m' : ManagementStore)
      → add_banned_pubkey pubkey reason m ≡ (none, m')
      → With m m.relay_members (insert pubkey reason m.banned_pubkeys) m'
  add_banned_pubkey-With pubkey reason m m' h =
      change_bans (insert pubkey reason) m m' (publish_ban pubkey reason m)
        (publish_ban-SameLists pubkey reason m) (unfold add_banned_pubkey in h)

  pub remove_banned_pubkey-With :
      (pubkey : ℕ) (m m' : ManagementStore)
      → remove_banned_pubkey pubkey m ≡ (none, m')
      → With m m.relay_members (delete pubkey m.banned_pubkeys) m'
  remove_banned_pubkey-With pubkey m m' h =
      change_bans (delete pubkey) m m' (publish_pardon pubkey m) (publish_pardon-SameLists pubkey m)
        (unfold remove_banned_pubkey in h)
