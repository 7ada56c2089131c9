-- ===== src/Config.antt =====
-- zooid/config.go: the relay's configuration, the roles, and what they permit.
pub mod Retention
pub mod Rights
use unicity_relay.Prelude.{
  if◌then◌else◌, ◌==◌, nat_eq, string_eq, exists, contains, Map, ℕ, String, Bool, true, ◌||◌,
  Option, List, [], ◌∷◌,
}
use unicity_relay.Nostr.{Externals}

pub record Role : Type 0 where
  pub pubkeys : List String
  pub can_invite : Bool
  pub can_manage : Bool

pub record Policy : Type 0 where
  pub open_access : Bool
  pub public_join : Bool
  pub strip_signatures : Bool

-- Durations are the bytes of their text. The map is `none` where the file has no such table.
pub record RetentionConfig : Type 0 where
  pub default : List ℕ
  pub groups : Option (Map String (List ℕ))

pub record GroupsConfig : Type 0 where
  pub enabled : Bool
  pub auto_join : Bool
  pub admin_create_only : Bool
  pub private_admin_only : Bool
  pub private_relay_admin_access : Bool
  pub retention : RetentionConfig

-- `owner` is `Info.Pubkey` as it is decoded by `GetOwner`.
pub record Config : Type 0 where
  pub host : String
  pub schema : String
  pub owner : ℕ
  pub policy : Policy
  pub groups : GroupsConfig
  pub roles : Map String Role
  pub secret : ℕ

module _ ⦃x : Externals⦄ where
  unfoldable pub get_self : Config → ℕ
  get_self config = x.public config.secret

  unfoldable pub is_self : Config → ℕ → Bool
  unfolding get_self
  is_self config pubkey = pubkey == get_self config

  unfoldable pub get_owner : Config → ℕ
  get_owner config = config.owner

  unfoldable pub is_owner : Config → ℕ → Bool
  unfolding get_owner
  is_owner config pubkey = pubkey == get_owner config

  -- the loop of `GetAllRoles`
  unfoldable pub all_roles : Map String Role → ℕ → List Role
  all_roles [] pubkey = []
  all_roles ((name, role) ∷ roles) pubkey =
      let rest = all_roles roles pubkey in
      if name == "member"
      then role ∷ rest
      else if contains role.pubkeys (x.hex pubkey)
      then role ∷ rest
      else rest

  unfoldable pub get_all_roles : Config → ℕ → List Role
  unfolding all_roles
  get_all_roles config pubkey = all_roles config.roles pubkey

  -- the loop of `GetAssignedRoles`
  unfoldable pub assigned_roles : Map String Role → ℕ → List Role
  assigned_roles [] pubkey = []
  assigned_roles ((name, role) ∷ roles) pubkey =
      let rest = assigned_roles roles pubkey in
      if contains role.pubkeys (x.hex pubkey) then role ∷ rest else rest

  unfoldable pub get_assigned_roles : Config → ℕ → List Role
  unfolding assigned_roles
  get_assigned_roles config pubkey = assigned_roles config.roles pubkey

  unfoldable pub can_invite : Config → ℕ → Bool
  unfolding is_owner is_self get_all_roles
  can_invite config pubkey =
      if is_owner config pubkey || is_self config pubkey
      then true
      else exists (λ role. role.can_invite) (get_all_roles config pubkey)

  unfoldable pub can_manage : Config → ℕ → Bool
  unfolding is_owner is_self get_all_roles
  can_manage config pubkey =
      if is_owner config pubkey || is_self config pubkey
      then true
      else exists (λ role. role.can_manage) (get_all_roles config pubkey)
