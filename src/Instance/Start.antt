-- ===== src/Instance/Start.antt =====
-- The start of an instance: the end of `MakeInstance` in zooid/instance.go, from the load of the
-- caches on. A panic is `none`.
use mathlib.Core.Option.{map as map_option}
use unicity_relay.Groups.Warm.{warm_caches as warm_groups}
use unicity_relay.Management.Warm.{warm_caches as warm_management}
use unicity_relay.Prelude.{
  if◌then◌else◌, string_eq, nat_eq, Map, ℕ, String, Option, none, some, List, [], ◌∷◌, ◌++◌,
}
use unicity_relay.Nostr.{Externals}
use unicity_relay.Config.{Role, Config, get_self}
use unicity_relay.Groups.State.{GroupStore, Done, config_of}
use unicity_relay.Groups.Publish.{update_admins_list}
use unicity_relay.Management.Store.{ManagementStore, allow_pubkey}
use unicity_relay.Instance.State.{Instance, config_in, with_groups, with_management}

module _ ⦃x : Externals⦄ where
  -- `AllowPubkey` for each key, the errors ignored.
  unfoldable pub allow_all : List ℕ → ManagementStore → ManagementStore
  allow_all [] m = m
  allow_all (pubkey ∷ pubkeys) m = allow_all pubkeys (allow_pubkey pubkey m).1

  -- The keys of a role that can be read.
  unfoldable pub decoded_keys : List String → List ℕ
  decoded_keys [] = []
  decoded_keys (hex ∷ hexes) = elim (x.pub_key_from_hex hex) [
    | none ↦ decoded_keys hexes
    | some pubkey ↦ pubkey ∷ decoded_keys hexes
  ]

  unfoldable pub role_keys : Map String Role → List ℕ
  unfolding decoded_keys
  role_keys [] = []
  role_keys ((name, role) ∷ roles) = decoded_keys role.pubkeys ++ role_keys roles

  -- The relay's own key, the owner's, and those of the roles.
  unfoldable pub managed_keys : Config → List ℕ
  unfolding role_keys
  managed_keys config = get_self config ∷ config.owner ∷ role_keys config.roles

  -- The admins list of the relay is published, the error logged.
  unfoldable pub enable_groups : GroupStore → Option GroupStore
  enable_groups g =
      if (config_of g).groups.enabled
      then map_option (λ (d : Done). d.1) (update_admins_list "_" g)
      else some g

  -- `WarmCaches` of both stores, and `Enable`.
  abbrev pub with_warm : Instance → Option ManagementStore → Option Instance
  with_warm i none = none
  with_warm i (some m) =
      map_option (λ g. with_groups (record i { management = m }) g)
        (enable_groups (warm_groups i.groups))

  unfoldable pub prepare_instance : Instance → Option Instance
  unfolding enable_groups
  prepare_instance i = with_warm i (warm_management i.management)

  unfoldable pub start_instance : Instance → Option Instance
  unfolding prepare_instance allow_all managed_keys
  start_instance i =
      map_option (λ j. with_management j (allow_all (managed_keys (config_in i)) j.management))
        (prepare_instance i)
