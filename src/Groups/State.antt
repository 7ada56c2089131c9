-- ===== src/Groups/State.antt =====
-- The state of `GroupStore` in zooid/groups.go. A `sync.Map` is a map, a member set a list without
-- repetitions, a role set a map from keys to lists of role names.
use unicity_relay.Prelude.{nat_eq, string_eq, Map, ℕ, String, Bool, Option, List}
use unicity_relay.Nostr.{Event}
use unicity_relay.Config.{Config}
use unicity_relay.Events.Store.{Failure, EventStore}
use unicity_relay.Debounce.{Debouncer}

pub record GroupMeta : Type 0 where
  pub event : Event
  pub found : Bool
  pub is_private : Bool
  pub is_hidden : Bool
  pub is_closed : Bool
  pub is_write_restricted : Bool

abbrev pub Roles : Type 0
Roles = Map ℕ (List String)

pub record GroupStore : Type 0 where
  pub events : EventStore
  pub metadata_cache : Map String GroupMeta
  pub membership_cache : Map String (List ℕ)
  pub role_cache : Map String Roles
  pub creator_cache : Map String ℕ
  pub caches_warmed : Bool
  pub membership_fully_loaded : List String
  pub debounce_delay : ℕ
  pub debounce_pending : Debouncer

-- An operation that returns an error, `none` for nil.
abbrev pub Done : Type 0
Done = Option Failure × GroupStore

abbrev pub config_of : GroupStore → Config
config_of g = g.events.config
