-- ===== src/Instance/State.antt =====
-- The state behind the handlers of zooid/instance.go. `Groups` and `Management` point to one
-- `EventStore` there: here an operation of one leaves its events in the other.
use unicity_relay.Prelude.{nat_eq, string_eq}
use unicity_relay.Config.{Config}
use unicity_relay.Events.Store.{EventStore}
use unicity_relay.Groups.State.{GroupStore}
use unicity_relay.Management.Store.{ManagementStore}

pub record Instance : Type 0 where
  pub groups : GroupStore
  pub management : ManagementStore

abbrev pub config_in : Instance → Config
config_in i = i.groups.events.config

abbrev pub events_in : Instance → EventStore
events_in i = i.groups.events

-- The instance with this store of groups, and its events everywhere.
abbrev pub with_groups : Instance → GroupStore → Instance
with_groups i g = record { groups = g; management = record i.management { events = g.events } }

abbrev pub with_management : Instance → ManagementStore → Instance
with_management i m = record { groups = record i.groups { events = m.events }; management = m }

abbrev pub with_store : Instance → EventStore → Instance
with_store i st = record {
  groups = record i.groups { events = st };
  management = record i.management { events = st };
}
