-- ===== src/Retention/Passes.antt =====
-- A run of the cleaner over all instances: `cleanExpiredMessages` of zooid/retention.go. `now group`
-- is the time in seconds when the run comes to the group; a cutoff before 1970 is 0, as no message is
-- older.
use unicity_relay.Prelude.{
  ltb, if◌then◌else◌, or_else, string_eq, nat_eq, contains, add, Map, lookup, insert, delete, keys,
  ℕ, ◌+◌, ◌-◌, ◌/◌, String, Bool, not, ◌&&◌, Option, none, some, List, [], ◌∷◌,
}
use unicity_relay.Config.{Config}
use unicity_relay.Config.Retention.{second, has_retention, get_retention}
use unicity_relay.Events.Store.{EventStore}
use unicity_relay.Management.Store.{deleted}
use unicity_relay.Instance.State.{Instance, config_in, events_in, with_store}
use unicity_relay.Retention.{Planner, delete_expired_group_messages}

-- `retentionDeletedTotal` by instance label, and `activeRetentionInstances`.
pub record Cleaner : Type 0 where
  pub deleted_total : Map String ℕ
  pub active : List String

abbrev pub label_of : Instance → String
label_of i = (config_in i).schema

-- The counter of a label, so much higher.
abbrev pub counted : String → ℕ → Map String ℕ → Map String ℕ
counted label n totals =
    if ltb 0 n then insert label (or_else 0 (lookup totals label) + n) totals else totals

-- The labels that are no longer among the current ones lose their series.
unfoldable pub drop_series : List String → List String → Map String ℕ → Map String ℕ
drop_series current [] totals = totals
drop_series current (label ∷ labels) totals =
    drop_series current labels (if contains current label then totals else delete label totals)

module _ ⦃planner : Planner⦄ (now : String → ℕ) where
  abbrev pub cutoff_of : Config → String → ℕ
  cutoff_of config group = now group - get_retention config group / second

  -- The body of the loop over the groups of an instance, with `totalDeleted`.
  unfoldable pub clean_group : Config → String → ℕ → EventStore → Option (ℕ × EventStore)
  clean_group config group total st =
      if not (ltb 0 (get_retention config group))
      then some (total, st)
      else elim (delete_expired_group_messages group (cutoff_of config group) st) [
        | none ↦ none
        | some (deleted, st₁) ↦ some ((if ltb 0 deleted then total + deleted else total), st₁)
      ]

  unfoldable pub clean_groups : Config → List String → ℕ → EventStore → Option (ℕ × EventStore)
  unfolding clean_group
  clean_groups config [] total st = some (total, st)
  clean_groups config (group ∷ groups) total st = elim (clean_group config group total st) [
    | none ↦ none
    | some (total₁, st₁) ↦ clean_groups config groups total₁ st₁
  ]

  abbrev pub is_cleaned : Instance → Bool
  is_cleaned i = (config_in i).groups.enabled && has_retention (config_in i)

  -- An instance without groups or without a retention is passed over.
  unfoldable pub clean_instance : Instance → Option (ℕ × Instance)
  unfolding clean_groups
  clean_instance i =
      if not (is_cleaned i)
      then some (0, i)
      else elim (clean_groups (config_in i) (keys i.groups.metadata_cache) 0 (events_in i)) [
        | none ↦ none
        | some (total, st) ↦ some (total, with_store i st)
      ]

  -- The loop over the instances: the labels that are current, and the counters.
  unfoldable pub clean_instances :
      List Instance
      → List String
      → Map String ℕ
      → Option (List Instance × (List String × Map String ℕ))
  unfolding clean_instance
  clean_instances [] current totals = some ([], (current, totals))
  clean_instances (i ∷ instances) current totals = elim (clean_instance i) [
    | none ↦ none
    | some (total, j) ↦
        let label = label_of i in
        elim (clean_instances instances (if is_cleaned i then add label current else current)
          (counted label total totals)) [ none ↦ none | some (rest, kept) ↦ some (j ∷ rest, kept) ]
  ]

  unfoldable pub clean_expired_messages : List Instance → Cleaner → Option (List Instance × Cleaner)
  unfolding clean_instances drop_series
  clean_expired_messages instances c = elim (clean_instances instances [] c.deleted_total) [
    | none ↦ none
    | some (cleaned, kept) ↦
        some
          (cleaned, record { deleted_total = drop_series kept.0 c.active kept.1; active = kept.0 })
  ]
