-- ===== src/Metrics.antt =====
-- zooid/metrics.go: the gauges that are exported, by instance label. A gauge with a label for groups
-- is a map of maps; deleting the series of an instance deletes its label.
pub mod Messages
pub mod Selected
pub mod Exported
use unicity_relay.Prelude.{
  ltb, if◌then◌else◌, string_eq, nat_eq, length, contains, add, Map, lookup, insert, delete, ℕ, ◌+◌,
  String, Bool, true, not, ◌&&◌, ◌||◌, Option, none, some, List, [], ◌∷◌, map,
}
use unicity_relay.Nostr.{Filter, no_filter, Externals}
use unicity_relay.Events.Query.{count, count_events}
use unicity_relay.Groups.State.{GroupMeta, GroupStore}
use unicity_relay.Instance.State.{Instance, config_in, events_in}

pub record Gauges : Type 0 where
  pub groups_total : Map String ℕ
  pub groups_private : Map String ℕ
  pub groups_hidden : Map String ℕ
  pub groups_closed : Map String ℕ
  pub group_members : Map String (Map String ℕ)
  pub group_members_total : Map String ℕ
  pub groups_tracked : Map String ℕ
  pub relay_members_total : Map String ℕ
  pub banned_pubkeys_total : Map String ℕ
  pub banned_events_total : Map String ℕ
  pub events_total : Map String ℕ
  pub messages_total : Map String ℕ
  -- `activeInstances`
  pub active_instances : List String

abbrev pub instance_label : Instance → String
instance_label inst = (config_in inst).schema

abbrev pub max_tracked_groups : ℕ
max_tracked_groups = 1000

-- The loop over the metadata with its four counts.
pub record GroupCounts : Type 0 where
  pub total : ℕ
  pub private : ℕ
  pub hidden : ℕ
  pub closed : ℕ

abbrev pub plus_one_if : Bool → ℕ → ℕ
plus_one_if b n = if b then n + 1 else n

unfoldable pub count_groups : Map String GroupMeta → GroupCounts → GroupCounts
count_groups [] c = c
count_groups ((h, meta) ∷ cache) c = count_groups cache (record {
  total = c.total + 1;
  private = plus_one_if meta.is_private c.private;
  hidden = plus_one_if meta.is_hidden c.hidden;
  closed = plus_one_if meta.is_closed c.closed;
})

abbrev pub is_shown : Option GroupMeta → Bool
is_shown none = true
is_shown (some meta) = not (meta.is_private || meta.is_hidden)

unfoldable pub add_members : List ℕ → List ℕ → List ℕ
add_members [] members = members
add_members (pubkey ∷ pubkeys) members = add_members pubkeys (add pubkey members)

-- The loop over the member sets: the distinct members, the series, and how many groups are tracked.
pub record Tracked : Type 0 where
  pub distinct_members : List ℕ
  pub series : Map String ℕ
  pub tracked : ℕ

unfoldable pub track : Map String GroupMeta → String → List ℕ → Tracked → Tracked
unfolding add_members
track metadata h members t =
    let shown = ltb t.tracked max_tracked_groups && is_shown (lookup metadata h) in
    record {
      distinct_members = add_members members t.distinct_members;
      series = if shown then insert h (length members) t.series else t.series;
      tracked = if shown then t.tracked + 1 else t.tracked;
    }

unfoldable pub track_groups : Map String GroupMeta → Map String (List ℕ) → Tracked → Tracked
unfolding track
track_groups metadata [] t = t
track_groups metadata ((h, members) ∷ cache) t =
    track_groups metadata cache (track metadata h members t)

abbrev pub tracked_in : GroupStore → Tracked
tracked_in g =
    track_groups g.metadata_cache g.membership_cache
      (record { distinct_members = []; series = []; tracked = 0 })

unfoldable pub collect_cache_metrics : Instance → Gauges → Gauges
unfolding count_groups track_groups
collect_cache_metrics inst m =
    let label = instance_label inst in
    let counts =
      count_groups inst.groups.metadata_cache
        (record { total = 0; private = 0; hidden = 0; closed = 0 }) in
    let t = tracked_in inst.groups in
    record m {
      groups_total = insert label counts.total m.groups_total;
      groups_private = insert label counts.private m.groups_private;
      groups_hidden = insert label counts.hidden m.groups_hidden;
      groups_closed = insert label counts.closed m.groups_closed;
      group_members = insert label t.series m.group_members;
      group_members_total = insert label (length t.distinct_members) m.group_members_total;
      groups_tracked = insert label t.tracked m.groups_tracked;
      relay_members_total =
          insert label (length inst.management.relay_members) m.relay_members_total;
      banned_pubkeys_total =
          insert label (length inst.management.banned_pubkeys) m.banned_pubkeys_total;
      banned_events_total =
          insert label (length inst.management.banned_events) m.banned_events_total;
    }

-- The series of an instance that is no longer loaded.
unfoldable pub delete_series : String → Gauges → Gauges
delete_series label m = record m {
  groups_total = delete label m.groups_total;
  groups_private = delete label m.groups_private;
  groups_hidden = delete label m.groups_hidden;
  groups_closed = delete label m.groups_closed;
  group_members = delete label m.group_members;
  group_members_total = delete label m.group_members_total;
  groups_tracked = delete label m.groups_tracked;
  relay_members_total = delete label m.relay_members_total;
  banned_pubkeys_total = delete label m.banned_pubkeys_total;
  banned_events_total = delete label m.banned_events_total;
  events_total = delete label m.events_total;
  messages_total = delete label m.messages_total;
}

unfoldable pub current_labels : List Instance → List String → List String
current_labels [] labels = labels
current_labels (inst ∷ instances) labels =
    current_labels instances (add (instance_label inst) labels)

-- What the database answers: its estimate of the number of events, unless that read fails, and
-- whether the count of the messages succeeds.
pub record DbReads : Type 0 where
  pub estimate : Option ℕ
  pub counts : Bool

-- A gauge is set, unless the read has failed.
abbrev pub set_gauge : String → Option ℕ → Map String ℕ → Map String ℕ
set_gauge label none gauge = gauge
set_gauge label (some n) gauge = insert label n gauge

abbrev pub chat_filter : Filter
chat_filter = record no_filter { kinds = 9 ∷ 10 ∷ [] }

unfoldable pub delete_unloaded : List String → List String → Gauges → Gauges
unfolding delete_series
delete_unloaded current [] m = m
delete_unloaded current (label ∷ labels) m =
    delete_unloaded current labels (if contains current label then m else delete_series label m)

module _ ⦃x : Externals⦄ where
  unfoldable pub collect_db_metrics : Instance → DbReads → Gauges → Gauges
  collect_db_metrics inst reads m =
      let label = instance_label inst in
      let count = count_events (events_in inst).database chat_filter in
      record m {
        events_total = set_gauge label reads.estimate m.events_total;
        messages_total =
            set_gauge label (if reads.counts then some count else none) m.messages_total;
      }

  -- The loop over the instances.
  unfoldable pub collect_all : List (Instance × DbReads) → Gauges → Gauges
  unfolding collect_cache_metrics collect_db_metrics
  collect_all [] m = m
  collect_all ((inst, reads) ∷ instances) m =
      collect_all instances (collect_db_metrics inst reads (collect_cache_metrics inst m))

  unfoldable pub collect_metrics : List (Instance × DbReads) → Gauges → Gauges
  unfolding collect_all current_labels delete_unloaded
  collect_metrics instances m =
      let current = current_labels (map (λ (r : Instance × DbReads). r.0) instances) [] in
      let collected = collect_all instances m in
      record (delete_unloaded current m.active_instances collected) { active_instances = current }
