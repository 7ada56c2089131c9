-- ===== src/Metrics/Messages.antt =====
-- The message counts of groups: `collectGroupMessages` of zooid/metrics.go.
use unicity_relay.Prelude.{
  leb, if◌then◌else◌, or_else, string_eq, nat_eq, ◌==◌, length, take, select, contains, Map, lookup,
  insert, delete, ℕ, ◌+◌, String, Bool, true, false, ◌&&◌, ◌||◌, Option, none, some, List, [], ◌∷◌,
  map,
}
use unicity_relay.Nostr.{Event}
use unicity_relay.Events.Table.{TagRow, Database}
use unicity_relay.Groups.State.{GroupMeta}
use unicity_relay.Instance.State.{Instance, events_in}
use unicity_relay.Metrics.{instance_label, max_tracked_groups, current_labels}

-- `groupMessages` and `activeGroupMessageInstances`.
pub record GroupMessages : Type 0 where
  pub group_messages : Map String (Map String ℕ)
  pub active : List String

-- `visibleGroups`, at most 1000 of them; n have been found.
unfoldable pub visible_groups : Map String GroupMeta → ℕ → List String
visible_groups [] n = []
visible_groups ((h, meta) ∷ cache) n = elim (leb max_tracked_groups n) [
  | true ↦ []
  | false ↦ elim (meta.is_private || meta.is_hidden) [
    | true ↦ visible_groups cache n
    | false ↦ h ∷ visible_groups cache (n + 1)
  ]
]

-- The rows of the join: the tags of the group on chat messages.
abbrev pub is_message_of : String → Event → TagRow → Bool
is_message_of group e t =
    e.id == t.event_id && (t.key == "h" && (t.value == group && contains (9 ∷ 10 ∷ []) e.kind))

unfoldable pub join_count : String → List TagRow → List Event → ℕ
join_count group [] rows = 0
join_count group (t ∷ tag_rows) rows =
    length (select (λ (e : Event). is_message_of group e t) rows) + join_count group tag_rows rows

-- GROUP BY has a row for each group with messages.
unfoldable pub message_counts : Database → List String → Map String ℕ
unfolding join_count
message_counts db [] = []
message_counts db (h ∷ groups) =
    let rest = message_counts db groups in
    let count = join_count h db.tag_rows db.rows in if count == 0 then rest else (h, count) ∷ rest

-- A row sets the series of its label and group; the other series stay.
unfoldable pub set_counts :
    String → Map String ℕ → Map String (Map String ℕ) → Map String (Map String ℕ)
set_counts label [] messages = messages
set_counts label ((group, n) ∷ rows) messages =
    set_counts label rows
      (insert label (insert group n (or_else [] (lookup messages label))) messages)

-- The query fails, or its iteration yields so many rows.
abbrev pub rows_read : Option ℕ → Map String ℕ → Map String ℕ
rows_read none rows = []
rows_read (some n) rows = take n rows

unfoldable pub collect_group_message_counts :
    Instance → Option ℕ → Map String (Map String ℕ) → Map String (Map String ℕ)
unfolding message_counts visible_groups set_counts
collect_group_message_counts inst read messages =
    elim (visible_groups inst.groups.metadata_cache 0) [
      | [] ↦ messages
      | h ∷ groups ↦
          set_counts (instance_label inst)
            (rows_read read (message_counts (events_in inst).database (h ∷ groups))) messages
    ]

-- The loop over the instances, each with the outcome of its query.
unfoldable pub count_all :
    List (Instance × Option ℕ) → Map String (Map String ℕ) → Map String (Map String ℕ)
unfolding collect_group_message_counts
count_all [] messages = messages
count_all ((inst, read) ∷ instances) messages =
    count_all instances
      (collect_group_message_counts inst read (delete (instance_label inst) messages))

unfoldable pub drop_messages :
    List String → List String → Map String (Map String ℕ) → Map String (Map String ℕ)
drop_messages current [] messages = messages
drop_messages current (label ∷ labels) messages =
    drop_messages current labels
      (if contains current label then messages else delete label messages)

unfoldable pub collect_group_messages : List (Instance × Option ℕ) → GroupMessages → GroupMessages
unfolding count_all current_labels drop_messages
collect_group_messages instances m =
    let current = current_labels (map (λ (r : Instance × Option ℕ). r.0) instances) [] in
    record {
      group_messages = drop_messages current m.active (count_all instances m.group_messages);
      active = current;
    }
