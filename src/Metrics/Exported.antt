-- ===== src/Metrics/Exported.antt =====
-- Which groups the gauges of zooid/metrics.go name.
use unicity_relay.Prelude.{
  or_else, string_eq, nat_eq, ◌==◌, length, every, Map, lookup, insert, delete, lookup-insert_same,
  lookup-insert_other, lookup-delete_other, lookup-delete_same, ℕ, ◌+◌, ◌≤◌, String, ◌≡◌, refl, sym,
  ap, ◌∙◌, subst, Bool, true, false, not, Option, none, some, List, [], ◌∷◌, ◌++◌, arith,
}
use unicity_relay.Events.Table.{Database}
use unicity_relay.Groups.State.{GroupMeta}
use unicity_relay.Instance.State.{Instance, events_in}
use unicity_relay.Metrics.{
  Gauges, instance_label, max_tracked_groups, is_shown, tracked_in, collect_cache_metrics,
}
use unicity_relay.Metrics.Messages.{
  visible_groups, message_counts, set_counts, rows_read, collect_group_message_counts, count_all,
}
use unicity_relay.Metrics.Selected.{
  is_visible, every-insert, length-insert, track_groups-IsShown, length-visible_groups,
  visible_groups-every, message_counts-every, take-every,
}

-- The series of a label.
abbrev pub series_of : String → Map String (Map String ℕ) → Map String ℕ
series_of label messages = or_else [] (lookup messages label)

series-insert :
    (label : String) (series : Map String ℕ) (m : Map String (Map String ℕ))
    → series_of label (insert label series m) ≡ series
series-insert label series m = ap (or_else []) (lookup-insert_same label series m)

-- The groups that are named pass the test, and are so many at most.
abbrev pub Names : (String → Bool) → ℕ → Map String ℕ → Type 0
Names p n series = (every (λ (e : String × ℕ). p e.0) series ≡ true) × (length series ≤ n)

rows_read-Names :
    (p : String → Bool) (cache : Map String GroupMeta) (read : Option ℕ) (db : Database)
    (groups : List String)
    → every p groups ≡ true
    → Names p (length groups) (rows_read read (message_counts db groups))
rows_read-Names p cache none db groups all = (unfold every in refl, omega arith)
rows_read-Names p cache (some n) db groups all =
    let (each, few) = message_counts-every p db groups all in
    let (taken, fewer) = take-every p n (message_counts db groups) each in
    (taken, omega (arith, few, fewer))

set_counts-Names :
    (p : String → Bool) (label : String) (rows : Map String ℕ) (m : Map String (Map String ℕ))
    (n : ℕ)
    → every (λ (e : String × ℕ). p e.0) rows ≡ true
    → Names p n (series_of label m)
    → Names p (length rows + n) (series_of label (set_counts label rows m))
unfolding set_counts every
set_counts-Names p label [] m n all is = (is.0, omega (arith, is.1))
set_counts-Names p label ((group, count) ∷ rows) m n all is =
    let series = insert group count (series_of label m) in
    let (named, few) =
      set_counts-Names p label rows (insert label series m) (n + 1) (ground (arith, all)) (
        subst (Names p (n + 1)) (sym (series-insert label series m)) (
          every-insert p group count (series_of label m) (ground (arith, all)) is.0,
          omega (arith, is.1, length-insert group count (series_of label m)),
        )) in
    (named, omega (arith, few))

set_counts-other :
    (label other : String) (rows : Map String ℕ) (m : Map String (Map String ℕ))
    → (label == other) ≡ false
    → lookup (set_counts label rows m) other ≡ lookup m other
unfolding set_counts
set_counts-other label other [] m apart = refl
set_counts-other label other ((group, count) ∷ rows) m apart =
    set_counts-other label other rows (insert label (insert group count (series_of label m)) m)
      apart
    ∙ lookup-insert_other label other (insert group count (series_of label m)) m apart

collect-other :
    (inst : Instance) (read : Option ℕ) (other : String) (m : Map String (Map String ℕ))
    → (instance_label inst == other) ≡ false
    → lookup (collect_group_message_counts inst read m) other ≡ lookup m other
unfolding collect_group_message_counts
collect-other inst read other m apart = go (visible_groups inst.groups.metadata_cache 0)
  where
    go :
        (groups : List String)
        → lookup
            (elim groups [
              | [] ↦ m
              | h ∷ rest ↦
                  set_counts
                    (instance_label inst)
                    (rows_read read (message_counts (events_in inst).database (h ∷ rest)))
                    m
            ])
            other
          ≡ lookup m other
    go [] = refl
    go (h ∷ rest) =
        set_counts-other (instance_label inst) other
          (rows_read read (message_counts (events_in inst).database (h ∷ rest))) m apart

-- The series of a label without series are those of the groups that are visible.
collect-Names :
    (inst : Instance) (read : Option ℕ) (m : Map String (Map String ℕ))
    → lookup m (instance_label inst) ≡ none
    → Names
        (is_visible inst.groups.metadata_cache)
        max_tracked_groups
        (series_of (instance_label inst) (collect_group_message_counts inst read m))
unfolding collect_group_message_counts
collect-Names inst read m fresh =
    go (visible_groups cache 0) (visible_groups-every (is_visible cache) cache 0 (λ h is. is))
      (omega (arith, length-visible_groups cache 0 (omega arith)))
  where
    cache : Map String GroupMeta
    cache = inst.groups.metadata_cache

    empty : Names (is_visible cache) 0 (series_of (instance_label inst) m)
    empty =
        subst (λ (o : Option (Map String ℕ)). Names (is_visible cache) 0 (or_else [] o)) (sym fresh)
          (unfold every in refl, omega arith)

    go :
        (groups : List String)
        → every (is_visible cache) groups ≡ true
        → length groups ≤ max_tracked_groups
        → Names (is_visible cache) max_tracked_groups (
            series_of (instance_label inst) (elim groups [
              | [] ↦ m
              | h ∷ rest ↦
                  set_counts
                    (instance_label inst)
                    (rows_read read (message_counts (events_in inst).database (h ∷ rest)))
                    m
            ]))
    go [] all few = (empty.0, omega (arith, empty.1))
    go (h ∷ rest) all few =
        let rows = rows_read read (message_counts (events_in inst).database (h ∷ rest)) in
        let (named, fits) =
          rows_read-Names (is_visible cache) cache read (events_in inst).database (h ∷ rest) all in
        let (is, short) =
          set_counts-Names (is_visible cache) (instance_label inst) rows m 0 named empty in
        (is, omega (arith, few, fits, short))

count_all-append :
    (before after : List (Instance × Option ℕ)) (m : Map String (Map String ℕ))
    → count_all (before ++ after) m ≡ count_all after (count_all before m)
unfolding count_all
count_all-append [] after m = refl
count_all-append ((inst, read) ∷ before) after m =
    count_all-append before after
      (collect_group_message_counts inst read (delete (instance_label inst) m))

-- No instance in the list has the label.
abbrev pub lacks : String → List (Instance × Option ℕ) → Bool
lacks label instances =
    every (λ (r : Instance × Option ℕ). not (instance_label r.0 == label)) instances

count_all-other :
    (instances : List (Instance × Option ℕ)) (other : String) (m : Map String (Map String ℕ))
    → lacks other instances ≡ true
    → lookup (count_all instances m) other ≡ lookup m other
unfolding count_all every
count_all-other [] other m without = refl
count_all-other ((inst, read) ∷ instances) other m without =
    let apart : (instance_label inst == other) ≡ false = ground (arith, without) in
    count_all-other instances other
      (collect_group_message_counts inst read (delete (instance_label inst) m))
      (ground (arith, without))
    ∙ collect-other inst read other (delete (instance_label inst) m) apart
    ∙ lookup-delete_other (instance_label inst) other m apart

-- The member gauge of an instance names no group whose cached metadata is private or hidden. After
-- the loop over the instances, whatever series there were and whether the queries fail, the message
-- gauge names for an instance whose label no later one has only groups whose cached metadata is
-- neither. Each gauge names at most 1000 groups of it.
pub counts_in-Visible :
    (before after : List (Instance × Option ℕ)) (inst : Instance) (read : Option ℕ) (m : Gauges)
    (messages : Map String (Map String ℕ))
    → lacks (instance_label inst) after ≡ true
    → let label = instance_label inst in
      let cache = inst.groups.metadata_cache in
      let counted = count_all (before ++ (inst, read) ∷ after) messages in
      let members = series_of label (collect_cache_metrics inst m).group_members in
      let counts = series_of label counted in
      (every (λ (e : String × ℕ). is_shown (lookup cache e.0)) members ≡ true)
      × (length members ≤ max_tracked_groups)
      × (every (λ (e : String × ℕ). is_visible cache e.0) counts ≡ true)
      × (length counts ≤ max_tracked_groups)
unfolding collect_cache_metrics
counts_in-Visible before after inst read m messages without =
    let cache = inst.groups.metadata_cache in
    let label = instance_label inst in
    let t =
      track_groups-IsShown cache inst.groups.membership_cache
        (record { distinct_members = []; series = []; tracked = 0 })
        (record { all_shown = unfold every in refl; fits = omega arith; counted = omega arith }) in
    let members = sym (series-insert label (tracked_in inst.groups).series m.group_members) in
    let (named, few) = counted in
    (
      subst (λ s. every (λ (e : String × ℕ). is_shown (lookup cache e.0)) s ≡ true) members
          t.all_shown,
      subst (λ (s : Map String ℕ). length s ≤ max_tracked_groups) members
          (omega (arith, t.fits, t.counted)),
      named,
      few,
    )
  where
    label : String
    label = instance_label inst

    earlier : Map String (Map String ℕ)
    earlier = delete label (count_all before messages)

    same :
        lookup (count_all (before ++ (inst, read) ∷ after) messages) label
        ≡ lookup (collect_group_message_counts inst read earlier) label
    same =
        ap (λ (s : Map String (Map String ℕ)). lookup s label)
          (count_all-append before ((inst, read) ∷ after) messages)
        ∙ (unfold count_all in
            count_all-other after label (collect_group_message_counts inst read earlier) without)

    counted :
        Names
          (is_visible inst.groups.metadata_cache)
          max_tracked_groups
          (series_of label (count_all (before ++ (inst, read) ∷ after) messages))
    counted =
        subst
          (λ (o : Option (Map String ℕ)).
            Names (is_visible inst.groups.metadata_cache) max_tracked_groups (or_else [] o))
          (sym same)
          (collect-Names inst read earlier (lookup-delete_same label (count_all before messages)))
