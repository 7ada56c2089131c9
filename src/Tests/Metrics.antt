-- ===== src/Tests/Metrics.antt =====
-- The gauges of the concrete relay, whose group is hidden.
use unicity_relay.Metrics.Selected.{is_visible}
use unicity_relay.Prelude.{
  string_eq, nat_eq, length, every, Map, lookup, ℕ, ◌≤◌, String, ◌≡◌, refl, true, some, [], ◌∷◌,
}
use unicity_relay.Instance.State.{Instance}
use unicity_relay.Metrics.{Gauges, max_tracked_groups, is_shown, collect_cache_metrics}
use unicity_relay.Metrics.Exported.{series_of, counts_in-Visible}
use unicity_relay.Tests.Demo.{demo, groups_of, demo_instance}
use unicity_relay.Metrics.Messages.{count_all}

abbrev hidden_instance : Instance
hidden_instance = record demo_instance { groups = groups_of (("hidden" ∷ []) ∷ []) }

abbrev no_gauges : Gauges
no_gauges = record {
  groups_total = [];
  groups_private = [];
  groups_hidden = [];
  groups_closed = [];
  group_members = [];
  group_members_total = [];
  groups_tracked = [];
  relay_members_total = [];
  banned_pubkeys_total = [];
  banned_events_total = [];
  events_total = [];
  messages_total = [];
  active_instances = [];
}

-- The group had messages before it was hidden.
abbrev leaked : Map String (Map String ℕ)
leaked = ("demo", ("g", 7) ∷ []) ∷ []

counts_in-Visible_example :
    let cache = hidden_instance.groups.metadata_cache in
    let members =
      series_of "demo" (collect_cache_metrics hidden_instance no_gauges).group_members in
    let counts = series_of "demo" (count_all ((hidden_instance, some 5) ∷ []) leaked) in
    (every (λ (e : String × ℕ). is_shown (lookup cache e.0)) members ≡ true)
    × (length members ≤ max_tracked_groups)
    × (every (λ (e : String × ℕ). is_visible cache e.0) counts ≡ true)
    × (length counts ≤ max_tracked_groups)
unfolding every
counts_in-Visible_example = counts_in-Visible [] [] hidden_instance (some 5) no_gauges leaked refl
