-- ===== src/Events/Replace.antt =====
-- `replaceEventOnce` of zooid/events.go: one transaction that has committed.
use unicity_relay.Prelude.{
  leb, if◌then◌else◌, or_else, nat_eq, string_eq, ℕ, Bool, true, false, List, [], ◌∷◌,
}
use unicity_relay.Nostr.{Event, Filter, no_filter, Externals}
use unicity_relay.Events.Table.{Database, save_event_with, delete_event_with}
use unicity_relay.Events.Query.{query_events_with}

-- The loop over the previous events: `shouldSave` and `shouldDelete`.
unfoldable pub compare_previous : Event → List Event → Bool × List ℕ
compare_previous evt [] = (true, [])
compare_previous evt (previous ∷ rest) =
    let (should_save, should_delete) = compare_previous evt rest in
    if leb previous.created_at evt.created_at
    then (should_save, previous.id ∷ should_delete)
    else (false, should_delete)

-- A duplicate is no error here.
unfoldable pub save_unless_newer : Bool → Database → Event → Database
unfolding save_event_with
save_unless_newer true db evt = or_else db (save_event_with db evt)
save_unless_newer false db evt = db

unfoldable pub delete_all : Database → List ℕ → Database
unfolding delete_event_with
delete_all db [] = db
delete_all db (id ∷ ids) = delete_all (delete_event_with db id) ids

module _ ⦃x : Externals⦄ where
  -- The events that the new one may replace: of its author and kind, and of its `d` tag if the kind
  -- is addressable.
  unfoldable pub replace_filter : Event → Filter
  replace_filter evt =
      if x.is_addressable evt.kind
      then record no_filter {
        kinds = evt.kind ∷ [];
        authors = evt.pubkey ∷ [];
        tags = ("d", x.get_d evt.tags ∷ []) ∷ [];
      }
      else record no_filter { kinds = evt.kind ∷ []; authors = evt.pubkey ∷ [] }

  unfoldable pub replace_event_once : Database → Event → Database
  unfolding replace_filter compare_previous save_unless_newer delete_all query_events_with
  replace_event_once db evt =
      let (should_save, should_delete) =
        compare_previous evt (query_events_with db (replace_filter evt) 0) in
      delete_all (save_unless_newer should_save db evt) should_delete
