-- ===== src/Tests/Relay.antt =====
-- The relay's own members and bans, and its handlers, on the concrete relay.
use unicity_relay.Nostr.{Event, Filter, no_filter}
use unicity_relay.Prelude.{
  or_else, string_eq, nat_eq, ◌==◌, select, exists, first, ◌≡◌, refl, true, false, ◌&&◌, ◌||◌, some,
  [], ◌∷◌,
}
use unicity_relay.Events.Store.{
  next_reply, query_events, store_event, sign_and_store_event, get_or_create_application_data,
  get_or_create_relay_members_list,
}
use unicity_relay.Management.Warm.{warm_caches}
use unicity_relay.Management.Start.{lists_key, warm_caches-is_member}
use unicity_relay.Tests.Sorting.{newest_first}
use unicity_relay.Events.Query.{query_events_with}
use unicity_relay.Management.Store.{ManagementStore, relay_invite, is_member, ban_pubkey}
use unicity_relay.Management.Bans.{Settled, ban_pubkey-Settled}
use unicity_relay.Instance.Requests.{on_event, query_stored}
use unicity_relay.Instance.Gate.{is_accepted, authed_as, is_for_member, may_publish, on_event_iff}
use unicity_relay.Instance.Served.{All, Served, query_stored-Served}
use unicity_relay.Tests.Demo.{
  letters, demo, owner_key, relay_key, event_of, empty_store, group_tags, managed, demo_instance,
}

abbrev after_ban : ManagementStore
unfolding ban_pubkey
after_ban = (ban_pubkey 3 "spam" managed).1

ban_pubkey-Settled_example : Settled 3 false managed after_ban
unfolding ban_pubkey first get_or_create_relay_members_list query_events query_events_with
    newest_first select get_or_create_application_data sign_and_store_event store_event next_reply
ban_pubkey-Settled_example = ban_pubkey-Settled 3 "spam" managed after_ban refl refl

-- A relay that starts with the key 3 in its list.
abbrev starting : ManagementStore
starting = record managed {
  events = record empty_store {
    database = record {
      rows = event_of 13534 relay_key (("-" ∷ []) ∷ ("member" ∷ letters 3 ∷ []) ∷ []) ∷ [];
      tag_rows = [];
    };
  };
  relay_members = [];
  caches_warmed = false;
}

abbrev after_start : ManagementStore
after_start = or_else starting (warm_caches starting)

warm_caches-is_member_example :
    (is_member after_start 3
      ≡ exists (lists_key "member" 3) (get_or_create_relay_members_list starting.events).tags)
    × (is_member starting 3 ≡ true → is_member after_start 3 ≡ true)
unfolding warm_caches select get_or_create_application_data query_events query_events_with
    newest_first
warm_caches-is_member_example = warm_caches-is_member starting after_start 3 refl refl refl

-- The key 5 claims a code that no invite has.
abbrev join_request : Event
join_request = event_of 28934 5 (("claim" ∷ "abc" ∷ []) ∷ [])

-- The key 3 posts to its group.
abbrev post : Event
post = event_of 11 3 group_tags

on_event_iff_example : is_accepted (on_event demo_instance (some 3) post) ≡ (
    ((post.kind == 9735 || post.kind == 1059) && is_for_member demo_instance post.tags)
    || (authed_as (some 3) 3 && may_publish demo_instance post))
on_event_iff_example = on_event_iff demo_instance (some 3) post

-- The owner asks for invites.
abbrev for_invites : Filter
for_invites = record no_filter { kinds = relay_invite ∷ 11 ∷ [] }

query_stored-Served_example :
    All
      (Served demo_instance for_invites "code" owner_key)
      (query_stored demo_instance false (some owner_key) "code" for_invites).0
query_stored-Served_example = query_stored-Served demo_instance (some owner_key) "code" for_invites
