-- ===== src/Tests/Media.antt =====
-- The media store and the lists of the management API, on the concrete relay.
use mathlib.Core.Option.{map as map_option}
use unicity_relay.Tests.Sorting.{newest_first}
use unicity_relay.Prelude.{
  string_eq, nat_eq, ◌==◌, select, exists, first, lookup, ◌≡◌, refl, false, some,
}
use unicity_relay.Events.Query.{query_events_with}
use unicity_relay.Events.Store.{
  next_reply, query_events, store_event, sign_and_store_event, get_or_create_application_data,
  get_or_create_relay_members_list,
}
use unicity_relay.Management.Store.{ManagementStore, ban_pubkey}
use unicity_relay.Tests.Demo.{demo, managed}
use unicity_relay.Management.Api.{Item, get_banned_pubkey_items, get_allowed_pubkey_items}
use unicity_relay.Blossom.Gates.{Closed, ban_pubkey-Closed}

abbrev banned : ManagementStore
unfolding ban_pubkey
banned = (ban_pubkey 3 "spam" managed).1

ban_pubkey-Closed_example :
    (map_option (λ items. lookup items 3) (get_banned_pubkey_items banned) ≡ some (some "spam"))
    × (exists (λ (item : Item). item.0 == 3) (get_allowed_pubkey_items banned) ≡ false)
    × Closed banned 3
unfolding ban_pubkey first get_or_create_relay_members_list query_events query_events_with
    newest_first select get_or_create_application_data sign_and_store_event store_event next_reply
ban_pubkey-Closed_example = ban_pubkey-Closed 3 "spam" managed banned refl refl
