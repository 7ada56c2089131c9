-- ===== src/Instance/Requests.antt =====
use text.Mathlib.Text.{starts_with}
-- What zooid/instance.go answers to a request and to an event that a client sends: `OnRequest`,
-- `QueryStored`, `OnEvent`, `OnEphemeralEvent`, `PreventBroadcast` and their helpers. The key that a connection has
-- authenticated is an argument, `none` without one.
use unicity_relay.Management.Joins.{JoinRefusal, validate_join_request}
use unicity_relay.Prelude.{
  if◌then◌else◌, or_else, string_eq, nat_eq, ◌==◌, select, contains, ℕ, String, Bool, false, not,
  ◌&&◌, ◌||◌, Option, none, some, List, [], ◌∷◌, ◌++◌, map,
}
use unicity_relay.Nostr.{Tag, Event, Filter, no_filter, value_of, Externals}
use unicity_relay.Config.{can_invite, can_manage}
use unicity_relay.Events.Store.{
  Failure, EventStore, query_events, unsigned, relay_members, sign_and_store_event,
}
use unicity_relay.Groups.Access.{is_group_event, can_read}
use unicity_relay.Groups.Writes.{Refusal, check_write}
use unicity_relay.Management.Store.{
  relay_add_member, relay_remove_member, relay_invite, is_member, event_is_banned, add_member,
  remove_member,
}
use unicity_relay.Instance.State.{Instance, config_in, events_in, with_management, with_store}

abbrev pub relay_join : ℕ
relay_join = 28934

abbrev pub relay_leave : ℕ
relay_leave = 28936

pub data Rejection : Type 0 where
  auth_required not_a_relay_member on_behalf_of_others kind_not_accepted event_banned : Rejection
  join_refused : JoinRefusal → Rejection
  group_refused : Refusal → Rejection

abbrev pub zero_sig : Event → Event
zero_sig event = record event { sig = 0 }

unfoldable pub is_read_only_event : Event → Bool
is_read_only_event event =
    contains (relay_add_member ∷ relay_remove_member ∷ relay_members ∷ []) event.kind

unfoldable pub is_write_only_event : Event → Bool
is_write_only_event event = contains (relay_join ∷ relay_leave ∷ []) event.kind

abbrev pub join_answer : Option JoinRefusal → Option Rejection
join_answer none = none
join_answer (some text) = some (join_refused text)

abbrev pub group_answer : Option Refusal → Option Rejection → Option Rejection
group_answer none rest = rest
group_answer (some text) rest = some (group_refused text)

module _ ⦃x : Externals⦄ where
  unfoldable pub strip_signature : Instance → Option ℕ → Event → Event
  strip_signature i authed event =
      if (config_in i).policy.strip_signatures && not (can_manage (config_in i) (or_else 0 authed))
      then zero_sig event
      else event

  abbrev pub names_member : Instance → Option Tag → Bool
  names_member i none = false
  names_member i (some tag) = elim (x.pub_key_from_hex (value_of tag)) [
    | none ↦ false
    | some pubkey ↦ is_member i.management pubkey
  ]

  unfoldable pub allow_recipient_event : Instance → Event → Bool
  allow_recipient_event i event =
      contains (x.kinds.zap ∷ x.kinds.gift_wrap ∷ []) event.kind
      && names_member i (x.find event.tags "p")

  abbrev pub is_zooid : Option Tag → Bool
  is_zooid none = false
  is_zooid (some tag) = starts_with (value_of tag) "zooid/"

  unfoldable pub is_internal_event : Event → Bool
  is_internal_event event =
      event.kind == x.kinds.application_data && is_zooid (x.find event.tags "d")

  unfoldable pub is_large_list_event : Event → Bool
  is_large_list_event event = event.kind == x.kinds.members

  unfoldable pub prevent_broadcast : Event → Bool
  unfolding is_write_only_event is_large_list_event
  prevent_broadcast event = is_write_only_event event || is_large_list_event event

  -- A connection may ask: `none` accepts.
  unfoldable pub on_request : Instance → Option ℕ → Option Rejection
  on_request i none = some auth_required
  on_request i (some pubkey) =
      if not (config_in i).policy.open_access && not (is_member i.management pubkey)
      then some not_a_relay_member
      else none

  -- The checks of an event behind the authentication; `none` accepts.
  unfoldable pub check_event : Instance → ℕ → Event → Option Rejection
  unfolding is_internal_event is_read_only_event
  check_event i pubkey event =
      let banned = if event_is_banned i.management event.id then some event_banned else none in
      if event.kind == relay_join
      then join_answer (validate_join_request i.management event)
      else if not (config_in i).policy.open_access && not (is_member i.management pubkey)
      then some not_a_relay_member
      else if is_internal_event event || is_read_only_event event
      then some kind_not_accepted
      else if is_group_event event
      then group_answer (check_write i.groups event) banned
      else banned

  unfoldable pub on_authored : Instance → Option ℕ → Event → Option Rejection
  unfolding check_event
  on_authored i none event = some auth_required
  on_authored i (some pubkey) event =
      if not (pubkey == event.pubkey) then some on_behalf_of_others else check_event i pubkey event

  unfoldable pub on_event : Instance → Option ℕ → Event → Option Rejection
  unfolding allow_recipient_event on_authored
  on_event i authed event =
      if allow_recipient_event i event then none else on_authored i authed event

  abbrev pub found_or :
      EventStore → Option Failure × Event × EventStore → List Event → Event × EventStore
  found_or st (e, event, st') [] = (event, st')
  found_or st made (event ∷ events) = (event, st)

  -- `claim` is the random text.
  unfoldable pub generate_invite_event : String → ℕ → EventStore → Event × EventStore
  generate_invite_event claim pubkey st =
      found_or st
        (sign_and_store_event st
          (unsigned relay_invite st.clock (("claim" ∷ claim ∷ []) ∷ ("p" ∷ x.hex pubkey ∷ []) ∷ [])
            "")
          false)
        (query_events st
          (record no_filter { kinds = relay_invite ∷ []; tags = ("#p", x.hex pubkey ∷ []) ∷ [] }) 1)

  -- A stored event that a client may see.
  unfoldable pub shown : Instance → ℕ → Event → Bool
  unfolding is_internal_event is_write_only_event
  shown i pubkey event =
      not (event.kind == relay_invite)
      && (not (is_internal_event event)
          && (not (is_write_only_event event)
              && (not (is_group_event event) || can_read i.groups pubkey event)))

  abbrev pub generated : Instance → Filter → String → ℕ → List Event × Instance
  generated i filter claim pubkey =
      if contains filter.kinds relay_invite && can_invite (config_in i) pubkey
      then (let made = generate_invite_event claim pubkey (events_in i) in
          (made.0 ∷ [], with_store i made.1))
      else ([], i)

  -- All that the sequence yields, and the instance afterwards.
  unfoldable pub query_stored : Instance → Bool → Option ℕ → String → Filter → List Event × Instance
  unfolding strip_signature generate_invite_event shown
  query_stored i internal authed claim filter =
      let pubkey = or_else 0 authed in
      let made = generated i filter claim pubkey in
      if internal then (query_events (events_in i) filter 0, i) else (
        map (strip_signature made.1 authed) (
            select (x.matches filter) made.0
            ++ select (shown made.1 pubkey) (query_events (events_in made.1) filter 1000)),
        made.1,
      )

  -- `OnEphemeralEvent`: the errors of the two operations are dropped.
  unfoldable pub on_ephemeral_event : Event → Instance → Instance
  on_ephemeral_event event i =
      if event.kind == relay_join
      then with_management i (add_member event.pubkey i.management).1
      else if event.kind == relay_leave
      then with_management i (remove_member event.pubkey i.management).1
      else i
