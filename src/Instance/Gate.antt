-- ===== src/Instance/Gate.antt =====
-- Which events zooid/instance.go lets a client publish: `OnEvent`.
use unicity_relay.Management.Joins.{JoinRefusal, validate_join_request}
use unicity_relay.Prelude.{
  if◌then◌else◌, Bool-cases, string_eq, nat_beq_iff, nat_eq, ◌==◌, first, contains, ℕ, ◌≡◌, refl,
  sym, subst, inl, inr, Bool, true, false, not, ◌&&◌, ◌||◌, Option, none, some, List, [], ◌∷◌,
  arith,
}
use unicity_relay.Nostr.{Tag, Event, has_name, value_of, Externals}
use unicity_relay.Groups.Access.{is_group_event}
use unicity_relay.Groups.Writes.{Refusal, check_write}
use unicity_relay.Management.Store.{is_member, event_is_banned}
use unicity_relay.Instance.State.{Instance, config_in}
use unicity_relay.Instance.Requests.{
  relay_join, Rejection, on_behalf_of_others, event_banned, is_read_only_event, join_answer,
  group_answer, names_member, allow_recipient_event, is_zooid, is_internal_event, check_event,
  on_authored, on_event,
}

abbrev pub is_accepted : Option Rejection → Bool
is_accepted none = true
is_accepted (some text) = false

abbrev pub passes_groups : Option Refusal → Bool
passes_groups none = true
passes_groups (some text) = false

abbrev pub passes_join : Option JoinRefusal → Bool
passes_join none = true
passes_join (some text) = false

-- The connection has authenticated as this key.
abbrev pub authed_as : Option ℕ → ℕ → Bool
authed_as none pubkey = false
authed_as (some key) pubkey = key == pubkey

module _ ⦃x : Externals⦄ where
  -- The first tag that names a pubkey names a member.
  abbrev pub is_for_member : Instance → List Tag → Bool
  is_for_member i [] = false
  is_for_member i (tag ∷ tags) =
      if has_name "p" tag
      then elim (x.pub_key_from_hex (value_of tag)) [
        | none ↦ false
        | some pubkey ↦ is_member i.management pubkey
      ]
      else is_for_member i tags

  -- The relay's own data, and the kinds that only the relay writes.
  abbrev pub is_reserved : Event → Bool
  is_reserved event =
      (event.kind == x.kinds.application_data && is_zooid (first (has_name "d") event.tags))
      || (event.kind == 8000 || (event.kind == 8001 || event.kind == 13534))

  -- What `OnEvent` demands of an author: an accepted join request, or membership where the relay is
  -- not open, a kind that clients may write, the group's consent and no ban of the event.
  abbrev pub may_publish : Instance → Event → Bool
  may_publish i event =
      if event.kind == relay_join
      then passes_join (validate_join_request i.management event)
      else ((config_in i).policy.open_access || is_member i.management event.pubkey)
        && (not (is_reserved event)
            && ((not (is_group_event event) || passes_groups (check_write i.groups event))
                && not (event_is_banned i.management event.id)))

  join_answer-passes : (r : Option JoinRefusal) → is_accepted (join_answer r) ≡ passes_join r
  join_answer-passes none = refl
  join_answer-passes (some text) = refl

  group_answer-passes :
      (r : Option Refusal) (rest : Option Rejection)
      → is_accepted (group_answer r rest) ≡ (passes_groups r && is_accepted rest)
  group_answer-passes none rest = refl
  group_answer-passes (some text) rest = refl

  reserved :
      (event : Event) → (is_internal_event event || is_read_only_event event) ≡ is_reserved event
  unfolding is_internal_event is_read_only_event contains
  reserved event = rw (x.find_lem event.tags "d") (ground arith)

  names_member-is_for_member :
      (i : Instance) (tags : List Tag)
      → names_member i (first (has_name "p") tags) ≡ is_for_member i tags
  unfolding first
  names_member-is_for_member i [] = refl
  names_member-is_for_member i (tag ∷ tags) =
      go (has_name "p" tag) (names_member-is_for_member i tags)
    where
      go :
          (b : Bool)
          → names_member i (first (has_name "p") tags) ≡ is_for_member i tags
          → names_member i (if b then some tag else first (has_name "p") tags) ≡ (
              if b
              then elim (x.pub_key_from_hex (value_of tag)) [
                | none ↦ false
                | some pubkey ↦ is_member i.management pubkey
              ]
              else is_for_member i tags)
      go true rest = refl
      go false rest = rest

  recipient :
      (i : Instance) (event : Event)
      → allow_recipient_event i event ≡ (
          (event.kind == x.kinds.zap || event.kind == x.kinds.gift_wrap)
          && is_for_member i event.tags)
  unfolding allow_recipient_event contains
  recipient i event =
      rw (x.find_lem event.tags "p", names_member-is_for_member i event.tags) (ground arith)

  check_event-may_publish :
      (i : Instance) (event : Event)
      → is_accepted (check_event i event.pubkey event) ≡ may_publish i event
  unfolding check_event
  check_event-may_publish i event = ground (
    arith,
    reserved event,
    join_answer-passes (validate_join_request i.management event),
    group_answer-passes (check_write i.groups event)
        (if event_is_banned i.management event.id then some event_banned else none),
  )

  on_authored_iff :
      (i : Instance) (authed : Option ℕ) (event : Event)
      → is_accepted (on_authored i authed event)
        ≡ (authed_as authed event.pubkey && may_publish i event)
  unfolding on_authored
  on_authored_iff i none event = refl
  on_authored_iff i (some key) event = elim (Bool-cases (key == event.pubkey)) [
    | inl h ↦
        subst
          (λ (k : ℕ).
            is_accepted
              (if not (k == event.pubkey) then some on_behalf_of_others else check_event i k event)
            ≡ (k == event.pubkey && may_publish i event))
          (sym ((nat_beq_iff key event.pubkey).0 h))
          (ground (arith, check_event-may_publish i event))
    | inr h ↦ ground arith
  ]

  -- An event is accepted exactly if it is a zap receipt or a gift wrap whose first p-tag with a value
  -- decodes to a member, or if the connection has authenticated as its author and it is a valid join
  -- request or otherwise fulfils all of this: its author is a member or the relay is open, it is
  -- neither data of the relay nor of the kinds 8000, 8001 and 13534, `CheckWrite` accepts it if it
  -- belongs to a group, and it is not banned.
  pub on_event_iff :
      (i : Instance) (authed : Option ℕ) (event : Event)
      → is_accepted (on_event i authed event) ≡ (
          ((event.kind == x.kinds.zap || event.kind == x.kinds.gift_wrap)
            && is_for_member i event.tags)
          || (authed_as authed event.pubkey && may_publish i event))
  unfolding on_event
  on_event_iff i authed event = ground (arith, recipient i event, on_authored_iff i authed event)
