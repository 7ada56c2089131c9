-- ===== src/Management/Joins.antt =====
-- Who may join the relay: `ValidateJoinRequest` of zooid/management.go.
use unicity_relay.Prelude.{
  if◌then◌else◌, is_some, string_eq, nat_eq, exists, ◌≡◌, refl, Bool, true, false, not, ◌&&◌, ◌||◌,
  Option, none, some, [], ◌∷◌, arith,
}
use unicity_relay.Nostr.{Tag, Event, no_filter, value_of, Externals}
use unicity_relay.Events.Store.{query_events}
use unicity_relay.Management.Store.{
  ManagementStore, managed_config, relay_invite, is_member, pubkey_is_banned,
}

-- The texts that reject a join request.
pub data JoinRefusal : Type 0 where
  banned no_claim invalid_code : JoinRefusal

module _ ⦃x : Externals⦄ where
  -- The answer to the claim tag.
  unfoldable pub claim_answer : ManagementStore → Option Tag → Option JoinRefusal
  claim_answer m none = some no_claim
  claim_answer m (some tag) =
      if exists (λ invite. is_some (x.find_with_value invite.tags "claim" (value_of tag)))
        (query_events m.events (record no_filter { kinds = relay_invite ∷ [] }) 0)
      then none
      else some invalid_code

  unfoldable pub validate_join_request : ManagementStore → Event → Option JoinRefusal
  unfolding claim_answer
  validate_join_request m event =
      if is_member m event.pubkey
      then none
      else if pubkey_is_banned m event.pubkey
      then some banned
      else if (managed_config m).policy.public_join
      then none
      else claim_answer m (x.find event.tags "claim")

  -- Some invite that the database yields carries the code of the claim tag.
  abbrev pub invited : ManagementStore → Option Tag → Bool
  invited m none = false
  invited m (some tag) =
      exists (λ invite. is_some (x.find_with_value invite.tags "claim" (value_of tag)))
        (query_events m.events (record no_filter { kinds = relay_invite ∷ [] }) 0)

  abbrev pub lets_join : Option JoinRefusal → Bool
  lets_join none = true
  lets_join (some text) = false

  claim_answer-invited :
      (m : ManagementStore) (tag : Option Tag) → lets_join (claim_answer m tag) ≡ invited m tag
  unfolding claim_answer
  claim_answer-invited m none = refl
  claim_answer-invited m (some tag) = ground arith

  -- A join request is accepted exactly if its author is a member, or is not banned and either the
  -- relay is open to join or an invite has the code that the request claims.
  validate_join_request_iff :
      (m : ManagementStore) (event : Event)
      → lets_join (validate_join_request m event) ≡ (
          is_member m event.pubkey
          || (not (pubkey_is_banned m event.pubkey)
              && ((managed_config m).policy.public_join || invited m (x.find event.tags "claim"))))
  unfolding validate_join_request
  validate_join_request_iff m event =
      ground (arith, claim_answer-invited m (x.find event.tags "claim"))
