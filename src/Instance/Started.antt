-- ===== src/Instance/Started.antt =====
-- Who is a member of the relay after a start of zooid/instance.go.
use unicity_relay.Groups.Warm.{warm_caches as warm_groups}
use unicity_relay.Management.Warm.{warm_caches as warm_management}
use mathlib.Core.Option.{map as map_option}
use unicity_relay.Prelude.{
  is_some, string_eq, nat_eq, ℕ, String, Bool, true, not, ◌&&◌, Option, none, some, List, [], ◌∷◌,
}
use unicity_relay.Nostr.{Externals}
use unicity_relay.Management.Store.{ManagementStore, is_member, pubkey_is_banned, allow_pubkey}
use unicity_relay.Instance.State.{Instance}

module _ ⦃x : Externals⦄ where
  -- A member that is not banned.
  abbrev pub is_in_good_standing : ManagementStore → ℕ → Bool
  is_in_good_standing m q = is_member m q && not (pubkey_is_banned m q)

  -- Each of the calls of `AllowPubkey` returns no error.
  unfoldable pub all_allowed : List ℕ → ManagementStore → Bool
  all_allowed [] m = true
  all_allowed (k ∷ pubkeys) m =
      not (is_some (allow_pubkey k m).0) && all_allowed pubkeys (allow_pubkey k m).1

  -- Nothing is required where the text is no key.
  abbrev pub decodes_to_good_standing : ManagementStore → String → Bool
  decodes_to_good_standing m hex = elim (x.pub_key_from_hex hex) [
    | none ↦ true
    | some pubkey ↦ is_in_good_standing m pubkey
  ]
