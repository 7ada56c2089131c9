-- ===== src/Config/Rights.antt =====
-- What the roles permit: `CanManage` and `CanInvite` against the role table.
use unicity_relay.Prelude.{
  ◌==◌, nat_eq, string_eq, exists, contains, Map, ℕ, String, ◌≡◌, refl, Bool, ◌&&◌, ◌||◌, [], ◌∷◌,
  arith,
}
use unicity_relay.Nostr.{Externals}
use unicity_relay.Config.{Role, Config, get_self, all_roles, can_invite, can_manage}

module _ ⦃x : Externals⦄ where
  -- The entry gives its role to the key: it is the entry "member", or it lists the key.
  abbrev pub grants : (Role → Bool) → ℕ → String × Role → Bool
  grants right pubkey entry =
      (entry.0 == "member" || contains entry.1.pubkeys (x.hex pubkey)) && right entry.1

  pub exists-all_roles :
      (right : Role → Bool) (roles : Map String Role) (pubkey : ℕ)
      → exists right (all_roles roles pubkey) ≡ exists (grants right pubkey) roles
  unfolding all_roles exists
  exists-all_roles right [] pubkey = refl
  exists-all_roles right (entry ∷ roles) pubkey =
      ground (arith, exists-all_roles right roles pubkey)

  -- A key may manage exactly if it is the owner, the relay itself, or an entry of the role table
  -- that is named "member" or lists the key has the flag `can_manage`; and likewise for
  -- `can_invite`.
  rights_iff :
      (config : Config) (pubkey : ℕ)
      → (can_manage config pubkey ≡ (
          pubkey == config.owner
          || (pubkey == get_self config
              || exists (grants (λ role. role.can_manage) pubkey) config.roles)))
        × (can_invite config pubkey ≡ (
            pubkey == config.owner
            || (pubkey == get_self config
                || exists (grants (λ role. role.can_invite) pubkey) config.roles)))
  unfolding can_manage can_invite
  rights_iff config pubkey = (
    ground (arith, exists-all_roles (λ role. role.can_manage) config.roles pubkey),
    ground (arith, exists-all_roles (λ role. role.can_invite) config.roles pubkey),
  )
