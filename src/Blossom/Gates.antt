-- ===== src/Blossom/Gates.antt =====
-- Who gets at the media store of zooid/blossom.go.
use mathlib.Core.Option.{map as map_option}
use unicity_relay.Prelude.{
  if◌then◌else◌, is_some, string_eq, nat_eq, ◌==◌, ==_refl, exists, contains, contains-remove,
  lookup, lookup-insert_same, ℕ, String, ◌≡◌, refl, ap, ◌∙◌, true, false, not, ◌||◌, none, some,
  List, [], ◌∷◌, map, arith,
}
use unicity_relay.Nostr.{Externals}
use unicity_relay.Events.Store.{get_or_create_relay_members_list}
use unicity_relay.Management.Store.{
  ManagementStore, listed_members, get_members, is_member, ban_pubkey,
}
use unicity_relay.Management.Bans.{ban-parts, ban_pubkey-Settled}
use unicity_relay.Management.Api.{Item, get_banned_pubkey_items, get_allowed_pubkey_items}
use unicity_relay.Blossom.{unauthorized, reject_upload, reject_get, reject_list, reject_delete}

module _ ⦃x : Externals⦄ where
  -- The media store refuses a key everything.
  pub record Closed (m : ManagementStore) (pubkey : ℕ) : Type 0 where
    pub upload : (size : ℕ) → is_some (reject_upload m (some pubkey) size) ≡ true
    pub gets : reject_get m (some pubkey) ≡ some unauthorized
    pub lists : reject_list m (some pubkey) ≡ some unauthorized
    pub deletes : reject_delete m (some pubkey) ≡ some unauthorized

  exists-items :
      (pubkey : ℕ) (pubkeys : List ℕ)
      → exists (λ (item : Item). item.0 == pubkey) (map (λ p. (p, "relay member")) pubkeys)
        ≡ contains pubkeys pubkey
  unfolding exists contains
  exists-items pubkey [] = refl
  exists-items pubkey (p ∷ pubkeys) = ap (λ b. p == pubkey || b) (exists-items pubkey pubkeys)

  stranger-Closed :
      (m : ManagementStore) (pubkey : ℕ) → is_member m pubkey ≡ false → Closed m pubkey
  unfolding reject_upload reject_get reject_list reject_delete
  stranger-Closed m pubkey out = record {
    upload = λ size. ground (arith, out);
    gets = ap (λ b. if not b then some unauthorized else none) out;
    lists = ap (λ b. if not b then some unauthorized else none) out;
    deletes = ap (λ b. if not b then some unauthorized else none) out;
  }

  -- With warm caches, after a `BanPubkey` that succeeds, the list of banned keys shows the key with
  -- the reason, the list of allowed keys does not show it, and the media store refuses it everything.
  pub ban_pubkey-Closed :
      (pubkey : ℕ) (reason : String) (m m' : ManagementStore)
      → m.caches_warmed ≡ true
      → ban_pubkey pubkey reason m ≡ (none, m')
      → (map_option (λ items. lookup items pubkey) (get_banned_pubkey_items m')
          ≡ some (some reason))
        × (exists (λ (item : Item). item.0 == pubkey) (get_allowed_pubkey_items m') ≡ false)
        × Closed m' pubkey
  unfolding get_banned_pubkey_items get_allowed_pubkey_items get_members
  ban_pubkey-Closed pubkey reason m m' warm done =
      let w = ban-parts pubkey reason m m' done in
      let settled = ban_pubkey-Settled pubkey reason m m' warm done in
      (
        rw (w.warmed ∙ warm, w.bans) (ap some (lookup-insert_same pubkey reason m.banned_pubkeys)),
        exists-items pubkey (
              if m'.caches_warmed
              then m'.relay_members
              else listed_members
                  (x.find_all (get_or_create_relay_members_list m'.events).tags "member"))
            ∙ rw (w.warmed ∙ warm, w.members)
                (contains-remove pubkey pubkey m.relay_members ∙ ground (arith, ==_refl pubkey)),
        stranger-Closed m' pubkey (
            settled.members pubkey
            ∙ ap (λ b. if b then false else is_member m pubkey) (==_refl pubkey)),
      )
