-- ===== src/Management/Bans.antt =====
-- Banning and allowing a key in zooid/management.go: members and bans afterwards.
use unicity_relay.Management.Lists.{
  and_then-ok, state_of, With, add_member-With, remove_member-With, add_banned_pubkey-With,
  remove_banned_pubkey-With,
}
use unicity_relay.Prelude.{
  if◌then◌else◌, string_eq, nat_eq, ◌==◌, add, remove, contains-add, contains-remove, insert,
  delete, lookup-insert, lookup-delete, ℕ, String, ◌≡◌, ap, ◌∙◌, subst, Bool, true, false, not,
  none, arith,
}
use unicity_relay.Nostr.{Externals}
use unicity_relay.Management.Store.{
  ManagementStore, Managed, ◌and_then◌, is_member, pubkey_is_banned, add_member, remove_member,
  add_banned_pubkey, remove_banned_pubkey, purge, ban_pubkey, allow_pubkey,
}

module _ ⦃x : Externals⦄ where
  -- With warm caches: who is a member and who is banned, after a change for one key.
  pub record Settled (pubkey : ℕ) (allowed : Bool) (m m' : ManagementStore) : Type 0 where
    pub members : (q : ℕ) → is_member m' q ≡ (if pubkey == q then allowed else is_member m q)
    pub bans :
        (q : ℕ)
        → pubkey_is_banned m' q ≡ (if pubkey == q then not allowed else pubkey_is_banned m q)

  pub ban-parts :
      (pubkey : ℕ) (reason : String) (m m' : ManagementStore)
      → ban_pubkey pubkey reason m ≡ (none, m')
      → With m (remove pubkey m.relay_members) (insert pubkey reason m.banned_pubkeys) m'
  ban-parts pubkey reason m m' h =
      purged (and_then-ok first (λ m₂. (none, purge pubkey m₂)) (unfold ban_pubkey in h))
    where
      first : Managed
      first = remove_member pubkey m and_then λ m₁. add_banned_pubkey pubkey reason m₁

      banned :
          (m₁ m₂ : ManagementStore)
          → remove_member pubkey m ≡ (none, m₁)
          → add_banned_pubkey pubkey reason m₁ ≡ (none, m₂)
          → With m (remove pubkey m.relay_members) (insert pubkey reason m.banned_pubkeys) m₂
      banned m₁ m₂ removed added =
          let a = remove_member-With pubkey m m₁ removed in
          let b = add_banned_pubkey-With pubkey reason m₁ m₂ added in
          record {
            members = b.members ∙ a.members;
            bans = b.bans ∙ ap (insert pubkey reason) a.bans;
            event_bans = b.event_bans ∙ a.event_bans;
            warmed = b.warmed ∙ a.warmed;
          }

      purged :
          (m₂ : ManagementStore) × (first ≡ (none, m₂))
            × (◌≡◌ {A = Managed} (none, purge pubkey m₂) (none, m'))
          → With m (remove pubkey m.relay_members) (insert pubkey reason m.banned_pubkeys) m'
      purged (m₂, done, last) =
          let (m₁, removed, added) =
            and_then-ok (remove_member pubkey m) (λ m₁. add_banned_pubkey pubkey reason m₁) done in
          let w = banned m₁ m₂ removed added in
          subst (With m (remove pubkey m.relay_members) (insert pubkey reason m.banned_pubkeys))
            (state_of (purge pubkey m₂) m' last)
            (unfold purge in
              record {
                members = w.members;
                bans = w.bans;
                event_bans = w.event_bans;
                warmed = w.warmed;
              })

  pub allow-parts :
      (pubkey : ℕ) (m m' : ManagementStore)
      → allow_pubkey pubkey m ≡ (none, m')
      → With m (add pubkey m.relay_members) (delete pubkey m.banned_pubkeys) m'
  allow-parts pubkey m m' h = combine (
      and_then-ok (add_member pubkey m) (λ m₁. remove_banned_pubkey pubkey m₁)
        (unfold allow_pubkey in h))
    where
      combine :
          (m₁ : ManagementStore) × (add_member pubkey m ≡ (none, m₁))
            × (remove_banned_pubkey pubkey m₁ ≡ (none, m'))
          → With m (add pubkey m.relay_members) (delete pubkey m.banned_pubkeys) m'
      combine (m₁, added, unbanned) =
          let a = add_member-With pubkey m m₁ added in
          let b = remove_banned_pubkey-With pubkey m₁ m' unbanned in
          record {
            members = b.members ∙ a.members;
            bans = b.bans ∙ ap (delete pubkey) a.bans;
            event_bans = b.event_bans ∙ a.event_bans;
            warmed = b.warmed ∙ a.warmed;
          }

  -- With warm caches, after a successful `BanPubkey` the key is no member and is banned, and everyone
  -- else is as before.
  pub ban_pubkey-Settled :
      (pubkey : ℕ) (reason : String) (m m' : ManagementStore)
      → m.caches_warmed ≡ true
      → ban_pubkey pubkey reason m ≡ (none, m')
      → Settled pubkey false m m'
  ban_pubkey-Settled pubkey reason m m' warm h =
      let w = ban-parts pubkey reason m m' h in
      record {
        members = λ q.
            unfold is_member in
            rw (w.warmed ∙ warm, warm, w.members)
              (contains-remove pubkey q m.relay_members ∙ ground arith);
        bans = λ q.
            unfold pubkey_is_banned in
            rw (w.warmed ∙ warm, warm, w.bans) (rw lookup-insert (ground arith));
      }

  -- With warm caches, after a successful `AllowPubkey` the key is a member and is not banned, and
  -- everyone else is as before.
  pub allow_pubkey-Settled :
      (pubkey : ℕ) (m m' : ManagementStore)
      → m.caches_warmed ≡ true
      → allow_pubkey pubkey m ≡ (none, m')
      → Settled pubkey true m m'
  allow_pubkey-Settled pubkey m m' warm h =
      let w = allow-parts pubkey m m' h in
      record {
        members = λ q.
            unfold is_member in
            rw (w.warmed ∙ warm, warm, w.members)
              (contains-add pubkey q m.relay_members ∙ ground arith);
        bans = λ q.
            unfold pubkey_is_banned in
            rw (w.warmed ∙ warm, warm, w.bans) (rw lookup-delete (ground arith));
      }
