-- ===== src/Retention/Clean.antt =====
-- What a run of the cleaner of zooid/retention.go leaves alone.
use unicity_relay.Prelude.{
  ltb, if◌then◌else◌, Bool-cases, string_eq, nat_eq, ◌==◌, ==_iff, exists, every, exists-select,
  exists_mono, contains, contains-append, keys, ℕ, ◌+◌, String, ◌≡◌, refl, sym, ap, ◌∙◌, inl, inr,
  Bool, true, false, not, ◌&&◌, Option, none, some, List, [], ◌∷◌, ◌++◌, arith,
}
use unicity_relay.Nostr.{Event}
use unicity_relay.Config.{Config}
use unicity_relay.Config.Retention.{get_retention}
use unicity_relay.Events.Table.{Database}
use unicity_relay.Events.Store.{EventStore}
use unicity_relay.Management.Store.{deleted}
use unicity_relay.Instance.State.{Instance, config_in, events_in, with_store}
use unicity_relay.Retention.{Planner, expired_ids, delete_in, delete_expired_group_messages}
use unicity_relay.Retention.Batches.{expired_ids-delete_in, delete_in-delete_in, delete_in_none}
use unicity_relay.Retention.Runs.{delete_expired_group_messages_ends}
use unicity_relay.Retention.Passes.{
  cutoff_of, clean_group, clean_groups, is_cleaned, clean_instance,
}

-- A row with this id is there.
abbrev pub held : ℕ → Database → Bool
held k db = exists (λ (row : Event). row.id == k) db.rows

every-contains :
    (p : ℕ → Bool) (ids : List ℕ) (k : ℕ) → every p ids ≡ true → contains ids k ≡ true → p k ≡ true
unfolding every contains
every-contains p [] k all is = absurd cc
every-contains p (i ∷ ids) k all is = elim (Bool-cases (i == k)) [
  | inl same ↦ ground (arith, all, ap p ((==_iff i k).0 same))
  | inr other ↦ every-contains p ids k (ground arith) (ground (arith, is, other))
]

held-delete_in :
    (ids : List ℕ) (db : Database) (k : ℕ)
    → contains ids k ≡ false
    → held k db ≡ true
    → held k (delete_in ids db) ≡ true
unfolding delete_in
held-delete_in ids db k out is =
    exists-select (λ (row : Event). row.id == k) (λ (row : Event). not (contains ids row.id))
      db.rows
    ∙ exists_mono (λ (row : Event). row.id == k)
        (λ (row : Event). not (contains ids row.id) && row.id == k) db.rows
        (λ row same. ground (arith, same, ap (λ j. contains ids j) ((==_iff row.id k).0 same), out))
        is

module _ ⦃planner : Planner⦄ (now : String → ℕ) where
  -- A group of the cache has a retention, and a message with this id has expired in it.
  abbrev pub is_due : Instance → ℕ → Bool
  is_due i k =
      exists
        (λ group.
          ltb 0 (get_retention (config_in i) group)
          && contains (expired_ids group (cutoff_of now (config_in i) group) (events_in i).database)
              k)
        (keys i.groups.metadata_cache)

  -- The state after some groups: rows with other ids are left.
  abbrev Kept : EventStore × ℕ → Option (ℕ × EventStore) → Database → Type 0
  Kept (st, k) result db =
      (n : ℕ) × (st' : EventStore) × (ids : List ℕ) × (result ≡ some (n, st'))
      × (st'.database ≡ delete_in ids db)
      × (contains ids k ≡ false)

  clean_group_keeps :
      (config : Config) (group : String) (total : ℕ) (st : EventStore) (ids : List ℕ)
      (db : Database) (k : ℕ)
      → st.database ≡ delete_in ids db
      → contains ids k ≡ false
      → (ltb 0 (get_retention config group)
          && contains (expired_ids group (cutoff_of now config group) db) k)
        ≡ false
      → Kept (st, k) (clean_group now config group total st) db
  unfolding clean_group
  clean_group_keeps config group total st ids db k left out not_due =
      go (ltb 0 (get_retention config group)) refl
    where
      cutoff : ℕ
      cutoff = cutoff_of now config group

      go :
          (b : Bool)
          → ltb 0 (get_retention config group) ≡ b
          → Kept
              (st, k)
              (if not b
                then some (total, st)
                else elim (delete_expired_group_messages group cutoff st) [
                  | none ↦ none
                  | some (deleted, st₁) ↦
                      some ((if ltb 0 deleted then total + deleted else total), st₁)
                ])
              db
      go false e = (total, st, ids, refl, left, out)
      go true e =
          let (n, st', more, returns, after, due, count) =
            delete_expired_group_messages_ends group cutoff st in
          (
            (if ltb 0 n then total + n else total),
            st',
            ids ++ more,
            ap
                (λ (r : Option (ℕ × EventStore)). elim r [
                  | none ↦ none
                  | some (deleted, st₁) ↦
                      some ((if ltb 0 deleted then total + deleted else total), st₁)
                ])
                returns,
            after ∙ (ap (delete_in more) left ∙ delete_in-delete_in ids more db),
            ground (
              arith,
              e,
              out,
              not_due,
              contains-append ids more k,
              every-contains (contains (expired_ids group cutoff st.database)) more k due,
              ap (λ (d : Database). contains (expired_ids group cutoff d) k) left,
              expired_ids-delete_in group cutoff ids db k,
            ),
          )

  clean_groups_keeps :
      (config : Config) (groups : List String) (total : ℕ) (st : EventStore) (ids : List ℕ)
      (db : Database) (k : ℕ)
      → st.database ≡ delete_in ids db
      → contains ids k ≡ false
      → exists
          (λ group.
            ltb 0 (get_retention config group)
            && contains (expired_ids group (cutoff_of now config group) db) k)
          groups
        ≡ false
      → Kept (st, k) (clean_groups now config groups total st) db
  unfolding clean_groups exists
  clean_groups_keeps config [] total st ids db k left out not_due =
      (total, st, ids, refl, left, out)
  clean_groups_keeps config (group ∷ groups) total st ids db k left out not_due =
      let (n, st', more, returns, after, rest) =
        clean_group_keeps config group total st ids db k left out (ground arith) in
      let (m, st'', all, ends, end, spared) =
        clean_groups_keeps config groups n st' more db k after rest (ground arith) in
      (
        m,
        st'',
        all,
        ap
              (λ (r : Option (ℕ × EventStore)). elim r [
                | none ↦ none
                | some (total₁, st₁) ↦ clean_groups now config groups total₁ st₁
              ])
              returns
            ∙ ends,
        end,
        spared,
      )

  -- A run of the cleaner over an instance ends, whatever the statements come to, and deletes no row
  -- but those whose id has expired in a group of the metadata cache that has a retention.
  pub clean_instance_keeps :
      (i : Instance) (k : ℕ)
      → held k (events_in i).database ≡ true
      → is_due i k ≡ false
      → (n : ℕ) × (j : Instance) × (clean_instance now i ≡ some (n, j))
        × (held k (events_in j).database ≡ true)
  unfolding clean_instance
  clean_instance_keeps i k is not_due = go (is_cleaned now i)
    where
      run :
          Kept
            (events_in i, k)
            (clean_groups now (config_in i) (keys i.groups.metadata_cache) 0 (events_in i))
            (events_in i).database
      run =
          unfold contains in
          clean_groups_keeps (config_in i) (keys i.groups.metadata_cache) 0 (events_in i) []
            (events_in i).database k (sym (delete_in_none (events_in i).database)) refl not_due

      go :
          (cleaned : Bool)
          → (n : ℕ) × (j : Instance) × (if◌then◌else◌ {A = Option (ℕ × Instance)}
                (not cleaned)
                (some (0, i))
                (elim (clean_groups now
                  (config_in i)
                  (keys i.groups.metadata_cache)
                  0
                  (events_in i)) [ none ↦ none | some (total, st) ↦ some (total, with_store i st) ])
              ≡ some (n, j))
            × (held k (events_in j).database ≡ true)
      go false = (0, i, refl, is)
      go true =
          let (n, st, ids, returns, left, out) = run in
          (
            n,
            with_store i st,
            ap
                (λ (r : Option (ℕ × EventStore)). elim r [
                  | none ↦ none
                  | some (total, st₁) ↦ some (total, with_store i st₁)
                ])
                returns,
            ap (held k) left ∙ held-delete_in ids (events_in i).database k out is,
          )
