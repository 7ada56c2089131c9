-- ===== src/Schema/Once.antt =====
-- A second start runs no migration of zooid/migrate.go again.
use unicity_relay.Prelude.{
  if◌then◌else◌, is_some, string_eq, nat_eq, ◌==◌, every, Map, lookup, insert, lookup-insert,
  lookup-insert_same, String, ◌≡◌, refl, ap, ◌∙◌, inl, inr, Bool, true, false, not, ◌||◌, Option,
  none, some, List, [], ◌∷◌, arith,
}
use unicity_relay.Schema.{
  KeyValueStore, Got, value, not_found, failed, get, Entry, Texts, Migrated, exec_statements,
  and_record, key_of, apply_file, after_check, is_migration, run_entry, and_run, run_entries,
  run_migrations,
}
use unicity_relay.Schema.Applied.{SameTables, Ran, exec_statements-Ran, set-cases}
use unicity_relay.Schema.Reads.{Grows, get-SameTables, is_value, is_not_found, get-value, get-found}

module _ (texts : Texts) (schema : String) where
  -- The entry is no migration, or it is recorded.
  abbrev is_applied : KeyValueStore → Entry → Bool
  is_applied s entry =
      not (is_migration texts schema entry) || is_some (lookup s.kv (key_of texts schema entry))

  record Done (entry : Entry) (s : KeyValueStore) (result : Migrated) : Type 0 where
    grows : Grows s result.1
    recorded : result.0 ≡ none → is_some (lookup result.1.kv (key_of texts schema entry)) ≡ true

  record_Done :
      (entry : Entry) (todo : List String) (s : KeyValueStore) (r : Migrated)
      → Ran todo s r
      → Done entry s (and_record (key_of texts schema entry) r)
  record_Done entry todo s (some e, t) ran = record {
    grows = λ k is. ap (λ m. is_some (lookup m k)) ran.kept ∙ is;
    recorded = λ h. absurd cc;
  }
  record_Done entry todo s (none, t) ran =
      elim (set-cases (key_of texts schema entry) "applied" t) [
        | inl (ok_, stored, same) ↦ record {
          grows = λ k is.
              ap (λ m. is_some (lookup m k))
                (stored ∙ ap (insert (key_of texts schema entry) "applied") ran.kept)
              ∙ kept k is;
          recorded = λ h.
              ap (λ m. is_some (lookup m (key_of texts schema entry))) stored
              ∙ ap is_some (lookup-insert_same (key_of texts schema entry) "applied" t.kv);
        }
        | inr (bad, same) ↦ record {
          grows = λ k is. ap (λ m. is_some (lookup m k)) (same ∙ ran.kept) ∙ is;
          recorded = λ h. absurd (ground (arith, bad, h));
        }
      ]
    where
      kept :
          (k : String)
          → is_some (lookup s.kv k) ≡ true
          → is_some (lookup (insert (key_of texts schema entry) "applied" s.kv) k) ≡ true
      kept k is =
          ap is_some (lookup-insert (key_of texts schema entry) k "applied" s.kv)
          ∙ (choose (key_of texts schema entry == k))
        where
          choose : (b : Bool) → is_some (if b then some "applied" else lookup s.kv k) ≡ true
          choose true = refl
          choose false = is

  check_Done :
      (entry : Entry) (s : KeyValueStore) (got : Got) (t : KeyValueStore)
      → SameTables s t
      → ((v : String) → got ≡ value v → is_some (lookup s.kv (key_of texts schema entry)) ≡ true)
      → Done entry s (after_check texts schema entry (got, t))
  check_Done entry s got t same found = go got found
    where
      rebase : (r : Migrated) → Done entry t r → Done entry s r
      rebase r done = record {
        grows = λ k is. done.grows k (ap (λ m. is_some (lookup m k)) same.same_kv ∙ is);
        recorded = done.recorded;
      }

      unchanged : Grows s t
      unchanged k is = ap (λ m. is_some (lookup m k)) same.same_kv ∙ is

      read : (raw : Option String) → Done entry s (apply_file texts schema entry raw t)
      read none = record { grows = unchanged; recorded = λ h. absurd cc }
      read (some raw) =
          let todo = texts.split_statements (texts.render schema raw) in
          rebase (apply_file texts schema entry (some raw) t)
            (record_Done entry todo t (exec_statements todo t) (exec_statements-Ran todo t))

      go :
          (got : Got)
          → ((v : String)
              → got ≡ value v
              → is_some (lookup s.kv (key_of texts schema entry)) ≡ true)
          → Done entry s (after_check texts schema entry (got, t))
      go (value v) found = record {
        grows = unchanged;
        recorded = λ h. unchanged (key_of texts schema entry) (found v refl);
      }
      go failed found = record { grows = unchanged; recorded = λ h. absurd cc }
      go not_found found = read entry.raw

  run_entry_step :
      (entry : Entry) (s : KeyValueStore)
      → Grows s (run_entry texts schema entry s).1
        × ((run_entry texts schema entry s).0 ≡ none
            → is_applied (run_entry texts schema entry s).1 entry ≡ true)
  unfolding run_entry
  run_entry_step entry s = go (is_migration texts schema entry)
    where
      key : String
      key = key_of texts schema entry

      checked : Done entry s (after_check texts schema entry (get key s))
      checked =
          check_Done entry s (get key s).0 (get key s).1 (get-SameTables key s)
            (λ v e. get-value key s (ap is_value e))

      go :
          (b : Bool)
          → let r = if not b then (none, s) else after_check texts schema entry (get key s) in
            Grows s r.1 × (r.0 ≡ none → (not b || is_some (lookup r.1.kv key)) ≡ true)
      go false = (λ k is. is, λ h. refl)
      go true = (checked.grows, checked.recorded)

  run_entry-SameTables :
      (entry : Entry) (s : KeyValueStore)
      → is_applied s entry ≡ true
      → SameTables s (run_entry texts schema entry s).1
  unfolding run_entry
  run_entry-SameTables entry s is = go (is_migration texts schema entry) is
    where
      key : String
      key = key_of texts schema entry

      checked :
          (got : Got) (t : KeyValueStore)
          → is_not_found got ≡ false
          → SameTables s t
          → SameTables s (after_check texts schema entry (got, t)).1
      checked (value v) t e same = same
      checked failed t e same = same
      checked not_found t e same = absurd cc

      go :
          (b : Bool)
          → (not b || is_some (lookup s.kv key)) ≡ true
          → SameTables s (if not b then (none, s) else after_check texts schema entry (get key s)).1
      go false is = record { same_kv = refl; same_executed = refl }
      go true is = checked (get key s).0 (get key s).1 (get-found key s is) (get-SameTables key s)

  is_applied-Grows :
      (s t : KeyValueStore) (entry : Entry)
      → Grows s t
      → is_applied s entry ≡ true
      → is_applied t entry ≡ true
  is_applied-Grows s t entry grows is = ground (arith, is, grows (key_of texts schema entry))

  run_entries_applied :
      (entries : List Entry) (s : KeyValueStore)
      → Grows s (run_entries texts schema entries s).1
        × ((run_entries texts schema entries s).0 ≡ none
            → every (is_applied (run_entries texts schema entries s).1) entries ≡ true)
  unfolding run_entries every
  run_entries_applied [] s = (λ k is. is, λ h. refl)
  run_entries_applied (entry ∷ entries) s =
      go (run_entry texts schema entry s) (run_entry_step entry s) (run_entries_applied entries)
    where
      go :
          (r : Migrated)
          → Grows s r.1 × (r.0 ≡ none → is_applied r.1 entry ≡ true)
          → ((t : KeyValueStore)
              → Grows t (run_entries texts schema entries t).1
                × ((run_entries texts schema entries t).0 ≡ none
                    → every (is_applied (run_entries texts schema entries t).1) entries ≡ true))
          → let a = and_run texts schema r (run_entries texts schema entries) in
            Grows s a.1 × (a.0 ≡ none → every (is_applied a.1) (entry ∷ entries) ≡ true)
      go (some e, t) (grows, is) ih = (grows, λ h. absurd cc)
      go (none, t) (grows, is) ih =
          let (more, all) = ih t in
          (
            λ k h. more k (grows k h),
            λ h. ground (
              arith,
              all h,
              is_applied-Grows t (run_entries texts schema entries t).1 entry more (is refl),
            ),
          )

  run_entries-SameTables :
      (entries : List Entry) (s : KeyValueStore)
      → every (is_applied s) entries ≡ true
      → SameTables s (run_entries texts schema entries s).1
  unfolding run_entries every
  run_entries-SameTables [] s all = record { same_kv = refl; same_executed = refl }
  run_entries-SameTables (entry ∷ entries) s all =
      go (run_entry texts schema entry s) (run_entry-SameTables entry s (ground arith))
        (run_entries-SameTables entries)
    where
      go :
          (r : Migrated)
          → SameTables s r.1
          → ((t : KeyValueStore)
              → every (is_applied t) entries ≡ true
              → SameTables t (run_entries texts schema entries t).1)
          → SameTables s (and_run texts schema r (run_entries texts schema entries)).1
      go (some e, t) same ih = same
      go (none, t) same ih =
          let rest = ih t (every_same t same.same_kv (ground arith)) in
          record {
            same_kv = rest.same_kv ∙ same.same_kv;
            same_executed = rest.same_executed ∙ same.same_executed;
          }
        where
          every_same :
              (t : KeyValueStore)
              → t.kv ≡ s.kv
              → every (is_applied s) entries ≡ true
              → every (is_applied t) entries ≡ true
          every_same t same rest =
              ap
                (λ (m : Map String String).
                  every
                    (λ e.
                      not (is_migration texts schema e)
                      || is_some (lookup m (key_of texts schema e)))
                    entries)
                same
              ∙ rest

  -- After a start that has run the migrations without an error, a later start from its table kv runs
  -- no statement and changes no row of the table, whichever of its own calls fail.
  pub run_migrations_again :
      (entries : List Entry) (s : KeyValueStore) (plan : List Bool)
      → (run_migrations texts schema entries s).0 ≡ none
      → let first_run = (run_migrations texts schema entries s).1 in
        let again = (run_migrations texts schema entries (record first_run { plan = plan })).1 in
        (again.executed ≡ first_run.executed) × (again.kv ≡ first_run.kv)
  unfolding run_migrations
  run_migrations_again entries s plan succeeds =
      let first_run = (run_entries texts schema (texts.sort_entries entries) s).1 in
      let same =
        run_entries-SameTables (texts.sort_entries entries) (record first_run { plan = plan })
          ((run_entries_applied (texts.sort_entries entries) s).1 succeeds) in
      (same.same_executed, same.same_kv)
