-- ===== src/Migrate/Counts.antt =====
-- What the success of cmd/migrate/main.go says.
use unicity_relay.Prelude.{
  if◌then◌else◌, or_else, string_eq, nat_eq, every, String, ◌≡◌, refl, ap, ◌∙◌, subst, Bool, true,
  false, ◌&&◌, Option, none, some, List, [], ◌∷◌,
}
use unicity_relay.Migrate.{
  Source, Postgres, discover_tables, compare_counts, Answer, and_then, create_schema,
  migrate_tables, backfill_search_vectors, mismatches, verify_counts, run_with, migrate,
}

module _ (db : Postgres) where
  -- Both counts of the table are read and are the same.
  abbrev pub agrees : Source → db.State → String → Bool
  agrees source s table =
      or_else false (compare_counts (source.count table) (db.count_rows table s))

  and_then-true :
      (a : Answer db) (f : db.State → Answer db)
      → (and_then db a f).0 ≡ true
      → (s : db.State) × (f s ≡ and_then db a f)
  and_then-true (true, s) f e = (s, refl)
  and_then-true (false, s) f e = absurd cc

  mismatches-every :
      (source : Source) (tables : List String) (s : db.State)
      → mismatches db source tables s ≡ some []
      → every (agrees source s) tables ≡ true
  unfolding mismatches every
  mismatches-every source [] s e = refl
  mismatches-every source (table ∷ tables) s e =
      go (compare_counts (source.count table) (db.count_rows table s))
        (mismatches db source tables s) (mismatches-every source tables s) e
    where
      go :
          (o : Option Bool) (r : Option (List String))
          → (r ≡ some [] → every (agrees source s) tables ≡ true)
          → elim o [
            | none ↦ none
            | some agree ↦ elim r [
              | none ↦ none
              | some rest ↦ some (if agree then rest else table ∷ rest)
            ]
          ]
            ≡ some []
          → (or_else false o && every (agrees source s) tables) ≡ true
      go none r ih e = absurd cc
      go (some agree) none ih e = absurd cc
      go (some true) (some rest) ih e = ih e
      go (some false) (some rest) ih e = absurd cc

  verify_counts-every :
      (source : Source) (tables : List String) (s : db.State)
      → verify_counts db source tables s ≡ true
      → every (agrees source s) tables ≡ true
  unfolding verify_counts
  verify_counts-every source tables s e =
      mismatches-every source tables s (go (mismatches db source tables s) e)
    where
      go :
          (r : Option (List String))
          → elim r [ none ↦ false | some [] ↦ true | some (table ∷ rest) ↦ false ] ≡ true
          → r ≡ some []
      go none e = absurd cc
      go (some []) e = refl
      go (some (table ∷ rest)) e = absurd cc

  run_with-verified :
      (source : Source) (tables : Option (List String)) (s : db.State)
      → (run_with db source tables s).0 ≡ true
      → (names : List String) × (tables ≡ some names)
        × (verify_counts db source names (run_with db source tables s).1 ≡ true)
  run_with-verified source none s e = absurd cc
  run_with-verified source (some names) s e =
      let run = run_with db source (some names) s in
      let (s₁, e₁) =
        and_then-true (create_schema db names s)
          (λ s₁. and_then db (migrate_tables db source names s₁) (λ s₂.
            and_then db (backfill_search_vectors db names s₂)
              (λ s₃. (verify_counts db source names s₃, s₃))))
          e in
      let (s₂, e₂) =
        and_then-true (migrate_tables db source names s₁)
          (λ s₂.
            and_then db (backfill_search_vectors db names s₂)
              (λ s₃. (verify_counts db source names s₃, s₃)))
          (ap (λ (a : Answer db). a.0) e₁ ∙ e) in
      let (s₃, e₃) =
        and_then-true (backfill_search_vectors db names s₂)
          (λ s₃. (verify_counts db source names s₃, s₃))
          (ap (λ (a : Answer db). a.0) (e₂ ∙ e₁) ∙ e) in
      (
        names,
        refl,
        subst (λ (t : db.State). verify_counts db source names t ≡ true)
            (ap (λ (a : Answer db). a.1) (e₃ ∙ (e₂ ∙ e₁)))
            (ap (λ (a : Answer db). a.0) (e₃ ∙ (e₂ ∙ e₁)) ∙ e),
      )

  -- When the tool ends without an error, it has found the tables, and at the end both counts of each
  -- of them could be read and are the same, whatever went wrong unnoticed on the way.
  pub migrate-verified :
      (source : Source) (s : db.State)
      → (migrate db source s).0 ≡ true
      → (tables : List String) × (discover_tables source ≡ some tables)
        × (every (agrees source (migrate db source s).1) tables ≡ true)
  unfolding migrate
  migrate-verified source s e =
      let (names, found, verified) = run_with-verified source (discover_tables source) s e in
      (
        names,
        found,
        verify_counts-every source names (run_with db source (discover_tables source) s).1 verified,
      )
