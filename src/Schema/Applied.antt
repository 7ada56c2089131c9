-- ===== src/Schema/Applied.antt =====
-- Each migration of zooid/migrate.go runs once for a schema.
use mathlib.Core.List.{append-nil, append_assoc}
use unicity_relay.Prelude.{
  if◌then◌else◌, string_eq, nat_eq, ◌==◌, lookup, insert, lookup-insert, lookup-insert_same, String,
  ◌≡◌, refl, sym, ap, ◌∙◌, subst, ◌⊎◌, inl, inr, Bool, true, false, none, some, List, [], ◌∷◌, ◌++◌,
}
use unicity_relay.Schema.{
  KeyValueStore, value, failed, next_of, next_call, row_got, get, set, exec, Entry, Texts,
  migration_failed, recording_failed, Migrated, exec_statements, and_record, key_of, apply_file,
}

-- The tables are the same.
pub record SameTables (s t : KeyValueStore) : Type 0 where
  pub same_kv : t.kv ≡ s.kv
  pub same_executed : t.executed ≡ s.executed

pub next_call-SameTables : (s : KeyValueStore) → SameTables s (next_call s).1
unfolding next_call
next_call-SameTables s = go s.plan
  where
    go : (plan : List Bool) → SameTables s (next_of plan s).1
    go [] = unfold next_of in record { same_kv = refl; same_executed = refl }
    go (answer ∷ plan) = unfold next_of in record { same_kv = refl; same_executed = refl }

next_call-quiet : (s : KeyValueStore) → s.plan ≡ [] → next_call s ≡ (true, s)
unfolding next_call next_of
next_call-quiet s quiet = ap (λ plan. next_of plan s) quiet

set-quiet :
    (key v : String) (s : KeyValueStore)
    → s.plan ≡ []
    → set key v s ≡ (true, record s { kv = insert key v s.kv })
unfolding set
set-quiet key v s quiet =
    ap
      (λ (r : Bool × KeyValueStore).
        (r.0, if r.0 then record r.1 { kv = insert key v r.1.kv } else r.1))
      (next_call-quiet s quiet)

get-quiet :
    (key : String) (s : KeyValueStore) → s.plan ≡ [] → (get key s).0 ≡ row_got (lookup s.kv key)
unfolding get
get-quiet key s quiet =
    ap (λ (r : Bool × KeyValueStore). if r.0 then row_got (lookup r.1.kv key) else failed)
      (next_call-quiet s quiet)

-- When no call fails, a write succeeds; a read of its key then returns the value, and a read of
-- another key what it returned before.
get-set :
    (key other v : String) (s : KeyValueStore)
    → s.plan ≡ []
    → ((set key v s).0 ≡ true)
      × ((get other (set key v s).1).0 ≡ (if key == other then value v else (get other s).0))
get-set key other v s quiet =
    let written = record s { kv = insert key v s.kv } in
    let is_written = ap (λ (r : Bool × KeyValueStore). r.1) (set-quiet key v s quiet) in
    (
      ap (λ (r : Bool × KeyValueStore). r.0) (set-quiet key v s quiet),
      ap (λ (t : KeyValueStore). (get other t).0) is_written
          ∙ (get-quiet other written quiet
              ∙ (ap row_got (lookup-insert key other v s.kv)
                  ∙ (choose (key == other)
                      ∙ ap (λ got. if key == other then value v else got)
                          (sym (get-quiet other s quiet))))),
    )
  where
    choose :
        (b : Bool)
        → row_got (if b then some v else lookup s.kv other)
          ≡ (if b then value v else row_got (lookup s.kv other))
    choose true = refl
    choose false = refl

-- A statement runs, and the table kv stays.
exec-kv : (statement : String) (s : KeyValueStore) → (exec statement s).1.kv ≡ s.kv
unfolding exec
exec-kv statement s = go (next_call s).0
  where
    go :
        (b : Bool)
        → (if b
            then record (next_call s).1 { executed = (next_call s).1.executed ++ statement ∷ [] }
            else (next_call s).1).kv
          ≡ s.kv
    go true = (next_call-SameTables s).same_kv
    go false = (next_call-SameTables s).same_kv

exec-executed :
    (statement : String) (s : KeyValueStore)
    → (exec statement s).0 ≡ true
    → (exec statement s).1.executed ≡ s.executed ++ statement ∷ []
unfolding exec
exec-executed statement s e =
    ap
      (λ b.
        (if b
          then record (next_call s).1 { executed = (next_call s).1.executed ++ statement ∷ [] }
          else (next_call s).1).executed)
      e
    ∙ ap (λ xs. xs ++ statement ∷ []) (next_call-SameTables s).same_executed

-- The statements of a file have run in order, if there is no error; the table kv stays.
pub record Ran (todo : List String) (s : KeyValueStore) (result : Migrated) : Type 0 where
  pub kept : result.1.kv ≡ s.kv
  pub in_order : result.0 ≡ none → result.1.executed ≡ s.executed ++ todo

pub exec_statements-Ran :
    (todo : List String) (s : KeyValueStore) → Ran todo s (exec_statements todo s)
unfolding exec_statements
exec_statements-Ran [] s = record { kept = refl; in_order = λ e. sym (append-nil s.executed) }
exec_statements-Ran (statement ∷ todo) s =
    go (exec statement s).0 refl (exec_statements-Ran todo (exec statement s).1)
  where
    t : KeyValueStore
    t = (exec statement s).1

    go :
        (b : Bool)
        → (exec statement s).0 ≡ b
        → Ran todo t (exec_statements todo t)
        → Ran
            (statement ∷ todo)
            s
            (if b then exec_statements todo t else (some migration_failed, t))
    go false e rest = record { kept = exec-kv statement s; in_order = λ h. absurd cc }
    go true e rest = record {
      kept = rest.kept ∙ exec-kv statement s;
      in_order = λ h.
          rest.in_order h
          ∙ (ap (λ xs. xs ++ todo) (exec-executed statement s e)
              ∙ append_assoc s.executed (statement ∷ []) todo);
    }

-- What a write of a key comes to.
pub set-cases :
    (key v : String) (s : KeyValueStore)
    → ((set key v s).0 ≡ true
        × (set key v s).1.kv ≡ insert key v s.kv
        × (set key v s).1.executed ≡ s.executed)
      ⊎ ((set key v s).0 ≡ false × (set key v s).1.kv ≡ s.kv)
unfolding set
set-cases key v s = go (next_call s).0
  where
    t : KeyValueStore
    t = (next_call s).1

    go :
        (b : Bool)
        → (b ≡ true
            × (if b then record t { kv = insert key v t.kv } else t).kv ≡ insert key v s.kv
            × (if b then record t { kv = insert key v t.kv } else t).executed ≡ s.executed)
          ⊎ (b ≡ false × (if b then record t { kv = insert key v t.kv } else t).kv ≡ s.kv)
    go true = inl (
      refl,
      ap (insert key v) (next_call-SameTables s).same_kv,
      (next_call-SameTables s).same_executed,
    )
    go false = inr (refl, (next_call-SameTables s).same_kv)

module _ (texts : Texts) (schema : String) where
  abbrev todo : String → List String
  todo raw = texts.split_statements (texts.render schema raw)

  -- What applying a file comes to: without an error its statements have run in order and the key is
  -- set; with an error the table kv is as before.
  abbrev pub Recorded : Entry → String → KeyValueStore → Migrated → Type 0
  Recorded entry raw s (none, t) =
      (t.executed ≡ s.executed ++ texts.split_statements (texts.render schema raw))
      × (lookup t.kv (key_of texts schema entry) ≡ some "applied")
  Recorded entry raw s (some e, t) = t.kv ≡ s.kv

  -- A migration is recorded as applied only when all its statements have run; after any error the
  -- table kv is as before, so that a later start runs the file again.
  pub apply_file-Recorded :
      (entry : Entry) (raw : String) (s : KeyValueStore)
      → Recorded entry raw s (apply_file texts schema entry (some raw) s)
  apply_file-Recorded entry raw s =
      go (exec_statements (todo raw) s) (exec_statements-Ran (todo raw) s)
    where
      key : String
      key = key_of texts schema entry

      go : (r : Migrated) → Ran (todo raw) s r → Recorded entry raw s (and_record key r)
      go (some e, t) ran = ran.kept
      go (none, t) ran = elim (set-cases key "applied" t) [
        | inl (ok_, stored, same) ↦
            subst
              (λ (b : Bool).
                Recorded entry raw s
                  ((if b then none else some recording_failed), (set key "applied" t).1))
              (sym ok_)
              (
                same ∙ ran.in_order refl,
                ap (λ m. lookup m key) stored ∙ lookup-insert_same key "applied" t.kv,
              )
        | inr (bad, same) ↦
            subst
              (λ (b : Bool).
                Recorded entry raw s
                  ((if b then none else some recording_failed), (set key "applied" t).1))
              (sym bad) (same ∙ ran.kept)
      ]
