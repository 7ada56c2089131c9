-- ===== src/Events/Answers.antt =====
-- Which rows the query of zooid/events.go answers with: its CTE, joins and conditions against a plain
-- filter.
use unicity_relay.Prelude.{
  ltb, string_eq, nat_eq, ◌==◌, select, exists, every, exists-append, exists-select, contains,
  contains-add, Map, ℕ, zero, suc, String, ◌≡◌, refl, ap, ◌∙◌, Bool, ◌&&◌, List, [], ◌∷◌, map,
  arith,
}
use unicity_relay.Nostr.{Event, Filter, Externals}
use unicity_relay.Events.Table.{TagRow, Database}
use unicity_relay.Events.Query.{
  tag_filters, kind_passes, cte_part, intersect, cte_ids, count, replicate, join_ids, from_clause,
  limited, where_clause, run_query,
}

exists-map {ℓ κ} :
    {A : Type ℓ} {B : Type κ} (p : B → Bool) (f : A → B) (xs : List A)
    → exists p (map f xs) ≡ exists (λ x. p (f x)) xs
unfolding exists
exists-map p f [] = refl
exists-map p f (x ∷ xs) = ground (arith, exists-map p f xs)

contains-exists : (xs : List ℕ) (a : ℕ) → contains xs a ≡ exists (λ x. x == a) xs
unfolding exists contains
contains-exists [] a = refl
contains-exists (x ∷ xs) a = ground (arith, contains-exists xs a)

contains-intersect :
    (xs ys : List ℕ) (a : ℕ) → contains (intersect xs ys) a ≡ (contains xs a && contains ys a)
unfolding intersect contains
contains-intersect [] ys a = refl
contains-intersect (x ∷ xs) ys a =
    ground (arith, contains-intersect xs ys a, contains-add x a (intersect xs ys), same x a)
  where
    same : (x a : ℕ) → x ≡ a → contains ys x ≡ contains ys a
    same x a e = ap (λ (b : ℕ). contains ys b) e

-- Some tag row of the event has the key, one of the values, and a kind that passes.
unfoldable pub tag_passes : Database → List ℕ → ℕ → String × List String → Bool
tag_passes db kinds id entry =
    exists
      (λ row.
        (row.key == entry.0 && (contains entry.1 row.value && kind_passes kinds row.kind))
        && row.event_id == id)
      db.tag_rows

contains-cte_part :
    (db : Database) (kinds : List ℕ) (entry : String × List String) (id : ℕ)
    → contains (cte_part db kinds entry) id ≡ tag_passes db kinds id entry
unfolding cte_part tag_passes
contains-cte_part db kinds entry id =
    contains-exists (map (λ row. row.event_id) (select passing db.tag_rows)) id
    ∙ (exists-map (λ (a : ℕ). a == id) (λ row. row.event_id) (select passing db.tag_rows)
        ∙ exists-select (λ row. row.event_id == id) passing db.tag_rows)
  where
    passing : TagRow → Bool
    passing row = row.key == entry.0 && (contains entry.1 row.value && kind_passes kinds row.kind)

contains-cte_ids :
    (db : Database) (kinds ids : List ℕ) (entries : Map String (List String)) (id : ℕ)
    → contains (cte_ids db kinds ids entries) id
      ≡ (contains ids id && every (tag_passes db kinds id) entries)
unfolding cte_ids every
contains-cte_ids db kinds ids [] id = ground arith
contains-cte_ids db kinds ids (entry ∷ entries) id = ground (
  arith,
  contains-cte_ids db kinds (intersect ids (cte_part db kinds entry)) entries id,
  contains-intersect ids (cte_part db kinds entry) id,
  contains-cte_part db kinds entry id,
)

exists-replicate :
    (p : Event → Bool) (n : ℕ) (evt : Event) → exists p (replicate n evt) ≡ (ltb 0 n && p evt)
unfolding replicate exists
exists-replicate p zero evt = refl
exists-replicate p (suc n) evt = ground (arith, exists-replicate p n evt)

count-contains : (id : ℕ) (ids : List ℕ) → ltb 0 (count id ids) ≡ contains ids id
unfolding count contains
count-contains id [] = refl
count-contains id (x ∷ ids) = ground (arith, count-contains id ids)

exists-join_ids :
    (p : Event → Bool) (ids : List ℕ) (rows : List Event)
    → exists p (join_ids ids rows) ≡ exists (λ row. contains ids row.id && p row) rows
unfolding join_ids exists
exists-join_ids p ids [] = refl
exists-join_ids p ids (row ∷ rows) =
    exists-append p (replicate (count row.id ids) row) (join_ids ids rows)
    ∙ ground (
      arith,
      exists-replicate p (count row.id ids) row,
      count-contains row.id ids,
      exists-join_ids p ids rows,
    )

exists_same :
    (p q : Event → Bool) (rows : List Event)
    → ((row : Event) → p row ≡ q row)
    → exists p rows ≡ exists q rows
unfolding exists
exists_same p q [] h = refl
exists_same p q (row ∷ rows) h = ground (arith, h row, exists_same p q rows h)

exists-from_clause :
    (p : Event → Bool) (db : Database) (kinds : List ℕ) (entries : Map String (List String))
    → exists p (from_clause db kinds entries)
      ≡ exists (λ row. every (tag_passes db kinds row.id) entries && p row) db.rows
unfolding from_clause every
exists-from_clause p db kinds [] = refl
exists-from_clause p db kinds (entry ∷ entries) =
    exists-join_ids p (cte_ids db kinds (cte_part db kinds entry) entries) db.rows
    ∙ exists_same _ _ db.rows (λ row. ground (
      arith,
      contains-cte_ids db kinds (cte_part db kinds entry) entries row.id,
      contains-cte_part db kinds entry row.id,
    ))

module _ ⦃x : Externals⦄ where
  -- Without a limit, the query answers with exactly the rows, up to order and repetition, that pass
  -- the conditions on the columns and, for each single-letter tag filter with values, have a tag row
  -- with that key, one of the values, and a kind that is not excluded.
  pub run_query_iff :
      (p : Event → Bool) (db : Database) (filter : Filter)
      → filter.limit ≡ 0
      → exists p (run_query db filter)
        ≡ exists
            (λ row.
              every (tag_passes db filter.kinds row.id) (tag_filters filter)
              && (where_clause filter row && p row))
            db.rows
  unfolding run_query
  run_query_iff p db filter e =
      let rows = from_clause db filter.kinds (tag_filters filter) in
      ap (λ (n : ℕ). exists p (limited n (x.order (select (where_clause filter) rows)))) e
      ∙ (x.exists-order p (select (where_clause filter) rows)
          ∙ (exists-select p (where_clause filter) rows
              ∙ exists-from_clause (λ row. where_clause filter row && p row) db filter.kinds
                  (tag_filters filter)))
