-- ===== src/Events/Query.antt =====
-- `buildSelectQuery` of zooid/events.go and the query that it runs, inside a transaction or outside.
use Prim.Native.String.{len}
use unicity_relay.Prelude.{
  ltb, leb, if◌then◌else◌, ◌==◌, nat_eq, string_eq, length, take, select, contains, add, Map, ℕ,
  zero, suc, ◌+◌, String, Bool, true, ◌&&◌, ◌||◌, Option, none, some, List, [], ◌∷◌, ◌++◌, map,
}
use unicity_relay.Nostr.{Event, Filter, Externals}
use unicity_relay.Events.Table.{Database}

-- The filters on tags that the query keeps: single letters with at least one value.
unfoldable pub tag_filters : Filter → Map String (List String)
tag_filters filter = select (λ entry. leb 1 (length entry.1) && len entry.0 == 1) filter.tags

-- A NULL kind passes every list of kinds.
unfoldable pub kind_passes : List ℕ → Option ℕ → Bool
kind_passes [] kind = true
kind_passes (k ∷ kinds) none = true
kind_passes (k ∷ kinds) (some kind) = contains (k ∷ kinds) kind

-- One SELECT of the CTE: an id for each tag row that matches, so an id may stand twice.
unfoldable pub cte_part : Database → List ℕ → String × List String → List ℕ
unfolding kind_passes
cte_part db kinds entry =
    map (λ row. row.event_id)
      (select
        (λ row. row.key == entry.0 && (contains entry.1 row.value && kind_passes kinds row.kind))
        db.tag_rows)

-- INTERSECT, which drops duplicates.
unfoldable pub intersect : List ℕ → List ℕ → List ℕ
intersect [] ys = []
intersect (x ∷ xs) ys = let rest = intersect xs ys in if contains ys x then add x rest else rest

unfoldable pub cte_ids : Database → List ℕ → List ℕ → Map String (List String) → List ℕ
unfolding cte_part intersect
cte_ids db kinds ids [] = ids
cte_ids db kinds ids (entry ∷ entries) =
    cte_ids db kinds (intersect ids (cte_part db kinds entry)) entries

unfoldable pub count : ℕ → List ℕ → ℕ
count id [] = 0
count id (x ∷ xs) = (if x == id then 1 else 0) + count id xs

unfoldable pub replicate : ℕ → Event → List Event
replicate zero evt = []
replicate (suc n) evt = evt ∷ replicate n evt

-- JOIN _tag_ids: each row of the events table, once for each time that its id stands in the CTE.
unfoldable pub join_ids : List ℕ → List Event → List Event
unfolding count replicate
join_ids ids [] = []
join_ids ids (row ∷ rows) = replicate (count row.id ids) row ++ join_ids ids rows

unfoldable pub from_clause : Database → List ℕ → Map String (List String) → List Event
unfolding cte_ids join_ids
from_clause db kinds [] = db.rows
from_clause db kinds (entry ∷ entries) =
    join_ids (cte_ids db kinds (cte_part db kinds entry) entries) db.rows

-- An empty list of values does not restrict.
abbrev pub passes : List ℕ → ℕ → Bool
passes [] a = true
passes (x ∷ xs) a = contains (x ∷ xs) a

abbrev pub limited : ℕ → List Event → List Event
limited zero rows = rows
limited (suc n) rows = take (suc n) rows

-- The limit that `maxLimit` leaves.
unfoldable pub capped : Filter → ℕ → Filter
capped filter max_limit =
    if ltb 0 max_limit && (filter.limit == 0 || ltb max_limit filter.limit)
    then record filter { limit = max_limit }
    else filter

module _ ⦃x : Externals⦄ where
  -- The conditions on the columns of the events table.
  unfoldable pub where_clause : Filter → Event → Bool
  where_clause filter row =
      (filter.search == "" || x.matches_search filter.search row)
      && (passes filter.ids row.id
          && (passes filter.authors row.pubkey
              && (passes filter.kinds row.kind
                  && ((filter.since == 0 || leb filter.since row.created_at)
                      && (filter.until == 0 || leb row.created_at filter.until)))))

  -- The rows of the query of `buildSelectQuery`.
  unfoldable pub run_query : Database → Filter → List Event
  unfolding from_clause tag_filters where_clause
  run_query db filter =
      limited filter.limit
        (x.order (select (where_clause filter) (from_clause db filter.kinds (tag_filters filter))))

  -- `queryEventsWith`, its reads all done.
  unfoldable pub query_events_with : Database → Filter → ℕ → List Event
  unfolding run_query capped
  query_events_with db filter max_limit =
      if filter.limit_zero then [] else run_query db (capped filter max_limit)

  -- `CountEvents`: the rows of the same query without a limit.
  unfoldable pub count_events : Database → Filter → ℕ
  unfolding run_query
  count_events db filter = length (run_query db (record filter { limit = 0 }))
