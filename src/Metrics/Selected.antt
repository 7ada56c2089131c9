-- ===== src/Metrics/Selected.antt =====
-- The groups that zooid/metrics.go selects for its gauges.
use unicity_relay.Prelude.{
  ltb, leb, if◌then◌else◌, string_eq, nat_eq, ◌==◌, ==_refl, length, take, exists, every, Map,
  lookup, insert, ℕ, zero, suc, ◌+◌, ◌≤◌, String, ◌≡◌, refl, Bool, true, false, not, ◌&&◌, ◌||◌,
  List, [], ◌∷◌, arith,
}
use unicity_relay.Events.Table.{Database}
use unicity_relay.Groups.State.{GroupMeta}
use unicity_relay.Metrics.{max_tracked_groups, is_shown, add_members, Tracked, track, track_groups}
use unicity_relay.Metrics.Messages.{visible_groups, join_count, message_counts}

-- The group is in the metadata cache, and neither private nor hidden there.
abbrev pub is_visible : Map String GroupMeta → String → Bool
is_visible cache h =
    exists
      (λ (entry : String × GroupMeta).
        entry.0 == h && not (entry.1.is_private || entry.1.is_hidden))
      cache

pub every-insert :
    (p : String → Bool) (k : String) (n : ℕ) (m : Map String ℕ)
    → p k ≡ true
    → every (λ (e : String × ℕ). p e.0) m ≡ true
    → every (λ (e : String × ℕ). p e.0) (insert k n m) ≡ true
unfolding every insert
every-insert p k n [] is all = ground (arith, is)
every-insert p k n ((j, old) ∷ m) is all =
    go (j == k) (every-insert p k n m is (ground (arith, all)))
  where
    go :
        (b : Bool)
        → every (λ (e : String × ℕ). p e.0) (insert k n m) ≡ true
        → every (λ (e : String × ℕ). p e.0) (if b then (k, n) ∷ m else (j, old) ∷ insert k n m)
          ≡ true
    go true rest = ground (arith, is, all)
    go false rest = ground (arith, rest, all)

pub length-insert : (k : String) (n : ℕ) (m : Map String ℕ) → length (insert k n m) ≤ length m + 1
unfolding insert
length-insert k n [] = omega arith
length-insert k n ((j, old) ∷ m) = ground (arith, length-insert k n m)

-- The series so far.
pub record IsShown (metadata : Map String GroupMeta) (t : Tracked) : Type 0 where
  pub all_shown : every (λ (e : String × ℕ). is_shown (lookup metadata e.0)) t.series ≡ true
  pub fits : t.tracked ≤ max_tracked_groups
  pub counted : length t.series ≤ t.tracked

track-IsShown :
    (metadata : Map String GroupMeta) (h : String) (members : List ℕ) (t : Tracked)
    → IsShown metadata t
    → IsShown metadata (track metadata h members t)
unfolding track
track-IsShown metadata h members t is =
    go (ltb t.tracked max_tracked_groups) (is_shown (lookup metadata h)) refl refl
  where
    go :
        (room shows : Bool)
        → ltb t.tracked max_tracked_groups ≡ room
        → is_shown (lookup metadata h) ≡ shows
        → IsShown metadata (record {
          distinct_members = add_members members t.distinct_members;
          series = if room && shows then insert h (length members) t.series else t.series;
          tracked = if room && shows then t.tracked + 1 else t.tracked;
        })
    go false shows r s = record { all_shown = is.all_shown; fits = is.fits; counted = is.counted }
    go true false r s = record { all_shown = is.all_shown; fits = is.fits; counted = is.counted }
    go true true r s = record {
      all_shown =
          every-insert (λ k. is_shown (lookup metadata k)) h (length members) t.series s
            is.all_shown;
      fits = ground (arith, r);
      counted = omega (arith, length-insert h (length members) t.series, is.counted);
    }

pub track_groups-IsShown :
    (metadata : Map String GroupMeta) (cache : Map String (List ℕ)) (t : Tracked)
    → IsShown metadata t
    → IsShown metadata (track_groups metadata cache t)
unfolding track_groups
track_groups-IsShown metadata [] t is = is
track_groups-IsShown metadata ((h, members) ∷ cache) t is =
    track_groups-IsShown metadata cache (track metadata h members t)
      (track-IsShown metadata h members t is)

pub length-visible_groups :
    (cache : Map String GroupMeta) (n : ℕ)
    → n ≤ max_tracked_groups
    → length (visible_groups cache n) + n ≤ max_tracked_groups
unfolding visible_groups
length-visible_groups [] n fits = omega arith
length-visible_groups ((h, meta) ∷ cache) n fits =
    go (leb max_tracked_groups n) (meta.is_private || meta.is_hidden) refl
      (length-visible_groups cache n fits) (length-visible_groups cache (n + 1))
  where
    go :
        (full hides : Bool)
        → leb max_tracked_groups n ≡ full
        → length (visible_groups cache n) + n ≤ max_tracked_groups
        → (n + 1 ≤ max_tracked_groups
            → length (visible_groups cache (n + 1)) + (n + 1) ≤ max_tracked_groups)
        → length (elim full [
          | true ↦ []
          | false ↦ elim hides [
            | true ↦ visible_groups cache n
            | false ↦ h ∷ visible_groups cache (n + 1)
          ]
        ])
            + n
          ≤ max_tracked_groups
    go true hides f skip next = omega (arith, fits)
    go false true f skip next = skip
    go false false f skip next = ground (arith, f, next)

-- A test that holds of all visible groups of some entries.
pub visible_groups-every :
    (p : String → Bool) (cache : Map String GroupMeta) (n : ℕ)
    → ((h : String) → is_visible cache h ≡ true → p h ≡ true)
    → every p (visible_groups cache n) ≡ true
unfolding visible_groups every exists
visible_groups-every p [] n holds = refl
visible_groups-every p ((h, meta) ∷ cache) n holds =
    go (leb max_tracked_groups n) (meta.is_private || meta.is_hidden) refl
      (visible_groups-every p cache n (λ k is. holds k (ground (arith, is))))
      (visible_groups-every p cache (n + 1) (λ k is. holds k (ground (arith, is))))
  where
    go :
        (full hides : Bool)
        → (meta.is_private || meta.is_hidden) ≡ hides
        → every p (visible_groups cache n) ≡ true
        → every p (visible_groups cache (n + 1)) ≡ true
        → every p (elim full [
          | true ↦ []
          | false ↦ elim hides [
            | true ↦ visible_groups cache n
            | false ↦ h ∷ visible_groups cache (n + 1)
          ]
        ])
          ≡ true
    go true hides e skip next = refl
    go false true e skip next = skip
    go false false e skip next = ground (arith, e, next, holds h, ==_refl h)

pub message_counts-every :
    (p : String → Bool) (db : Database) (groups : List String)
    → every p groups ≡ true
    → (every (λ (e : String × ℕ). p e.0) (message_counts db groups) ≡ true)
      × (length (message_counts db groups) ≤ length groups)
unfolding message_counts every
message_counts-every p db [] all = (refl, omega arith)
message_counts-every p db (h ∷ groups) all =
    go (join_count h db.tag_rows db.rows == 0)
      (message_counts-every p db groups (ground (arith, all)))
  where
    go :
        (b : Bool)
        → (every (λ (e : String × ℕ). p e.0) (message_counts db groups) ≡ true)
          × (length (message_counts db groups) ≤ length groups)
        → let counts =
            if b
            then message_counts db groups
            else (h, join_count h db.tag_rows db.rows) ∷ message_counts db groups in
          (every (λ (e : String × ℕ). p e.0) counts ≡ true) × (length counts ≤ suc (length groups))
    go true (rest, few) = (rest, omega (arith, few))
    go false (rest, few) = (ground (arith, all, rest), omega (arith, few))

pub take-every :
    (p : String → Bool) (n : ℕ) (m : Map String ℕ)
    → every (λ (e : String × ℕ). p e.0) m ≡ true
    → (every (λ (e : String × ℕ). p e.0) (take n m) ≡ true) × (length (take n m) ≤ length m)
unfolding every
take-every p zero m all = (refl, omega arith)
take-every p (suc n) [] all = (refl, omega arith)
take-every p (suc n) (entry ∷ m) all =
    let (rest, few) = take-every p n m (ground (arith, all)) in
    (ground (arith, all, rest), omega (arith, few))
