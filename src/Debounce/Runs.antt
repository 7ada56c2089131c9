-- ===== src/Debounce/Runs.antt =====
-- The calls for one key and the goroutines of its timers, interleaved: `scheduleRewrite` of
-- zooid/groups.go with the function that it hands to `AfterFunc`. The mutex makes each step atomic.
use unicity_relay.Prelude.{
  nat_eq, string_eq, length, ◌≤◌, ◌≡◌, refl, sym, subst, ◌≢◌, Bool, true, false, Option, none, some,
  List, [], ◌∷◌, ◌++◌, arith,
}
use unicity_relay.Debounce.{DebounceEntry, rescheduled}

-- Where a goroutine stands: its timer is armed, it executes `fn`, or it has seen `dirty` and goes
-- round its loop.
pub data Phase : Type 0 where
  armed executing looping : Phase

-- `unserved`: a call has been made since `fn` last started, so the lists that `fn` has read may miss
-- what the caller had changed.
pub record Burst : Type 0 where
  pub pending : Option DebounceEntry
  pub goroutines : List Phase
  pub unserved : Bool

abbrev pub quiet : Burst
quiet = record { pending = none; goroutines = []; unserved = false }

-- `entry.running = true; entry.dirty = false`
abbrev pub started : Option DebounceEntry → Option DebounceEntry
started none = none
started (some entry) = some (record { running = true; dirty = false })

abbrev pub armed_for : Option DebounceEntry → List Phase → List Phase
armed_for none goroutines = armed ∷ goroutines
armed_for (some entry) goroutines = goroutines

-- A call of `scheduleRewrite`: without an entry it makes one and arms a timer.
unfoldable pub call : Burst → Burst
call s = record {
  pending = some (rescheduled s.pending);
  goroutines = armed_for s.pending s.goroutines;
  unserved = true;
}

-- A step of one of the goroutines, which stand in `before ++ phase ∷ after`.
pub data Move (s t : Burst) : Type 0 where
  -- the timer fires, or the loop goes round, and `fn` starts
  starts :
      (before after : List Phase) (phase : Phase)
      → phase ≢ executing
      → s.goroutines ≡ before ++ phase ∷ after
      → t ≡ record {
        pending = started s.pending;
        goroutines = before ++ executing ∷ after;
        unserved = false;
      }
      → Move s t
  -- `fn` has returned and the entry is dirty
  repeats :
      (before after : List Phase) (entry : DebounceEntry)
      → s.goroutines ≡ before ++ executing ∷ after
      → s.pending ≡ some entry
      → entry.dirty ≡ true
      → t ≡ record s { goroutines = before ++ looping ∷ after }
      → Move s t
  -- `fn` has returned and the entry is clean: it is deleted and the goroutine ends
  ends :
      (before after : List Phase) (entry : DebounceEntry)
      → s.goroutines ≡ before ++ executing ∷ after
      → s.pending ≡ some entry
      → entry.dirty ≡ false
      → t ≡ record s { pending = none; goroutines = before ++ after }
      → Move s t

pub data Reach (s : Burst) : Burst → Type 0 where
  here : Reach s s
  called : {t : Burst} → Reach s t → Reach s (call t)
  moved : {t u : Burst} → Reach s t → Move t u → Reach s u

-- The reachable states: no goroutine and no entry; an armed timer; or a goroutine in its loop, whose
-- entry is marked as running.
pub data IsSound : Burst → Type 0 where
  idle : IsSound quiet
  waiting :
      (u : Bool)
      → IsSound (record {
        pending = some (record { running = false; dirty = false });
        goroutines = armed ∷ [];
        unserved = u;
      })
  busy :
      (d : Bool)
      → IsSound (record {
        pending = some (record { running = true; dirty = d });
        goroutines = executing ∷ [];
        unserved = d;
      })
  again : IsSound (record {
    pending = some (record { running = true; dirty = true });
    goroutines = looping ∷ [];
    unserved = true;
  })

call-IsSound : {s : Burst} → IsSound s → IsSound (call s)
unfolding call rescheduled
call-IsSound idle = waiting true
call-IsSound (waiting u) = waiting true
call-IsSound (busy d) = busy true
call-IsSound again = again

-- A list of one goroutine has it at the only place.
alone :
    (phase p : Phase) (before after : List Phase)
    → phase ∷ [] ≡ before ++ p ∷ after
    → (before ≡ []) × (after ≡ []) × (p ≡ phase)
alone phase p [] after e = (refl, cc, cc)
alone phase p (q ∷ []) after e = absurd (cc)
alone phase p (q ∷ r ∷ before) after e = absurd (cc)

nothing : (p : Phase) (before after : List Phase) → [] ≡ before ++ p ∷ after → ⊥
nothing p [] after e = cc
nothing p (q ∷ before) after e = cc

starts-IsSound :
    (s t : Burst) (before after : List Phase) (phase : Phase)
    → phase ≢ executing
    → s.goroutines ≡ before ++ phase ∷ after
    → t ≡ record {
      pending = started s.pending;
      goroutines = before ++ executing ∷ after;
      unserved = false;
    }
    → IsSound s
    → IsSound t
starts-IsSound s t before after phase h e f idle = absurd (nothing phase before after e)
starts-IsSound s t before after phase h e f (waiting u) =
    let (b, a, p) = alone armed phase before after e in
    subst IsSound (sym f) (rw (b, a) (busy false))
starts-IsSound s t before after phase h e f (busy d) =
    let (b, a, p) = alone executing phase before after e in absurd (h p)
starts-IsSound s t before after phase h e f again =
    let (b, a, p) = alone looping phase before after e in
    subst IsSound (sym f) (rw (b, a) (busy false))

repeats-IsSound :
    (s t : Burst) (before after : List Phase) (entry : DebounceEntry)
    → s.goroutines ≡ before ++ executing ∷ after
    → s.pending ≡ some entry
    → entry.dirty ≡ true
    → t ≡ record s { goroutines = before ++ looping ∷ after }
    → IsSound s
    → IsSound t
repeats-IsSound s t before after entry e p d f idle = absurd (nothing executing before after e)
repeats-IsSound s t before after entry e p d f (waiting u) =
    let (b, a, q) = alone armed executing before after e in cc
repeats-IsSound s t before after entry e p d f (busy dirty) =
    let (b, a, q) = alone executing executing before after e in
    subst IsSound (sym f) (rw (b, a) (marked dirty (cc)))
  where
    marked :
        (b : Bool)
        → b ≡ true
        → IsSound (record {
          pending = some (record { running = true; dirty = b });
          goroutines = looping ∷ [];
          unserved = b;
        })
    marked true h = again
    marked false h = cc
repeats-IsSound s t before after entry e p d f again =
    let (b, a, q) = alone looping executing before after e in cc

ends-IsSound :
    (s t : Burst) (before after : List Phase) (entry : DebounceEntry)
    → s.goroutines ≡ before ++ executing ∷ after
    → s.pending ≡ some entry
    → entry.dirty ≡ false
    → t ≡ record s { pending = none; goroutines = before ++ after }
    → IsSound s
    → IsSound t
ends-IsSound s t before after entry e p d f idle = absurd (nothing executing before after e)
ends-IsSound s t before after entry e p d f (waiting u) =
    let (b, a, q) = alone armed executing before after e in cc
ends-IsSound s t before after entry e p d f (busy dirty) =
    let (b, a, q) = alone executing executing before after e in
    subst IsSound (sym f) (rw (b, a) (clean dirty (cc)))
  where
    clean :
        (b : Bool) → b ≡ false → IsSound (record { pending = none; goroutines = []; unserved = b })
    clean true h = cc
    clean false h = idle
ends-IsSound s t before after entry e p d f again =
    let (b, a, q) = alone looping executing before after e in cc

Move-IsSound : {s t : Burst} → Move s t → IsSound s → IsSound t
Move-IsSound {s} {t} (starts before after phase h e f) v =
    starts-IsSound s t before after phase h e f v
Move-IsSound {s} {t} (repeats before after entry e p d f) v =
    repeats-IsSound s t before after entry e p d f v
Move-IsSound {s} {t} (ends before after entry e p d f) v =
    ends-IsSound s t before after entry e p d f v

Reach-IsSound : {s t : Burst} → IsSound s → Reach s t → IsSound t
Reach-IsSound v here = v
Reach-IsSound v (called r) = call-IsSound (Reach-IsSound v r)
Reach-IsSound v (moved r m) = Move-IsSound m (Reach-IsSound v r)

-- Steps of goroutines alone.
pub data Settles (s : Burst) : Burst → Type 0 where
  done : Settles s s
  then : {t u : Burst} → Settles s t → Move t u → Settles s u

-- `fn` starts after every call: from an unserved state the goroutines reach, with no further call, a
-- state where it has started since.
IsSound-served : {s : Burst} → IsSound s → (t : Burst) × Settles s t × (t.unserved ≡ false)
IsSound-served idle = (quiet, done, refl)
IsSound-served (waiting u) = (_, then done (starts [] [] armed (λ e. cc) refl refl), refl)
IsSound-served (busy false) = (_, done, refl)
IsSound-served (busy true) = (
  _,
  then (then done (repeats [] [] _ refl refl refl refl)) (starts [] [] looping (λ e. cc) refl refl),
  refl,
)
IsSound-served again = (_, then done (starts [] [] looping (λ e. cc) refl refl), refl)

IsSound-alone : {s : Burst} → IsSound s → length s.goroutines ≤ 1
IsSound-alone idle = omega arith
IsSound-alone (waiting u) = omega arith
IsSound-alone (busy d) = omega arith
IsSound-alone again = omega arith

-- However calls and goroutines interleave, a key has at most one goroutine, so its runs do not
-- overlap; and no call is lost: the goroutines can go on, with no further call, to a state in which
-- the function has started since the last call.
pub Reach-serialized :
    {s : Burst}
    → Reach quiet s
    → (length s.goroutines ≤ 1) × ((t : Burst) × Settles s t × (t.unserved ≡ false))
Reach-serialized r = (IsSound-alone (Reach-IsSound idle r), IsSound-served (Reach-IsSound idle r))

-- A reachable state with no goroutine has served every call and has no entry left.
Reach-drained :
    {s : Burst} → Reach quiet s → s.goroutines ≡ [] → (s.unserved ≡ false) × (s.pending ≡ none)
Reach-drained {s} r = go (Reach-IsSound idle r)
  where
    go : {s : Burst} → IsSound s → s.goroutines ≡ [] → (s.unserved ≡ false) × (s.pending ≡ none)
    go idle e = (refl, refl)
    go (waiting u) e = absurd (cc)
    go (busy d) e = absurd (cc)
    go again e = absurd (cc)
