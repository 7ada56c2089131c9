-- ===== src/Events/Attempts.antt =====
-- One attempt of `ReplaceEvent` in zooid/events.go.
use unicity_relay.Prelude.{
  ltb, leb, if◌then◌else◌, string_eq, nat_eq, ℕ, suc, ◌+◌, ◌%◌, ◌<◌, ◌≡◌, refl, Bool, true, false,
  none, some, List, ◌∷◌, arith,
}
use unicity_relay.Nostr.{Event, Externals}
use unicity_relay.Events.Replace.{replace_event_once}
use unicity_relay.Events.Store.{
  Outcome, commits, conflicts, Reply, budget_exceeded, serialization_conflict, rand_panic,
  EventStore, next_reply, set_database, max_int, backoff_cap, replace_event_total_budget,
  sleep_time, gives_up, panics, out_of_time, wakes, pause, replace_attempts,
}
use unicity_relay.Events.Backoff.{backoff_cap-fits}

abbrev pub ending : Outcome → Reply → Reply
ending outcome reply = record reply { outcome = outcome }

module _ ⦃x : Externals⦄ where
  abbrev pub answered : EventStore → Reply → List Reply → EventStore
  answered st reply plan = record st { plan = plan; clock = st.clock + reply.elapsed }

  -- The attempt with this reply, and the sleep behind it, end at this time.
  abbrev pub awake_at : EventStore → ℕ → ℕ → Reply → ℕ
  awake_at st attempt spent reply =
      spent + reply.took + sleep_time (reply.drawn % (backoff_cap st.base_backoff attempt + 1))

  in_time :
      (spent : ℕ)
      → spent < replace_event_total_budget
      → leb replace_event_total_budget spent ≡ false
  in_time spent early = ground arith

  no_overflow :
      (base attempt : ℕ) → base < max_int → ltb max_int (backoff_cap base attempt + 1) ≡ false
  no_overflow base attempt fits = ground (arith, (backoff_cap-fits base attempt).1 fits)

  pub conflict_step :
      (left attempt spent : ℕ) (st : EventStore) (evt : Event) (reply : Reply) (plan : List Reply)
      → st.base_backoff < max_int
      → spent < replace_event_total_budget
      → replace_attempts
          (suc (suc left))
          attempt
          spent
          (record st { plan = ending conflicts reply ∷ plan })
          evt
        ≡ (if leb replace_event_total_budget (awake_at st attempt spent reply)
            then (some budget_exceeded, answered st reply plan)
            else replace_attempts
                (suc left)
                (attempt + 1)
                (awake_at st attempt spent reply)
                (answered st reply plan)
                evt)
  unfolding replace_attempts next_reply pause
  conflict_step left attempt spent st evt reply plan fits early =
      rw (in_time spent early, no_overflow st.base_backoff attempt fits)
        (either (leb replace_event_total_budget (awake_at st attempt spent reply)))
    where
      either :
          (late : Bool)
          → (elim (if late then out_of_time else wakes (awake_at st attempt spent reply)) [
            | gives_up ↦ (some serialization_conflict, answered st reply plan)
            | panics ↦ (some rand_panic, answered st reply plan)
            | out_of_time ↦ (some budget_exceeded, answered st reply plan)
            | wakes awake ↦
                replace_attempts (suc left) (attempt + 1) awake (answered st reply plan) evt
          ])
            ≡ (if late
                then (some budget_exceeded, answered st reply plan)
                else replace_attempts
                    (suc left)
                    (attempt + 1)
                    (awake_at st attempt spent reply)
                    (answered st reply plan)
                    evt)
      either true = refl
      either false = refl

  pub last_conflict :
      (attempt spent : ℕ) (st : EventStore) (evt : Event) (reply : Reply) (plan : List Reply)
      → spent < replace_event_total_budget
      → replace_attempts 1 attempt spent (record st { plan = ending conflicts reply ∷ plan }) evt
        ≡ (some serialization_conflict, answered st reply plan)
  unfolding replace_attempts next_reply pause
  last_conflict attempt spent st evt reply plan early = rw (in_time spent early) refl

  pub commit_step :
      (left attempt spent : ℕ) (st : EventStore) (evt : Event) (reply : Reply) (plan : List Reply)
      → spent < replace_event_total_budget
      → replace_attempts
          (suc left)
          attempt
          spent
          (record st { plan = ending commits reply ∷ plan })
          evt
        ≡ (none, set_database (answered st reply plan) (replace_event_once st.database evt))
  unfolding replace_attempts next_reply
  commit_step left attempt spent st evt reply plan early = rw (in_time spent early) refl
