-- ===== src/Events/Failures.antt =====
-- What a failed write of zooid/events.go leaves behind.
use unicity_relay.Prelude.{
  leb, if◌then◌else◌, string_eq, nat_eq, ℕ, zero, suc, ◌+◌, ◌≡◌, refl, ◌∙◌, Bool, true, false,
  Option, none, some, List, [], ◌∷◌, arith,
}
use unicity_relay.Nostr.{Event, Externals}
use unicity_relay.Events.Replace.{replace_event_once}
use unicity_relay.Events.Store.{
  Outcome, commits, conflicts, expires, faults, Reply, Failure, budget_exceeded,
  serialization_conflict, database_error, rand_panic, EventStore, Attempt, advance, next_reply,
  set_database, replace_event_total_budget, Pause, gives_up, panics, out_of_time, wakes, pause,
  upcoming, save_event, ignore_duplicate, announced, replace_attempts, store_event, store_signed,
  sign_and_store_event,
}

abbrev pub SameData : EventStore → EventStore → Type 0
SameData st st' = (st'.database ≡ st.database) × (st'.broadcasts ≡ st.broadcasts)

next_reply-SameData : (st : EventStore) → SameData st (next_reply st).1
unfolding next_reply
next_reply-SameData st = go st.plan
  where
    go : (plan : List Reply) → SameData st (advance st plan).1
    go [] = (refl, refl)
    go (reply ∷ plan) = (refl, refl)

-- A write that fails has written nothing.
abbrev pub FailsClean : EventStore → Attempt → Type 0
FailsClean st result = (e : Failure) → result.0 ≡ some e → SameData st result.1

save_event-FailsClean :
    (st : EventStore) (evt : Event) → FailsClean st (ignore_duplicate (save_event st evt))
unfolding save_event ignore_duplicate
save_event-FailsClean st evt e h = ground (arith, next_reply-SameData st)

module _ ⦃x : Externals⦄ where
  replace_attempts-FailsClean :
      (left attempt spent : ℕ) (st : EventStore) (evt : Event)
      → FailsClean st (replace_attempts left attempt spent st evt)
  unfolding replace_attempts
  replace_attempts-FailsClean zero attempt spent st evt = λ e h. (refl, refl)
  replace_attempts-FailsClean (suc left) attempt spent st evt =
      ended (leb replace_event_total_budget spent) (next_reply st).0
        (pause left st.base_backoff attempt (spent + (upcoming st.plan).took)
          (upcoming st.plan).drawn)
        (λ awake. replace_attempts-FailsClean left (attempt + 1) awake (next_reply st).1 evt)
    where
      ended :
          (late : Bool) (outcome : Outcome) (p : Pause)
          → ((awake : ℕ)
              → FailsClean
                  (next_reply st).1
                  (replace_attempts left (attempt + 1) awake (next_reply st).1 evt))
          → FailsClean st (
              if late then (some budget_exceeded, st) else elim outcome [
                | commits ↦ (
                  none,
                  set_database
                      (next_reply st).1
                      (replace_event_once (next_reply st).1.database evt),
                )
                | conflicts ↦ elim p [
                  | gives_up ↦ (some serialization_conflict, (next_reply st).1)
                  | panics ↦ (some rand_panic, (next_reply st).1)
                  | out_of_time ↦ (some budget_exceeded, (next_reply st).1)
                  | wakes awake ↦ replace_attempts left (attempt + 1) awake (next_reply st).1 evt
                ]
                | expires ↦ (some budget_exceeded, (next_reply st).1)
                | faults ↦ (some database_error, (next_reply st).1)
              ])
      ended true outcome p again e h = (refl, refl)
      ended false commits p again e h = absurd cc
      ended false conflicts gives_up again e h = next_reply-SameData st
      ended false conflicts panics again e h = next_reply-SameData st
      ended false conflicts out_of_time again e h = next_reply-SameData st
      ended false conflicts (wakes awake) again e h =
          let (tables, sent) = next_reply-SameData st in
          let (tables', sent') = again awake e h in (tables' ∙ tables, sent' ∙ sent)
      ended false expires p again e h = next_reply-SameData st
      ended false faults p again e h = next_reply-SameData st

  store_event-FailsClean : (st : EventStore) (evt : Event) → FailsClean st (store_event st evt)
  unfolding store_event
  store_event-FailsClean st evt e h = ground (
    arith,
    save_event-FailsClean st evt e,
    replace_attempts-FailsClean st.max_attempts 0 0 st evt e,
  )

  announced-failure :
      (b : Bool) (evt : Event) (r : Attempt) (e : Failure)
      → (announced b evt r).0 ≡ some e
      → (r.0 ≡ some e) × ((announced b evt r).1 ≡ r.1)
  announced-failure b evt (some f, st) e h = (h, refl)
  announced-failure true evt (none, st) e h = cc
  announced-failure false evt (none, st) e h = cc

  -- When `SignAndStoreEvent` returns an error, whether from the signing, a fault, a deadline or too
  -- many conflicts, both tables are as they were and nothing has been broadcast.
  sign_and_store_event-failure :
      (st : EventStore) (evt : Event) (broadcast : Bool) (e : Failure)
      → (sign_and_store_event st evt broadcast).0 ≡ some e
      → SameData st (sign_and_store_event st evt broadcast).2
  unfolding sign_and_store_event
  sign_and_store_event-failure st evt broadcast e = go (x.sign st.config.secret evt)
    where
      go :
          (signed : Option Event)
          → (store_signed st evt broadcast signed).0 ≡ some e
          → SameData st (store_signed st evt broadcast signed).2
      go none h = (refl, refl)
      go (some s) h =
          let (failed, same) = announced-failure broadcast s (store_event st s) e h in
          rw same (store_event-FailsClean st s e failed)
