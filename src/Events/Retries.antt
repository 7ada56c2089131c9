-- ===== src/Events/Retries.antt =====
-- How the retries of `ReplaceEvent` in zooid/events.go end.
use unicity_relay.Prelude.{
  ltb, leb, if◌then◌else◌, string_eq, nat_eq, length, ℕ, zero, suc, ◌+◌, ◌%◌, ◌<◌, ◌≡◌, refl, sym,
  ap, subst, ◌⊎◌, inl, inr, Bool, true, false, none, some, List, [], ◌∷◌, ◌++◌, map, arith,
}
use unicity_relay.Nostr.{Event, Externals}
use unicity_relay.Events.Table.{Database}
use unicity_relay.Events.Replace.{replace_event_once}
use unicity_relay.Events.Store.{
  commits, conflicts, Reply, budget_exceeded, serialization_conflict, EventStore, Attempt, max_int,
  backoff_cap, replace_event_total_budget, sleep_time, replace_attempts, replace_event,
}
use unicity_relay.Events.Attempts.{
  ending, answered, awake_at, conflict_step, last_conflict, commit_step,
}

-- The database answers with these conflicts, then with a commit.
abbrev pub Answers : EventStore → List Reply → Reply → List Reply → Type 0
Answers st lost last rest = st.plan ≡ map (ending conflicts) lost ++ ending commits last ∷ rest

-- The time from the attempt with this number on for these attempts, each with the sleep behind it.
unfoldable pub time_of : ℕ → ℕ → List Reply → ℕ
time_of base attempt [] = 0
time_of base attempt (reply ∷ replies) =
    reply.took
    + sleep_time (reply.drawn % (backoff_cap base attempt + 1))
    + time_of base (attempt + 1) replies

module _ ⦃x : Externals⦄ where
  -- How it ends, by whether the attempts suffice and whether the time does.
  abbrev pub EndedAt : Bool → Bool → Database → Event → Attempt → Type 0
  EndedAt true true db evt r = (r.0 ≡ none) × (r.1.database ≡ replace_event_once db evt)
  EndedAt true false db evt r = (r.0 ≡ some budget_exceeded) × (r.1.database ≡ db)
  EndedAt false true db evt r = (r.0 ≡ some serialization_conflict) × (r.1.database ≡ db)
  EndedAt false false db evt r =
      ((r.0 ≡ some budget_exceeded) ⊎ (r.0 ≡ some serialization_conflict)) × (r.1.database ≡ db)

  abbrev pub Ended : Bool → Bool → EventStore → Event → Attempt → Type 0
  Ended enough in_time st evt r = EndedAt enough in_time st.database evt r

  Ended-resp :
      (a b c d : Bool) (st : EventStore) (evt : Event) (r : Attempt)
      → a ≡ c
      → b ≡ d
      → Ended c d st evt r
      → Ended a b st evt r
  Ended-resp a b c d st evt r e f h =
      subst (λ (p : Bool). Ended p b st evt r) (sym e)
        (subst (λ (p : Bool). Ended c p st evt r) (sym f) h)

  too_late :
      (enough : Bool) (st : EventStore) (evt : Event) (next : EventStore)
      → next.database ≡ st.database
      → Ended enough false st evt (some budget_exceeded, next)
  too_late true st evt next same = (refl, same)
  too_late false st evt next same = (inl refl, same)

  retries_end :
      (lost : List Reply) (last : Reply) (rest : List Reply) (left attempt spent : ℕ)
      (st : EventStore) (evt : Event)
      → st.base_backoff < max_int
      → spent < replace_event_total_budget
      → Ended
          (ltb (length lost) (suc left))
          (ltb (spent + time_of st.base_backoff attempt lost) replace_event_total_budget)
          st
          evt
          (replace_attempts
            (suc left)
            attempt
            spent
            (record st { plan = map (ending conflicts) lost ++ ending commits last ∷ rest })
            evt)
  unfolding time_of
  retries_end [] last rest left attempt spent st evt fits early =
      Ended-resp (ltb 0 (suc left)) (ltb (spent + 0) replace_event_total_budget) true true st evt
        (replace_attempts (suc left) attempt spent (record st { plan = ending commits last ∷ rest })
          evt)
        (ground arith) (ground (arith, early))
        (subst (Ended true true st evt)
          (sym (commit_step left attempt spent st evt last rest early)) (refl, refl))
  retries_end (reply ∷ lost) last rest zero attempt spent st evt fits early =
      Ended-resp (ltb (length (reply ∷ lost)) 1)
        (ltb (spent + time_of st.base_backoff attempt (reply ∷ lost)) replace_event_total_budget)
        false
        (ltb (spent + time_of st.base_backoff attempt (reply ∷ lost)) replace_event_total_budget) st
        evt
        (replace_attempts 1 attempt spent
          (record st {
            plan =
                ending conflicts reply
                ∷ (map (ending conflicts) lost ++ ending commits last ∷ rest);
          })
          evt)
        (ground arith) refl
        (subst
          (Ended false
            (ltb (spent + time_of st.base_backoff attempt (reply ∷ lost))
              replace_event_total_budget)
            st evt)
          (sym (
            last_conflict attempt spent st evt reply
              (map (ending conflicts) lost ++ ending commits last ∷ rest) early))
          (exhausted (
            ltb (spent + time_of st.base_backoff attempt (reply ∷ lost))
              replace_event_total_budget)))
    where
      exhausted :
          (b : Bool)
          → Ended false b st evt (
            some serialization_conflict,
            answered st reply (map (ending conflicts) lost ++ ending commits last ∷ rest),
          )
      exhausted true = (refl, refl)
      exhausted false = (inr refl, refl)
  retries_end (reply ∷ lost) last rest (suc left) attempt spent st evt fits early =
      let plan = map (ending conflicts) lost ++ ending commits last ∷ rest in
      let awake = awake_at st attempt spent reply in
      subst
        (Ended (ltb (length (reply ∷ lost)) (suc (suc left)))
          (ltb (spent + time_of st.base_backoff attempt (reply ∷ lost)) replace_event_total_budget)
          st evt)
        (sym (conflict_step left attempt spent st evt reply plan fits early))
        (next (leb replace_event_total_budget awake) refl (λ early'.
          retries_end lost last rest left (attempt + 1) awake
            (record st { clock = st.clock + reply.elapsed }) evt fits early'))
    where
      again : Attempt
      again =
          replace_attempts (suc left) (attempt + 1) (awake_at st attempt spent reply)
            (answered st reply (map (ending conflicts) lost ++ ending commits last ∷ rest)) evt

      next :
          (late : Bool)
          → leb replace_event_total_budget (awake_at st attempt spent reply) ≡ late
          → (awake_at st attempt spent reply < replace_event_total_budget
              → Ended
                  (ltb (length lost) (suc left))
                  (ltb
                    (awake_at st attempt spent reply + time_of st.base_backoff (attempt + 1) lost)
                    replace_event_total_budget)
                  st
                  evt
                  again)
          → Ended
              (ltb (length (reply ∷ lost)) (suc (suc left)))
              (ltb
                (spent + time_of st.base_backoff attempt (reply ∷ lost))
                replace_event_total_budget)
              st
              evt
              (if late
                then (
                  some budget_exceeded,
                  answered st reply (map (ending conflicts) lost ++ ending commits last ∷ rest),
                )
                else again)
      next true e rest_of =
          Ended-resp (ltb (length (reply ∷ lost)) (suc (suc left)))
            (ltb (spent + time_of st.base_backoff attempt (reply ∷ lost))
              replace_event_total_budget)
            (ltb (length (reply ∷ lost)) (suc (suc left))) false st evt
            (
              some budget_exceeded,
              answered st reply (map (ending conflicts) lost ++ ending commits last ∷ rest),
            )
            refl (ground (arith, e))
            (too_late (ltb (length (reply ∷ lost)) (suc (suc left))) st evt
              (answered st reply (map (ending conflicts) lost ++ ending commits last ∷ rest)) refl)
      next false e rest_of =
          Ended-resp (ltb (length (reply ∷ lost)) (suc (suc left)))
            (ltb (spent + time_of st.base_backoff attempt (reply ∷ lost))
              replace_event_total_budget)
            (ltb (length lost) (suc left))
            (ltb (awake_at st attempt spent reply + time_of st.base_backoff (attempt + 1) lost)
              replace_event_total_budget)
            st evt again (ground arith) (ap (λ n. ltb n replace_event_total_budget) (omega arith))
            (rest_of (ground (arith, e)))

  -- The database answers with serialization conflicts and a commit behind them; at least one attempt is
  -- allowed, and the backoff base is below the greatest int. If the conflicts are fewer than the attempts and, with the
  -- sleeps behind them, take less than the 60 s of the budget, `ReplaceEvent` succeeds with the effect
  -- of one transaction. In every other case the tables are as they were: the error is that the budget
  -- is exceeded if the conflicts are fewer than the attempts, the conflict if they take less than the
  -- budget, and one of the two otherwise.
  pub replace_event-retries :
      (lost : List Reply) (last : Reply) (rest : List Reply) (st : EventStore) (evt : Event)
      → 0 < st.max_attempts
      → st.base_backoff < max_int
      → Answers st lost last rest
      → Ended
          (ltb (length lost) st.max_attempts)
          (ltb (time_of st.base_backoff 0 lost) replace_event_total_budget)
          st
          evt
          (replace_event st evt)
  unfolding replace_event
  replace_event-retries lost last rest st evt attempts fits answers = go st.max_attempts attempts
    where
      go :
          (n : ℕ)
          → 0 < n
          → Ended
              (ltb (length lost) n)
              (ltb (time_of st.base_backoff 0 lost) replace_event_total_budget)
              st
              evt
              (replace_attempts n 0 0 st evt)
      go zero none_left = absurd (omega arith)
      go (suc left) some_left =
          Ended-resp (ltb (length lost) (suc left))
            (ltb (time_of st.base_backoff 0 lost) replace_event_total_budget)
            (ltb (length lost) (suc left))
            (ltb (0 + time_of st.base_backoff 0 lost) replace_event_total_budget) st evt
            (replace_attempts (suc left) 0 0 st evt) refl
            (ap (λ n. ltb n replace_event_total_budget) (omega arith))
            (subst
              (λ (plan : List Reply).
                Ended (ltb (length lost) (suc left))
                  (ltb (0 + time_of st.base_backoff 0 lost) replace_event_total_budget) st evt
                  (replace_attempts (suc left) 0 0 (record st { plan = plan }) evt))
              (sym answers) (retries_end lost last rest left 0 0 st evt fits (omega arith)))
