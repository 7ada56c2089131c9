-- ===== src/Retention/Runs.antt =====
-- The loop of `deleteExpiredGroupMessages` in zooid/retention.go: it ends, and what it leaves.
use unicity_relay.Prelude.{
  string_eq, nat_eq, length, every, contains, ℕ, zero, suc, ◌+◌, ◌<◌, String, ◌≡◌, refl, sym, ap,
  ◌∙◌, subst, Bool, true, Option, some, List, [], ◌∷◌, arith,
}
use unicity_relay.Events.Table.{Database}
use unicity_relay.Events.Store.{Reply, EventStore, advance, next_reply}
use unicity_relay.Retention.{
  Planner, expired_ids, delete_in, affected, batch_ids, on_reply, delete_one_retention_batch,
  delete_batches, delete_expired_group_messages,
}
use unicity_relay.Retention.Batches.{affected-delete_in}
use unicity_relay.Retention.Steps.{
  is_quiet, Ends, every_contained, delete_in_same, after_batch, delete_batches_step, unsettled,
  committed, replied,
}

module _ ⦃planner : Planner⦄ (group : String) (cutoff : ℕ) where
  delete_batches-Ends :
      (left total : ℕ) (st : EventStore)
      → length st.database.rows < left
      → Ends group cutoff
          (is_quiet st.plan)
          total
          st.database
          (delete_batches left group cutoff total st)
  unfolding delete_one_retention_batch next_reply advance
  delete_batches-Ends zero total st bound = absurd (omega arith)
  delete_batches-Ends (suc left) total st bound =
      subst
        (λ (r : Option (ℕ × EventStore)). Ends group cutoff (is_quiet st.plan) total st.database r)
        (sym (delete_batches_step group cutoff left total st))
        (go st.plan refl (λ q rows st₁ same fits.
          subst
            (λ (b : Bool).
              Ends group cutoff b (total + rows) st₁.database
                (delete_batches left group cutoff (total + rows) st₁))
            (ap is_quiet same) (delete_batches-Ends left (total + rows) st₁ fits)))
    where
      go :
          (plan : List Reply)
          → st.plan ≡ plan
          → ((q : List Reply) (rows : ℕ) (st₁ : EventStore)
              → st₁.plan ≡ q
              → length st₁.database.rows < left
              → Ends group cutoff
                  (is_quiet q)
                  (total + rows)
                  st₁.database
                  (delete_batches left group cutoff (total + rows) st₁))
          → Ends group cutoff (is_quiet plan) total st.database (
              after_batch group cutoff left total
                (on_reply (batch_ids group cutoff st.database) (advance st plan)))
      go [] e next =
          committed group cutoff left total true st (λ rows st₁ same. next [] rows st₁ (same ∙ e))
            bound
      go (reply ∷ plan) e next =
          let st₁ = record st { plan = plan; clock = st.clock + reply.elapsed } in
          replied group cutoff left total reply.outcome st₁
            (λ rows st₂ same fits. unsettled group cutoff (next plan rows st₂ same fits)) bound

  -- The deletion of a group's expired messages ends, whatever the statements come to. It takes rows
  -- with expired ids only, all rows that it takes are counted, and everything else is left.
  pub delete_expired_group_messages_ends :
      (st : EventStore)
      → (n : ℕ) × (st' : EventStore) × (ids : List ℕ) × (delete_expired_group_messages group cutoff
            st
          ≡ some (n, st'))
        × (st'.database ≡ delete_in ids st.database)
        × (every (contains (expired_ids group cutoff st.database)) ids ≡ true)
        × (n + length st'.database.rows ≡ length st.database.rows)
  unfolding delete_expired_group_messages
  delete_expired_group_messages_ends st =
      let e = delete_batches-Ends (suc (length st.database.rows)) 0 st (omega arith) in
      (
        e.deletions,
        e.after,
        e.deleted,
        e.returns,
        e.left,
        every_contained (contains (expired_ids group cutoff st.database)) e.deleted e.were_expired,
        omega (arith, e.count),
      )

  -- When no statement fails, exactly the rows with expired ids are deleted, with their tags, and the
  -- number that is returned is theirs, however many batches it takes.
  pub delete_expired_group_messages_all :
      (st : EventStore)
      → st.plan ≡ []
      → (st' : EventStore) × (delete_expired_group_messages group cutoff st
          ≡ some (affected (expired_ids group cutoff st.database) st.database, st'))
        × (st'.database ≡ delete_in (expired_ids group cutoff st.database) st.database)
  unfolding delete_expired_group_messages
  delete_expired_group_messages_all st quiet =
      let e = delete_batches-Ends (suc (length st.database.rows)) 0 st (omega arith) in
      let all =
        e.left
        ∙ delete_in_same e.deleted (expired_ids group cutoff st.database) st.database
            (e.complete (ap is_quiet quiet)) in
      (
        e.after,
        e.returns
            ∙ ap (λ n. some (n, e.after))
                (omega (
                  arith,
                  e.count,
                  ap (λ (db : Database). length db.rows) all,
                  affected-delete_in (expired_ids group cutoff st.database) st.database,
                )),
        all,
      )
