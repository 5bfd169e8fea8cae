-- ===== src/Store/Locks/History/Exclusion.antt =====
-- What calls of other parties do to the row of a live holder.
use agentpeek.Common.{
  ℤ, ◌≡◌, refl, inl, inr, ◌∙◌, false, some, List, [], ◌∷◌, arith, Bytes, eqs, eqs_iff, le64,
  Bool-cases, Option-cases, All,
}
use agentpeek.Sql.Table.{select, Unique}
use agentpeek.Store.Db.{Db, LockRow}
use agentpeek.Store.Exec.{World}
use agentpeek.Store.Locks.{
  try_acquire, unlock, unlock_authorized, renew, renew_by_agent, release_agent_locks,
}
use agentpeek.Store.Locks.Holder.{holder}
use agentpeek.Store.Locks.Acquire.{try_acquire_held, try_acquire_free, try_acquire_atomic}
use agentpeek.Store.Locks.Release.{
  unlock_decides, unlock_atomic, release_agent_locks_atomic, release_agent_locks_lem,
}
use agentpeek.Store.Locks.Renew.{
  renew-granted, renew_atomic, renew_by_agent_atomic, renew_by_agent-granted,
}
use agentpeek.Store.Locks.Many.{lock_many}
use agentpeek.Store.Locks.Many.Names.{contains}
use agentpeek.Store.Locks.Many.Atomic.{
  lock_many_all, lock_many_none, lock_many_atomic, lock_many_empty, lock_many_empty_atomic,
}
use agentpeek.Store.Locks.History.Keys.{after, reap_locks_atomic, reap_locks_lem, step-Unique}
use agentpeek.Store.Locks.History.{
  Call, acquires, unlocks, renews, renews_by_agent, locks_many, releases_agent, reaps, reap_locks,
  world_of, step, run, Foreign,
}

module _ (name : Bytes) (row : LockRow) (w : World) (held : select name w.db.locks ≡ some row) where
  abbrev Kept : Db → Type 0
  Kept d = select name d.locks ≡ some row

  live_holder : (now : ℤ) → le64 row.expires_at now ≡ false → holder now name w.db.locks ≡ some row
  live_holder now live = rw (held, live) refl

  acquire_keeps :
      (now : ℤ) (n agent_id : Bytes) (ttl : ℤ)
      → le64 row.expires_at now ≡ false
      → Kept (world_of (try_acquire now n agent_id ttl w)).db
  acquire_keeps now n agent_id ttl live =
      after Kept (try_acquire now n agent_id ttl w) w.db held
        (λ e w' h. try_acquire_atomic now n agent_id ttl w h)
        (λ (res, acquired, h) w' e. elim (Option-cases (holder now n w.db.locks)) [
          | inl free ↦
              let r = try_acquire_free now n agent_id ttl w res acquired h name free e in
              let l = live_holder now live in ground (arith, eqs_iff n name)
          | inr (other, busy) ↦
              rw ((try_acquire_held now n agent_id ttl w res acquired h other busy e).3) held
        ])

  unlock_keeps :
      (n token agent_id : Bytes)
      → ((n ≡ name) → unlock_authorized token agent_id row ≡ false)
      → Kept (world_of (unlock n token agent_id w)).db
  unlock_keeps n token agent_id foreign =
      after Kept (unlock n token agent_id w) w.db held
        (λ e w' h. unlock_atomic n token agent_id w h)
        (λ released w' e.
          let r = unlock_decides n token agent_id w released name e in
          ground (arith, eqs_iff n name))

  renew_keeps :
      (now : ℤ) (n token : Bytes) (ttl : ℤ)
      → ((n ≡ name) → eqs token row.lock_token ≡ false)
      → Kept (world_of (renew now n token ttl w)).db
  renew_keeps now n token ttl foreign =
      after Kept (renew now n token ttl w) w.db held (λ e w' h. renew_atomic now n token ttl w h)
        (λ res w' e.
          let r = renew-granted now n token ttl w res name e in ground (arith, eqs_iff n name))

  renew_by_agent_keeps :
      (now : ℤ) (n agent_id : Bytes) (ttl : ℤ)
      → ((n ≡ name) → eqs agent_id row.agent_id ≡ false)
      → Kept (world_of (renew_by_agent now n agent_id ttl w)).db
  renew_by_agent_keeps now n agent_id ttl foreign =
      after Kept (renew_by_agent now n agent_id ttl w) w.db held
        (λ e w' h. renew_by_agent_atomic now n agent_id ttl w h)
        (λ res w' e.
          let r = renew_by_agent-granted now n agent_id ttl w res name e in
          ground (arith, eqs_iff n name))

  many_keeps :
      (now : ℤ) (names : List Bytes) (agent_id : Bytes) (ttl : ℤ)
      → le64 row.expires_at now ≡ false
      → Kept (world_of (lock_many now names agent_id ttl w)).db
  many_keeps now [] agent_id ttl live =
      after Kept (lock_many now [] agent_id ttl w) w.db held
        (λ e w' h. lock_many_empty_atomic now agent_id ttl w h)
        (λ r w' h. rw ((lock_many_empty now agent_id ttl w r h).1) held)
  many_keeps now (n ∷ ns) agent_id ttl live =
      after Kept (lock_many now (n ∷ ns) agent_id ttl w) w.db held
        (λ e w' h. lock_many_atomic now n ns agent_id ttl w h)
        (λ r w' h. elim (Bool-cases r.acquired) [
          | inl got ↦
              let l = live_holder now live in
              let (inside, outside) = lock_many_all now n ns agent_id ttl w r name h got in
              elim (Bool-cases (contains name (n ∷ ns))) [
                | inl c ↦ let taken = inside c in ground arith
                | inr c ↦ outside c ∙ held
              ]
          | inr lost ↦ rw ((lock_many_none now n ns agent_id ttl w r h lost).1) held
        ])

  module _ (u : Unique w.db.locks) where
    release_agent_keeps :
        (agent_id : Bytes)
        → eqs row.agent_id agent_id ≡ false
        → Kept (world_of (release_agent_locks agent_id w)).db
    release_agent_keeps agent_id foreign =
        after Kept (release_agent_locks agent_id w) w.db held
          (λ e w' h. release_agent_locks_atomic agent_id w h)
          (λ freed w' h. let r = release_agent_locks_lem agent_id w u freed name h in ground arith)

    reap_keeps : (now : ℤ) → le64 row.expires_at now ≡ false → Kept (world_of (reap_locks now w)).db
    reap_keeps now live =
        after Kept (reap_locks now w) w.db held (λ e w' h. reap_locks_atomic now w h)
          (λ a w' h. let r = reap_locks_lem now w u a name h in ground arith)

    -- One call.
    step_keeps : (c : Call) → Foreign name row c → Kept (step c w).db
    unfolding step
    step_keeps (acquires now n agent_id ttl) f = acquire_keeps now n agent_id ttl f
    step_keeps (unlocks n token agent_id) f = unlock_keeps n token agent_id f
    step_keeps (renews now n token ttl) f = renew_keeps now n token ttl f
    step_keeps (renews_by_agent now n agent_id ttl) f = renew_by_agent_keeps now n agent_id ttl f
    step_keeps (locks_many now names agent_id ttl) f = many_keeps now names agent_id ttl f
    step_keeps (releases_agent agent_id) f = release_agent_keeps agent_id f
    step_keeps (reaps now) f = reap_keeps now f

-- Mutual exclusion. If the rows of `locks` have distinct names and `row` is the row of `name`, then
-- it is still its row after any sequence of calls (which may fail or not) that are Foreign to it:
-- tryAcquire, LockMany and the reaper at times before the lease ends, Unlock and the renewals of
-- that name without the holder's token or agent id, and ReleaseAgentLocks for another agent.
pub run_exclusion :
    (name : Bytes) (row : LockRow) (cs : List Call) (w : World)
    → Unique w.db.locks
    → select name w.db.locks ≡ some row
    → All (Foreign name row) cs
    → select name (run cs w).db.locks ≡ some row
unfolding run
run_exclusion name row [] w u h f = h
run_exclusion name row (c ∷ cs) w u h f =
    run_exclusion name row cs (step c w) (step-Unique w u c) (step_keeps name row w h u c f.0) f.1
