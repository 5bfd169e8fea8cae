-- ===== src/Store/Locks/History/Keys.antt =====
-- The primary key of the table `locks`, through any call.
use agentpeek.Common.{ℤ, ◌≡◌, refl, Bool, List, [], ◌∷◌, arith, Bytes, eqs, le64, add64}
use agentpeek.Sql.Table.{
  select, Unique, select-delete_where, delete_where-Unique, delete-Unique, update-Unique,
}
use agentpeek.Store.Db.{Db, LockRow, Error}
use agentpeek.Store.Exec.{World, Out, ok, err}
use agentpeek.Store.Locks.{
  set_expiry, try_acquire, unlock, renew, renew_by_agent, release_agent_locks,
}
use agentpeek.Store.Locks.Holder.{holder}
use agentpeek.Store.Locks.Acquire.{try_acquire_atomic, try_acquire-Unique}
use agentpeek.Store.Locks.Many.{lock_many}
use agentpeek.Store.Locks.Many.Atomic.{
  lock_many_atomic, lock_many_empty, lock_many_empty_atomic, lock_many-Unique,
}
use agentpeek.Store.Locks.History.{
  Call, acquires, unlocks, renews, renews_by_agent, locks_many, releases_agent, reaps, reap_locks,
  world_of, step,
}

-- To prove a fact of the tables that an action leaves: where it fails they are as before.
pub after {ℓ} :
    (P : Db → Type ℓ) {A : Type 0} (o : Out A) (d : Db)
    → P d
    → ((e : Error) (w' : World) → o ≡ err e w' → w'.db ≡ d)
    → ((a : A) (w' : World) → o ≡ ok a w' → P w'.db)
    → P (world_of o).db
after P (ok a w') d p atomic answered = answered a w' refl
after P (err e w') d p atomic answered = rw (atomic e w' refl) p

pub reap_locks_atomic :
    (now : ℤ) (w : World) {e : Error} {w' : World} → reap_locks now w ≡ err e w' → w'.db ≡ w.db
unfolding reap_locks
reap_locks_atomic now w h = ground arith

is_expired : ℤ → Bytes → LockRow → Bool
is_expired now _ row = le64 row.expires_at now

-- The reaper deletes the expired rows, and no other.
pub reap_locks_lem :
    (now : ℤ) (w : World) (u : Unique w.db.locks) (a : Unit {0}) (j : Bytes) {w' : World}
    → reap_locks now w ≡ ok a w'
    → select j w'.db.locks ≡ holder now j w.db.locks
unfolding reap_locks is_expired
reap_locks_lem now w u a j h = ground (arith, select-delete_where (is_expired now) j w.db.locks u)

abbrev Keyed : Db → Type 0
Keyed d = Unique d.locks

module _ (w : World) (u : Unique w.db.locks) where
  acquire-Unique :
      (now : ℤ) (n agent_id : Bytes) (ttl : ℤ)
      → Keyed (world_of (try_acquire now n agent_id ttl w)).db
  acquire-Unique now n agent_id ttl =
      after Keyed (try_acquire now n agent_id ttl w) w.db u
        (λ e w' h. try_acquire_atomic now n agent_id ttl w h)
        (λ (res, acquired, h) w' e. try_acquire-Unique now n agent_id ttl w res acquired h u e)

  many-Unique :
      (now : ℤ) (ns : List Bytes) (agent_id : Bytes) (ttl : ℤ)
      → Keyed (world_of (lock_many now ns agent_id ttl w)).db
  many-Unique now [] agent_id ttl =
      after Keyed (lock_many now [] agent_id ttl w) w.db u
        (λ e w' h. lock_many_empty_atomic now agent_id ttl w h)
        (λ r w' h. rw ((lock_many_empty now agent_id ttl w r h).1) u)
  many-Unique now (n ∷ ns) agent_id ttl =
      after Keyed (lock_many now (n ∷ ns) agent_id ttl w) w.db u
        (λ e w' h. lock_many_atomic now n ns agent_id ttl w h)
        (λ r w' h. lock_many-Unique now n ns agent_id ttl w r u h)

  -- If the rows of `locks` have distinct names, they still do after any call, whether it succeeds
  -- or fails.
  pub step-Unique : (c : Call) → Unique (step c w).db.locks
  unfolding step unlock renew renew_by_agent release_agent_locks reap_locks is_expired
  step-Unique (acquires now n agent_id ttl) = acquire-Unique now n agent_id ttl
  step-Unique (unlocks n token agent_id) = ground (arith, delete-Unique n w.db.locks u)
  step-Unique (renews now n token ttl) =
      ground (arith, update-Unique n (set_expiry (add64 now ttl)) w.db.locks u)
  step-Unique (renews_by_agent now n agent_id ttl) =
      ground (arith, update-Unique n (set_expiry (add64 now ttl)) w.db.locks u)
  step-Unique (locks_many now ns agent_id ttl) = many-Unique now ns agent_id ttl
  step-Unique (releases_agent agent_id) =
      ground (arith, delete_where-Unique (λ _ row. eqs row.agent_id agent_id) w.db.locks u)
  step-Unique (reaps now) = ground (arith, delete_where-Unique (is_expired now) w.db.locks u)
