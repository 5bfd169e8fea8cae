-- ===== src/Store/Locks/History.antt =====
-- Histories of calls on the table `locks`, in any order and by any agents.
pub mod Keys
pub mod Exclusion
pub mod Service
use agentpeek.Common.{
  ℤ, ◌≡◌, refl, ◌⊎◌, inl, inr, ◌∙◌, Bool, true, false, Option, none, some, List, [], ◌∷◌, arith,
  if◌then◌else◌, Bytes, eqs, eqs_iff, le64, Bool-cases, Option-cases,
}
use agentpeek.Sql.Table.{
  select, Unique, delete_where, select-delete_where, delete_where-Unique, select-delete,
  delete-Unique, update-Unique,
}
use agentpeek.Store.Db.{Db, LockRow, Error}
use agentpeek.Store.Exec.{M, World, Out, ok, err, exec, tx, tx_ok, exec_ok, tx_atomic}
use agentpeek.Store.Locks.{
  LockResult, HolderInfo, set_locks, set_expiry, new_row, try_acquire, unlock, unlock_authorized,
  renew, renew_by_agent, release_agent_locks,
}
use agentpeek.Store.Locks.Holder.{Locks, holder}
use agentpeek.Store.Locks.Acquire.{
  try_acquire_held, try_acquire_free, try_acquire_atomic, try_acquire-Unique,
}
use agentpeek.Store.Locks.Release.{unlock_decides, release_agent_locks_lem}
use agentpeek.Store.Locks.Renew.{renew-granted, renew_by_agent-granted}
use agentpeek.Store.Locks.Many.{ManyResult, lock_many}
use agentpeek.Store.Locks.Many.Names.{contains}
use agentpeek.Store.Locks.Many.Atomic.{lock_many_all, lock_many_none, lock_many_atomic}

-- Step 1 of reapOnce: the expired rows are deleted.
unfoldable pub reap_locks : ℤ → M (Unit {0})
unfolding tx
reap_locks now = tx (exec (set_locks (delete_where (λ _ row. le64 row.expires_at now))))

-- A call, with the time at which it runs where it reads the clock.
pub data Call : Type 0 where
  acquires : ℤ → Bytes → Bytes → ℤ → Call
  unlocks : Bytes → Bytes → Bytes → Call
  renews : ℤ → Bytes → Bytes → ℤ → Call
  renews_by_agent : ℤ → Bytes → Bytes → ℤ → Call
  locks_many : ℤ → List Bytes → Bytes → ℤ → Call
  releases_agent : Bytes → Call
  reaps : ℤ → Call

-- The world that an action leaves, whether it fails or not.
abbrev pub world_of : {A : Type 0} → Out A → World
world_of (ok a w) = w
world_of (err e w) = w

pub step : Call → World → World
step (acquires now name agent_id ttl) w = world_of (try_acquire now name agent_id ttl w)
step (unlocks name token agent_id) w = world_of (unlock name token agent_id w)
step (renews now name token ttl) w = world_of (renew now name token ttl w)
step (renews_by_agent now name agent_id ttl) w = world_of (renew_by_agent now name agent_id ttl w)
step (locks_many now names agent_id ttl) w = world_of (lock_many now names agent_id ttl w)
step (releases_agent agent_id) w = world_of (release_agent_locks agent_id w)
step (reaps now) w = world_of (reap_locks now w)

pub run : List Call → World → World
run [] w = w
run (c ∷ cs) w = run cs (step c w)

-- The call is not made in the name of the holder `row` of the lock `name`: it does not show the
-- row's token, nor (where the code accepts an agent id instead) its agent id. Where the call reads
-- the clock, the holder's lease has not run out.
abbrev pub Foreign : Bytes → LockRow → Call → Type 0
Foreign name row (acquires now n agent_id ttl) = le64 row.expires_at now ≡ false
Foreign name row (unlocks n token agent_id) =
    (n ≡ name) → unlock_authorized token agent_id row ≡ false
Foreign name row (renews now n token ttl) = (n ≡ name) → eqs token row.lock_token ≡ false
Foreign name row (renews_by_agent now n agent_id ttl) =
    (n ≡ name) → eqs agent_id row.agent_id ≡ false
Foreign name row (locks_many now names agent_id ttl) = le64 row.expires_at now ≡ false
Foreign name row (releases_agent agent_id) = eqs row.agent_id agent_id ≡ false
Foreign name row (reaps now) = le64 row.expires_at now ≡ false
