-- ===== src/Store/Locks/Keyed.antt =====
-- The calls on the table `locks` keep the keys of every table.
use agentpeek.Common.{
  ℤ, Bool, true, false, Option, none, some, List, [], ◌∷◌, Bytes, le64, add64, not,
}
use agentpeek.Sql.Table.{
  select, upsert, upsert-Unique, update-Unique, delete-Unique, delete_where-Unique,
}
use agentpeek.Store.Db.{LockRow, Error, invalid_ttl, not_found, unique_constraint}
use agentpeek.Store.Exec.{World, ok, err, pure, fail, driver, query, exec}
use agentpeek.Store.Locks.{
  LockResult, set_locks, set_expiry, insert_lock, grant_free, grant_expired, acquire_row,
  try_acquire, unlock_row, unlock, unlock_authorized, renew_row, renewing, renew, renew_by_agent,
  list_locks, delete_agent, release_agent_locks,
}
use agentpeek.Store.Locks.History.{reap_locks, world_of}
use agentpeek.Store.Keyed.{
  IsKeyed, Keeps, pure-Keeps, fail-Keeps, bind-Keeps, query-Keeps, exec-Keeps, driver-Keeps,
  new_token-Keeps, tx-Keeps, if-Keeps, set_locks-Keyed,
}

insert_out :
    (name : Bytes) (row : LockRow) (w : World) (o : Option LockRow)
    → IsKeyed w.db
    → IsKeyed
        (world_of {A = Unit {0}} (elim o [
          | none ↦ ok tt (record w { db = set_locks (upsert name row) w.db })
          | some _ ↦ err unique_constraint w
        ])).db
insert_out name row w none k = set_locks-Keyed (upsert name row) (upsert-Unique name row) w.db k
insert_out name row w (some r) k = k

insert_lock-Keeps : (name : Bytes) (row : LockRow) → Keeps (insert_lock name row)
unfolding insert_lock
insert_lock-Keeps name row = record {
  keeps = λ w k. insert_out name row w (select name w.db.locks) k;
}

acquire_row-Keeps :
    (now : ℤ) (name : Bytes) (row : LockRow) (found : Option LockRow)
    → Keeps (acquire_row now name row found)
unfolding acquire_row grant_free grant_expired
acquire_row-Keeps now name row none =
    bind-Keeps driver _ driver-Keeps
      (λ u. bind-Keeps (insert_lock name row) _ (insert_lock-Keeps name row) (λ v. pure-Keeps _))
acquire_row-Keeps now name row (some old) =
    if-Keeps (le64 old.expires_at now) _ _
      (bind-Keeps (exec _) _ (exec-Keeps _ (set_locks-Keyed _ (update-Unique name _)))
        (λ u. pure-Keeps _))
      (pure-Keeps _)

pub try_acquire-Keeps :
    (now : ℤ) (name agent_id : Bytes) (ttl : ℤ) → Keeps (try_acquire now name agent_id ttl)
unfolding try_acquire
try_acquire-Keeps now name agent_id ttl = bind-Keeps _ _ new_token-Keeps (λ token.
    bind-Keeps _ _
      (tx-Keeps _
        (bind-Keeps (query _) _ (query-Keeps _) (λ found. acquire_row-Keeps now name _ found)))
      (λ out. pure-Keeps _))

unlock_row-Keeps :
    (name token agent_id : Bytes) (found : Option LockRow)
    → Keeps (unlock_row name token agent_id found)
unfolding unlock_row
unlock_row-Keeps name token agent_id none = pure-Keeps false
unlock_row-Keeps name token agent_id (some row) =
    if-Keeps (unlock_authorized token agent_id row) _ _
      (bind-Keeps (exec _) _ (exec-Keeps _ (set_locks-Keyed _ (delete-Unique name)))
        (λ u. pure-Keeps true))
      (pure-Keeps false)

pub unlock-Keeps : (name token agent_id : Bytes) → Keeps (unlock name token agent_id)
unfolding unlock
unlock-Keeps name token agent_id =
    tx-Keeps _ (bind-Keeps (query _) _ (query-Keeps _) (unlock_row-Keeps name token agent_id))

renew_row-Keeps :
    (owns : LockRow → Bool) (now : ℤ) (name : Bytes) (expires_at : ℤ) (found : Option LockRow)
    → Keeps (renew_row owns now name expires_at found)
unfolding renew_row
renew_row-Keeps owns now name expires_at none = pure-Keeps (some not_found)
renew_row-Keeps owns now name expires_at (some row) =
    if-Keeps (le64 row.expires_at now) _ _ (pure-Keeps _) (
      if-Keeps (not (owns row)) _ _ (pure-Keeps _) (
        bind-Keeps (exec _) _
          (exec-Keeps _ (set_locks-Keyed _ (update-Unique name (set_expiry expires_at))))
          (λ u. pure-Keeps none)))

outcome-Keeps :
    (res : LockResult) (o : Option Error)
    → Keeps {A = LockResult} (elim o [ none ↦ pure res | some e ↦ fail e ])
outcome-Keeps res none = pure-Keeps res
outcome-Keeps res (some e) = fail-Keeps LockResult e

renewing-Keeps :
    (owns : LockRow → Bool) (res : LockResult) (now : ℤ) (name : Bytes) (ttl : ℤ)
    → Keeps (renewing owns res now name ttl)
unfolding renewing
renewing-Keeps owns res now name ttl =
    if-Keeps (le64 ttl _) _ _ (fail-Keeps LockResult invalid_ttl) (
      bind-Keeps _ _
        (tx-Keeps _
          (bind-Keeps (query _) _ (query-Keeps _) (renew_row-Keeps owns now name (add64 now ttl))))
        (outcome-Keeps res))

pub renew-Keeps : (now : ℤ) (name token : Bytes) (ttl : ℤ) → Keeps (renew now name token ttl)
unfolding renew
renew-Keeps now name token ttl = renewing-Keeps _ _ now name ttl

pub renew_by_agent-Keeps :
    (now : ℤ) (name agent_id : Bytes) (ttl : ℤ) → Keeps (renew_by_agent now name agent_id ttl)
unfolding renew_by_agent
renew_by_agent-Keeps now name agent_id ttl = renewing-Keeps _ _ now name ttl

pub list_locks-Keeps : (now : ℤ) → Keeps (list_locks now)
unfolding list_locks
list_locks-Keeps now = bind-Keeps (query _) _ (query-Keeps _) (λ rows. pure-Keeps _)

delete_agent-Keeps :
    (agent_id : Bytes) (rows : List (Bytes × LockRow)) → Keeps (delete_agent agent_id rows)
unfolding delete_agent
delete_agent-Keeps agent_id [] = pure-Keeps []
delete_agent-Keeps agent_id (r ∷ rs) =
    bind-Keeps (exec _) _ (exec-Keeps _ (set_locks-Keyed _ (delete_where-Unique _)))
      (λ u. pure-Keeps _)

pub release_agent_locks-Keeps : (agent_id : Bytes) → Keeps (release_agent_locks agent_id)
unfolding release_agent_locks
release_agent_locks-Keeps agent_id =
    tx-Keeps _ (bind-Keeps (query _) _ (query-Keeps _) (delete_agent-Keeps agent_id))

pub reap_locks-Keeps : (now : ℤ) → Keeps (reap_locks now)
unfolding reap_locks
reap_locks-Keeps now = tx-Keeps _ (exec-Keeps _ (set_locks-Keyed _ (delete_where-Unique _)))
