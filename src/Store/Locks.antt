-- ===== src/Store/Locks.antt =====
-- The lock operations of internal/store/locks.go on the table `locks`: tryAcquire, Unlock, Renew,
-- RenewByAgent, ListLocks and ReleaseAgentLocks. `now` is what the call of Now() in the function
-- gives. LockMany is in Locks/Many, the queues and the blocking call of Lock in Queues.
pub mod Holder
pub mod Acquire
pub mod Expiry
pub mod History
pub mod Many
pub mod Listing
pub mod Release
pub mod Renew
pub mod Keyed
use agentpeek.Common.{
  ℕ, ℤ, pos, ◌≡◌, Bool, true, false, ◌&&◌, ◌||◌, not, Option, none, some, List, [], ◌∷◌, map,
  if◌then◌else◌, Bytes, str, eqs, add64, sub64, le64, lt64,
}
use agentpeek.Sql.Table.{select, upsert, update, delete, delete_where, select_where}
use agentpeek.Sql.Order.{order_by_key}
use agentpeek.Store.Db.{Db, LockRow, Error, invalid_ttl, not_owned, not_found, unique_constraint}
use agentpeek.Store.Exec.{M, World, ok, err, pure, fail, ◌>>=◌, ◌>>◌, driver, query, exec, tx}
use agentpeek.Store.Random.{new_token}

-- type LockInfo
pub record LockInfo : Type 0 where
  pub name : Bytes
  pub agent_id : Bytes
  pub expires_in_seconds : ℤ

-- type LockResult
pub record LockResult : Type 0 where
  pub locked : Bool
  pub lock_token : Bytes
  pub expires_in_seconds : ℤ
  pub held_by : Bytes
  pub wake_token : Bytes
  pub queue_position : ℕ
  pub retry_with : Bytes

-- LockResult{}
abbrev pub zero_result : LockResult
zero_result = record {
  locked = false;
  lock_token = [];
  expires_in_seconds = pos 0;
  held_by = [];
  wake_token = [];
  queue_position = 0;
  retry_with = [];
}

-- type holderInfo
pub record HolderInfo : Type 0 where
  pub agent_id : Bytes
  pub remaining : ℤ

abbrev pub no_holder : HolderInfo
no_holder = record { agent_id = []; remaining = pos 0 }

-- func secsLeft(expiresAt, now int64) int
unfoldable pub secs_left : ℤ → ℤ → ℤ
secs_left expires_at now = let d = sub64 expires_at now in if lt64 d (pos 0) then pos 0 else d

abbrev pub set_locks : (List (Bytes × LockRow) → List (Bytes × LockRow)) → Db → Db
set_locks f d = record d { locks = f d.locks }

-- INSERT INTO locks(...) VALUES(...): a row with the key is a constraint error.
insert_lock : Bytes → LockRow → M (Unit {0})
insert_lock name row w = elim (select name w.db.locks) [
  | none ↦ ok tt (record w { db = set_locks (upsert name row) w.db })
  | some _ ↦ err unique_constraint w
]

-- The outcome of a locking transaction: `acquired`, and the holder where it is false.
grant_free : Bytes → LockRow → M (Bool × HolderInfo)
unfolding insert_lock
grant_free name row = do driver; insert_lock name row; pure (true, no_holder)

grant_expired : ℤ → Bytes → LockRow → M (Bool × HolderInfo)
grant_expired now name row = do
  exec (set_locks (update name (λ old. if le64 old.expires_at now then row else old)))
  pure (true, no_holder)

-- The switch of tryAcquire on the row that it found.
acquire_row : ℤ → Bytes → LockRow → Option LockRow → M (Bool × HolderInfo)
unfolding grant_free grant_expired
acquire_row now name row none = grant_free name row
acquire_row now name row (some old) =
    if le64 old.expires_at now
    then grant_expired now name row
    else pure (false, record { agent_id = old.agent_id; remaining = secs_left old.expires_at now })

-- The row that an acquisition writes.
abbrev pub new_row : ℤ → Bytes → ℤ → Bytes → LockRow
new_row now agent_id ttl_seconds token = record {
  agent_id = agent_id;
  lock_token = token;
  acquired_at = now;
  expires_at = add64 now ttl_seconds;
}

-- LockResult{Locked: true, LockToken: token, ExpiresInSeconds: ttlSeconds}
abbrev pub granted : Bytes → ℤ → LockResult
granted token ttl_seconds = record zero_result {
  locked = true;
  lock_token = token;
  expires_in_seconds = ttl_seconds;
}

-- func (m *LockManager) tryAcquire(name, agentID string, ttlSeconds int)
unfoldable pub try_acquire : ℤ → Bytes → Bytes → ℤ → M (LockResult × Bool × HolderInfo)
unfolding new_token acquire_row tx
try_acquire now name agent_id ttl_seconds = do
  token ← new_token
  out ← tx (do
    found ← query (λ d. select name d.locks)
    acquire_row now name (new_row now agent_id ttl_seconds token) found)
  pure (if out.0 then (granted token ttl_seconds, true, no_holder) else (zero_result, false, out.1))

-- The capability check of Unlock.
unfoldable pub unlock_authorized : Bytes → Bytes → LockRow → Bool
unlock_authorized lock_token agent_id row =
    (not (eqs lock_token []) && eqs lock_token row.lock_token)
    || (eqs lock_token [] && (not (eqs agent_id []) && eqs agent_id row.agent_id))

unlock_row : Bytes → Bytes → Bytes → Option LockRow → M Bool
unfolding unlock_authorized
unlock_row name lock_token agent_id none = pure false
unlock_row name lock_token agent_id (some row) =
    if unlock_authorized lock_token agent_id row
    then (do exec (set_locks (delete name)); pure true)
    else pure false

-- func (m *LockManager) Unlock, up to the call of wakeHead on `released`
unfoldable pub unlock : Bytes → Bytes → Bytes → M Bool
unfolding unlock_row tx
unlock name lock_token agent_id =
    tx (do found ← query (λ d. select name d.locks); unlock_row name lock_token agent_id found)

abbrev pub set_expiry : ℤ → LockRow → LockRow
set_expiry expires_at row = record row { expires_at = expires_at }

-- The switch of Renew and RenewByAgent: `outErr`, if any.
renew_row : (LockRow → Bool) → ℤ → Bytes → ℤ → Option LockRow → M (Option Error)
renew_row owns now name expires_at none = pure (some not_found)
renew_row owns now name expires_at (some row) =
    if le64 row.expires_at now
    then pure (some not_found)
    else if not (owns row)
    then pure (some not_owned)
    else (do exec (set_locks (update name (set_expiry expires_at))); pure none)

renewing : (LockRow → Bool) → LockResult → ℤ → Bytes → ℤ → M LockResult
unfolding renew_row tx
renewing owns res now name ttl_seconds = if le64 ttl_seconds (pos 0) then fail invalid_ttl else (do
  out_err ← tx (do
    found ← query (λ d. select name d.locks)
    renew_row owns now name (add64 now ttl_seconds) found)
  elim out_err [ none ↦ pure res | some e ↦ fail e ])

-- func (m *LockManager) Renew
unfoldable pub renew : ℤ → Bytes → Bytes → ℤ → M LockResult
unfolding renewing
renew now name lock_token ttl_seconds =
    renewing (λ row. not (eqs lock_token [] || not (eqs lock_token row.lock_token)))
      (granted lock_token ttl_seconds) now name ttl_seconds

-- func (m *LockManager) RenewByAgent
unfoldable pub renew_by_agent : ℤ → Bytes → Bytes → ℤ → M LockResult
unfolding renewing
renew_by_agent now name agent_id ttl_seconds =
    renewing (λ row. not (eqs agent_id [] || not (eqs agent_id row.agent_id)))
      (granted [] ttl_seconds) now name ttl_seconds

abbrev pub lock_info : ℤ → Bytes × LockRow → LockInfo
lock_info now (name, row) = record {
  name = name;
  agent_id = row.agent_id;
  expires_in_seconds = secs_left row.expires_at now;
}

-- func (m *LockManager) ListLocks
unfoldable pub list_locks : ℤ → M (List LockInfo)
list_locks now = do
  rows ← query (λ d. order_by_key (select_where (λ _ row. lt64 now row.expires_at) d.locks))
  pure (map (lock_info now) rows)

delete_agent : Bytes → List (Bytes × LockRow) → M (List Bytes)
delete_agent agent_id [] = pure []
delete_agent agent_id (r ∷ rs) = do
  exec (set_locks (delete_where (λ _ row. eqs row.agent_id agent_id)))
  pure (map (λ s. s.0) (r ∷ rs))

-- func (m *LockManager) ReleaseAgentLocks, up to the calls of wakeHead: the names that it freed,
-- whose number is the count that the function returns.
unfoldable pub release_agent_locks : Bytes → M (List Bytes)
unfolding delete_agent tx
release_agent_locks agent_id = tx (do
  rows ← query (λ d. select_where (λ _ row. eqs row.agent_id agent_id) d.locks)
  delete_agent agent_id rows)
