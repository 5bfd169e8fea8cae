-- ===== src/Store/Locks/Acquire.antt =====
-- What tryAcquire does to the holders.
use agentpeek.Common.{
  ℤ, ◌≡◌, Bool, true, false, none, some, arith, if◌then◌else◌, Bytes, eqs, eqs_iff, le64,
}
use agentpeek.Sql.Table.{select, select-upsert, select-update, Unique, upsert-Unique, update-Unique}
use agentpeek.Store.Db.{LockRow}
use agentpeek.Store.Exec.{World, bytes, ok, err, Quiet, quiet4, Answers}
use agentpeek.Store.Locks.{LockResult, HolderInfo, granted, new_row, try_acquire, secs_left}
use agentpeek.Store.Locks.Holder.{holder}

module _ (now : ℤ) (name agent_id : Bytes) (ttl : ℤ) (w : World) where
  -- tryAcquire fails only by an error of its environment, and then it changes no table.
  pub try_acquire_atomic :
      {e : _} {w' : World} → try_acquire now name agent_id ttl w ≡ err e w' → w'.db ≡ w.db
  unfolding try_acquire
  try_acquire_atomic h = ground arith

  -- Where a name has a live holder and tryAcquire answers, it does not acquire, reports that holder
  -- and the seconds that are left, and changes no table.
  pub try_acquire_held :
      (res : LockResult) (acquired : Bool) (h : HolderInfo) {w' : World} (row : LockRow)
      → holder now name w.db.locks ≡ some row
      → try_acquire now name agent_id ttl w ≡ ok (res, acquired, h) w'
      → (acquired ≡ false)
        × (h.agent_id ≡ row.agent_id)
        × (h.remaining ≡ secs_left row.expires_at now)
        × (w'.db ≡ w.db)
  unfolding try_acquire
  try_acquire_held res acquired h row held e = ground arith

  -- Where a name has no live holder (no row, or one that has expired) and tryAcquire answers, it
  -- acquires: the row of the name is new, with the token of the result, and every other row is as
  -- before.
  pub try_acquire_free :
      (res : LockResult) (acquired : Bool) (h : HolderInfo) {w' : World} (j : Bytes)
      → holder now name w.db.locks ≡ none
      → try_acquire now name agent_id ttl w ≡ ok (res, acquired, h) w'
      → (acquired ≡ true)
        × (res ≡ granted res.lock_token ttl)
        × (select j w'.db.locks ≡ (
            if eqs name j
            then some (new_row now agent_id ttl res.lock_token)
            else select j w.db.locks))
  unfolding try_acquire
  try_acquire_free res acquired h j free e =
      let row : LockRow = new_row now agent_id ttl res.lock_token in
      let renew : LockRow → LockRow = λ old. if le64 old.expires_at now then row else old in
      ground (
        arith,
        eqs_iff name j,
        select-upsert name j row w.db.locks,
        select-update name j renew w.db.locks,
      )

  -- With randomness and a driver that refuses nothing, tryAcquire answers.
  pub try_acquire_total :
      (b : Bytes)
      → w.entropy w.draws ≡ bytes b
      → Quiet w
      → Answers (try_acquire now name agent_id ttl w)
  unfolding try_acquire
  try_acquire_total b r q = ground (arith, quiet4 w q)

  pub try_acquire-Unique :
      (res : LockResult) (acquired : Bool) (h : HolderInfo) {w' : World}
      → Unique w.db.locks
      → try_acquire now name agent_id ttl w ≡ ok (res, acquired, h) w'
      → Unique w'.db.locks
  unfolding try_acquire
  try_acquire-Unique res acquired h u e =
      let row : LockRow = new_row now agent_id ttl res.lock_token in
      let renew : LockRow → LockRow = λ old. if le64 old.expires_at now then row else old in
      ground (arith, upsert-Unique name row w.db.locks u, update-Unique name renew w.db.locks u)
