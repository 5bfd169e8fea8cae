-- ===== src/Store/Locks/Expiry.antt =====
-- Whether an acquired lock is held once its expiry has been computed.
use agentpeek.Common.{
  ℕ, ◌+◌, ◌^◌, ◌≤◌, ◌<◌, ℤ, pos, ◌≡◌, Bool, true, false, none, some, arith, Bytes, IsInt64,
  NoOverflow, le64, add64_later, add64_overflow, eqs_refl,
}
use agentpeek.Store.Exec.{World, ok}
use agentpeek.Store.Locks.{LockResult, HolderInfo, new_row, try_acquire}
use agentpeek.Store.Locks.Holder.{holder}
use agentpeek.Store.Locks.Acquire.{try_acquire_free}

module _ (now : ℤ) (name agent_id : Bytes) (ttl : ℤ) (w : World) (res : LockResult)
    (acquired : Bool) (h : HolderInfo) {w' : World} (free : holder now name w.db.locks ≡ none)
    (e : try_acquire now name agent_id ttl w ≡ ok (res, acquired, h) w') where
  -- A granted lock is at once held by the caller, under the token that it was given.
  pub try_acquire_live :
      IsInt64 now
      → IsInt64 ttl
      → le64 ttl (pos 0) ≡ false
      → NoOverflow now ttl
      → holder now name w'.db.locks ≡ some (new_row now agent_id ttl res.lock_token)
  try_acquire_live i j p o = ground (
    arith,
    try_acquire_free now name agent_id ttl w res acquired h name free e,
    eqs_refl name,
    add64_later now ttl i j p o,
  )

-- The check ttlSeconds > 0 does not suffice: for a clock and a lifetime that are int64 but whose
-- sum is not, where no live holder stands in the way and tryAcquire answers, it reports the lock as
-- acquired, and the name has no live holder afterwards.
pub try_acquire_overflow :
    (now ttl : ℕ) (name agent_id : Bytes) (w : World) (res : LockResult) (acquired : Bool)
    (h : HolderInfo) {w' : World}
    → now < 2 ^ 63
    → ttl < 2 ^ 63
    → 2 ^ 63 ≤ now + ttl
    → holder (pos now) name w.db.locks ≡ none
    → try_acquire (pos now) name agent_id (pos ttl) w ≡ ok (res, acquired, h) w'
    → (acquired ≡ true) × (holder (pos now) name w'.db.locks ≡ none)
try_acquire_overflow now ttl name agent_id w res acquired h i j o free e = ground (
  arith,
  try_acquire_free (pos now) name agent_id (pos ttl) w res acquired h name free e,
  eqs_refl name,
  add64_overflow now ttl i j o,
)
