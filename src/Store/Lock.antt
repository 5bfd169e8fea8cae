-- ===== src/Store/Lock.antt =====
-- The blocking calls of the LockManager in internal/store/locks.go: Lock, Unlock, ReleaseAgentLocks
-- and reapOnce, over the table and the wait queues. A call of Lock is a small machine: what it does
-- between two points at which another goroutine may run is one function, and the phase says where
-- it stands.
pub mod Calls
pub mod Place
pub mod Handover
pub mod Reaper
pub mod Keyed
use agentpeek.Common.{
  ℕ, ◌+◌, ◌==◌, ℤ, pos, ◌≡◌, Bool, true, false, ◌&&◌, not, Option, none, some, List, [], ◌∷◌, ◌++◌,
  if◌then◌else◌, Bytes, str, eqs, le64, lt64,
}
use agentpeek.Sql.Table.{select}
use agentpeek.Store.Db.{Db, LockRow, Error, invalid_ttl}
use agentpeek.Store.Exec.{World, Out, ok, err, query}
use agentpeek.Store.Random.{new_token}
use agentpeek.Store.Locks.{
  LockResult, HolderInfo, zero_result, secs_left, try_acquire, unlock, release_agent_locks,
}
use agentpeek.Store.Locks.History.{reap_locks, world_of}
use agentpeek.Store.Queues.{
  Waiter, Manager, queue, reattach, enqueue, is_head, dequeue, queue_position, signal, wake_head,
  gc_waiters,
}

-- A LockManager, with the database under it.
pub record System : Type 0 where
  pub world : World
  pub manager : Manager

-- The arguments of a call of Lock.
pub record Request : Type 0 where
  pub name : Bytes
  pub agent_id : Bytes
  pub ttl_seconds : ℤ
  pub wait_seconds : ℤ
  pub wake_token : Bytes

-- Where a call of Lock stands: it has returned, or panicked in mustToken, or is at the top of the
-- loop, or waits in the select.
pub data Phase : Type 0 where
  returned : LockResult → Phase
  failed : Error → Phase
  panicked : Phase
  polling : Waiter → Phase
  blocked : Waiter → Phase

-- What ends a wait in the select: ctx.Done(), deadline.C, or w.ch.
pub data Woken : Type 0 where
  cancelled timed_out signalled : Woken

-- const maxWaitSeconds
abbrev pub max_wait_seconds : ℤ
max_wait_seconds = pos 50

unfoldable pub clamp_wait : ℤ → ℤ
clamp_wait wait_seconds =
    let w = if lt64 wait_seconds (pos 0) then pos 0 else wait_seconds in
    if lt64 max_wait_seconds w then max_wait_seconds else w

-- Whether enqueue finds the wake token, so that it mints none.
unfoldable pub reattaches : Request → Manager → Bool
reattaches r m =
    not (eqs r.wake_token [])
    && elim (reattach r.wake_token (pos 0) (queue r.name m)) [ none ↦ false | some _ ↦ true ]

-- The call of enqueue; `now` is its own reading of the clock.
unfoldable pub join_line : ℤ → Request → System → Phase × System
join_line now r s =
    let go : Bytes → World → Phase × System = λ fresh w.
      let e : Waiter × Manager =
        enqueue now r.name r.agent_id r.wake_token r.ttl_seconds (clamp_wait r.wait_seconds) fresh
          s.manager in
      (polling e.0, record { world = w; manager = e.1 }) in
    if reattaches r s.manager then go [] s.world else elim (new_token s.world) [
      | ok fresh w ↦ go fresh w
      | err e w ↦ (panicked, record s { world = w })
    ]

-- LockResult of a call that does not block.
abbrev pub held_result : HolderInfo → LockResult
held_result h = record zero_result { held_by = h.agent_id; expires_in_seconds = h.remaining }

-- func (m *LockManager) Lock, up to the loop. `now` is the clock in tryAcquire, `later` in enqueue.
unfoldable pub lock_begin : ℤ → ℤ → Request → System → Phase × System
lock_begin now later r s =
    if le64 r.ttl_seconds (pos 0)
    then (failed invalid_ttl, s)
    else elim (try_acquire now r.name r.agent_id r.ttl_seconds s.world) [
      | err e w ↦ (failed e, record s { world = w })
      | ok (res, acquired, h) w ↦
          if acquired
          then (returned res, record s { world = w })
          else if le64 (clamp_wait r.wait_seconds) (pos 0)
          then (returned (held_result h), record s { world = w })
          else join_line later r (record s { world = w })
    ]

-- The top of the loop: only the head of the line tries to acquire, and leaves the line if it does.
unfoldable pub lock_poll : ℤ → Request → Waiter → System → Phase × System
lock_poll now r w s =
    if not (is_head r.name w.id s.manager)
    then (blocked w, s)
    else elim (try_acquire now r.name r.agent_id r.ttl_seconds s.world) [
      | err e w' ↦ (failed e, record s { world = w' })
      | ok (res, acquired, h) w' ↦
          if acquired
          then (returned res, record { world = w'; manager = dequeue r.name w.id s.manager })
          else (blocked w, record s { world = w' })
    ]

abbrev pub retry_with : Bytes → Bytes
retry_with token =
    str "call lock_resource again with wake_token=" ++ (token ++ str " to keep your place in line")

-- The holder that notAcquiredResult reports: none where the query fails.
live_row : ℤ → Out (Option LockRow) → HolderInfo
live_row now (err e w) = record { agent_id = []; remaining = pos 0 }
live_row now (ok none w) = record { agent_id = []; remaining = pos 0 }
live_row now (ok (some row) w) =
    if lt64 now row.expires_at
    then record { agent_id = row.agent_id; remaining = secs_left row.expires_at now }
    else record { agent_id = []; remaining = pos 0 }

-- func (m *LockManager) notAcquiredResult
unfoldable pub not_acquired : ℤ → Bytes → Waiter → System → LockResult × System
unfolding live_row
not_acquired now name w s =
    let found = query (λ d. select name d.locks) s.world in
    let h = live_row now found in
    let position = queue_position name w.id s.manager in
    (
      if position == 0 then held_result h else record (held_result h) {
        wake_token = w.wake_token;
        queue_position = position;
        retry_with = retry_with w.wake_token;
      },
      record s { world = world_of found },
    )

-- The select: a signal is taken from the channel and the loop goes on, anything else ends the call.
unfoldable pub lock_wake : ℤ → Request → Waiter → Woken → System → Phase × System
lock_wake now r w signalled s =
    let m = s.manager in
    (
      polling w,
      record s {
        manager = record m { signalled = λ i. if i == w.id then false else m.signalled i };
      },
    )
lock_wake now r w cancelled s = let (res, s') = not_acquired now r.name w s in (returned res, s')
lock_wake now r w timed_out s = let (res, s') = not_acquired now r.name w s in (returned res, s')

-- func (m *LockManager) Unlock
unfoldable pub unlock_call : Bytes → Bytes → Bytes → System → Out Bool × System
unlock_call name lock_token agent_id s =
    let out = unlock name lock_token agent_id s.world in
    (
      out,
      record {
        world = world_of out;
        manager = elim out [
          | ok released w ↦ if released then wake_head name s.manager else s.manager
          | err e w ↦ s.manager
        ];
      },
    )

wake_all : List Bytes → Manager → Manager
wake_all [] m = m
wake_all (n ∷ ns) m = wake_all ns (wake_head n m)

-- func (m *LockManager) ReleaseAgentLocks
unfoldable pub release_agent : Bytes → System → Out (List Bytes) × System
unfolding wake_all
release_agent agent_id s =
    let out = release_agent_locks agent_id s.world in
    (
      out,
      record {
        world = world_of out;
        manager = elim out [ ok freed w ↦ wake_all freed s.manager | err e w ↦ s.manager ];
      },
    )

-- func (m *LockManager) lockIsFree
pub is_free : ℤ → Out (Option LockRow) → Bool
is_free now (err e w) = false
is_free now (ok none w) = true
is_free now (ok (some row) w) = le64 row.expires_at now

-- Step 3 of reapOnce, over the heads that it has collected.
pub wake_free : ℤ → List (Bytes × List Waiter) → System → System
unfolding is_free
wake_free now [] s = s
wake_free now ((name, []) ∷ rest) s = wake_free now rest s
wake_free now ((name, x ∷ q) ∷ rest) s =
    let found = query (λ d. select name d.locks) s.world in
    wake_free now rest (record {
      world = world_of found;
      manager = if is_free now found then signal x.id s.manager else s.manager;
    })

-- func (m *LockManager) reapOnce
unfoldable pub reap_once : ℤ → System → System
unfolding wake_free
reap_once now s =
    let m = gc_waiters now s.manager in
    wake_free now m.queues (record { world = world_of (reap_locks now s.world); manager = m })
