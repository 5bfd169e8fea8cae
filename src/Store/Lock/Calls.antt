-- ===== src/Store/Lock/Calls.antt =====
-- What a call of Lock returns, and what it leaves in the table and in the line.
use agentpeek.Common.{
  ◌==◌, ℤ, pos, ◌≡◌, refl, Bool, true, false, none, some, List, [], ◌∷◌, arith, if◌then◌else◌,
  Bytes, eqs, le64, Option-cases, inl, inr,
}
use agentpeek.Sql.Table.{select}
use agentpeek.Store.Exec.{World, Out, ok, err}
use agentpeek.Store.Locks.{LockResult, HolderInfo, granted, new_row, try_acquire}
use agentpeek.Store.Locks.Holder.{holder}
use agentpeek.Store.Locks.Acquire.{try_acquire_free, try_acquire_held}
use agentpeek.Store.Queues.{
  Waiter, queue, is_head, dequeue, queue_position, wake_head, signal, signal_head, reattach,
}
use agentpeek.Store.Queues.Fifo.{ids, enqueue_fifo, reattach-some}
use agentpeek.Store.Lock.{
  System, Request, Phase, returned, failed, blocked, lock_begin, lock_poll, not_acquired,
  unlock_call, reattaches, join_line, clamp_wait,
}

-- What tryAcquire does at a call that it acquires.
abbrev pub Acquired : ℤ → Request → World → LockResult → World → Bytes → Type 0
Acquired now r w res w' j =
    (holder now r.name w.db.locks ≡ none)
    × (res ≡ granted res.lock_token r.ttl_seconds)
    × (select j w'.db.locks ≡ (
        if eqs r.name j
        then some (new_row now r.agent_id r.ttl_seconds res.lock_token)
        else select j w.db.locks))

pub Acquired-free :
    (now : ℤ) (r : Request) (w : World) (res : LockResult) (h : HolderInfo) {w' : World} (j : Bytes)
    → try_acquire now r.name r.agent_id r.ttl_seconds w ≡ ok (res, true, h) w'
    → Acquired now r w res w' j
Acquired-free now r w res h j e = elim (Option-cases (holder now r.name w.db.locks)) [
  | inl free ↦
      let t = try_acquire_free now r.name r.agent_id r.ttl_seconds w res true h j free e in
      (free, t.1, t.2)
  | inr (row, held) ↦
      let t = try_acquire_held now r.name r.agent_id r.ttl_seconds w res true h row held e in
      absurd (ground arith)
]

-- A pass of Lock's loop that returns a result ran for the head of the line, at a time with no live
-- holder; it has granted the lock to the caller under the token of the result, changed no other
-- name's row, and left the line by dequeue.
pub lock_poll_returned :
    (now : ℤ) (r : Request) (w : Waiter) (s : System) (res : LockResult) {s' : System} (j : Bytes)
    → lock_poll now r w s ≡ (returned res, s')
    → (is_head r.name w.id s.manager ≡ true)
      × (s'.manager ≡ dequeue r.name w.id s.manager)
      × Acquired now r s.world res s'.world j
unfolding lock_poll
lock_poll_returned now r w s res {s'} j h =
    split (try_acquire now r.name r.agent_id r.ttl_seconds s.world) refl
  where
    split :
        (o : Out (LockResult × Bool × HolderInfo))
        → try_acquire now r.name r.agent_id r.ttl_seconds s.world ≡ o
        → (is_head r.name w.id s.manager ≡ true)
          × (s'.manager ≡ dequeue r.name w.id s.manager)
          × Acquired now r s.world res s'.world j
    split (err e w') o = absurd (ground arith)
    split (ok (res', true, i) w') o =
        let a = Acquired-free now r s.world res' i j o in (ground arith, ground arith, ground arith)
    split (ok (res', false, i) w') o = absurd (ground arith)

-- A waiter that is not the head touches nothing, and goes back to its wait.
pub lock_poll_behind :
    (now : ℤ) (r : Request) (w : Waiter) (s : System)
    → is_head r.name w.id s.manager ≡ false
    → lock_poll now r w s ≡ (blocked w, s)
unfolding lock_poll
lock_poll_behind now r w s h = ground arith

-- The call has ended, and not by a panic.
abbrev pub IsOver : Phase → Type 0
IsOver (returned res) = Unit
IsOver (failed e) = Unit
IsOver _ = ⊥

-- A call that asks for no wait leaves the line as it was, and does not stay in the loop.
pub lock_begin_nonblocking :
    (now later : ℤ) (r : Request) (s : System) (p : Phase) {s' : System}
    → le64 (clamp_wait r.wait_seconds) (pos 0) ≡ true
    → lock_begin now later r s ≡ (p, s')
    → (s'.manager ≡ s.manager) × IsOver p
unfolding lock_begin
lock_begin_nonblocking now later r s p h e = ground arith

-- What notAcquiredResult leaves and reports.
pub not_acquired_token :
    (now : ℤ) (name : Bytes) (w : Waiter) (s : System) (res : LockResult) {s' : System}
    → not_acquired now name w s ≡ (res, s')
    → (s'.manager ≡ s.manager)
      × (s'.world.db ≡ s.world.db)
      × (res.locked ≡ false)
      × (res.queue_position ≡ queue_position name w.id s.manager)
      × (res.wake_token ≡ (if queue_position name w.id s.manager == 0 then [] else w.wake_token))
unfolding not_acquired
not_acquired_token now name w s res h = ground arith

-- A re-poll with the token of a waiter in line keeps that line as it is.
pub join_line_repoll :
    (now : ℤ) (r : Request) (s : System) (j : Bytes)
    → reattaches r s.manager ≡ true
    → (ids (queue j (join_line now r s).1.manager) ≡ ids (queue j s.manager))
      × ((join_line now r s).1.world ≡ s.world)
unfolding join_line reattaches
join_line_repoll now r s j h =
    let t : ℤ = pos 0 in
    elim (Option-cases (reattach r.wake_token t (queue r.name s.manager))) [
      | inl n ↦ absurd (ground arith)
      | inr ((y, q), f) ↦
          let known = reattach-some r.wake_token t (queue r.name s.manager) y q f in
          let fifo =
            enqueue_fifo now r.name r.agent_id r.wake_token r.ttl_seconds
              (clamp_wait r.wait_seconds) [] s.manager j in
          (ground arith, ground arith)
    ]

-- Where Unlock releases a lock whose line is not empty, a signal is pending for the head of that
-- line.
pub unlock_call_wakes :
    (name token agent_id : Bytes) (s : System) (x : Waiter) (q : List Waiter) {w' : World}
    {s' : System}
    → queue name s.manager ≡ x ∷ q
    → unlock_call name token agent_id s ≡ (ok true w', s')
    → s'.manager.signalled x.id ≡ true
unfolding unlock_call wake_head signal_head signal
unlock_call_wakes name token agent_id s x q h e = ground arith
