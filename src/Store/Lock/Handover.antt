-- ===== src/Store/Lock/Handover.antt =====
-- From Unlock to the next in line.
use agentpeek.Common.{ℤ, ◌≡◌, refl, Bool, true, none, List, ◌∷◌, arith, Bytes, eqs_refl}
use agentpeek.Store.Exec.{World, bytes, Out, ok, err, Quiet}
use agentpeek.Store.Locks.{LockResult, HolderInfo, try_acquire}
use agentpeek.Store.Locks.Holder.{holder}
use agentpeek.Store.Locks.Acquire.{try_acquire_free, try_acquire_total}
use agentpeek.Store.Locks.Release.{unlock_decides}
use agentpeek.Store.Queues.{Waiter, queue, is_head, head_is, wake_head, signal, signal_head}
use agentpeek.Store.Queues.Fifo.{queue-eq}
use agentpeek.Store.Lock.{System, Request, Phase, returned, unlock_call, lock_poll}

-- The call has returned with the lock.
abbrev pub Won : Phase → Type 0
Won (returned res) = res.locked ≡ true
Won _ = ⊥

module _ (s : System) (x : Waiter) (q : List Waiter) (r : Request) (token agent_id : Bytes)
    {w' : World} {s' : System} (line : queue r.name s.manager ≡ x ∷ q)
    (e : unlock_call r.name token agent_id s ≡ (ok true w', s')) where
  still_head : is_head r.name x.id s'.manager ≡ true
  unfolding is_head head_is unlock_call wake_head signal_head signal
  still_head = ground (arith, queue-eq r.name s'.manager s.manager)

  freed : (now : ℤ) → holder now r.name s'.world.db.locks ≡ none
  unfolding unlock_call
  freed now =
      ground
        (arith, unlock_decides r.name token agent_id s.world true {w' = w'} r.name, eqs_refl r.name)

  -- Once Unlock has released the lock of a line with head `x`, the next poll of `x`, before
  -- anything else runs but at any time of the clock, returns with the lock, if the driver refuses
  -- nothing from there on and the next read of randomness succeeds.
  pub lock_handover :
      (now : ℤ) (b : Bytes)
      → Quiet s'.world
      → s'.world.entropy s'.world.draws ≡ bytes b
      → Won (lock_poll now r x s').0
  unfolding lock_poll
  lock_handover now b calm random =
      split (try_acquire now r.name r.agent_id r.ttl_seconds s'.world) refl
    where
      split :
          (o : Out (LockResult × Bool × HolderInfo))
          → try_acquire now r.name r.agent_id r.ttl_seconds s'.world ≡ o
          → Won (lock_poll now r x s').0
      split (err y w) o =
          let total =
            try_acquire_total now r.name r.agent_id r.ttl_seconds s'.world b random calm in
          absurd (rw o at total)
      split (ok (res, acquired, i) w) o =
          let granted =
            try_acquire_free now r.name r.agent_id r.ttl_seconds s'.world res acquired i r.name
              (freed now) o in
          ground (arith, still_head)
