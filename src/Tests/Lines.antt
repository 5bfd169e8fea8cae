-- ===== src/Tests/Lines.antt =====
-- Runs of the blocking calls, with bob in line for a lock of ann's.
use agentpeek.Store.Lock.{reap_once}
use agentpeek.Store.Lock.Reaper.{reap_once_wakes}
use agentpeek.Store.Queues.Horizon.{enqueue_horizon}
use agentpeek.Common.{arith, ◌≤◌, ◌*◌, ◌+◌}
use agentpeek.Common.{
  ℤ, pos, ◌≡◌, refl, Bool, true, false, Option, none, some, List, [], ◌∷◌, keep, Bytes, str, eqs,
  le64, lt64, suc, ◌==◌,
}
use agentpeek.Sql.Table.{select, Unique}
use agentpeek.Store.Random.{hex}
use agentpeek.Store.Locks.{LockResult, granted, new_row, zero_result}
use agentpeek.Store.Locks.Holder.{holder}
use agentpeek.Store.Queues.{
  Waiter, Manager, queue, queue_position, enqueue, is_head, dequeue, gc_waiters,
}
use agentpeek.Store.Queues.Fifo.{ids, enqueue_fifo}
use agentpeek.Store.Lock.{System, Request, lock_poll, unlock_call, retry_with}
use agentpeek.Store.Lock.Calls.{lock_poll_returned}
use agentpeek.Store.Lock.Handover.{Won, lock_handover}
use agentpeek.Tests.{sixteen, build, ann, bob, held_world}

abbrev waiter : Waiter
waiter = record { id = 0; wake_token = str "w0"; agent_id = bob; expires_at = pos 200 }

abbrev line : Manager
line = record { queues = (build, waiter ∷ []) ∷ []; signalled = λ _. false; next_id = 1 }

abbrev waiting : System
waiting = record { world = held_world; manager = line }

abbrev call : Request
call = record {
  name = build;
  agent_id = bob;
  ttl_seconds = pos 30;
  wait_seconds = pos 10;
  wake_token = str "w0";
}

abbrev freed : System
freed = (unlock_call build [] ann waiting).1

abbrev token : Bytes
token = str "0aff0000000000000000000000000000"

lock_handover_example : Won (lock_poll (pos 61) call waiter freed).0
unfolding unlock_call queue select eqs agentpeek.Store.Locks.unlock
lock_handover_example =
    lock_handover waiting waiter [] call [] ann refl refl (pos 61) sixteen (λ _. refl) refl

abbrev won : System
won = (lock_poll (pos 61) call waiter freed).1

lock_poll_returned_example :
    (is_head build 0 freed.manager ≡ true)
    × (won.manager ≡ dequeue build 0 freed.manager)
    × ((holder (pos 61) build freed.world.db.locks ≡ none)
        × (granted token (pos 30) ≡ granted token (pos 30))
        × (select build won.world.db.locks ≡ some (new_row (pos 61) bob (pos 30) token)))
unfolding lock_poll is_head agentpeek.Store.Queues.head_is queue select unlock_call
    agentpeek.Store.Locks.unlock eqs agentpeek.Store.Queues.wake_head
    agentpeek.Store.Queues.signal_head agentpeek.Store.Queues.signal
    agentpeek.Store.Locks.try_acquire agentpeek.Sql.Table.delete agentpeek.Sql.Table.delete_where
    hex dequeue
lock_poll_returned_example =
    lock_poll_returned (pos 61) call waiter freed (granted token (pos 30)) build refl

enqueue_fifo_example :
    ids (queue build (enqueue (pos 60) build (str "cat") [] (pos 30) (pos 10) (str "w1") line).1)
    ≡ 0 ∷ 1 ∷ []
unfolding eqs queue select
enqueue_fifo_example =
    enqueue_fifo (pos 60) build (str "cat") [] (pos 30) (pos 10) (str "w1") line build

abbrev in_line : LockResult
in_line = record zero_result {
  held_by = ann;
  expires_in_seconds = pos 39;
  wake_token = str "w0";
  queue_position = 1;
  retry_with = retry_with (str "w0");
}

reap_once_wakes_example : (reap_once (pos 150) waiting).manager.signalled 0 ≡ true
unfolding select keep queue eqs lt64 le64
reap_once_wakes_example =
    reap_once_wakes (pos 150) build waiting waiter [] (refl, tt) (refl, tt) (λ _. refl) refl refl

enqueue_horizon_example :
    let (w, m) = enqueue (pos 60) build bob [] (pos 1) (pos 10) (str "w1") line in
    1 ≤ queue_position build w.id (gc_waiters (pos 99) m)
unfolding select
enqueue_horizon_example =
    enqueue_horizon 60 1 10 99 build bob [] (str "w1") line (refl, tt) (omega arith) (omega arith)
