-- ===== src/Store/Queues.antt =====
-- The wait queues of the LockManager in internal/store/locks.go: what `mu` guards, and the channels
-- of the waiters. A waiter is a shared object, and is modelled by a number that stands for its
-- pointer; its channel (of capacity 1) by whether a signal is pending.
pub mod Fifo
pub mod Horizon
use agentpeek.Common.{
  ℕ, suc, ◌+◌, ◌==◌, ℤ, pos, ◌≡◌, Bool, true, false, ◌||◌, ◌&&◌, not, Option, none, some, List, [],
  ◌∷◌, ◌++◌, map, keep, if◌then◌else◌, Bytes, str, eqs, add64, mul64, le64, lt64,
}
use agentpeek.Sql.Table.{select, upsert, delete}

-- type waiter
pub record Waiter : Type 0 where
  pub id : ℕ
  pub wake_token : Bytes
  pub agent_id : Bytes
  pub expires_at : ℤ

-- The fields of LockManager that are kept in memory. A lock's queue is its `waiters`, first in
-- line first; `next_id` is the pointer that the next new waiter gets.
pub record Manager : Type 0 where
  pub queues : List (Bytes × List Waiter)
  pub signalled : ℕ → Bool
  pub next_id : ℕ

-- func NewLockManager
abbrev pub new_manager : Manager
new_manager = record { queues = []; signalled = λ _. false; next_id = 0 }

-- const waiterGCSlack
abbrev pub waiter_gc_slack : ℤ
waiter_gc_slack = pos 30

-- func waiterHorizon
unfoldable pub waiter_horizon : ℤ → ℤ → ℤ → ℤ
waiter_horizon now ttl_seconds wait_seconds =
    let by_ttl = mul64 (pos 2) ttl_seconds in
    let by_wait = add64 wait_seconds waiter_gc_slack in
    add64 now (if lt64 by_ttl by_wait then by_wait else by_ttl)

-- m.queues[name], with nil as the empty queue
unfoldable pub queue : Bytes → Manager → List Waiter
queue name m = elim (select name m.queues) [ none ↦ [] | some q ↦ q ]

-- The queue is written back; an empty one is pruned.
unfoldable pub set_queue : Bytes → List Waiter → Manager → Manager
set_queue name [] m = record m { queues = delete name m.queues }
set_queue name (x ∷ q) m = record m { queues = upsert name (x ∷ q) m.queues }

-- The loop of enqueue: the waiter with the token, and the queue with its horizon refreshed.
unfoldable pub reattach : Bytes → ℤ → List Waiter → Option (Waiter × List Waiter)
reattach token expires_at [] = none
reattach token expires_at (x ∷ q) =
    let rest = reattach token expires_at q in
    if eqs x.wake_token token
    then some (record x { expires_at = expires_at }, record x { expires_at = expires_at } ∷ q)
    else elim rest [ none ↦ none | some (y, q') ↦ some (y, x ∷ q') ]

-- The new waiter that enqueue appends; `fresh` is what mustToken() gives.
unfoldable pub append_waiter : Bytes → Bytes → ℤ → Bytes → Manager → Waiter × Manager
append_waiter name agent_id expires_at fresh m =
    let w : Waiter = record {
      id = m.next_id;
      wake_token = fresh;
      agent_id = agent_id;
      expires_at = expires_at;
    } in
    (
      w,
      record (set_queue name (queue name m ++ w ∷ []) m) {
        signalled = λ i. if i == m.next_id then false else m.signalled i;
        next_id = suc m.next_id;
      },
    )

-- func (m *LockManager) enqueue
unfoldable pub enqueue : ℤ → Bytes → Bytes → Bytes → ℤ → ℤ → Bytes → Manager → Waiter × Manager
enqueue now name agent_id wake_token ttl_seconds wait_seconds fresh m =
    let expires_at = waiter_horizon now ttl_seconds wait_seconds in
    if eqs wake_token []
    then append_waiter name agent_id expires_at fresh m
    else elim (reattach wake_token expires_at (queue name m)) [
      | none ↦ append_waiter name agent_id expires_at fresh m
      | some (w, q) ↦ (w, set_queue name q m)
    ]

unfoldable pub head_is : ℕ → List Waiter → Bool
head_is i [] = false
head_is i (x ∷ q) = x.id == i

-- func (m *LockManager) isHead
unfoldable pub is_head : Bytes → ℕ → Manager → Bool
is_head name i m = head_is i (queue name m)

-- func (m *LockManager) dequeue
unfoldable pub dequeue : Bytes → ℕ → Manager → Manager
dequeue name i m = set_queue name (keep (λ x. not (x.id == i)) (queue name m)) m

unfoldable pub position : ℕ → List Waiter → ℕ
position i [] = 0
position i (x ∷ q) =
    let rest = position i q in if x.id == i then 1 else if rest == 0 then 0 else suc rest

-- func (m *LockManager) queuePosition
unfoldable pub queue_position : Bytes → ℕ → Manager → ℕ
queue_position name i m = position i (queue name m)

-- func signal(w *waiter): a signal that is pending absorbs another.
unfoldable pub signal : ℕ → Manager → Manager
signal i m = record m { signalled = λ j. (j == i) || m.signalled j }

unfoldable pub signal_head : List Waiter → Manager → Manager
signal_head [] m = m
signal_head (x ∷ q) m = signal x.id m

-- func (m *LockManager) wakeHead
unfoldable pub wake_head : Bytes → Manager → Manager
wake_head name m = signal_head (queue name m) m

-- Step 2 of reapOnce: expired waiters are dropped, and queues that are then empty.
unfoldable pub gc : ℤ → List (Bytes × List Waiter) → List (Bytes × List Waiter)
gc now [] = []
gc now ((name, q) ∷ rest) =
    let kept = keep (λ x. lt64 now x.expires_at) q in
    let tail = gc now rest in elim kept [ [] ↦ tail | x ∷ xs ↦ (name, x ∷ xs) ∷ tail ]

unfoldable pub gc_waiters : ℤ → Manager → Manager
gc_waiters now m = record m { queues = gc now m.queues }
