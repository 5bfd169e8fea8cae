-- ===== src/Store/Lock/Keyed.antt =====
-- The blocking calls keep the keys of every table.
use agentpeek.Common.{◌≡◌, ◌⊎◌, inl, inr, sym, subst, arith, ℤ, List, [], ◌∷◌, Bytes}
use agentpeek.Sql.Table.{select}
use agentpeek.Store.Db.{Db}
use agentpeek.Store.Exec.{World}
use agentpeek.Store.Random.{new_token}
use agentpeek.Store.Locks.{try_acquire}
use agentpeek.Store.Locks.Keyed.{try_acquire-Keeps, unlock-Keeps, reap_locks-Keeps}
use agentpeek.Store.Locks.History.{world_of, reap_locks}
use agentpeek.Store.Queues.{Waiter, gc_waiters}
use agentpeek.Store.Lock.{
  System, Request, Woken, cancelled, timed_out, signalled, join_line, lock_begin, lock_poll,
  not_acquired, lock_wake, unlock_call, wake_free, reap_once,
}
use agentpeek.Store.Keyed.{IsKeyed, query-Keeps}

new_token-db : (w : World) → (world_of (new_token w)).db ≡ w.db
unfolding new_token
new_token-db w = ground arith

join_line-db : (now : ℤ) (r : Request) (s : System) → (join_line now r s).1.world.db ≡ s.world.db
unfolding join_line
join_line-db now r s = ground (arith, new_token-db s.world)

-- A call of Lock changes the tables by tryAcquire only.
lock_begin-db :
    (now later : ℤ) (r : Request) (s : System)
    → ((lock_begin now later r s).1.world.db ≡ s.world.db)
      ⊎ ((lock_begin now later r s).1.world.db
          ≡ (world_of (try_acquire now r.name r.agent_id r.ttl_seconds s.world)).db)
unfolding lock_begin
lock_begin-db now later r s =
    let w = world_of (try_acquire now r.name r.agent_id r.ttl_seconds s.world) in
    ground (arith, join_line-db later r (record s { world = w }))

lock_poll-db :
    (now : ℤ) (r : Request) (w : Waiter) (s : System)
    → ((lock_poll now r w s).1.world.db ≡ s.world.db)
      ⊎ ((lock_poll now r w s).1.world.db
          ≡ (world_of (try_acquire now r.name r.agent_id r.ttl_seconds s.world)).db)
unfolding lock_poll
lock_poll-db now r w s = ground arith

either_db : {a b c : Db} → (a ≡ b) ⊎ (a ≡ c) → IsKeyed b → IsKeyed c → IsKeyed a
either_db (inl e) kb kc = subst IsKeyed (sym e) kb
either_db (inr e) kb kc = subst IsKeyed (sym e) kc

pub lock_begin-Keyed :
    (now later : ℤ) (r : Request) (s : System)
    → IsKeyed s.world.db
    → IsKeyed (lock_begin now later r s).1.world.db
lock_begin-Keyed now later r s k =
    either_db (lock_begin-db now later r s) k
      ((try_acquire-Keeps now r.name r.agent_id r.ttl_seconds).keeps s.world k)

pub lock_poll-Keyed :
    (now : ℤ) (r : Request) (w : Waiter) (s : System)
    → IsKeyed s.world.db
    → IsKeyed (lock_poll now r w s).1.world.db
lock_poll-Keyed now r w s k =
    either_db (lock_poll-db now r w s) k
      ((try_acquire-Keeps now r.name r.agent_id r.ttl_seconds).keeps s.world k)

not_acquired-Keyed :
    (now : ℤ) (name : Bytes) (w : Waiter) (s : System)
    → IsKeyed s.world.db
    → IsKeyed (not_acquired now name w s).1.world.db
unfolding not_acquired
not_acquired-Keyed now name w s k = (query-Keeps (λ d. select name d.locks)).keeps s.world k

pub lock_wake-Keyed :
    (now : ℤ) (r : Request) (w : Waiter) (woken : Woken) (s : System)
    → IsKeyed s.world.db
    → IsKeyed (lock_wake now r w woken s).1.world.db
unfolding lock_wake
lock_wake-Keyed now r w signalled s k = k
lock_wake-Keyed now r w cancelled s k = not_acquired-Keyed now r.name w s k
lock_wake-Keyed now r w timed_out s k = not_acquired-Keyed now r.name w s k

pub unlock_call-Keyed :
    (name token agent_id : Bytes) (s : System)
    → IsKeyed s.world.db
    → IsKeyed (unlock_call name token agent_id s).1.world.db
unfolding unlock_call
unlock_call-Keyed name token agent_id s k = (unlock-Keeps name token agent_id).keeps s.world k

wake_free-Keyed :
    (now : ℤ) (heads : List (Bytes × List Waiter)) (s : System)
    → IsKeyed s.world.db
    → IsKeyed (wake_free now heads s).world.db
unfolding wake_free
wake_free-Keyed now [] s k = k
wake_free-Keyed now ((name, []) ∷ rest) s k = wake_free-Keyed now rest s k
wake_free-Keyed now ((name, x ∷ q) ∷ rest) s k =
    wake_free-Keyed now rest _ ((query-Keeps (λ d. select name d.locks)).keeps s.world k)

pub reap_once-Keyed :
    (now : ℤ) (s : System) → IsKeyed s.world.db → IsKeyed (reap_once now s).world.db
unfolding reap_once
reap_once-Keyed now s k =
    let m = gc_waiters now s.manager in
    wake_free-Keyed now m.queues (record { world = world_of (reap_locks now s.world); manager = m })
      ((reap_locks-Keeps now).keeps s.world k)
