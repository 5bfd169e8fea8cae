-- ===== src/Store/Lock/Reaper.antt =====
-- What reapOnce does for the lines.
use agentpeek.Common.{
  ℕ, suc, Bool-cases, ℤ, ◌≡◌, refl, ◌∙◌, Bool, true, Option, none, some, List, [], ◌∷◌, arith, inl,
  inr, if◌then◌else◌, Bytes, eqs, eqs_iff, le64, keep,
}
use agentpeek.Sql.Table.{select, Unique}
use agentpeek.Store.Db.{Db, LockRow}
use agentpeek.Store.Exec.{World, ok, Quiet, quiet4, query}
use agentpeek.Store.Locks.Holder.{holder}
use agentpeek.Store.Locks.History.{reap_locks, world_of}
use agentpeek.Store.Locks.History.Keys.{after, reap_locks_lem, reap_locks_atomic}
use agentpeek.Store.Queues.{Waiter, Manager, queue, signal, gc_waiters}
use agentpeek.Store.Queues.Fifo.{gc_waiters_fifo, unexpired}
use agentpeek.Store.Lock.{System, wake_free, is_free, reap_once}

wake_free_keeps :
    (now : ℤ) (qs : List (Bytes × List Waiter)) (s : System) (i : ℕ)
    → s.manager.signalled i ≡ true
    → (wake_free now qs s).manager.signalled i ≡ true
unfolding wake_free signal
wake_free_keeps now [] s i h = h
wake_free_keeps now ((name, []) ∷ rest) s i h = wake_free_keeps now rest s i h
wake_free_keeps now ((name, x ∷ q) ∷ rest) s i h = wake_free_keeps now rest _ i (ground arith)

is_free_lem :
    (now : ℤ) (row : Option LockRow) (w : World)
    → elim row [ none ↦ true | some r ↦ le64 r.expires_at now ] ≡ true
    → is_free now (ok row w) ≡ true
unfolding is_free
is_free_lem now none w h = refl
is_free_lem now (some row) w h = h

free_row :
    (now : ℤ) (j : Bytes) (w v : World)
    → holder now j w.db.locks ≡ none
    → is_free now (ok (select j w.db.locks) v) ≡ true
unfolding is_free
free_row now j w v h = ground arith

query-Quiet :
    {A : Type 0} (f : Db → A) (w : World)
    → Quiet w
    → query f w ≡ ok (f w.db) (record w { ops = suc w.ops })
query-Quiet f w q = ground (arith, q w.ops)

wake_free_wakes :
    (now : ℤ) (j : Bytes) (qs : List (Bytes × List Waiter)) (s : System) (x : Waiter)
    (q : List Waiter)
    → Quiet s.world
    → select j qs ≡ some (x ∷ q)
    → holder now j s.world.db.locks ≡ none
    → (wake_free now qs s).manager.signalled x.id ≡ true
unfolding wake_free select signal
wake_free_wakes now j [] s x q calm h free = absurd (ground arith)
wake_free_wakes now j ((name, []) ∷ rest) s x q calm h free =
    wake_free_wakes now j rest s x q calm (ground (arith, eqs_iff name j)) free
wake_free_wakes now j ((name, y ∷ p) ∷ rest) s x q calm h free =
    let w : World = record s.world { ops = suc s.world.ops } in
    let f : Bool = is_free now (ok (select name s.world.db.locks) w) in
    let m : Manager = if f then signal y.id s.manager else s.manager in
    rw (wake_free, query-Quiet (λ d. select name d.locks) s.world calm)
      (elim (Bool-cases (eqs name j)) [
        | inl same ↦
            wake_free_keeps now rest (record { world = w; manager = m }) x.id
              (ground (arith, eqs_iff name j, free_row now j s.world w free))
        | inr other ↦
            wake_free_wakes now j rest (record { world = w; manager = m }) x q calm (ground arith)
              free
      ])

queue_select :
    (j : Bytes) (m : Manager) (x : Waiter) (q : List Waiter)
    → queue j m ≡ x ∷ q
    → select j m.queues ≡ some (x ∷ q)
unfolding queue
queue_select j m x q h = ground arith

reaped_free :
    (now : ℤ) (j : Bytes) (w : World)
    → Unique w.db.locks
    → holder now j w.db.locks ≡ none
    → holder now j (world_of (reap_locks now w)).db.locks ≡ none
reaped_free now j w u free =
    after (λ d. holder now j d.locks ≡ none) (reap_locks now w) w.db free
      (λ e w' h. reap_locks_atomic now w h)
      (λ a w' h. let kept = reap_locks_lem now w u a j h in ground arith)

reap_locks-Quiet : (now : ℤ) (w : World) → Quiet w → Quiet (world_of (reap_locks now w))
unfolding reap_locks
reap_locks-Quiet now w calm n = ground (arith, quiet4 w calm, calm n)

-- Where the queues and the rows of `locks` have distinct names and the driver refuses nothing, the
-- reaper leaves a signal pending for the first waiter of a line whose horizon has not passed, if
-- the lock of that line has no live holder.
pub reap_once_wakes :
    (now : ℤ) (j : Bytes) (s : System) (x : Waiter) (q : List Waiter)
    → Unique s.manager.queues
    → Unique s.world.db.locks
    → Quiet s.world
    → keep (unexpired now) (queue j s.manager) ≡ x ∷ q
    → holder now j s.world.db.locks ≡ none
    → (reap_once now s).manager.signalled x.id ≡ true
unfolding reap_once
reap_once_wakes now j s x q u v calm h free =
    let m = gc_waiters now s.manager in
    wake_free_wakes now j m.queues
      (record { world = world_of (reap_locks now s.world); manager = m }) x q
      (reap_locks-Quiet now s.world calm)
      (queue_select j m x q (gc_waiters_fifo now j s.manager u ∙ h))
      (reaped_free now j s.world v free)
