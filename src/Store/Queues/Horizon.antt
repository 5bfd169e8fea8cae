-- ===== src/Store/Queues/Horizon.antt =====
-- How long a waiter that has been parked keeps its place.
use agentpeek.Common.{
  ℕ, ◌+◌, ◌*◌, ◌<◌, ◌≤◌, ◌^◌, ℤ, pos, ◌≡◌, refl, ap, ◌∙◌, Bool, true, false, Option, none, some,
  List, [], ◌∷◌, ◌++◌, keep, if◌then◌else◌, arith, Bytes, eqs, eqs_refl, lt64, add64, mul64,
  Option-cases, inl, inr,
}
use agentpeek.Sql.Table.{Unique, upsert-Unique, delete-Unique}
use agentpeek.Store.Queues.{
  Waiter, Manager, queue, set_queue, position, queue_position, gc_waiters, waiter_horizon, reattach,
  append_waiter, enqueue,
}
use agentpeek.Store.Queues.Fifo.{
  unexpired, reattach-some, gc_waiters_fifo, queue-eq, queue-set_queue,
}

horizon_later :
    (now ttl wait later : ℕ)
    → now + 2 * ttl + wait + 30 < 2 ^ 63
    → later < now + wait + 30
    → lt64 (pos later) (waiter_horizon (pos now) (pos ttl) (pos wait)) ≡ true
unfolding waiter_horizon lt64 add64 mul64
horizon_later now ttl wait later fits early = ground arith

set_queue-Unique :
    (name : Bytes) (q : List Waiter) (m : Manager)
    → Unique m.queues
    → Unique (set_queue name q m).queues
unfolding set_queue
set_queue-Unique name [] m u = delete-Unique name m.queues u
set_queue-Unique name (x ∷ q) m u = upsert-Unique name (x ∷ q) m.queues u

-- A waiter at the end of a queue stays if it passes.
last_stays :
    (p : Waiter → Bool) (w : Waiter) (q : List Waiter)
    → p w ≡ true
    → 1 ≤ position w.id (keep p (q ++ w ∷ []))
unfolding position keep
last_stays p w [] h = ground arith
last_stays p w (x ∷ q) h = ground (arith, last_stays p w q h)

-- And so does the one that the loop of enqueue finds.
found_stays :
    (p : Waiter → Bool) (token : Bytes) (t : ℤ) (q : List Waiter) (w : Waiter) (q' : List Waiter)
    → reattach token t q ≡ some (w, q')
    → p w ≡ true
    → 1 ≤ position w.id (keep p q')
unfolding reattach position keep
found_stays p token t [] w q' h ok = cc
found_stays p token t (x ∷ q) w q' h ok = elim (Option-cases (reattach token t q)) [
  | inl n ↦ ground arith
  | inr ((y, r), s) ↦ ground (arith, found_stays p token t q y r s)
]

-- Who is left in a queue that has just been written, once the reaper has run.
written :
    (later : ℤ) (name : Bytes) (q : List Waiter) (m m' : Manager)
    → Unique m.queues
    → m'.queues ≡ (set_queue name q m).queues
    → queue name (gc_waiters later m') ≡ keep (unexpired later) q
written later name q m m' u e =
    gc_waiters_fifo later name m' (rw e (set_queue-Unique name q m u))
    ∙ ap (keep (unexpired later)) (
        queue-eq name m' (set_queue name q m) e
        ∙ ground (arith, queue-set_queue name name q m, eqs_refl name))

-- A waiter that enqueue has parked or found again keeps its place for its wait and 30 seconds more:
-- where the queues have distinct names, the reaper's collection at any time before that leaves it
-- in the line of the name, where the clock plus twice the lifetime plus the wait and 30 seconds is
-- an int64 (all of them not negative).
pub enqueue_horizon :
    (now ttl wait later : ℕ) (name agent_id token fresh : Bytes) (m : Manager)
    → Unique m.queues
    → now + 2 * ttl + wait + 30 < 2 ^ 63
    → later < now + wait + 30
    → let (w, m') = enqueue (pos now) name agent_id token (pos ttl) (pos wait) fresh m in
      1 ≤ queue_position name w.id (gc_waiters (pos later) m')
unfolding enqueue append_waiter queue_position
enqueue_horizon now ttl wait later name agent_id token fresh m u fits early =
    split (eqs token []) (reattach token t (queue name m)) refl refl
  where
    t : ℤ
    t = waiter_horizon (pos now) (pos ttl) (pos wait)

    x : Waiter
    x = record { id = m.next_id; wake_token = fresh; agent_id = agent_id; expires_at = t }

    long : unexpired (pos later) x ≡ true
    long = horizon_later now ttl wait later fits early

    added :
        (m' : Manager)
        → m'.queues ≡ (set_queue name (queue name m ++ x ∷ []) m).queues
        → 1 ≤ position m.next_id (queue name (gc_waiters (pos later) m'))
    added m' e =
        rw (written (pos later) name (queue name m ++ x ∷ []) m m' u e)
          (last_stays (unexpired (pos later)) x (queue name m) long)

    split :
        (b : Bool) (o : Option (Waiter × List Waiter))
        → eqs token [] ≡ b
        → reattach token t (queue name m) ≡ o
        → let e : Waiter × Manager = if b then append_waiter name agent_id t fresh m else elim o [
          | none ↦ append_waiter name agent_id t fresh m
          | some (w, q) ↦ (w, set_queue name q m)
        ] in
          1 ≤ position e.0.id (queue name (gc_waiters (pos later) e.1))
    split true o c eq = added _ refl
    split false none c eq = added _ refl
    split false (some (w, q)) c eq =
        let (known, same, token', horizon) = reattach-some token t (queue name m) w q eq in
        rw (written (pos later) name q m (set_queue name q m) u refl)
          (found_stays (unexpired (pos later)) token t (queue name m) w q eq (ground (arith, long)))
