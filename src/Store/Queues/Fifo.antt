-- ===== src/Store/Queues/Fifo.antt =====
-- What each queue operation does to the order of the waiters.
use agentpeek.Common.{
  ℕ, ◌≤◌, ◌==◌, ℤ, ◌≡◌, refl, Bool, true, false, ◌&&◌, not, none, some, List, [], ◌∷◌, ◌++◌, map,
  arith, keep, All, if◌then◌else◌, Bytes, eqs, eqs_iff, lt64, Option-cases, ◌⊎◌, inl, inr,
}
use agentpeek.Sql.Table.{select, select-upsert, select-delete, Unique}
use agentpeek.Store.Queues.{
  Waiter, Manager, queue, set_queue, reattach, append_waiter, enqueue, head_is, is_head, dequeue,
  position, queue_position, waiter_horizon, gc, gc_waiters,
}

-- The waiters of a queue, in line.
abbrev pub ids : List Waiter → List ℕ
ids = map (λ x. x.id)

unfoldable pub has_token : Bytes → List Waiter → Bool
has_token token [] = false
has_token token (x ∷ q) =
    let rest = has_token token q in if eqs x.wake_token token then true else rest

pub queue-set_queue :
    (name j : Bytes) (q : List Waiter) (m : Manager)
    → queue j (set_queue name q m) ≡ (if eqs name j then q else queue j m)
unfolding queue set_queue
queue-set_queue name j [] m = ground (arith, select-delete name j m.queues)
queue-set_queue name j (x ∷ q) m = ground (arith, select-upsert name j (x ∷ q) m.queues)

pub queue-eq : (j : Bytes) (m m' : Manager) → m.queues ≡ m'.queues → queue j m ≡ queue j m'
unfolding queue
queue-eq j m m' h = rw h refl

ids-append : (q : List Waiter) (w : Waiter) → ids (q ++ w ∷ []) ≡ ids q ++ w.id ∷ []
ids-append [] w = refl
ids-append (x ∷ q) w = ground (arith, ids-append q w)

-- Where the loop of enqueue finds the token, it moves nobody.
pub reattach-some :
    (token : Bytes) (t : ℤ) (q : List Waiter) (w : Waiter) (q' : List Waiter)
    → reattach token t q ≡ some (w, q')
    → (has_token token q ≡ true) × (ids q' ≡ ids q) × (w.wake_token ≡ token) × (w.expires_at ≡ t)
unfolding reattach has_token
reattach-some token t [] w q' h = cc
reattach-some token t (x ∷ q) w q' h = elim (Option-cases (reattach token t q)) [
  | inl n ↦ ground (arith, eqs_iff x.wake_token token)
  | inr ((y, r), s) ↦ ground (arith, eqs_iff x.wake_token token, reattach-some token t q y r s)
]

reattach-none :
    (token : Bytes) (t : ℤ) (q : List Waiter)
    → reattach token t q ≡ none
    → has_token token q ≡ false
unfolding reattach has_token
reattach-none token t [] h = refl
reattach-none token t (x ∷ q) h = elim (Option-cases (reattach token t q)) [
  | inl n ↦ ground (arith, reattach-none token t q n)
  | inr ((y, r), s) ↦ ground arith
]

module _ (now : ℤ) (name agent_id token : Bytes) (ttl wait : ℤ) (fresh : Bytes) (m : Manager) where
  -- The queue knows the token of a re-poll.
  abbrev pub knows : Bool
  knows = not (eqs token []) && has_token token (queue name m)

  append-queue :
      (t : ℤ) (j : Bytes)
      → ids (queue j (append_waiter name agent_id t fresh m).1)
        ≡ (if eqs name j then ids (queue name m) ++ m.next_id ∷ [] else ids (queue j m))
  unfolding append_waiter
  append-queue t j =
      let w : Waiter = record {
        id = m.next_id;
        wake_token = fresh;
        agent_id = agent_id;
        expires_at = t;
      } in
      let q = queue name m ++ w ∷ [] in
      ground (
        arith,
        queue-eq j (append_waiter name agent_id t fresh m).1 (set_queue name q m) refl,
        queue-set_queue name j q m,
        ids-append (queue name m) w,
      )

  -- The order of the waiters after enqueue: a call whose token the queue knows leaves every queue's
  -- order as it was, and any other adds one new waiter to the end of its name's line and to no
  -- other.
  pub enqueue_fifo :
      (j : Bytes)
      → ids (queue j (enqueue now name agent_id token ttl wait fresh m).1) ≡ (
          if eqs name j && not knows then ids (queue name m) ++ m.next_id ∷ [] else ids (queue j m))
  unfolding enqueue
  enqueue_fifo j =
      let t = waiter_horizon now ttl wait in
      let q = queue name m in
      let appended = append-queue t j in
      elim (Option-cases (reattach token t q)) [
        | inl n ↦ ground (arith, reattach-none token t q n)
        | inr ((w, q'), s) ↦
            ground
              (arith, reattach-some token t q w q' s, queue-set_queue name j q' m, eqs_iff name j)
      ]

  -- The waiter that enqueue returns is the one of the re-poll, or the new one.
  pub enqueue_waiter :
      ((knows ≡ true) × ((enqueue now name agent_id token ttl wait fresh m).0.wake_token ≡ token))
      ⊎ ((knows ≡ false) × ((enqueue now name agent_id token ttl wait fresh m).0.id ≡ m.next_id))
  unfolding enqueue append_waiter
  enqueue_waiter =
      let t = waiter_horizon now ttl wait in
      let q = queue name m in
      elim (Option-cases (reattach token t q)) [
        | inl n ↦ inr (ground (arith, reattach-none token t q n), ground arith)
        | inr ((w, q'), s) ↦ ground (arith, reattach-some token t q w q' s)
      ]

-- What dequeue leaves: the line without the waiter, everyone else in order.
pub dequeue_fifo :
    (name j : Bytes) (i : ℕ) (m : Manager)
    → queue j (dequeue name i m)
      ≡ (if eqs name j then keep (λ x. not (x.id == i)) (queue name m) else queue j m)
unfolding dequeue
dequeue_fifo name j i m = queue-set_queue name j (keep (λ x. not (x.id == i)) (queue name m)) m

select-gc-none :
    (now : ℤ) (j : Bytes) (qs : List (Bytes × List Waiter))
    → select j qs ≡ none
    → select j (gc now qs) ≡ none
unfolding gc select
select-gc-none now j [] h = refl
select-gc-none now j ((n, q) ∷ qs) h = ground (arith, select-gc-none now j qs)

abbrev pub unexpired : ℤ → Waiter → Bool
unexpired now x = lt64 now x.expires_at

gc-queue :
    (now : ℤ) (j : Bytes) (qs : List (Bytes × List Waiter))
    → Unique qs
    → elim (select j (gc now qs)) [ none ↦ [] | some q ↦ q ]
      ≡ keep (unexpired now) (elim (select j qs) [ none ↦ [] | some q ↦ q ])
unfolding gc select keep
gc-queue now j [] u = refl
gc-queue now j ((n, q) ∷ qs) u =
    ground (arith, eqs_iff n j, gc-queue now j qs u.1, select-gc-none now j qs)

-- Where the queues have distinct names, the reaper drops from every queue the waiters whose horizon
-- has passed, and nobody else, and keeps the order.
pub gc_waiters_fifo :
    (now : ℤ) (j : Bytes) (m : Manager)
    → Unique m.queues
    → queue j (gc_waiters now m) ≡ keep (unexpired now) (queue j m)
unfolding gc_waiters queue
gc_waiters_fifo now j m u = gc-queue now j m.queues u

-- The head of a queue is who has position 1.
pub is_head-queue_position :
    (name : Bytes) (i : ℕ) (m : Manager) → is_head name i m ≡ (queue_position name i m == 1)
unfolding is_head queue_position head_is position
is_head-queue_position name i m = first (queue name m)
  where
    first : (q : List Waiter) → head_is i q ≡ (position i q == 1)
    first [] = refl
    first (x ∷ q) = ground arith

-- Whoever leaves, nobody who stays loses the place, or falls back.
pub position-keep :
    (p : Waiter → Bool) (i : ℕ) (q : List Waiter)
    → All (λ x. x.id ≡ i → p x ≡ true) q
    → (position i (keep p q) ≤ position i q) × (position i (keep p q) ≡ 0 → position i q ≡ 0)
unfolding position keep
position-keep p i [] s = (omega arith, λ e. refl)
position-keep p i (x ∷ q) s = let ih = position-keep p i q s.1 in ground arith
