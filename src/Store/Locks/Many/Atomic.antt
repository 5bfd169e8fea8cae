-- ===== src/Store/Locks/Many/Atomic.antt =====
-- LockMany as its caller sees it.
use mathlib.Core.Option
use agentpeek.Common.{
  ℤ, ◌≡◌, ◌≢◌, ◌⊎◌, inl, inr, ◌∙◌, true, false, none, some, List, [], ◌∷◌, arith, Bytes,
}
use agentpeek.Sql.Table.{select, Unique}
use agentpeek.Store.Db.{Error}
use agentpeek.Store.Exec.{World, Out, ok, err, tx, tx_ok, tx_err, tx_atomic}
use agentpeek.Store.Locks.{new_row}
use agentpeek.Store.Locks.Holder.{holder}
use agentpeek.Store.Locks.Many.{ManyResult, many_result, aborted, batch, lock_many, dedupe_sorted}
use agentpeek.Store.Locks.Many.Names.{contains, contains-dedupe_sorted}
use agentpeek.Store.Locks.Many.Batch.{batch_ok, batch_err, batch-Unique, blocker, blocker-none}

many_result_ok :
    (o : Out (List (Bytes × Bytes))) (r : ManyResult) {w' : World}
    → many_result o ≡ ok r w'
    → ((o ≡ ok r.tokens w') × (r.acquired ≡ true))
      ⊎ ((e : Error) × (o ≡ err e w') × (aborted e ≡ some r.held_by) × (r.acquired ≡ false))
unfolding many_result
many_result_ok (ok tokens w) r h = inl (ground arith)
many_result_ok (err e w) r h = inr (e, ground arith, ground arith, ground arith)

module _ (now : ℤ) (n : Bytes) (ns : List Bytes) (agent_id : Bytes) (ttl : ℤ) (w : World) where
  names : List Bytes
  names = dedupe_sorted (n ∷ ns)

  run_batch :
      (r : ManyResult) {w' : World}
      → lock_many now (n ∷ ns) agent_id ttl w ≡ ok r w'
      → many_result (tx (batch now agent_id ttl names) w) ≡ ok r w'
  unfolding lock_many names
  run_batch r h = ground arith

  -- All: where LockMany of at least one name answers that it acquires, no name of the batch had a
  -- live holder; each now has a row of this agent with the token that the result maps it to; and
  -- the row of any other name has not changed.
  pub lock_many_all :
      (r : ManyResult) {w' : World} (j : Bytes)
      → lock_many now (n ∷ ns) agent_id ttl w ≡ ok r w'
      → r.acquired ≡ true
      → (contains j (n ∷ ns) ≡ true
          → (holder now j w.db.locks ≡ none)
            × (select j w'.db.locks ≡ Option.map (new_row now agent_id ttl) (select j r.tokens))
            × (select j r.tokens ≢ none))
        × (contains j (n ∷ ns) ≡ false → select j w'.db.locks ≡ select j w.db.locks)
  unfolding names
  lock_many_all r {w'} j h a = elim (many_result_ok _ r (run_batch r h)) [
    | inl (o, _) ↦
        let (w₁, w₂, d₁, b, d₂) = tx_ok (batch now agent_id ttl names) w o in
        let (free, filled) = batch_ok now agent_id ttl names w₁ r.tokens j b in
        let same = contains-dedupe_sorted j (n ∷ ns) in
        (
          λ c.
              let found = blocker-none now w₁.db.locks names j free (same ∙ c) in
              let (row, token) = filled.0 (same ∙ c) in (rw (← d₁) found, rw d₂ row, token),
          λ c. rw (d₂, ← d₁) ((filled.1 (same ∙ c)).0),
        )
    | inr (e, _, _, f) ↦ absurd (ground arith)
  ]

  -- None: where LockMany of at least one name answers that it does not acquire, it names the holder
  -- that the independent search `blocker` finds, of the first name in ascending order that has a
  -- live holder, and changes no table.
  pub lock_many_none :
      (r : ManyResult) {w' : World}
      → lock_many now (n ∷ ns) agent_id ttl w ≡ ok r w'
      → r.acquired ≡ false
      → (blocker now w.db.locks (dedupe_sorted (n ∷ ns)) ≡ some r.held_by) × (w'.db ≡ w.db)
  unfolding names
  lock_many_none r {w'} h a = elim (many_result_ok _ r (run_batch r h)) [
    | inl (o, t) ↦ absurd (ground arith)
    | inr (e, o, by, _) ↦ (
      elim (tx_err (batch now agent_id ttl names) w o) [
        | inl d ↦ absurd (ground arith)
        | inr (w₁, w₂, d, b) ↦ elim (batch_err now agent_id ttl names w₁ e b) [
          | inl x ↦ absurd (ground arith)
          | inr x ↦ rw (← d) (x ∙ by)
        ]
      ],
      tx_atomic (batch now agent_id ttl names) w o,
    )
  ]

  -- Nor does it change a table where it fails.
  pub lock_many_atomic :
      {e : Error} {w' : World} → lock_many now (n ∷ ns) agent_id ttl w ≡ err e w' → w'.db ≡ w.db
  unfolding lock_many many_result
  lock_many_atomic h = ground arith

  pub lock_many-Unique :
      (r : ManyResult) {w' : World}
      → Unique w.db.locks
      → lock_many now (n ∷ ns) agent_id ttl w ≡ ok r w'
      → Unique w'.db.locks
  lock_many-Unique r u h = elim (many_result_ok _ r (run_batch r h)) [
    | inl (o, _) ↦
        let (w₁, w₂, d₁, b, d₂) = tx_ok (batch now agent_id ttl names) w o in
        rw d₂ (batch-Unique now agent_id ttl names w₁ r.tokens (rw d₁ u) b)
    | inr (e, o, _, _) ↦ rw (tx_atomic (batch now agent_id ttl names) w o) u
  ]

-- The empty batch is granted, and changes no table.
pub lock_many_empty :
    (now : ℤ) (agent_id : Bytes) (ttl : ℤ) (w : World) (r : ManyResult) {w' : World}
    → lock_many now [] agent_id ttl w ≡ ok r w'
    → (r.acquired ≡ true) × (w'.db ≡ w.db)
unfolding lock_many
lock_many_empty now agent_id ttl w r h = ground arith

pub lock_many_empty_atomic :
    (now : ℤ) (agent_id : Bytes) (ttl : ℤ) (w : World) {e : Error} {w' : World}
    → lock_many now [] agent_id ttl w ≡ err e w'
    → w'.db ≡ w.db
unfolding lock_many
lock_many_empty_atomic now agent_id ttl w h = ground arith
