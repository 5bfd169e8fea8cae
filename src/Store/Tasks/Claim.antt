-- ===== src/Store/Tasks/Claim.antt =====
-- What ClaimNext leases.
use agentpeek.Common.{
  ℕ, ◌==◌, ℤ, ◌≡◌, ◌≢◌, refl, true, false, ◌&&◌, none, some, All, All-map, arith, pos, eqs_iff,
  le64, add64, Option-cases, inl, inr, if◌then◌else◌, Bytes,
}
use agentpeek.Store.Db.{TaskRow, Error, pending, claimed}
use agentpeek.Store.Exec.{World, ok, err}
use agentpeek.Store.Tasks.{
  Task, update_where, first_pending, before, waits_in, same_state, lease_length, leased,
  leased_task, claim_next,
}
use agentpeek.Store.Tasks.Rows.{
  find, UniqueIds, Precedes, before-Precedes, find-update_one, update_where-UniqueIds,
  first_pending-none, first_pending-some,
}

pending_in :
    (queue : Bytes) (r : TaskRow)
    → waits_in queue r ≡ true
    → (r.queue ≡ queue) × (r.state ≡ pending)
pending_in queue r h = (ground (arith, eqs_iff r.queue queue), ground arith)

waits_pending :
    (queue : Bytes) (r : TaskRow) → r.queue ≡ queue → r.state ≡ pending → waits_in queue r ≡ true
waits_pending queue r q p = ground (arith, eqs_iff r.queue queue)

module _ (now : ℤ) (queue agent_id : Bytes) (lease : ℤ) (w : World) where
  -- ClaimNext leases nothing only where no task of the queue is pending; it then changes no task.
  pub claim_next-none :
      {w' : World}
      → claim_next now queue agent_id lease w ≡ ok none w'
      → All (λ r. waits_in queue r ≡ false) w.db.tasks × (w'.db.tasks ≡ w.db.tasks)
  unfolding claim_next
  claim_next-none h = elim (Option-cases (first_pending queue w.db.tasks)) [
    | inl n ↦ (first_pending-none queue w.db.tasks n, ground arith)
    | inr (r, e) ↦ absurd (ground arith)
  ]

  pub claim_next_atomic :
      {e : Error} {w' : World} → claim_next now queue agent_id lease w ≡ err e w' → w'.db ≡ w.db
  unfolding claim_next
  claim_next_atomic h = ground arith

  -- The row that is leased, and the update of the table.
  pub selected :
      (t : Task) (token : Bytes) {w' : World}
      → claim_next now queue agent_id lease w ≡ ok (some (t, token)) w'
      → (r : TaskRow) × (first_pending queue w.db.tasks ≡ some r)
        × (t ≡ leased_task queue agent_id (lease_length lease) r)
        × (w'.db.tasks
            ≡ update_where
                (λ s. (s.id == r.id) && same_state s.state pending)
                (leased now agent_id (lease_length lease) token)
                w.db.tasks)
  unfolding claim_next
  selected t token h = elim (Option-cases (first_pending queue w.db.tasks)) [
    | inl n ↦ absurd (ground arith)
    | inr (r, e) ↦ (r, e, ground arith, ground arith)
  ]

  module _ (u : UniqueIds w.db.tasks) where
    claim_next_selects :
        (t : Task) (token : Bytes) {w' : World}
        → claim_next now queue agent_id lease w ≡ ok (some (t, token)) w'
        → (r : TaskRow) × (find t.id w.db.tasks ≡ some r)
          × (waits_in queue r ≡ true)
          × All (λ s. waits_in queue s ≡ true → before r s ≡ true) w.db.tasks
          × (t ≡ leased_task queue agent_id (lease_length lease) r)
          × ((id : ℕ)
              → find id w'.db.tasks ≡ (
                  if t.id == id
                  then some (leased now agent_id (lease_length lease) token r)
                  else find id w.db.tasks))
    claim_next_selects t token {w'} h =
        let (r, e, same, rows) = selected t token h in
        let (waits, found, first) = first_pending-some queue w.db.tasks r u e in
        let f = leased now agent_id (lease_length lease) token in
        (
          r,
          ground arith,
          waits,
          first,
          same,
          λ id.
              let law =
                find-update_one r.id (λ s. same_state s.state pending) f (λ s. refl) id
                  w.db.tasks in
              ground (arith, law),
        )

    -- Where task ids are unique, a task that ClaimNext leases was pending in the queue, and every
    -- pending task of the queue has a lower priority, or the same and an id that is not smaller. It
    -- is now claimed by the caller under the returned token until the lease ends (after the length
    -- asked for, or 120 seconds if that is not positive), and no other task has changed.
    pub claim_next-some :
        (t : Task) (token : Bytes) {w' : World}
        → claim_next now queue agent_id lease w ≡ ok (some (t, token)) w'
        → let length = if le64 lease (pos 0) then pos 120 else lease in
          (r : TaskRow) × (find t.id w.db.tasks ≡ some r)
          × ((r.queue ≡ queue) × (r.state ≡ pending))
          × All (λ s. s.queue ≡ queue → s.state ≡ pending → Precedes r s) w.db.tasks
          × (t ≡ record {
            id = r.id;
            queue = r.queue;
            payload = r.payload;
            author = r.author;
            priority = r.priority;
            state = claimed;
            lease_agent = agent_id;
            lease_expires_in_seconds = length;
          })
          × ((id : ℕ)
              → find id w'.db.tasks ≡ (
                  if t.id == id
                  then some (record r {
                    state = claimed;
                    lease_agent = some agent_id;
                    lease_token = some token;
                    lease_expires_at = some (add64 now length);
                  })
                  else find id w.db.tasks))
    unfolding lease_length
    claim_next-some t token {w'} h =
        let (r, found, waits, first, same, rows) = claim_next_selects t token h in
        let IsNext : TaskRow → Type 0 = λ s. s.queue ≡ queue → s.state ≡ pending → Precedes r s in
        let (in_queue, is_pending) = pending_in queue r waits in
        (
          r,
          found,
          (in_queue, is_pending),
          All-map (λ s. waits_in queue s ≡ true → before r s ≡ true) IsNext w.db.tasks
              (λ s b q p. before-Precedes r s (b (waits_pending queue s q p))) first,
          rw in_queue same,
          rows,
        )

    pub claim_next-UniqueIds :
        (t : Task) (token : Bytes) {w' : World}
        → claim_next now queue agent_id lease w ≡ ok (some (t, token)) w'
        → UniqueIds w'.db.tasks
    claim_next-UniqueIds t token h =
        let (r, e, same, rows) = selected t token h in
        rw rows (update_where-UniqueIds _ _ (λ s. refl) w.db.tasks u)

-- Where task ids are unique, a claim that follows another at once never leases the task that the
-- first one has leased, whoever makes it and whenever.
pub claim_next_exclusive :
    (now later : ℤ) (queue queue' agent agent' : Bytes) (lease lease' : ℤ) (w : World) (t t' : Task)
    (token token' : Bytes) {w₁ w₂ : World}
    → UniqueIds w.db.tasks
    → claim_next now queue agent lease w ≡ ok (some (t, token)) w₁
    → claim_next later queue' agent' lease' w₁ ≡ ok (some (t', token')) w₂
    → t'.id ≢ t.id
claim_next_exclusive now later queue queue' agent agent' lease lease' w t t' token token' {w₁} u h k
      same =
    let (r, found, waits, first, is, rows) =
      claim_next_selects now queue agent lease w u t token h in
    let u₁ = claim_next-UniqueIds now queue agent lease w u t token h in
    let (r', found', waits', first', is', rows') =
      claim_next_selects later queue' agent' lease' w₁ u₁ t' token' k in
    ground (arith, rows t'.id)
