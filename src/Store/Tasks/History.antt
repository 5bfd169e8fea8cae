-- ===== src/Store/Tasks/History.antt =====
-- The life of a task, through any calls.
use agentpeek.Common.{
  ℕ, suc, ◌==◌, ℤ, ◌≡◌, refl, Bool, true, false, ◌&&◌, ◌⊎◌, ◌∙◌, ap, add64, Option, none, some,
  List, [], ◌∷◌, arith, inl, inr, Bytes,
}
use agentpeek.Store.Db.{TaskRow, TaskState, pending, claimed, finished}
use agentpeek.Store.Exec.{World, Out, ok, err}
use agentpeek.Store.Locks.History.{world_of}
use agentpeek.Store.Tasks.{
  Task, same_state, update_where, holds, is_orphan, requeued, present_agents, leased, lease_length,
  moved, extended, new_task, push, claim_next, complete, fail_task, renew_lease, reap_tasks, lives,
  transition,
}
use agentpeek.Store.Tasks.Diagram.{
  may_become, Evolves, same-Evolves, moved_id, claim-Evolves, settle-Evolves, extend-Evolves,
  requeue-Evolves,
}
use agentpeek.Store.Tasks.Claim.{claim_next_atomic, claim_next-none, selected}
use agentpeek.Store.Tasks.Rows.{find, find-update_where, find-append, KeepsId}

pub data Call : Type 0 where
  pushes : ℤ → Bytes → Bytes → Bytes → ℤ → Call
  claims : ℤ → Bytes → Bytes → ℤ → Call
  completes : ℕ → Bytes → Call
  fails : ℕ → Bytes → Bool → Call
  renews : ℤ → ℕ → Bytes → ℤ → Call
  reaps : ℤ → Call

pub step : Call → World → World
step (pushes now queue payload author priority) w =
    world_of (push now queue payload author priority w)
step (claims now queue agent_id lease) w = world_of (claim_next now queue agent_id lease w)
step (completes id token) w = world_of (complete id token w)
step (fails id token requeue) w = world_of (fail_task id token requeue w)
step (renews now id token lease) w = world_of (renew_lease now id token lease w)
step (reaps now) w = world_of (reap_tasks now w)

pub run : List Call → World → World
run [] w = w
run (c ∷ cs) w = run cs (step c w)

update-Evolves :
    (p : TaskRow → Bool) (f : TaskRow → TaskRow) (k : KeepsId f) (id : ℕ) (rs : List TaskRow)
    (r : TaskRow)
    → ((s : TaskRow) → p s ≡ true → Evolves s (f s))
    → find id rs ≡ some r
    → (s : TaskRow) × (find id (update_where p f rs) ≡ some s) × Evolves r s
update-Evolves p f k id rs r e h = split (p r) refl
  where
    split :
        (b : Bool)
        → p r ≡ b
        → (s : TaskRow) × (find id (update_where p f rs) ≡ some s) × Evolves r s
    split true t = (f r, ground (arith, find-update_where p f k id rs), e r t)
    split false t = (r, ground (arith, find-update_where p f k id rs), same-Evolves r)

module _ (id : ℕ) (r : TaskRow) (w : World) (h : find id w.db.tasks ≡ some r) where
  abbrev Lives : List TaskRow → Type 0
  Lives rs = (s : TaskRow) × (find id rs ≡ some s) × Evolves r s

  unchanged : Lives w.db.tasks
  unchanged = (r, h, same-Evolves r)

  -- The rows are those before the call, or those after its update.
  either :
      (p : TaskRow → Bool) (f : TaskRow → TaskRow) (k : KeepsId f) (rs : List TaskRow)
      → ((s : TaskRow) → p s ≡ true → Evolves s (f s))
      → (rs ≡ w.db.tasks) ⊎ (rs ≡ update_where p f w.db.tasks)
      → Lives rs
  either p f k rs e (inl same) = rw same unchanged
  either p f k rs e (inr new) = rw new (update-Evolves p f k id w.db.tasks r e h)

  claim-Lives :
      (now : ℤ) (queue agent_id : Bytes) (lease : ℤ)
      → Lives (world_of (claim_next now queue agent_id lease w)).db.tasks
  claim-Lives now queue agent_id lease = split (claim_next now queue agent_id lease w) refl
    where
      split :
          (o : Out (Option (Task × Bytes)))
          → claim_next now queue agent_id lease w ≡ o
          → Lives (world_of o).db.tasks
      split (err e w') o = rw (claim_next_atomic now queue agent_id lease w o) unchanged
      split (ok none w') o = rw ((claim_next-none now queue agent_id lease w o).1) unchanged
      split (ok (some (t, token)) w') o =
          let (r', e, is, rows) = selected now queue agent_id lease w t token o in
          rw rows (
            update-Evolves (λ s. (s.id == r'.id) && same_state s.state pending)
              (leased now agent_id (lease_length lease) token) (λ s. refl) id w.db.tasks r
              (λ s e. claim-Evolves now agent_id (lease_length lease) token s (ground arith)) h)

  settle-Lives :
      (i : ℕ) (token : Bytes) (state : TaskState) (clear : Bool)
      → may_become claimed state ≡ true
      → Lives (world_of (transition i token state clear w)).db.tasks
  unfolding transition
  settle-Lives i token state clear m =
      either (holds i token) (moved state clear) (moved_id state clear) _
        (λ s e. settle-Evolves i token state clear s m e) (ground arith)

  push-Lives :
      (now : ℤ) (queue payload author : Bytes) (priority : ℤ)
      → Lives (world_of (push now queue payload author priority w)).db.tasks
  unfolding push
  push-Lives now queue payload author priority =
      let new : TaskRow = new_task now queue payload author priority (suc w.db.last_task_id) in
      (r, ground (arith, find-append id w.db.tasks new), same-Evolves r)

  renew-Lives :
      (now : ℤ) (i : ℕ) (token : Bytes) (lease : ℤ)
      → Lives (world_of (renew_lease now i token lease w)).db.tasks
  unfolding renew_lease
  renew-Lives now i token lease =
      either (λ s. holds i token s && lives now s.lease_expires_at) (extended (add64 now lease))
        (λ s. refl) _ (λ s e. extend-Evolves i token (add64 now lease) s (ground arith))
        (ground arith)

  reap-Lives : (now : ℤ) → Lives (world_of (reap_tasks now w)).db.tasks
  unfolding reap_tasks
  reap-Lives now =
      either (is_orphan now (present_agents now w.db.agents)) requeued (λ s. refl) _
        (λ s e. requeue-Evolves now (present_agents now w.db.agents) s e) (ground arith)

  -- No task is lost: any call, whether it succeeds or fails, leaves a task that is in the table
  -- there, with its payload, queue and priority, and moves its state along the diagram `may_become`
  -- or leaves it; a task that is done stays as it is.
  pub step-Evolves :
      (c : Call) → (s : TaskRow) × (find id (step c w).db.tasks ≡ some s) × Evolves r s
  unfolding step complete fail_task
  step-Evolves (pushes now queue payload author priority) =
      push-Lives now queue payload author priority
  step-Evolves (claims now queue agent_id lease) = claim-Lives now queue agent_id lease
  step-Evolves (completes i token) = settle-Lives i token finished false refl
  step-Evolves (fails i token true) = settle-Lives i token pending true refl
  step-Evolves (fails i token false) = settle-Lives i token finished false refl
  step-Evolves (renews now i token lease) = renew-Lives now i token lease
  step-Evolves (reaps now) = reap-Lives now

-- A task that is done is still there, unchanged, after any sequence of calls, whether they succeed
-- or fail.
pub run_final :
    (id : ℕ) (r : TaskRow) (cs : List Call) (w : World)
    → r.state ≡ finished
    → find id w.db.tasks ≡ some r
    → find id (run cs w).db.tasks ≡ some r
unfolding run
run_final id r [] w f h = h
run_final id r (c ∷ cs) w f h =
    let (s, found, e) = step-Evolves id r w h c in
    run_final id r cs (step c w) f (found ∙ ap some (e.final f))
