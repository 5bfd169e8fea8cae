-- ===== src/Tests/Work.antt =====
-- Runs of the work queues and of the agents' presence.
use agentpeek.Common.{
  ◌↔◌, ℕ, ℤ, pos, ◌≡◌, ◌≢◌, refl, Bool, true, false, Option, none, some, List, [], ◌∷◌, Bytes, str,
  eqs, le64, lt64, ◌==◌, leb, ◌&&◌, All, if◌then◌else◌, add64,
}
use agentpeek.Sql.Table.{select, Unique}
use agentpeek.Store.Db.{TaskRow, pending, finished}
use agentpeek.Store.Exec.{World}
use agentpeek.Store.Random.{hex}
use agentpeek.Store.Locks.History.{world_of}
use agentpeek.Store.Tasks.{
  Task, push, claim_next, complete, fail_task, renew_lease, reap_tasks, waits_in, before, leased,
  leased_task, lease_length, requeued, moved,
}
use agentpeek.Store.Tasks.Rows.{Precedes, find}
use agentpeek.Store.Tasks.Claim.{claim_next-some}
use agentpeek.Store.Tasks.Lease.{Renewable, Held, complete_lem, renew_lease_lem}
use agentpeek.Store.Tasks.Reaper.{reap_tasks_lem}
use agentpeek.Store.Tasks.Diagram.{Evolves}
use agentpeek.Store.Tasks.History.{Call, claims, fails, reaps, step, step-Evolves}
use agentpeek.Store.Lock.{System}
use agentpeek.Store.Queues.{new_manager}
use agentpeek.Store.Presence.{register, registered, unregister, reap_agent}
use agentpeek.Store.Presence.Recovery.{Released, unregister_lem, reap_agent_forgets}
use agentpeek.Tests.{empty_db, calm, build, ann, bob, held_world}

abbrev waiting : ℕ → ℤ → TaskRow
waiting id priority = record {
  id = id;
  queue = build;
  payload = str "job";
  author = [];
  priority = priority;
  state = pending;
  lease_agent = none;
  lease_token = none;
  lease_expires_at = none;
  created_at = pos 1;
}

abbrev token : Bytes
token = str "0aff0000000000000000000000000000"

-- Two tasks, the second more urgent.
abbrev loaded : World
loaded =
    calm (record empty_db { tasks = waiting 1 (pos 0) ∷ waiting 2 (pos 5) ∷ []; last_task_id = 2 })

abbrev urgent : TaskRow
urgent = leased (pos 60) ann (pos 120) token (waiting 2 (pos 5))

abbrev at_work : World
at_work = world_of (claim_next (pos 60) build ann (pos 0) loaded)

claim_next-some_example :
    (r : TaskRow) × (find 2 loaded.db.tasks ≡ some r)
    × ((r.queue ≡ build) × (r.state ≡ pending))
    × All (λ s. s.queue ≡ build → s.state ≡ pending → Precedes r s) loaded.db.tasks
    × (leased_task build ann (pos 120) (waiting 2 (pos 5)) ≡ leased_task r.queue ann (pos 120) r)
    × ((id : ℕ)
        → find id at_work.db.tasks ≡ (
            if 2 == id
            then some (leased (pos 60) ann (pos 120) token r)
            else find id loaded.db.tasks))
unfolding claim_next find agentpeek.Store.Tasks.first_pending eqs before hex lt64 lease_length le64
claim_next-some_example =
    claim_next-some (pos 60) build ann (pos 0) loaded (refl, (refl, tt))
      (leased_task build ann (pos 120) (waiting 2 (pos 5))) token refl

abbrev busy : World
busy = calm (record empty_db {
  tasks = urgent ∷ [];
  agents = (bob, record { registered_at = pos 1; expires_at = pos 500 }) ∷ [];
  last_task_id = 2;
})

renew_lease_lem_example :
    ((true ≡ true) ↔ Renewable token (pos 100) (pos 60) (some urgent))
    × (find 2 (world_of (renew_lease (pos 100) 2 token (pos 60) busy)).db.tasks
        ≡ some (record urgent { lease_expires_at = some (pos 160) }))
unfolding renew_lease find eqs le64 agentpeek.Store.Tasks.any_row agentpeek.Store.Tasks.holds lt64
    add64
renew_lease_lem_example = renew_lease_lem 2 token busy (refl, tt) (pos 100) (pos 60) true 2 refl

complete_lem_example :
    ((true ≡ true) ↔ Held token (some urgent))
    × (find 2 (world_of (complete 2 token busy)).db.tasks
        ≡ some (record urgent { state = finished }))
unfolding complete find eqs agentpeek.Store.Tasks.any_row agentpeek.Store.Tasks.holds
complete_lem_example = complete_lem 2 token busy (refl, tt) true 2 refl

-- ann has not registered: the task is taken back at once, though its lease runs until 180.
reap_tasks_lem_example :
    find 2 (world_of (reap_tasks (pos 61) busy)).db.tasks ≡ some (requeued urgent)
unfolding reap_tasks select find le64 add64 eqs
reap_tasks_lem_example = reap_tasks_lem (pos 61) busy ann 2 urgent (refl, tt) refl refl refl

step-Evolves_example :
    (s : TaskRow) × (find 2 (step (claims (pos 60) build ann (pos 0)) loaded).db.tasks ≡ some s)
    × Evolves (waiting 2 (pos 5)) s
unfolding find
step-Evolves_example =
    step-Evolves 2 (waiting 2 (pos 5)) loaded refl (claims (pos 60) build ann (pos 0))

abbrev over : TaskRow
over = moved finished false urgent

abbrev done_world : World
done_world = calm (record empty_db { tasks = over ∷ []; last_task_id = 2 })

abbrev calls : List Call
calls = claims (pos 70) build bob (pos 0) ∷ fails 2 token true ∷ reaps (pos 900) ∷ []

abbrev held : System
held = record { world = held_world; manager = new_manager }

unregister_lem_example :
    Released ann (select build (unregister ann held).1.world.db.locks)
    × (select ann (unregister ann held).1.world.db.agents ≡ none)
unfolding unregister select agentpeek.Store.Lock.release_agent
    agentpeek.Store.Locks.release_agent_locks agentpeek.Sql.Table.select_where agentpeek.Common.keep
    eqs agentpeek.Store.Presence.forget
unregister_lem_example = unregister_lem ann build held (refl, tt) refl

reap_agent_forgets_example :
    select bob
      (reap_agent bob (record held {
        world = world_of (register (pos 60) bob (pos 30) held_world);
      })).world.db.agents
    ≡ none
unfolding register le64
reap_agent_forgets_example = reap_agent_forgets (pos 60) bob (pos 30) held refl (λ _. refl)
