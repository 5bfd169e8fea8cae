-- ===== src/Store/Tasks/Reaper.antt =====
-- Which tasks the reaper takes back.
use agentpeek.Common.{
  ℕ, ℤ, ◌≡◌, refl, Bool, true, false, ◌&&◌, ◌||◌, not, none, some, List, [], ◌∷◌, map, arith,
  if◌then◌else◌, Bytes, le64, lt64,
}
use agentpeek.Sql.Table.{select, select_where, Unique, select-select_where}
use agentpeek.Store.Db.{AgentRow, TaskRow, claimed}
use agentpeek.Store.Exec.{World, ok}
use agentpeek.Store.Tasks.{same_state, present_agents, member, is_orphan, requeued, reap_tasks}
use agentpeek.Store.Tasks.Rows.{find, find-update_where}

-- The agent is registered, and its registration has not run out.
abbrev pub is_present : ℤ → Bytes → List (Bytes × AgentRow) → Bool
is_present now a agents = elim (select a agents) [
  | none ↦ false
  | some row ↦ lt64 now row.expires_at
]

member-keys :
    (a : Bytes) (rows : List (Bytes × AgentRow))
    → member a (map (λ r. r.0) rows) ≡ elim (select a rows) [ none ↦ false | some row ↦ true ]
unfolding member select
member-keys a [] = refl
member-keys a ((b, row) ∷ rows) = ground (arith, member-keys a rows)

member-present_agents :
    (now : ℤ) (a : Bytes) (agents : List (Bytes × AgentRow))
    → Unique agents
    → member a (present_agents now agents) ≡ is_present now a agents
unfolding present_agents
member-present_agents now a agents u =
    let p : Bytes → AgentRow → Bool = λ _ row. lt64 now row.expires_at in
    ground (arith, member-keys a (select_where p agents), select-select_where p a agents u)

-- A claimed task is abandoned when its lease has lapsed, or its agent is not present.
abbrev pub abandoned : ℤ → List (Bytes × AgentRow) → TaskRow → Bool
abandoned now agents r = same_state r.state claimed && elim r.lease_agent [
  | none ↦ false
  | some a ↦ elim r.lease_expires_at [
    | none ↦ not (is_present now a agents)
    | some t ↦ le64 t now || not (is_present now a agents)
  ]
]

-- Where the reaper of tasks succeeds and agents have distinct ids, a task with a lease agent goes
-- back to its queue if it is claimed and its lease has lapsed or its agent is not present (expired,
-- or never registered), whatever is left of the lease, and else stays as it is.
pub reap_tasks_lem :
    (now : ℤ) (w : World) (a : Bytes) (id : ℕ) (r : TaskRow) {w' : World}
    → Unique w.db.agents
    → find id w.db.tasks ≡ some r
    → r.lease_agent ≡ some a
    → reap_tasks now w ≡ ok tt w'
    → find id w'.db.tasks ≡ some (if abandoned now w.db.agents r then requeued r else r)
unfolding reap_tasks is_orphan
reap_tasks_lem now w a id r u e l h =
    let present = present_agents now w.db.agents in
    ground (
      arith,
      find-update_where (is_orphan now present) requeued (λ s. refl) id w.db.tasks,
      member-present_agents now a w.db.agents u,
    )
