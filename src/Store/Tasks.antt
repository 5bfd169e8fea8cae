-- ===== src/Store/Tasks.antt =====
-- internal/store/tasks.go: the work queues.
pub mod Rows
pub mod Claim
pub mod Lease
pub mod Reaper
pub mod Diagram
pub mod History
pub mod Listing
pub mod Keyed
use agentpeek.Common.{
  ℕ, suc, leb, ◌==◌, ℤ, pos, Bool, true, false, ◌&&◌, ◌||◌, not, Option, none, some, List, [], ◌∷◌,
  ◌++◌, map, keep, if◌then◌else◌, Bytes, eqs, add64, le64, lt64,
}
use agentpeek.Sql.Table.{select_where}
use agentpeek.Store.Db.{Db, AgentRow, TaskRow, TaskState, pending, claimed, finished}
use agentpeek.Store.Exec.{M, World, pure, fail, ◌>>=◌, ◌>>◌, query, exec, tx}
use agentpeek.Store.Random.{new_token}
use agentpeek.Store.Locks.{secs_left}

-- const defaultLeaseSeconds
abbrev pub default_lease_seconds : ℤ
default_lease_seconds = pos 120

-- type Task
pub record Task : Type 0 where
  pub id : ℕ
  pub queue : Bytes
  pub payload : Bytes
  pub author : Bytes
  pub priority : ℤ
  pub state : TaskState
  pub lease_agent : Bytes
  pub lease_expires_in_seconds : ℤ

abbrev pub same_state : TaskState → TaskState → Bool
same_state pending pending = true
same_state claimed claimed = true
same_state finished finished = true
same_state _ _ = false

-- UPDATE tasks SET ... WHERE
unfoldable pub update_where : (TaskRow → Bool) → (TaskRow → TaskRow) → List TaskRow → List TaskRow
update_where p f [] = []
update_where p f (r ∷ rs) = (if p r then f r else r) ∷ update_where p f rs

-- RowsAffected() > 0
unfoldable pub any_row : (TaskRow → Bool) → List TaskRow → Bool
any_row p [] = false
any_row p (r ∷ rs) = p r || any_row p rs

abbrev pub set_tasks : (List TaskRow → List TaskRow) → Db → Db
set_tasks f d = record d { tasks = f d.tasks }

-- An UPDATE that reports whether it changed a row.
abbrev pub exec_changed : (TaskRow → Bool) → (TaskRow → TaskRow) → M Bool
exec_changed p f = do
  changed ← query (λ d. any_row p d.tasks)
  λ w. pure changed (record w { db = set_tasks (update_where p f) w.db })

-- state='pending', and the lease columns NULL
abbrev pub requeued : TaskRow → TaskRow
requeued r = record r {
  state = pending;
  lease_agent = none;
  lease_token = none;
  lease_expires_at = none;
}

-- SELECT agent_id FROM agents WHERE expires_at > now
unfoldable pub present_agents : ℤ → List (Bytes × AgentRow) → List Bytes
present_agents now agents = map (λ r. r.0) (select_where (λ _ a. lt64 now a.expires_at) agents)

unfoldable pub member : Bytes → List Bytes → Bool
member a [] = false
member a (b ∷ bs) = eqs b a || member a bs

-- lease_agent NOT IN (...), which NULL passes over the empty set alone
not_in : Option Bytes → List Bytes → Bool
not_in none [] = true
not_in none (b ∷ bs) = false
not_in (some a) bs = not (member a bs)

lapsed : ℤ → Option ℤ → Bool
lapsed now none = false
lapsed now (some t) = le64 t now

-- The condition under which the reaper takes a task back.
unfoldable pub is_orphan : ℤ → List Bytes → TaskRow → Bool
unfolding not_in lapsed
is_orphan now present r =
    same_state r.state claimed && (lapsed now r.lease_expires_at || not_in r.lease_agent present)

-- func (t *TaskManager) reapOnce
unfoldable pub reap_tasks : ℤ → M (Unit {0})
unfolding tx
reap_tasks now =
    tx (
      exec (λ d. set_tasks (update_where (is_orphan now (present_agents now d.agents)) requeued) d))

abbrev pub new_task : ℤ → Bytes → Bytes → Bytes → ℤ → ℕ → TaskRow
new_task now queue payload author priority id = record {
  id = id;
  queue = queue;
  payload = payload;
  author = author;
  priority = priority;
  state = pending;
  lease_agent = none;
  lease_token = none;
  lease_expires_at = none;
  created_at = now;
}

-- func (t *TaskManager) Push
unfoldable pub push : ℤ → Bytes → Bytes → Bytes → ℤ → M ℕ
unfolding tx
push now queue payload author priority = tx (do
  id ← query (λ d. suc d.last_task_id)
  λ w. pure id (record w {
    db = record (set_tasks (λ rs. rs ++ new_task now queue payload author priority id ∷ []) w.db) {
      last_task_id = id;
    };
  }))

-- ORDER BY priority DESC, id ASC
unfoldable pub before : TaskRow → TaskRow → Bool
before r s = lt64 s.priority r.priority || (not (lt64 r.priority s.priority) && leb r.id s.id)

better : TaskRow → Option TaskRow → TaskRow
better r none = r
better r (some s) = if before r s then r else s

abbrev pub waits_in : Bytes → TaskRow → Bool
waits_in queue r = eqs r.queue queue && same_state r.state pending

-- SELECT ... WHERE queue = ? AND state = 'pending' ORDER BY ... LIMIT 1
unfoldable pub first_pending : Bytes → List TaskRow → Option TaskRow
unfolding better
first_pending queue [] = none
first_pending queue (r ∷ rs) =
    let rest = first_pending queue rs in if waits_in queue r then some (better r rest) else rest

unfoldable pub lease_length : ℤ → ℤ
lease_length lease_seconds =
    if le64 lease_seconds (pos 0) then default_lease_seconds else lease_seconds

abbrev pub leased : ℤ → Bytes → ℤ → Bytes → TaskRow → TaskRow
leased now agent_id lease token r = record r {
  state = claimed;
  lease_agent = some agent_id;
  lease_token = some token;
  lease_expires_at = some (add64 now lease);
}

abbrev pub leased_task : Bytes → Bytes → ℤ → TaskRow → Task
leased_task queue agent_id lease r = record {
  id = r.id;
  queue = queue;
  payload = r.payload;
  author = r.author;
  priority = r.priority;
  state = claimed;
  lease_agent = agent_id;
  lease_expires_in_seconds = lease;
}

claim_row : ℤ → Bytes → Bytes → ℤ → Bytes → Option TaskRow → M (Option (Task × Bytes))
claim_row now queue agent_id lease token none = pure none
claim_row now queue agent_id lease token (some r) = do
  exec (
      set_tasks (
        update_where (λ s. (s.id == r.id) && same_state s.state pending)
          (leased now agent_id lease token)))
  pure (some (leased_task queue agent_id lease r, token))

-- func (t *TaskManager) ClaimNext: `none` where `claimed` is false
unfoldable pub claim_next : ℤ → Bytes → Bytes → ℤ → M (Option (Task × Bytes))
unfolding claim_row new_token tx
claim_next now queue agent_id lease_seconds = do
  token ← new_token
  tx (do
    found ← query (λ d. first_pending queue d.tasks)
    claim_row now queue agent_id (lease_length lease_seconds) token found)

unfoldable pub token_is : Bytes → Option Bytes → Bool
token_is token none = false
token_is token (some t) = eqs t token

-- WHERE id=? AND state='claimed' AND lease_token=?
unfoldable pub holds : ℕ → Bytes → TaskRow → Bool
unfolding token_is
holds id lease_token r =
    (r.id == id) && (same_state r.state claimed && token_is lease_token r.lease_token)

abbrev pub moved : TaskState → Bool → TaskRow → TaskRow
moved state clear_lease r =
    if clear_lease
    then record r { state = state; lease_agent = none; lease_token = none; lease_expires_at = none }
    else record r { state = state }

-- func (t *TaskManager) transition
unfoldable pub transition : ℕ → Bytes → TaskState → Bool → M Bool
unfolding tx
transition id lease_token new_state clear_lease =
    if eqs lease_token []
    then pure false
    else tx (exec_changed (holds id lease_token) (moved new_state clear_lease))

-- func (t *TaskManager) Complete
unfoldable pub complete : ℕ → Bytes → M Bool
unfolding transition
complete id lease_token = transition id lease_token finished false

-- func (t *TaskManager) Fail
unfoldable pub fail_task : ℕ → Bytes → Bool → M Bool
unfolding transition
fail_task id lease_token requeue =
    if requeue
    then transition id lease_token pending true
    else transition id lease_token finished false

unfoldable pub lives : ℤ → Option ℤ → Bool
lives now none = false
lives now (some t) = lt64 now t

abbrev pub extended : ℤ → TaskRow → TaskRow
extended t r = record r { lease_expires_at = some t }

-- func (t *TaskManager) RenewLease
unfoldable pub renew_lease : ℤ → ℕ → Bytes → ℤ → M Bool
unfolding lives tx
renew_lease now id lease_token lease_seconds =
    if eqs lease_token [] || le64 lease_seconds (pos 0)
    then pure false
    else tx (
        exec_changed (λ r. holds id lease_token r && lives now r.lease_expires_at)
          (extended (add64 now lease_seconds)))
