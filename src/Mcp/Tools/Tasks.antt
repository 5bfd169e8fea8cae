-- ===== src/Mcp/Tools/Tasks.antt =====
-- The task tools of internal/mcp/tools.go.
pub mod Keyed
use agentpeek.Common.{
  ℤ, pos, negsuc, Bool, true, false, Option, none, some, List, [], ◌∷◌, ◌++◌, map, if◌then◌else◌,
  Bytes, str, eqs,
}
use agentpeek.Sql.Table.{select}
use agentpeek.Store.Db.{TaskState, pending, claimed, finished}
use agentpeek.Store.Exec.{M, pure, tx}
use agentpeek.Store.Tasks.{Task, exec_changed, push, claim_next, complete, fail_task}
use agentpeek.Store.Tasks.Listing.{list_tasks}
use agentpeek.Mcp.Json.{Json, boolean, integer, text, map_of, slice_of, Arguments, Runtime}
use agentpeek.Mcp.Arguments.{default_task_lease_seconds, arg_str, arg_int, arg_bool, arg_id}
use agentpeek.Mcp.Daemon.{Daemon, on_store, Progress, missing, respond}

-- func (h *toolHandler) pushTask
unfoldable pub push_task : Runtime → ℤ → Arguments → Daemon → Progress × Daemon
push_task rt now args d =
    let queue = arg_str args (str "queue") in
    if eqs queue [] then missing (str "queue") d else elim (select (str "payload") args) [
      | none ↦ missing (str "payload") d
      | some _ ↦
          respond rt (λ id. map_of ((str "id", integer (pos id)) ∷ []))
            (on_store
              (push now queue (arg_str args (str "payload")) (arg_str args (str "author"))
                (arg_int rt args (str "priority") (pos 0)))
              d)
    ]

claim_reply : Option (Task × Bytes) → Json
claim_reply none = map_of ((str "claimed", boolean false) ∷ [])
claim_reply (some (t, token)) = map_of (
    (str "claimed", boolean true)
    ∷ (str "id", integer (pos t.id))
    ∷ (str "payload", text t.payload)
    ∷ (str "lease_token", text token)
    ∷ [])

-- func (h *toolHandler) claimNextTask
unfoldable pub claim_next_task : Runtime → ℤ → Arguments → Daemon → Progress × Daemon
unfolding claim_reply
claim_next_task rt now args d =
    let queue = arg_str args (str "queue") in
    let agent_id = arg_str args (str "agent_id") in
    if eqs queue []
    then missing (str "queue") d
    else if eqs agent_id []
    then missing (str "agent_id") d
    else respond rt claim_reply (
        on_store
          (claim_next now queue agent_id
            (arg_int rt args (str "lease_seconds") default_task_lease_seconds))
          d)

-- The UPDATE of Complete and Fail for a negative id, which no row has.
unfoldable pub no_such_task : M Bool
unfolding tx
no_such_task = tx (exec_changed (λ _. false) (λ r. r))

-- Complete and Fail of an int64.
unfoldable pub complete_id : ℤ → Bytes → M Bool
unfolding no_such_task
complete_id (pos id) lease_token = complete id lease_token
complete_id (negsuc _) lease_token = if eqs lease_token [] then pure false else no_such_task

unfoldable pub fail_id : ℤ → Bytes → Bool → M Bool
unfolding no_such_task
fail_id (pos id) lease_token requeue = fail_task id lease_token requeue
fail_id (negsuc _) lease_token requeue = if eqs lease_token [] then pure false else no_such_task

-- func (h *toolHandler) completeTask
unfoldable pub complete_task : Runtime → Arguments → Daemon → Progress × Daemon
complete_task rt args d =
    let token = arg_str args (str "lease_token") in
    elim (arg_id rt args) [
      | none ↦ missing (str "id") d
      | some id ↦
          if eqs token []
          then missing (str "lease_token") d
          else respond rt (λ completed. map_of ((str "completed", boolean completed) ∷ []))
              (on_store (complete_id id token) d)
    ]

-- func (h *toolHandler) failTask
unfoldable pub release_task : Runtime → Arguments → Daemon → Progress × Daemon
release_task rt args d =
    let token = arg_str args (str "lease_token") in
    elim (arg_id rt args) [
      | none ↦ missing (str "id") d
      | some id ↦
          if eqs token []
          then missing (str "lease_token") d
          else respond rt (λ failed. map_of ((str "failed", boolean failed) ∷ []))
              (on_store (fail_id id token (arg_bool args (str "requeue") true)) d)
    ]

-- The text of the column `state`.
abbrev pub state_text : TaskState → Bytes
state_text pending = str "pending"
state_text claimed = str "claimed"
state_text finished = str "done"

lease_fields : Task → TaskState → List (Bytes × Json)
lease_fields t claimed =
    (str "lease_agent", text t.lease_agent)
    ∷ (str "lease_expires_in_seconds", integer t.lease_expires_in_seconds)
    ∷ []
lease_fields t _ = []

task_entry : Task → Json
unfolding lease_fields
task_entry t = map_of (
    (str "id", integer (pos t.id))
      ∷ (str "queue", text t.queue)
      ∷ (str "payload", text t.payload)
      ∷ (str "priority", integer t.priority)
      ∷ (str "state", text (state_text t.state))
      ∷ (if eqs t.author [] then [] else (str "author", text t.author) ∷ [])
    ++ lease_fields t t.state)

-- func (h *toolHandler) listTasks
unfoldable pub list_queue : Runtime → ℤ → Arguments → Daemon → Progress × Daemon
unfolding task_entry
list_queue rt now args d =
    let queue = arg_str args (str "queue") in
    if eqs queue []
    then missing (str "queue") d
    else respond rt (λ tasks. slice_of (map task_entry tasks)) (on_store (list_tasks now queue) d)
