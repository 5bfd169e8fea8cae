-- ===== src/Mcp/Tools.antt =====
-- callTool of internal/mcp/tools.go: the switch on a tool's name.
pub mod Locks
pub mod Notes
pub mod Agents
pub mod Events
pub mod Tasks
pub mod Dispatch
pub mod Required
pub mod Leases
pub mod Reading
pub mod Guards
pub mod Keyed
use agentpeek.Common.{ℤ, Bool, Option, none, some, [], ◌∷◌, ◌++◌, if◌then◌else◌, Bytes, str, eqs}
use agentpeek.Mcp.Json.{text, map_of, Arguments, Runtime}
use agentpeek.Mcp.Daemon.{Daemon, Progress, replied}
use agentpeek.Mcp.Tools.Locks.{
  lock_resource, unlock_resource, renew_lock, list_held, lock_resources,
}
use agentpeek.Mcp.Tools.Notes.{
  store_note, read_note, read_notes, remove_note, swap_note, add_counter,
}
use agentpeek.Mcp.Tools.Agents.{register_agent, unregister_agent, list_present}
use agentpeek.Mcp.Tools.Events.{signal_event, wait_for_event, clear_event}
use agentpeek.Mcp.Tools.Tasks.{push_task, claim_next_task, complete_task, release_task, list_queue}

-- The cases of the switch, each named after its string.
pub data Tool : Type 0 where
  for_lock_resource : Tool
  for_unlock_resource : Tool
  for_renew_lock : Tool
  for_list_locks : Tool
  for_lock_resources : Tool
  for_set_note : Tool
  for_get_note : Tool
  for_list_notes : Tool
  for_delete_note : Tool
  for_set_note_if : Tool
  for_increment_counter : Tool
  for_register_agent : Tool
  for_unregister_agent : Tool
  for_list_agents : Tool
  for_signal_event : Tool
  for_wait_for_event : Tool
  for_clear_event : Tool
  for_push_task : Tool
  for_claim_next_task : Tool
  for_complete_task : Tool
  for_fail_task : Tool
  for_list_tasks : Tool

-- The case that a name goes to, if it is not the default.
unfoldable pub tool_named : Bytes → Option Tool
tool_named name =
    if eqs name (str "lock_resource")
    then some for_lock_resource
    else if eqs name (str "unlock_resource")
    then some for_unlock_resource
    else if eqs name (str "renew_lock")
    then some for_renew_lock
    else if eqs name (str "list_locks")
    then some for_list_locks
    else if eqs name (str "lock_resources")
    then some for_lock_resources
    else if eqs name (str "set_note")
    then some for_set_note
    else if eqs name (str "get_note")
    then some for_get_note
    else if eqs name (str "list_notes")
    then some for_list_notes
    else if eqs name (str "delete_note")
    then some for_delete_note
    else if eqs name (str "set_note_if")
    then some for_set_note_if
    else if eqs name (str "increment_counter")
    then some for_increment_counter
    else if eqs name (str "register_agent")
    then some for_register_agent
    else if eqs name (str "unregister_agent")
    then some for_unregister_agent
    else if eqs name (str "list_agents")
    then some for_list_agents
    else if eqs name (str "signal_event")
    then some for_signal_event
    else if eqs name (str "wait_for_event")
    then some for_wait_for_event
    else if eqs name (str "clear_event")
    then some for_clear_event
    else if eqs name (str "push_task")
    then some for_push_task
    else if eqs name (str "claim_next_task")
    then some for_claim_next_task
    else if eqs name (str "complete_task")
    then some for_complete_task
    else if eqs name (str "fail_task")
    then some for_fail_task
    else if eqs name (str "list_tasks")
    then some for_list_tasks
    else none

-- The call of a case.
unfoldable pub run_tool : Runtime → ℤ → ℤ → Tool → Arguments → Daemon → Progress × Daemon
run_tool rt now later for_lock_resource args d = lock_resource rt now later args d
run_tool rt now later for_unlock_resource args d = unlock_resource rt args d
run_tool rt now later for_renew_lock args d = renew_lock rt now args d
run_tool rt now later for_list_locks args d = list_held rt now d
run_tool rt now later for_lock_resources args d = lock_resources rt now args d
run_tool rt now later for_set_note args d = store_note rt now args d
run_tool rt now later for_get_note args d = read_note rt now args d
run_tool rt now later for_list_notes args d = read_notes rt now d
run_tool rt now later for_delete_note args d = remove_note rt args d
run_tool rt now later for_set_note_if args d = swap_note rt now args d
run_tool rt now later for_increment_counter args d = add_counter rt now args d
run_tool rt now later for_register_agent args d = register_agent rt now args d
run_tool rt now later for_unregister_agent args d = unregister_agent rt args d
run_tool rt now later for_list_agents args d = list_present rt now d
run_tool rt now later for_signal_event args d = signal_event rt now args d
run_tool rt now later for_wait_for_event args d = wait_for_event rt args d
run_tool rt now later for_clear_event args d = clear_event rt args d
run_tool rt now later for_push_task args d = push_task rt now args d
run_tool rt now later for_claim_next_task args d = claim_next_task rt now args d
run_tool rt now later for_complete_task args d = complete_task rt args d
run_tool rt now later for_fail_task args d = release_task rt args d
run_tool rt now later for_list_tasks args d = list_queue rt now args d

-- func (h *toolHandler) callTool
unfoldable pub call_tool : Runtime → ℤ → ℤ → Bytes → Arguments → Daemon → Progress × Daemon
call_tool rt now later name args d = elim (tool_named name) [
  | some tool ↦ run_tool rt now later tool args d
  | none ↦ (replied (map_of ((str "error", text (str "unknown tool: " ++ name)) ∷ [])), d)
]
