-- ===== src/Mcp/Tools/Keyed.antt =====
-- The tools of internal/mcp/tools.go keep the keys of every table.
use agentpeek.Common.{ℤ, pos, [], Bytes, str, eqs}
use agentpeek.Store.Keyed.{IsKeyed}
use agentpeek.Store.Locks.Keyed.{list_locks-Keeps}
use agentpeek.Store.Notes.Keyed.{list_notes-Keeps}
use agentpeek.Store.Presence.Keyed.{register-Keeps, list_agents-Keeps, unregister-Keyed}
use agentpeek.Store.Events.Keyed.{signal-Keyed, clear-Keyed, wait_check-Keyed}
use agentpeek.Mcp.Json.{Arguments, Runtime}
use agentpeek.Mcp.Arguments.{
  default_presence_ttl_seconds, default_event_wait_seconds, arg_str, arg_int,
}
use agentpeek.Mcp.Daemon.{Daemon, events_of}
use agentpeek.Mcp.Tools.{
  Tool, for_lock_resource, for_unlock_resource, for_renew_lock, for_list_locks, for_lock_resources,
  for_set_note, for_get_note, for_list_notes, for_delete_note, for_set_note_if,
  for_increment_counter, for_register_agent, for_unregister_agent, for_list_agents,
  for_signal_event, for_wait_for_event, for_clear_event, for_push_task, for_claim_next_task,
  for_complete_task, for_fail_task, for_list_tasks, tool_named, run_tool, call_tool,
}
use agentpeek.Mcp.Tools.Locks.{list_held}
use agentpeek.Mcp.Tools.Notes.{read_notes}
use agentpeek.Mcp.Tools.Agents.{register_agent, unregister_agent, list_present}
use agentpeek.Mcp.Tools.Events.{signal_event, wait_for_event, clear_event}
use agentpeek.Mcp.Tools.Guards.{IsKeyedAfter, guarded, present}
use agentpeek.Mcp.Tools.Locks.Keyed.{
  lock_resource-Keyed, unlock_resource-Keyed, renew_lock-Keyed, lock_resources-Keyed,
}
use agentpeek.Mcp.Tools.Notes.Keyed.{
  store_note-Keyed, swap_note-Keyed, remove_note-Keyed, read_note-Keyed, add_counter-Keyed,
}
use agentpeek.Mcp.Tools.Tasks.Keyed.{
  push_task-Keyed, claim_next_task-Keyed, complete_task-Keyed, release_task-Keyed, list_queue-Keyed,
}

register_agent-Keyed :
    (rt : Runtime) (now : ℤ) (args : Arguments) (d : Daemon)
    → IsKeyed d.system.world.db
    → IsKeyedAfter (register_agent rt now args d)
unfolding register_agent
register_agent-Keyed rt now args d k =
    (guarded (eqs (arg_str args (str "agent_id")) []) _ _ (record { after = k })
      (record {
        after =
            (register-Keeps now (arg_str args (str "agent_id"))
                (arg_int rt args (str "ttl_seconds") default_presence_ttl_seconds)).keeps
              d.system.world k;
      }))

unregister_agent-Keyed :
    (rt : Runtime) (args : Arguments) (d : Daemon)
    → IsKeyed d.system.world.db
    → IsKeyedAfter (unregister_agent rt args d)
unfolding unregister_agent
unregister_agent-Keyed rt args d k =
    (guarded (eqs (arg_str args (str "agent_id")) []) _ _ (record { after = k })
      (record { after = unregister-Keyed (arg_str args (str "agent_id")) d.system k }))

signal_event-Keyed :
    (rt : Runtime) (now : ℤ) (args : Arguments) (d : Daemon)
    → IsKeyed d.system.world.db
    → IsKeyedAfter (signal_event rt now args d)
unfolding signal_event
signal_event-Keyed rt now args d k =
    (guarded (eqs (arg_str args (str "name")) []) _ _ (record { after = k })
      (record {
        after = signal-Keyed rt.overflow_text now (arg_str args (str "name")) (events_of d) k;
      }))

clear_event-Keyed :
    (rt : Runtime) (args : Arguments) (d : Daemon)
    → IsKeyed d.system.world.db
    → IsKeyedAfter (clear_event rt args d)
unfolding clear_event
clear_event-Keyed rt args d k =
    (guarded (eqs (arg_str args (str "name")) []) _ _ (record { after = k })
      (record { after = clear-Keyed (arg_str args (str "name")) (events_of d) k }))

wait_for_event-Keyed :
    (rt : Runtime) (args : Arguments) (d : Daemon)
    → IsKeyed d.system.world.db
    → IsKeyedAfter (wait_for_event rt args d)
unfolding wait_for_event
wait_for_event-Keyed rt args d k =
    (guarded (eqs (arg_str args (str "name")) []) _ _ (record { after = k })
      (record {
        after =
            wait_check-Keyed (arg_str args (str "name"))
              (arg_int rt args (str "last_seen_generation") (pos 0))
              (arg_int rt args (str "wait_seconds") default_event_wait_seconds) (events_of d) k;
      }))

-- A tool keeps the keys.
run_tool-Keyed :
    (rt : Runtime) (now later : ℤ) (tool : Tool) (args : Arguments) (d : Daemon)
    → IsKeyed d.system.world.db
    → IsKeyedAfter (run_tool rt now later tool args d)
unfolding run_tool list_held read_notes list_present
run_tool-Keyed rt now later for_lock_resource args d k = lock_resource-Keyed rt now later args d k
run_tool-Keyed rt now later for_unlock_resource args d k = unlock_resource-Keyed rt args d k
run_tool-Keyed rt now later for_renew_lock args d k = renew_lock-Keyed rt now args d k
run_tool-Keyed rt now later for_lock_resources args d k = lock_resources-Keyed rt now args d k
run_tool-Keyed rt now later for_set_note args d k = store_note-Keyed rt now args d k
run_tool-Keyed rt now later for_get_note args d k = read_note-Keyed rt now args d k
run_tool-Keyed rt now later for_delete_note args d k = remove_note-Keyed rt args d k
run_tool-Keyed rt now later for_set_note_if args d k = swap_note-Keyed rt now args d k
run_tool-Keyed rt now later for_increment_counter args d k = add_counter-Keyed rt now args d k
run_tool-Keyed rt now later for_register_agent args d k = register_agent-Keyed rt now args d k
run_tool-Keyed rt now later for_unregister_agent args d k = unregister_agent-Keyed rt args d k
run_tool-Keyed rt now later for_signal_event args d k = signal_event-Keyed rt now args d k
run_tool-Keyed rt now later for_wait_for_event args d k = wait_for_event-Keyed rt args d k
run_tool-Keyed rt now later for_clear_event args d k = clear_event-Keyed rt args d k
run_tool-Keyed rt now later for_push_task args d k = push_task-Keyed rt now args d k
run_tool-Keyed rt now later for_claim_next_task args d k = claim_next_task-Keyed rt now args d k
run_tool-Keyed rt now later for_complete_task args d k = complete_task-Keyed rt args d k
run_tool-Keyed rt now later for_fail_task args d k = release_task-Keyed rt args d k
run_tool-Keyed rt now later for_list_tasks args d k = list_queue-Keyed rt now args d k
run_tool-Keyed rt now later for_list_locks args d k = record {
  after = (list_locks-Keeps now).keeps d.system.world k;
}
run_tool-Keyed rt now later for_list_notes args d k = record {
  after = (list_notes-Keeps now).keeps d.system.world k;
}
run_tool-Keyed rt now later for_list_agents args d k = record {
  after = (list_agents-Keeps now).keeps d.system.world k;
}

pub call_tool-Keyed :
    (rt : Runtime) (now later : ℤ) (name : Bytes) (args : Arguments) (d : Daemon)
    → IsKeyed d.system.world.db
    → IsKeyedAfter (call_tool rt now later name args d)
unfolding call_tool
call_tool-Keyed rt now later name args d k =
    present (tool_named name) _ _ (record { after = k })
      (λ tool. run_tool-Keyed rt now later tool args d k)
