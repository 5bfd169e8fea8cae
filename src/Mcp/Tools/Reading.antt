-- ===== src/Mcp/Tools/Reading.antt =====
-- The tools of internal/mcp/tools.go that report what is there.
use agentpeek.Common.{ℤ, ◌≡◌, ap, ◌∙◌, pos, Bytes, str, Bool, true, false, arith}
use agentpeek.Store.Events.{Events, broadcast_chan, generation, wait_check}
use agentpeek.Store.Locks.{list_locks}
use agentpeek.Store.Notes.{get_note, list_notes}
use agentpeek.Store.Presence.{list_agents}
use agentpeek.Store.Tasks.Listing.{list_tasks}
use agentpeek.Store.Locks.History.{world_of}
use agentpeek.Mcp.Json.{Arguments, Runtime}
use agentpeek.Mcp.Daemon.{Daemon, events_of}
use agentpeek.Mcp.Arguments.{arg_str, arg_int, default_event_wait_seconds}
use agentpeek.Mcp.Tools.{
  Tool, for_list_locks, for_get_note, for_list_notes, for_list_agents, for_list_tasks,
  for_wait_for_event, run_tool,
}
use agentpeek.Mcp.Tools.Locks.{list_held}
use agentpeek.Mcp.Tools.Notes.{read_note, read_notes}
use agentpeek.Mcp.Tools.Agents.{list_present}
use agentpeek.Mcp.Tools.Events.{wait_for_event}
use agentpeek.Mcp.Tools.Tasks.{list_queue}

-- The tools that only report.
abbrev pub reads : Tool → Bool
reads for_list_locks = true
reads for_get_note = true
reads for_list_notes = true
reads for_list_agents = true
reads for_list_tasks = true
reads for_wait_for_event = true
reads _ = false

broadcast_chan-world : (name : Bytes) (e : Events) → (broadcast_chan name e).1.world ≡ e.world
unfolding broadcast_chan
broadcast_chan-world name e = ground arith

wait_check-db :
    (name : Bytes) (last_seen wait : ℤ) (e : Events)
    → (wait_check name last_seen wait e).1.world.db ≡ e.world.db
unfolding wait_check generation
wait_check-db name last_seen wait e =
    let same = broadcast_chan-world name e in
    ap (λ w. (world_of (generation name w)).db) same ∙ ground arith

-- A tool that only reports (list_locks, get_note, list_notes, list_agents, list_tasks,
-- wait_for_event) changes no table and no line of waiters, whether it succeeds or fails.
pub reads_only :
    (rt : Runtime) (now later : ℤ) (tool : Tool) (args : Arguments) (d : Daemon)
    → reads tool ≡ true
    → let after = (run_tool rt now later tool args d).1.system in
      (after.world.db ≡ d.system.world.db) × (after.manager ≡ d.system.manager)
unfolding run_tool list_held read_note read_notes list_present wait_for_event list_queue list_locks
    get_note list_notes list_agents list_tasks
reads_only rt now later for_list_locks args d h = ground arith
reads_only rt now later for_get_note args d h = ground arith
reads_only rt now later for_list_notes args d h = ground arith
reads_only rt now later for_list_agents args d h = ground arith
reads_only rt now later for_list_tasks args d h = ground arith
reads_only rt now later for_wait_for_event args d h = ground (
  arith,
  wait_check-db (arg_str args (str "name")) (arg_int rt args (str "last_seen_generation") (pos 0))
      (arg_int rt args (str "wait_seconds") default_event_wait_seconds) (events_of d),
)
reads_only rt now later tool args d h = absurd (ground arith)
