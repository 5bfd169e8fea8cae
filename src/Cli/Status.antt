-- ===== src/Cli/Status.antt =====
-- The report of internal/cli/status.go, section by section.
pub mod Sections
pub mod Snapshot
use agentpeek.Common.{
  ℕ, ℤ, pos, Bool, not, Option, none, some, List, [], ◌∷◌, ◌++◌, map, keep, if◌then◌else◌, lt64,
  sub64, Bytes, str, eqs, length,
}
use agentpeek.Sql.Table.{select_where}
use agentpeek.Sql.Order.{order_by_key}
use agentpeek.Store.Db.{
  LockRow, AgentRow, NoteRow, CounterRow, EventRow, TaskRow, TaskState, pending, claimed, finished,
  Error,
}
use agentpeek.Store.Exec.{World, M, Out, ok, err, pure, ◌>>=◌, query}
use agentpeek.Store.Notes.{note_live}
use agentpeek.Store.Tasks.{same_state}
use agentpeek.Store.Tasks.Listing.{order_by_id}
use agentpeek.Cli.Text.{decimal, decimal_int, dash, concat, truncate, human_dur}

-- text/tabwriter, as newTab sets it up: the text that Flush writes for what has been written to it.
abbrev pub Tabulate : Type 0
Tabulate = Bytes → Bytes

abbrev tab : ℕ
tab = 9

abbrev pub newline : ℕ
newline = 10

-- const defaultAddr
abbrev pub default_addr : Bytes
default_addr = str "127.0.0.1:27183"

-- What the functions write for the rows that they have collected.
body : Tabulate → Bytes → List Bytes → Bytes
body tabulate heading [] = str "  (none)" ++ newline ∷ newline ∷ []
body tabulate heading (l ∷ lines) =
    tabulate (heading ++ newline ∷ concat (l ∷ lines)) ++ newline ∷ []

unfoldable pub section : Tabulate → Bytes → Bytes → List Bytes → Bytes
unfolding body
section tabulate title heading lines =
    title
    ++ (str " (" ++ (decimal (length lines) ++ (str ")" ++ newline ∷ body tabulate heading lines)))

-- Cells of a row, after two spaces and with a newline at the end.
cells : List Bytes → Bytes
cells [] = newline ∷ []
cells (c ∷ []) = c ++ newline ∷ []
cells (c ∷ d ∷ cs) = c ++ tab ∷ cells (d ∷ cs)

unfoldable pub row_of : List Bytes → Bytes
unfolding cells
row_of cs = str "  " ++ cells cs

-- A text, or a dash in place of an empty one.
unfoldable pub or_dash : Bytes → Bytes
or_dash s = if eqs s [] then dash else s

abbrev pub lock_heading : Bytes
lock_heading = str "  NAME\tHELD BY\tEXPIRES IN"

abbrev pub agent_heading : Bytes
agent_heading = str "  AGENT\tEXPIRES IN"

abbrev pub note_heading : Bytes
note_heading = str "  KEY\tVALUE\tAUTHOR\tEXPIRES IN"

unfoldable pub lock_line : ℤ → Bytes × LockRow → Bytes
unfolding row_of
lock_line now (name, r) = row_of (name ∷ r.agent_id ∷ human_dur (sub64 r.expires_at now) ∷ [])

-- func renderLocks
unfoldable pub render_locks : Tabulate → ℤ → M Bytes
unfolding section lock_line
render_locks tabulate now = do
  rows ← query (λ d. order_by_key (select_where (λ _ r. lt64 now r.expires_at) d.locks))
  pure (section tabulate (str "LOCKS") lock_heading (map (lock_line now) rows))

unfoldable pub agent_line : ℤ → Bytes × AgentRow → Bytes
unfolding row_of
agent_line now (agent, r) = row_of (agent ∷ human_dur (sub64 r.expires_at now) ∷ [])

-- func renderAgents
unfoldable pub render_agents : Tabulate → ℤ → M Bytes
unfolding section agent_line
render_agents tabulate now = do
  rows ← query (λ d. order_by_key (select_where (λ _ r. lt64 now r.expires_at) d.agents))
  pure (section tabulate (str "AGENTS") agent_heading (map (agent_line now) rows))

-- A column that may be NULL: the empty text then.
unfoldable pub or_empty : Option Bytes → Bytes
or_empty none = []
or_empty (some s) = s

unfoldable pub note_line : ℤ → Bytes × NoteRow → Bytes
unfolding row_of or_dash or_empty
note_line now (key, r) = row_of (
    key
    ∷ truncate r.value 40
    ∷ or_dash (or_empty r.author)
    ∷ elim r.expires_at [ none ↦ dash | some t ↦ human_dur (sub64 t now) ]
    ∷ [])

-- func renderNotes
unfoldable pub render_notes : Tabulate → ℤ → M Bytes
unfolding section note_line
render_notes tabulate now = do
  rows ← query (λ d. order_by_key (select_where (λ _ r. note_live now r) d.notes))
  pure (section tabulate (str "NOTES") note_heading (map (note_line now) rows))

unfoldable pub counter_line : Bytes × CounterRow → Bytes
unfolding row_of
counter_line (name, r) = row_of (name ∷ decimal_int r.value ∷ [])

-- func renderCounters
unfoldable pub render_counters : Tabulate → M Bytes
unfolding section counter_line
render_counters tabulate = do
  rows ← query (λ d. order_by_key d.counters)
  pure (section tabulate (str "COUNTERS") (str "  NAME\tVALUE") (map counter_line rows))

unfoldable pub event_line : Bytes × EventRow → Bytes
unfolding row_of
event_line (name, r) = row_of (name ∷ decimal_int r.generation ∷ [])

-- func renderEvents
unfoldable pub render_events : Tabulate → M Bytes
unfolding section event_line
render_events tabulate = do
  rows ← query (λ d. order_by_key d.events)
  pure (section tabulate (str "EVENTS") (str "  NAME\tGENERATION") (map event_line rows))

abbrev pub state_column : TaskState → Bytes
state_column pending = str "pending"
state_column claimed = str "claimed"
state_column finished = str "done"

unfoldable pub task_line : TaskRow → Bytes
unfolding row_of or_dash or_empty
task_line r = row_of (
    decimal r.id
    ∷ r.queue
    ∷ state_column r.state
    ∷ truncate r.payload 40
    ∷ or_dash (or_empty r.lease_agent)
    ∷ [])

-- func renderTasks
unfoldable pub render_tasks : Tabulate → M Bytes
unfolding section task_line
render_tasks tabulate = do
  rows ← query (λ d. order_by_id (keep (λ r. not (same_state r.state finished)) d.tasks))
  pure (
      section tabulate (str "TASKS") (str "  ID\tQUEUE\tSTATE\tPAYLOAD\tLEASE AGENT")
        (map task_line rows))

-- func renderSnapshot
unfoldable pub render_snapshot : Tabulate → ℤ → M Bytes
render_snapshot tabulate now = do
  locks ← render_locks tabulate now
  agents ← render_agents tabulate now
  notes ← render_notes tabulate now
  counters ← render_counters tabulate
  events ← render_events tabulate
  tasks ← render_tasks tabulate
  pure (
      (str "Airlock " ++ dash ++ str " " ++ default_addr ++ newline ∷ newline ∷ [])
      ++ (locks ++ (agents ++ (notes ++ (counters ++ (events ++ tasks))))))
