-- ===== src/Cli/Commands.antt =====
-- The commands `status` and `watch` of internal/cli/status.go: what they print, and their exit codes.
pub mod Exits
use agentpeek.Common.{ℕ, ℤ, Option, none, some, List, [], ◌∷◌, ◌++◌, Bytes, str}
use agentpeek.Store.Db.{Error}
use agentpeek.Store.Exec.{World, Out, ok, err}
use agentpeek.Cli.Text.{dash}
use agentpeek.Cli.Status.{Tabulate, newline, render_snapshot}

-- What store.OpenDB gives for the path, after os.Stat: the file is not there, or OpenDB has failed, or
-- here is the database.
pub data Opening : Type 0 where
  absent : Opening
  refused : Bytes → Opening
  opened : World → Opening

-- A write to standard output or to standard error.
pub data Write : Type 0 where
  out : Bytes → Write
  error : Bytes → Write

-- The hint for a database that is not there.
abbrev pub no_state : Bytes → Bytes
no_state path =
    str "No Airlock state found at "
    ++ (path
        ++ (str " "
            ++ (dash
                ++ (str " is the daemon running? (start it with: airlock daemon)"
                    ++ newline ∷ []))))

-- A message with an error at the end of a line.
abbrev pub complaint : Bytes → Bytes → Bytes
complaint message e = message ++ (e ++ newline ∷ [])

-- The text of an error (%v), and the tabwriter.
pub record Terminal : Type 0 where
  pub tabulate : Tabulate
  pub error_text : Error → Bytes

-- func Status: the writes, and the exit code
unfoldable pub status : Terminal → Bytes → ℤ → Opening → List Write × ℕ
status t path now absent = (error (no_state path) ∷ [], 0)
status t path now (refused e) = (error (complaint (str "status: open db: ") e) ∷ [], 1)
status t path now (opened w) = elim (render_snapshot t.tabulate now w) [
  | ok text w' ↦ (out text ∷ [], 0)
  | err e w' ↦ (error (complaint (str "status: render: ") (t.error_text e)) ∷ [], 1)
]

-- What the select of Watch gives: a tick, or a signal. At a tick, the clock reads `now` (with `clock` as
-- time.Format writes it), and the database is as the rest of the world has left it.
pub data Event : Type 0 where
  tick : ℤ → Bytes → World → Event
  interrupt : Event

-- One call of render.
unfoldable pub render : Terminal → ℤ → Bytes → World → List Write
render t now clock w = elim (render_snapshot t.tabulate now w) [
  | ok text w' ↦
      out (27 ∷ str "[H" ++ 27 ∷ str "[2J") ∷ out (clock ++ newline ∷ newline ∷ []) ∷ out text ∷ []
  | err e w' ↦ error (complaint (str "watch: render: ") (t.error_text e)) ∷ []
]

-- The loop: what it writes for some events, and the exit code once it has ended.
unfoldable watch_loop : Terminal → List Event → List Write × Option ℕ
unfolding render
watch_loop t [] = ([], none)
watch_loop t (interrupt ∷ events) = (out (27 ∷ str "[?25h") ∷ [], some 0)
watch_loop t (tick now clock w ∷ events) =
    let (writes, code) = watch_loop t events in (render t now clock w ++ writes, code)

-- func Watch, over the first render and then the events
unfoldable pub watch : Terminal → Bytes → ℤ → Bytes → Opening → List Event → List Write × Option ℕ
unfolding watch_loop render
watch t path now clock absent events = (error (no_state path) ∷ [], some 0)
watch t path now clock (refused e) events =
    (error (complaint (str "watch: open db: ") e) ∷ [], some 1)
watch t path now clock (opened w) events =
    let (writes, code) = watch_loop t events in (render t now clock w ++ writes, code)
