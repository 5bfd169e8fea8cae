-- ===== src/Command.antt =====
-- main.go: the subcommands, and the start of the daemon.
pub mod Authentication
use agentpeek.Common.{
  ℕ, ℤ, pos, Bool, true, false, ◌&&◌, ◌||◌, not, Option, none, some, List, [], ◌∷◌, ◌++◌,
  if◌then◌else◌, Bytes, str, eqs,
}
use agentpeek.Mcp.Server.{Server, new, after_prefix}
use agentpeek.Mcp.Token.{Disk, Result, success, failure, ensure_token_file}
use agentpeek.Mcp.Handler.{version_name, version_number}
use agentpeek.Cli.Text.{dash}
use agentpeek.Cli.Commands.{Write, out, error, Terminal, Opening, Event, status, watch}
use agentpeek.Service.Install.{Machine, Action, install, uninstall}

-- const defaultAddr
abbrev pub default_addr : Bytes
default_addr = str "127.0.0.1:27183"

-- An error of Server.Start: its text, and whether it is syscall.EADDRINUSE.
pub record ServeError : Type 0 where
  pub text : Bytes
  pub is_in_use : Bool

-- What main.go calls: the flag set (the value of --db, or none for an error of Parse), os.Getenv,
-- runtime.GOOS, os.UserHomeDir, filepath.Join, the error of store.OpenDB, the token file, the error of
-- Server.Start once it has returned, what answers on a port (probeDaemon), and %q.
pub record Startup : Type 0 where
  pub parse_flags : List Bytes → Option Bytes
  pub env : Bytes → Bytes
  pub goos : Bytes
  pub home : Option Bytes
  pub join : List Bytes → Bytes
  pub open_error : Bytes → Option Bytes
  pub disk : Disk
  pub serve : Server → Option ServeError
  pub probe_daemon : Bytes → Option Bytes
  pub quote : Bytes → Bytes

-- A file below ~/.airlock, or below .airlock without a home directory.
below_airlock : Startup → Bytes → Bytes
below_airlock u file = elim u.home [
  | none ↦ u.join (str ".airlock" ∷ file ∷ [])
  | some home ↦ u.join (home ∷ str ".airlock" ∷ file ∷ [])
]

-- func tokenFilePath
unfoldable pub token_file_path : Startup → Bytes
unfolding below_airlock
token_file_path u = below_airlock u (str "token")

-- func resolveDBPath
unfoldable pub resolve_db_path : Startup → Bytes → Bytes
unfolding below_airlock
resolve_db_path u flag_val =
    if not (eqs flag_val [])
    then flag_val
    else if not (eqs (u.env (str "AIRLOCK_DB")) [])
    then u.env (str "AIRLOCK_DB")
    else below_airlock u (str "state.db")

-- strings.Contains
unfoldable pub contains : Bytes → Bytes → Bool
contains [] sub = eqs sub []
contains (c ∷ s) sub =
    let later = contains s sub in
    elim (after_prefix sub (c ∷ s)) [ none ↦ later | some rest ↦ true ]

-- func isAddrInUse
unfoldable pub is_addr_in_use : ServeError → Bool
unfolding contains
is_addr_in_use e = e.is_in_use || contains e.text (str "address already in use")

abbrev line : Bytes → Bytes
line s = s ++ 10 ∷ []

-- What reportPortInUse prints; its exit code is always 1.
unfoldable pub report_port_in_use : Startup → Bytes → Write
report_port_in_use u addr = elim (u.probe_daemon addr) [
  | some name ↦ error (
      line (
        version_name
        ++ (str " cannot start: "
            ++ (addr
                ++ (str " is already serving "
                    ++ (u.quote name
                        ++ (str ". Stop it first "
                            ++ (dash
                                ++ str
                                    " launchctl unload ~/Library/LaunchAgents/com.airlock.daemon.plist  (macOS)  or  systemctl --user stop airlock  (Linux)."))))))))
  | none ↦ error (line (version_name ++ str " cannot start: port 27183 in use by another process."))
]

-- The token and the path of its file, which is empty where no file is used.
unfoldable pub choose_token : Startup → Result (Bytes × Bytes)
choose_token u =
    let from_env = u.env (str "AIRLOCK_TOKEN") in
    if not (eqs from_env [])
    then success (from_env, [])
    else if not (eqs u.goos (str "darwin"))
    then elim (ensure_token_file u.disk (token_file_path u) true) [
      | success token ↦ success (token, token_file_path u)
      | failure e ↦ failure e
    ]
    else success ([], [])

-- What a run of the program has written, the server that it has started, and its exit code.
pub record Ran : Type 0 where
  pub writes : List Write
  pub server : Option Server
  pub code : ℕ

-- airlock: ...: err
abbrev complain : Bytes → Bytes → Write
complain what e = error (line (version_name ++ (str ": " ++ (what ++ (str ": " ++ e)))))

banner : Bytes → Bytes → List Write
banner token token_path =
    out (
      line (
        version_name
        ++ (str " "
            ++ (version_number
                ++ (str " " ++ (dash ++ (str " listening on http://" ++ default_addr)))))))
    ∷ (if not (eqs token []) && not (eqs token_path [])
        then out (line (str "  bearer token: " ++ token_path)) ∷ []
        else [])

-- From the server on.
unfoldable serve_with : Startup → Bytes → Bytes → Ran
unfolding banner
serve_with u token token_path =
    let s = new (record { addr = default_addr; token = token; max_body_bytes = pos 0 }) in
    elim (u.serve s) [
      | none ↦ record { writes = banner token token_path; server = some s; code = 0 }
      | some e ↦ record {
        writes =
            banner token token_path
            ++ (if is_addr_in_use e
                then report_port_in_use u default_addr
                else complain (str "serve") e.text)
              ∷ [];
        server = some s;
        code = 1;
      }
    ]

abbrev stopped : Write → ℕ → Ran
stopped w code = record { writes = w ∷ []; server = none; code = code }

-- func runDaemon; the flag set writes the errors of Parse itself
unfoldable pub run_daemon : Startup → List Bytes → Ran
unfolding serve_with
run_daemon u args = elim (u.parse_flags args) [
  | none ↦ record { writes = []; server = none; code = 2 }
  | some db_flag ↦ elim (u.open_error (resolve_db_path u db_flag)) [
    | some e ↦ stopped (complain (str "open db") e) 1
    | none ↦ elim (choose_token u) [
      | failure e ↦ stopped (complain (str "token") e) 1
      | success (token, token_path) ↦ serve_with u token token_path
    ]
  ]
]

-- What a run of the program has done: the actions are those of Install and Uninstall, before the
-- writes; there is no exit code while `watch` runs.
pub record Ended : Type 0 where
  pub actions : List Action
  pub writes : List Write
  pub server : Option Server
  pub code : Option ℕ

abbrev printed : List Write × Option ℕ → Ended
printed (writes, code) = record { actions = []; writes = writes; server = none; code = code }

-- The result of a service command: its error goes to standard error.
unfoldable pub serviced : Bytes → List Action × Option Bytes → Ended
serviced what (actions, none) = record {
  actions = actions;
  writes = [];
  server = none;
  code = some 0;
}
serviced what (actions, some e) = record {
  actions = actions;
  writes = complain what e ∷ [];
  server = none;
  code = some 1;
}

command_line : Bytes → Bytes → Bytes
command_line command what = line (str "  " ++ (version_name ++ (str " " ++ (command ++ what))))

-- func usage
unfoldable pub usage : Bytes
unfolding command_line
usage =
    line (version_name ++ (str " " ++ version_number))
    ++ (line []
        ++ (line (str "Usage:")
            ++ (command_line (str "[daemon] [--db <path>]") (str "   start the daemon (default)")
                ++ (command_line (str "status") (str "                   print current port state")
                    ++ (command_line (str "watch")
                          (str "                    stream live port activity")
                        ++ (command_line (str "install-service")
                              (str "          install the background service")
                            ++ (command_line (str "uninstall-service")
                                  (str "        remove the background service")
                                ++ (command_line (str "version")
                                      (str "                  print version")
                                    ++ line []))))))))

-- The surroundings of a run: what `status` and `watch` find under a path, and the clock and the events
-- that they see.
pub record Surroundings : Type 0 where
  pub startup : Startup
  pub machine : Machine
  pub terminal : Terminal
  pub opening : Bytes → Opening
  pub now : ℤ
  pub clock : Bytes
  pub events : List Event

-- The switch of run on the command.
unfoldable pub run_command : Surroundings → Bytes → List Bytes → Ended
unfolding serviced usage
run_command x cmd rest =
    let path = resolve_db_path x.startup [] in
    if eqs cmd (str "daemon")
    then (let d = run_daemon x.startup rest in
        record { actions = []; writes = d.writes; server = d.server; code = some d.code })
    else if eqs cmd (str "status")
    then (let (writes, code) = status x.terminal path x.now (x.opening path) in
        printed (writes, some code))
    else if eqs cmd (str "watch")
    then printed (watch x.terminal path x.now x.clock (x.opening path) x.events)
    else if eqs cmd (str "install-service")
    then serviced (str "install-service") (install x.machine)
    else if eqs cmd (str "uninstall-service")
    then serviced (str "uninstall-service") (uninstall x.machine)
    else if eqs cmd (str "version") || eqs cmd (str "--version") || eqs cmd (str "-v")
    then printed (out (line (version_name ++ (str " " ++ version_number))) ∷ [], some 0)
    else printed (error usage ∷ [], some 2)

-- func run
unfoldable pub run : Surroundings → List Bytes → Ended
unfolding run_command
run x [] = run_command x (str "daemon") []
run x (cmd ∷ rest) = run_command x cmd rest
