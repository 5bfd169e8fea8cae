-- ===== src/Tests/Console.antt =====
-- Runs of the program: its subcommands, and the start of the daemon.
use agentpeek.Common.{
  ℤ, pos, ◌≡◌, ◌≢◌, refl, ap, ◌∙◌, append_assoc, arith, All, Bool, true, false, Option, none, some,
  List, [], ◌∷◌, ◌++◌, Bytes, str, eqs, if◌then◌else◌,
}
use agentpeek.Sql.Table.{upsert, select-upsert, select}
use agentpeek.Store.Exec.{bytes, pure, ◌>>=◌}
use agentpeek.Store.Locks.{list_locks}
use agentpeek.Store.Presence.{list_agents}
use agentpeek.Store.Notes.{list_notes}
use agentpeek.Mcp.Server.{Server, HttpRequest, Response, gate, handle_root}
use agentpeek.Mcp.Token.{Disk, contents, not_exist}
use agentpeek.Mcp.Handler.{handle, Answer}
use agentpeek.Cli.Text.{human_dur}
use agentpeek.Cli.Text.Durations.{read_dur, read_dur-human_dur}
use agentpeek.Cli.Status.{Tabulate, render_locks, render_agents, render_notes}
use agentpeek.Cli.Status.Sections.{lock_section, agent_section, note_section, sections_list}
use agentpeek.Cli.Commands.{Terminal, out, opened, tick, interrupt, watch}
use agentpeek.Cli.Commands.Exits.{ticks, show_cursor, watch_until_signal}
use agentpeek.Service.Install.{Machine, removed, install, uninstall}
use agentpeek.Service.Effects.{
  IsPrint, dry_run_prints, replay, unit_path, unit_text, install-uninstall,
}
use agentpeek.Command.{Startup, run_daemon}
use agentpeek.Command.Authentication.{changes_need_token, blank_token_admits}
use agentpeek.Tests.{held_world}
use agentpeek.Tests.Toolbox.{library, runtime, fresh, post}

-- A length of 2 days, 3 hours, 25 minutes and 45 seconds.
read_dur-human_dur_example : read_dur (human_dur (pos 185145)) ≡ 183600
read_dur-human_dur_example = read_dur-human_dur 185145

abbrev plain : Tabulate
plain s = s

sections_list_example :
    (render_locks plain (pos 50) held_world
      ≡ (do infos ← list_locks (pos 50); pure (lock_section plain infos)) held_world)
    × (render_agents plain (pos 50) held_world
        ≡ (do infos ← list_agents (pos 50); pure (agent_section plain infos)) held_world)
    × (render_notes plain (pos 50) held_world
        ≡ (do notes ← list_notes (pos 50); pure (note_section plain notes)) held_world)
sections_list_example = sections_list plain (pos 50) held_world

abbrev terminal : Terminal
terminal = record { tabulate = plain; error_text = λ _. str "error" }

abbrev clock : Bytes
clock = str "Mon 10:00:00"

watch_until_signal_example :
    let before =
      watch terminal
        (str "state.db")
        (pos 50)
        clock
        (opened held_world)
        (ticks ((pos 52, clock, held_world) ∷ [])) in
    (before.1 ≡ none)
    × (watch terminal (str "state.db") (pos 50) clock (opened held_world) (
          ticks ((pos 52, clock, held_world) ∷ [])
          ++ interrupt ∷ tick (pos 54) clock held_world ∷ [])
        ≡ (before.0 ++ out show_cursor ∷ [], some 0))
watch_until_signal_example =
    watch_until_signal terminal (str "state.db") (pos 50) clock held_world
      ((pos 52, clock, held_world) ∷ []) (tick (pos 54) clock held_world ∷ [])

-- Paths are joined with slashes.
slashes : List Bytes → Bytes
slashes [] = []
slashes (p ∷ []) = p
slashes (p ∷ q ∷ ps) = p ++ b'/' ∷ slashes (q ∷ ps)

joins :
    (a b c d : Bytes) → slashes (slashes (a ∷ b ∷ c ∷ []) ∷ d ∷ []) ≡ slashes (a ∷ b ∷ c ∷ d ∷ [])
unfolding slashes
joins a b c d =
    append_assoc a (b'/' ∷ (b ++ b'/' ∷ c)) (b'/' ∷ d)
    ∙ ap (λ s. a ++ b'/' ∷ s) (append_assoc b (b'/' ∷ c) (b'/' ∷ d))

joins4 :
    (a b c d e : Bytes)
    → slashes (slashes (a ∷ b ∷ c ∷ d ∷ []) ∷ e ∷ []) ≡ slashes (a ∷ b ∷ c ∷ d ∷ e ∷ [])
unfolding slashes
joins4 a b c d e =
    append_assoc a (b'/' ∷ (b ++ b'/' ∷ (c ++ b'/' ∷ d))) (b'/' ∷ e)
    ∙ ap (λ s. a ++ b'/' ∷ s) (joins b c d e)

-- A Linux machine on which every action succeeds.
abbrev machine : Machine
machine = record {
  goos = str "linux";
  home = some (str "/home/ann");
  home_error = [];
  executable = some (str "/opt/airlock");
  eval_symlinks = λ p. some p;
  env = λ _. [];
  join = slashes;
  has_systemctl = true;
  mkdir_error = λ _. none;
  write_error = λ _. none;
  command_error = λ _. none;
  removal = λ _. removed;
}

abbrev rehearsal : Machine
rehearsal = record machine { env = λ _. str "1" }

dry_run_prints_example : All IsPrint (install rehearsal).0 × All IsPrint (uninstall rehearsal).0
unfolding agentpeek.Service.Install.dry_run eqs
dry_run_prints_example = dry_run_prints rehearsal refl

abbrev unit_file : Bytes
unit_file = str "/home/ann/.config/systemd/user/airlock.service"

-- systemctl links the unit where it enables it.
link : Bytes
link = str "/home/ann/.config/systemd/user/default.target.wants/airlock.service"

commands : List Bytes → List (Bytes × Bytes) → List (Bytes × Bytes)
commands words files = upsert link unit_file files

spares :
    (words : List Bytes) (files : List (Bytes × Bytes))
    → select unit_file (commands words files) ≡ select unit_file files
unfolding commands link eqs
spares words files = select-upsert link unit_file unit_file files

install-uninstall_example :
    let installed = replay commands (install machine).0 [] in
    (select unit_file installed ≡ (
      if eqs (unit_path machine (str "/home/ann")) unit_file
      then some (unit_text machine)
      else select unit_file []))
    × (select unit_file (replay commands (uninstall machine).0 installed) ≡ (
        if eqs (unit_path machine (str "/home/ann")) unit_file then none else select unit_file []))
unfolding agentpeek.Service.Install.dry_run eqs install uninstall
install-uninstall_example =
    install-uninstall machine (str "/home/ann") commands [] unit_file refl refl joins joins4 spares
      refl refl

-- A start on Linux, with the token file as it is read.
abbrev disk : Disk
disk = record {
  read_file = λ _. contents (str "s3");
  dir = λ _. str "/home/ann/.airlock";
  trim_space = λ s. s;
  mkdir_error = λ _. none;
  write_error = λ _. none;
  random = bytes (7 ∷ []);
}

abbrev startup : Startup
startup = record {
  parse_flags = λ _. some [];
  env = λ _. [];
  goos = str "linux";
  home = some (str "/home/ann");
  join = slashes;
  open_error = λ _. none;
  disk = disk;
  serve = λ _. none;
  probe_daemon = λ _. none;
  quote = λ s. s;
}

abbrev started : Bytes → Server
started token = record { addr = str "127.0.0.1:27183"; token = token; max_body_bytes = pos 1048576 }

abbrev signed : HttpRequest
signed = record post { authorization = str "Bearer s3" }

counted :
    (handle_root library
      (handle runtime (pos 50) (pos 51))
      (started (str "s3"))
      signed
      fresh).1.system.world.ops
    ≡ 3
unfolding handle_root gate eqs agentpeek.Mcp.Server.loopback_host
    agentpeek.Mcp.Server.has_json_content_type agentpeek.Mcp.Server.authorized
    agentpeek.Mcp.Server.dispatch handle agentpeek.Mcp.Tools.call_tool
    agentpeek.Mcp.Tools.tool_named agentpeek.Mcp.Tools.run_tool
    agentpeek.Mcp.Tools.Notes.remove_note agentpeek.Mcp.Arguments.arg_str select
    agentpeek.Store.Notes.delete_note
counted = refl

changes_need_token_example : (signed.authorization ≡ str "Bearer " ++ str "s3") × (str "s3" ≢ [])
unfolding agentpeek.Command.Authentication.blank_token_file eqs run_daemon
    agentpeek.Command.choose_token agentpeek.Mcp.Token.ensure_token_file agentpeek.Mcp.Server.new
    agentpeek.Common.le64
changes_need_token_example =
    changes_need_token library runtime (pos 50) (pos 51) startup [] (started (str "s3")) signed
      fresh (λ e. absurd (ground arith)) refl (λ e. absurd (ground arith)) refl
      (λ same. absurd (ground (arith, counted)))

-- The same start with an empty token file.
abbrev careless : Startup
careless = record startup { disk = record disk { read_file = λ _. contents [] } }

blank_token_admits_example :
    gate {A = Answer} library (started []) (record post { authorization = str "Bearer guess" })
    ≡ gate {A = Answer} library (started []) post
unfolding agentpeek.Command.Authentication.blank_token_file eqs run_daemon
    agentpeek.Command.choose_token agentpeek.Mcp.Token.ensure_token_file agentpeek.Mcp.Server.new
    agentpeek.Common.le64
blank_token_admits_example =
    blank_token_admits {A = Answer} library careless [] (started []) post (str "Bearer guess")
      (λ e. absurd (ground arith)) refl refl refl
