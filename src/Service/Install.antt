-- ===== src/Service/Install.antt =====
-- Install and Uninstall of internal/service/service.go, as the actions that they take one after the
-- other.
use agentpeek.Common.{
  Bool, not, Option, none, some, List, [], ◌∷◌, ◌++◌, if◌then◌else◌, Bytes, str, eqs,
}
use agentpeek.Service.Units.{
  launchd_label, agentpeek_label, systemd_unit_name, fallback_bin_path, dry_run_env, launchd_plist,
  systemd_unit,
}

-- What an action on the machine may do: print on standard output, make a directory, write a file, run
-- a command, and remove a file.
pub data Action : Type 0 where
  print : Bytes → Action
  make_dir : Bytes → Action
  write_file : Bytes → Bytes → Action
  run_command : List Bytes → Action
  remove_file : Bytes → Action

-- What os.Remove gives: no error, an error for which os.IsNotExist holds, or another one.
pub data Removal : Type 0 where
  removed not_there : Removal
  stuck : Bytes → Removal

-- What the functions call: runtime.GOOS, os.UserHomeDir (its result or its error), os.Executable,
-- filepath.EvalSymlinks, os.Getenv, filepath.Join, exec.LookPath for systemctl, and the errors of
-- os.MkdirAll, os.WriteFile and runCmd.
pub record Machine : Type 0 where
  pub goos : Bytes
  pub home : Option Bytes
  pub home_error : Bytes
  pub executable : Option Bytes
  pub eval_symlinks : Bytes → Option Bytes
  pub env : Bytes → Bytes
  pub join : List Bytes → Bytes
  pub has_systemctl : Bool
  pub mkdir_error : Bytes → Option Bytes
  pub write_error : Bytes → Option Bytes
  pub command_error : List Bytes → Option Bytes
  pub removal : Bytes → Removal

-- The actions, and the error that is returned, if one is.
abbrev pub Run : Type 0
Run = List Action × Option Bytes

abbrev pub done : Run
done = ([], none)

abbrev pub failed : Bytes → Run
failed e = ([], some e)

-- An action, and what follows it.
infixr 4 ◌then◌
abbrev pub ◌then◌ : Action → Run → Run
a then r = (a ∷ r.0, r.1)

-- An action that ends the function with an error if it has one.
abbrev pub checked : Action → Bytes → Option Bytes → Run → Run
checked a context none rest = a then rest
checked a context (some e) rest = a then failed (context ++ (str ": " ++ e))

-- fmt.Println
abbrev pub println : Bytes → Action
println s = print (s ++ 10 ∷ [])

-- func binaryPath
unfoldable pub binary_path : Machine → Bytes
binary_path m = elim m.executable [
  | none ↦ fallback_bin_path
  | some exe ↦ elim (m.eval_symlinks exe) [ some resolved ↦ resolved | none ↦ exe ]
]

-- func dryRun
unfoldable pub dry_run : Machine → Bool
dry_run m = eqs (m.env dry_run_env) (str "1")

-- The paths of the unit files below the home directory.
abbrev pub agents_dir : Machine → Bytes → Bytes
agents_dir m home = m.join (home ∷ str "Library" ∷ str "LaunchAgents" ∷ [])

abbrev pub plist_path : Machine → Bytes → Bytes
plist_path m dir = m.join (dir ∷ (launchd_label ++ str ".plist") ∷ [])

abbrev pub old_plist_path : Machine → Bytes → Bytes
old_plist_path m dir = m.join (dir ∷ (agentpeek_label ++ str ".plist") ∷ [])

abbrev pub unit_dir : Machine → Bytes → Bytes
unit_dir m home = m.join (home ∷ str ".config" ∷ str "systemd" ∷ str "user" ∷ [])

abbrev launchctl : Bytes → Bytes → List Bytes
launchctl verb path = str "launchctl" ∷ verb ∷ path ∷ []

abbrev systemctl : List Bytes → List Bytes
systemctl args = str "systemctl" ∷ str "--user" ∷ args

-- [dry-run] would write ... (0644)
abbrev would_write : Bytes → Bytes → Action
would_write path text =
    print (str "[dry-run] would write " ++ (path ++ (str " (0644):" ++ 10 ∷ (text ++ 10 ∷ []))))

-- func installDarwin, below the home directory
unfoldable pub install_darwin : Machine → Bytes → Run
unfolding binary_path dry_run
install_darwin m home =
    let dir = agents_dir m home in
    let path = plist_path m dir in
    let old_path = old_plist_path m dir in
    let plist = launchd_plist (binary_path m) in
    if dry_run m
    then would_write path plist
    then println (str "[dry-run] would run: launchctl unload " ++ old_path)
    then println (str "[dry-run] would run: launchctl unload " ++ path)
    then println (str "[dry-run] would run: launchctl load " ++ path)
    then done
    else checked (make_dir dir) (str "create LaunchAgents dir") (m.mkdir_error dir) (
        checked (write_file path plist) (str "write plist") (m.write_error path) (
          run_command (launchctl (str "unload") old_path)
          then run_command (launchctl (str "unload") path)
          then checked (run_command (launchctl (str "load") path)) (str "launchctl load " ++ path)
              (m.command_error (launchctl (str "load") path))
              (println (str "Installed launchd agent: " ++ path)
                then println (str "airlock daemon is now running and will start at login.")
                then println (str "Check it with: airlock status")
                then done)))

-- The end of both uninstalls: os.Remove, whose error counts unless the file is not there.
unfoldable pub remove_unit : Machine → Bytes → Bytes → Bytes → Run
remove_unit m path context message = elim (m.removal path) [
  | stuck e ↦ remove_file path then failed (context ++ (str ": " ++ e))
  | removed ↦ remove_file path then println (message ++ path) then done
  | not_there ↦ remove_file path then println (message ++ path) then done
]

-- func uninstallDarwin, below the home directory
unfoldable pub uninstall_darwin : Machine → Bytes → Run
unfolding dry_run remove_unit
uninstall_darwin m home =
    let path =
      m.join (home ∷ str "Library" ∷ str "LaunchAgents" ∷ (launchd_label ++ str ".plist") ∷ []) in
    if dry_run m
    then println (str "[dry-run] would run: launchctl unload " ++ path)
    then println (str "[dry-run] would remove " ++ path)
    then done
    else run_command (launchctl (str "unload") path)
      then remove_unit m path (str "remove plist") (str "Removed launchd agent: ")

-- func installLinux, below the home directory
unfoldable pub install_linux : Machine → Bytes → Run
unfolding binary_path dry_run
install_linux m home =
    let dir = unit_dir m home in
    let path = m.join (dir ∷ systemd_unit_name ∷ []) in
    let unit = systemd_unit (binary_path m) in
    let reload = systemctl (str "daemon-reload" ∷ []) in
    let enable = systemctl (str "enable" ∷ str "--now" ∷ systemd_unit_name ∷ []) in
    if dry_run m
    then would_write path unit
    then println (str "[dry-run] would run: systemctl --user daemon-reload")
    then println (str "[dry-run] would run: systemctl --user enable --now " ++ systemd_unit_name)
    then done
    else checked (make_dir dir) (str "create systemd user dir") (m.mkdir_error dir) (
        checked (write_file path unit) (str "write unit") (m.write_error path) (
          if not m.has_systemctl
          then println (str "Wrote systemd unit: " ++ path)
          then println
              (str "systemctl was not found, so the service was not started automatically.")
          then println (str "Start the daemon yourself with: airlock daemon")
          then done
          else checked (run_command reload) (str "systemctl daemon-reload") (m.command_error reload)
              (checked (run_command enable) (str "systemctl enable --now " ++ systemd_unit_name)
                (m.command_error enable)
                (println (str "Installed systemd user unit: " ++ path)
                  then println (str "airlock daemon is now running and will start on login.")
                  then println (str "Check it with: airlock status")
                  then done))))

-- func uninstallLinux, below the home directory
unfoldable pub uninstall_linux : Machine → Bytes → Run
unfolding dry_run remove_unit
uninstall_linux m home =
    let path =
      m.join (home ∷ str ".config" ∷ str "systemd" ∷ str "user" ∷ systemd_unit_name ∷ []) in
    let remove = remove_unit m path (str "remove unit") (str "Removed systemd user unit: ") in
    let disable = systemctl (str "disable" ∷ str "--now" ∷ systemd_unit_name ∷ []) in
    if dry_run m
    then println (str "[dry-run] would run: systemctl --user disable --now " ++ systemd_unit_name)
    then println (str "[dry-run] would remove " ++ path)
    then done
    else if m.has_systemctl
    then run_command disable
    then remove
    else remove

-- The error of os.UserHomeDir, or the rest.
abbrev pub at_home : Machine → (Bytes → Run) → Run
at_home m rest = elim m.home [
  | none ↦ failed (str "resolve home dir: " ++ m.home_error)
  | some home ↦ rest home
]

-- func Install
unfoldable pub install : Machine → Run
unfolding install_darwin install_linux
install m =
    if eqs m.goos (str "darwin")
    then at_home m (install_darwin m)
    else if eqs m.goos (str "linux")
    then at_home m (install_linux m)
    else failed (
        str "service install not supported on "
        ++ (m.goos ++ str "; run `airlock daemon` manually"))

-- func Uninstall
unfoldable pub uninstall : Machine → Run
unfolding uninstall_darwin uninstall_linux
uninstall m =
    if eqs m.goos (str "darwin")
    then at_home m (uninstall_darwin m)
    else if eqs m.goos (str "linux")
    then at_home m (uninstall_linux m)
    else failed (str "service uninstall not supported on " ++ m.goos)
