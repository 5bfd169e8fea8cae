-- ===== src/Service/Effects.antt =====
-- What Install and Uninstall of internal/service/service.go leave on the machine.
use agentpeek.Common.{
  ◌≡◌, refl, ap, ◌∙◌, Bool, true, false, Option, none, some, List, [], ◌∷◌, ◌++◌, arith, All,
  if◌then◌else◌, Bytes, str, eqs,
}
use agentpeek.Sql.Table.{select, upsert, delete, select-upsert, select-delete}
use agentpeek.Service.Units.{launchd_label, systemd_unit_name, launchd_plist, systemd_unit}
use agentpeek.Service.Install.{
  Action, print, make_dir, write_file, run_command, remove_file, Machine, dry_run, binary_path,
  agents_dir, plist_path, unit_dir, install_darwin, uninstall_darwin, install_linux,
  uninstall_linux, install, uninstall, remove_unit, at_home, failed,
}

-- The action touches nothing but standard output.
abbrev pub IsPrint : Action → Type 0
IsPrint (print s) = Unit
IsPrint _ = ⊥

-- The files of the machine after some actions that have all succeeded. What a program that runCmd
-- starts (launchctl, systemctl) does to them is an argument.
abbrev pub Files : Type 0
Files = List (Bytes × Bytes)

unfoldable pub replay : (List Bytes → Files → Files) → List Action → Files → Files
replay run [] files = files
replay run (write_file path text ∷ actions) files = replay run actions (upsert path text files)
replay run (remove_file path ∷ actions) files = replay run actions (delete path files)
replay run (print s ∷ actions) files = replay run actions files
replay run (make_dir dir ∷ actions) files = replay run actions files
replay run (run_command words ∷ actions) files = replay run actions (run words files)

-- The programs leave this file as it is.
abbrev pub Spares : (List Bytes → Files → Files) → Bytes → Type 0
Spares run j = (words : List Bytes) (files : Files) → select j (run words files) ≡ select j files

-- What the actions themselves make of one file.
unfoldable file_after : Bytes → List Action → Option Bytes → Option Bytes
file_after j [] o = o
file_after j (write_file path text ∷ actions) o =
    file_after j actions (if eqs path j then some text else o)
file_after j (remove_file path ∷ actions) o = file_after j actions (if eqs path j then none else o)
file_after j (print s ∷ actions) o = file_after j actions o
file_after j (make_dir dir ∷ actions) o = file_after j actions o
file_after j (run_command words ∷ actions) o = file_after j actions o

select-replay :
    (run : List Bytes → Files → Files) (j : Bytes)
    → Spares run j
    → (actions : List Action) (files : Files)
    → select j (replay run actions files) ≡ file_after j actions (select j files)
unfolding replay file_after
select-replay run j spares [] files = refl
select-replay run j spares (write_file path text ∷ actions) files =
    select-replay run j spares actions (upsert path text files)
    ∙ ap (file_after j actions) (select-upsert path j text files)
select-replay run j spares (remove_file path ∷ actions) files =
    select-replay run j spares actions (delete path files)
    ∙ ap (file_after j actions) (select-delete path j files)
select-replay run j spares (print s ∷ actions) files = select-replay run j spares actions files
select-replay run j spares (make_dir dir ∷ actions) files = select-replay run j spares actions files
select-replay run j spares (run_command words ∷ actions) files =
    select-replay run j spares actions (run words files)
    ∙ ap (file_after j actions) (spares words files)

taken :
    (b : Bool) (r s : List Action × Option Bytes)
    → b ≡ true
    → All IsPrint r.0
    → All IsPrint (if b then r else s).0
taken true r s eq h = h
taken false r s eq h = absurd (ground arith)

module _ (m : Machine) (dry : dry_run m ≡ true) where
  install_darwin-dry : (home : Bytes) → All IsPrint (install_darwin m home).0
  unfolding install_darwin
  install_darwin-dry home = taken (dry_run m) _ _ dry (tt, (tt, (tt, (tt, tt))))

  uninstall_darwin-dry : (home : Bytes) → All IsPrint (uninstall_darwin m home).0
  unfolding uninstall_darwin
  uninstall_darwin-dry home = taken (dry_run m) _ _ dry (tt, (tt, tt))

  install_linux-dry : (home : Bytes) → All IsPrint (install_linux m home).0
  unfolding install_linux
  install_linux-dry home = taken (dry_run m) _ _ dry (tt, (tt, (tt, tt)))

  uninstall_linux-dry : (home : Bytes) → All IsPrint (uninstall_linux m home).0
  unfolding uninstall_linux
  uninstall_linux-dry home = taken (dry_run m) _ _ dry (tt, (tt, tt))

-- Print-only holds below the home directory and without one.
home_or_not :
    (m : Machine) (rest : Bytes → List Action × Option Bytes)
    → ((home : Bytes) → All IsPrint (rest home).0)
    → All IsPrint (at_home m rest).0
home_or_not m rest h = split m.home
  where
    split :
        (o : Option Bytes)
        → All IsPrint
            (elim o as (λ _. List Action × Option Bytes) [
              | none ↦ failed (str "resolve home dir: " ++ m.home_error)
              | some home ↦ rest home
            ]).0
    split none = tt
    split (some home) = h home

either_system :
    (b c : Bool) (r s t : List Action × Option Bytes)
    → All IsPrint r.0
    → All IsPrint s.0
    → All IsPrint t.0
    → All IsPrint (if b then r else if c then s else t).0
either_system true c r s t h k l = h
either_system false true r s t h k l = k
either_system false false r s t h k l = l

-- With AIRLOCK_SERVICE_DRYRUN set to 1, Install and Uninstall only print, on every system.
pub dry_run_prints :
    (m : Machine) → dry_run m ≡ true → All IsPrint (install m).0 × All IsPrint (uninstall m).0
unfolding install uninstall
dry_run_prints m dry = (
  either_system darwin linux (at_home m (install_darwin m)) (at_home m (install_linux m))
      (failed (
        str "service install not supported on "
        ++ (m.goos ++ str "; run `airlock daemon` manually")))
      (home_or_not m (install_darwin m) (install_darwin-dry m dry))
      (home_or_not m (install_linux m) (install_linux-dry m dry)) tt,
  either_system darwin linux (at_home m (uninstall_darwin m)) (at_home m (uninstall_linux m))
      (failed (str "service uninstall not supported on " ++ m.goos))
      (home_or_not m (uninstall_darwin m) (uninstall_darwin-dry m dry))
      (home_or_not m (uninstall_linux m) (uninstall_linux-dry m dry)) tt,
)
  where
    darwin : Bool
    darwin = eqs m.goos (str "darwin")

    linux : Bool
    linux = eqs m.goos (str "linux")

-- filepath.Join of a joined path and a name is the join of all.
abbrev pub Joins : Machine → Type 0
Joins m =
    (a b c d : Bytes) → m.join (m.join (a ∷ b ∷ c ∷ []) ∷ d ∷ []) ≡ m.join (a ∷ b ∷ c ∷ d ∷ [])

abbrev pub Joins4 : Machine → Type 0
Joins4 m =
    (a b c d e : Bytes)
    → m.join (m.join (a ∷ b ∷ c ∷ d ∷ []) ∷ e ∷ []) ≡ m.join (a ∷ b ∷ c ∷ d ∷ e ∷ [])

-- The unit of the system, and where it lies.
unfoldable pub unit_path : Machine → Bytes → Bytes
unit_path m home =
    if eqs m.goos (str "darwin")
    then plist_path m (agents_dir m home)
    else m.join (unit_dir m home ∷ systemd_unit_name ∷ [])

unfoldable pub unit_text : Machine → Bytes
unit_text m =
    if eqs m.goos (str "darwin")
    then launchd_plist (binary_path m)
    else systemd_unit (binary_path m)

install_darwin_files :
    (m : Machine) (home : Bytes) (j : Bytes) (o : Option Bytes)
    → dry_run m ≡ false
    → (install_darwin m home).1 ≡ none
    → file_after j (install_darwin m home).0 o ≡ (
        if eqs (plist_path m (agents_dir m home)) j
        then some (launchd_plist (binary_path m))
        else o)
unfolding install_darwin file_after
install_darwin_files m home j o real ok = ground arith

install_linux_files :
    (m : Machine) (home : Bytes) (j : Bytes) (o : Option Bytes)
    → dry_run m ≡ false
    → (install_linux m home).1 ≡ none
    → file_after j (install_linux m home).0 o ≡ (
        if eqs (m.join (unit_dir m home ∷ systemd_unit_name ∷ [])) j
        then some (systemd_unit (binary_path m))
        else o)
unfolding install_linux file_after
install_linux_files m home j o real ok = ground arith

uninstall_darwin_files :
    (m : Machine) (home : Bytes) (j : Bytes) (o : Option Bytes)
    → dry_run m ≡ false
    → (uninstall_darwin m home).1 ≡ none
    → file_after j (uninstall_darwin m home).0 o ≡ (
        if eqs
          (m.join
            (home ∷ str "Library" ∷ str "LaunchAgents" ∷ (launchd_label ++ str ".plist") ∷ []))
          j
        then none
        else o)
unfolding uninstall_darwin remove_unit file_after
uninstall_darwin_files m home j o real ok = ground arith

uninstall_linux_files :
    (m : Machine) (home : Bytes) (j : Bytes) (o : Option Bytes)
    → dry_run m ≡ false
    → (uninstall_linux m home).1 ≡ none
    → file_after j (uninstall_linux m home).0 o ≡ (
        if eqs
          (m.join (home ∷ str ".config" ∷ str "systemd" ∷ str "user" ∷ systemd_unit_name ∷ []))
          j
        then none
        else o)
unfolding uninstall_linux remove_unit file_after
uninstall_linux_files m home j o real ok = ground arith

module _ (m : Machine) (home : Bytes) (j : Bytes) (o : Option Bytes) (real : dry_run m ≡ false)
    (at : m.home ≡ some home) where
  -- An Install that succeeds writes the unit of the system to its place, and no other file.
  install_files :
      (install m).1 ≡ none
      → file_after j (install m).0 o ≡ (if eqs (unit_path m home) j then some (unit_text m) else o)
  unfolding install unit_path unit_text
  install_files ok =
      ground (arith, install_darwin_files m home j o real, install_linux_files m home j o real)

  -- An Uninstall that succeeds removes that file, and no other.
  uninstall_files :
      Joins m
      → Joins4 m
      → (uninstall m).1 ≡ none
      → file_after j (uninstall m).0 o ≡ (if eqs (unit_path m home) j then none else o)
  unfolding uninstall unit_path
  uninstall_files joins joins4 ok = ground (
    arith,
    uninstall_darwin_files m home j o real,
    uninstall_linux_files m home j o real,
    joins home (str "Library") (str "LaunchAgents") (launchd_label ++ str ".plist"),
    joins4 home (str ".config") (str "systemd") (str "user") systemd_unit_name,
  )

-- Where both succeed and are not dry runs, and filepath.Join of a joined path and a name joins all,
-- Install leaves the unit of the system with the path of the program at its place, and Uninstall
-- then takes that file away, if the programs that they run (launchctl, systemctl) do not touch the
-- file; any other file that these programs do not touch stays as it was.
pub install-uninstall :
    (m : Machine) (home : Bytes) (run : List Bytes → Files → Files) (files : Files) (j : Bytes)
    → dry_run m ≡ false
    → m.home ≡ some home
    → Joins m
    → Joins4 m
    → Spares run j
    → (install m).1 ≡ none
    → (uninstall m).1 ≡ none
    → let installed = replay run (install m).0 files in
      (select j installed
        ≡ (if eqs (unit_path m home) j then some (unit_text m) else select j files))
      × (select j (replay run (uninstall m).0 installed)
          ≡ (if eqs (unit_path m home) j then none else select j files))
install-uninstall m home run files j real at joins joins4 spares ok ok' =
    let installed = replay run (install m).0 files in
    let there =
      select-replay run j spares (install m).0 files
      ∙ install_files m home j (select j files) real at ok in
    let gone =
      select-replay run j spares (uninstall m).0 installed
      ∙ uninstall_files m home j (select j installed) real at joins joins4 ok' in
    (there, ground (arith, there, gone))
