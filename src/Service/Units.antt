-- ===== src/Service/Units.antt =====
-- The files that internal/service/service.go writes.
use agentpeek.Common.{List, [], ◌∷◌, ◌++◌, Bytes, str}

-- const launchdLabel, agentpeekLabel, systemdUnitName, fallbackBinPath, dryRunEnv
abbrev pub launchd_label : Bytes
launchd_label = str "com.airlock.daemon"

abbrev pub agentpeek_label : Bytes
agentpeek_label = str "com.agentpeek.daemon"

abbrev pub systemd_unit_name : Bytes
systemd_unit_name = str "airlock.service"

abbrev pub fallback_bin_path : Bytes
fallback_bin_path = str "/usr/local/bin/airlock"

abbrev pub dry_run_env : Bytes
dry_run_env = str "AIRLOCK_SERVICE_DRYRUN"

-- Lines of a text, each with its newline.
abbrev pub lines : List Bytes → Bytes
lines [] = []
lines (l ∷ ls) = l ++ 10 ∷ lines ls

-- func LaunchdPlist
unfoldable pub launchd_plist : Bytes → Bytes
launchd_plist bin_path = lines (
    str "<?xml version=\"1.0\" encoding=\"UTF-8\"?>"
    ∷ str
        "<!DOCTYPE plist PUBLIC \"-//Apple//DTD PLIST 1.0//EN\" \"http://www.apple.com/DTDs/PropertyList-1.0.dtd\">"
    ∷ str "<plist version=\"1.0\">"
    ∷ str "<dict>"
    ∷ str "\t<key>Label</key>"
    ∷ (str "\t<string>" ++ (launchd_label ++ str "</string>"))
    ∷ str "\t<key>ProgramArguments</key>"
    ∷ str "\t<array>"
    ∷ (str "\t\t<string>" ++ (bin_path ++ str "</string>"))
    ∷ str "\t\t<string>daemon</string>"
    ∷ str "\t</array>"
    ∷ str "\t<key>RunAtLoad</key>"
    ∷ str "\t<true/>"
    ∷ str "\t<key>KeepAlive</key>"
    ∷ str "\t<true/>"
    ∷ str "\t<key>StandardErrorPath</key>"
    ∷ str "\t<string>/tmp/airlock.log</string>"
    ∷ str "\t<key>StandardOutPath</key>"
    ∷ str "\t<string>/tmp/airlock.log</string>"
    ∷ str "</dict>"
    ∷ str "</plist>"
    ∷ [])

-- func SystemdUnit
unfoldable pub systemd_unit : Bytes → Bytes
systemd_unit bin_path = lines (
    str "[Unit]"
    ∷ str "Description=Airlock agent coordination daemon"
    ∷ []
    ∷ str "[Service]"
    ∷ (str "ExecStart=" ++ (bin_path ++ str " daemon"))
    ∷ str "Restart=always"
    ∷ str "RestartSec=2"
    ∷ []
    ∷ str "[Install]"
    ∷ str "WantedBy=default.target"
    ∷ [])
