-- ===== src/Command/Authentication.antt =====
-- Who may change anything in a daemon that main.go has started.
use agentpeek.Common.{
  ℤ, ◌≡◌, ◌≢◌, inl, inr, refl, ap, ◌∙◌, Bool, true, false, some, List, [], ◌∷◌, ◌++◌, arith, Bytes,
  str, eqs, eqs_iff,
}
use agentpeek.Store.Exec.{Random, bytes, no_entropy}
use agentpeek.Store.Random.{hex}
use agentpeek.Mcp.Server.{Library, Server, HttpRequest, gate, handle_root, new}
use agentpeek.Mcp.Json.{Runtime}
use agentpeek.Mcp.Daemon.{Daemon}
use agentpeek.Mcp.Handler.{handle}
use agentpeek.Mcp.Handler.Gateway.{request_runs_tool}
use agentpeek.Mcp.Token.{
  Result, success, failure, Reading, contents, not_exist, unreadable, ensure_token_file,
}
use agentpeek.Command.{Startup, choose_token, serve_with, run_daemon, token_file_path}

-- The token file is there, and has nothing but white space.
abbrev blank : Startup → Reading → Bool
blank u (contents c) = eqs (u.disk.trim_space c) []
blank u _ = false

unfoldable pub blank_token_file : Startup → Bool
blank_token_file u = blank u (u.disk.read_file (token_file_path u))

hex-nonempty : (b : Bytes) → b ≢ [] → hex b ≢ []
unfolding hex
hex-nonempty [] h e = h refl
hex-nonempty (x ∷ b) h e = absurd (ground arith)

ensure_token_file-nonempty :
    (u : Startup) (token : Bytes)
    → blank_token_file u ≡ false
    → u.disk.random ≢ bytes []
    → ensure_token_file u.disk (token_file_path u) true ≡ success token
    → token ≢ []
unfolding ensure_token_file blank_token_file
ensure_token_file-nonempty u token file rand h e = split u.disk.random refl
  where
    split : (r : Random) → u.disk.random ≡ r → ⊥
    split (bytes b) eq =
        let full = hex-nonempty b (λ empty. rand (eq ∙ ap bytes empty)) in
        ground (arith, eqs_iff token [])
    split (no_entropy x) eq = ground (arith, eqs_iff token [])

choose_token-nonempty :
    (u : Startup) (token token_path : Bytes)
    → u.goos ≢ str "darwin"
    → blank_token_file u ≡ false
    → u.disk.random ≢ bytes []
    → choose_token u ≡ success (token, token_path)
    → token ≢ []
unfolding choose_token
choose_token-nonempty u token token_path other file rand h e = ground (
  arith,
  eqs_iff (u.env (str "AIRLOCK_TOKEN")) [],
  eqs_iff u.goos (str "darwin"),
  ensure_token_file-nonempty u token file rand,
)

serve_with-token :
    (u : Startup) (token token_path : Bytes) (s : Server)
    → (serve_with u token token_path).server ≡ some s
    → s.token ≡ token
unfolding serve_with new
serve_with-token u token token_path s h = ground arith

served :
    (u : Startup) (args : List Bytes) (s : Server)
    → (run_daemon u args).server ≡ some s
    → (token_path : Bytes) × (choose_token u ≡ success (s.token, token_path))
unfolding run_daemon
served u args s h = split (choose_token u) refl
  where
    split :
        (o : Result (Bytes × Bytes))
        → choose_token u ≡ o
        → (token_path : Bytes) × (choose_token u ≡ success (s.token, token_path))
    split (success (token, token_path)) eq =
        let same = serve_with-token u token token_path s (ground arith) in
        (token_path, ground arith)
    split (failure e) eq = absurd (ground arith)

-- On a system other than darwin, where the token file is not there or is not blank and crypto/rand
-- does not give an empty read, a request that changes anything in the daemon that main.go starts
-- carries the token of that daemon, which is not empty, in its header.
pub changes_need_token :
    (l : Library) (rt : Runtime) (now later : ℤ) (u : Startup) (args : List Bytes) (s : Server)
    (r : HttpRequest) (d : Daemon)
    → u.goos ≢ str "darwin"
    → blank_token_file u ≡ false
    → u.disk.random ≢ bytes []
    → (run_daemon u args).server ≡ some s
    → (handle_root l (handle rt now later) s r d).1 ≢ d
    → (r.authorization ≡ str "Bearer " ++ s.token) × (s.token ≢ [])
changes_need_token l rt now later u args s r d other file rand started changed =
    let (token_path, chosen) = served u args s started in
    let nonempty = choose_token-nonempty u s.token token_path other file rand chosen in
    let run = request_runs_tool l rt now later s r d changed in
    (
      elim (run.0.6) [ inl open_server ↦ absurd (nonempty open_server) | inr header ↦ header ],
      nonempty,
    )

choose_token-blank :
    (u : Startup) (token token_path : Bytes)
    → u.goos ≢ str "darwin"
    → u.env (str "AIRLOCK_TOKEN") ≡ []
    → blank_token_file u ≡ true
    → choose_token u ≡ success (token, token_path)
    → token ≡ []
unfolding choose_token ensure_token_file blank_token_file
choose_token-blank u token token_path other unset file h =
    split (u.disk.read_file (token_file_path u)) refl
  where
    split : (o : Reading) → u.disk.read_file (token_file_path u) ≡ o → token ≡ []
    split (contents c) eq = ground (
      arith,
      eqs_iff (u.disk.trim_space c) [],
      eqs_iff u.goos (str "darwin"),
      eqs_iff (u.env (str "AIRLOCK_TOKEN")) [],
    )
    split not_exist eq = absurd (ground arith)
    split (unreadable e) eq = absurd (ground arith)

gate-open :
    {A : Type 0} (l : Library) (s : Server) (r : HttpRequest) (authorization : Bytes)
    → s.token ≡ []
    → gate {A = A} l s (record r { authorization = authorization }) ≡ gate {A = A} l s r
unfolding gate
gate-open l s r authorization h = ground (arith, eqs_iff s.token [])

-- A blank token file turns the check off: on a system other than darwin, with no AIRLOCK_TOKEN and
-- a token file that is there but has nothing but white space, the daemon that main.go starts treats
-- a request the same whatever its Authorization header is.
pub blank_token_admits :
    {A : Type 0} (l : Library) (u : Startup) (args : List Bytes) (s : Server) (r : HttpRequest)
    (authorization : Bytes)
    → u.goos ≢ str "darwin"
    → u.env (str "AIRLOCK_TOKEN") ≡ []
    → blank_token_file u ≡ true
    → (run_daemon u args).server ≡ some s
    → gate {A = A} l s (record r { authorization = authorization }) ≡ gate {A = A} l s r
blank_token_admits l u args s r authorization other unset file started =
    let (token_path, chosen) = served u args s started in
    gate-open l s r authorization (choose_token-blank u s.token token_path other unset file chosen)
