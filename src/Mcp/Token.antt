-- ===== src/Mcp/Token.antt =====
-- EnsureTokenFile of internal/mcp/server.go: the bearer token in a file.
use agentpeek.Common.{Bool, Option, none, some, [], ◌++◌, if◌then◌else◌, Bytes, str, eqs}
use agentpeek.Store.Exec.{Random, bytes, no_entropy}
use agentpeek.Store.Random.{hex}

-- A result, or the text of an error.
pub data Result {ℓ} (A : Type ℓ) : Type ℓ where
  success : A → Result A
  failure : Bytes → Result A

-- What os.ReadFile gives: the contents, an error that is os.ErrNotExist, or another one.
pub data Reading : Type 0 where
  contents : Bytes → Reading
  not_exist : Reading
  unreadable : Bytes → Reading

-- What EnsureTokenFile calls: os.ReadFile, filepath.Dir, strings.TrimSpace, the errors of os.MkdirAll
-- and os.WriteFile, and one read of 32 bytes from crypto/rand.
pub record Disk : Type 0 where
  pub read_file : Bytes → Reading
  pub dir : Bytes → Bytes
  pub trim_space : Bytes → Bytes
  pub mkdir_error : Bytes → Option Bytes
  pub write_error : Bytes → Option Bytes
  pub random : Random

-- The end of EnsureTokenFile: a new token, if it could be written to the file.
mint : Disk → Bytes → Random → Result Bytes
mint d path (no_entropy e) = failure (str "mcp: generate token: " ++ e)
mint d path (bytes b) = elim (d.write_error path) [
  | some e ↦ failure (str "mcp: write token file: " ++ e)
  | none ↦ success (hex b)
]

-- os.MkdirAll of the directory, if the path has one.
directory_error : Disk → Bytes → Option Bytes
directory_error d dir = if eqs dir [] then none else d.mkdir_error dir

create_token : Disk → Bytes → Result Bytes
unfolding mint directory_error
create_token d path = elim (directory_error d (d.dir path)) [
  | some e ↦ failure (str "mcp: create token dir: " ++ e)
  | none ↦ mint d path d.random
]

-- func EnsureTokenFile
unfoldable pub ensure_token_file : Disk → Bytes → Bool → Result Bytes
unfolding create_token
ensure_token_file d path create = elim (d.read_file path) [
  | contents c ↦ success (d.trim_space c)
  | unreadable e ↦ failure (str "mcp: read token file: " ++ e)
  | not_exist ↦ if create then create_token d path else success []
]
