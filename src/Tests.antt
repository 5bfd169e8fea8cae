-- ===== src/Tests.antt =====
-- Concrete runs of the model, on a database whose driver refuses nothing.
pub mod Leases
pub mod Lines
pub mod Notebook
pub mod Work
pub mod Signals
pub mod Gateway
pub mod Toolbox
pub mod Console
use agentpeek.Common.{ℕ, ℤ, pos, List, [], ◌∷◌, none, Bytes, str}
use agentpeek.Store.Db.{Db, LockRow}
use agentpeek.Store.Exec.{World, bytes}
use agentpeek.Store.Lock.{System}
use agentpeek.Store.Queues.{new_manager}

abbrev pub empty_db : Db
empty_db = record {
  locks = [];
  notes = [];
  counters = [];
  agents = [];
  events = [];
  tasks = [];
  last_task_id = 0;
}

-- What crypto/rand gives for each token.
abbrev pub sixteen : Bytes
sixteen = 10 ∷ 255 ∷ 0 ∷ 0 ∷ 0 ∷ 0 ∷ 0 ∷ 0 ∷ 0 ∷ 0 ∷ 0 ∷ 0 ∷ 0 ∷ 0 ∷ 0 ∷ 0 ∷ []

abbrev pub calm : Db → World
calm d = record { db = d; fault = λ _. none; ops = 0; entropy = λ _. bytes sixteen; draws = 0 }

abbrev pub build : Bytes
build = str "build"

abbrev pub ann : Bytes
ann = str "ann"

abbrev pub bob : Bytes
bob = str "bob"

-- A lock that ann holds until 100.
abbrev pub ann_row : LockRow
ann_row = record {
  agent_id = ann;
  lock_token = str "t1";
  acquired_at = pos 40;
  expires_at = pos 100;
}

abbrev pub held_world : World
held_world = calm (record empty_db { locks = (build, ann_row) ∷ [] })

abbrev pub idle : System
idle = record { world = calm empty_db; manager = new_manager }
