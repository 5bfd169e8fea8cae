-- ===== src/Store/Db.antt =====
-- The tables of internal/store/db.go and the error values of the package.
use agentpeek.Common.{ℕ, ℤ, Option, List, Bytes}

-- A row of `locks`, which is keyed by the lock's name.
pub record LockRow : Type 0 where
  pub agent_id : Bytes
  pub lock_token : Bytes
  pub acquired_at : ℤ
  pub expires_at : ℤ

-- A row of `notes`, keyed by the note's key; `none` is NULL.
pub record NoteRow : Type 0 where
  pub value : Bytes
  pub author : Option Bytes
  pub updated_at : ℤ
  pub expires_at : Option ℤ

-- A row of `counters`.
pub record CounterRow : Type 0 where
  pub value : ℤ
  pub updated_at : ℤ

-- A row of `agents`.
pub record AgentRow : Type 0 where
  pub registered_at : ℤ
  pub expires_at : ℤ

-- A row of `events`.
pub record EventRow : Type 0 where
  pub generation : ℤ
  pub updated_at : ℤ

-- The values of the column `state` of `tasks`.
pub data TaskState : Type 0 where
  pending claimed finished : TaskState

-- A row of `tasks`. Its id is assigned by AUTOINCREMENT, so it is a number from 1 on.
pub record TaskRow : Type 0 where
  pub id : ℕ
  pub queue : Bytes
  pub payload : Bytes
  pub author : Bytes
  pub priority : ℤ
  pub state : TaskState
  pub lease_agent : Option Bytes
  pub lease_token : Option Bytes
  pub lease_expires_at : Option ℤ
  pub created_at : ℤ

-- The database. `last_task_id` is the AUTOINCREMENT counter of `tasks`, which SQLite keeps.
pub record Db : Type 0 where
  pub locks : List (Bytes × LockRow)
  pub notes : List (Bytes × NoteRow)
  pub counters : List (Bytes × CounterRow)
  pub agents : List (Bytes × AgentRow)
  pub events : List (Bytes × EventRow)
  pub tasks : List TaskRow
  pub last_task_id : ℕ

-- The errors that the store's functions return. `sql` and `rand` come from database/sql and
-- crypto/rand; the text is the one they give. `abort_batch` is errAbortBatch, with the variable
-- `heldBy` that the closure of LockMany has set where it returns that error.
pub data Error : Type 0 where
  invalid_ttl not_owned not_found unique_constraint : Error
  abort_batch sql rand : Bytes → Error
  begin_tx commit_tx : Error → Error
