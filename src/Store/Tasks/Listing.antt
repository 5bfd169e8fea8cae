-- ===== src/Store/Tasks/Listing.antt =====
-- TaskManager.List of internal/store/tasks.go.
use agentpeek.Common.{leb, ℤ, pos, none, some, List, [], ◌∷◌, map, keep, if◌then◌else◌, Bytes, eqs}
use agentpeek.Store.Db.{TaskRow, claimed}
use agentpeek.Store.Exec.{M, pure, ◌>>=◌, query}
use agentpeek.Store.Locks.{secs_left}
use agentpeek.Store.Tasks.{Task, same_state}

-- ORDER BY id ASC
place : TaskRow → List TaskRow → List TaskRow
place r [] = r ∷ []
place r (s ∷ rs) = let rest = place r rs in if leb r.id s.id then r ∷ s ∷ rs else s ∷ rest

unfoldable pub order_by_id : List TaskRow → List TaskRow
unfolding place
order_by_id [] = []
order_by_id (r ∷ rs) = place r (order_by_id rs)

-- A row as List reports it.
unfoldable pub task_of : ℤ → TaskRow → Task
task_of now r = record {
  id = r.id;
  queue = r.queue;
  payload = r.payload;
  author = r.author;
  priority = r.priority;
  state = r.state;
  lease_agent =
      if same_state r.state claimed then elim r.lease_agent [ none ↦ [] | some a ↦ a ] else [];
  lease_expires_in_seconds =
      if same_state r.state claimed
      then elim r.lease_expires_at [ none ↦ pos 0 | some t ↦ secs_left t now ]
      else pos 0;
}

-- func (t *TaskManager) List
unfoldable pub list_tasks : ℤ → Bytes → M (List Task)
unfolding order_by_id
list_tasks now queue = do
  rows ← query (λ d. order_by_id (keep (λ r. eqs r.queue queue) d.tasks))
  pure (map (task_of now) rows)
