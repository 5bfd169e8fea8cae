-- ===== src/Store/Locks/Many.antt =====
-- LockMany of internal/store/locks.go, with dedupeSorted.
pub mod Names
pub mod Batch
pub mod Atomic
pub mod Keyed
use agentpeek.Common.{
  ℤ, pos, Bool, true, false, ◌||◌, not, Option, none, some, List, [], ◌∷◌, if◌then◌else◌, Bytes,
  eqs, les, le64, lt64, add64,
}
use agentpeek.Sql.Table.{select, upsert}
use agentpeek.Store.Db.{LockRow, Error, invalid_ttl, abort_batch}
use agentpeek.Store.Exec.{M, Out, ok, err, pure, fail, ◌>>=◌, ◌>>◌, query, exec, tx}
use agentpeek.Store.Random.{new_token}
use agentpeek.Store.Locks.{set_locks, new_row}

-- sort.Strings
insert_sorted : Bytes → List Bytes → List Bytes
insert_sorted n [] = n ∷ []
insert_sorted n (m ∷ ms) = let rest = insert_sorted n ms in if les n m then n ∷ m ∷ ms else m ∷ rest

sort : List Bytes → List Bytes
unfolding insert_sorted
sort [] = []
sort (n ∷ ns) = insert_sorted n (sort ns)

-- The loop of dedupeSorted, over its variables `first` and `last`.
dedupe : Bool → Bytes → List Bytes → List Bytes
dedupe first last [] = []
dedupe first last (n ∷ ns) = elim (first || not (eqs n last)) [
  | true ↦ n ∷ dedupe false n ns
  | false ↦ dedupe first last ns
]

-- func dedupeSorted(names []string) []string
unfoldable pub dedupe_sorted : List Bytes → List Bytes
unfolding sort dedupe
dedupe_sorted names = dedupe true [] (sort names)

-- Phase 1 on one row: a live holder aborts the batch, with its agent in `heldBy`.
check_row : ℤ → Option LockRow → M (Unit {0})
check_row now none = pure tt
check_row now (some row) =
    if lt64 now row.expires_at then fail (abort_batch row.agent_id) else pure tt

check_free : ℤ → List Bytes → M (Unit {0})
unfolding check_row
check_free now [] = pure tt
check_free now (n ∷ ns) = do
  found ← query (λ d. select n d.locks)
  check_row now found
  check_free now ns

-- Phase 2, with the map `result` so far.
acquire_all : ℤ → Bytes → ℤ → List Bytes → List (Bytes × Bytes) → M (List (Bytes × Bytes))
acquire_all now agent_id ttl_seconds [] result = pure result
acquire_all now agent_id ttl_seconds (n ∷ ns) result = do
  tok ← new_token
  exec (set_locks (upsert n (new_row now agent_id ttl_seconds tok)))
  acquire_all now agent_id ttl_seconds ns (upsert n tok result)

-- What LockMany returns: `acquired`, `tokens` by name, and `heldBy`.
pub record ManyResult : Type 0 where
  pub acquired : Bool
  pub tokens : List (Bytes × Bytes)
  pub held_by : Bytes

-- errors.Is(err, errAbortBatch)
abbrev pub aborted : Error → Option Bytes
aborted (abort_batch held_by) = some held_by
aborted _ = none

many_result : Out (List (Bytes × Bytes)) → Out ManyResult
many_result (ok tokens w) = ok (record { acquired = true; tokens = tokens; held_by = [] }) w
many_result (err e w) = elim (aborted e) [
  | some held_by ↦ ok (record { acquired = false; tokens = []; held_by = held_by }) w
  | none ↦ err e w
]

-- The closure that LockMany runs as a transaction.
pub batch : ℤ → Bytes → ℤ → List Bytes → M (List (Bytes × Bytes))
unfolding check_free acquire_all
batch now agent_id ttl_seconds sorted = do
  check_free now sorted
  acquire_all now agent_id ttl_seconds sorted []

-- func (m *LockManager) LockMany
unfoldable pub lock_many : ℤ → List Bytes → Bytes → ℤ → M ManyResult
unfolding dedupe_sorted batch many_result tx
lock_many now [] agent_id ttl_seconds =
    if le64 ttl_seconds (pos 0)
    then fail invalid_ttl
    else pure (record { acquired = true; tokens = []; held_by = [] })
lock_many now (n ∷ ns) agent_id ttl_seconds =
    if le64 ttl_seconds (pos 0)
    then fail invalid_ttl
    else (λ w. many_result (tx (batch now agent_id ttl_seconds (dedupe_sorted (n ∷ ns))) w))
