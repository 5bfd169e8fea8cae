-- ===== src/Store/Locks/Many/Keyed.antt =====
-- LockMany keeps the keys of every table.
use agentpeek.Common.{ℤ, false, Option, none, some, List, [], ◌∷◌, Bytes, lt64, le64}
use agentpeek.Sql.Table.{upsert, upsert-Unique}
use agentpeek.Store.Db.{LockRow, invalid_ttl, abort_batch}
use agentpeek.Store.Exec.{Out, ok, err, query, exec, tx}
use agentpeek.Store.Locks.Many.{
  ManyResult, check_row, check_free, acquire_all, aborted, many_result, batch, dedupe_sorted,
  lock_many,
}
use agentpeek.Store.Locks.History.{world_of}
use agentpeek.Store.Keyed.{
  IsKeyed, Keeps, pure-Keeps, fail-Keeps, bind-Keeps, query-Keeps, exec-Keeps, new_token-Keeps,
  tx-Keeps, if-Keeps, set_locks-Keyed,
}

check_row-Keeps : (now : ℤ) (found : Option LockRow) → Keeps (check_row now found)
unfolding check_row
check_row-Keeps now none = pure-Keeps tt
check_row-Keeps now (some row) =
    if-Keeps (lt64 now row.expires_at) _ _ (fail-Keeps (Unit {0}) (abort_batch row.agent_id))
      (pure-Keeps tt)

check_free-Keeps : (now : ℤ) (names : List Bytes) → Keeps (check_free now names)
unfolding check_free
check_free-Keeps now [] = pure-Keeps tt
check_free-Keeps now (n ∷ ns) = bind-Keeps (query _) _ (query-Keeps _) (λ found.
    bind-Keeps (check_row now found) _ (check_row-Keeps now found) (λ u. check_free-Keeps now ns))

acquire_all-Keeps :
    (now : ℤ) (agent_id : Bytes) (ttl : ℤ) (names : List Bytes) (result : List (Bytes × Bytes))
    → Keeps (acquire_all now agent_id ttl names result)
unfolding acquire_all
acquire_all-Keeps now agent_id ttl [] result = pure-Keeps result
acquire_all-Keeps now agent_id ttl (n ∷ ns) result = bind-Keeps _ _ new_token-Keeps (λ tok.
    bind-Keeps (exec _) _ (exec-Keeps _ (set_locks-Keyed _ (upsert-Unique n _)))
      (λ u. acquire_all-Keeps now agent_id ttl ns (upsert n tok result)))

batch-Keeps :
    (now : ℤ) (agent_id : Bytes) (ttl : ℤ) (names : List Bytes)
    → Keeps (batch now agent_id ttl names)
unfolding batch
batch-Keeps now agent_id ttl names =
    bind-Keeps _ _ (check_free-Keeps now names) (λ u. acquire_all-Keeps now agent_id ttl names [])

many_out :
    (o : Out (List (Bytes × Bytes)))
    → IsKeyed (world_of o).db
    → IsKeyed (world_of (many_result o)).db
unfolding many_result
many_out (ok tokens w) k = k
many_out (err e w) k = split (aborted e)
  where
    split :
        (a : Option Bytes)
        → IsKeyed
            (world_of {A = ManyResult} (elim a [
              | some held_by ↦ ok (record { acquired = false; tokens = []; held_by = held_by }) w
              | none ↦ err e w
            ])).db
    split (some held_by) = k
    split none = k

pub lock_many-Keeps :
    (now : ℤ) (names : List Bytes) (agent_id : Bytes) (ttl : ℤ)
    → Keeps (lock_many now names agent_id ttl)
unfolding lock_many
lock_many-Keeps now [] agent_id ttl =
    if-Keeps (le64 ttl _) _ _ (fail-Keeps ManyResult invalid_ttl) (pure-Keeps _)
lock_many-Keeps now (n ∷ ns) agent_id ttl =
    if-Keeps (le64 ttl _) _ _ (fail-Keeps ManyResult invalid_ttl) (record {
      keeps = λ w k.
          many_out (tx (batch now agent_id ttl (dedupe_sorted (n ∷ ns))) w)
            ((tx-Keeps _ (batch-Keeps now agent_id ttl (dedupe_sorted (n ∷ ns)))).keeps w k);
    })
