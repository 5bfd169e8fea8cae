-- ===== src/Mcp/Tools/Tasks/Keyed.antt =====
-- The task tools keep the keys of every table.
use agentpeek.Common.{ℤ, pos, negsuc, refl, Bool, true, false, [], Bytes, str, eqs}
use agentpeek.Sql.Table.{select}
use agentpeek.Store.Keyed.{IsKeyed, Keeps, pure-Keeps, tx-Keeps, if-Keeps}
use agentpeek.Store.Tasks.Keyed.{
  exec_changed-Keeps, push-Keeps, claim_next-Keeps, complete-Keeps, fail_task-Keeps,
  list_tasks-Keeps,
}
use agentpeek.Mcp.Json.{Arguments, Runtime}
use agentpeek.Mcp.Arguments.{default_task_lease_seconds, arg_str, arg_int, arg_bool, arg_id}
use agentpeek.Mcp.Daemon.{Daemon}
use agentpeek.Mcp.Tools.Tasks.{
  push_task, claim_next_task, complete_task, release_task, list_queue, no_such_task, complete_id,
  fail_id,
}
use agentpeek.Mcp.Tools.Guards.{IsKeyedAfter, guarded, present}

no_such_task-Keeps : Keeps no_such_task
unfolding no_such_task
no_such_task-Keeps = tx-Keeps _ (exec_changed-Keeps (λ _. false) (λ r. r) (λ r. refl))

complete_id-Keeps : (id : ℤ) (token : Bytes) → Keeps (complete_id id token)
unfolding complete_id
complete_id-Keeps (pos id) token = complete-Keeps id token
complete_id-Keeps (negsuc n) token =
    if-Keeps (eqs token []) _ _ (pure-Keeps false) no_such_task-Keeps

fail_id-Keeps : (id : ℤ) (token : Bytes) (requeue : Bool) → Keeps (fail_id id token requeue)
unfolding fail_id
fail_id-Keeps (pos id) token requeue = fail_task-Keeps id token requeue
fail_id-Keeps (negsuc n) token requeue =
    if-Keeps (eqs token []) _ _ (pure-Keeps false) no_such_task-Keeps

pub push_task-Keyed :
    (rt : Runtime) (now : ℤ) (args : Arguments) (d : Daemon)
    → IsKeyed d.system.world.db
    → IsKeyedAfter (push_task rt now args d)
unfolding push_task
push_task-Keyed rt now args d k =
    (guarded (eqs (arg_str args (str "queue")) []) _ _ (record { after = k })
      (present (select (str "payload") args) _ _ (record { after = k })
        (λ v. (record {
          after =
              (push-Keeps now (arg_str args (str "queue")) (arg_str args (str "payload"))
                  (arg_str args (str "author")) (arg_int rt args (str "priority") (pos 0))).keeps
                d.system.world k;
        }))))

pub claim_next_task-Keyed :
    (rt : Runtime) (now : ℤ) (args : Arguments) (d : Daemon)
    → IsKeyed d.system.world.db
    → IsKeyedAfter (claim_next_task rt now args d)
unfolding claim_next_task
claim_next_task-Keyed rt now args d k =
    (guarded (eqs (arg_str args (str "queue")) []) _ _ (record { after = k })
      (guarded (eqs (arg_str args (str "agent_id")) []) _ _ (record { after = k })
        (record {
          after =
              (claim_next-Keeps now (arg_str args (str "queue")) (arg_str args (str "agent_id"))
                  (arg_int rt args (str "lease_seconds") default_task_lease_seconds)).keeps
                d.system.world k;
        })))

pub complete_task-Keyed :
    (rt : Runtime) (args : Arguments) (d : Daemon)
    → IsKeyed d.system.world.db
    → IsKeyedAfter (complete_task rt args d)
unfolding complete_task
complete_task-Keyed rt args d k =
    present (arg_id rt args) _ _ (record { after = k })
      (λ id.
        (guarded (eqs (arg_str args (str "lease_token")) []) _ _ (record { after = k })
          (record {
            after =
                (complete_id-Keeps id (arg_str args (str "lease_token"))).keeps d.system.world k;
          })))

pub release_task-Keyed :
    (rt : Runtime) (args : Arguments) (d : Daemon)
    → IsKeyed d.system.world.db
    → IsKeyedAfter (release_task rt args d)
unfolding release_task
release_task-Keyed rt args d k =
    present (arg_id rt args) _ _ (record { after = k })
      (λ id.
        (guarded (eqs (arg_str args (str "lease_token")) []) _ _ (record { after = k })
          (record {
            after =
                (fail_id-Keeps id (arg_str args (str "lease_token"))
                    (arg_bool args (str "requeue") true)).keeps
                  d.system.world k;
          })))

pub list_queue-Keyed :
    (rt : Runtime) (now : ℤ) (args : Arguments) (d : Daemon)
    → IsKeyed d.system.world.db
    → IsKeyedAfter (list_queue rt now args d)
unfolding list_queue
list_queue-Keyed rt now args d k =
    (guarded (eqs (arg_str args (str "queue")) []) _ _ (record { after = k })
      (record {
        after = (list_tasks-Keeps now (arg_str args (str "queue"))).keeps d.system.world k;
      }))
