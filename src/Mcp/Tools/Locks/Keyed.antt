-- ===== src/Mcp/Tools/Locks/Keyed.antt =====
-- The lock tools keep the keys of every table.
use agentpeek.Common.{ℤ, not, [], ◌∷◌, str, eqs}
use agentpeek.Store.Keyed.{IsKeyed}
use agentpeek.Store.Locks.Keyed.{renew-Keeps, renew_by_agent-Keeps}
use agentpeek.Store.Locks.Many.Keyed.{lock_many-Keeps}
use agentpeek.Store.Lock.Keyed.{lock_begin-Keyed, unlock_call-Keyed}
use agentpeek.Mcp.Json.{Arguments, Runtime}
use agentpeek.Mcp.Arguments.{default_lock_ttl_seconds, arg_str, arg_str_slice, ttl_seconds}
use agentpeek.Mcp.Daemon.{Daemon}
use agentpeek.Mcp.Tools.Locks.{
  lock_resource, unlock_resource, renew_lock, lock_resources, lock_request,
}
use agentpeek.Mcp.Tools.Guards.{IsKeyedAfter, guarded, locks_taken}

pub lock_resource-Keyed :
    (rt : Runtime) (now later : ℤ) (args : Arguments) (d : Daemon)
    → IsKeyed d.system.world.db
    → IsKeyedAfter (lock_resource rt now later args d)
unfolding lock_resource
lock_resource-Keyed rt now later args d k =
    (guarded (eqs (arg_str args (str "name")) []) _ _ (record { after = k })
      (guarded (eqs (arg_str args (str "agent_id")) []) _ _ (record { after = k })
        (record { after = lock_begin-Keyed now later (lock_request rt args) d.system k })))

pub unlock_resource-Keyed :
    (rt : Runtime) (args : Arguments) (d : Daemon)
    → IsKeyed d.system.world.db
    → IsKeyedAfter (unlock_resource rt args d)
unfolding unlock_resource
unlock_resource-Keyed rt args d k =
    (guarded (eqs (arg_str args (str "name")) []) _ _ (record { after = k })
      (record {
        after =
            unlock_call-Keyed (arg_str args (str "name")) (arg_str args (str "lock_token"))
              (arg_str args (str "agent_id")) d.system k;
      }))

pub renew_lock-Keyed :
    (rt : Runtime) (now : ℤ) (args : Arguments) (d : Daemon)
    → IsKeyed d.system.world.db
    → IsKeyedAfter (renew_lock rt now args d)
unfolding renew_lock
renew_lock-Keyed rt now args d k =
    let name = arg_str args (str "name") in
    let ttl = ttl_seconds rt args default_lock_ttl_seconds in
    (guarded (eqs name []) _ _ (record { after = k })
      (guarded (not (eqs (arg_str args (str "lock_token")) [])) _ _
        (record {
          after =
              (renew-Keeps now name (arg_str args (str "lock_token")) ttl).keeps d.system.world k;
        })
        (guarded (eqs (arg_str args (str "agent_id")) []) _ _ (record { after = k })
          (record {
            after =
                (renew_by_agent-Keeps now name (arg_str args (str "agent_id")) ttl).keeps
                  d.system.world k;
          }))))

pub lock_resources-Keyed :
    (rt : Runtime) (now : ℤ) (args : Arguments) (d : Daemon)
    → IsKeyed d.system.world.db
    → IsKeyedAfter (lock_resources rt now args d)
unfolding lock_resources
lock_resources-Keyed rt now args d k =
    locks_taken (arg_str_slice args (str "names")) _ _ (record { after = k })
      (λ n ns.
        (guarded (eqs (arg_str args (str "agent_id")) []) _ _ (record { after = k })
          (record {
            after =
                (lock_many-Keeps now (n ∷ ns) (arg_str args (str "agent_id"))
                    (ttl_seconds rt args default_lock_ttl_seconds)).keeps
                  d.system.world k;
          })))
