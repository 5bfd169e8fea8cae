-- ===== src/Store/Presence/Keyed.antt =====
-- The calls on agents keep the keys of every table.
use agentpeek.Common.{ℤ, List, [], ◌∷◌, Bytes, le64}
use agentpeek.Sql.Table.{upsert-Unique, delete-Unique}
use agentpeek.Store.Db.{invalid_ttl}
use agentpeek.Store.Exec.{Out, ok, err, query}
use agentpeek.Store.Locks.Keyed.{release_agent_locks-Keeps}
use agentpeek.Store.Lock.{System, release_agent}
use agentpeek.Store.Presence.{
  register, forget, on_world, forget_after, unregister, list_agents, expired_agents, reap_agent,
  reap_list, reap_found, reap_presence,
}
use agentpeek.Store.Keyed.{
  IsKeyed, Keeps, pure-Keeps, fail-Keeps, bind-Keeps, query-Keeps, exec-Keeps, tx-Keeps, if-Keeps,
  set_agents-Keyed,
}

pub register-Keeps : (now : ℤ) (agent_id : Bytes) (ttl : ℤ) → Keeps (register now agent_id ttl)
unfolding register
register-Keeps now agent_id ttl =
    if-Keeps (le64 ttl _) _ _ (fail-Keeps (Unit {0}) invalid_ttl)
      (tx-Keeps _ (exec-Keeps _ (λ d k. set_agents-Keyed _ (upsert-Unique agent_id _) d k)))

forget-Keeps : (agent_id : Bytes) → Keeps (forget agent_id)
unfolding forget
forget-Keeps agent_id = tx-Keeps _ (exec-Keeps _ (set_agents-Keyed _ (delete-Unique agent_id)))

pub list_agents-Keeps : (now : ℤ) → Keeps (list_agents now)
unfolding list_agents
list_agents-Keeps now = bind-Keeps (query _) _ (query-Keeps _) (λ rows. pure-Keeps _)

pub release_agent-Keyed :
    (agent_id : Bytes) (s : System)
    → IsKeyed s.world.db
    → IsKeyed (release_agent agent_id s).1.world.db
unfolding release_agent
release_agent-Keyed agent_id s k = (release_agent_locks-Keeps agent_id).keeps s.world k

forget_after-Keyed :
    {A : Type 0} (agent_id : Bytes) (o : Out A) (s : System)
    → IsKeyed s.world.db
    → IsKeyed (forget_after agent_id o s).1.world.db
unfolding forget_after
forget_after-Keyed agent_id (ok a w) s k = (forget-Keeps agent_id).keeps s.world k
forget_after-Keyed agent_id (err e w) s k = k

pub unregister-Keyed :
    (agent_id : Bytes) (s : System)
    → IsKeyed s.world.db
    → IsKeyed (unregister agent_id s).1.world.db
unfolding unregister
unregister-Keyed agent_id s k =
    let r = release_agent agent_id s in
    forget_after-Keyed agent_id r.0 r.1 (release_agent-Keyed agent_id s k)

reap_agent-Keyed :
    (agent_id : Bytes) (s : System) → IsKeyed s.world.db → IsKeyed (reap_agent agent_id s).world.db
unfolding reap_agent
reap_agent-Keyed agent_id s k =
    (forget-Keeps agent_id).keeps (release_agent agent_id s).1.world
      (release_agent-Keyed agent_id s k)

reap_list-Keyed :
    (agents : List Bytes) (s : System) → IsKeyed s.world.db → IsKeyed (reap_list agents s).world.db
unfolding reap_list
reap_list-Keyed [] s k = k
reap_list-Keyed (a ∷ rest) s k = reap_list-Keyed rest (reap_agent a s) (reap_agent-Keyed a s k)

reap_found-Keyed :
    (o : Out (List Bytes)) (s : System) → IsKeyed s.world.db → IsKeyed (reap_found o s).world.db
unfolding reap_found
reap_found-Keyed (ok expired w) s k = reap_list-Keyed expired s k
reap_found-Keyed (err e w) s k = k

expired_agents-Keeps : (now : ℤ) → Keeps (expired_agents now)
unfolding expired_agents
expired_agents-Keeps now = query-Keeps _

pub reap_presence-Keyed :
    (now : ℤ) (s : System) → IsKeyed s.world.db → IsKeyed (reap_presence now s).world.db
unfolding reap_presence
reap_presence-Keyed now s k =
    let r = on_world (expired_agents now) s in
    reap_found-Keyed r.0 r.1 ((expired_agents-Keeps now).keeps s.world k)
