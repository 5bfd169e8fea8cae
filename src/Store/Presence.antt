-- ===== src/Store/Presence.antt =====
-- internal/store/presence.go: agents that register with a heartbeat, and the release of the locks of
-- those that stop.
pub mod Recovery
pub mod Keyed
use agentpeek.Common.{
  ℤ, pos, Bool, Option, none, some, List, [], ◌∷◌, map, if◌then◌else◌, Bytes, add64, le64, lt64,
}
use agentpeek.Sql.Table.{select, upsert, delete, select_where}
use agentpeek.Sql.Order.{order_by_key}
use agentpeek.Store.Db.{Db, AgentRow, Error, invalid_ttl}
use agentpeek.Store.Exec.{M, Out, ok, err, pure, fail, ◌>>=◌, ◌>>◌, query, exec, tx}
use agentpeek.Store.Locks.{secs_left}
use agentpeek.Store.Lock.{System, release_agent}
use agentpeek.Store.Locks.History.{world_of}

-- type AgentInfo
pub record AgentInfo : Type 0 where
  pub agent_id : Bytes
  pub expires_in_seconds : ℤ

abbrev pub set_agents : (List (Bytes × AgentRow) → List (Bytes × AgentRow)) → Db → Db
set_agents f d = record d { agents = f d.agents }

-- The row after the upsert of Register: a row that was there keeps its registered_at.
unfoldable pub registered : ℤ → ℤ → Option AgentRow → AgentRow
registered now ttl_seconds none = record { registered_at = now; expires_at = add64 now ttl_seconds }
registered now ttl_seconds (some row) = record row { expires_at = add64 now ttl_seconds }

-- func (p *PresenceManager) Register
unfoldable pub register : ℤ → Bytes → ℤ → M (Unit {0})
unfolding tx
register now agent_id ttl_seconds =
    if le64 ttl_seconds (pos 0)
    then fail invalid_ttl
    else tx (
        exec (λ d.
          set_agents (upsert agent_id (registered now ttl_seconds (select agent_id d.agents))) d))

-- DELETE FROM agents WHERE agent_id = ?
unfoldable pub forget : Bytes → M (Unit {0})
unfolding tx
forget agent_id = tx (exec (set_agents (delete agent_id)))

-- Runs an action of the database in the whole system.
abbrev pub on_world : {A : Type 0} → M A → System → Out A × System
on_world m s = let out = m s.world in (out, record s { world = world_of out })

forget_after : {A : Type 0} → Bytes → Out A → System → Out (Unit {0}) × System
forget_after agent_id (ok a w) s = on_world (forget agent_id) s
forget_after agent_id (err e w) s = (err e w, s)

-- func (p *PresenceManager) Unregister
unfoldable pub unregister : Bytes → System → Out (Unit {0}) × System
unfolding forget_after
unregister agent_id s = let r = release_agent agent_id s in forget_after agent_id r.0 r.1

-- func (p *PresenceManager) ListAgents
unfoldable pub list_agents : ℤ → M (List AgentInfo)
list_agents now = do
  rows ← query (λ d. order_by_key (select_where (λ _ row. lt64 now row.expires_at) d.agents))
  pure
      (map (λ r. record { agent_id = r.0; expires_in_seconds = secs_left r.1.expires_at now }) rows)

-- The first query of reapOnce.
unfoldable pub expired_agents : ℤ → M (List Bytes)
expired_agents now =
    query (λ d. map (λ r. r.0) (select_where (λ _ row. le64 row.expires_at now) d.agents))

-- The body of its loop: errors are passed over.
unfoldable pub reap_agent : Bytes → System → System
reap_agent agent_id s = (on_world (forget agent_id) (release_agent agent_id s).1).1

reap_list : List Bytes → System → System
reap_list [] s = s
reap_list (a ∷ rest) s = reap_list rest (reap_agent a s)

reap_found : Out (List Bytes) → System → System
unfolding reap_list
reap_found (ok expired w) s = reap_list expired s
reap_found (err e w) s = s

-- func (p *PresenceManager) reapOnce
unfoldable pub reap_presence : ℤ → System → System
unfolding reap_found
reap_presence now s = let r = on_world (expired_agents now) s in reap_found r.0 r.1
