-- ===== src/Store/Presence/Recovery.antt =====
-- Locks and registrations of agents that leave.
use agentpeek.Common.{
  ℤ, pos, ◌≡◌, refl, false, Option, none, some, List, arith, if◌then◌else◌, Bytes, eqs, eqs_refl,
  le64,
}
use agentpeek.Sql.Table.{select, Unique, select-upsert, select-delete}
use agentpeek.Store.Db.{LockRow}
use agentpeek.Store.Exec.{World, Out, ok, err, Quiet, quiet4}
use agentpeek.Store.Locks.{release_agent_locks}
use agentpeek.Store.Locks.Release.{release_agent_locks_lem}
use agentpeek.Store.Locks.History.{world_of}
use agentpeek.Store.Lock.{System, release_agent}
use agentpeek.Store.Presence.{registered, register, forget, unregister, reap_agent}

-- A Register that succeeds had a positive lifetime; it adds the agent's row or moves its expiry,
-- keeps the time of an earlier registration, and keeps every other agent's row.
pub register_lem :
    (now : ℤ) (agent_id : Bytes) (ttl : ℤ) (j : Bytes) (w : World) {w' : World}
    → register now agent_id ttl w ≡ ok tt w'
    → (le64 ttl (pos 0) ≡ false)
      × (select j w'.db.agents ≡ (
          if eqs agent_id j
          then some (registered now ttl (select agent_id w.db.agents))
          else select j w.db.agents))
unfolding register
register_lem now agent_id ttl j w h =
    ground (
      arith,
      select-upsert agent_id j (registered now ttl (select agent_id w.db.agents)) w.db.agents,
    )

-- Not held by the agent.
abbrev pub Released : Bytes → Option LockRow → Type 0
Released agent_id none = Unit
Released agent_id (some row) = eqs row.agent_id agent_id ≡ false

Released-row :
    (agent_id : Bytes) (o : Option LockRow)
    → Released agent_id
        (elim o [ none ↦ none | some row ↦ if eqs row.agent_id agent_id then none else some row ])
Released-row agent_id none = tt
Released-row agent_id (some row) = ground arith

-- Where names are distinct and Unregister succeeds, no lock's row is the agent's any more, and the
-- agent is not registered.
pub unregister_lem :
    (agent_id j : Bytes) (s : System) {w' : World} {s' : System}
    → Unique s.world.db.locks
    → unregister agent_id s ≡ (ok tt w', s')
    → Released agent_id (select j s'.world.db.locks) × (select agent_id s'.world.db.agents ≡ none)
unfolding unregister release_agent forget
unregister_lem agent_id j s {w'} {s'} u h = split (release_agent_locks agent_id s.world) refl
  where
    split :
        (o : Out (List Bytes))
        → release_agent_locks agent_id s.world ≡ o
        → Released agent_id (select j s'.world.db.locks)
          × (select agent_id s'.world.db.agents ≡ none)
    split (err e w) o = absurd (ground arith)
    split (ok freed w) o =
        let r = (release_agent_locks_lem agent_id s.world u freed j o).1 in
        let same : select j s'.world.db.locks ≡ select j w.db.locks = ground arith in
        (
          rw (same, r) (Released-row agent_id (select j s.world.db.locks)),
          ground (arith, select-delete agent_id agent_id w.db.agents, eqs_refl agent_id),
        )

release_agent_locks-fault :
    (agent_id : Bytes) (w : World) → (world_of (release_agent_locks agent_id w)).fault ≡ w.fault
unfolding release_agent_locks
release_agent_locks-fault agent_id w = ground arith

forget-Quiet :
    (agent_id : Bytes) (w : World)
    → Quiet w
    → select agent_id (world_of (forget agent_id w)).db.agents ≡ none
unfolding forget
forget-Quiet agent_id w q =
    ground (arith, quiet4 w q, select-delete agent_id agent_id w.db.agents, eqs_refl agent_id)

-- The step of the reaper for an agent removes its registration even if a Register of the agent has
-- succeeded just before it, after the reaper's query, where the driver refuses nothing.
pub reap_agent_forgets :
    (now : ℤ) (agent_id : Bytes) (ttl : ℤ) (s : System) {w' : World}
    → register now agent_id ttl s.world ≡ ok tt w'
    → Quiet w'
    → select agent_id (reap_agent agent_id (record s { world = w' })).world.db.agents ≡ none
unfolding reap_agent release_agent forget
reap_agent_forgets now agent_id ttl s {w'} h q =
    forget-Quiet agent_id (world_of (release_agent_locks agent_id w'))
      (λ n. rw (release_agent_locks-fault agent_id w') (q n))
