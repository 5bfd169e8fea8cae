-- ===== src/Mcp/Daemon.antt =====
-- type toolHandler of internal/mcp/tools.go: the managers over one database, and the calls on them.
use agentpeek.Common.{ℕ, ℤ, Bool, List, [], ◌∷◌, ◌++◌, Bytes, str}
use agentpeek.Store.Db.{
  Error, invalid_ttl, not_owned, not_found, unique_constraint, abort_batch, sql, rand, begin_tx,
  commit_tx,
}
use agentpeek.Store.Exec.{M, Out, ok, err}
use agentpeek.Store.Locks.History.{world_of}
use agentpeek.Store.Lock.{System, Request}
use agentpeek.Store.Queues.{Waiter}
use agentpeek.Store.Events.{Events}
use agentpeek.Mcp.Json.{Json, text, map_of, Runtime}

-- The managers: `system` is the LockManager, which PresenceManager shares, over the database; the
-- rest is the EventManager. The TaskManager and the Store have no state but the database.
pub record Daemon : Type 0 where
  pub system : System
  pub chans : List (Bytes × ℕ)
  pub closed : ℕ → Bool
  pub next_chan : ℕ

-- The EventManager, and the managers after it has run.
abbrev pub events_of : Daemon → Events
events_of d = record {
  world = d.system.world;
  chans = d.chans;
  closed = d.closed;
  next_chan = d.next_chan;
}

abbrev pub with_events : Daemon → Events → Daemon
with_events d e = record {
  system = record (d.system) { world = e.world };
  chans = e.chans;
  closed = e.closed;
  next_chan = e.next_chan;
}

-- An action of the store, of the locks, or of the events.
abbrev pub on_store : {A : Type 0} → M A → Daemon → Out A × Daemon
on_store m d =
    let out = m d.system.world in
    (out, record d { system = record (d.system) { world = world_of out } })

abbrev pub on_system : {A : Type 0} → (System → A × System) → Daemon → A × Daemon
on_system f d = let r = f d.system in (r.0, record d { system = r.1 })

abbrev pub on_events : {A : Type 0} → (Events → A × Events) → Daemon → A × Daemon
on_events f d = let r = f (events_of d) in (r.0, with_events d r.1)

-- Where a tool call stands: it has its result, or has panicked, or is at the top of Lock's loop, in
-- Lock's select, or in Wait's.
pub data Progress : Type 0 where
  replied : Json → Progress
  crashed : Progress
  looping : Request → Waiter → Progress
  parked : Request → Waiter → Progress
  awaiting : Bytes → ℤ → ℤ → ℕ → ℤ → Progress

-- err.Error()
unfoldable pub error_text : Runtime → Error → Bytes
error_text rt invalid_ttl = str "store: ttlSeconds must be > 0"
error_text rt not_owned = str "store: lock not owned by supplied token"
error_text rt not_found = str "store: lock not found"
error_text rt unique_constraint = rt.constraint_text
error_text rt (abort_batch held_by) = str "store: lockmany batch aborted (name held)"
error_text rt (sql t) = t
error_text rt (rand t) = t
error_text rt (begin_tx e) = str "store: begin tx: " ++ error_text rt e
error_text rt (commit_tx e) = str "store: commit tx: " ++ error_text rt e

-- func errMissing
unfoldable pub err_missing : Bytes → Json
err_missing field = map_of ((str "error", text (str "missing " ++ field)) ∷ [])

-- func errResult
unfoldable pub err_result : Runtime → Error → Json
err_result rt e = map_of ((str "error", text (error_text rt e)) ∷ [])

-- Returns errMissing, and does nothing.
abbrev pub missing : Bytes → Daemon → Progress × Daemon
missing field d = (replied (err_missing field), d)

abbrev pub result_of : {A : Type 0} → Runtime → (A → Json) → Out A → Json
result_of rt f (ok a w) = f a
result_of rt f (err e w) = err_result rt e

-- Returns errResult of an error, and else the result.
abbrev pub respond : {A : Type 0} → Runtime → (A → Json) → Out A × Daemon → Progress × Daemon
respond rt f r = (replied (result_of rt f r.0), r.1)
