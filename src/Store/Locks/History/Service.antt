-- ===== src/Store/Locks/History/Service.antt =====
-- The lock service as its clients see it: at a time, which live holder each name has.
use agentpeek.Common.{
  ℤ, ◌≡◌, ◌⊎◌, true, false, not, Option, none, some, List, if◌then◌else◌, Bytes, eqs, add64,
}
use agentpeek.Sql.Table.{select, pass}
use agentpeek.Store.Db.{Db, LockRow}
use agentpeek.Store.Exec.{World}
use agentpeek.Store.Locks.{new_row, set_expiry}
use agentpeek.Store.Locks.Holder.{holder, is_live}
use agentpeek.Store.Locks.Release.{Shows}
use agentpeek.Store.Locks.Many.Names.{contains}
use agentpeek.Store.Locks.History.{
  Call, acquires, unlocks, renews, renews_by_agent, locks_many, releases_agent, reaps,
}

-- Who holds each name.
abbrev pub Service : Type 0
Service = Bytes → Option LockRow

-- What the tables say at a time.
abbrev pub view : ℤ → Db → Service
view now d j = holder now j d.locks

abbrev Same : Service → Service → Type 0
Same v v' = (j : Bytes) → v' j ≡ v j

-- A row that is written at a time, if it is not born expired.
abbrev born : ℤ → LockRow → Option LockRow
born now row = pass (is_live now) (some row)

-- Renewal of one name, for who shows the proof.
abbrev Renewed : ℤ → (LockRow → Bytes) → Bytes → Bytes → ℤ → Service → Service → Type 0
Renewed now proof n key ttl v v' =
    (row : LockRow) × (v n ≡ some row)
    × (key ≡ proof row)
    × ((j : Bytes) → v' j ≡ (if eqs n j then born now (set_expiry (add64 now ttl) row) else v j))

-- What a call may do to the service.
abbrev pub May : ℤ → Call → Service → Service → Type 0
May now (acquires _ n agent_id ttl) v v' =
    (v n ≡ none)
    × (token : Bytes) × ((j : Bytes)
        → v' j ≡ (if eqs n j then born now (new_row now agent_id ttl token) else v j))
May now (unlocks n token agent_id) v v' =
    (row : LockRow) × (v n ≡ some row)
    × Shows token agent_id row
    × ((j : Bytes) → v' j ≡ (if eqs n j then none else v j))
May now (renews _ n token ttl) v v' = Renewed now (λ row. row.lock_token) n token ttl v v'
May now (renews_by_agent _ n agent_id ttl) v v' =
    Renewed now (λ row. row.agent_id) n agent_id ttl v v'
May now (locks_many _ ns agent_id ttl) v v' =
    (tokens : List (Bytes × Bytes)) × ((j : Bytes)
      → (contains j ns ≡ true
          → (v j ≡ none)
            × (token : Bytes) × (select j tokens ≡ some token)
            × (v' j ≡ born now (new_row now agent_id ttl token)))
        × (contains j ns ≡ false → v' j ≡ v j))
May now (releases_agent agent_id) v v' =
    (j : Bytes) → v' j ≡ pass (λ row. not (eqs row.agent_id agent_id)) (v j)
May now (reaps _) v v' = Same v v'

-- The call reads the clock at this time, if it reads it.
abbrev pub At : ℤ → Call → Type 0
At now (acquires t n agent_id ttl) = t ≡ now
At now (unlocks n token agent_id) = Unit
At now (renews t n token ttl) = t ≡ now
At now (renews_by_agent t n agent_id ttl) = t ≡ now
At now (locks_many t ns agent_id ttl) = t ≡ now
At now (releases_agent agent_id) = Unit
At now (reaps t) = t ≡ now

module _ (now : ℤ) (w : World) where
  abbrev pub Refined : Call → Db → Type 0
  Refined c d = Same (view now w.db) (view now d) ⊎ May now c (view now w.db) (view now d)
