-- ===== src/Store/Locks/Renew.antt =====
-- What Renew and RenewByAgent do to the table.
use agentpeek.Common.{
  ℤ, pos, ◌≡◌, not, ◌||◌, Option, none, some, arith, if◌then◌else◌, Bytes, eqs, le64, add64, [],
}
use mathlib.Core.Option
use agentpeek.Sql.Table.{select, select-update}
use agentpeek.Store.Db.{LockRow, Error, invalid_ttl, not_found, not_owned}
use agentpeek.Store.Exec.{World, ok, err, Quiet, quiet4}
use agentpeek.Store.Locks.{LockResult, granted, set_expiry, renew, renew_by_agent}
use agentpeek.Store.Locks.Holder.{holder}

-- Why a renewal is refused: a bad TTL, no live holder, or a live holder that shows another proof
-- of ownership, `proof`, than the one given.
abbrev pub refusal : (LockRow → Bytes) → Bytes → ℤ → Option LockRow → Option Error
refusal proof key ttl none = if le64 ttl (pos 0) then some invalid_ttl else some not_found
refusal proof key ttl (some row) =
    if le64 ttl (pos 0)
    then some invalid_ttl
    else if eqs key [] || not (eqs key (proof row))
    then some not_owned
    else none

module _ (now : ℤ) (name key : Bytes) (ttl : ℤ) (w : World) where
  -- Where Renew answers, there was nothing to refuse (a positive lifetime, a live holder, and its
  -- token); it moves the expiry of that row to now plus the lifetime, and changes no other row.
  pub renew-granted :
      (res : LockResult) {w' : World} (j : Bytes)
      → renew now name key ttl w ≡ ok res w'
      → (refusal (λ row. row.lock_token) key ttl (holder now name w.db.locks) ≡ none)
        × (res ≡ granted key ttl)
        × (select j w'.db.locks ≡ (
            if eqs name j
            then Option.map (set_expiry (add64 now ttl)) (select j w.db.locks)
            else select j w.db.locks))
  unfolding renew
  renew-granted res j e =
      ground (arith, select-update name j (set_expiry (add64 now ttl)) w.db.locks)

  -- Where the driver refuses nothing and Renew fails, its error is the one that `refusal` gives for
  -- the lifetime, the live holder and the token, and no table has changed.
  pub renew_refused :
      Quiet w
      → (e : Error) {w' : World} → renew now name key ttl w ≡ err e w'
      → (refusal (λ row. row.lock_token) key ttl (holder now name w.db.locks) ≡ some e)
        × (w'.db ≡ w.db)
  unfolding renew
  renew_refused q e h = ground (arith, quiet4 w q)

  pub renew_by_agent-granted :
      (res : LockResult) {w' : World} (j : Bytes)
      → renew_by_agent now name key ttl w ≡ ok res w'
      → (refusal (λ row. row.agent_id) key ttl (holder now name w.db.locks) ≡ none)
        × (res ≡ granted [] ttl)
        × (select j w'.db.locks ≡ (
            if eqs name j
            then Option.map (set_expiry (add64 now ttl)) (select j w.db.locks)
            else select j w.db.locks))
  unfolding renew_by_agent
  renew_by_agent-granted res j e =
      ground (arith, select-update name j (set_expiry (add64 now ttl)) w.db.locks)

  pub renew_by_agent_refused :
      Quiet w
      → (e : Error) {w' : World} → renew_by_agent now name key ttl w ≡ err e w'
      → (refusal (λ row. row.agent_id) key ttl (holder now name w.db.locks) ≡ some e)
        × (w'.db ≡ w.db)
  unfolding renew_by_agent
  renew_by_agent_refused q e h = ground (arith, quiet4 w q)

  pub renew_atomic : {e : Error} {w' : World} → renew now name key ttl w ≡ err e w' → w'.db ≡ w.db
  unfolding renew
  renew_atomic h = ground arith

  pub renew_by_agent_atomic :
      {e : Error} {w' : World} → renew_by_agent now name key ttl w ≡ err e w' → w'.db ≡ w.db
  unfolding renew_by_agent
  renew_by_agent_atomic h = ground arith
