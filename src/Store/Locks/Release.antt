-- ===== src/Store/Locks/Release.antt =====
-- What Unlock and ReleaseAgentLocks do to the table.
use agentpeek.Common.{
  ◌≡◌, refl, sym, ◌∙◌, subst, ◌≢◌, ◌⊎◌, ◌↔◌, true, [], Bool, false, ◌&&◌, Option, none, some, arith,
  if◌then◌else◌, Bytes, eqs, eqs_iff, List, map,
}
use agentpeek.Sql.Table.{
  select, select-delete, select-delete_where, select-select_where, select-nil, select_where, Unique,
}
use agentpeek.Store.Db.{LockRow, Error}
use agentpeek.Store.Exec.{World, ok, err, Quiet, quiet4, Answers}
use agentpeek.Store.Locks.{unlock, unlock_authorized, release_agent_locks}

-- Whether a request may release the row of a name, which may be absent.
abbrev pub may_release : Bytes → Bytes → Option LockRow → Bool
may_release token agent_id none = false
may_release token agent_id (some row) = unlock_authorized token agent_id row

-- The request shows a token, and it is the row's, or it shows no token, and its agent id is that of
-- the row and not empty.
abbrev pub Shows : Bytes → Bytes → LockRow → Type 0
Shows token agent_id row =
    ((token ≢ []) × (token ≡ row.lock_token))
    ⊎ ((token ≡ []) × (agent_id ≢ []) × (agent_id ≡ row.agent_id))

pub unlock_authorized-Shows :
    (token agent_id : Bytes) (row : LockRow)
    → (unlock_authorized token agent_id row ≡ true) ↔ Shows token agent_id row
unfolding unlock_authorized
unlock_authorized-Shows token agent_id row = ground (
  arith,
  eqs_iff token [],
  eqs_iff token row.lock_token,
  eqs_iff agent_id [],
  eqs_iff agent_id row.agent_id,
)

-- The name has a row, live or not, whose token or agent id the request shows.
abbrev pub MayRelease : Bytes → Bytes → Option LockRow → Type 0
MayRelease token agent_id found = (row : LockRow) × (found ≡ some row) × Shows token agent_id row

may_release-MayRelease :
    (token agent_id : Bytes) (found : Option LockRow)
    → (may_release token agent_id found ≡ true) ↔ MayRelease token agent_id found
may_release-MayRelease token agent_id none =
    (λ h. absurd (ground arith), λ (row, e, h). absurd (ground arith))
may_release-MayRelease token agent_id (some row) =
    let same = unlock_authorized-Shows token agent_id row in
    (λ h. (row, refl, same.0 h), λ (row', e, h). same.1 (same_row row' e h))
  where
    same_row :
        (row' : LockRow)
        → some row ≡ some row'
        → Shows token agent_id row'
        → Shows token agent_id row
    same_row row' e h = let e' : row' ≡ row = ground arith in subst (Shows token agent_id) e' h

module _ (name token agent_id : Bytes) (w : World) where
  pub unlock_decides :
      (released : Bool) {w' : World} (j : Bytes)
      → unlock name token agent_id w ≡ ok released w'
      → (released ≡ may_release token agent_id (select name w.db.locks))
        × (select j w'.db.locks ≡ (if released && eqs name j then none else select j w.db.locks))
  unfolding unlock
  unlock_decides released j e = ground (arith, eqs_iff name j, select-delete name j w.db.locks)

  -- Where Unlock answers, it reports a release exactly when the name has a row, live or not, and
  -- the request shows its token (not empty), or shows no token and a nonempty agent id that is the
  -- row's; it has then deleted that row and no other, and else nothing.
  pub unlock_lem :
      (released : Bool) {w' : World} (j : Bytes)
      → unlock name token agent_id w ≡ ok released w'
      → ((released ≡ true) ↔ MayRelease token agent_id (select name w.db.locks))
        × (select j w'.db.locks ≡ (if released && eqs name j then none else select j w.db.locks))
  unlock_lem released j e =
      let d = unlock_decides released j e in
      let same = may_release-MayRelease token agent_id (select name w.db.locks) in
      ((λ h. same.0 (sym d.0 ∙ h), λ h. d.0 ∙ same.1 h), d.1)

  pub unlock_atomic :
      {e : Error} {w' : World} → unlock name token agent_id w ≡ err e w' → w'.db ≡ w.db
  unfolding unlock
  unlock_atomic h = ground arith

  -- Without an error of the driver it answers.
  pub unlock_total : Quiet w → Answers (unlock name token agent_id w)
  unfolding unlock
  unlock_total q = ground (arith, quiet4 w q)

abbrev belongs : Bytes → Bytes → LockRow → Bool
belongs agent_id _ row = eqs row.agent_id agent_id

pub release_agent_locks_atomic :
    (agent_id : Bytes) (w : World) {e : Error} {w' : World}
    → release_agent_locks agent_id w ≡ err e w'
    → w'.db ≡ w.db
unfolding release_agent_locks
release_agent_locks_atomic agent_id w h = ground arith

module _ (agent_id : Bytes) (w : World) (u : Unique w.db.locks) where
  -- Where names are distinct and the transaction of ReleaseAgentLocks succeeds, it frees the names
  -- of the agent's rows, deletes those rows and keeps every other.
  pub release_agent_locks_lem :
      (freed : List Bytes) {w' : World} (j : Bytes)
      → release_agent_locks agent_id w ≡ ok freed w'
      → (freed ≡ map (λ r. r.0) (select_where (belongs agent_id) w.db.locks))
        × (select j w'.db.locks ≡ elim (select j w.db.locks) [
          | none ↦ none
          | some row ↦ if eqs row.agent_id agent_id then none else some row
        ])
  unfolding release_agent_locks
  release_agent_locks_lem freed j e = ground (
    arith,
    select-delete_where (belongs agent_id) j w.db.locks u,
    select-select_where (belongs agent_id) j w.db.locks u,
    select-nil {V = LockRow} j,
  )
