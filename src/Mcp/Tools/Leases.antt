-- ===== src/Mcp/Tools/Leases.antt =====
-- A lock that is taken and given back through the tools of internal/mcp/tools.go.
use agentpeek.Common.{
  ℤ, ◌≡◌, ◌≢◌, refl, sym, ap, subst, ◌∙◌, Bool, true, false, Option, none, some, [], ◌∷◌, arith,
  Bytes, str, eqs, eqs_iff, eqs_refl, if◌then◌else◌,
}
use agentpeek.Sql.Table.{select}
use agentpeek.Store.Db.{LockRow, Error}
use agentpeek.Store.Exec.{World, Quiet, Answers, Out, ok, err}
use agentpeek.Store.Locks.{LockResult, HolderInfo, new_row, try_acquire, unlock, unlock_authorized}
use agentpeek.Store.Locks.Release.{may_release, unlock_decides, unlock_total}
use agentpeek.Store.Lock.{
  System, unlock_call, Request, Phase, returned, failed, panicked, polling, blocked, lock_begin,
  join_line,
}
use agentpeek.Store.Lock.Calls.{Acquired-free}
use agentpeek.Mcp.Json.{
  Json, Fields, end_fields, field, object, boolean, text, map_of, Arguments, Runtime,
}
use agentpeek.Mcp.Arguments.{arg_str}
use agentpeek.Mcp.Daemon.{Daemon, replied, err_missing, err_result}
use agentpeek.Mcp.Tools.Locks.{
  lock_reply, lock_request, lock_progress, lock_resource, unlock_resource,
}

entry : Bytes → Fields → Option Json
entry key end_fields = none
entry key (field k v m) = if eqs k key then some v else entry key m

-- The value of a field of a result.
unfoldable pub member : Bytes → Json → Option Json
unfolding entry
member key (object m) = entry key m
member key _ = none

-- A call of Lock that joins a line has not returned.
join_line_waits :
    (now : ℤ) (r : Request) (s : System) {res : LockResult} {s' : System}
    → join_line now r s ≢ (returned res, s')
unfolding join_line
join_line_waits now r s h = ground arith

-- A call of Lock that returns at once with the lock has put its row into the table.
lock_begin_locked :
    (now later : ℤ) (r : Request) (s : System) (res : LockResult) {s' : System}
    → lock_begin now later r s ≡ (returned res, s')
    → res.locked ≡ true
    → select r.name s'.world.db.locks ≡ some (new_row now r.agent_id r.ttl_seconds res.lock_token)
unfolding lock_begin
lock_begin_locked now later r s res {s'} h locked =
    split (try_acquire now r.name r.agent_id r.ttl_seconds s.world) refl
  where
    split :
        (o : Out (LockResult × Bool × HolderInfo))
        → try_acquire now r.name r.agent_id r.ttl_seconds s.world ≡ o
        → select r.name s'.world.db.locks
          ≡ some (new_row now r.agent_id r.ttl_seconds res.lock_token)
    split (err e w') o = absurd (ground arith)
    split (ok (res', true, i) w') o =
        let a = Acquired-free now r s.world res' i r.name o in ground (arith, eqs_refl r.name)
    split (ok (res', false, i) w') o =
        absurd
          (ground (arith, join_line_waits later r (record s { world = w' }) {res = res} {s' = s'}))

lock_reply-locked :
    (res : LockResult)
    → member (str "locked") (lock_reply res) ≡ some (boolean true)
    → (res.locked ≡ true)
      × (member (str "lock_token") (lock_reply res) ≡ some (text res.lock_token))
unfolding lock_reply member eqs
lock_reply-locked res h = ground arith

missing-locked : (key : Bytes) → member (str "locked") (err_missing key) ≡ none
unfolding member err_missing eqs
missing-locked key = refl

error-locked : (rt : Runtime) (e : Error) → member (str "locked") (err_result rt e) ≡ none
unfolding member err_result eqs
error-locked rt e = refl

lock_resource_locked :
    (rt : Runtime) (now later : ℤ) (args : Arguments) (d : Daemon) (v : Json) {d' : Daemon}
    → lock_resource rt now later args d ≡ (replied v, d')
    → member (str "locked") v ≡ some (boolean true)
    → (res : LockResult) × (v ≡ lock_reply res)
      × (lock_begin now later (lock_request rt args) d.system ≡ (returned res, d'.system))
      × (arg_str args (str "name") ≢ [])
unfolding lock_resource lock_progress
lock_resource_locked rt now later args d v {d'} h locked =
    split (lock_begin now later (lock_request rt args) d.system) refl
  where
    split :
        (o : Phase × System)
        → lock_begin now later (lock_request rt args) d.system ≡ o
        → (res : LockResult) × (v ≡ lock_reply res)
          × (lock_begin now later (lock_request rt args) d.system ≡ (returned res, d'.system))
          × (arg_str args (str "name") ≢ [])
    split (returned res, s') eq = (
      res,
      ground (arith, missing-locked (str "name"), missing-locked (str "agent_id")),
      ground (arith, missing-locked (str "name"), missing-locked (str "agent_id")),
      λ empty. ground (arith, missing-locked (str "name"), eqs_iff (arg_str args (str "name")) []),
    )
    split (failed e, s') eq = absurd (
        ground
          (arith, missing-locked (str "name"), missing-locked (str "agent_id"), error-locked rt e))
    split (panicked, s') eq =
        absurd (ground (arith, missing-locked (str "name"), missing-locked (str "agent_id")))
    split (polling w, s') eq =
        absurd (ground (arith, missing-locked (str "name"), missing-locked (str "agent_id")))
    split (blocked w, s') eq =
        absurd (ground (arith, missing-locked (str "name"), missing-locked (str "agent_id")))

released_held :
    (row : LockRow) (found : Option LockRow) (lock_token agent_id : Bytes) (released : Bool)
    → row.lock_token ≢ []
    → found ≡ some row
    → lock_token ≡ row.lock_token
    → released ≡ may_release lock_token agent_id found
    → released ≡ true
unfolding unlock_authorized
released_held row found lock_token agent_id released token held same h =
    ground (arith, eqs_iff lock_token [], eqs_iff lock_token row.lock_token)

-- Without an error of the driver, the holder's token releases the lock.
unlock_resource_held :
    (rt : Runtime) (args : Arguments) (d : Daemon) (row : LockRow)
    → arg_str args (str "name") ≢ []
    → row.lock_token ≢ []
    → select (arg_str args (str "name")) d.system.world.db.locks ≡ some row
    → arg_str args (str "lock_token") ≡ row.lock_token
    → Quiet d.system.world
    → ((unlock_resource rt args d).0 ≡ replied (map_of ((str "released", boolean true) ∷ [])))
      × (select (arg_str args (str "name")) (unlock_resource rt args d).1.system.world.db.locks
          ≡ none)
unfolding unlock_resource unlock_call
unlock_resource_held rt args d row named token held same calm =
    split (unlock name lock_token agent_id w) refl
  where
    name : Bytes
    name = arg_str args (str "name")

    lock_token : Bytes
    lock_token = arg_str args (str "lock_token")

    agent_id : Bytes
    agent_id = arg_str args (str "agent_id")

    w : World
    w = d.system.world

    split :
        (o : Out Bool)
        → unlock name lock_token agent_id w ≡ o
        → ((unlock_resource rt args d).0 ≡ replied (map_of ((str "released", boolean true) ∷ [])))
          × (select name (unlock_resource rt args d).1.system.world.db.locks ≡ none)
    split (ok released w') o =
        let t = unlock_decides name lock_token agent_id w released name o in
        let yes =
          released_held row (select name w.db.locks) lock_token agent_id released token held same
            t.0 in
        (ground (arith, eqs_iff name []), ground (arith, eqs_iff name [], eqs_refl name))
    split (err e w') o = absurd (subst Answers o (unlock_total name lock_token agent_id w calm))

-- Where lock_resource answers at once that the lock is taken, with a token that is not empty, and
-- the driver refuses nothing from there on, unlock_resource with the same name and that token,
-- whoever calls it, answers that it is released, and the name has no row any more.
pub lock_resource-unlock_resource :
    (rt : Runtime) (now later : ℤ) (args args' : Arguments) (d : Daemon) (v : Json) (token : Bytes)
    {d' : Daemon}
    → lock_resource rt now later args d ≡ (replied v, d')
    → member (str "locked") v ≡ some (boolean true)
    → member (str "lock_token") v ≡ some (text token)
    → token ≢ []
    → arg_str args' (str "name") ≡ arg_str args (str "name")
    → arg_str args' (str "lock_token") ≡ token
    → Quiet d'.system.world
    → ((unlock_resource rt args' d').0 ≡ replied (map_of ((str "released", boolean true) ∷ [])))
      × (select (arg_str args (str "name")) (unlock_resource rt args' d').1.system.world.db.locks
          ≡ none)
unfolding lock_request
lock_resource-unlock_resource rt now later args args' d v token {d'} h locked given nonempty
      same_name same_token calm =
    let (res, reply, began, named) = lock_resource_locked rt now later args d v h locked in
    let (granted, its_token) =
      lock_reply-locked res (ap (member (str "locked")) (sym reply) ∙ locked) in
    let taken = lock_begin_locked now later (lock_request rt args) d.system res began granted in
    let row =
      new_row now (lock_request rt args).agent_id (lock_request rt args).ttl_seconds
        res.lock_token in
    let tokens : res.lock_token ≡ token = ground (arith) in
    let out =
      unlock_resource_held rt args' d' row (λ e. named (sym same_name ∙ e))
        (λ e. nonempty (sym tokens ∙ e))
        (ap (λ n. select n d'.system.world.db.locks) same_name ∙ taken) (same_token ∙ sym tokens)
        calm in
    (
      out.0,
      ap (λ n. select n (unlock_resource rt args' d').1.system.world.db.locks) (sym same_name)
          ∙ out.1,
    )
