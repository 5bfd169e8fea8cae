-- ===== src/Mcp/Tools/Locks.antt =====
-- The lock tools of internal/mcp/tools.go.
pub mod Keyed
use agentpeek.Common.{
  ℤ, pos, not, true, false, List, [], ◌∷◌, map, if◌then◌else◌, leb, Bytes, str, eqs,
}
use agentpeek.Store.Exec.{Out, ok, err}
use agentpeek.Store.Locks.{LockResult, LockInfo, renew, renew_by_agent, list_locks}
use agentpeek.Store.Locks.Many.{ManyResult, lock_many}
use agentpeek.Store.Lock.{
  Request, Phase, returned, failed, panicked, polling, blocked, lock_begin, unlock_call,
}
use agentpeek.Mcp.Json.{Json, boolean, integer, text, map_of, slice_of, Arguments, Runtime}
use agentpeek.Mcp.Arguments.{default_lock_ttl_seconds, arg_str, arg_int, arg_str_slice, ttl_seconds}
use agentpeek.Mcp.Daemon.{
  Daemon, on_store, on_system, Progress, replied, crashed, looping, parked, error_text, err_result,
  missing, respond,
}

-- The fields of a result that is not locked, in line.
line_fields : LockResult → List (Bytes × Json)
line_fields res =
    if leb 1 res.queue_position
    then (str "wake_token", text res.wake_token)
      ∷ (str "queue_position", integer (pos res.queue_position))
      ∷ (str "retry_with", text res.retry_with)
      ∷ []
    else []

-- The result of lockResource for a LockResult.
unfoldable pub lock_reply : LockResult → Json
unfolding line_fields
lock_reply res =
    if res.locked
    then map_of (
        (str "locked", boolean true)
        ∷ (str "lock_token", text res.lock_token)
        ∷ (str "expires_in_seconds", integer res.expires_in_seconds)
        ∷ [])
    else map_of (
        (str "locked", boolean false)
        ∷ (str "held_by", text res.held_by)
        ∷ (str "expires_in_seconds", integer res.expires_in_seconds)
        ∷ line_fields res)

-- What lockResource makes of a call of Lock where it stands.
unfoldable pub lock_progress : Runtime → Request → Phase → Progress
unfolding lock_reply
lock_progress rt r (returned res) = replied (lock_reply res)
lock_progress rt r (failed e) = replied (err_result rt e)
lock_progress rt r panicked = crashed
lock_progress rt r (polling w) = looping r w
lock_progress rt r (blocked w) = parked r w

-- The arguments of Lock.
unfoldable pub lock_request : Runtime → Arguments → Request
lock_request rt args = record {
  name = arg_str args (str "name");
  agent_id = arg_str args (str "agent_id");
  ttl_seconds = ttl_seconds rt args default_lock_ttl_seconds;
  wait_seconds = arg_int rt args (str "wait_seconds") (pos 0);
  wake_token = arg_str args (str "wake_token");
}

-- func (h *toolHandler) lockResource, until Lock waits or returns
unfoldable pub lock_resource : Runtime → ℤ → ℤ → Arguments → Daemon → Progress × Daemon
unfolding lock_request lock_progress
lock_resource rt now later args d =
    if eqs (arg_str args (str "name")) []
    then missing (str "name") d
    else if eqs (arg_str args (str "agent_id")) []
    then missing (str "agent_id") d
    else (let r = lock_request rt args in
        let (phase, d') = on_system (lock_begin now later r) d in (lock_progress rt r phase, d'))

-- func (h *toolHandler) unlockResource
unfoldable pub unlock_resource : Runtime → Arguments → Daemon → Progress × Daemon
unlock_resource rt args d =
    let name = arg_str args (str "name") in
    if eqs name []
    then missing (str "name") d
    else respond rt (λ released. map_of ((str "released", boolean released) ∷ []))
        (on_system
          (unlock_call name (arg_str args (str "lock_token")) (arg_str args (str "agent_id"))) d)

renewed : Runtime → Out LockResult → Json
renewed rt (ok res w) = map_of (
    (str "renewed", boolean true) ∷ (str "expires_in_seconds", integer res.expires_in_seconds) ∷ [])
renewed rt (err e w) =
    map_of ((str "renewed", boolean false) ∷ (str "error", text (error_text rt e)) ∷ [])

renew_reply : Runtime → Out LockResult × Daemon → Progress × Daemon
unfolding renewed
renew_reply rt r = (replied (renewed rt r.0), r.1)

-- func (h *toolHandler) renewLock
unfoldable pub renew_lock : Runtime → ℤ → Arguments → Daemon → Progress × Daemon
unfolding renew_reply
renew_lock rt now args d =
    let name = arg_str args (str "name") in
    let ttl = ttl_seconds rt args default_lock_ttl_seconds in
    let lock_token = arg_str args (str "lock_token") in
    let agent_id = arg_str args (str "agent_id") in
    if eqs name []
    then missing (str "name") d
    else if not (eqs lock_token [])
    then renew_reply rt (on_store (renew now name lock_token ttl) d)
    else if eqs agent_id []
    then missing (str "lock_token or agent_id") d
    else renew_reply rt (on_store (renew_by_agent now name agent_id ttl) d)

lock_entry : LockInfo → Json
lock_entry l = map_of (
    (str "name", text l.name)
    ∷ (str "agent_id", text l.agent_id)
    ∷ (str "expires_in_seconds", integer l.expires_in_seconds)
    ∷ [])

-- func (h *toolHandler) listLocks
unfoldable pub list_held : Runtime → ℤ → Daemon → Progress × Daemon
unfolding lock_entry
list_held rt now d =
    respond rt (λ locks. slice_of (map lock_entry locks)) (on_store (list_locks now) d)

many_reply : ManyResult → Json
many_reply r =
    if r.acquired
    then map_of (
        (str "locked", boolean true)
        ∷ (str "tokens", map_of (map (λ t. (t.0, text t.1)) r.tokens))
        ∷ [])
    else map_of ((str "locked", boolean false) ∷ (str "held_by", text r.held_by) ∷ [])

-- func (h *toolHandler) lockResources
unfoldable pub lock_resources : Runtime → ℤ → Arguments → Daemon → Progress × Daemon
unfolding many_reply
lock_resources rt now args d =
    let names = arg_str_slice args (str "names") in
    let agent_id = arg_str args (str "agent_id") in
    elim names [
      | [] ↦ missing (str "names") d
      | n ∷ ns ↦
          if eqs agent_id []
          then missing (str "agent_id") d
          else respond rt many_reply (
              on_store
                (lock_many now (n ∷ ns) agent_id (ttl_seconds rt args default_lock_ttl_seconds)) d)
    ]
