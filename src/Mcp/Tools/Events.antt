-- ===== src/Mcp/Tools/Events.antt =====
-- The event tools of internal/mcp/tools.go.
use agentpeek.Common.{ℤ, pos, true, [], ◌∷◌, if◌then◌else◌, Bytes, str, eqs}
use agentpeek.Store.Events.{signal, clear, Phase, returned, failed, blocked, wait_check}
use agentpeek.Mcp.Json.{boolean, integer, map_of, Arguments, Runtime}
use agentpeek.Mcp.Arguments.{default_event_wait_seconds, arg_str, arg_int}
use agentpeek.Mcp.Daemon.{
  Daemon, on_events, Progress, replied, awaiting, err_result, missing, respond,
}

-- func (h *toolHandler) signalEvent
unfoldable pub signal_event : Runtime → ℤ → Arguments → Daemon → Progress × Daemon
signal_event rt now args d =
    let name = arg_str args (str "name") in
    if eqs name []
    then missing (str "name") d
    else respond rt (λ generation. map_of ((str "generation", integer generation) ∷ []))
        (on_events (signal rt.overflow_text now name) d)

-- What waitForEvent makes of a call of Wait where it stands.
unfoldable pub wait_progress : Runtime → Bytes → ℤ → ℤ → Phase → Progress
wait_progress rt name last_seen wait (returned generation fired) =
    replied (map_of ((str "generation", integer generation) ∷ (str "fired", boolean fired) ∷ []))
wait_progress rt name last_seen wait (failed e) = replied (err_result rt e)
wait_progress rt name last_seen wait (blocked ch current) = awaiting name last_seen wait ch current

-- func (h *toolHandler) waitForEvent, until Wait waits or returns
unfoldable pub wait_for_event : Runtime → Arguments → Daemon → Progress × Daemon
unfolding wait_progress
wait_for_event rt args d =
    let name = arg_str args (str "name") in
    let last_seen = arg_int rt args (str "last_seen_generation") (pos 0) in
    let wait = arg_int rt args (str "wait_seconds") default_event_wait_seconds in
    if eqs name []
    then missing (str "name") d
    else (let (phase, d') = on_events (wait_check name last_seen wait) d in
        (wait_progress rt name last_seen wait phase, d'))

-- func (h *toolHandler) clearEvent
unfoldable pub clear_event : Runtime → Arguments → Daemon → Progress × Daemon
clear_event rt args d =
    let name = arg_str args (str "name") in
    if eqs name []
    then missing (str "name") d
    else respond rt (λ _. map_of ((str "cleared", boolean true) ∷ [])) (on_events (clear name) d)
