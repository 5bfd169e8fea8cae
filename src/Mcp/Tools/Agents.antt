-- ===== src/Mcp/Tools/Agents.antt =====
-- The presence tools of internal/mcp/tools.go.
use agentpeek.Common.{ℤ, true, [], ◌∷◌, map, if◌then◌else◌, str, eqs}
use agentpeek.Store.Presence.{AgentInfo, register, unregister, list_agents}
use agentpeek.Mcp.Json.{Json, boolean, integer, text, map_of, slice_of, Arguments, Runtime}
use agentpeek.Mcp.Arguments.{default_presence_ttl_seconds, arg_str, arg_int}
use agentpeek.Mcp.Daemon.{Daemon, on_store, on_system, Progress, missing, respond}

-- func (h *toolHandler) registerAgent
unfoldable pub register_agent : Runtime → ℤ → Arguments → Daemon → Progress × Daemon
register_agent rt now args d =
    let agent_id = arg_str args (str "agent_id") in
    let ttl = arg_int rt args (str "ttl_seconds") default_presence_ttl_seconds in
    if eqs agent_id []
    then missing (str "agent_id") d
    else respond rt
        (λ _.
          map_of ((str "registered", boolean true) ∷ (str "expires_in_seconds", integer ttl) ∷ []))
        (on_store (register now agent_id ttl) d)

-- func (h *toolHandler) unregisterAgent
unfoldable pub unregister_agent : Runtime → Arguments → Daemon → Progress × Daemon
unregister_agent rt args d =
    let agent_id = arg_str args (str "agent_id") in
    if eqs agent_id []
    then missing (str "agent_id") d
    else respond rt (λ _. map_of ((str "unregistered", boolean true) ∷ []))
        (on_system (unregister agent_id) d)

agent_entry : AgentInfo → Json
agent_entry a = map_of (
    (str "agent_id", text a.agent_id)
    ∷ (str "expires_in_seconds", integer a.expires_in_seconds)
    ∷ [])

-- func (h *toolHandler) listAgents
unfoldable pub list_present : Runtime → ℤ → Daemon → Progress × Daemon
unfolding agent_entry
list_present rt now d =
    respond rt (λ agents. slice_of (map agent_entry agents)) (on_store (list_agents now) d)
