-- ===== src/Mcp/Handler.antt =====
-- internal/mcp/handler.go: the methods of the handler over the tools, and calls that wait.
pub mod Gateway
pub mod Turns
pub mod Running
use agentpeek.Common.{
  ℤ, negsuc, Option, none, some, List, [], ◌∷◌, ◌++◌, map, if◌then◌else◌, Bytes, str, eqs,
}
use agentpeek.Store.Lock.{Woken, lock_poll, lock_wake}
use agentpeek.Store.Events.{wait_wake}
use agentpeek.Mcp.Server.{Handler, Reply, result, fault}
use agentpeek.Mcp.Json.{Json, null, text, map_of, slice_of, Arguments, Runtime}
use agentpeek.Mcp.Daemon.{
  Daemon, Progress, replied, looping, parked, awaiting, on_system, on_events,
}
use agentpeek.Mcp.Tools.{call_tool}
use agentpeek.Mcp.Tools.Locks.{lock_progress}
use agentpeek.Mcp.Tools.Events.{wait_progress}
use agentpeek.Mcp.Schema.{Kind, typed, array_of_strings, ToolDef, tool_defs}

-- const protocolVersion, and Number and Name of internal/version
abbrev pub protocol_version : Bytes
protocol_version = str "2024-11-05"

abbrev pub version_number : Bytes
version_number = str "2.0.0"

abbrev pub version_name : Bytes
version_name = str "airlock"

-- const codeParseError
abbrev pub code_parse_error : ℤ
code_parse_error = negsuc 32699

-- What Handle gives: a value, or a tool call that has no result yet (it waits, or has panicked).
pub data Answer : Type 0 where
  value : Json → Answer
  unfinished : Progress → Answer

kind_fields : Kind → Bytes → Json
kind_fields (typed kind) description =
    map_of ((str "type", text kind) ∷ (str "description", text description) ∷ [])
kind_fields array_of_strings description = map_of (
    (str "type", text (str "array"))
    ∷ (str "items", map_of ((str "type", text (str "string")) ∷ []))
    ∷ (str "description", text description)
    ∷ [])

-- func obj
abbrev pub obj : List (Bytes × Json) → List Bytes → Json
obj props required = map_of (
    (str "type", text (str "object"))
    ∷ (str "properties", map_of props)
    ∷ (str "required", slice_of (map text required))
    ∷ [])

-- A toolDef as encoding/json writes it.
unfoldable pub tool_json : ToolDef → Json
unfolding kind_fields
tool_json t = map_of (
    (str "name", text t.name)
    ∷ (str "description", text t.description)
    ∷ (
      str "inputSchema",
      obj (map (λ p. (p.name, kind_fields p.kind p.description)) t.properties) t.required,
    )
    ∷ [])

-- func (h *ToolHandler) initialize
unfoldable pub initialize : Json
initialize = map_of (
    (str "protocolVersion", text protocol_version)
    ∷ (str "capabilities", map_of ((str "tools", map_of []) ∷ []))
    ∷ (
      str "serverInfo",
      map_of ((str "name", text version_name) ∷ (str "version", text version_number) ∷ []),
    )
    ∷ [])

abbrev pub content : Bytes → Json
content t = map_of (
    (
      str "content",
      slice_of (map_of ((str "type", text (str "text")) ∷ (str "text", text t) ∷ []) ∷ []),
    )
    ∷ [])

-- The name and the arguments of the params: no name and no arguments without any.
unfoldable pub call_params : Runtime → Bytes → Option (Bytes × Arguments)
call_params rt [] = some ([], [])
call_params rt (c ∷ params) = elim (rt.unmarshal_params (c ∷ params)) [
  | none ↦ none
  | some (name, none) ↦ some (name, [])
  | some (name, some args) ↦ some (name, args)
]

-- toolsCall from the result of callTool on.
unfoldable pub finish : Runtime → Progress → Reply Answer
finish rt (replied v) = elim (rt.marshal v) [
  | some t ↦ result (value (content t))
  | none ↦ fault (record { code = code_parse_error; message = str "tool result not serializable" })
]
finish rt p = result (unfinished p)

-- func (h *ToolHandler) toolsCall
unfoldable pub tools_call : Runtime → ℤ → ℤ → Bytes → Daemon → Reply Answer × Daemon
unfolding call_params finish
tools_call rt now later params d = elim (call_params rt params) [
  | none ↦
      (fault (record { code = code_parse_error; message = str "invalid tools/call params" }), d)
  | some (name, args) ↦ let (p, d') = call_tool rt now later name args d in (finish rt p, d')
]

-- func (h *ToolHandler) Handle
unfoldable pub handle : Runtime → ℤ → ℤ → Handler Daemon Answer
unfolding initialize tool_json tools_call
handle rt now later method params d =
    if eqs method (str "initialize")
    then (result (value initialize), d)
    else if eqs method (str "tools/list")
    then (result (value (map_of ((str "tools", slice_of (map tool_json tool_defs)) ∷ []))), d)
    else if eqs method (str "tools/call")
    then tools_call rt now later params d
    else if eqs method (str "notifications/initialized")
    then (result (value null), d)
    else (fault (record { code = negsuc 32600; message = str "method not found: " ++ method }), d)

-- One more step of a tool call that has no result yet: in Lock, the loop or the select, and in Wait
-- the select. `woken` is what ends the select.
unfoldable pub resume : Runtime → ℤ → Woken → Progress → Daemon → Progress × Daemon
unfolding lock_progress wait_progress
resume rt now woken (looping r w) d =
    let (phase, d') = on_system (lock_poll now r w) d in (lock_progress rt r phase, d')
resume rt now woken (parked r w) d =
    let (phase, d') = on_system (lock_wake now r w woken) d in (lock_progress rt r phase, d')
resume rt now woken (awaiting name last_seen wait ch current) d =
    let (phase, d') = on_events (wait_wake name last_seen wait current woken) d in
    (wait_progress rt name last_seen wait phase, d')
resume rt now woken p d = (p, d)
