-- ===== src/Mcp/Handler/Gateway.antt =====
-- From a request to a change of the managers' state: internal/mcp/server.go over handler.go over
-- tools.go.
use agentpeek.Common.{
  ℤ, ◌≡◌, ◌≢◌, ◌⊎◌, inl, inr, refl, ap, ◌∙◌, Bool, true, false, some, arith, Bytes, str, eqs,
  eqs_iff, Option-cases,
}
use agentpeek.Mcp.Server.{Library, Server, HttpRequest, RpcRequest, request, handle_root}
use agentpeek.Mcp.Server.Gate.{Admitted, handle_root_gated}
use agentpeek.Mcp.Json.{Arguments, Runtime}
use agentpeek.Mcp.Daemon.{Daemon}
use agentpeek.Mcp.Tools.{Tool, tool_named, run_tool, call_tool}
use agentpeek.Mcp.Handler.{call_params, tools_call, handle}

-- The call of a tool that the parameters of tools/call ask for, and the state after it.
abbrev pub Ran : Runtime → ℤ → ℤ → Bytes → Daemon → Daemon → Type 0
Ran rt now later params d after =
    (name : Bytes) × (args : Arguments) × (tool : Tool) × (call_params rt params
      ≡ some (name, args))
    × (tool_named name ≡ some tool)
    × (after ≡ (run_tool rt now later tool args d).1)

call_tool-Ran :
    (rt : Runtime) (now later : ℤ) (name : Bytes) (args : Arguments) (d : Daemon)
    → ((call_tool rt now later name args d).1 ≡ d)
      ⊎ ((tool : Tool) × (tool_named name ≡ some tool)
          × ((call_tool rt now later name args d).1 ≡ (run_tool rt now later tool args d).1))
unfolding call_tool
call_tool-Ran rt now later name args d = elim (Option-cases (tool_named name)) [
  | inl unknown ↦ inl (ground arith)
  | inr (tool, eq) ↦ inr (tool, eq, ground arith)
]

tools_call-Ran :
    (rt : Runtime) (now later : ℤ) (params : Bytes) (d : Daemon)
    → ((tools_call rt now later params d).1 ≡ d)
      ⊎ Ran rt now later params d (tools_call rt now later params d).1
unfolding tools_call
tools_call-Ran rt now later params d = elim (Option-cases (call_params rt params)) [
  | inl refused ↦ inl (ground arith)
  | inr ((name, args), eq) ↦ elim (call_tool-Ran rt now later name args d) [
    | inl same ↦ inl (ground arith)
    | inr (tool, named, after) ↦ inr (name, args, tool, eq, named, ground arith)
  ]
]

handle-tools_call :
    (rt : Runtime) (now later : ℤ) (params : Bytes) (d : Daemon)
    → handle rt now later (str "tools/call") params d ≡ tools_call rt now later params d
unfolding handle eqs
handle-tools_call rt now later params d = refl

-- Every other method leaves the managers alone.
handle-other :
    (rt : Runtime) (now later : ℤ) (method params : Bytes) (d : Daemon)
    → eqs method (str "tools/call") ≡ false
    → (handle rt now later method params d).1 ≡ d
unfolding handle
handle-other rt now later method params d h = ground arith

pub handle-Ran :
    (rt : Runtime) (now later : ℤ) (method params : Bytes) (d : Daemon)
    → ((handle rt now later method params d).1 ≡ d)
      ⊎ ((method ≡ str "tools/call")
          × Ran rt now later params d (handle rt now later method params d).1)
handle-Ran rt now later method params d = split (eqs method (str "tools/call")) refl
  where
    called : Daemon → Type 0
    called after = (after ≡ d) ⊎ ((method ≡ str "tools/call") × Ran rt now later params d after)

    split :
        (b : Bool)
        → eqs method (str "tools/call") ≡ b
        → called (handle rt now later method params d).1
    split false eq = inl (handle-other rt now later method params d eq)
    split true eq =
        let same = (eqs_iff method (str "tools/call")).0 eq in
        let steps =
          ap (λ n. handle rt now later n params d) same ∙ handle-tools_call rt now later params d in
        elim (tools_call-Ran rt now later params d) [
          | inl kept ↦ inl (ap (λ r. r.1) steps ∙ kept)
          | inr (name, args, tool, params_eq, named, after) ↦
              inr (same, (name, args, tool, params_eq, named, ap (λ r. r.1) steps ∙ after))
        ]

-- A request that changes anything is Admitted, and its body decodes to a JSON-RPC 2.0 request of
-- tools/call for one of the tools; the change is that tool's, run once on the arguments that the
-- parameters give.
pub request_runs_tool :
    (l : Library) (rt : Runtime) (now later : ℤ) (s : Server) (r : HttpRequest) (d : Daemon)
    → (handle_root l (handle rt now later) s r d).1 ≢ d
    → Admitted l s r
      × ((req : RpcRequest) × (l.decode s.max_body_bytes r.body ≡ request req)
          × (req.jsonrpc ≡ str "2.0")
          × (req.method ≡ str "tools/call")
          × Ran rt now later req.params d (handle_root l (handle rt now later) s r d).1)
request_runs_tool l rt now later s r d changed =
    let (admitted, (req, decoded, version, after)) =
      handle_root_gated l (handle rt now later) s r d changed in
    elim (handle-Ran rt now later req.method req.params d) [
      | inl same ↦ absurd (changed (after ∙ same))
      | inr (method, (name, args, tool, params, named, ran)) ↦ (
        admitted,
        (req, decoded, version, method, (name, args, tool, params, named, after ∙ ran)),
      )
    ]
