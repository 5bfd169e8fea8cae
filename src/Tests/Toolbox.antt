-- ===== src/Tests/Toolbox.antt =====
-- Calls of the tools, through the handler and through the server.
use agentpeek.Common.{
  ℤ, pos, ◌≡◌, ◌≢◌, ◌↔◌, refl, ◌≤◌, arith, Bool, true, false, Option, none, some, List, [], ◌∷◌,
  Bytes, str, eqs,
}
use agentpeek.Sql.Table.{select}
use agentpeek.Store.Lock.{timed_out, signalled}
use agentpeek.Store.Queues.{new_manager}
use agentpeek.Mcp.Server.{Library, Server, HttpRequest, RpcRequest, request, handle_root}
use agentpeek.Mcp.Server.Gate.{Admitted}
use agentpeek.Mcp.Json.{boolean, integer, text, map_of, Arguments, Runtime}
use agentpeek.Mcp.Daemon.{Daemon, replied}
use agentpeek.Mcp.Schema.{tool_defs}
use agentpeek.Mcp.Tools.{Tool, for_list_notes, for_delete_note, run_tool, call_tool, tool_named}
use agentpeek.Mcp.Tools.Dispatch.{advertised, tool_named_iff}
use agentpeek.Mcp.Tools.Required.{Refusal, required_by, call_tool-refuses}
use agentpeek.Mcp.Tools.Leases.{lock_resource-unlock_resource}
use agentpeek.Mcp.Tools.Locks.{lock_resource, unlock_resource}
use agentpeek.Mcp.Handler.{handle}
use agentpeek.Mcp.Handler.Gateway.{Ran, request_runs_tool}
use agentpeek.Mcp.Handler.Turns.{Turn, IsEnded, run_turns, tool_call_ends}
use agentpeek.Tests.{calm, empty_db, held_world, build, ann, bob}

-- Numbers are read as 7, and the parameters of every call ask to delete the note `plan`.
abbrev pub runtime : Runtime
runtime = record {
  int_of_float = λ _. pos 7;
  int64_of_number = λ _. none;
  unmarshal_params = λ _. some (str "delete_note", some ((str "key", text (str "plan")) ∷ []));
  marshal = λ _. some (str "{}");
  constraint_text = str "constraint failed";
  overflow_text = str "overflow";
}

abbrev pub fresh : Daemon
fresh = record {
  system = record { world = calm empty_db; manager = new_manager };
  chans = [];
  closed = λ _. false;
  next_chan = 0;
}

abbrev pub library : Library
library = record {
  split_host_port = λ _. none;
  trim_space = λ s. s;
  equal_fold = eqs;
  decode = λ _ body.
      request
        (record { jsonrpc = str "2.0"; id = str "1"; method = str "tools/call"; params = body });
}

abbrev server : Server
server = record { addr = str "127.0.0.1:27183"; token = []; max_body_bytes = pos 1048576 }

abbrev pub post : HttpRequest
post = record {
  path = str "/";
  method = str "POST";
  host = str "localhost";
  origin = [];
  content_type = str "application/json";
  authorization = [];
  body = str "{}";
}

tool_named_iff_example :
    (tool_named (str "lock") ≡ none) ↔ (advertised (str "lock") tool_defs ≡ none)
tool_named_iff_example = tool_named_iff (str "lock")

call_tool-refuses_example : Refusal (required_by (str "lock_resource")) fresh (
    call_tool runtime (pos 50) (pos 51) (str "lock_resource") ((str "name", text build) ∷ []) fresh)
unfolding agentpeek.Mcp.Tools.Dispatch.has required_by advertised tool_defs eqs select
call_tool-refuses_example =
    call_tool-refuses runtime (pos 50) (pos 51) (str "lock_resource")
      ((str "name", text build) ∷ []) fresh (str "agent_id") refl refl

counted :
    (handle_root library (handle runtime (pos 50) (pos 51)) server post fresh).1.system.world.ops
    ≡ 3
unfolding handle_root agentpeek.Mcp.Server.gate eqs agentpeek.Mcp.Server.loopback_host
    agentpeek.Mcp.Server.has_json_content_type agentpeek.Mcp.Server.dispatch handle call_tool
    tool_named run_tool agentpeek.Mcp.Tools.Notes.remove_note agentpeek.Mcp.Arguments.arg_str select
    agentpeek.Store.Notes.delete_note
counted = refl

changed : (handle_root library (handle runtime (pos 50) (pos 51)) server post fresh).1 ≢ fresh
changed same = absurd (ground (arith, counted))

request_runs_tool_example :
    let after = (handle_root library (handle runtime (pos 50) (pos 51)) server post fresh).1 in
    Admitted library server post
    × ((req : RpcRequest) × (library.decode (pos 1048576) (str "{}") ≡ request req)
        × (req.jsonrpc ≡ str "2.0")
        × (req.method ≡ str "tools/call")
        × Ran runtime (pos 50) (pos 51) req.params fresh after)
request_runs_tool_example =
    request_runs_tool library runtime (pos 50) (pos 51) server post fresh changed

abbrev lock_build : Arguments
lock_build = (str "name", text build) ∷ (str "agent_id", text ann) ∷ []

abbrev token : Bytes
token = str "0aff0000000000000000000000000000"

abbrev unlock_build : Arguments
unlock_build = (str "name", text build) ∷ (str "lock_token", text token) ∷ []

lock_resource-unlock_resource_example :
    let held = (lock_resource runtime (pos 50) (pos 51) lock_build fresh).1 in
    ((unlock_resource runtime unlock_build held).0
      ≡ replied (map_of ((str "released", boolean true) ∷ [])))
    × (select build (unlock_resource runtime unlock_build held).1.system.world.db.locks ≡ none)
unfolding lock_resource eqs agentpeek.Mcp.Arguments.arg_str select agentpeek.Store.Lock.lock_begin
    agentpeek.Common.le64 agentpeek.Mcp.Arguments.ttl_seconds agentpeek.Store.Locks.try_acquire
    agentpeek.Store.Random.hex agentpeek.Mcp.Tools.Leases.member
lock_resource-unlock_resource_example =
    lock_resource-unlock_resource runtime (pos 50) (pos 51) lock_build unlock_build fresh
      (map_of (
        (str "locked", boolean true)
        ∷ (str "lock_token", text token)
        ∷ (str "expires_in_seconds", integer (pos 900))
        ∷ []))
      token refl refl refl (λ e. absurd (ground arith)) refl refl (λ n. refl)

-- bob waits for ann's lock, and is signalled once without getting it.
abbrev wait_build : Arguments
wait_build =
    (str "name", text build)
    ∷ (str "agent_id", text bob)
    ∷ (str "wait_seconds", integer (pos 5))
    ∷ []

abbrev busy : Daemon
busy = record fresh { system = record { world = held_world; manager = new_manager } }

abbrev turns : List Turn
turns =
    record { others = λ d. d; now = pos 51; woken = timed_out }
    ∷ record { others = λ d. d; now = pos 52; woken = signalled }
    ∷ record { others = λ d. d; now = pos 53; woken = timed_out }
    ∷ record { others = λ d. d; now = pos 56; woken = timed_out }
    ∷ []

tool_call_ends_example :
    let start = call_tool runtime (pos 50) (pos 51) (str "lock_resource") wait_build busy in
    IsEnded (run_turns runtime turns start.0 start.1).0
tool_call_ends_example =
    tool_call_ends runtime (pos 50) (pos 51) (str "lock_resource") wait_build busy turns
      (omega arith)
