-- ===== src/Tests/Gateway.antt =====
-- Requests to the server: with and without the token.
use agentpeek.Common.{pos, ◌≡◌, ◌≢◌, ◌↔◌, refl, arith, none, [], Bytes, str, eqs}
use agentpeek.Mcp.Server.{
  Library, Server, HttpRequest, RpcRequest, Decoded, Handler, Reply, Response, result, request, new,
  gate, authorized, handle_root, hostname, has_json_content_type,
}
use agentpeek.Mcp.Server.Gate.{Admitted, gate_iff}

-- Every body decodes to a ping, and no host has a port.
abbrev library : Library
library = record {
  split_host_port = λ _. none;
  trim_space = λ s. s;
  equal_fold = eqs;
  decode =
      λ _ body. request (record { jsonrpc = str "2.0"; id = str "1"; method = body; params = [] });
}

abbrev server : Server
server = record { addr = str "127.0.0.1:27183"; token = str "s3"; max_body_bytes = pos 1048576 }

abbrev ping : HttpRequest
ping = record {
  path = str "/";
  method = str "POST";
  host = str "[::1]";
  origin = [];
  content_type = str "application/json";
  authorization = str "Bearer s3";
  body = str "ping";
}

-- Remembers the last method.
abbrev recorder : Handler Bytes Bytes
recorder method params state = (result params, method)

gate_iff_example : (gate {A = Bytes} library server ping ≡ none) ↔ Admitted library server ping
gate_iff_example = gate_iff {A = Bytes} library server ping

recorded : (handle_root library recorder server ping []).1 ≡ str "ping"
unfolding handle_root gate eqs agentpeek.Mcp.Server.loopback_host has_json_content_type authorized
    agentpeek.Mcp.Server.dispatch
recorded = refl

changed : (handle_root library recorder server ping []).1 ≢ []
changed same = absurd (ground (arith, recorded))
