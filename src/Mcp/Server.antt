-- ===== src/Mcp/Server.antt =====
-- internal/mcp/server.go: the checks that a request meets before a tool sees it.
pub mod Gate
use agentpeek.Common.{
  ℕ, ◌==◌, ℤ, pos, Bool, true, false, ◌&&◌, ◌||◌, not, Option, none, some, List, [], ◌∷◌, ◌++◌,
  if◌then◌else◌, Bytes, str, eqs, le64, negsuc,
}

-- What the server calls: net.SplitHostPort (the host, or none for its error), strings.TrimSpace,
-- strings.EqualFold and http.MaxBytesReader with the JSON decoder.
pub record RpcRequest : Type 0 where
  pub jsonrpc : Bytes
  pub id : Bytes
  pub method : Bytes
  pub params : Bytes

pub data Decoded : Type 0 where
  request : RpcRequest → Decoded
  too_large : Decoded
  malformed : Decoded

pub record Library : Type 0 where
  pub split_host_port : Bytes → Option Bytes
  pub trim_space : Bytes → Bytes
  pub equal_fold : Bytes → Bytes → Bool
  pub decode : ℤ → Bytes → Decoded

-- type Server: what New sets of it, but the handler.
pub record Server : Type 0 where
  pub addr : Bytes
  pub token : Bytes
  pub max_body_bytes : ℤ

-- func New, of Options with the same three fields.
unfoldable pub new : Server → Server
new opts = record {
  addr = if eqs opts.addr [] then str "127.0.0.1:27183" else opts.addr;
  token = opts.token;
  max_body_bytes = if le64 opts.max_body_bytes (pos 0) then pos 1048576 else opts.max_body_bytes;
}

-- A request, each header as Header.Get gives it.
pub record HttpRequest : Type 0 where
  pub path : Bytes
  pub method : Bytes
  pub host : Bytes
  pub origin : Bytes
  pub content_type : Bytes
  pub authorization : Bytes
  pub body : Bytes

pub record RpcError : Type 0 where
  pub code : ℤ
  pub message : Bytes

-- The result of a handler that gives `A`: its result or its error.
pub data Reply {ℓ} (A : Type ℓ) : Type ℓ where
  result : A → Reply A
  fault : RpcError → Reply A

-- What is written back: http.Error, the bare 202, or a JSON-RPC envelope with the id it echoes.
pub data Response {ℓ} (A : Type ℓ) : Type ℓ where
  plain : ℕ → Bytes → Response A
  accepted : Response A
  envelope : Bytes → Reply A → Response A

-- strings.HasPrefix and strings.TrimPrefix in one: what is left after the prefix.
unfoldable pub after_prefix : Bytes → Bytes → Option Bytes
after_prefix [] s = some s
after_prefix (p ∷ ps) [] = none
after_prefix (p ∷ ps) (c ∷ s) = let rest = after_prefix ps s in if p == c then rest else none

-- func (s *Server) authorized
unfoldable pub authorized : Bytes → HttpRequest → Bool
authorized token r = elim (after_prefix (str "Bearer ") r.authorization) [
  | none ↦ false
  | some got ↦ eqs got token
]

-- strings.TrimPrefix
trim_prefix : Bytes → Bytes → Bytes
unfolding after_prefix
trim_prefix prefix s = elim (after_prefix prefix s) [ none ↦ s | some rest ↦ rest ]

-- strings.TrimSuffix with a suffix of one byte
trim_last : ℕ → Bytes → Bytes
trim_last c [] = []
trim_last c (x ∷ []) = if x == c then [] else x ∷ []
trim_last c (x ∷ y ∷ s) = x ∷ trim_last c (y ∷ s)

-- The names of the loopback in loopbackHost's switch.
unfoldable pub is_loopback : Bytes → Bool
is_loopback h = eqs h (str "localhost") || eqs h (str "127.0.0.1") || eqs h (str "::1")

-- The host without its port and brackets.
unfoldable pub hostname : Library → Bytes → Bytes
unfolding trim_prefix trim_last
hostname l host =
    trim_last 93
      (trim_prefix (str "[") (elim (l.split_host_port host) [ none ↦ host | some h ↦ h ]))

-- func loopbackHost
unfoldable pub loopback_host : Library → Bytes → Bool
unfolding is_loopback hostname
loopback_host l host = if eqs host [] then false else is_loopback (hostname l host)

-- ct[:i] for the first semicolon at i, all of ct without one
before_semicolon : Bytes → Bytes
before_semicolon [] = []
before_semicolon (c ∷ s) = let rest = before_semicolon s in if c == 59 then [] else c ∷ rest

has_semicolon : Bytes → Bool
has_semicolon [] = false
has_semicolon (c ∷ s) = (c == 59) || has_semicolon s

-- func hasJSONContentType
unfoldable pub has_json_content_type : Library → Bytes → Bool
unfolding before_semicolon has_semicolon
has_json_content_type l content_type =
    let ct = l.trim_space content_type in
    l.equal_fold (if has_semicolon ct then l.trim_space (before_semicolon ct) else ct)
      (str "application/json")

-- func normalizeID
unfoldable pub normalize_id : Bytes → Bytes
normalize_id [] = str "null"
normalize_id (c ∷ id) = c ∷ id

-- func writeParseError
abbrev pub parse_error {ℓ} : {A : Type ℓ} → Response A
parse_error =
    envelope (str "null") (fault (record { code = negsuc 32699; message = str "parse error" }))

-- func (s *Server) handleHealthz
unfoldable pub handle_healthz {ℓ} : {A : Type ℓ} → Library → HttpRequest → Response A
handle_healthz l r =
    if not (eqs r.method (str "GET"))
    then plain 405 (str "method not allowed")
    else if not (loopback_host l r.host)
    then plain 403 (str "forbidden")
    else plain 200 (str "ok")

-- The checks of handleRoot up to the body, in their order: the answer of the first that fails.
unfoldable pub gate {ℓ} : {A : Type ℓ} → Library → Server → HttpRequest → Option (Response A)
gate l s r =
    if not (eqs r.path (str "/"))
    then some (plain 404 (str "not found"))
    else if not (eqs r.method (str "POST"))
    then some (plain 405 (str "method not allowed"))
    else if not (loopback_host l r.host)
    then some (plain 403 (str "forbidden"))
    else if not (eqs r.origin [])
    then some (plain 403 (str "forbidden"))
    else if not (has_json_content_type l r.content_type)
    then some (plain 415 (str "unsupported media type"))
    else if not (eqs s.token []) && not (authorized s.token r)
    then some (plain 401 (str "unauthorized"))
    else none

-- The handler that the server is given: its state, and what Handle does to it.
abbrev pub Handler {ℓ ℓ'} : Type ℓ → Type ℓ' → Type (ℓ ⊔ ℓ')
Handler S A = Bytes → Bytes → S → Reply A × S

-- writeRPCResult and writeRPCError
abbrev pub answer {ℓ ℓ'} : {S : Type ℓ} {A : Type ℓ'} → Bytes → Reply A × S → Response A × S
answer id (reply, state) = (envelope id reply, state)

-- From the decoded envelope on.
unfoldable pub dispatch {ℓ ℓ'} :
    {S : Type ℓ} {A : Type ℓ'} → Handler S A → Decoded → S → Response A × S
dispatch handle too_large state = (plain 413 (str "request entity too large"), state)
dispatch handle malformed state = (parse_error, state)
dispatch handle (request req) state =
    if not (eqs req.jsonrpc (str "2.0"))
    then (parse_error, state)
    else if eqs req.method (str "notifications/initialized") && eqs req.id []
    then (accepted, state)
    else answer (normalize_id req.id) (handle req.method req.params state)

-- Returns early with a refusal.
abbrev pub unless_refused {ℓ ℓ'} :
    {S : Type ℓ} {A : Type ℓ'} → Option (Response A) → S → Response A × S → Response A × S
unless_refused none state rest = rest
unless_refused (some refusal) state rest = (refusal, state)

-- func (s *Server) handleRoot
unfoldable pub handle_root {ℓ ℓ'} :
    {S : Type ℓ} {A : Type ℓ'} → Library → Handler S A → Server → HttpRequest → S → Response A × S
handle_root {A = A} l handle s r state =
    unless_refused (gate {A = A} l s r) state
      (dispatch handle (l.decode s.max_body_bytes r.body) state)
