-- ===== src/Mcp/Server/Gate.antt =====
-- Which requests reach the handler.
use agentpeek.Common.{
  ◌≡◌, ◌≢◌, ◌↔◌, ◌⊎◌, inl, refl, Bool, true, false, ◌&&◌, not, if◌then◌else◌, inr, Option, none,
  some, [], ◌∷◌, ◌++◌, arith, Bytes, str, eqs, eqs_iff,
}
use agentpeek.Mcp.Server.{
  Library, Server, HttpRequest, Response, RpcRequest, Decoded, Handler, after_prefix, authorized,
  hostname, is_loopback, loopback_host, has_json_content_type, gate, dispatch, handle_root, request,
  too_large, malformed, parse_error, accepted, answer, normalize_id, unless_refused,
}

after_prefix_iff : (p s rest : Bytes) → (after_prefix p s ≡ some rest) ↔ (s ≡ p ++ rest)
unfolding after_prefix
after_prefix_iff [] s rest = ground arith
after_prefix_iff (c ∷ p) [] rest = ground arith
after_prefix_iff (c ∷ p) (x ∷ s) rest = ground (arith, after_prefix_iff p s rest)

-- The token is accepted in one header only.
pub authorized_iff :
    (token : Bytes) (r : HttpRequest)
    → (authorized token r ≡ true) ↔ (r.authorization ≡ str "Bearer " ++ token)
unfolding authorized
authorized_iff token r =
    split (after_prefix (str "Bearer ") r.authorization)
      (after_prefix_iff (str "Bearer ") r.authorization)
  where
    split :
        (o : Option Bytes)
        → ((rest : Bytes) → (o ≡ some rest) ↔ (r.authorization ≡ str "Bearer " ++ rest))
        → (elim o [ none ↦ false | some got ↦ eqs got token ] ≡ true)
          ↔ (r.authorization ≡ str "Bearer " ++ token)
    split none h = ground (arith, h token)
    split (some got) h = ground (arith, h token, h got, eqs_iff got token)

-- What a request has that the server lets through, in no order.
abbrev pub Admitted : Library → Server → HttpRequest → Type 0
Admitted l s r =
    (r.path ≡ str "/")
    × (r.method ≡ str "POST")
    × ((hostname l r.host ≡ str "localhost")
        ⊎ (hostname l r.host ≡ str "127.0.0.1")
        ⊎ (hostname l r.host ≡ str "::1"))
    × (r.host ≢ [])
    × (r.origin ≡ [])
    × (has_json_content_type l r.content_type ≡ true)
    × ((s.token ≡ []) ⊎ (r.authorization ≡ str "Bearer " ++ s.token))

loopback_host_iff :
    (l : Library) (host : Bytes)
    → (loopback_host l host ≡ true) ↔ (
        (host ≢ [])
        × ((hostname l host ≡ str "localhost")
            ⊎ (hostname l host ≡ str "127.0.0.1")
            ⊎ (hostname l host ≡ str "::1")))
unfolding loopback_host is_loopback
loopback_host_iff l host = ground (
  arith,
  eqs_iff host [],
  eqs_iff (hostname l host) (str "localhost"),
  eqs_iff (hostname l host) (str "127.0.0.1"),
  eqs_iff (hostname l host) (str "::1"),
)

-- The checks before the body let a request through exactly if it is Admitted: a POST to / for a
-- loopback host, with no Origin, a JSON content type, and the header `Bearer` with the token if one
-- is set.
pub gate_iff {ℓ} :
    {A : Type ℓ} (l : Library) (s : Server) (r : HttpRequest)
    → (gate {A = A} l s r ≡ none) ↔ Admitted l s r
unfolding gate
gate_iff l s r = ground (
  arith,
  loopback_host_iff l r.host,
  eqs_iff r.path (str "/"),
  eqs_iff r.method (str "POST"),
  eqs_iff r.origin [],
  eqs_iff s.token [],
  authorized_iff s.token r,
)

-- Every way through a decoded envelope but one leaves the handler alone.
abbrev pub Handled {ℓ ℓ'} : {S : Type ℓ} {A : Type ℓ'} → Handler S A → Decoded → S → S → Type ℓ
Handled handle d state after =
    (req : RpcRequest) × (d ≡ request req)
    × (req.jsonrpc ≡ str "2.0")
    × (after ≡ (handle req.method req.params state).1)

dispatch_lem {ℓ ℓ'} :
    {S : Type ℓ} {A : Type ℓ'} (handle : Handler S A) (d : Decoded) (state : S)
    → ((dispatch handle d state).1 ≡ state) ⊎ Handled handle d state (dispatch handle d state).1
unfolding dispatch
dispatch_lem {S = S} {A = A} handle (request req) state =
    split (eqs req.jsonrpc (str "2.0"))
      (eqs req.method (str "notifications/initialized") && eqs req.id []) refl
  where
    chosen : Bool → Bool → Response A × S
    chosen v n =
        if not v
        then (parse_error, state)
        else if n
        then (accepted, state)
        else answer (normalize_id req.id) (handle req.method req.params state)

    split :
        (v n : Bool)
        → eqs req.jsonrpc (str "2.0") ≡ v
        → ((chosen v n).1 ≡ state) ⊎ Handled handle (request req) state (chosen v n).1
    split false n eq = inl refl
    split true true eq = inl refl
    split true false eq = inr (req, refl, (eqs_iff req.jsonrpc (str "2.0")).0 eq, refl)
dispatch_lem handle too_large state = inl refl
dispatch_lem handle malformed state = inl refl

-- A request that changes the state of the handler is Admitted (a POST to / with a loopback host, no
-- Origin, a JSON content type, and the bearer token if one is set), its body decodes to a JSON-RPC
-- 2.0 request, and the new state is what the handler makes of that request's method and parameters.
pub handle_root_gated {ℓ ℓ'} :
    {S : Type ℓ} {A : Type ℓ'} (l : Library) (handle : Handler S A) (s : Server) (r : HttpRequest)
    (state : S)
    → (handle_root l handle s r state).1 ≢ state
    → Admitted l s r
      × Handled handle (l.decode s.max_body_bytes r.body) state (handle_root l handle s r state).1
unfolding handle_root
handle_root_gated {S = S} {A = A} l handle s r state = split (gate {A = A} l s r) refl
  where
    rest : Response A × S
    rest = dispatch handle (l.decode s.max_body_bytes r.body) state

    split :
        (g : Option (Response A))
        → gate {A = A} l s r ≡ g
        → (unless_refused g state rest).1 ≢ state
        → Admitted l s r
          × Handled handle (l.decode s.max_body_bytes r.body) state (unless_refused g state rest).1
    split none eq h = (
      (gate_iff l s r).0 eq,
      elim (dispatch_lem handle (l.decode s.max_body_bytes r.body) state) [
        | inl same ↦ absurd (h same)
        | inr handled ↦ handled
      ],
    )
    split (some refusal) eq h = absurd (h refl)
