-- ===== src/Agent.antt =====
-- The agent's core (internal/agent: core.go, session.go, reconnect.go). A goroutine's work between two
-- points where it waits is one step. What comes from the network, the clock, drawn identifiers and
-- jitter are arguments; logging, the transports and the data streams are left out.
mod Types
pub mod Bind
pub mod Restore
pub mod Session
pub mod Connected
pub mod Backoff
mod Tests
unfoldable pub use Types.*
use trqsh.Prelude.{
  ℕ, zero, suc, ◌+◌, ◌*◌, ◌/◌, ◌%◌, ◌^◌, String, Bool, true, false, not, ◌||◌, Option, none, some,
  List, [], ◌∷◌, ◌++◌, ◌⊎◌, inl, inr, map, length, ltb, if◌then◌else◌, ◌==◌, string_eq, nat_eq,
}
use trqsh.Prelude.Text.{◌<>◌, to_lower, strip_prefix, before}
use trqsh.Prelude.Dict.{Dict, empty, get, put, delete, values}
use trqsh.Authz.{code_internal}
use trqsh.Edge.Routes.{TunnelType}
use trqsh.Edge.Server.{BindTunnel, BindResp}

abbrev pub code_upstream_unreachable : String
code_upstream_unreachable = "ERR_UPSTREAM_UNREACHABLE"

abbrev pub code_proto_unsupported : String
code_proto_unsupported = "ERR_PROTO_UNSUPPORTED"

-- `failed` is the error of the write, where it has one.
unfoldable pub write_control : Option AgentError → Envelope → Agent → Option AgentError × Agent
write_control failed env s =
    if not s.control then (some (code_internal, "not connected"), s) else elim failed [
      | some e ↦ (some e, s)
      | none ↦ (none, record s { sent = s.sent ++ (env ∷ []) })
    ]

unfoldable pub tunnel_type : String → Option TunnelType
tunnel_type p =
    if to_lower p == "http"
    then some TunnelType.http
    else if to_lower p == "https"
    then some TunnelType.https
    else if to_lower p == "tls"
    then some TunnelType.tls
    else if to_lower p == "tcp"
    then some TunnelType.tcp
    else if to_lower p == "udp"
    then some TunnelType.udp
    else none

abbrev pub error_from_resp : Option (String × String) → AgentError
error_from_resp none = (code_internal, "unknown error")
error_from_resp (some e) = e

-- How far the exchange with an edge comes.
pub data Handshake : Type 0 where
  unreachable no_control hello_failed no_answer : String → Handshake
  not_auth_resp : Handshake
  auth_denied : Option (String × String) → Handshake
  auth_ok : String → String → String → Handshake

-- Without the goroutines that read the streams.
unfoldable pub connect : Handshake → Agent → Option AgentError × Agent
connect (unreachable msg) s = (some (code_upstream_unreachable, "cannot reach edge: " <> msg), s)
connect (no_control msg) s = (some (code_internal, msg), s)
connect (hello_failed msg) s = (some (code_internal, msg), s)
connect (no_answer msg) s = (some (code_internal, msg), s)
connect not_auth_resp s = (some (code_internal, "expected AuthResp"), s)
connect (auth_denied e) s = (some (error_from_resp e), s)
connect (auth_ok account_id plan kind) s =
    let s' = record s {
      control = true;
      sent = [];
      connected = true;
      account_id = account_id;
      plan = plan;
      kind = kind;
      sess_gen = (s.sess_gen + 1) % 2 ^ 64;
    } in
    (none, emit (status_event s') s')

abbrev pub ensure_connected : Handshake → Agent → Option AgentError × Agent
ensure_connected h s = if s.connected then (none, s) else connect h s

-- A channel of one place.
unfoldable pub deliver_bind : BindResp → Agent → Agent
deliver_bind br s = elim (get s.pending_binds br.client_tunnel_id) [
  | none ↦ s
  | some [] ↦ record s { pending_binds = put s.pending_binds br.client_tunnel_id (br ∷ []) }
  | some (_ ∷ _) ↦ s
]

abbrev pub deliver_all : List BindResp → Agent → Agent
deliver_all [] s = s
deliver_all (br ∷ brs) s = deliver_all brs (deliver_bind br s)

-- One bind's surroundings: the identifier that is drawn, the error of the write, the responses that
-- come while it waits, and whether its context ends or its twenty seconds pass first, with the error.
pub record BindRun : Type 0 where
  pub client_tunnel_id : String
  pub write_failed : Option AgentError
  pub arrived : List BindResp
  pub gave_up : Option AgentError

abbrev pub option_if : String → String → List (String × String)
option_if key v = if v == "" then [] else (key, v) ∷ []

abbrev pub bind_type : Option TunnelType → TunnelType
bind_type none = TunnelType.http
bind_type (some t) = t

abbrev pub bind_tunnel : String → TunnelSpec → BindTunnel
bind_tunnel id spec = record {
  client_tunnel_id = id;
  type = bind_type (tunnel_type spec.proto);
  subdomain = spec.subdomain;
  custom_domain = spec.custom_domain;
  remote_port = spec.remote_port % 2 ^ 32;
  options = option_if "basic_auth" spec.basic_auth ++ option_if "host_header" spec.host_header;
}

abbrev pub active_tunnel : ℕ → String → TunnelSpec → BindResp → ActiveTunnel
active_tunnel now id spec br = record {
  spec = spec;
  client_tunnel_id = id;
  public_url = br.public_url;
  assigned_host = br.assigned_host;
  assigned_port = br.assigned_port;
  status = "online";
  created_at = now;
  metrics = record { connections = 0; requests = 0; bytes_in = 0; bytes_out = 0 };
}

pub data Bound : Type 0 where
  bound : Tunnel → Bound
  bind_failed : AgentError → Bound

-- What the select takes: the end of the wait, or the channel's response.
abbrev pub taken : Option AgentError → Option (List BindResp) → AgentError ⊎ BindResp
taken (some e) ch = inl e
taken none (some (br ∷ _)) = inr br
taken none (some []) = inl (code_internal, "bind timed out")
taken none none = inl (code_internal, "bind timed out")

abbrev pub settled : ℕ → String → TunnelSpec → AgentError ⊎ BindResp → Agent → Bound × Agent
settled now id spec (inl e) s = (bind_failed e, s)
settled now id spec (inr br) s =
    if not br.ok
    then (bind_failed (error_from_resp br.error), s)
    else let t = active_tunnel now id spec br in
      (bound (view t), emit (tunnel_event t) (record s { tunnels = put s.tunnels id t }))

-- The deferred end of a bind.
abbrev pub forget : String → Bound × Agent → Bound × Agent
forget id (r, s) = (r, record s { pending_binds = delete s.pending_binds id })

unfoldable pub bind : BindRun → ℕ → TunnelSpec → Agent → Bound × Agent
bind run now spec s =
    let id = run.client_tunnel_id in
    let (e, s1) =
      write_control run.write_failed (bind_env (bind_tunnel id spec))
        (record s { pending_binds = put s.pending_binds id [] }) in
    forget id (elim e [
      | some err ↦ (bind_failed err, s1)
      | none ↦
          let s2 = deliver_all run.arrived s1 in
          settled now id spec (taken run.gave_up (get s2.pending_binds id)) s2
    ])

abbrev pub or_self : String → Option String → String
or_self s none = s
or_self s (some t) = t

-- A spec with the defaults of StartTunnel.
abbrev pub with_defaults : TunnelSpec → TunnelSpec
with_defaults spec =
    let proto = if spec.proto == "" then "http" else spec.proto in
    record spec {
      proto = proto;
      name =
          if spec.name == ""
          then proto <> "-" <> or_self spec.addr (strip_prefix "localhost:" spec.addr)
          else spec.name;
    }

unfoldable pub start_tunnel : Handshake → BindRun → ℕ → TunnelSpec → Agent → Bound × Agent
start_tunnel h run now spec s =
    let spec' = with_defaults spec in
    elim (tunnel_type spec'.proto) [
      | none ↦ (bind_failed (code_proto_unsupported, "unknown proto " <> spec'.proto), s)
      | some _ ↦
          let (e, s') = ensure_connected h s in
          elim e [ some err ↦ (bind_failed err, s') | none ↦ bind run now spec' s' ]
    ]

-- The error of the write is ignored.
unfoldable pub stop_tunnel : Option AgentError → String → Agent → Option AgentError × Agent
stop_tunnel failed id s = elim (get s.tunnels id) [
  | none ↦ (some (code_internal, "no such tunnel " <> id), s)
  | some t ↦
      let s1 = if s.control then (write_control failed (unbind_env id) s).1 else s in
      (none, emit (tunnel_event t) (record s1 { tunnels = delete s1.tunnels id }))
]

unfoldable pub shutdown : Agent → Agent
shutdown s = record s { closed = true }

-- The tunnels to bind again, where the session was up and the agent is not shutting down.
unfoldable pub handle_session_down : ℕ → Agent → Option (List ActiveTunnel) × Agent
handle_session_down gen s =
    if not (gen == s.sess_gen) || not s.connected
    then (none, s)
    else let s1 = record s { connected = false; control = false } in
      (if s.closed then none else some (values s.tunnels), emit (status_event s1) s1)
