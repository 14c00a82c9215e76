-- ===== src/Edge/Hub.antt =====
-- Hub of internal/server/hub.go. A session is known by its session id, which is drawn at random and
-- taken to be unique; the traffic counters of a tunnel are not part of its record here.
use trqsh.Prelude.{
  ℕ, String, Bool, true, Option, none, some, List, [], ◌∷◌, ◌++◌, map, ◌+◌, if◌then◌else◌, ◌==◌,
  string_eq, nat_eq,
}
use trqsh.Prelude.Dict.{Dict, empty, get, put, delete, keys, values, size}
use trqsh.Edge.Routes.{
  TunnelType, PortKey, port_key_eq, proto_for_type, Route, host_route, route_of_port,
}

pub record BoundTunnel : Type 0 where
  pub client_tunnel_id : String
  pub account_id : String
  pub plan : String
  pub ttype : TunnelType
  pub host : String
  pub port : ℕ
  pub options : List (String × String)
  pub session : String
  pub public_url : String
  pub started_at : ℕ

pub record AgentSession : Type 0 where
  pub session_id : String
  pub account_id : String
  pub plan : String
  pub api_key : String

pub record Hub : Type 0 where
  pub by_host : Dict String BoundTunnel
  pub by_port : Dict PortKey BoundTunnel
  pub sessions : Dict String AgentSession

unfoldable pub new_hub : Hub
new_hub = record { by_host = empty; by_port = empty; sessions = empty }

abbrev pub key_of : BoundTunnel → PortKey
key_of bt = record { proto = proto_for_type bt.ttype; port = bt.port }

abbrev pub add_session : AgentSession → Hub → Hub
add_session a h = record h { sessions = put h.sessions a.session_id a }

-- The route is free, or its holder is a tunnel of the same session.
abbrev pub free_for : String → Option BoundTunnel → Bool
free_for session none = true
free_for session (some existing) = existing.session == session

-- An error is `none`.
unfoldable pub bind_host : BoundTunnel → Hub → Option Hub
bind_host bt h =
    if free_for bt.session (get h.by_host bt.host)
    then some (record h { by_host = put h.by_host bt.host bt })
    else none

unfoldable pub bind_port : BoundTunnel → Hub → Option Hub
bind_port bt h =
    if free_for bt.session (get h.by_port (key_of bt))
    then some (record h { by_port = put h.by_port (key_of bt) bt })
    else none

unfoldable pub unbind_tunnel : BoundTunnel → Hub → Hub
unbind_tunnel bt h = record h {
  by_host = if bt.host == "" then h.by_host else delete h.by_host bt.host;
  by_port = if bt.port == 0 then h.by_port else delete h.by_port (key_of bt);
}

unfoldable pub unbind_all : List BoundTunnel → Hub → Hub
unfolding unbind_tunnel
unbind_all [] h = h
unbind_all (bt ∷ bts) h = unbind_all bts (unbind_tunnel bt h)

-- `tunnels` are the ones the session has still bound.
unfoldable pub remove_session : AgentSession → List BoundTunnel → Hub → Hub
unfolding unbind_all
remove_session a tunnels h =
    unbind_all tunnels (record h { sessions = delete h.sessions a.session_id })

abbrev pub lookup_host : String → Hub → Option BoundTunnel
lookup_host host h = get h.by_host host

abbrev pub lookup_port : String → ℕ → Hub → Option BoundTunnel
lookup_port proto port h = get h.by_port (record { proto = proto; port = port })

unfoldable pub stats : Hub → ℕ × ℕ
stats h = (size h.sessions, size h.by_host + size h.by_port)

unfoldable pub snapshot_routes : Hub → List Route
snapshot_routes h =
    map host_route (keys h.by_host)
    ++ map (λ bt. route_of_port (proto_for_type bt.ttype) bt.port) (values h.by_port)
