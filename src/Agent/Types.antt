-- ===== src/Agent/Types.antt =====
-- The agent's state and the types of internal/agent/core.go.
use trqsh.Prelude.{
  string_eq, ℕ, String, Bool, false, Option, none, some, List, [], ◌∷◌, ◌++◌, map, length, ltb,
  if◌then◌else◌,
}
use trqsh.Prelude.Dict.{Dict, empty, values}
use trqsh.Edge.Server.{BindTunnel, BindResp}

-- Error: a code and a message
abbrev pub AgentError : Type 0
AgentError = String × String

pub record Status : Type 0 where
  pub connected : Bool
  pub account_id : String
  pub plan : String
  pub edge : String
  pub kind : String

pub record TunnelSpec : Type 0 where
  pub name : String
  pub proto : String
  pub addr : String
  pub subdomain : String
  pub custom_domain : String
  pub basic_auth : String
  pub host_header : String
  pub remote_port : ℕ

pub record TunnelMetrics : Type 0 where
  pub connections : ℕ
  pub requests : ℕ
  pub bytes_in : ℕ
  pub bytes_out : ℕ

pub record Tunnel : Type 0 where
  pub id : String
  pub name : String
  pub proto : String
  pub local_addr : String
  pub public_url : String
  pub status : String
  pub metrics : TunnelMetrics
  pub created_at : ℕ

-- An Event without the fields for captured requests and pairing, which other files set.
pub record Event : Type 0 where
  pub type : String
  pub status : Option Status
  pub tunnel : Option Tunnel
  pub err : String

pub record ActiveTunnel : Type 0 where
  pub spec : TunnelSpec
  pub client_tunnel_id : String
  pub public_url : String
  pub assigned_host : String
  pub assigned_port : ℕ
  pub status : String
  pub created_at : ℕ
  pub metrics : TunnelMetrics

unfoldable pub view : ActiveTunnel → Tunnel
view t = record {
  id = t.client_tunnel_id;
  name = t.spec.name;
  proto = t.spec.proto;
  local_addr = t.spec.addr;
  public_url = t.public_url;
  status = t.status;
  metrics = t.metrics;
  created_at = t.created_at;
}

-- What the agent writes to its control stream.
pub data Envelope : Type 0 where
  bind_env : BindTunnel → Envelope
  unbind_env : String → Envelope
  pong_env : ℕ → Envelope

-- `control` tells whether there is a control stream, and `sent` what was written to it; a pending
-- bind's channel has what its reader has not taken.
pub record Agent : Type 0 where
  pub server : String
  pub api_key : String
  pub control : Bool
  pub sent : List Envelope
  pub connected : Bool
  pub account_id : String
  pub plan : String
  pub kind : String
  pub tunnels : Dict String ActiveTunnel
  pub pending_binds : Dict String (List BindResp)
  pub events : List Event
  pub closed : Bool
  pub sess_gen : ℕ

-- New
abbrev pub new_agent : String → String → Agent
new_agent server api_key = record {
  server = server;
  api_key = api_key;
  control = false;
  sent = [];
  connected = false;
  account_id = "";
  plan = "";
  kind = "";
  tunnels = empty;
  pending_binds = empty;
  events = [];
  closed = false;
  sess_gen = 0;
}

-- Status()
abbrev pub status_of : Agent → Status
status_of s = record {
  connected = s.connected;
  account_id = s.account_id;
  plan = s.plan;
  edge = s.server;
  kind = s.kind;
}

unfoldable pub list_tunnels : Agent → List Tunnel
list_tunnels s = map view (values s.tunnels)

-- The events' channel has 256 places.
unfoldable pub emit : Event → Agent → Agent
emit ev s = if ltb (length s.events) 256 then record s { events = s.events ++ (ev ∷ []) } else s

abbrev pub status_event : Agent → Event
status_event s = record { type = "status"; status = some (status_of s); tunnel = none; err = "" }

abbrev pub tunnel_event : ActiveTunnel → Event
tunnel_event t = record { type = "tunnel"; status = none; tunnel = some (view t); err = "" }

abbrev pub error_event : String → Event
error_event msg = record { type = "error"; status = none; tunnel = none; err = msg }
