-- ===== src/Edge/Routes.antt =====
-- Tunnel types of pkg/proto and the routes of internal/server/registry.go and hub.go. A key that the
-- source prints, such as "port:tcp:2222", stands as the values it is printed from.
use trqsh.Prelude.{
  ℕ, String, ◌≡◌, ◌↔◌, Bool, true, false, ◌&&◌, if◌then◌else◌, ◌==◌, Comparable, string_eq, nat_eq,
  arith, eq_iff,
}
use trqsh.Prelude.Text.{to_lower}

pub data TunnelType : Type 0 where
  http https tls tcp udp : TunnelType

unfoldable pub proto_for_type : TunnelType → String
proto_for_type udp = "udp"
proto_for_type tcp = "tcp"
proto_for_type tls = "tls"
proto_for_type https = "https"
proto_for_type http = "http"

-- "tcp:2222"
pub record PortKey : Type 0 where
  pub proto : String
  pub port : ℕ

abbrev same_port : PortKey → PortKey → Bool
same_port a b = a.proto == b.proto && a.port == b.port

pub same_port_iff : (a b : PortKey) → (same_port a b ≡ true) ↔ (a ≡ b)
same_port_iff a b = ground (arith, eq_iff a.proto b.proto)

instance abbrev pub port_key_eq : Comparable PortKey
port_key_eq = record { same = same_port; same_iff = same_port_iff }

pub record Route : Type 0 where
  pub host : String
  pub proto : String
  pub port : ℕ

-- "host:api.example" or "port:tcp:2222"
pub data RouteKey : Type 0 where
  host_key : String → RouteKey
  port_route : PortKey → RouteKey

-- Route.Key
unfoldable pub route_key : Route → RouteKey
route_key r =
    if r.host == ""
    then port_route (record { proto = r.proto; port = r.port })
    else host_key (to_lower r.host)

abbrev same_route : RouteKey → RouteKey → Bool
same_route (host_key a) (host_key b) = a == b
same_route (port_route a) (port_route b) = same_port a b
same_route (host_key a) (port_route b) = false
same_route (port_route a) (host_key b) = false

pub same_route_iff : (a b : RouteKey) → (same_route a b ≡ true) ↔ (a ≡ b)
same_route_iff (host_key a) (host_key b) = ground (arith, eq_iff a b)
same_route_iff (port_route a) (port_route b) = ground (arith, same_port_iff a b)
same_route_iff (host_key a) (port_route b) = ground arith
same_route_iff (port_route a) (host_key b) = ground arith

instance abbrev pub route_key_eq : Comparable RouteKey
route_key_eq = record { same = same_route; same_iff = same_route_iff }

abbrev pub host_route : String → Route
host_route host = record { host = host; proto = ""; port = 0 }

abbrev pub route_of_port : String → ℕ → Route
route_of_port proto port = record { host = ""; proto = proto; port = port }

-- The edge and the session where a route is homed.
pub record Binding : Type 0 where
  pub edge_id : String
  pub session_id : String
