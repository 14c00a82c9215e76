-- ===== src/Edge/Tests.antt =====
-- The theorems on the edge of internal/server at concrete inputs.
use trqsh.Prelude.{
  ℕ, ◌*◌, ◌^◌, ◌%◌, eq_iff, List, ◌∷◌, String, ◌≡◌, ◌≢◌, refl, Bool, true, Option, none, some, [],
  arith, string_eq, nat_eq,
}
use trqsh.Prelude.Text.{to_lower, decimal}
use trqsh.Prelude.Dict.{get, put, delete, empty}
use trqsh.Authz.{BindRequest, Decision, stub_check_bind}
use trqsh.Edge.Routes.{http, tcp, PortKey, port_key_eq, proto_for_type, route_key}
use trqsh.Edge.Registry.{new_registry, bind, lookup}
use trqsh.Edge.Ports.{
  PortManager, new_port_manager, reserve, marked, open_port, release, set_tcp, set_udp,
}
use trqsh.Edge.Ports.Reserve.{Outcome, reserve_lem}
use trqsh.Edge.Hub.{
  AgentSession, new_hub, lookup_host, lookup_port, bind_host, bind_port, BoundTunnel,
}
use trqsh.Authz.{Usage}
use trqsh.Prelude.Int64.{int64_mod}
use trqsh.Edge.Usage.{Sample, Windows, flush, usage_key_eq}
use trqsh.Edge.Usage.Conserved.{recorded, reported_total, sampled_total, counts_out, flush-recorded}
use trqsh.Edge.Server.{
  Edge, EdgeConfig, BindTunnel, handle_bind, open_session, bind_host_tunnel, allocate_host,
  bind_port_tunnel, tunnels_of,
}
use trqsh.Edge.Server.Agree.{held}
use trqsh.Edge.Server.Outcome.{Owned}
use trqsh.Edge.Server.Routing.{
  KeepsOthers, Routed, handle_bind-KeepsOthers, handle_bind-Routed, handle_bind_refused,
}
use trqsh.Edge.History.{Reach, begins, then_step, opens, binds, new_edge}
use trqsh.Edge.History.Ports.{ports_agree}

program : Unit {0}
unfolding to_lower decimal get put delete empty stub_check_bind proto_for_type route_key
    new_registry bind lookup new_port_manager reserve open_port release set_tcp set_udp new_hub
    bind_host bind_port handle_bind open_session bind_host_tunnel allocate_host bind_port_tunnel
    new_edge
program = tt

abbrev config : EdgeConfig
config = record {
  base_domain = "trqsh.example";
  region = "eu";
  edge_id = "edge_1";
  heartbeat_interval = 20 * 10 ^ 9;
}

abbrev agent : AgentSession
agent = record { session_id = "s_1"; account_id = "dev"; plan = "pro"; api_key = "key" }

abbrev other : AgentSession
other = record agent { session_id = "s_2" }

abbrev web : BindTunnel
web = record {
  client_tunnel_id = "web";
  type = http;
  subdomain = "API";
  custom_domain = "";
  remote_port = 0;
  options = [];
}

abbrev db : BindTunnel
db = record web { client_tunnel_id = "db"; type = tcp; subdomain = "" }

abbrev stub : BindRequest → Option Decision
stub req = some (stub_check_bind req)

abbrev listens : String → ℕ → Bool
listens proto p = true

abbrev draw : ℕ → String
draw i = "rabcdefg"

abbrev start : Edge
start = open_session other (open_session agent (new_edge 2000 2001))

abbrev bound : Edge
bound = (handle_bind config 100 listens draw stub agent db start).1

bind_host_run :
    (handle_bind config 100 listens draw stub agent web start).0.assigned_host ≡ "api.trqsh.example"
unfolding program
bind_host_run = refl

bind_port_run :
    (handle_bind config 100 listens draw stub agent db bound).0.public_url
    ≡ "tcp://trqsh.example:2001"
unfolding program
bind_port_run = refl

abbrev pool : PortManager
pool = new_port_manager 2000 2001

reserve_lem_example : Outcome "tcp" 0 pool (reserve "tcp" 0 pool)
reserve_lem_example = reserve_lem "tcp" 0 pool

bound-Reach : Reach config 2000 2001 bound
bound-Reach =
    then_step start bound
      (then_step (open_session agent (new_edge 2000 2001)) start
        (then_step (new_edge 2000 2001) (open_session agent (new_edge 2000 2001)) begins
          (opens agent))
        (opens other))
      (binds 100 listens draw stub agent db)

ports_agree_example :
    marked bound.ports.used_tcp 2000 ≡ held (lookup_port "tcp" 2000 bound.hub)
    × marked bound.ports.tcp 2000 ≡ marked bound.ports.used_tcp 2000
    × marked bound.ports.used_udp 2000 ≡ held (lookup_port "udp" 2000 bound.hub)
    × marked bound.ports.udp 2000 ≡ marked bound.ports.used_udp 2000
ports_agree_example = ports_agree config 2000 2001 (omega arith) bound bound-Reach 2000

handle_bind-KeepsOthers_example :
    let s' = (handle_bind config 200 listens draw stub other db bound).1 in
    ((host : String) → KeepsOthers (lookup_host host bound.hub) (lookup_host host s'.hub) "s_2")
    × ((k : PortKey) → KeepsOthers (get bound.hub.by_port k) (get s'.hub.by_port k) "s_2")
handle_bind-KeepsOthers_example =
    handle_bind-KeepsOthers config 200 other db bound listens draw stub

handle_bind-Routed_example :
    let (r, s') = handle_bind config 100 listens draw stub agent web start in
    (bt : BoundTunnel) × get (tunnels_of "s_1" s') "web" ≡ some bt
    × Owned agent web bt
    × Routed config 100 agent web start 300 r bt s'
unfolding program
handle_bind-Routed_example =
    handle_bind-Routed config 100 agent web start listens draw stub 300 (omega arith) refl

abbrev silent : BindRequest → Option Decision
silent req = none

handle_bind_refused_example :
    let (r, s') = handle_bind config 100 listens draw silent agent web start in
    s'.hub ≡ start.hub × s'.reg ≡ start.reg × s'.tunnels ≡ start.tunnels × r.error ≢ none
unfolding program
handle_bind_refused_example =
    handle_bind_refused config 100 agent web start listens draw silent refl

abbrev sample : Sample
sample = record {
  account_id = "acc_1";
  tunnel_id = "web";
  bytes_in = 5;
  bytes_out = 7;
  requests = 1;
}

abbrev samples : List (ℕ × Sample)
samples = (10, sample) ∷ (20, record sample { tunnel_id = "db" }) ∷ (30, sample) ∷ []

abbrev flushed : List Usage × Windows
flushed = flush 100 (recorded samples empty)

flush-recorded_example :
    reported_total counts_out "acc_1" flushed.0 % int64_mod
      ≡ sampled_total counts_out "acc_1" samples % int64_mod
    × flushed.1 ≡ empty
flush-recorded_example =
    flush-recorded counts_out "acc_1" 100 samples (λ e. absurd (ground (arith, eq_iff "acc_1" "")))
