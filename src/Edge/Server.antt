-- ===== src/Edge/Server.antt =====
-- The handlers of internal/server/server.go and the teardown of session.go. A handler is one step:
-- the races between its calls, metrics, logs and history reports are left out.
pub mod Agree
pub mod Sound
pub mod Outcome
pub mod Denied
pub mod Routing
use trqsh.Prelude.{
  ℕ, zero, suc, ◌*◌, String, Bool, true, false, not, ◌&&◌, Option, none, some, List, [], ◌∷◌,
  if◌then◌else◌, ◌==◌, string_eq, nat_eq,
}
use trqsh.Prelude.Text.{◌<>◌, to_lower, decimal}
use trqsh.Prelude.Dict.{Dict, empty, get, put, delete, values}
use trqsh.Authz.{
  BindRequest, Decision, Limits, code_internal, code_plan_forbids, code_subdomain_taken,
  code_subdomain_forbidden, code_port_unavailable,
}
use trqsh.Edge.Routes.{
  TunnelType, tcp, udp, proto_for_type, Route, host_route, route_of_port, Binding,
}
use trqsh.Edge.Registry.{Registry, bind, unbind}
use trqsh.Edge.Ports.{
  PortManager, OpenResult, opened, port_unavailable, listen_failed, open_port, release,
}
use trqsh.Edge.Hub.{
  BoundTunnel, AgentSession, Hub, bind_host, bind_port, unbind_tunnel, remove_session, lookup_host,
  add_session,
}

pub record EdgeConfig : Type 0 where
  pub base_domain : String
  pub region : String
  pub edge_id : String
  pub heartbeat_interval : ℕ

pub record BindTunnel : Type 0 where
  pub client_tunnel_id : String
  pub type : TunnelType
  pub subdomain : String
  pub custom_domain : String
  pub remote_port : ℕ
  pub options : List (String × String)

-- `error` is the code and the message.
pub record BindResp : Type 0 where
  pub client_tunnel_id : String
  pub ok : Bool
  pub public_url : String
  pub assigned_host : String
  pub assigned_port : ℕ
  pub error : Option (String × String)

-- The hub, the ports, the registry, and the `tunnels` map of each session by its id.
pub record Edge : Type 0 where
  pub hub : Hub
  pub ports : PortManager
  pub reg : Registry
  pub tunnels : Dict String (Dict String BoundTunnel)

abbrev pub or_empty : Option (Dict String BoundTunnel) → Dict String BoundTunnel
or_empty none = empty
or_empty (some d) = d

abbrev pub tunnels_of : String → Edge → Dict String BoundTunnel
tunnels_of session s = or_empty (get s.tunnels session)

abbrev set_tunnels : String → Dict String BoundTunnel → Edge → Edge
set_tunnels session d s = record s { tunnels = put s.tunnels session d }

-- the session's entry into the hub, in serveSession
unfoldable pub open_session : AgentSession → Edge → Edge
open_session a s = record s {
  hub = add_session a s.hub;
  tunnels = put s.tunnels a.session_id empty;
}

abbrev pub bind_err : BindTunnel → String → String → BindResp
bind_err b code msg = record {
  client_tunnel_id = b.client_tunnel_id;
  ok = false;
  public_url = "";
  assigned_host = "";
  assigned_port = 0;
  error = some (code, msg);
}

abbrev first_non_empty : String → String → String
first_non_empty a b = if a == "" then b else a

abbrev pub track_tunnel : BoundTunnel → Edge → Edge
track_tunnel bt s = set_tunnels bt.session (put (tunnels_of bt.session s) bt.client_tunnel_id bt) s

-- A host, or the code of the error.
pub data Allocation : Type 0 where
  allocated : String → Allocation
  refused : String → Allocation

module _ (cfg : EdgeConfig) where
  -- The loop over the random subdomains; `draw i` is the one that iteration `i` draws.
  random_host : Hub → (ℕ → String) → ℕ → ℕ → Allocation
  random_host h draw i zero = refused code_internal
  random_host h draw i (suc n) =
      let rest = random_host h draw (suc i) n in
      let host = draw i <> "." <> cfg.base_domain in
      elim (lookup_host host h) [ none ↦ allocated host | some _ ↦ rest ]

  named_host : Hub → Decision → String → Allocation
  named_host h dec sub =
      if not dec.limits.allow_reserved_subdomain
      then refused code_subdomain_forbidden
      else let host = to_lower sub <> "." <> cfg.base_domain in
        elim (lookup_host host h) [ none ↦ allocated host | some _ ↦ refused code_subdomain_taken ]

  unfoldable pub allocate_host : (ℕ → String) → BindTunnel → Decision → Hub → Allocation
  unfolding random_host named_host
  allocate_host draw b dec h =
      let sub = if b.subdomain == "" then dec.assigned_subdomain else b.subdomain in
      if not (b.custom_domain == "")
      then if dec.limits.allow_custom_domains
        then allocated (to_lower b.custom_domain)
        else refused code_plan_forbids
      else if not (sub == "")
      then named_host h dec sub
      else random_host h draw 0 8

  module _ (now : ℕ) where
    -- trackTunnel and the entry in the registry
    abbrev published : Route → BoundTunnel → Hub → Edge → Edge
    published route bt h s =
        let home : Binding = record { edge_id = cfg.edge_id; session_id = bt.session } in
        let s' = track_tunnel bt (record s { hub = h }) in
        record s' { reg = bind now route home (2 * cfg.heartbeat_interval) s'.reg }

    host_bound : BindTunnel → BoundTunnel → Option Hub → Edge → BindResp × Edge
    unfolding bind
    host_bound b bt none s =
        (bind_err b code_subdomain_taken ("host \"" <> bt.host <> "\" already bound"), s)
    host_bound b bt (some h) s = (
      record {
        client_tunnel_id = b.client_tunnel_id;
        ok = true;
        public_url = bt.public_url;
        assigned_host = bt.host;
        assigned_port = 0;
        error = none;
      },
      published (host_route bt.host) bt h s,
    )

    host_allocated : BindTunnel → BoundTunnel → Allocation → Edge → BindResp × Edge
    unfolding host_bound bind_host
    host_allocated b bt (refused code) s = (bind_err b code "could not allocate hostname", s)
    host_allocated b bt (allocated host) s =
        let bt' = record bt { host = host; public_url = "https://" <> host; started_at = now } in
        host_bound b bt' (bind_host bt' s.hub) s

    unfoldable pub bind_host_tunnel :
        (ℕ → String) → BindTunnel → BoundTunnel → Decision → Edge → BindResp × Edge
    unfolding host_allocated
    bind_host_tunnel draw b bt dec s = host_allocated b bt (allocate_host draw b dec s.hub) s

    port_bound : BindTunnel → BoundTunnel → Option Hub → Edge → BindResp × Edge
    unfolding bind
    port_bound b bt none s = (
      bind_err b code_port_unavailable
          ("port " <> proto_for_type bt.ttype <> ":" <> decimal bt.port <> " already bound"),
      record s { ports = release (proto_for_type bt.ttype) bt.port s.ports },
    )
    port_bound b bt (some h) s = (
      record {
        client_tunnel_id = b.client_tunnel_id;
        ok = true;
        public_url = bt.public_url;
        assigned_host = cfg.base_domain;
        assigned_port = bt.port;
        error = none;
      },
      published (route_of_port (proto_for_type bt.ttype) bt.port) bt h s,
    )

    port_opened : BindTunnel → BoundTunnel → OpenResult × PortManager → Edge → BindResp × Edge
    unfolding port_bound bind_port
    port_opened b bt (port_unavailable, pm) s =
        (bind_err b code_port_unavailable "no ports available", record s { ports = pm })
    port_opened b bt (listen_failed, pm) s =
        (bind_err b code_internal "listen failed", record s { ports = pm })
    port_opened b bt (opened port, pm) s =
        let typ = proto_for_type bt.ttype in
        let url = typ <> "://" <> cfg.base_domain <> ":" <> decimal port in
        let bt' = record bt { port = port; public_url = url; started_at = now } in
        port_bound b bt' (bind_port bt' s.hub) (record s { ports = pm })

    -- `listen` says whether the system opens a listener; its error text is not kept.
    unfoldable pub bind_port_tunnel :
        (String → ℕ → Bool) → BindTunnel → BoundTunnel → Edge → BindResp × Edge
    unfolding port_opened
    bind_port_tunnel listen b bt s =
        port_opened b bt (open_port listen (proto_for_type bt.ttype) b.remote_port s.ports) s

  abbrev pub bind_request : AgentSession → BindTunnel → BindRequest
  bind_request a b = record {
    api_key = a.api_key;
    type = proto_for_type b.type;
    subdomain = b.subdomain;
    custom_host = b.custom_domain;
    remote_port = b.remote_port;
    region = cfg.region;
  }

  abbrev pub new_tunnel : AgentSession → BindTunnel → Decision → BoundTunnel
  new_tunnel a b dec = record {
    client_tunnel_id = b.client_tunnel_id;
    account_id = first_non_empty dec.account_id a.account_id;
    plan = first_non_empty dec.plan a.plan;
    ttype = b.type;
    host = "";
    port = 0;
    options = b.options;
    session = a.session_id;
    public_url = "";
    started_at = 0;
  }

  module _ (now : ℕ) (listen : String → ℕ → Bool) (draw : ℕ → String) where
    by_type : AgentSession → BindTunnel → Decision → TunnelType → Edge → BindResp × Edge
    by_type a b dec tcp s =
        if dec.limits.allow_tcp
        then bind_port_tunnel now listen b (new_tunnel a b dec) s
        else (bind_err b code_plan_forbids "TCP tunnels not allowed on this plan", s)
    by_type a b dec udp s =
        if dec.limits.allow_udp
        then bind_port_tunnel now listen b (new_tunnel a b dec) s
        else (bind_err b code_plan_forbids "UDP tunnels not allowed on this plan", s)
    by_type a b dec TunnelType.http s = bind_host_tunnel now draw b (new_tunnel a b dec) dec s
    by_type a b dec TunnelType.https s = bind_host_tunnel now draw b (new_tunnel a b dec) dec s
    by_type a b dec TunnelType.tls s = bind_host_tunnel now draw b (new_tunnel a b dec) dec s

    decided : AgentSession → BindTunnel → Option Decision → Edge → BindResp × Edge
    unfolding by_type
    decided a b none s = (bind_err b code_internal "entitlement check failed", s)
    decided a b (some dec) s = if dec.allow then by_type a b dec b.type s else (
      bind_err b (if dec.error_code == "" then code_plan_forbids else dec.error_code)
          dec.error_message,
      s,
    )

    -- `check_bind` is the call of the control plane, `none` where it fails.
    unfoldable pub handle_bind :
        (BindRequest → Option Decision) → AgentSession → BindTunnel → Edge → BindResp × Edge
    unfolding decided
    handle_bind check_bind a b s = decided a b (check_bind (bind_request a b)) s

unfoldable pub release_tunnel : BoundTunnel → Edge → Edge
unfolding unbind_tunnel unbind release
release_tunnel bt s =
    let typ = proto_for_type bt.ttype in
    let r = if bt.host == "" then s.reg else unbind (host_route bt.host) s.reg in
    record s {
      hub = unbind_tunnel bt s.hub;
      ports = if bt.port == 0 then s.ports else release typ bt.port s.ports;
      reg = if bt.port == 0 then r else unbind (route_of_port typ bt.port) r;
    }

unbound : Option BoundTunnel → Edge → Edge
unfolding release_tunnel
unbound none s = s
unbound (some bt) s = release_tunnel bt s

unfoldable pub handle_unbind : AgentSession → String → Edge → Edge
unfolding unbound
handle_unbind a client_tunnel_id s =
    let tunnels = tunnels_of a.session_id s in
    let s' = set_tunnels a.session_id (delete tunnels client_tunnel_id) s in
    unbound (get tunnels client_tunnel_id) s'

release_all : List BoundTunnel → Edge → Edge
unfolding release_tunnel
release_all [] s = s
release_all (bt ∷ bts) s = release_all bts (release_tunnel bt s)

unfoldable pub teardown_session : AgentSession → Edge → Edge
unfolding release_all remove_session
teardown_session a s =
    let bts = values (tunnels_of a.session_id s) in
    let s' = release_all bts (set_tunnels a.session_id empty s) in
    record s' { hub = remove_session a (values (tunnels_of a.session_id s')) s'.hub }
