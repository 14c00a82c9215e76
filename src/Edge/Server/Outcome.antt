-- ===== src/Edge/Server/Outcome.antt =====
-- The ways in which handleBind of internal/server/server.go can end.
use trqsh.Prelude.{
  ℕ, String, ◌≡◌, refl, inl, inr, Bool, true, Option, none, some, string_eq, Bool-cases,
}
use trqsh.Authz.{BindRequest, Decision}
use trqsh.Edge.Routes.{
  TunnelType, http, https, tls, tcp, udp, proto_for_type, host_route, route_of_port,
}
use trqsh.Edge.Ports.{PortManager, OpenResult, opened, port_unavailable, listen_failed}
use trqsh.Edge.Hub.{BoundTunnel, AgentSession, Hub, bind_host, bind_port}
use trqsh.Edge.Server.{
  Edge, EdgeConfig, BindTunnel, BindResp, bind_err, published, handle_bind, decided, by_type,
  bind_host_tunnel, host_allocated, host_bound, bind_port_tunnel, port_opened, port_bound,
  Allocation, allocated, refused, new_tunnel,
}

-- The session's own tunnel under the identifier that the agent gave.
abbrev pub Owned : AgentSession → BindTunnel → BoundTunnel → Type 0
Owned a b bt =
    bt.session ≡ a.session_id × bt.client_tunnel_id ≡ b.client_tunnel_id × bt.ttype ≡ b.type

-- A refusal can leave only the port pool in another state.
pub data BindOutcome (cfg : EdgeConfig) (now : ℕ) (a : AgentSession) (b : BindTunnel) (s : Edge)
    : BindResp × Edge → Type 0 where
  refuses :
      (code msg : String) (pm : PortManager)
      → BindOutcome cfg now a b s (bind_err b code msg, record s { ports = pm })
  gives_host :
      (bt : BoundTunnel) (h : Hub)
      → Owned a b bt
      → bt.port ≡ 0
      → bind_host bt s.hub ≡ some h
      → BindOutcome cfg now a b s (
        record {
          client_tunnel_id = b.client_tunnel_id;
          ok = true;
          public_url = bt.public_url;
          assigned_host = bt.host;
          assigned_port = 0;
          error = none;
        },
        published cfg now (host_route bt.host) bt h s,
      )
  gives_port :
      (bt : BoundTunnel) (h : Hub) (pm : PortManager)
      → Owned a b bt
      → bt.host ≡ ""
      → bind_port bt s.hub ≡ some h
      → BindOutcome cfg now a b s (
        record {
          client_tunnel_id = b.client_tunnel_id;
          ok = true;
          public_url = bt.public_url;
          assigned_host = cfg.base_domain;
          assigned_port = bt.port;
          error = none;
        },
        published cfg now
            (route_of_port (proto_for_type bt.ttype) bt.port)
            bt
            h
            (record s { ports = pm }),
      )

module _ (cfg : EdgeConfig) (now : ℕ) (a : AgentSession) (b : BindTunnel) (s : Edge) where
  host_bound-BindOutcome :
      (bt : BoundTunnel) (o : Option Hub)
      → Owned a b bt
      → bt.port ≡ 0
      → bind_host bt s.hub ≡ o
      → BindOutcome cfg now a b s (host_bound cfg now b bt o s)
  unfolding host_bound
  host_bound-BindOutcome bt none w z e = refuses _ _ s.ports
  host_bound-BindOutcome bt (some h) w z e = gives_host bt h w z e

  host_allocated-BindOutcome :
      (bt : BoundTunnel) (al : Allocation)
      → Owned a b bt
      → bt.port ≡ 0
      → BindOutcome cfg now a b s (host_allocated cfg now b bt al s)
  unfolding host_allocated
  host_allocated-BindOutcome bt (refused code) w z = refuses _ _ s.ports
  host_allocated-BindOutcome bt (allocated host) w z = host_bound-BindOutcome _ _ w z refl

  port_bound-BindOutcome :
      (bt : BoundTunnel) (pm : PortManager) (o : Option Hub)
      → Owned a b bt
      → bt.host ≡ ""
      → bind_port bt s.hub ≡ o
      → BindOutcome cfg now a b s (port_bound cfg now b bt o (record s { ports = pm }))
  unfolding port_bound
  port_bound-BindOutcome bt pm none w z e = refuses _ _ _
  port_bound-BindOutcome bt pm (some h) w z e = gives_port bt h pm w z e

  port_opened-BindOutcome :
      (bt : BoundTunnel) (r : OpenResult × PortManager)
      → Owned a b bt
      → bt.host ≡ ""
      → BindOutcome cfg now a b s (port_opened cfg now b bt r s)
  unfolding port_opened
  port_opened-BindOutcome bt (port_unavailable, pm) w z = refuses _ _ pm
  port_opened-BindOutcome bt (listen_failed, pm) w z = refuses _ _ pm
  port_opened-BindOutcome bt (opened p, pm) w z = port_bound-BindOutcome _ pm _ w z refl

  module _ (listen : String → ℕ → Bool) (draw : ℕ → String) where
    by_type-BindOutcome :
        (dec : Decision) (t : TunnelType)
        → BindOutcome cfg now a b s (by_type cfg now listen draw a b dec t s)
    unfolding by_type bind_host_tunnel bind_port_tunnel
    by_type-BindOutcome dec tcp = elim (Bool-cases dec.limits.allow_tcp) [
      | inl e ↦ rw e (port_opened-BindOutcome (new_tunnel cfg a b dec) _ (refl, refl, refl) refl)
      | inr e ↦ rw e (refuses _ _ s.ports)
    ]
    by_type-BindOutcome dec udp = elim (Bool-cases dec.limits.allow_udp) [
      | inl e ↦ rw e (port_opened-BindOutcome (new_tunnel cfg a b dec) _ (refl, refl, refl) refl)
      | inr e ↦ rw e (refuses _ _ s.ports)
    ]
    by_type-BindOutcome dec http =
        host_allocated-BindOutcome (new_tunnel cfg a b dec) _ (refl, refl, refl) refl
    by_type-BindOutcome dec https =
        host_allocated-BindOutcome (new_tunnel cfg a b dec) _ (refl, refl, refl) refl
    by_type-BindOutcome dec tls =
        host_allocated-BindOutcome (new_tunnel cfg a b dec) _ (refl, refl, refl) refl

    decided-BindOutcome :
        (dec : Option Decision) → BindOutcome cfg now a b s (decided cfg now listen draw a b dec s)
    unfolding decided
    decided-BindOutcome none = refuses _ _ s.ports
    decided-BindOutcome (some dec) = elim (Bool-cases dec.allow) [
      | inl e ↦ simp e (by_type-BindOutcome dec b.type)
      | inr e ↦ simp e (refuses _ _ s.ports)
    ]

    pub handle_bind-BindOutcome :
        (check_bind : BindRequest → Option Decision)
        → BindOutcome cfg now a b s (handle_bind cfg now listen draw check_bind a b s)
    unfolding handle_bind
    handle_bind-BindOutcome check_bind = decided-BindOutcome _
