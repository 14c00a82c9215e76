-- ===== src/Edge/Server/Routing.antt =====
-- What a bind does to the routes of this edge, of the session that binds and of the others.
use trqsh.Prelude.{
  ℕ, ◌+◌, ◌*◌, ◌≤◌, String, ◌≡◌, ◌≢◌, refl, ◌⊎◌, inl, inr, Bool, true, false, Option, none, some,
  arith, string_eq, nat_eq, eq_iff, eq_refl, ap, subst, ◌∙◌,
}
use trqsh.Prelude.Dict.{get, put, get-put}
use trqsh.Authz.{BindRequest, Decision}
use trqsh.Edge.Routes.{
  PortKey, port_key_eq, route_key, route_key_eq, proto_for_type, Route, host_route, route_of_port,
  Binding, same_route_iff, same_port_iff,
}
use trqsh.Edge.Registry.{Registry, bind, lookup, expiry_from}
use trqsh.Edge.Hub.{
  BoundTunnel, AgentSession, Hub, bind_host, bind_port, key_of, lookup_host, lookup_port,
}
use trqsh.Edge.Server.{
  Edge, EdgeConfig, BindTunnel, BindResp, handle_bind, tunnels_of, track_tunnel,
}
use trqsh.Edge.Server.Outcome.{
  BindOutcome, refuses, gives_host, gives_port, handle_bind-BindOutcome, Owned,
}

-- A table after an entry for a tunnel of `session`, with the others' entries kept.
abbrev pub KeepsOthers : Option BoundTunnel → Option BoundTunnel → String → Type 0
KeepsOthers before after session =
    (bt : BoundTunnel) → before ≡ some bt → bt.session ≢ session → after ≡ some bt

bind_host-KeepsOthers :
    (bt : BoundTunnel) (h h' : Hub) (host : String)
    → bind_host bt h ≡ some h'
    → KeepsOthers (lookup_host host h) (lookup_host host h') bt.session × h'.by_port ≡ h.by_port
unfolding bind_host
bind_host-KeepsOthers bt h h' host e = (
  λ o f n.
      ground (
        arith,
        get-put h.by_host bt.host host bt,
        eq_iff bt.host host,
        eq_iff o.session bt.session,
      ),
  ground arith,
)

bind_port-KeepsOthers :
    (bt : BoundTunnel) (h h' : Hub) (k : PortKey)
    → bind_port bt h ≡ some h'
    → KeepsOthers (get h.by_port k) (get h'.by_port k) bt.session × h'.by_host ≡ h.by_host
unfolding bind_port
bind_port-KeepsOthers bt h h' k e = (
  λ o f n. ground (
    arith,
    get-put h.by_port (key_of bt) k bt,
    same_port_iff (key_of bt) k,
    eq_iff o.session bt.session,
  ),
  ground arith,
)

bind_host-mine :
    (bt : BoundTunnel) (h h' : Hub) → bind_host bt h ≡ some h' → lookup_host bt.host h' ≡ some bt
unfolding bind_host
bind_host-mine bt h h' e = ground (arith, get-put h.by_host bt.host bt.host bt, eq_refl bt.host)

bind_port-mine :
    (bt : BoundTunnel) (h h' : Hub)
    → bind_port bt h ≡ some h'
    → lookup_port (proto_for_type bt.ttype) bt.port h' ≡ some bt
unfolding bind_port
bind_port-mine bt h h' e =
    ground
      (arith, get-put h.by_port (key_of bt) (key_of bt) bt, same_port_iff (key_of bt) (key_of bt))

bind-lookup :
    (now now' ttl : ℕ) (route : Route) (b : Binding) (r : Registry)
    → now' ≤ now + ttl
    → lookup now' route (bind now route b ttl r) ≡ some b
unfolding bind lookup
bind-lookup now now' ttl route b r h = ground (
  arith,
  get-put r.routes (route_key route) (route_key route)
      (record { value = b; expiry = expiry_from now ttl }),
  same_route_iff (route_key route) (route_key route),
)

tracked-mine :
    (bt : BoundTunnel) (s : Edge) (session id : String)
    → bt.session ≡ session
    → bt.client_tunnel_id ≡ id
    → get (tunnels_of session (track_tunnel bt s)) id ≡ some bt
tracked-mine bt s session id e f =
    let d = tunnels_of bt.session s in
    ground (
      arith,
      get-put s.tunnels bt.session session (put d bt.client_tunnel_id bt),
      get-put d bt.client_tunnel_id id bt,
      eq_iff bt.session session,
      eq_iff bt.client_tunnel_id id,
    )

homed :
    (cfg : EdgeConfig) (now now' ttl : ℕ) (route : Route) (session session' : String) (r : Registry)
    → session ≡ session'
    → now' ≤ now + ttl
    → lookup now' route
        (bind now route (record { edge_id = cfg.edge_id; session_id = session }) ttl r)
      ≡ some (record { edge_id = cfg.edge_id; session_id = session' })
homed cfg now now' ttl route session session' r e h =
    bind-lookup now now' ttl route _ r h
    ∙ ap (λ i. some (record { edge_id = cfg.edge_id; session_id = i })) e

module _ (cfg : EdgeConfig) (now : ℕ) (a : AgentSession) (b : BindTunnel) (s : Edge) where
  Others : Edge → Type 0
  Others s' =
      ((host : String)
        → KeepsOthers (lookup_host host s.hub) (lookup_host host s'.hub) a.session_id)
      × ((k : PortKey) → KeepsOthers (get s.hub.by_port k) (get s'.hub.by_port k) a.session_id)

  outcome-Others : (o : BindResp × Edge) → BindOutcome cfg now a b s o → Others o.1
  unfolding Others
  outcome-Others _ (refuses code msg pm) = (λ host bt e n. e, λ k bt e n. e)
  outcome-Others _ (gives_host bt h (e, _, _) z f) = (
    λ host.
        subst (KeepsOthers (lookup_host host s.hub) (lookup_host host h)) e
          (bind_host-KeepsOthers bt s.hub h host f).0,
    λ k o g n. ap (λ d. get d k) (bind_host-KeepsOthers bt s.hub h "" f).1 ∙ g,
  )
  outcome-Others _ (gives_port bt h pm (e, _, _) z f) = (
    λ host o g n. ap (λ d. get d host) (bind_port-KeepsOthers bt s.hub h (key_of bt) f).1 ∙ g,
    λ k.
        subst (KeepsOthers (get s.hub.by_port k) (get h.by_port k)) e
          (bind_port-KeepsOthers bt s.hub h k f).0,
  )

  -- The tunnel `bt` is the session's, and the hub and the registry lead to it until `now'`.
  abbrev pub Routed : ℕ → BindResp → BoundTunnel → Edge → Type 0
  Routed now' r bt s' =
      let home : Binding = record { edge_id = cfg.edge_id; session_id = a.session_id } in
      let leads : Route → Type 0 = λ route. lookup now' route s'.reg ≡ some home in
      (lookup_host r.assigned_host s'.hub ≡ some bt × leads (host_route r.assigned_host))
      ⊎ (let proto = proto_for_type b.type in
          lookup_port proto r.assigned_port s'.hub ≡ some bt
          × leads (route_of_port proto r.assigned_port))

  outcome-Routed :
      (now' : ℕ) (o : BindResp × Edge)
      → BindOutcome cfg now a b s o
      → now' ≤ now + 2 * cfg.heartbeat_interval
      → o.0.ok ≡ true
      → (bt : BoundTunnel) × get (tunnels_of a.session_id o.1) b.client_tunnel_id ≡ some bt
        × Owned a b bt
        × Routed now' o.0 bt o.1
  outcome-Routed now' _ (refuses code msg pm) h e = absurd (ground arith)
  outcome-Routed now' _ (gives_host bt h w z f) l e = (
    bt,
    tracked-mine bt s a.session_id b.client_tunnel_id w.0 w.1,
    w,
    inl (bind_host-mine bt s.hub h f, homed cfg now now' _ (host_route bt.host) _ _ s.reg w.0 l),
  )
  outcome-Routed now' _ (gives_port bt h pm w z f) l e =
      let proto = proto_for_type bt.ttype in
      (
        bt,
        tracked-mine bt s a.session_id b.client_tunnel_id w.0 w.1,
        w,
        inr (
            subst
              (λ t.
                lookup_port (proto_for_type t) bt.port h ≡ some bt
                × lookup now' (route_of_port (proto_for_type t) bt.port) (
                    bind now (route_of_port proto bt.port)
                      (record { edge_id = cfg.edge_id; session_id = bt.session })
                      (2 * cfg.heartbeat_interval) s.reg)
                  ≡ some (record { edge_id = cfg.edge_id; session_id = a.session_id }))
              w.2
              (
                bind_port-mine bt s.hub h f,
                homed cfg now now' _ (route_of_port proto bt.port) _ _ s.reg w.0 l,
              )),
      )

  outcome_refused :
      (o : BindResp × Edge)
      → BindOutcome cfg now a b s o
      → o.0.ok ≡ false
      → o.1.hub ≡ s.hub × o.1.reg ≡ s.reg × o.1.tunnels ≡ s.tunnels × o.0.error ≢ none
  outcome_refused _ (refuses code msg pm) e = (refl, refl, refl, λ n. absurd (ground arith))
  outcome_refused _ (gives_host bt h w z f) e = absurd (ground arith)
  outcome_refused _ (gives_port bt h pm w z f) e = absurd (ground arith)

  module _ (listen : String → ℕ → Bool) (draw : ℕ → String)
      (check_bind : BindRequest → Option Decision) where
    -- Whatever it answers, a bind leaves every route that another session holds with that session:
    -- no hostname and no port is taken over.
    pub handle_bind-KeepsOthers :
        let s' = (handle_bind cfg now listen draw check_bind a b s).1 in
        ((host : String)
          → KeepsOthers (lookup_host host s.hub) (lookup_host host s'.hub) a.session_id)
        × ((k : PortKey) → KeepsOthers (get s.hub.by_port k) (get s'.hub.by_port k) a.session_id)
    unfolding Others
    handle_bind-KeepsOthers =
        outcome-Others _ (handle_bind-BindOutcome cfg now a b s listen draw check_bind)

    -- After a bind that answers ok, the session tracks a tunnel of the requested type under the
    -- requested identifier, the hub leads to it from the assigned host or from the assigned port, and
    -- so does the registry, with this edge and session, for two heartbeat intervals.
    pub handle_bind-Routed :
        (now' : ℕ)
        → now' ≤ now + 2 * cfg.heartbeat_interval
        → (handle_bind cfg now listen draw check_bind a b s).0.ok ≡ true
        → let (r, s') = handle_bind cfg now listen draw check_bind a b s in
          (bt : BoundTunnel) × get (tunnels_of a.session_id s') b.client_tunnel_id ≡ some bt
          × Owned a b bt
          × Routed now' r bt s'
    handle_bind-Routed now' =
        outcome-Routed now' _ (handle_bind-BindOutcome cfg now a b s listen draw check_bind)

    -- A bind that is refused changes no route, no registry entry and no session.
    pub handle_bind_refused :
        (handle_bind cfg now listen draw check_bind a b s).0.ok ≡ false
        → let (r, s') = handle_bind cfg now listen draw check_bind a b s in
          s'.hub ≡ s.hub × s'.reg ≡ s.reg × s'.tunnels ≡ s.tunnels × r.error ≢ none
    handle_bind_refused =
        outcome_refused _ (handle_bind-BindOutcome cfg now a b s listen draw check_bind)
