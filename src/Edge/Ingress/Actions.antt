-- ===== src/Edge/Ingress/Actions.antt =====
-- A property of all that a connection of internal/server/ingress_http.go does, from its kinds of actions.
use trqsh.Prelude.{
  ℕ, suc, ◌≡◌, ◌≢◌, refl, ap, String, Bool, true, false, not, ◌&&◌, Option, none, some, List, [],
  ◌∷◌, leb, if◌then◌else◌, ◌==◌, string_eq, arith, eq_iff, Bool-cases, Option-cases, inl, inr,
}
use mathlib.Core.List.{Memᴰ}
use trqsh.Edge.Routes.{host_route, Binding}
use trqsh.Edge.Registry.{lookup}
use trqsh.Edge.Hub.{BoundTunnel, Hub, lookup_host}
use trqsh.Edge.Ingress.{
  IngressConfig, HttpRequest, AgentSide, Exchange, Action, redirects, not_found, bad_gateway,
  proxies, forwards, unauthorized, sends, records, Split, Base64, host_only, reserved_upstream,
  check_basic_auth, stamped, max_basic_auth_failures, is_upgrade, dial_forward_with_retry, handed,
  forward_http, forwarding_enabled, or_404, unbound, responded, sent, serve,
}

module _ (P : Action → Type 0) where
  abbrev pub All : List Action → Type 0
  All [] = Unit
  All (a ∷ rest) = P a × All rest

  All-if : (b : Bool) (xs ys : List Action) → All xs → All ys → All (if b then xs else ys)
  All-if true xs ys a b = a
  All-if false xs ys a b = b

module _ (P : Action → Type 0) (cfg : IngressConfig) (reachable : String → Bool) (now : ℕ)
    (split : Split) (base64 : Base64) (hub : Hub) (scheme client_ip : String) (is_forwarded : Bool)
    (all : List Exchange) where
  -- What the actions of a connection with these exchanges have to satisfy.
  pub record Kept : Type 0 where
    pub redirected : P redirects
    pub missed : P not_found
    pub failed : P bad_gateway
    pub proxied : (up : String) → P (proxies up)
    pub challenged : (d : ℕ) → P (unauthorized d)
    pub recorded : (bt : BoundTunnel) (up down : ℕ) → P (records bt up down)
    pub delivered :
        (x : Exchange) (bt : BoundTunnel)
        → Memᴰ x all
        → lookup_host (host_only split x.request.host) hub ≡ some bt
        → check_basic_auth base64 x.request bt.options ≡ true
        → P (
            sends bt
              (stamped scheme (host_only split x.request.host) x.request_id client_ip bt x.request))
    pub handed_over :
        (host : String) (x : Exchange) (b : Binding) (e : String)
        → (forwarding_enabled cfg reachable now && not is_forwarded) ≡ true
        → lookup now (host_route host) x.registry ≡ some b
        → b.edge_id ≢ cfg.edge_id
        → (dial_forward_with_retry cfg reachable now b.edge_id host x.registry x.registry').0
          ≡ some e
        → P (forwards e)

  module _ (k : Kept) where
    handed-All :
        (host : String) (x : Exchange) (b : Binding)
        → (forwarding_enabled cfg reachable now && not is_forwarded) ≡ true
        → lookup now (host_route host) x.registry ≡ some b
        → b.edge_id ≢ cfg.edge_id
        → All P (
            handed cfg reachable now x.replayed
              (dial_forward_with_retry cfg reachable now b.edge_id host x.registry x.registry'))
    handed-All host x b f l n =
        from (dial_forward_with_retry cfg reachable now b.edge_id host x.registry x.registry') refl
      where
        from :
            (d : Option String × List String)
            → dial_forward_with_retry cfg reachable now b.edge_id host x.registry x.registry' ≡ d
            → All P (handed cfg reachable now x.replayed d)
        from (none, ds) q = (k.failed, tt)
        from (some e, ds) q =
            All-if P x.replayed _ _ (k.handed_over host x b e f l n (ap (λ y. y.0) q), tt)
              (k.failed, tt)

    forward_http-All :
        (host : String) (x : Exchange)
        → (forwarding_enabled cfg reachable now && not is_forwarded) ≡ true
        → All P (or_404 cfg reachable now (forward_http cfg reachable now host x))
    unfolding forward_http
    forward_http-All host x f = elim (Option-cases (lookup now (host_route host) x.registry)) [
      | inl e ↦ rw (e, forward_http) (k.missed, tt)
      | inr (b, e) ↦ elim (Bool-cases (b.edge_id == cfg.edge_id)) [
        | inl q ↦ rw (e, forward_http) (rw q (k.missed, tt))
        | inr q ↦
            rw (e, forward_http)
              (rw q (handed-All host x b f e (λ z. ground (arith, eq_iff b.edge_id cfg.edge_id))))
      ]
    ]

    unbound-All :
        (host : String) (x : Exchange) (rest : List Action)
        → All P rest
        → All P
            (unbound cfg reachable now split base64 hub scheme client_ip is_forwarded host x rest)
    unbound-All host x rest a =
        All-if P (not (reserved_upstream cfg host == "")) _ _
          (k.proxied _, All-if P x.upstream_keeps rest [] a tt)
          (elim (Bool-cases (forwarding_enabled cfg reachable now && not is_forwarded)) [
            | inl f ↦ rw f (forward_http-All host x f)
            | inr f ↦ rw f (k.missed, tt)
          ])

    responded-All :
        (bt : BoundTunnel) (req : HttpRequest) (agent : AgentSide) (r : Option (Option ℕ × Bool))
        (rest : List Action)
        → All P rest
        → All P (
            responded cfg reachable now split base64 hub scheme client_ip is_forwarded bt req agent
              r rest)
    responded-All bt req agent none rest a = (k.failed, tt)
    responded-All bt req agent (some (n, closes)) rest a =
        All-if P (not agent.delivered) [] _ tt (k.recorded bt _ _, All-if P _ [] rest tt a)

    sent-All :
        (bt : BoundTunnel) (req : HttpRequest) (agent : AgentSide) (rest : List Action)
        → P (sends bt req)
        → All P rest
        → All P (
            sent cfg reachable now split base64 hub scheme client_ip is_forwarded bt req agent rest)
    sent-All bt req agent rest p a =
        All-if P (not agent.opens) _ _ (k.failed, tt)
          (
            p,
            All-if P (not agent.written) [] _ tt (
                All-if P (is_upgrade req) _ _ (k.recorded bt _ _, tt)
                  (responded-All bt req agent agent.response rest a)),
          )

    rest-All :
        (xs : List Exchange) (failures : ℕ)
        → ((x : Exchange) → Memᴰ x xs → Memᴰ x all)
        → All P (serve cfg reachable now split base64 hub scheme client_ip is_forwarded xs failures)
    unfolding serve
    rest-All [] failures among = tt
    rest-All (x ∷ xs) failures among =
        let later : (y : Exchange) → Memᴰ y xs → Memᴰ y all = λ y m. among y (Memᴰ.tail m) in
        let host = host_only split x.request.host in
        All-if P (scheme == "http" && not (reserved_upstream cfg host == "")) _ _ (k.redirected, tt)
          (elim (Option-cases (lookup_host host hub)) [
            | inl e ↦ rw e (unbound-All host x _ (rest-All xs failures later))
            | inr (bt, e) ↦ elim (Bool-cases (check_basic_auth base64 x.request bt.options)) [
              | inl c ↦ rw e (
                  rw c (
                    sent-All bt _ x.agent _ (k.delivered x bt (among x (Memᴰ.head refl)) e c)
                      (rest-All xs failures later)))
              | inr c ↦ rw e (
                  rw c (
                    k.challenged _,
                    All-if P (leb max_basic_auth_failures (suc failures)) [] _ tt
                        (rest-All xs (suc failures) later),
                  ))
            ]
          ])

    pub serve-All :
        (failures : ℕ)
        → All P
            (serve cfg reachable now split base64 hub scheme client_ip is_forwarded all failures)
    serve-All failures = rest-All all failures (λ x m. m)
