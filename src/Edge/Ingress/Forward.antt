-- ===== src/Edge/Ingress/Forward.antt =====
-- Where the ingress of internal/server hands a connection to another edge (forward.go).
use trqsh.Prelude.{
  ℕ, ◌≡◌, ◌≢◌, ◌⊎◌, refl, sym, ap, ◌∙◌, String, Bool, true, false, ◌||◌, Option, none, some, List,
  [], ◌∷◌, if◌then◌else◌, ◌==◌, string_eq, arith, eq_iff, Bool-cases, inl, inr,
}
use mathlib.Core.Option.{some_inj}
use trqsh.Edge.Routes.{host_route, Binding}
use trqsh.Edge.Registry.{Registry, lookup}
use trqsh.Edge.Hub.{Hub}
use trqsh.Edge.Ingress.{
  IngressConfig, Exchange, Action, redirects, not_found, bad_gateway, proxies, forwards,
  unauthorized, sends, records, Split, Base64, forwarding_enabled, dial, dial_forward_with_retry,
  retried, serve,
}
use trqsh.Edge.Ingress.Actions.{All, serve-All}

reached : (b e : String) (d : Bool) → (if d then some b else none) ≡ some e → b ≡ e × d ≡ true
reached b e true h = (some_inj.0 h, refl)
reached b e false h = absurd (ground arith)

module _ (cfg : IngressConfig) (reachable : String → Bool) (now : ℕ) where
  -- The dialled edges: the one that was found, and, where that fails, at most one other, which the
  -- registry then gives and which is neither this edge nor the first.
  abbrev pub Dialled : String → String → Registry → List String → Type 0
  Dialled edge_id host reg' es =
      es ≡ edge_id ∷ []
      ⊎ ((b : Binding) × es ≡ edge_id ∷ b.edge_id ∷ []
          × lookup now (host_route host) reg' ≡ some b
          × b.edge_id ≢ edge_id
          × b.edge_id ≢ cfg.edge_id)

  retried_lem :
      (edge_id host : String) (reg' : Registry) (o : Option Binding)
      → lookup now (host_route host) reg' ≡ o
      → let (peer, es) = retried cfg reachable now edge_id reg' o in
        Dialled edge_id host reg' es
        × ((e : String) → peer ≡ some e → e ≢ cfg.edge_id × dial reachable now e reg' ≡ true)
  retried_lem edge_id host reg' none l = (inl refl, λ e q. absurd (ground arith))
  retried_lem edge_id host reg' (some b) l =
      elim (Bool-cases (b.edge_id == cfg.edge_id || b.edge_id == edge_id)) [
        | inl q ↦ rw q (inl refl, λ e z. absurd (ground arith))
        | inr q ↦ rw q (
          inr (
            b,
            refl,
            l,
            (λ z. ground (arith, eq_iff b.edge_id edge_id)),
            (λ z. ground (arith, eq_iff b.edge_id cfg.edge_id)),
          ),
          λ e z.
              let (p, r) = reached b.edge_id e (dial reachable now b.edge_id reg') z in
              (
                (λ w. ground (arith, eq_iff b.edge_id cfg.edge_id)),
                sym (ap (λ x. dial reachable now x reg') p) ∙ r,
              ),
        )
      ]

  -- Handing a host over to an edge that is not this one dials that edge, and where it fails at most one
  -- other, which the registry then gives and which is neither this edge nor the first; an edge that is
  -- reached is not this one, and could be dialled.
  pub dial_forward_with_retry_lem :
      (edge_id host : String) (reg reg' : Registry)
      → edge_id ≢ cfg.edge_id
      → let (peer, es) = dial_forward_with_retry cfg reachable now edge_id host reg reg' in
        Dialled edge_id host reg' es
        × ((e : String)
            → peer ≡ some e
            → e ≢ cfg.edge_id
              × (dial reachable now e reg ≡ true ⊎ dial reachable now e reg' ≡ true))
  unfolding dial_forward_with_retry
  dial_forward_with_retry_lem edge_id host reg reg' n =
      elim (Bool-cases (dial reachable now edge_id reg)) [
        | inl d ↦ rw d (
          inl refl,
          λ e z.
              let p : edge_id ≡ e = some_inj.0 z in
              ((λ w. n (p ∙ w)), inl (sym (ap (λ x. dial reachable now x reg) p) ∙ d)),
        )
        | inr d ↦
            let (a, b) = retried_lem edge_id host reg' (lookup now (host_route host) reg') refl in
            rw d (a, λ e z. ((b e z).0, inr (b e z).1))
      ]

  module _ (split : Split) (base64 : Base64) (hub : Hub) (scheme client_ip : String)
      (is_forwarded : Bool) where
    -- A connection that is handed to an edge.
    abbrev pub Hop : Action → Type 0
    Hop (forwards e) =
        is_forwarded ≡ false × e ≢ cfg.edge_id × forwarding_enabled cfg reachable now ≡ true
    Hop redirects = Unit
    Hop not_found = Unit
    Hop bad_gateway = Unit
    Hop (proxies up) = Unit
    Hop (sends bt req) = Unit
    Hop (unauthorized d) = Unit
    Hop (records bt up down) = Unit

    -- Whatever requests a connection brings, it is handed only to another edge, only where forwarding is
    -- configured with a token, and never if another edge has handed it over: there is one hop.
    pub serve-Hop :
        (xs : List Exchange) (failures : ℕ)
        → All Hop
            (serve cfg reachable now split base64 hub scheme client_ip is_forwarded xs failures)
    serve-Hop xs =
        serve-All Hop cfg reachable now split base64 hub scheme client_ip is_forwarded xs (record {
          redirected = tt;
          missed = tt;
          failed = tt;
          proxied = λ up. tt;
          challenged = λ d. tt;
          recorded = λ bt up down. tt;
          delivered = λ x bt m l c. tt;
          handed_over = λ host x b e f l n d. (
            ground arith,
            ((dial_forward_with_retry_lem b.edge_id host x.registry x.registry' n).1 e d).0,
            ground arith,
          );
        })
