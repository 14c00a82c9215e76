-- ===== src/Edge/Ingress/Attempts.antt =====
-- How often one connection of internal/server/ingress_http.go may fail to authenticate, and how long it
-- waits each time.
use trqsh.Prelude.{
  ℕ, zero, suc, ◌+◌, ◌*◌, ◌^◌, ◌≡◌, refl, String, Bool, true, false, not, ◌&&◌, Option, none, some,
  List, [], ◌∷◌, ltb, leb, if◌then◌else◌, ◌==◌, string_eq, nat_eq, arith, Bool-cases, Option-cases,
  inl, inr,
}
use trqsh.Edge.Routes.{host_route}
use trqsh.Edge.Registry.{lookup}
use trqsh.Edge.Hub.{BoundTunnel, Hub, lookup_host}
use trqsh.Edge.Ingress.{
  IngressConfig, HttpRequest, AgentSide, Exchange, Action, redirects, not_found, bad_gateway,
  proxies, forwards, unauthorized, sends, records, Split, Base64, host_only, reserved_upstream,
  check_basic_auth, basic_auth_delay, max_basic_auth_failures, is_upgrade, handed, forward_http,
  forwarding_enabled, or_404, unbound, responded, sent, serve,
}

-- The waits before the answers 401.
abbrev pub waits : List Action → List ℕ
waits [] = []
waits (unauthorized d ∷ rest) = d ∷ waits rest
waits (redirects ∷ rest) = waits rest
waits (not_found ∷ rest) = waits rest
waits (bad_gateway ∷ rest) = waits rest
waits (proxies up ∷ rest) = waits rest
waits (forwards e ∷ rest) = waits rest
waits (sends bt req ∷ rest) = waits rest
waits (records bt up down ∷ rest) = waits rest

-- At most `left` waits; the first is a quarter of a second for each failure up to it, and two seconds at
-- most, and so on.
abbrev pub Escalates : ℕ → ℕ → List ℕ → Type 0
Escalates left failures [] = Unit
Escalates zero failures (d ∷ ds) = ⊥
Escalates (suc left) failures (d ∷ ds) =
    d ≡ (
      if ltb (2 * 10 ^ 9) (suc failures * (250 * 10 ^ 6))
      then 2 * 10 ^ 9
      else suc failures * (250 * 10 ^ 6))
    × Escalates left (suc failures) ds

module _ (left failures : ℕ) where
  abbrev Few : List Action → Type 0
  Few xs = Escalates left failures (waits xs)

  Few-if : (b : Bool) (xs ys : List Action) → Few xs → Few ys → Few (if b then xs else ys)
  Few-if true xs ys a b = a
  Few-if false xs ys a b = b

  few_none : Escalates left failures []
  few_none = tt

module _ (cfg : IngressConfig) (reachable : String → Bool) (now : ℕ) (split : Split)
    (base64 : Base64) (hub : Hub) (scheme client_ip : String) (is_forwarded : Bool) where
  handed-Few :
      (left failures : ℕ) (r : Bool) (d : Option String × List String)
      → Few left failures (handed cfg reachable now r d)
  handed-Few left failures r (none, ds) = few_none left failures
  handed-Few left failures true (some e, ds) = few_none left failures
  handed-Few left failures false (some e, ds) = few_none left failures

  forward_http-Few :
      (left failures : ℕ) (host : String) (x : Exchange)
      → Few left failures (or_404 cfg reachable now (forward_http cfg reachable now host x))
  unfolding forward_http
  forward_http-Few left failures host x =
      elim (Option-cases (lookup now (host_route host) x.registry)) [
        | inl e ↦ rw (e, forward_http) (few_none left failures)
        | inr (b, e) ↦ elim (Bool-cases (b.edge_id == cfg.edge_id)) [
          | inl q ↦ rw (e, forward_http) (rw q (few_none left failures))
          | inr q ↦ rw (e, forward_http) (rw q (handed-Few left failures x.replayed _))
        ]
      ]

  module _ (left failures : ℕ) (rest : List Action) (a : Few left failures rest) where
    unbound-Few :
        (host : String) (x : Exchange)
        → Few left failures
            (unbound cfg reachable now split base64 hub scheme client_ip is_forwarded host x rest)
    unbound-Few host x =
        Few-if left failures (not (reserved_upstream cfg host == "")) _ _
          (Few-if left failures x.upstream_keeps rest [] a (few_none left failures))
          (Few-if left failures (forwarding_enabled cfg reachable now && not is_forwarded) _ _
            (forward_http-Few left failures host x) (few_none left failures))

    responded-Few :
        (bt : BoundTunnel) (req : HttpRequest) (agent : AgentSide) (r : Option (Option ℕ × Bool))
        → Few left failures (
            responded cfg reachable now split base64 hub scheme client_ip is_forwarded bt req agent
              r rest)
    responded-Few bt req agent none = few_none left failures
    responded-Few bt req agent (some (n, closes)) =
        Few-if left failures (not agent.delivered) [] _ (few_none left failures)
          (Few-if left failures _ [] rest (few_none left failures) a)

    sent-Few :
        (bt : BoundTunnel) (req : HttpRequest) (agent : AgentSide)
        → Few left failures (
            sent cfg reachable now split base64 hub scheme client_ip is_forwarded bt req agent rest)
    sent-Few bt req agent = Few-if left failures (not agent.opens) _ _ (few_none left failures) (
        Few-if left failures (not agent.written) [] _ (few_none left failures) (
          Few-if left failures (is_upgrade req) _ _ (few_none left failures)
            (responded-Few bt req agent agent.response)))

  retry-Few :
      (left failures : ℕ) (ys : List Action)
      → failures + suc left ≡ max_basic_auth_failures
      → ((l : ℕ) → left ≡ suc l → Few (suc l) (suc failures) ys)
      → Few left (suc failures) (if leb max_basic_auth_failures (suc failures) then [] else ys)
  retry-Few zero failures ys h f =
      let e : leb max_basic_auth_failures (suc failures) ≡ true = ground arith in
      rw e (few_none zero (suc failures))
  retry-Few (suc l) failures ys h f =
      let e : leb max_basic_auth_failures (suc failures) ≡ false = ground arith in rw e (f l refl)

  serve-Few :
      (xs : List Exchange) (left failures : ℕ)
      → failures + suc left ≡ max_basic_auth_failures
      → Few
          (suc left)
          failures
          (serve cfg reachable now split base64 hub scheme client_ip is_forwarded xs failures)
  unfolding serve basic_auth_delay
  serve-Few [] left failures h = few_none (suc left) failures
  serve-Few (x ∷ xs) left failures h =
      let host = host_only split x.request.host in
      let again = serve-Few xs left failures h in
      Few-if (suc left) failures (scheme == "http" && not (reserved_upstream cfg host == "")) _ _
        (few_none (suc left) failures)
        (elim (Option-cases (lookup_host host hub)) [
          | inl e ↦ rw e (unbound-Few (suc left) failures _ again host x)
          | inr (bt, e) ↦ elim (Bool-cases (check_basic_auth base64 x.request bt.options)) [
            | inl c ↦ rw e (rw c (sent-Few (suc left) failures _ again bt _ x.agent))
            | inr c ↦ rw e (
                rw c (
                  refl,
                  retry-Few left failures _ h (λ l p. serve-Few xs l (suc failures) (omega arith)),
                ))
          ]
        ])

  -- Whatever requests a connection brings, at most ten of them are answered 401; the wait before the
  -- first is a quarter of a second, and it grows by as much each time, up to two seconds.
  pub serve-Escalates :
      (xs : List Exchange)
      → Escalates max_basic_auth_failures 0
          (waits (serve cfg reachable now split base64 hub scheme client_ip is_forwarded xs 0))
  serve-Escalates xs = serve-Few xs 9 0 refl
