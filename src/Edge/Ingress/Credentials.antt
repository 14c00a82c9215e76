-- ===== src/Edge/Ingress/Credentials.antt =====
-- What a request of a public connection carries when it is sent to a tunnel's agent, and how often a
-- connection may fail to authenticate (internal/server/ingress_http.go).
use trqsh.Prelude.{
  ℕ, ◌≡◌, ◌⊎◌, refl, sym, ap, ◌∙◌, String, Bool, true, Option, none, some, List, if◌then◌else◌,
  ◌==◌, string_eq, nat_eq, arith, eq_iff, Bool-cases, inl, inr,
}
use mathlib.Core.List.{Memᴰ}
use trqsh.Prelude.Text.{strip_prefix}
use trqsh.Prelude.Dict.{get, dict_laws}
use trqsh.Edge.Hub.{BoundTunnel, Hub, lookup_host}
use trqsh.Edge.Ingress.{
  IngressConfig, HttpRequest, Exchange, Action, redirects, not_found, bad_gateway, proxies,
  forwards, unauthorized, sends, records, Split, Base64, host_only, check_basic_auth, stamped,
  option_of, header_of, serve, given, is_text,
}
use trqsh.Edge.Ingress.Actions.{All, serve-All}

-- The tunnel asks for no credentials, or the request's Authorization header encodes them.
abbrev pub Authorized : Base64 → BoundTunnel → HttpRequest → Type 0
Authorized base64 bt req =
    option_of "basic_auth" bt.options ≡ ""
    ⊎ ((rest : String) × strip_prefix "Basic " (header_of req "Authorization") ≡ some rest
        × base64 rest ≡ some (option_of "basic_auth" bt.options))

given-some :
    (base64 : Base64) (want : String) (o : Option String)
    → given base64 want o ≡ true
    → (rest : String) × o ≡ some rest × base64 rest ≡ some want
given-some base64 want none h = absurd (ground arith)
given-some base64 want (some rest) h = (rest, refl, decoded (base64 rest) h)
  where
    decoded : (d : Option String) → is_text want d ≡ true → d ≡ some want
    decoded none h = absurd (ground arith)
    decoded (some s) h = ap some ((eq_iff s want).0 h)

check_basic_auth-Authorized :
    (base64 : Base64) (bt : BoundTunnel) (req : HttpRequest)
    → check_basic_auth base64 req bt.options ≡ true
    → Authorized base64 bt req
unfolding check_basic_auth
check_basic_auth-Authorized base64 bt req h =
    let want = option_of "basic_auth" bt.options in
    elim (Bool-cases (want == "")) [
      | inl e ↦ inl ((eq_iff want "").0 e)
      | inr e ↦ inr (
          given-some base64 want (strip_prefix "Basic " (header_of req "Authorization")) (
            sym (
              ap
                (λ b.
                  if b
                  then true
                  else given base64 want (strip_prefix "Basic " (header_of req "Authorization")))
                e)
            ∙ h))
    ]

module _ (cfg : IngressConfig) (reachable : String → Bool) (now : ℕ) (split : Split)
    (base64 : Base64) (hub : Hub) (scheme client_ip : String) (is_forwarded : Bool) where
  -- A request that came with an exchange is sent on to a tunnel: the one that the Host of the request
  -- as it came is bound to, which also is what the agent is told; with that tunnel's credentials in the
  -- request as it came, and the connection's own client.
  abbrev pub Delivers : Exchange → BoundTunnel → HttpRequest → Type 0
  Delivers x bt req =
      let host = host_only split x.request.host in
      lookup_host host hub ≡ some bt
      × Authorized base64 bt x.request
      × get req.header "Authorization" ≡ get x.request.header "Authorization"
      × get req.header "X-Forwarded-Host" ≡ some host
      × get req.header "X-Request-Id" ≡ some x.request_id
      × get req.header "X-Forwarded-For" ≡ some client_ip
      × get req.header "X-Real-Ip" ≡ some client_ip
      × get req.header "Forwarded" ≡ none

  -- What is sent to an agent is a request of one of the exchanges.
  abbrev pub Vouched : List Exchange → Action → Type 0
  Vouched xs (sends bt req) = (x : Exchange) × Memᴰ x xs × Delivers x bt req
  Vouched xs redirects = Unit
  Vouched xs not_found = Unit
  Vouched xs bad_gateway = Unit
  Vouched xs (proxies up) = Unit
  Vouched xs (forwards e) = Unit
  Vouched xs (unauthorized d) = Unit
  Vouched xs (records bt up down) = Unit

  stamped-Delivers :
      (x : Exchange) (bt : BoundTunnel)
      → let host = host_only split x.request.host in
        lookup_host host hub ≡ some bt
        → check_basic_auth base64 x.request bt.options ≡ true
        → Delivers x bt (stamped scheme host x.request_id client_ip bt x.request)
  unfolding stamped
  stamped-Delivers x bt l c = (
    l,
    check_basic_auth-Authorized base64 bt x.request c,
    simp dict_laws,
    simp dict_laws,
    simp dict_laws,
    simp dict_laws,
    simp dict_laws,
    simp dict_laws,
  )

  -- Whatever requests a connection brings, each one that is sent to an agent is a request that the
  -- connection brought. It goes to the tunnel that its own Host is bound to, whatever its other headers
  -- say, and carries that tunnel's credentials where the tunnel asks for any. The agent is told that
  -- host, the request's identifier and the connection's own client, whatever the client had put there.
  pub serve-Vouched :
      (xs : List Exchange) (failures : ℕ)
      → All
          (Vouched xs)
          (serve cfg reachable now split base64 hub scheme client_ip is_forwarded xs failures)
  serve-Vouched xs =
      serve-All (Vouched xs) cfg reachable now split base64 hub scheme client_ip is_forwarded xs
        (record {
          redirected = tt;
          missed = tt;
          failed = tt;
          proxied = λ up. tt;
          challenged = λ d. tt;
          recorded = λ bt up down. tt;
          delivered = λ x bt m l c. (x, m, stamped-Delivers x bt l c);
          handed_over = λ host x b e f l n d. tt;
        })
