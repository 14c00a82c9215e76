-- ===== src/Edge/Ingress.antt =====
-- One public HTTP connection: serveHTTPConn of internal/server/ingress_http.go with what it calls, and
-- the dialling side of forward.go. What the peers answer, base64, SplitHostPort and the identifiers
-- that are drawn are arguments; metrics, deadlines and the texts of pages are left out.
pub mod Actions
pub mod Credentials
pub mod Forward
pub mod Attempts
mod Tests
use trqsh.Prelude.{
  ℕ, zero, suc, ◌+◌, ◌*◌, ◌^◌, String, Bool, true, false, not, ◌||◌, ◌&&◌, Option, none, some, List,
  [], ◌∷◌, ltb, leb, if◌then◌else◌, ◌==◌, string_eq, nat_eq,
}
use trqsh.Prelude.Text.{◌<>◌, to_lower, trim_space, strip_prefix, before}
use trqsh.Prelude.Dict.{Dict, get, put, delete}
use trqsh.Edge.Routes.{Route, host_route, Binding}
use trqsh.Edge.Registry.{Registry, lookup, lookup_edge}
use trqsh.Edge.Hub.{BoundTunnel, Hub, lookup_host}

-- The part of the configuration that the ingress reads.
pub record IngressConfig : Type 0 where
  pub edge_id : String
  pub base_domain : String
  pub site_upstream : String
  pub app_upstream : String
  pub api_upstream : String
  pub forward_addr : String
  pub internal_token : String

-- A parsed request; its headers by their canonical names, with the first value.
pub record HttpRequest : Type 0 where
  pub host : String
  pub header : Dict String String
  pub close : Bool
  pub content_length : Option ℕ

abbrev pub or_no_header : Option String → String
or_no_header none = ""
or_no_header (some v) = v

-- req.Header.Get
abbrev pub header_of : HttpRequest → String → String
header_of req name = or_no_header (get req.header name)

abbrev is_some : Option String → Bool
is_some none = false
is_some (some s) = true

-- strings.Contains
contains : String → String → Bool
contains sub String.[] = sub == ""
contains sub (String.◌∷◌ c s) =
    let rest = contains sub s in if is_some (strip_prefix sub (String.◌∷◌ c s)) then true else rest

-- The host of net.SplitHostPort, none for its error.
abbrev pub Split : Type 0
Split = String → Option String

abbrev or_whole : String → Option String → String
or_whole h none = h
or_whole h (some host) = host

unfoldable pub host_only : Split → String → String
host_only split hostport =
    let h = to_lower (trim_space hostport) in
    if is_some (before 58 h) then or_whole h (split h) else h

unfoldable pub reserved_upstream : IngressConfig → String → String
reserved_upstream cfg host =
    let base = to_lower cfg.base_domain in
    if host == base || host == "www." <> base
    then cfg.site_upstream
    else if host == "app." <> base || host == "qr." <> base
    then cfg.app_upstream
    else if host == "api." <> base || host == "approve." <> base
    then cfg.api_upstream
    else ""

unfoldable pub is_upgrade : HttpRequest → Bool
unfolding contains
is_upgrade req =
    to_lower (header_of req "Connection") == "upgrade"
    || contains "upgrade" (to_lower (header_of req "Connection"))

-- options[key]
abbrev pub option_of : String → List (String × String) → String
option_of key [] = ""
option_of key ((k, v) ∷ os) = let rest = option_of key os in if k == key then v else rest

-- base64.StdEncoding.DecodeString, none for its error.
abbrev pub Base64 : Type 0
Base64 = String → Option String

abbrev is_text : String → Option String → Bool
is_text want none = false
is_text want (some s) = s == want

abbrev given : Base64 → String → Option String → Bool
given base64 want none = false
given base64 want (some rest) = is_text want (base64 rest)

unfoldable pub check_basic_auth : Base64 → HttpRequest → List (String × String) → Bool
check_basic_auth base64 req options =
    let want = option_of "basic_auth" options in
    if want == ""
    then true
    else given base64 want (strip_prefix "Basic " (header_of req "Authorization"))

abbrev pub max_basic_auth_failures : ℕ
max_basic_auth_failures = 10

-- 250 ms for each failure, 2 s at most
unfoldable pub basic_auth_delay : ℕ → ℕ
basic_auth_delay failures =
    let d = failures * (250 * 10 ^ 6) in if ltb (2 * 10 ^ 9) d then 2 * 10 ^ 9 else d

-- The request as it is sent on to the agent.
unfoldable pub stamped : String → String → String → String → BoundTunnel → HttpRequest → HttpRequest
stamped scheme host rid client_ip bt req =
    let hh = option_of "host_header" bt.options in
    record req {
      host = if hh == "" then req.host else hh;
      header =
          delete
            (put
              (put
                (put (put (put req.header "X-Forwarded-Proto" scheme) "X-Forwarded-Host" host)
                  "X-Request-Id" rid)
                "X-Forwarded-For" client_ip)
              "X-Real-Ip" client_ip)
            "Forwarded";
    }

-- What the agent's side does with a request: whether a data stream opens, and the request can be
-- written to it; the bytes that an upgraded connection moves up and down; the response, with its length
-- where it is known and whether it closes; and whether that reaches the client.
pub record AgentSide : Type 0 where
  pub opens : Bool
  pub written : Bool
  pub moved : ℕ × ℕ
  pub response : Option (Option ℕ × Bool)
  pub delivered : Bool

-- One turn of the connection: its request, the identifier that is drawn, the registry when it is looked
-- at and when a dial has failed, which edges' addresses can be dialled, the agent's
-- side, whether a proxied upstream leaves the connection open, and whether the request can be replayed
-- to another edge.
pub record Exchange : Type 0 where
  pub request : HttpRequest
  pub request_id : String
  pub registry : Registry
  pub registry' : Registry
  pub agent : AgentSide
  pub upstream_keeps : Bool
  pub replayed : Bool

-- What the connection does: answers of its own, a request proxied or handed to another edge, a request
-- that is sent to a tunnel's agent, and usage that is recorded.
pub data Action : Type 0 where
  redirects not_found bad_gateway : Action
  proxies : String → Action
  forwards : String → Action
  unauthorized : ℕ → Action
  sends : BoundTunnel → HttpRequest → Action
  records : BoundTunnel → ℕ → ℕ → Action

-- dialForwarder.Dial: the address is in the registry, and can be dialled and written to.
unfoldable pub dial : (String → Bool) → ℕ → String → Registry → Bool
dial reachable now edge_id reg = elim (lookup_edge now edge_id reg) [
  | none ↦ false
  | some addr ↦ reachable addr
]

module _ (cfg : IngressConfig) (reachable : String → Bool) (now : ℕ) where
  abbrev retried : String → Registry → Option Binding → Option String × List String
  retried edge_id reg' none = (none, edge_id ∷ [])
  retried edge_id reg' (some b) =
      if b.edge_id == cfg.edge_id || b.edge_id == edge_id then (none, edge_id ∷ []) else (
        if dial reachable now b.edge_id reg' then some b.edge_id else none,
        edge_id ∷ b.edge_id ∷ [],
      )

  -- The edge that is reached, and the edges that were dialled.
  unfoldable pub dial_forward_with_retry :
      String → String → Registry → Registry → Option String × List String
  dial_forward_with_retry edge_id host reg reg' =
      if dial reachable now edge_id reg
      then (some edge_id, edge_id ∷ [])
      else retried edge_id reg' (lookup now (host_route host) reg')

  abbrev handed : Bool → Option String × List String → List Action
  handed replayed (none, dialled) = bad_gateway ∷ []
  handed replayed (some edge_id, dialled) =
      if replayed then forwards edge_id ∷ [] else bad_gateway ∷ []

  -- forwardHTTP: none where the host is bound on no other edge.
  unfoldable pub forward_http : String → Exchange → Option (List Action)
  unfolding dial_forward_with_retry
  forward_http host x = elim (lookup now (host_route host) x.registry) [
    | none ↦ none
    | some b ↦
        if b.edge_id == cfg.edge_id
        then none
        else some
            (handed x.replayed (dial_forward_with_retry b.edge_id host x.registry x.registry'))
  ]

  abbrev pub forwarding_enabled : Bool
  forwarding_enabled = not (cfg.forward_addr == "") && not (cfg.internal_token == "")

  abbrev pub or_404 : Option (List Action) → List Action
  or_404 none = not_found ∷ []
  or_404 (some actions) = actions

  abbrev pub length_of : Option ℕ → ℕ
  length_of none = 0
  length_of (some n) = n

  module _ (split : Split) (base64 : Base64) (hub : Hub) (scheme client_ip : String)
      (is_forwarded : Bool) where
    -- A host that is bound nowhere on this edge; `rest` is the rest of the connection.
    abbrev unbound : String → Exchange → List Action → List Action
    unbound host x rest =
        let up = reserved_upstream cfg host in
        if not (up == "")
        then proxies up ∷ (if x.upstream_keeps then rest else [])
        else if forwarding_enabled && not is_forwarded
        then or_404 (forward_http host x)
        else not_found ∷ []

    abbrev responded :
        BoundTunnel → HttpRequest → AgentSide → Option (Option ℕ × Bool) → List Action → List Action
    responded bt req agent none rest = bad_gateway ∷ []
    responded bt req agent (some (n, closes)) rest =
        if not agent.delivered
        then []
        else records bt (length_of req.content_length) (length_of n)
          ∷ (if req.close || closes then [] else rest)

    -- A request with valid credentials, on its way to the tunnel's agent.
    abbrev sent : BoundTunnel → HttpRequest → AgentSide → List Action → List Action
    sent bt req agent rest =
        if not agent.opens
        then bad_gateway ∷ []
        else sends bt req
          ∷ (if not agent.written
              then []
              else if is_upgrade req
              then records bt agent.moved.0 agent.moved.1 ∷ []
              else responded bt req agent agent.response rest)

    -- serveHTTPConn, after so many failures of basic authentication.
    unfoldable pub serve : List Exchange → ℕ → List Action
    serve [] failures = []
    serve (x ∷ xs) failures =
        let host = host_only split x.request.host in
        let rest = serve xs failures in
        let retry = serve xs (suc failures) in
        if scheme == "http" && not (reserved_upstream cfg host == "")
        then redirects ∷ []
        else elim (lookup_host host hub) [
          | none ↦ unbound host x rest
          | some bt ↦
              if not (check_basic_auth base64 x.request bt.options)
              then unauthorized (basic_auth_delay (suc failures))
                ∷ (if leb max_basic_auth_failures (suc failures) then [] else retry)
              else sent bt (stamped scheme host x.request_id client_ip bt x.request) x.agent rest
        ]
