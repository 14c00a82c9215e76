-- ===== src/Edge/Ingress/Tests.antt =====
-- The theorems on the ingress for one edge with a protected tunnel.
use trqsh.Prelude.{
  ◌≡◌, refl, String, true, false, Option, none, some, List, [], ◌∷◌, ◌==◌, string_eq, if◌then◌else◌,
}
use trqsh.Prelude.Text.{strip_prefix, to_lower, trim_space, before}
use trqsh.Prelude.Dict.{get, put, delete, empty}
use trqsh.Edge.Routes.{http}
use trqsh.Edge.Registry.{new_registry}
use trqsh.Edge.Hub.{BoundTunnel, Hub, new_hub}
use trqsh.Edge.Ingress.{
  IngressConfig, Exchange, serve, host_only, reserved_upstream, check_basic_auth, contains,
  is_upgrade, stamped, basic_auth_delay, unauthorized, sends, records, max_basic_auth_failures,
}
use trqsh.Edge.Ingress.Actions.{All}
use trqsh.Edge.Ingress.Credentials.{Vouched, serve-Vouched}
use trqsh.Edge.Ingress.Forward.{Hop, serve-Hop}
use trqsh.Edge.Ingress.Attempts.{Escalates, waits, serve-Escalates}

abbrev config : IngressConfig
config = record {
  edge_id = "edge_1";
  base_domain = "trqsh.example";
  site_upstream = "http://site";
  app_upstream = "http://app";
  api_upstream = "";
  forward_addr = "10.0.0.1:7000";
  internal_token = "secret";
}

abbrev tunnel : BoundTunnel
tunnel = record {
  client_tunnel_id = "ct_1";
  account_id = "org_1";
  plan = "pro";
  ttype = http;
  host = "web.trqsh.example";
  port = 0;
  options = ("basic_auth", "ann:pw") ∷ [];
  session = "s_1";
  public_url = "https://web.trqsh.example";
  started_at = 0;
}

hub : Hub
hub = record new_hub { by_host = put empty "web.trqsh.example" tunnel }

-- The base64 text of the one password.
abbrev decode : String → Option String
decode s = if s == "YW5uOnB3" then some "ann:pw" else none

abbrev first_try : Exchange
first_try = record {
  request = record {
    host = "Web.trqsh.example";
    header = put empty "X-Forwarded-For" "6.6.6.6";
    close = false;
    content_length = none;
  };
  request_id = "req_1";
  registry = new_registry;
  registry' = new_registry;
  agent = record {
    opens = true;
    written = true;
    moved = (0, 0);
    response = some (some 12, false);
    delivered = true;
  };
  upstream_keeps = true;
  replayed = true;
}

abbrev second_try : Exchange
second_try = record first_try {
  request = record first_try.request {
    header = put (put empty "X-Forwarded-For" "6.6.6.6") "Authorization" "Basic YW5uOnB3";
  };
}

abbrev tries : List Exchange
tries = first_try ∷ second_try ∷ []

serve-Vouched_example :
    All
      (Vouched config (λ a. true) 7 (λ h. none) decode hub "https" "9.9.9.9" false tries)
      (serve config (λ a. true) 7 (λ h. none) decode hub "https" "9.9.9.9" false tries 0)
serve-Vouched_example =
    serve-Vouched config (λ a. true) 7 (λ h. none) decode hub "https" "9.9.9.9" false tries 0

serve-Hop_example :
    All
      (Hop config (λ a. true) 7 (λ h. none) decode hub "https" "9.9.9.9" true)
      (serve config (λ a. true) 7 (λ h. none) decode hub "https" "9.9.9.9" true tries 0)
serve-Hop_example =
    serve-Hop config (λ a. true) 7 (λ h. none) decode hub "https" "9.9.9.9" true tries 0

serve-Escalates_example :
    Escalates max_basic_auth_failures 0
      (waits (serve config (λ a. true) 7 (λ h. none) decode hub "https" "9.9.9.9" false tries 0))
serve-Escalates_example =
    serve-Escalates config (λ a. true) 7 (λ h. none) decode hub "https" "9.9.9.9" false tries

-- The first try waits a quarter of a second; the second one is sent to the tunnel and its usage recorded.
served_example :
    serve config (λ a. true) 7 (λ h. none) decode hub "https" "9.9.9.9" false tries 0
    ≡ unauthorized 250000000
      ∷ sends tunnel
          (stamped "https" "web.trqsh.example" "req_1" "9.9.9.9" tunnel second_try.request)
      ∷ records tunnel 0 12
      ∷ []
unfolding serve host_only reserved_upstream check_basic_auth contains is_upgrade basic_auth_delay
    strip_prefix to_lower trim_space before get put empty hub stamped delete
served_example = refl
