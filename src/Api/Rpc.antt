-- ===== src/Api/Rpc.antt =====
-- internal/api/rpc.go: the entitlements service that edges call, over the in-memory store. The key
-- verification, the quota checker, the clock, what is drawn and the geolocation are arguments.
pub mod Edge
mod Tests
use trqsh.Prelude.{
  ℕ, ◌^◌, String, Bool, true, false, not, ◌||◌, Option, none, some, List, [], take, if◌then◌else◌,
  ◌==◌, string_eq, nat_eq,
}
use trqsh.Authz.{BindRequest, Decision, Usage}
use trqsh.Store.Types.{TunnelSession}
use trqsh.Store.State.{MemStore}
use trqsh.Store.Tunnels.{record_tunnel_open, close_tunnel_session}
use trqsh.Entitlerpc.{
  Json, Codecs, Request, Response, AuthRequest, AuthResponse, CheckBindRequest, CheckBindResponse,
  UsageRequest, TunnelReport, path_authenticate, path_check_bind, path_report_usage,
  path_report_tunnel,
}
use trqsh.Api.Entitlements.{Quota, authenticate, check_bind, report_usage}

-- writeJSON: a message that cannot be encoded leaves the body empty.
abbrev pub write_json : {A : Type 0} → Json A → A → Response
write_json j a = record { status = 200; body = elim (j.marshal a) [ none ↦ [] | some b ↦ b ] }

-- A response without a message that the client reads: writeError, WriteHeader and unknown paths.
abbrev pub status_only : ℕ → Response
status_only n = record { status = n; body = [] }

-- decode: a value of the first MiB
abbrev pub decode : {A : Type 0} → Json A → List ℕ → Option A
decode j body = j.parse (take (2 ^ 20) body)

abbrev pub bind_request : CheckBindRequest → BindRequest
bind_request req = record {
  api_key = req.api_key;
  type = req.type;
  subdomain = req.subdomain;
  custom_host = req.custom_host;
  remote_port = req.remote_port;
  region = req.region;
}

abbrev pub bind_response : Decision → CheckBindResponse
bind_response dec = record {
  allow = dec.allow;
  account_id = dec.account_id;
  plan = dec.plan;
  limits = dec.limits;
  assigned_subdomain = dec.assigned_subdomain;
  error_code = dec.error_code;
  error_message = dec.error_message;
}

abbrev pub auth_response : Option (String × String) → AuthResponse
auth_response none = record { account_id = ""; plan = ""; error = "invalid api key" }
auth_response (some (account_id, plan)) = record {
  account_id = account_id;
  plan = plan;
  error = "";
}

-- Location of geo.FromIP: country and city.
abbrev pub Geo : Type 0
Geo = String → String × String

module _ (json : Codecs) (internal_token : String) (verify_key : String → String → Bool)
    (quota : Quota) (geo : Geo) (now : ℕ) (random fresh : String) where
  rpc_authenticate : List ℕ → MemStore → Response × MemStore
  rpc_authenticate body m = elim (decode json.auth_request body) [
    | none ↦ (status_only 400, m)
    | some req ↦
        let (r, m') = authenticate verify_key now req.api_key m in
        (write_json json.auth_response (auth_response r), m')
  ]

  rpc_check_bind : List ℕ → MemStore → Response × MemStore
  rpc_check_bind body m = elim (decode json.check_bind_request body) [
    | none ↦ (status_only 400, m)
    | some req ↦
        let (dec, m') = check_bind quota random verify_key now (bind_request req) m in
        (write_json json.check_bind_response (bind_response dec), m')
  ]

  rpc_report_usage : List ℕ → MemStore → Response × MemStore
  rpc_report_usage body m = elim (decode json.usage_request body) [
    | none ↦ (status_only 400, m)
    | some req ↦ (
      status_only 200,
      (report_usage
          (record {
            account_id = req.account_id;
            tunnel_id = req.tunnel_id;
            bytes_in = req.bytes_in;
            bytes_out = req.bytes_out;
            requests = req.requests;
            window_start = req.window_start;
            window_end = req.window_end;
          })
          m).1,
    )
  ]

  abbrev pub opened_row : TunnelReport → ℕ → TunnelSession
  opened_row req at = record {
    id = "";
    org_id = req.account_id;
    edge_id = req.edge_id;
    session_id = req.session_id;
    tunnel_id = req.tunnel_id;
    type = req.type;
    public_url = req.public_url;
    host = req.host;
    port = req.port;
    region = req.region;
    client_ip = req.client_ip;
    country = (geo req.client_ip).0;
    city = (geo req.client_ip).1;
    bytes_in = 0;
    bytes_out = 0;
    requests = 0;
    status = "";
    started_at = at;
    ended_at = none;
  }

  -- The effect of a report that names an account; errors of the store are dropped.
  tunnel_reported : TunnelReport → MemStore → MemStore
  tunnel_reported req m =
      let at = if req.at == 0 then now else req.at in
      if req.action == "open"
      then (record_tunnel_open now fresh (opened_row req at) m).1
      else if req.action == "close"
      then (close_tunnel_session req.edge_id req.session_id req.tunnel_id at
          (record { bytes_in = req.bytes_in; bytes_out = req.bytes_out; requests = req.requests })
          m).1
      else m

  rpc_report_tunnel : List ℕ → MemStore → Response × MemStore
  unfolding tunnel_reported
  rpc_report_tunnel body m = elim (decode json.tunnel_report body) [
    | none ↦ (status_only 400, m)
    | some req ↦ (status_only 200, if req.account_id == "" then m else tunnel_reported req m)
  ]

  -- internalTokenGuard before the four routes of mountInternal.
  unfoldable pub internal_rpc : Request → MemStore → Response × MemStore
  unfolding rpc_authenticate rpc_check_bind rpc_report_usage rpc_report_tunnel
  internal_rpc r m =
      if internal_token == "" || not (r.token == internal_token)
      then (status_only 401, m)
      else if r.path == path_authenticate
      then rpc_authenticate r.body m
      else if r.path == path_check_bind
      then rpc_check_bind r.body m
      else if r.path == path_report_usage
      then rpc_report_usage r.body m
      else if r.path == path_report_tunnel
      then rpc_report_tunnel r.body m
      else (status_only 404, m)

  -- An exchange that reaches the service and brings its answer back.
  abbrev pub served : Request → MemStore → Option Response × MemStore
  served r m = let (x, m') = internal_rpc r m in (some x, m')
