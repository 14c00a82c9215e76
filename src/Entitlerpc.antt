-- ===== src/Entitlerpc.antt =====
-- internal/entitlerpc/entitlerpc.go: the messages between the edge and the control plane, and the
-- edge's client. JSON and the HTTP exchange are parameters: an exchange takes a request and the state
-- of everything else, and gives a response, none where it fails.
pub mod Cache
pub mod Tests
use trqsh.Prelude.{
  ℕ, ◌+◌, ◌*◌, ◌^◌, ◌≡◌, String, Bool, true, false, Option, none, some, List, ltb, if◌then◌else◌,
  ◌==◌, string_eq, nat_eq,
}
use trqsh.Prelude.Dict.{Dict, empty, get, put}
use trqsh.Authz.{BindRequest, Decision, Limits, Usage}

abbrev pub path_authenticate : String
path_authenticate = "/internal/entitlements/authenticate"

abbrev pub path_check_bind : String
path_check_bind = "/internal/entitlements/check-bind"

abbrev pub path_report_usage : String
path_report_usage = "/internal/entitlements/report-usage"

abbrev pub path_report_tunnel : String
path_report_tunnel = "/internal/entitlements/report-tunnel"

pub record AuthRequest : Type 0 where
  pub api_key : String

pub record AuthResponse : Type 0 where
  pub account_id : String
  pub plan : String
  pub error : String

pub record CheckBindRequest : Type 0 where
  pub api_key : String
  pub type : String
  pub subdomain : String
  pub custom_host : String
  pub remote_port : ℕ
  pub region : String

pub record CheckBindResponse : Type 0 where
  pub allow : Bool
  pub account_id : String
  pub plan : String
  pub limits : Limits
  pub assigned_subdomain : String
  pub error_code : String
  pub error_message : String

pub record UsageRequest : Type 0 where
  pub account_id : String
  pub tunnel_id : String
  pub bytes_in : ℕ
  pub bytes_out : ℕ
  pub requests : ℕ
  pub window_start : ℕ
  pub window_end : ℕ

pub record TunnelReport : Type 0 where
  pub action : String
  pub edge_id : String
  pub session_id : String
  pub tunnel_id : String
  pub account_id : String
  pub type : String
  pub public_url : String
  pub host : String
  pub port : ℕ
  pub region : String
  pub client_ip : String
  pub bytes_in : ℕ
  pub bytes_out : ℕ
  pub requests : ℕ
  pub at : ℕ

-- encoding/json for one type of messages: what Marshal makes of a value parses to that value.
pub record Json (A : Type 0) : Type 0 where
  pub marshal : A → Option (List ℕ)
  pub parse : List ℕ → Option A
  pub parse-marshal : (a : A) (b : List ℕ) → marshal a ≡ some b → parse b ≡ some a

pub record Codecs : Type 0 where
  pub auth_request : Json AuthRequest
  pub auth_response : Json AuthResponse
  pub check_bind_request : Json CheckBindRequest
  pub check_bind_response : Json CheckBindResponse
  pub usage_request : Json UsageRequest
  pub tunnel_report : Json TunnelReport

-- A POST with the header of the internal token.
pub record Request : Type 0 where
  pub path : String
  pub token : String
  pub body : List ℕ

pub record Response : Type 0 where
  pub status : ℕ
  pub body : List ℕ

abbrev pub Exchange : Type 0 → Type 0
Exchange S = Request → S → Option Response × S

-- 30 * time.Second
abbrev pub cache_ttl : ℕ
cache_ttl = 30 * 10 ^ 9

pub record AuthCacheEntry : Type 0 where
  pub account_id : String
  pub plan : String
  pub expiry : ℕ

pub record Client : Type 0 where
  pub auth_cache : Dict String AuthCacheEntry

abbrev pub new_client : Client
new_client = record { auth_cache = empty }

-- A cached answer that has not lapsed.
abbrev pub cached : ℕ → Option AuthCacheEntry → Option (String × String)
cached now none = none
cached now (some e) = if ltb now e.expiry then some (e.account_id, e.plan) else none

abbrev pub bind_body : BindRequest → CheckBindRequest
bind_body req = record {
  api_key = req.api_key;
  type = req.type;
  subdomain = req.subdomain;
  custom_host = req.custom_host;
  remote_port = req.remote_port;
  region = req.region;
}

abbrev pub decision_of : CheckBindResponse → Decision
decision_of resp = record {
  allow = resp.allow;
  account_id = resp.account_id;
  plan = resp.plan;
  limits = resp.limits;
  assigned_subdomain = resp.assigned_subdomain;
  error_code = resp.error_code;
  error_message = resp.error_message;
}

module _ {S : Type 0} (json : Codecs) (token : String) (exchange : Exchange S) where
  -- The body of a response with the status 200.
  abbrev pub received : Option Response × S → Option (List ℕ) × S
  received (none, s) = (none, s)
  received (some r, s) = (if r.status == 200 then some r.body else none, s)

  abbrev pub post : {A : Type 0} → Json A → String → A → S → Option (List ℕ) × S
  post j path message s = elim (j.marshal message) [
    | none ↦ (none, s)
    | some b ↦ received (exchange (record { path = path; token = token; body = b }) s)
  ]

  abbrev pub parsed : {A : Type 0} → Json A → Option (List ℕ) → Option A
  parsed j none = none
  parsed j (some b) = j.parse b

  abbrev pub account_of : Option AuthResponse → Option (String × String)
  account_of none = none
  account_of (some r) = if r.error == "" then some (r.account_id, r.plan) else none

  -- What the control plane answers to Authenticate, none on any error.
  unfoldable pub fetch : String → S → Option (String × String) × S
  fetch api_key s =
      let (b, s') = post json.auth_request path_authenticate (record { api_key = api_key }) s in
      (account_of (parsed json.auth_response b), s')

  abbrev pub remembered : ℕ → String → Option (String × String) → Client → Client
  remembered later api_key none c = c
  remembered later api_key (some (account_id, plan)) c = record {
    auth_cache =
        put c.auth_cache api_key
          (record { account_id = account_id; plan = plan; expiry = later + cache_ttl });
  }

  -- `later` is the time when the answer has come.
  unfoldable pub authenticate :
      ℕ → ℕ → String → Client × S → Option (String × String) × (Client × S)
  unfolding fetch
  authenticate now later api_key (c, s) = elim (cached now (get c.auth_cache api_key)) [
    | some r ↦ (some r, (c, s))
    | none ↦ let (r, s') = fetch api_key s in (r, (remembered later api_key r c, s'))
  ]

  abbrev pub decided : Option CheckBindResponse → Option Decision
  decided none = none
  decided (some r) = some (decision_of r)

  unfoldable pub check_bind : BindRequest → S → Option Decision × S
  check_bind req s =
      let (b, s') = post json.check_bind_request path_check_bind (bind_body req) s in
      (decided (parsed json.check_bind_response b), s')

  abbrev pub succeeded : Option (List ℕ) → Bool
  succeeded none = false
  succeeded (some b) = true

  -- Whether there was no error.
  unfoldable pub report_usage : Usage → S → Bool × S
  report_usage u s =
      let (b, s') =
        post json.usage_request path_report_usage
          (record {
            account_id = u.account_id;
            tunnel_id = u.tunnel_id;
            bytes_in = u.bytes_in;
            bytes_out = u.bytes_out;
            requests = u.requests;
            window_start = u.window_start;
            window_end = u.window_end;
          })
          s in
      (succeeded b, s')

  unfoldable pub report_tunnel : TunnelReport → S → Bool × S
  report_tunnel tr s =
      let (b, s') = post json.tunnel_report path_report_tunnel tr s in (succeeded b, s')
