-- ===== src/Authz.antt =====
-- pkg/authz and pkg/proto/errors.go: the types that the edge and the control plane share, the
-- allow-all stub, and the error codes.
use trqsh.Prelude.{ℕ, String, Bool, true, false, Option, none, some, if◌then◌else◌, ◌==◌, string_eq}

pub record Limits : Type 0 where
  pub max_concurrent_tunnels : ℕ
  pub max_bandwidth_bytes_mo : ℕ  -- 0 = unlimited
  pub max_requests_mo : ℕ  -- 0 = unlimited
  pub allow_custom_domains : Bool
  pub allow_reserved_subdomain : Bool
  pub allow_tcp : Bool
  pub allow_udp : Bool
  pub rate_limit_rps : ℕ  -- 0 = unlimited

pub record BindRequest : Type 0 where
  pub api_key : String
  pub type : String
  pub subdomain : String
  pub custom_host : String
  pub remote_port : ℕ
  pub region : String

pub record Decision : Type 0 where
  pub allow : Bool
  pub account_id : String
  pub plan : String
  pub limits : Limits
  pub assigned_subdomain : String
  pub error_code : String
  pub error_message : String

pub record Usage : Type 0 where
  pub account_id : String
  pub tunnel_id : String
  pub bytes_in : ℕ
  pub bytes_out : ℕ
  pub requests : ℕ
  pub window_start : ℕ
  pub window_end : ℕ

-- Go's zero value of the struct.
abbrev pub no_limits : Limits
no_limits = record {
  max_concurrent_tunnels = 0;
  max_bandwidth_bytes_mo = 0;
  max_requests_mo = 0;
  allow_custom_domains = false;
  allow_reserved_subdomain = false;
  allow_tcp = false;
  allow_udp = false;
  rate_limit_rps = 0;
}

-- The error codes of pkg/proto/errors.go.
abbrev pub code_auth_required : String
code_auth_required = "ERR_AUTH_REQUIRED"

abbrev pub code_auth_invalid : String
code_auth_invalid = "ERR_AUTH_INVALID"

abbrev pub code_quota_bandwidth : String
code_quota_bandwidth = "ERR_QUOTA_BANDWIDTH"

abbrev pub code_quota_requests : String
code_quota_requests = "ERR_QUOTA_REQUESTS"

abbrev pub code_subdomain_taken : String
code_subdomain_taken = "ERR_SUBDOMAIN_TAKEN"

abbrev pub code_subdomain_forbidden : String
code_subdomain_forbidden = "ERR_SUBDOMAIN_FORBIDDEN"

abbrev pub code_domain_unverified : String
code_domain_unverified = "ERR_DOMAIN_UNVERIFIED"

abbrev pub code_plan_forbids : String
code_plan_forbids = "ERR_PLAN_FORBIDS"

abbrev pub code_port_unavailable : String
code_port_unavailable = "ERR_PORT_UNAVAILABLE"

abbrev pub code_internal : String
code_internal = "ERR_INTERNAL"

-- StubEntitlements: `none` is the error on an empty key.
unfoldable pub stub_authenticate : String → Option (String × String)
stub_authenticate api_key = if api_key == "" then none else some ("dev", "pro")

unfoldable pub stub_check_bind : BindRequest → Decision
stub_check_bind req = record {
  allow = true;
  account_id = "dev";
  plan = "pro";
  limits = record no_limits {
    max_concurrent_tunnels = 100;
    allow_custom_domains = true;
    allow_reserved_subdomain = true;
    allow_tcp = true;
    allow_udp = true;
  };
  assigned_subdomain = "";
  error_code = "";
  error_message = "";
}
