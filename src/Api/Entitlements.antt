-- ===== src/Api/Entitlements.antt =====
-- internal/api/entitlements.go over the in-memory store; `quota` is billing's CheckQuota, none where
-- no checker is wired in. The lookup of a subdomain cannot fail in this store, and the error branch
-- of that call is left out.
pub mod Granted
use trqsh.Prelude.{
  ℕ, ◌+◌, ◌-◌, ◌%◌, String, Bool, true, false, not, ◌||◌, ◌&&◌, Option, none, some, List, [], ◌∷◌,
  ltb, leb, if◌then◌else◌, ◌==◌, string_eq, nat_eq,
}
use trqsh.Prelude.Result.{StoreError, Result, ok, err, Exec}
use trqsh.Authz.{
  BindRequest, Decision, Limits, Usage, no_limits, code_auth_invalid, code_plan_forbids,
  code_domain_unverified, code_subdomain_forbidden,
}
use trqsh.Store.Types.{Org, ApiKey, CustomDomain, UsageRecord}
use trqsh.Store.State.{MemStore}
use trqsh.Store.Accounts.{get_org}
use trqsh.Store.Names.{get_custom_domain_by_name, is_subdomain_reserved}
use trqsh.Store.Usage.{upsert_usage}
use trqsh.Billing.Plans.{Plan, plan_free, plan_for, limits}
use trqsh.Api.Keys.{KeyCheck, authenticated, unauthorized, key_revoked, authenticate_api_key}

-- `o.PlanExpiresAt != nil && time.Now().After(*o.PlanExpiresAt)`
abbrev is_past : ℕ → Option ℕ → Bool
is_past now none = false
is_past now (some t) = ltb t now

unfoldable pub effective_plan : ℕ → Org → String
effective_plan now o =
    if is_past now o.plan_expires_at then plan_free else if o.plan == "" then plan_free else o.plan

-- The account and its plan, none on any error.
account : ℕ → KeyCheck × MemStore → Option (String × String) × MemStore
unfolding effective_plan
account now (unauthorized, m) = (none, m)
account now (key_revoked, m) = (none, m)
account now (authenticated k, m) = elim (get_org k.org_id m).0 [
  | ok org ↦ (some (org.id, effective_plan now org), m)
  | err _ ↦ (none, m)
]

unfoldable pub authenticate :
    (String → String → Bool) → ℕ → String → MemStore → Option (String × String) × MemStore
unfolding account
authenticate verify_key now api_key m = account now (authenticate_api_key verify_key now api_key m)

abbrev deny : String → String → Decision
deny code msg = record {
  allow = false;
  account_id = "";
  plan = "";
  limits = no_limits;
  assigned_subdomain = "";
  error_code = code;
  error_message = msg;
}

abbrev deny_with : Decision → String → String → Decision
deny_with dec code msg = record dec { allow = false; error_code = code; error_message = msg }

-- `err != nil || d.OrgID != accountID || d.VerifiedAt == nil`
abbrev pub is_verified_for : String → Result CustomDomain → Bool
is_verified_for account_id (err _) = false
is_verified_for account_id (ok d) =
    d.org_id == account_id && (elim d.verified_at [ some _ ↦ true | none ↦ false ])

-- What the quota checker says; two empty texts are within the quota.
abbrev pub Quota : Type 0
Quota = Option (String → String → MemStore → String × String)

abbrev pub quota_answer : Quota → String → String → MemStore → String × String
quota_answer none account_id plan_code m = ("", "")
quota_answer (some check) account_id plan_code m = check account_id plan_code m

module _ (quota : Quota) (random : String) where
  within_quota : String → String → Decision → MemStore → Decision
  within_quota account_id plan_code dec m =
      let (code, msg) = quota_answer quota account_id plan_code m in
      if code == "" then record dec { allow = true } else deny_with dec code msg

  -- `random` is the subdomain that randSubdomain(8) draws.
  subdomain_allowed : BindRequest → String → String → Decision → MemStore → Decision
  unfolding within_quota
  subdomain_allowed req account_id plan_code dec m =
      if not (req.subdomain == "")
      then if is_subdomain_reserved account_id req.subdomain m
        then within_quota account_id plan_code dec m
        else deny_with dec code_subdomain_forbidden "subdomain is not reserved by your account"
      else within_quota account_id plan_code
          (if req.custom_host == "" then record dec { assigned_subdomain = random } else dec) m

  host_allowed : BindRequest → Plan → String → String → Decision → MemStore → Decision
  unfolding subdomain_allowed
  host_allowed req plan account_id plan_code dec m =
      if req.custom_host == ""
      then subdomain_allowed req account_id plan_code dec m
      else if not plan.allow_custom_domains
      then deny_with dec code_plan_forbids "custom domains require a paid plan"
      else if is_verified_for account_id (get_custom_domain_by_name req.custom_host m)
      then subdomain_allowed req account_id plan_code dec m
      else deny_with dec code_domain_unverified "custom domain not verified"

  protocol_allowed : BindRequest → String → String → MemStore → Decision
  unfolding host_allowed plan_for
  protocol_allowed req account_id plan_code m =
      let plan = plan_for plan_code in
      let dec : Decision = record {
        allow = false;
        account_id = account_id;
        plan = plan_code;
        limits = limits plan;
        assigned_subdomain = "";
        error_code = "";
        error_message = "";
      } in
      if req.type == "udp" && not plan.allow_udp
      then deny_with dec code_plan_forbids "UDP tunnels require a paid plan"
      else if req.type == "tls" && not plan.allow_tls
      then deny_with dec code_plan_forbids "TLS tunnels require a paid plan"
      else if req.type == "tcp" && not plan.allow_tcp
      then deny_with dec code_plan_forbids "TCP tunnels are not allowed on this plan"
      else host_allowed req plan account_id plan_code dec m

  decided_for : BindRequest → Option (String × String) × MemStore → Decision × MemStore
  unfolding protocol_allowed
  decided_for req (none, m) = (deny code_auth_invalid "invalid api key", m)
  decided_for req (some (account_id, plan_code), m) =
      (protocol_allowed req account_id plan_code m, m)

  unfoldable pub check_bind :
      (String → String → Bool) → ℕ → BindRequest → MemStore → Decision × MemStore
  unfolding decided_for
  check_bind verify_key now req m = decided_for req (authenticate verify_key now req.api_key m)

unfoldable pub report_usage : Usage → Exec MemStore Unit
report_usage u = upsert_usage (record {
  org_id = u.account_id;
  tunnel_id = u.tunnel_id;
  bytes_in = u.bytes_in;
  bytes_out = u.bytes_out;
  requests = u.requests;
  window_start = u.window_start;
  window_end = u.window_end;
})
