-- ===== src/Api/Tests.antt =====
-- The theorems on the control plane of internal/api at concrete inputs.
use trqsh.Prelude.{
  List, ◌∷◌, [], String, ◌≡◌, ◌≢◌, refl, Bool, true, none, some, arith, ◌==◌, string_eq,
}
use trqsh.Prelude.Text.{trim_space, strip_prefix, before}
use trqsh.Prelude.Dict.{get, put, empty}
use trqsh.Authz.{BindRequest}
use trqsh.Store.Types.{Org, ApiKey}
use trqsh.Store.State.{MemStore, new_mem_store}
use trqsh.Store.Accounts.{
  create_org, create_api_key, revoke_api_key, get_org, get_api_key_by_prefix, touch_api_key,
}
use trqsh.Billing.Plans.{plan_for, limits}
use trqsh.Api.Keys.{key_prefix, authenticate_api_key}
use trqsh.Api.Entitlements.{check_bind, authenticate, effective_plan}
use trqsh.Api.Entitlements.Granted.{allowed_for, check_bind_lem, expired_plan_binds}
use trqsh.Prelude.{false, ◌⊎◌, ◌&&◌, Option, if◌then◌else◌}
use trqsh.Prelude.Text.{◌<>◌}
use trqsh.Prelude.Result.{ok}
use trqsh.Store.Types.{CustomDomain}
use trqsh.Store.Names.{get_custom_domain, get_custom_domain_by_name, verify_custom_domain}
use trqsh.Api.Resources.{dns_has_txt, handle_verify_domain}
use trqsh.Api.Resources.Ownership.{Verified, handle_verify_domain-Verified}
use trqsh.Prelude.Text.{to_lower}
use trqsh.Store.Names.{reserve_subdomain, count_subdomains, add_custom_domain, count_custom_domains}
use trqsh.Api.Resources.{is_label, handle_reserve_subdomain, handle_add_domain}
use trqsh.Api.Resources.Limits.{WithinLimit, handle_reserve_subdomain-WithinLimit}

abbrev org : Org
org = record {
  id = "org_1";
  name = "Acme";
  plan = "pro";
  stripe_customer_id = "";
  created_at = 0;
  plan_expires_at = some 50;
}

abbrev key : ApiKey
key = record {
  id = "key_1";
  org_id = "org_1";
  name = "ci";
  prefix = "tq_live_ab12";
  hash = "hash";
  last_used_at = none;
  revoked_at = none;
  created_at = 0;
}

abbrev stored : MemStore
stored = (create_api_key 10 "" key (create_org 10 "" org new_mem_store).1).1

abbrev raw : String
raw = "tq_live_ab12_cd34"

-- The check of the secret, which holds for the one key.
abbrev verify : String → String → Bool
verify full hash = full == raw

program : Unit {0}
unfolding create_org create_api_key new_mem_store get put empty key_prefix strip_prefix before
    authenticate_api_key get_api_key_by_prefix touch_api_key get_org revoke_api_key effective_plan
    authenticate check_bind plan_for limits
program = tt

abbrev request : BindRequest
request = record {
  api_key = raw;
  type = "http";
  subdomain = "";
  custom_host = "";
  remote_port = 0;
  region = "eu";
}

check_bind_lem_example :
    let (who, m') = authenticate verify 40 raw stored in
    let (d, m'') = check_bind none "rabcdefg" verify 40 request stored in
    d.allow ≡ allowed_for none who request m' × m'' ≡ m'
check_bind_lem_example = check_bind_lem none "rabcdefg" verify 40 request stored

expired_plan_binds_example :
    ◌≢◌ {A = String} "http" "udp" × ◌≢◌ {A = String} "http" "tls" × ◌≡◌ {A = String} "" ""
unfolding program
expired_plan_binds_example =
    expired_plan_binds none "rabcdefg" verify 60 50 request stored (record key { created_at = 10 })
      (record org { created_at = 10 }) refl refl refl (omega arith) refl

handle_reserve_subdomain-WithinLimit_example :
    WithinLimit
      (λ o. (plan_for (effective_plan 20 o)).max_reserved_subdomains)
      count_subdomains
      "org_1"
      "org_1"
      stored
      (handle_reserve_subdomain 20 "sub_1" "org_1" " App " stored).1
handle_reserve_subdomain-WithinLimit_example =
    handle_reserve_subdomain-WithinLimit 20 "sub_1" "org_1" " App " "org_1" stored

abbrev with_domain : MemStore
with_domain = (handle_add_domain 20 "dom_1" "org_1" "v1" "app.acme.com" stored).1

abbrev records : String → Option (List String)
records name =
    if name == "_trqsh-challenge.app.acme.com" then some ("trqsh-verify=v1" ∷ []) else none

domains : Unit {0}
unfolding program handle_add_domain count_custom_domains add_custom_domain to_lower trim_space
    dns_has_txt handle_verify_domain get_custom_domain get_custom_domain_by_name
    verify_custom_domain
domains = tt

handle_verify_domain-Verified_example :
    Verified "org_1" "app.acme.com" with_domain
    ⊎ (◌≡◌ {A = String} "org_1" "org_1"
        × get with_domain.dom_by_name (to_lower "app.acme.com") ≡ some "dom_1"
        × ((d : CustomDomain) × get_custom_domain "dom_1" "org_1" with_domain ≡ ok d
            × ((false && true) ≡ true
                ⊎ dns_has_txt (records ("_trqsh-challenge." <> d.domain)) d.verify_token ≡ true)))
unfolding domains
handle_verify_domain-Verified_example =
    handle_verify_domain-Verified records false true 30 "dom_1" "org_1" "app.acme.com" "org_1"
      with_domain refl

-- Both requests are granted on the plan Pro, and a label does not end in a dash.
granted_example :
    count_subdomains "org_1" (handle_reserve_subdomain 20 "sub_1" "org_1" " App " stored).1 ≡ 1
    × count_custom_domains "org_1"
        (handle_add_domain 20 "dom_1" "org_1" "v1" "app.acme.com" stored).1
      ≡ 1
    × is_label "a-b" ≡ true
    × is_label "a-" ≡ false
unfolding program is_label handle_reserve_subdomain handle_add_domain count_subdomains
    count_custom_domains reserve_subdomain add_custom_domain to_lower trim_space
granted_example = (refl, refl, refl, refl)
