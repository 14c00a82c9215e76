-- ===== src/Api/Resources.antt =====
-- Subdomains and custom domains in internal/api/handlers_resources.go, over the in-memory store. The
-- account is the principal's organisation; the body of a request has been decoded.
-- A handler is one step, where the source counts and writes in two calls of the store.
pub mod Limits
pub mod Ownership
use trqsh.Prelude.{
  ℕ, zero, suc, String, Bool, true, false, not, ◌&&◌, ◌||◌, Option, none, some, List, any,
  if◌then◌else◌, ◌==◌, string_eq, nat_eq, leb,
}
use Prim.Native.Char.{Char, code}
use trqsh.Prelude.Text.{◌<>◌, to_lower, trim_space, before}
use trqsh.Prelude.Result.{StoreError, Result, ok, err, not_found, conflict, failure, Exec}
use trqsh.Store.Types.{Org, ReservedSubdomain, CustomDomain, ApiKey}
use trqsh.Store.State.{MemStore}
use trqsh.Store.Accounts.{get_org, create_api_key, revoke_api_key}
use trqsh.Store.Names.{
  reserve_subdomain, release_subdomain, count_subdomains, add_custom_domain, get_custom_domain,
  verify_custom_domain, count_custom_domains, zero_custom_domain,
}
use trqsh.Billing.Plans.{Plan, plan_for}
use trqsh.Api.Entitlements.{effective_plan}

-- What a handler answers: the value with the status 200 or 201, or the status of the refusal.
pub data Response {ℓ} (A : Type ℓ) : Type ℓ where
  answered : A → Response A
  no_content bad_request forbidden missing taken internal_error : Response A

-- [a-z0-9]
abbrev is_label_end : Char → Bool
is_label_end c = leb 97 (code c) && leb (code c) 122 || leb 48 (code c) && leb (code c) 57

-- `[a-z0-9-]{0,n}[a-z0-9]$`, of what follows the first character
is_label_rest : ℕ → String → Bool
is_label_rest n String.[] = false
is_label_rest n (String.◌∷◌ c String.[]) = is_label_end c
is_label_rest zero (String.◌∷◌ c (String.◌∷◌ d s)) = false
is_label_rest (suc n) (String.◌∷◌ c (String.◌∷◌ d s)) =
    let rest = is_label_rest n (String.◌∷◌ d s) in (is_label_end c || code c == 45) && rest

-- subdomainRe, `^[a-z0-9]([a-z0-9-]{0,61}[a-z0-9])?$`
unfoldable pub is_label : String → Bool
unfolding is_label_rest
is_label String.[] = false
is_label (String.◌∷◌ c String.[]) = is_label_end c
is_label (String.◌∷◌ c (String.◌∷◌ d s)) = is_label_end c && is_label_rest 61 (String.◌∷◌ d s)

abbrev stored_answer : {A : Type 0} → Result A × MemStore → Response A × MemStore
stored_answer (ok a, m) = (answered a, m)
stored_answer (err conflict, m) = (taken, m)
stored_answer (err not_found, m) = (internal_error, m)
stored_answer (err failure, m) = (internal_error, m)

-- strings.Contains(domain, ".")
abbrev pub has_dot : String → Bool
has_dot domain = elim (before 46 domain) [ some _ ↦ true | none ↦ false ]

module _ (now : ℕ) (fresh account : String) where
  unfoldable pub handle_reserve_subdomain :
      String → MemStore → Response ReservedSubdomain × MemStore
  handle_reserve_subdomain subdomain m =
      let sub = to_lower (trim_space subdomain) in
      if not (is_label sub) then (bad_request, m) else elim (get_org account m).0 [
        | err _ ↦ (internal_error, m)
        | ok org ↦
            if leb (plan_for (effective_plan now org)).max_reserved_subdomains
              (count_subdomains org.id m)
            then (forbidden, m)
            else stored_answer (
                reserve_subdomain now fresh
                  (record { id = ""; org_id = org.id; subdomain = sub; created_at = 0 }) m)
      ]

  -- `drawn` is the token that NewID draws.
  unfoldable pub handle_add_domain : String → String → MemStore → Response CustomDomain × MemStore
  handle_add_domain drawn name m =
      let domain = to_lower (trim_space name) in
      if domain == "" || not (has_dot domain)
      then (bad_request, m)
      else elim (get_org account m).0 [
        | err _ ↦ (internal_error, m)
        | ok org ↦
            let plan = plan_for (effective_plan now org) in
            if not plan.allow_custom_domains
            then (forbidden, m)
            else if leb plan.max_custom_domains (count_custom_domains org.id m)
            then (forbidden, m)
            else stored_answer (
                add_custom_domain now fresh
                  (record {
                    id = "";
                    org_id = org.id;
                    domain = domain;
                    verify_token = "trqsh-verify=" <> drawn;
                    verified_at = none;
                    cert_status = "";
                    created_at = 0;
                  })
                  m)
      ]

-- records of net.LookupTXT, none on an error
unfoldable pub dns_has_txt : Option (List String) → String → Bool
dns_has_txt none want = false
dns_has_txt (some records) want = any (λ r. trim_space r == want) records

abbrev released : Result (Unit {0}) × MemStore → Response (Unit {0}) × MemStore
released (ok _, m) = (no_content, m)
released (err _, m) = (missing, m)

unfoldable pub handle_release_subdomain :
    String → String → MemStore → Response (Unit {0}) × MemStore
handle_release_subdomain id account m = released (release_subdomain id account m)

-- Its error is ignored, which leaves the zero value.
abbrev or_zero_domain : Result CustomDomain → CustomDomain
or_zero_domain (ok d) = d
or_zero_domain (err e) = zero_custom_domain

abbrev verified : String → String → Result (Unit {0}) × MemStore → Response CustomDomain × MemStore
verified id account (ok _, m) = (answered (or_zero_domain (get_custom_domain id account m)), m)
verified id account (err _, m) = (internal_error, m)

-- `lookup_txt` is net.LookupTXT, and `force` whether the query asks for it.
unfoldable pub handle_verify_domain :
    (String → Option (List String))
    → Bool
    → Bool
    → ℕ
    → String
    → String
    → MemStore
    → Response CustomDomain × MemStore
handle_verify_domain lookup_txt dev_auth force now id account m =
    elim (get_custom_domain id account m) [
      | err _ ↦ (missing, m)
      | ok d ↦
          if not (dev_auth && force)
            && not (dns_has_txt (lookup_txt ("_trqsh-challenge." <> d.domain)) d.verify_token)
          then (bad_request, m)
          else verified id account (verify_custom_domain id account now m)
    ]

abbrev key_created : Result ApiKey × MemStore → Response ApiKey × MemStore
key_created (ok k, m) = (answered k, m)
key_created (err _, m) = (internal_error, m)

-- The prefix and the hash are those of the key that is generated, and the answer shows the key too.
unfoldable pub handle_create_api_key :
    ℕ → String → String → String → String → String → MemStore → Response ApiKey × MemStore
handle_create_api_key now fresh account name prefix hash m = key_created (
    create_api_key now fresh
      (record {
        id = "";
        org_id = account;
        name = if name == "" then "default" else name;
        prefix = prefix;
        hash = hash;
        last_used_at = none;
        revoked_at = none;
        created_at = 0;
      })
      m)

unfoldable pub handle_revoke_api_key :
    ℕ → String → String → MemStore → Response (Unit {0}) × MemStore
handle_revoke_api_key now id account m = released (revoke_api_key id account now m)
