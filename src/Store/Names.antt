-- ===== src/Store/Names.antt =====
-- Reserved subdomains and custom domains (internal/api/store/mem.go).
use trqsh.Prelude.{
  ℕ, String, Bool, false, Option, none, some, List, if◌then◌else◌, ◌==◌, string_eq, keep, length,
}
use trqsh.Prelude.Text.{to_lower}
use trqsh.Prelude.Result.{Exec, Result, ok, err, not_found, conflict}
use trqsh.Prelude.Dict.{get, put, delete, values}
use trqsh.Store.Types.{ReservedSubdomain, CustomDomain}
use trqsh.Store.State.{MemStore, or_new_id, or_now}
use trqsh.Store.Accounts.{or_zero}

unfoldable pub reserve_subdomain : ℕ → String → ReservedSubdomain → Exec MemStore ReservedSubdomain
reserve_subdomain now fresh s m =
    let name = to_lower s.subdomain in
    elim (get m.sub_by_name name) [
      | some _ ↦ (err conflict, m)
      | none ↦
          let s' = record s {
            id = or_new_id s.id fresh;
            subdomain = name;
            created_at = or_now s.created_at now;
          } in
          (
            ok s',
            record m { subs = put m.subs s'.id s'; sub_by_name = put m.sub_by_name name s'.id },
          )
    ]

unfoldable pub list_subdomains : String → MemStore → List ReservedSubdomain
list_subdomains org_id m = keep (λ s. s.org_id == org_id) (values m.subs)

unfoldable pub release_subdomain : String → String → Exec MemStore Unit
release_subdomain id org_id m = elim (get m.subs id) [
  | none ↦ (err not_found, m)
  | some s ↦
      if s.org_id == org_id
      then (
        ok tt,
        record m { subs = delete m.subs id; sub_by_name = delete m.sub_by_name s.subdomain },
      )
      else (err not_found, m)
]

abbrev owner_of : Option ReservedSubdomain → String
owner_of none = ""
owner_of (some s) = s.org_id

unfoldable pub is_subdomain_reserved : String → String → MemStore → Bool
is_subdomain_reserved org_id subdomain m = elim (get m.sub_by_name (to_lower subdomain)) [
  | none ↦ false
  | some id ↦ owner_of (get m.subs id) == org_id
]

unfoldable pub count_subdomains : String → MemStore → ℕ
count_subdomains org_id m = length (keep (λ s. s.org_id == org_id) (values m.subs))

unfoldable pub add_custom_domain : ℕ → String → CustomDomain → Exec MemStore CustomDomain
add_custom_domain now fresh d m =
    let name = to_lower d.domain in
    elim (get m.dom_by_name name) [
      | some _ ↦ (err conflict, m)
      | none ↦
          let d' = record d {
            id = or_new_id d.id fresh;
            domain = name;
            cert_status = if d.cert_status == "" then "pending" else d.cert_status;
            created_at = or_now d.created_at now;
          } in
          (
            ok d',
            record m {
              domains = put m.domains d'.id d';
              dom_by_name = put m.dom_by_name name d'.id;
            },
          )
    ]

unfoldable pub get_custom_domain : String → String → MemStore → Result CustomDomain
get_custom_domain id org_id m = elim (get m.domains id) [
  | none ↦ err not_found
  | some d ↦ if d.org_id == org_id then ok d else err not_found
]

abbrev pub zero_custom_domain : CustomDomain
zero_custom_domain = record {
  id = "";
  org_id = "";
  domain = "";
  verify_token = "";
  verified_at = none;
  cert_status = "";
  created_at = 0;
}

unfoldable pub get_custom_domain_by_name : String → MemStore → Result CustomDomain
get_custom_domain_by_name domain m = elim (get m.dom_by_name (to_lower domain)) [
  | none ↦ err not_found
  | some id ↦ ok (or_zero zero_custom_domain (get m.domains id))
]

unfoldable pub list_custom_domains : String → MemStore → List CustomDomain
list_custom_domains org_id m = keep (λ d. d.org_id == org_id) (values m.domains)

unfoldable pub verify_custom_domain : String → String → ℕ → Exec MemStore Unit
verify_custom_domain id org_id at m = elim (get m.domains id) [
  | none ↦ (err not_found, m)
  | some d ↦
      if d.org_id == org_id
      then (
        ok tt,
        record m {
          domains = put m.domains id (record d { verified_at = some at; cert_status = "verified" });
        },
      )
      else (err not_found, m)
]

unfoldable pub count_custom_domains : String → MemStore → ℕ
count_custom_domains org_id m = length (keep (λ d. d.org_id == org_id) (values m.domains))
