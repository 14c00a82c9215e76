-- ===== src/Api/Resources/Ownership.antt =====
-- Who comes to own a custom domain by handleVerifyDomain of internal/api/handlers_resources.go.
use trqsh.Prelude.{
  ℕ, ◌≡◌, ◌⊎◌, refl, sym, ap, subst, ◌∙◌, String, Bool, true, not, ◌&&◌, Option, some, List,
  if◌then◌else◌, ◌==◌, string_eq, arith, eq_iff, Bool-cases, Option-cases, inl, inr,
}
use trqsh.Prelude.Text.{◌<>◌, to_lower}
use trqsh.Prelude.Dict.{get, get-put}
use trqsh.Prelude.Result.{Result, ok, err}
use trqsh.Store.Types.{CustomDomain}
use trqsh.Store.State.{MemStore}
use trqsh.Store.Names.{get_custom_domain, get_custom_domain_by_name, verify_custom_domain}
use trqsh.Api.Entitlements.{is_verified_for}
use trqsh.Api.Resources.{
  dns_has_txt, handle_verify_domain, verified, Response, missing, bad_request,
}

abbrev pub Verified : String → String → MemStore → Type 0
Verified account host m = is_verified_for account (get_custom_domain_by_name host m) ≡ true

verified-state :
    (id account : String) (x : Result (Unit {0}) × MemStore) → (verified id account x).1 ≡ x.1
verified-state id account (ok u, m) = refl
verified-state id account (err e, m) = refl

get_custom_domain-some :
    (id account : String) (d : CustomDomain) (m : MemStore)
    → get_custom_domain id account m ≡ ok d
    → get m.domains id ≡ some d × d.org_id ≡ account
unfolding get_custom_domain
get_custom_domain-some id account d m h =
    (ground (arith, eq_iff d.org_id account), ground (arith, eq_iff d.org_id account))

-- Marking a domain of the account verified does so for its own name and its own account.
Verified-marked :
    (id account host owner : String) (at : ℕ) (d : CustomDomain) (m : MemStore)
    → get m.domains id ≡ some d
    → d.org_id ≡ account
    → Verified owner host (verify_custom_domain id account at m).1
    → Verified owner host m ⊎ (get m.dom_by_name (to_lower host) ≡ some id × owner ≡ account)
unfolding verify_custom_domain get_custom_domain_by_name
Verified-marked id account host owner at d m g o h =
    elim (Option-cases (get m.dom_by_name (to_lower host))) [
      | inl e ↦ absurd (ground (arith, eq_iff d.org_id account))
      | inr (k, e) ↦
          let v : CustomDomain = record d { verified_at = some at; cert_status = "verified" } in
          elim (Bool-cases (id == k)) [
            | inl b ↦
                let w : d.org_id ≡ owner = ground (
                  arith,
                  get-put m.domains id k v,
                  eq_iff d.org_id owner,
                  eq_iff d.org_id account,
                ) in
                inr (e ∙ ap some (sym ((eq_iff id k).0 b)), sym w ∙ o)
            | inr b ↦ inl (ground (arith, get-put m.domains id k v, eq_iff d.org_id account))
          ]
    ]

-- An account comes to own a custom domain by a request to verify only as the account of the caller, only
-- for the domain that the caller names, which is its own, and only where the domain's DNS shows the
-- token that was drawn for it, unless development mode skips that.
pub handle_verify_domain-Verified :
    (lookup_txt : String → Option (List String)) (dev_auth force : Bool) (now : ℕ)
    (id account host owner : String) (m : MemStore)
    → Verified owner host (handle_verify_domain lookup_txt dev_auth force now id account m).1
    → Verified owner host m
      ⊎ (owner ≡ account
          × get m.dom_by_name (to_lower host) ≡ some id
          × ((d : CustomDomain) × get_custom_domain id account m ≡ ok d
              × ((dev_auth && force) ≡ true
                  ⊎ dns_has_txt (lookup_txt ("_trqsh-challenge." <> d.domain)) d.verify_token
                    ≡ true)))
unfolding handle_verify_domain
handle_verify_domain-Verified lookup_txt dev_auth force now id account host owner m h =
    found (get_custom_domain id account m) refl h
  where
    challenged : CustomDomain → Bool
    challenged d = dns_has_txt (lookup_txt ("_trqsh-challenge." <> d.domain)) d.verify_token

    found :
        (r : Result CustomDomain)
        → get_custom_domain id account m ≡ r
        → Verified owner host
            (elim r as (λ _. Response CustomDomain × MemStore) [
              | err _ ↦ (missing, m)
              | ok d ↦
                  if not (dev_auth && force) && not (challenged d)
                  then (bad_request, m)
                  else verified id account (verify_custom_domain id account now m)
            ]).1
        → Verified owner host m
          ⊎ (owner ≡ account
              × get m.dom_by_name (to_lower host) ≡ some id
              × ((d : CustomDomain) × get_custom_domain id account m ≡ ok d
                  × ((dev_auth && force) ≡ true ⊎ challenged d ≡ true)))
    found (err x) e h = inl h
    found (ok d) e h = elim (Bool-cases (not (dev_auth && force) && not (challenged d))) [
      | inl t ↦ inl (
          subst
            (λ b.
              Verified owner host
                (if b
                  then (bad_request, m)
                  else verified id account (verify_custom_domain id account now m)).1)
            t h)
      | inr t ↦
          let h' =
            subst
              (λ b.
                Verified owner host
                  (if b
                    then (bad_request, m)
                    else verified id account (verify_custom_domain id account now m)).1)
              t h in
          let (g, o) = get_custom_domain-some id account d m e in
          elim (Verified-marked id account host owner now d m g o (
            subst (Verified owner host)
              (verified-state id account (verify_custom_domain id account now m)) h')) [
                | inl a ↦ inl a
                | inr (n, p) ↦ inr (
                  p,
                  n,
                  (
                    d,
                    e,
                    elim (Bool-cases (dev_auth && force)) [
                      | inl f ↦ inl f
                      | inr f ↦ inr (ground arith)
                    ],
                  ),
                )
              ]
    ]
