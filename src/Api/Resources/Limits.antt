-- ===== src/Api/Resources/Limits.antt =====
-- The plan's limits on what internal/api/handlers_resources.go reserves and adds.
use trqsh.Prelude.{
  ℕ, ◌+◌, ◌≤◌, String, ◌≡◌, refl, ap, subst, ◌⊎◌, inl, inr, Bool, true, false, not, ◌||◌, none,
  List, [], ◌∷◌, length, keep, leb, if◌then◌else◌, ◌==◌, string_eq, arith, Bool-cases, Option-cases,
  map, eq_iff,
}
use trqsh.Prelude.Dict.{Dict, get, put, values, sum_values, sum_entries, sum_values-put}
use trqsh.Prelude.Text.{◌<>◌, to_lower, trim_space}
use trqsh.Prelude.Result.{Result, ok, err, not_found, conflict, failure}
use trqsh.Store.Types.{Org, ReservedSubdomain, CustomDomain}
use trqsh.Store.State.{MemStore}
use trqsh.Store.Accounts.{get_org}
use trqsh.Store.Names.{reserve_subdomain, count_subdomains, add_custom_domain, count_custom_domains}
use trqsh.Billing.Plans.{Plan, plan_for}
use trqsh.Api.Entitlements.{effective_plan}
use trqsh.Api.Resources.{
  Response, stored_answer, is_label, has_dot, handle_reserve_subdomain, handle_add_domain,
}

-- How many values of a map pass a test.
module _ {V : Type 0} (p : V → Bool) where
  abbrev one : V → ℕ
  one v = if p v then 1 else 0

  length-keep : (m : List (String × V)) → length (keep p (map (λ e. e.1) m)) ≡ sum_entries one m
  unfolding sum_entries
  length-keep [] = refl
  length-keep ((k, v) ∷ m) = elim (Bool-cases (p v)) [
    | inl e ↦ rw e (omega (arith, length-keep m))
    | inr e ↦ rw e (omega (arith, length-keep m))
  ]

  length-keep-put :
      (d : Dict String V) (k : String) (v : V)
      → length (keep p (values (put d k v))) ≤ length (keep p (values d)) + one v
  unfolding sum_values
  length-keep-put d k v =
      omega
        (arith, length-keep (put d k v).entries, length-keep d.entries, sum_values-put one d k v)

-- What an account's count may be after a call: no more than before, or within the limit of the plan
-- of the organisation that called.
abbrev pub WithinLimit :
    (Org → ℕ) → (String → MemStore → ℕ) → String → String → MemStore → MemStore → Type 0
WithinLimit limit count caller a m m' =
    count a m' ≤ count a m
    ⊎ ((org : Org) × (get_org caller m).0 ≡ ok org × a ≡ org.id × count a m' ≤ limit org)

stored_answer-state : {A : Type 0} (x : Result A × MemStore) → x.1 ≡ (stored_answer x).1
stored_answer-state (ok a, m) = refl
stored_answer-state (err not_found, m) = refl
stored_answer-state (err conflict, m) = refl
stored_answer-state (err failure, m) = refl

-- A stored value counts for its own account only.
within :
    (limit : Org → ℕ) (count : String → MemStore → ℕ) (caller a : String) (m m' : MemStore)
    (org : Org)
    → (get_org caller m).0 ≡ ok org
    → leb (limit org) (count org.id m) ≡ false
    → count a m' ≤ count a m + (if org.id == a then 1 else 0)
    → WithinLimit limit count caller a m m'
within limit count caller a m m' org g f h = elim (Bool-cases (org.id == a)) [
  | inl e ↦
      let q : a ≡ org.id = ground (arith, eq_iff org.id a) in
      inr (org, g, q, bound e (ap (λ x. count x m) q))
  | inr e ↦ inl (ground arith)
]
  where
    bound : (org.id == a) ≡ true → count a m ≡ count org.id m → count a m' ≤ limit org
    bound e c = ground arith

-- A store that may fail, behind the guard on the count.
guarded :
    {A : Type 0} (limit : Org → ℕ) (count : String → MemStore → ℕ) (caller a : String)
    (m : MemStore) (org : Org) (t : Result A × MemStore)
    → (get_org caller m).0 ≡ ok org
    → count a t.1 ≤ count a m + (if org.id == a then 1 else 0)
    → (b : Bool) → leb (limit org) (count org.id m) ≡ b
    → WithinLimit limit count caller a m (if b then (Response.forbidden, m) else stored_answer t).1
guarded limit count caller a m org t g h true e = inl (omega arith)
guarded limit count caller a m org t g h false e =
    subst (WithinLimit limit count caller a m) (stored_answer-state t)
      (within limit count caller a m t.1 org g e h)

module _ (now : ℕ) (fresh : String) where
  count_subdomains-reserve :
      (a : String) (s : ReservedSubdomain) (m : MemStore)
      → count_subdomains a (reserve_subdomain now fresh s m).1
        ≤ count_subdomains a m + (if s.org_id == a then 1 else 0)
  unfolding count_subdomains reserve_subdomain
  count_subdomains-reserve a s m = elim (Option-cases (get m.sub_by_name (to_lower s.subdomain))) [
    | inr (y, e) ↦ rw (e, reserve_subdomain) (omega arith)
    | inl e ↦ rw (e, reserve_subdomain) (length-keep-put (λ t. t.org_id == a) m.subs _ _)
  ]

  count_custom_domains-add :
      (a : String) (d : CustomDomain) (m : MemStore)
      → count_custom_domains a (add_custom_domain now fresh d m).1
        ≤ count_custom_domains a m + (if d.org_id == a then 1 else 0)
  unfolding count_custom_domains add_custom_domain
  count_custom_domains-add a d m = elim (Option-cases (get m.dom_by_name (to_lower d.domain))) [
    | inr (y, e) ↦ rw (e, add_custom_domain) (omega arith)
    | inl e ↦ rw (e, add_custom_domain) (length-keep-put (λ t. t.org_id == a) m.domains _ _)
  ]

  -- No request for a subdomain raises the count of any account, but for the caller's own
  -- organisation, whose count is then within the limit of the plan that is in effect.
  pub handle_reserve_subdomain-WithinLimit :
      (caller subdomain a : String) (m : MemStore)
      → WithinLimit
          (λ o. (plan_for (effective_plan now o)).max_reserved_subdomains)
          count_subdomains
          caller
          a
          m
          (handle_reserve_subdomain now fresh caller subdomain m).1
  unfolding handle_reserve_subdomain
  handle_reserve_subdomain-WithinLimit caller subdomain a m =
      elim (Bool-cases (is_label (to_lower (trim_space subdomain)))) [
        | inl e ↦ rw e (looked_up (get_org caller m).0 refl)
        | inr e ↦ rw e (inl (omega arith))
      ]
    where
      sub : String
      sub = to_lower (trim_space subdomain)

      limit : Org → ℕ
      limit o = (plan_for (effective_plan now o)).max_reserved_subdomains

      row : Org → ReservedSubdomain
      row org = record { id = ""; org_id = org.id; subdomain = sub; created_at = 0 }

      looked_up :
          (o : Result Org)
          → (get_org caller m).0 ≡ o
          → WithinLimit limit count_subdomains caller a m
              (elim o as (λ _. Response ReservedSubdomain × MemStore) [
                | err _ ↦ (Response.internal_error, m)
                | ok org ↦
                    if leb (limit org) (count_subdomains org.id m)
                    then (Response.forbidden, m)
                    else stored_answer (reserve_subdomain now fresh (row org) m)
              ]).1
      looked_up (err x) g = inl (omega arith)
      looked_up (ok org) g =
          guarded limit count_subdomains caller a m org (reserve_subdomain now fresh (row org) m) g
            (count_subdomains-reserve a (row org) m) (leb (limit org) (count_subdomains org.id m))
            refl

  -- No request for a custom domain raises the count of any account, but for the caller's own
  -- organisation, whose count is then within the limit of the plan that is in effect.
  pub handle_add_domain-WithinLimit :
      (caller drawn name a : String) (m : MemStore)
      → WithinLimit
          (λ o. (plan_for (effective_plan now o)).max_custom_domains)
          count_custom_domains
          caller
          a
          m
          (handle_add_domain now fresh caller drawn name m).1
  unfolding handle_add_domain
  handle_add_domain-WithinLimit caller drawn name a m =
      elim (Bool-cases (domain == "" || not (has_dot domain))) [
        | inl e ↦ rw e (inl (omega arith))
        | inr e ↦ rw e (looked_up (get_org caller m).0 refl)
      ]
    where
      domain : String
      domain = to_lower (trim_space name)

      plan : Org → Plan
      plan o = plan_for (effective_plan now o)

      limit : Org → ℕ
      limit o = (plan o).max_custom_domains

      row : Org → CustomDomain
      row org = record {
        id = "";
        org_id = org.id;
        domain = domain;
        verify_token = "trqsh-verify=" <> drawn;
        verified_at = none;
        cert_status = "";
        created_at = 0;
      }

      allowed :
          (org : Org)
          → (get_org caller m).0 ≡ ok org
          → (b : Bool)
          → WithinLimit limit count_custom_domains caller a m
              (if b
                then (Response.forbidden, m)
                else if leb (limit org) (count_custom_domains org.id m)
                then (Response.forbidden, m)
                else stored_answer (add_custom_domain now fresh (row org) m)).1
      allowed org g true = inl (omega arith)
      allowed org g false =
          guarded limit count_custom_domains caller a m org
            (add_custom_domain now fresh (row org) m) g (count_custom_domains-add a (row org) m)
            (leb (limit org) (count_custom_domains org.id m)) refl

      looked_up :
          (o : Result Org)
          → (get_org caller m).0 ≡ o
          → WithinLimit limit count_custom_domains caller a m
              (elim o as (λ _. Response CustomDomain × MemStore) [
                | err _ ↦ (Response.internal_error, m)
                | ok org ↦
                    if not (plan org).allow_custom_domains
                    then (Response.forbidden, m)
                    else if leb (limit org) (count_custom_domains org.id m)
                    then (Response.forbidden, m)
                    else stored_answer (add_custom_domain now fresh (row org) m)
              ]).1
      looked_up (err x) g = inl (omega arith)
      looked_up (ok org) g = allowed org g (not (plan org).allow_custom_domains)
