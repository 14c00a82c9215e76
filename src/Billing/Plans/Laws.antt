-- ===== src/Billing/Plans/Laws.antt =====
-- What the catalogue of internal/billing/plans.go gives for a code and for a price.
use trqsh.Prelude.{
  String, ◌≡◌, refl, false, none, arith, eq_iff, ◌==◌, string_eq, Bool-cases, inl, inr, ◌⊎◌,
}
use trqsh.Billing.Plans.{
  plan_free, plan_pro, plan_team, plan_payg, catalog, plan_for, limits_for_plan, free,
}

-- A code is one of the four, or none of them.
pub data PlanCases (code : String) : Type 0 where
  known_free : code ≡ plan_free → PlanCases code
  known_pro : code ≡ plan_pro → PlanCases code
  known_team : code ≡ plan_team → PlanCases code
  known_payg : code ≡ plan_payg → PlanCases code
  unknown :
      (code == plan_free) ≡ false
      → (code == plan_pro) ≡ false
      → (code == plan_team) ≡ false
      → (code == plan_payg) ≡ false
      → PlanCases code

pub plan_cases : (code : String) → PlanCases code
plan_cases code = elim (Bool-cases (code == plan_free)) [
  | inl e ↦ known_free ((eq_iff code plan_free).0 e)
  | inr f ↦ elim (Bool-cases (code == plan_pro)) [
    | inl e ↦ known_pro ((eq_iff code plan_pro).0 e)
    | inr p ↦ elim (Bool-cases (code == plan_team)) [
      | inl e ↦ known_team ((eq_iff code plan_team).0 e)
      | inr t ↦ elim (Bool-cases (code == plan_payg)) [
        | inl e ↦ known_payg ((eq_iff code plan_payg).0 e)
        | inr y ↦ unknown f p t y
      ]
    ]
  ]
]

pub plan_for_unknown :
    (code : String)
    → (code == plan_free) ≡ false
    → (code == plan_pro) ≡ false
    → (code == plan_team) ≡ false
    → (code == plan_payg) ≡ false
    → plan_for code ≡ free
unfolding plan_for
plan_for_unknown code f p t y = ground arith

-- No code but Pay-as-you-go's has unlimited bandwidth, tunnels or request rate: a code that the
-- catalogue does not know is given the limits of Free.
pub unlimited_only_payg :
    (code : String)
    → let l = limits_for_plan code in
      ((l.max_bandwidth_bytes_mo ≡ 0) ⊎ (l.max_concurrent_tunnels ≡ 0) ⊎ (l.rate_limit_rps ≡ 0)
        → code ≡ plan_payg)
      × (catalog code ≡ none → l ≡ limits_for_plan plan_free)
unfolding limits_for_plan
unlimited_only_payg code = elim (plan_cases code) [
  | known_free e ↦ rw e (λ h. absurd (ground arith), λ h. refl)
  | known_pro e ↦ rw e (λ h. absurd (ground arith), λ h. cc)
  | known_team e ↦ rw e (λ h. absurd (ground arith), λ h. cc)
  | known_payg e ↦ (λ _. e, rw e (λ h. cc))
  | unknown f p t y ↦ rw (plan_for_unknown code f p t y) (λ h. absurd (ground arith), λ h. refl)
]
