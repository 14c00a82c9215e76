-- ===== src/Billing/Metering/Quota.antt =====
-- The quota check against the plan's limits, on sums that stay below 2^63.
use trqsh.Prelude.{
  ℕ, ◌+◌, ◌<◌, ◌^◌, ◌*◌, Option, none, some, String, ◌≡◌, refl, arith, ◌==◌, string_eq, false, leb,
  if◌then◌else◌,
}
use trqsh.Prelude.Result.{ok, err, StoreError}
use trqsh.Authz.{code_quota_bandwidth}
use trqsh.Store.Types.{UsageRecord}
use trqsh.Billing.Plans.{plan_for, plan_free, plan_pro, plan_team, plan_payg, free}
use trqsh.Billing.Plans.Laws.{
  known_free, known_pro, known_team, known_payg, unknown, plan_cases, plan_for_unknown,
}
use trqsh.Billing.Metering.{check_quota, within}

-- The monthly allowance of bandwidth in bytes, as the price list has it; `none` is no limit.
abbrev pub monthly_bytes : String → Option ℕ
monthly_bytes code =
    if code == plan_pro
    then some (200 * 2 ^ 30)
    else if code == plan_team
    then some (2 ^ 40)
    else if code == plan_payg
    then none
    else some (10 * 2 ^ 30)

abbrev pub quota_code : Option ℕ → ℕ → String
quota_code none used = ""
quota_code (some limit) used = if leb limit used then code_quota_bandwidth else ""

same_as_free :
    (code : String) (u : UsageRecord)
    → plan_for code ≡ free
    → check_quota code (ok u) ≡ check_quota plan_free (ok u)
unfolding check_quota
same_as_free code u e = rw e

check_quota_err : (code : String) (e : StoreError) → check_quota code (err e) ≡ within
unfolding check_quota
check_quota_err code e = ground arith

abbrev Spec : String → Type 0
Spec code =
    (u : UsageRecord)
    → u.bytes_in + u.bytes_out < 2 ^ 63
    → (check_quota code (ok u)).0 ≡ quota_code (monthly_bytes code) (u.bytes_in + u.bytes_out)

Spec-free : Spec plan_free
unfolding check_quota
Spec-free u h = ground arith

Spec-pro : Spec plan_pro
unfolding check_quota
Spec-pro u h = ground arith

Spec-team : Spec plan_team
unfolding check_quota
Spec-team u h = ground arith

Spec-payg : Spec plan_payg
unfolding check_quota
Spec-payg u h = refl

Spec-code : (code : String) → Spec code
Spec-code code = elim (plan_cases code) [
  | known_free e ↦ rw e Spec-free
  | known_pro e ↦ rw e Spec-pro
  | known_team e ↦ rw e Spec-team
  | known_payg e ↦ rw e Spec-payg
  | unknown f p t y ↦ λ u h. unknown_case u h f p t y
]
  where
    unknown_case :
        (u : UsageRecord)
        → u.bytes_in + u.bytes_out < 2 ^ 63
        → (code == plan_free) ≡ false
        → (code == plan_pro) ≡ false
        → (code == plan_team) ≡ false
        → (code == plan_payg) ≡ false
        → (check_quota code (ok u)).0 ≡ quota_code (monthly_bytes code) (u.bytes_in + u.bytes_out)
    unknown_case u h f p t y =
        rw (same_as_free code u (plan_for_unknown code f p t y), p, t, y) (Spec-free u h)

-- With counters whose sum is below 2^63, a bind is refused for bandwidth exactly when the sum has
-- reached the allowance: 200 GB on Pro, 1 TB on Team, 10 GB on Free and on every unknown plan. It
-- is never refused on Pay-as-you-go, for requests, or when the usage lookup fails.
pub check_quota_lem :
    (code : String)
    → ((u : UsageRecord)
        → u.bytes_in + u.bytes_out < 2 ^ 63
        → (check_quota code (ok u)).0 ≡ quota_code (monthly_bytes code) (u.bytes_in + u.bytes_out))
      × ((e : StoreError) → check_quota code (err e) ≡ within)
check_quota_lem code = (Spec-code code, check_quota_err code)
