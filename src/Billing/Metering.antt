-- ===== src/Billing/Metering.antt =====
-- internal/billing/metering.go and the quota check of internal/billing/entitlements.go.
pub mod Collection
pub mod Quota
use trqsh.Prelude.{
  ℕ, suc, ◌+◌, String, Bool, true, false, not, ◌&&◌, ◌||◌, Option, none, some, List, [], ◌∷◌, ◌++◌,
  ltb, length, if◌then◌else◌, ◌==◌, string_eq, nat_eq,
}
use trqsh.Prelude.Int64.{add64, nonpos64, geb64}
use trqsh.Prelude.Result.{
  StoreError, not_found, conflict, failure, Result, ok, err, Exec, ◌>>=◌, pure,
}
use trqsh.Prelude.Text.{◌<>◌}
use trqsh.Authz.{code_quota_bandwidth, code_quota_requests}
use trqsh.Store.Types.{Org, UsageRecord, MeteredUsage}
use trqsh.Billing.Plans.{Plan, plan_for, plan_payg, metered, limits}
use trqsh.Billing.Interface.{BillingStore}
use trqsh.Billing.Config.{Config, enabled, meter_event_name, metric_bandwidth, metric_requests}

-- A push to the Billing Meters API.
pub record MeterEventParams : Type 0 where
  pub event_name : String
  pub customer_id : String
  pub value : ℕ
  pub identifier : String
  pub timestamp : ℕ

abbrev pub metered_row : String → String → ℕ → ℕ → ℕ → MeteredUsage
metered_row org_id metric qty start end = record {
  id = 0;
  org_id = org_id;
  metric = metric;
  quantity = qty;
  window_start = start;
  window_end = end;
  reported_at = none;
  created_at = 0;
}

-- The rest of the loop over the metrics after an insertion; a conflict is a row collected before.
collected : {S : Type 0} → Result MeteredUsage × S → ℕ → (ℕ → S → Result ℕ × S) → Result ℕ × S
collected (ok _, s) created rest = rest (suc created) s
collected (err conflict, s) created rest = rest created s
collected (err not_found, s) created rest = (err not_found, s)
collected (err failure, s) created rest = (err failure, s)

-- An organisation whose collection fails is logged and skipped.
added_up : {S : Type 0} → ℕ → Result ℕ × S → ℕ × S
added_up created (ok n, s) = (created + n, s)
added_up created (err _, s) = (created, s)

-- The count is returned also where the marking fails.
marked : {S : Type 0} → List ℕ → Result (Unit {0}) × S → ℕ × Result (Unit {0}) × S
marked reported (r, s) = (length reported, r, s)

module _ {S : Type 0} (st : BillingStore S) where
  collect_metrics : String → ℕ → ℕ → List (String × ℕ) → ℕ → Exec S ℕ
  unfolding collected
  collect_metrics org_id start end [] created s = (ok created, s)
  collect_metrics org_id start end ((metric, qty) ∷ ms) created s = elim (nonpos64 qty) [
    | true ↦ collect_metrics org_id start end ms created s
    | false ↦
        collected (st.insert_metered_usage (metered_row org_id metric qty start end) s) created
          (collect_metrics org_id start end ms)
  ]

  unfoldable pub collect_for_org : String → ℕ → ℕ → Exec S ℕ
  unfolding collect_metrics
  collect_for_org org_id start end = do
    usage ← st.usage_for_org org_id start
    collect_metrics org_id start end
        ((metric_bandwidth, add64 usage.bytes_in usage.bytes_out)
          ∷ (metric_requests, usage.requests)
          ∷ [])
        0

  collect_orgs : ℕ → ℕ → List Org → ℕ → S → ℕ × S
  unfolding added_up collect_for_org
  collect_orgs start end [] created s = (created, s)
  collect_orgs start end (org ∷ orgs) created s =
      let (n, t) = added_up created (collect_for_org org.id start end s) in
      collect_orgs start end orgs n t

  collect_all : ℕ → ℕ → Result (List Org) × S → Result ℕ × S
  unfolding collect_orgs
  collect_all start end (err e, s) = (err e, s)
  collect_all start end (ok orgs, s) = let (n, t) = collect_orgs start end orgs 0 s in (ok n, t)

  unfoldable pub collect_metered_usage : ℕ → ℕ → Exec S ℕ
  unfolding collect_all
  collect_metered_usage start end s = collect_all start end (st.orgs_by_plan plan_payg s)

  -- fmt.Sprintf("mu_%s_%s_%d", …) is `identifier`; `push` is the call of Stripe, true on success.
  module _ (cfg : Config) (identifier : MeteredUsage → String)
      (push : MeterEventParams → Bool) where
    pushed : MeteredUsage → String → Org → Bool
    pushed u event org =
        not (org.stripe_customer_id == "")
        && push (record {
          event_name = event;
          customer_id = org.stripe_customer_id;
          value = u.quantity;
          identifier = identifier u;
          timestamp = u.window_end;
        })

    offer : MeteredUsage → String → Result Org × S → Bool × S
    unfolding pushed
    offer u event (err _, s) = (false, s)
    offer u event (ok org, s) = (pushed u event org, s)

    flush_loop : List MeteredUsage → List ℕ → S → List ℕ × S
    unfolding offer
    flush_loop [] reported s = (reported, s)
    flush_loop (u ∷ us) reported s =
        let event = meter_event_name cfg u.metric in
        let (sent, t) = if event == "" then (false, s) else offer u event (st.get_org u.org_id s) in
        flush_loop us (if sent then reported ++ u.id ∷ [] else reported) t

    report : ℕ → List ℕ × S → ℕ × Result (Unit {0}) × S
    unfolding marked
    report now ([], s) = (0, ok tt, s)
    report now (i ∷ is, s) = marked (i ∷ is) (st.mark_metered_usage_reported (i ∷ is) now s)

    flush_pending : ℕ → Result (List MeteredUsage) × S → ℕ × Result (Unit {0}) × S
    unfolding report flush_loop
    flush_pending now (err e, s) = (0, err e, s)
    flush_pending now (ok us, s) = report now (flush_loop us [] s)

    -- ErrBillingDisabled is `none`. A nil Stripe client is not modelled: it goes with an empty key.
    unfoldable pub flush_metered_usage : ℕ → S → Option (ℕ × Result (Unit {0}) × S)
    unfolding flush_pending
    flush_metered_usage now s =
        if enabled cfg then some (flush_pending now (st.pending_metered_usage 500 s)) else none

-- CheckQuota: the code and the message, both empty within the quota. A failed usage lookup allows.
abbrev pub within : String × String
within = ("", "")

over_quota : Plan → Result UsageRecord → String × String
unfolding limits
over_quota plan (err _) = within
over_quota plan (ok usage) =
    let l = limits plan in
    if not (nonpos64 l.max_bandwidth_bytes_mo)
      && geb64 (add64 usage.bytes_in usage.bytes_out) l.max_bandwidth_bytes_mo
    then (
      code_quota_bandwidth,
      "monthly bandwidth quota exceeded for the " <> plan.name <> " plan; upgrade to raise it",
    )
    else if not (nonpos64 l.max_requests_mo) && geb64 usage.requests l.max_requests_mo
    then (
      code_quota_requests,
      "monthly request quota exceeded for the " <> plan.name <> " plan; upgrade to raise it",
    )
    else within

-- `usage` is what UsageForOrg answers for the start of the month.
unfoldable pub check_quota : String → Result UsageRecord → String × String
unfolding over_quota plan_for metered limits
check_quota plan_code usage =
    let plan = plan_for plan_code in
    let l = limits plan in
    if metered plan
    then within
    else if nonpos64 l.max_bandwidth_bytes_mo && nonpos64 l.max_requests_mo
    then within
    else over_quota plan usage
