-- ===== src/Billing/Tests.antt =====
-- The theorems on the plans and the metering of internal/billing at concrete inputs.
use trqsh.Prelude.{◌+◌, ◌^◌, ◌<◌, ◌≡◌, refl, string_eq}
use trqsh.Prelude.Dict.{get, put, empty}
use trqsh.Prelude.Result.{StoreError, ok, err}
use trqsh.Store.Types.{UsageRecord}
use trqsh.Store.State.{MemStore, new_mem_store}
use trqsh.Store.Accounts.{create_org}
use trqsh.Store.Usage.{upsert_usage, usage_for_org}
use trqsh.Billing.Memory.{mem_billing}
use trqsh.Billing.Metering.{check_quota, within, collect_for_org}
use trqsh.Billing.Metering.Quota.{check_quota_lem, quota_code, monthly_bytes}
use trqsh.Billing.Metering.Collection.{late_usage_uncollected}
use trqsh.Billing.Webhooks.Tests.{stored}

program : Unit {0}
unfolding create_org new_mem_store get put empty upsert_usage usage_for_org
program = tt

check_quota_lem_example :
    ((u : UsageRecord)
      → u.bytes_in + u.bytes_out < 2 ^ 63
      → (check_quota "pro" (ok u)).0 ≡ quota_code (monthly_bytes "pro") (u.bytes_in + u.bytes_out))
    × ((e : StoreError) → check_quota "pro" (err e) ≡ within)
check_quota_lem_example = check_quota_lem "pro"

abbrev window : UsageRecord
window = record {
  org_id = "org_1";
  tunnel_id = "web";
  bytes_in = 4;
  bytes_out = 5;
  requests = 1;
  window_start = 10;
  window_end = 20;
}

abbrev used : MemStore
used = (upsert_usage window stored).1

abbrev summed : UsageRecord
summed = record window { tunnel_id = ""; window_start = 5; window_end = 30 }

late_usage_uncollected_example :
    let m₁ = (collect_for_org (mem_billing 30 "x") "org_1" 5 30 used).1 in
    let m₂ = (upsert_usage window m₁).1 in
    collect_for_org (mem_billing 40 "y") "org_1" 5 40 m₂ ≡ (ok 0, m₂)
unfolding program
late_usage_uncollected_example =
    late_usage_uncollected 30 40 "x" "y" "org_1" 5 30 40 used summed window refl refl refl
