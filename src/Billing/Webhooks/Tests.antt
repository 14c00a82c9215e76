-- ===== src/Billing/Webhooks/Tests.antt =====
-- The theorems on the webhook handler of internal/billing at concrete inputs.
use trqsh.Prelude.{
  ℕ, String, ◌≡◌, refl, false, not, ◌&&◌, none, some, [], ◌∷◌, ◌==◌, string_eq, if◌then◌else◌,
}
use trqsh.Prelude.Dict.{get, put, empty}
use trqsh.Store.Types.{Org}
use trqsh.Store.State.{MemStore, new_mem_store}
use trqsh.Store.Accounts.{create_org, set_org_stripe_customer, update_org_plan, get_org}
use trqsh.Store.Billing.{upsert_subscription, mark_event_processed}
use trqsh.Billing.Plans.{plan_for_price_id}
use trqsh.Billing.Config.{Config, Event, SubscriptionObject, price_id}
use trqsh.Billing.Memory.{mem_billing}
use trqsh.Billing.Webhooks.{
  Response, server_error, process, apply_subscription, derive_plan, plan_for_subscription, dispatch,
  attempt, attempted, on_subscription_upsert,
}
use trqsh.Billing.Webhooks.Plan.{plan_of, apply_subscription-plan}

abbrev pub org : Org
org = record {
  id = "org_1";
  name = "Acme";
  plan = "free";
  stripe_customer_id = "";
  created_at = 0;
  plan_expires_at = some 50;
}

abbrev pub stored : MemStore
stored = (create_org 10 "" org new_mem_store).1

abbrev config : Config
config = record {
  secret_key = "sk";
  webhook_secret = "whsec";
  prices = put empty "pro" (record { monthly = "price_pro"; annual = ""; metered = "" });
  meter_bandwidth = "";
  meter_requests = "";
}

abbrev unix : ℕ → ℕ
unix t = t

abbrev subscription : SubscriptionObject
subscription = record {
  id = "sub_1";
  customer = "cus_1";
  status = "active";
  cancel_at_period_end = false;
  current_period_end = 0;
  item_prices = "price_pro" ∷ [];
  metadata = empty;
}

-- Its object does not decode, so the handler fails.
abbrev broken : Event
broken = record {
  id = "evt_1";
  type = "customer.subscription.updated";
  as_checkout = none;
  as_subscription = none;
  as_invoice = none;
}

program : Unit {0}
unfolding create_org new_mem_store get put empty set_org_stripe_customer update_org_plan get_org
    upsert_subscription price_id plan_for_price_id apply_subscription derive_plan
    plan_for_subscription process dispatch attempt attempted mark_event_processed
    on_subscription_upsert
program = tt

abbrev after_broken : Response × MemStore
after_broken = process (mem_billing 10 "x") config unix broken stored

-- The first delivery is answered with a server error.
broken_run : after_broken.0 ≡ server_error
unfolding program
broken_run = refl

apply_subscription-plan_example :
    let m' = (apply_subscription (mem_billing 10 "x") config unix subscription "org_1" stored).1 in
    let target = derive_plan "active" (plan_for_subscription config subscription) in
    plan_of (get m'.orgs "org_1") ≡ (
      if not (target == "") && (◌==◌ {K = String} "org_1" "org_1")
      then some (target, none)
      else plan_of (get stored.orgs "org_1"))
unfolding program
apply_subscription-plan_example =
    apply_subscription-plan 10 "x" config unix subscription "org_1" "org_1" stored refl
