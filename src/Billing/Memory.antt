-- ===== src/Billing/Memory.antt =====
-- The in-memory store of internal/api/store/mem.go as the store that billing works on. A call reads
-- the clock at `now` and draws the identifier `fresh`.
use trqsh.Prelude.{ℕ, String, ◌≡◌, ◌≢◌, Bool, true, false, none, some, arith, eq_iff, string_eq}
use trqsh.Prelude.Result.{ok}
use trqsh.Prelude.Dict.{get, get-put}
use trqsh.Store.Types.{Subscription}
use trqsh.Store.State.{MemStore}
use trqsh.Store.Accounts.{
  get_org, get_org_by_stripe_customer, set_org_stripe_customer, update_org_plan, orgs_by_plan,
}
use trqsh.Store.Usage.{usage_for_org}
use trqsh.Store.Billing.{
  upsert_subscription, get_subscription_for_org, delete_subscription, mark_event_processed,
  insert_metered_usage, pending_metered_usage, mark_metered_usage_reported,
}
use trqsh.Billing.Interface.{BillingStore, Remembers}

abbrev pub mem_billing : ℕ → String → BillingStore MemStore
mem_billing now fresh = record {
  get_org = get_org;
  get_org_by_stripe_customer = get_org_by_stripe_customer;
  set_org_stripe_customer = set_org_stripe_customer;
  update_org_plan = update_org_plan;
  orgs_by_plan = orgs_by_plan;
  upsert_subscription = upsert_subscription now fresh;
  get_subscription_for_org = get_subscription_for_org;
  delete_subscription = delete_subscription;
  mark_event_processed = mark_event_processed;
  usage_for_org = usage_for_org now;
  insert_metered_usage = insert_metered_usage now;
  pending_metered_usage = pending_metered_usage;
  mark_metered_usage_reported = mark_metered_usage_reported;
}

-- m.events[id]
abbrev pub seen_event : MemStore → String → Bool
seen_event m id = elim (get m.events id) [ some b ↦ b | none ↦ false ]

mark_event_processed_new :
    (id : String) (m : MemStore) → id ≢ "" → seen_event (mark_event_processed id m).1 id ≡ true
unfolding mark_event_processed
mark_event_processed_new id m h =
    ground (arith, get-put m.events id id true, eq_iff id "", eq_iff id id)

mark_event_processed_seen :
    (id : String) (m : MemStore)
    → id ≢ ""
    → seen_event m id ≡ true
    → mark_event_processed id m ≡ (ok false, m)
unfolding mark_event_processed
mark_event_processed_seen id m h k = ground (arith, eq_iff id "")

-- The methods that billing calls leave the processed events alone.
module _ (id : String) (m : MemStore) (h : seen_event m id ≡ true) where
  get_org-seen : (o : String) → seen_event (get_org o m).1 id ≡ true
  unfolding get_org
  get_org-seen o = h

  get_org_by_stripe_customer-seen :
      (c : String) → seen_event (get_org_by_stripe_customer c m).1 id ≡ true
  unfolding get_org_by_stripe_customer
  get_org_by_stripe_customer-seen c = ground arith

  set_org_stripe_customer-seen :
      (o c : String) → seen_event (set_org_stripe_customer o c m).1 id ≡ true
  unfolding set_org_stripe_customer
  set_org_stripe_customer-seen o c = ground arith

  update_org_plan-seen : (o p : String) → seen_event (update_org_plan o p m).1 id ≡ true
  unfolding update_org_plan
  update_org_plan-seen o p = ground arith

  upsert_subscription-seen :
      (now : ℕ) (fresh : String) (sub : Subscription)
      → seen_event (upsert_subscription now fresh sub m).1 id ≡ true
  unfolding upsert_subscription
  upsert_subscription-seen now fresh sub = h

  get_subscription_for_org-seen :
      (o : String) → seen_event (get_subscription_for_org o m).1 id ≡ true
  unfolding get_subscription_for_org
  get_subscription_for_org-seen o = ground arith

  delete_subscription-seen : (s : String) → seen_event (delete_subscription s m).1 id ≡ true
  unfolding delete_subscription
  delete_subscription-seen s = ground arith

pub mem_billing-Remembers :
    (now : ℕ) (fresh : String) → Remembers (mem_billing now fresh) seen_event
mem_billing-Remembers now fresh = record {
  mark_new = mark_event_processed_new;
  mark_seen = mark_event_processed_seen;
  get_org_keeps = λ id o. record { at = λ m h. get_org-seen id m h o };
  get_org_by_stripe_customer_keeps =
      λ id c. record { at = λ m h. get_org_by_stripe_customer-seen id m h c };
  set_org_stripe_customer_keeps =
      λ id o c. record { at = λ m h. set_org_stripe_customer-seen id m h o c };
  update_org_plan_keeps = λ id o p. record { at = λ m h. update_org_plan-seen id m h o p };
  upsert_subscription_keeps =
      λ id s. record { at = λ m h. upsert_subscription-seen id m h now fresh s };
  get_subscription_for_org_keeps =
      λ id o. record { at = λ m h. get_subscription_for_org-seen id m h o };
  delete_subscription_keeps = λ id s. record { at = λ m h. delete_subscription-seen id m h s };
}
