-- ===== src/Billing/Interface.antt =====
-- What internal/billing uses of `store.Store` (internal/api/store/store.go), over any state.
use trqsh.Prelude.{ℕ, String, ◌≡◌, ◌≢◌, Bool, true, false, List}
use trqsh.Prelude.Result.{Exec, ok}
use trqsh.Store.Types.{Org, Subscription, UsageRecord, MeteredUsage}

pub record BillingStore (S : Type 0) : Type 0 where
  pub get_org : String → Exec S Org
  pub get_org_by_stripe_customer : String → Exec S Org
  pub set_org_stripe_customer : String → String → Exec S Unit
  pub update_org_plan : String → String → Exec S Unit
  pub orgs_by_plan : String → Exec S (List Org)
  pub upsert_subscription : Subscription → Exec S Subscription
  pub get_subscription_for_org : String → Exec S Subscription
  pub delete_subscription : String → Exec S Unit
  pub mark_event_processed : String → Exec S Bool
  pub usage_for_org : String → ℕ → Exec S UsageRecord
  pub insert_metered_usage : MeteredUsage → Exec S MeteredUsage
  pub pending_metered_usage : ℕ → Exec S (List MeteredUsage)
  pub mark_metered_usage_reported : List ℕ → ℕ → Exec S Unit

-- `P` holds after `m` where it held before, whether `m` succeeds or fails.
pub record Keeps {S A : Type 0} (P : S → Type 0) (m : Exec S A) : Type 0 where
  pub at : (s : S) → P s → P (m s).1

-- The deduplication contract: `seen s id` tells whether the event has been taken, and nothing that
-- a handler calls forgets it.
pub record Remembers {S : Type 0} (st : BillingStore S) (seen : S → String → Bool) : Type 0 where
  pub mark_new : (id : String) (s : S) → id ≢ "" → seen (st.mark_event_processed id s).1 id ≡ true
  pub mark_seen :
      (id : String) (s : S)
      → id ≢ ""
      → seen s id ≡ true
      → st.mark_event_processed id s ≡ (ok false, s)
  pub get_org_keeps : (id o : String) → Keeps (λ s. seen s id ≡ true) (st.get_org o)
  pub get_org_by_stripe_customer_keeps :
      (id c : String) → Keeps (λ s. seen s id ≡ true) (st.get_org_by_stripe_customer c)
  pub set_org_stripe_customer_keeps :
      (id o c : String) → Keeps (λ s. seen s id ≡ true) (st.set_org_stripe_customer o c)
  pub update_org_plan_keeps :
      (id o p : String) → Keeps (λ s. seen s id ≡ true) (st.update_org_plan o p)
  pub upsert_subscription_keeps :
      (id : String) (sub : Subscription)
      → Keeps (λ s. seen s id ≡ true) (st.upsert_subscription sub)
  pub get_subscription_for_org_keeps :
      (id o : String) → Keeps (λ s. seen s id ≡ true) (st.get_subscription_for_org o)
  pub delete_subscription_keeps :
      (id sub : String) → Keeps (λ s. seen s id ≡ true) (st.delete_subscription sub)
