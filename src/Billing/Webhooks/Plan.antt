-- ===== src/Billing/Webhooks/Plan.antt =====
-- What a subscription event does to the plans of organisations, on the in-memory store.
use trqsh.Prelude.{
  ℕ, String, ◌≡◌, not, ◌&&◌, Option, none, some, arith, eq_iff, if◌then◌else◌, ◌==◌, string_eq,
  Bool-cases, Option-cases, inl, inr, ap, ◌∙◌,
}
use trqsh.Prelude.Dict.{get, get-put}
use trqsh.Prelude.Result.{Exec, Result, ok, err, ◌>>=◌, continue}
use trqsh.Store.Types.{Org}
use trqsh.Store.State.{MemStore}
use trqsh.Store.Accounts.{get_org, set_org_stripe_customer, update_org_plan}
use trqsh.Store.Billing.{upsert_subscription}
use trqsh.Billing.Memory.{mem_billing}
use trqsh.Billing.Config.{Config, SubscriptionObject}
use trqsh.Billing.Webhooks.{
  derive_plan, plan_for_subscription, sync_customer, apply_subscription, subscription_row,
  attempted, when,
}

-- An organisation's plan and its expiry.
abbrev pub plan_of : Option Org → Option (String × Option ℕ)
plan_of none = none
plan_of (some o) = some (o.plan, o.plan_expires_at)

module _ (org_id : String) (m : MemStore) (j : String) where
  plan_of-set_org_stripe_customer :
      (c : String)
      → plan_of (get (set_org_stripe_customer org_id c m).1.orgs j) ≡ plan_of (get m.orgs j)
  unfolding set_org_stripe_customer
  plan_of-set_org_stripe_customer c = elim (Option-cases (get m.orgs org_id)) [
    | inl e ↦ ground arith
    | inr (o, e) ↦
        ground
          (arith, get-put m.orgs org_id j (record o { stripe_customer_id = c }), eq_iff org_id j)
  ]

  plan_of-sync_customer :
      (now : ℕ) (fresh c : String)
      → plan_of (get (sync_customer (mem_billing now fresh) org_id c m).1.orgs j)
        ≡ plan_of (get m.orgs j)
  unfolding sync_customer attempted get_org
  plan_of-sync_customer now fresh c = ground (arith, plan_of-set_org_stripe_customer c)

  plan_of-update_org_plan :
      (p : String)
      → (update_org_plan org_id p m).0 ≡ ok tt
      → plan_of (get (update_org_plan org_id p m).1.orgs j)
        ≡ (if org_id == j then some (p, none) else plan_of (get m.orgs j))
  unfolding update_org_plan
  plan_of-update_org_plan p h = elim (Option-cases (get m.orgs org_id)) [
    | inl e ↦ ground arith
    | inr (o, e) ↦ ground (
      arith,
      get-put m.orgs org_id j (record o { plan = p; plan_expires_at = none }),
      eq_iff org_id j,
    )
  ]

module _ (now : ℕ) (fresh : String) (cfg : Config) (unix : ℕ → ℕ) where
  -- The plan of `j` once `target` has been written to `org_id`, where there is something to write.
  abbrev plan_after :
      String → String → String → Option (String × Option ℕ) → Option (String × Option ℕ)
  plan_after target org_id j before =
      if not (target == "") && org_id == j then some (target, none) else before

  after_sync :
      (sub : SubscriptionObject) (org_id j : String) (p : Result Unit × MemStore)
      → let target = derive_plan sub.status (plan_for_subscription cfg sub) in
        let rest : Exec MemStore Unit =
          (upsert_subscription now fresh
              (subscription_row (mem_billing now fresh) cfg unix org_id sub)
            >>= λ _. when (not (target == "")) (update_org_plan org_id target)) in
        let (r, m') = continue p (λ _. rest) in
        r ≡ ok tt → plan_of (get m'.orgs j) ≡ plan_after target org_id j (plan_of (get p.1.orgs j))
  unfolding upsert_subscription
  after_sync sub org_id j (err e, m) h = cc
  after_sync sub org_id j (ok u, m) h =
      let target = derive_plan sub.status (plan_for_subscription cfg sub) in
      let m' =
        (upsert_subscription now fresh
          (subscription_row (mem_billing now fresh) cfg unix org_id sub) m).1 in
      elim (Bool-cases (target == "")) [
        | inl e ↦ ground arith
        | inr e ↦ ground (arith, plan_of-update_org_plan org_id m' j target)
      ]

  -- A subscription that is applied without an error moves the plan of its own organisation, when
  -- the status and the price say so, and leaves every other organisation's plan as it was.
  pub apply_subscription-plan :
      (sub : SubscriptionObject) (org_id j : String) (m : MemStore)
      → (apply_subscription (mem_billing now fresh) cfg unix sub org_id m).0 ≡ ok tt
      → let m' = (apply_subscription (mem_billing now fresh) cfg unix sub org_id m).1 in
        let target = derive_plan sub.status (plan_for_subscription cfg sub) in
        plan_of (get m'.orgs j) ≡ (
          if not (target == "") && org_id == j then some (target, none) else plan_of (get m.orgs j))
  unfolding apply_subscription
  apply_subscription-plan sub org_id j m h =
      let synced = sync_customer (mem_billing now fresh) org_id sub.customer m in
      let target = derive_plan sub.status (plan_for_subscription cfg sub) in
      after_sync sub org_id j synced h
      ∙ ap (plan_after target org_id j) (plan_of-sync_customer org_id m j now fresh sub.customer)
