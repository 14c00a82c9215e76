-- ===== src/Billing/Webhooks.antt =====
-- internal/billing/webhooks.go, over any store. Logging and the HTTP plumbing are left out.
pub mod Keeps
pub mod Redelivery
pub mod Plan
pub mod Tests
use trqsh.Prelude.{
  ℕ, String, Bool, true, false, not, ◌&&◌, ◌||◌, Option, none, some, if◌then◌else◌, ◌==◌, string_eq,
}
use trqsh.Prelude.Result.{
  StoreError, not_found, conflict, failure, Result, ok, err, Exec, ◌>>=◌, pure, raise,
}
use trqsh.Store.Types.{Org, Subscription}
use trqsh.Billing.Plans.{plan_free, catalog, plan_for_price_id}
use trqsh.Billing.Interface.{BillingStore}
use trqsh.Billing.Config.{
  Config, Event, SubscriptionObject, CheckoutSessionObject, InvoiceObject, price_id, period_end,
  value_at,
}

-- the plan to write to orgs.plan; "" leaves it as it is
unfoldable pub derive_plan : String → String → String
derive_plan status plan =
    if status == "active" || status == "trialing"
    then plan
    else if status == "canceled" || status == "incomplete_expired" || status == "unpaid"
    then plan_free
    else ""

unfoldable pub plan_for_subscription : Config → SubscriptionObject → String
plan_for_subscription cfg sub = elim (plan_for_price_id cfg.prices (price_id sub)) [
  | some code ↦ code
  | none ↦
      let code = value_at sub.metadata "plan" in
      if code == "" then "" else elim (catalog code) [ some _ ↦ code | none ↦ "" ]
]

-- What the endpoint answers, with its HTTP status.
pub data Response : Type 0 where
  bad_request : Response  -- 400
  unavailable : Response  -- 503
  server_error : Response  -- 500
  duplicate_ignored : Response  -- 200
  processed : Response  -- 200

-- The body is `none` where it cannot be read.
pub record Delivery : Type 0 where
  pub body : Option String
  pub signature : String

infixl 5 ◌>>◌
abbrev pub ◌>>◌ : {S A : Type 0} → Exec S Unit → Exec S A → Exec S A
m >> k = m >>= λ _. k

-- `e.Decode(&obj)`
abbrev pub decoded : {S A : Type 0} → Option A → Exec S A
decoded none = raise failure
decoded (some a) = pure a

-- `if b { err = m }`
abbrev pub when : {S : Type 0} → Bool → Exec S Unit → Exec S Unit
when true m = m
when false m = pure tt

finish : {S A : Type 0} → Result A × S → (A → Exec S Unit) → Result (Unit {0}) × S
finish (ok a, s) f = f a s
finish (err not_found, s) f = (ok tt, s)
finish (err conflict, s) f = (err conflict, s)
finish (err failure, s) f = (err failure, s)

-- A missing row ends the handler with success: `errors.Is(err, ErrNotFound) { return nil }`.
abbrev pub or_done : {S A : Type 0} → Exec S A → (A → Exec S Unit) → Exec S Unit
unfolding finish
or_done m f s = finish (m s) f

attempted : {S A : Type 0} → Result A × S → (A → Exec S Unit) → Result (Unit {0}) × S
attempted (ok a, s) f = f a s
attempted (err _, s) f = (ok tt, s)

-- Goes on with the answer where there is one; an error is ignored.
abbrev pub attempt : {S A : Type 0} → Exec S A → (A → Exec S Unit) → Exec S Unit
unfolding attempted
attempt m f s = attempted (m s) f

unless : {S : Type 0} → Result (Unit {0}) × S → Result (Unit {0}) × S
unless (err not_found, s) = (ok tt, s)
unless (ok u, s) = (ok u, s)
unless (err conflict, s) = (err conflict, s)
unless (err failure, s) = (err failure, s)

-- `err != nil && !errors.Is(err, ErrNotFound)`
abbrev pub unless_missing : {S : Type 0} → Exec S Unit → Exec S Unit
unfolding unless
unless_missing m s = unless (m s)

answer : {S : Type 0} → Result (Unit {0}) × S → Response × S
answer (ok _, s) = (processed, s)
answer (err _, s) = (server_error, s)

module _ {S : Type 0} (st : BillingStore S) where
  unfoldable pub resolve_org_id : String → String → Exec S String
  resolve_org_id id customer_id =
      if id == ""
      then (do org ← st.get_org_by_stripe_customer customer_id; pure org.id)
      else pure id

  checkout_completed : CheckoutSessionObject → Exec S Unit
  checkout_completed obj =
      let org_id =
        if obj.client_reference_id == ""
        then value_at obj.metadata "org_id"
        else obj.client_reference_id in
      when (not (org_id == "") && not (obj.customer == ""))
        (st.set_org_stripe_customer org_id obj.customer)

  unfoldable pub on_checkout_completed : Event → Exec S Unit
  unfolding checkout_completed
  on_checkout_completed e = do obj ← decoded e.as_checkout; checkout_completed obj

  -- Keeps the organisation linked to its customer; an error of GetOrg is ignored.
  sync_customer : String → String → Exec S Unit
  sync_customer org_id customer = when (not (customer == "")) (
      attempt (st.get_org org_id) λ org.
        when (not (org.stripe_customer_id == customer))
          (st.set_org_stripe_customer org_id customer))

  module _ (cfg : Config) (unix : ℕ → ℕ) where
    abbrev pub subscription_row : String → SubscriptionObject → Subscription
    subscription_row org_id sub = record {
      id = "";
      org_id = org_id;
      stripe_sub_id = sub.id;
      stripe_customer_id = sub.customer;
      plan = plan_for_subscription cfg sub;
      status = sub.status;
      current_period_end = period_end unix sub;
      cancel_at_period_end = sub.cancel_at_period_end;
      created_at = 0;
      updated_at = 0;
    }

    unfoldable pub apply_subscription : SubscriptionObject → String → Exec S Unit
    unfolding sync_customer
    apply_subscription sub org_id = do
      sync_customer org_id sub.customer
      _ ← st.upsert_subscription (subscription_row org_id sub)
      let target = derive_plan sub.status (plan_for_subscription cfg sub)
      when (not (target == "")) (st.update_org_plan org_id target)

    unfoldable pub on_subscription_upsert : Event → Exec S Unit
    unfolding apply_subscription resolve_org_id
    on_subscription_upsert e = do
      sub ← decoded e.as_subscription
      org_id ← resolve_org_id (value_at sub.metadata "org_id") sub.customer
      apply_subscription sub org_id

  unfoldable pub on_subscription_deleted : Event → Exec S Unit
  unfolding resolve_org_id
  on_subscription_deleted e = do
    sub ← decoded e.as_subscription
    org_id ← resolve_org_id (value_at sub.metadata "org_id") sub.customer
    st.update_org_plan org_id plan_free
    unless_missing (st.delete_subscription sub.id)

  -- the tail of onInvoicePaid, with the organisation's subscription at hand
  renew : String → Subscription → Exec S Unit
  renew org_id sub =
      let past = sub.status == "past_due" || sub.status == "unpaid" in
      let sub' = if past then record sub { status = "active" } else sub in
      do
        when past (st.upsert_subscription sub' >>= λ _. pure tt)
        when (not (sub'.plan == "")) (st.update_org_plan org_id sub'.plan)

  -- The organisation of a customer and its subscription; a missing one ends the handler.
  with_subscription : String → (String → Subscription → Exec S Unit) → Exec S Unit
  with_subscription customer f = when (not (customer == "")) (
      or_done (st.get_org_by_stripe_customer customer)
        λ org. or_done (st.get_subscription_for_org org.id) (f org.id))

  unfoldable pub on_invoice_paid : Event → Exec S Unit
  unfolding renew with_subscription
  on_invoice_paid e = do inv ← decoded e.as_invoice; with_subscription inv.customer renew

  mark_past_due : String → Subscription → Exec S Unit
  mark_past_due org_id sub =
      st.upsert_subscription (record sub { status = "past_due" }) >>= λ _. pure tt

  unfoldable pub on_invoice_payment_failed : Event → Exec S Unit
  unfolding mark_past_due with_subscription
  on_invoice_payment_failed e = do
    inv ← decoded e.as_invoice
    with_subscription inv.customer mark_past_due

  module _ (cfg : Config) (unix : ℕ → ℕ) where
    unfoldable pub dispatch : Event → Exec S Unit
    dispatch e =
        if e.type == "checkout.session.completed"
        then on_checkout_completed e
        else if e.type == "customer.subscription.created"
            || e.type == "customer.subscription.updated"
        then on_subscription_upsert cfg unix e
        else if e.type == "customer.subscription.deleted"
        then on_subscription_deleted e
        else if e.type == "invoice.paid" || e.type == "invoice.payment_succeeded"
        then on_invoice_paid e
        else if e.type == "invoice.payment_failed"
        then on_invoice_payment_failed e
        else pure tt

    -- The event is marked before its handler runs, and stays marked when the handler fails.
    once : Event → Result Bool × S → Response × S
    unfolding answer
    once e (err _, s) = (server_error, s)
    once e (ok false, s) = (duplicate_ignored, s)
    once e (ok true, s) = answer (dispatch e s)

    unfoldable pub process : Event → S → Response × S
    unfolding once
    process e s = once e (st.mark_event_processed e.id s)

    -- `verify` is the check of the signature under the secret, and `parse` reads the JSON body.
    module _ (verify : String → String → String → Bool) (parse : String → Option Event) where
      unfoldable pub handle_webhook : Delivery → S → Response × S
      unfolding process
      handle_webhook d s = elim d.body [
        | none ↦ (bad_request, s)
        | some body ↦
            if cfg.webhook_secret == ""
            then (unavailable, s)
            else if verify body d.signature cfg.webhook_secret
            then (elim (parse body) [ none ↦ (bad_request, s) | some e ↦ process e s ])
            else (bad_request, s)
      ]
