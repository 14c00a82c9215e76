-- ===== src/Store/History/Tables.antt =====
-- The methods that leave the indexed tables of internal/api/store/mem.go alone.
use trqsh.Prelude.{ℕ, String, ◌≡◌, Option, List, arith, string_eq, sym}
use mathlib.Core.Path.{subst₂}
use trqsh.Store.Types.{Org, OrgMember, UsageRecord, TunnelSession, Subscription, MeteredUsage}
use trqsh.Store.State.{MemStore}
use trqsh.Store.Accounts.{
  create_org, set_org_plan, update_org_plan, set_org_stripe_customer, add_org_member,
}
use trqsh.Store.Usage.{upsert_usage}
use trqsh.Store.Tunnels.{Totals, record_tunnel_open, close_tunnel_session}
use trqsh.Store.Billing.{
  upsert_subscription, delete_subscription, mark_event_processed, insert_metered_usage,
  mark_metered_usage_reported,
}
use trqsh.Store.Index.{IsIndexed}
use trqsh.Store.Consistent.{IsConsistent, email_key, prefix_key, subdomain_key, domain_key}

-- A store with the same eight maps is consistent too.
pub record SameTables (m n : MemStore) : Type 0 where
  pub users : n.users ≡ m.users
  pub users_email : n.users_email ≡ m.users_email
  pub keys : n.keys ≡ m.keys
  pub key_prefix : n.key_prefix ≡ m.key_prefix
  pub subs : n.subs ≡ m.subs
  pub sub_by_name : n.sub_by_name ≡ m.sub_by_name
  pub domains : n.domains ≡ m.domains
  pub dom_by_name : n.dom_by_name ≡ m.dom_by_name

pub SameTables-IsConsistent : {m n : MemStore} → SameTables m n → IsConsistent m → IsConsistent n
SameTables-IsConsistent s v = record {
  users = subst₂ (IsIndexed email_key) (sym s.users) (sym s.users_email) v.users;
  keys = subst₂ (IsIndexed prefix_key) (sym s.keys) (sym s.key_prefix) v.keys;
  subs = subst₂ (IsIndexed subdomain_key) (sym s.subs) (sym s.sub_by_name) v.subs;
  domains = subst₂ (IsIndexed domain_key) (sym s.domains) (sym s.dom_by_name) v.domains;
}

module _ (m : MemStore) where
  pub set_org_plan-SameTables :
      (org_id plan : String) (at : Option ℕ) → SameTables m (set_org_plan org_id plan at m).1
  unfolding set_org_plan
  set_org_plan-SameTables org_id plan at = ground arith

  pub update_org_plan-SameTables :
      (org_id plan : String) → SameTables m (update_org_plan org_id plan m).1
  unfolding update_org_plan
  update_org_plan-SameTables org_id plan = ground arith

  pub set_org_stripe_customer-SameTables :
      (org_id c : String) → SameTables m (set_org_stripe_customer org_id c m).1
  unfolding set_org_stripe_customer
  set_org_stripe_customer-SameTables org_id c = ground arith

  pub create_org-SameTables :
      (now : ℕ) (fresh : String) (o : Org) → SameTables m (create_org now fresh o m).1
  unfolding create_org
  create_org-SameTables now fresh o = ground arith

  pub add_org_member-SameTables : (e : OrgMember) → SameTables m (add_org_member e m).1
  unfolding add_org_member
  add_org_member-SameTables e = ground arith

  pub upsert_usage-SameTables : (u : UsageRecord) → SameTables m (upsert_usage u m).1
  unfolding upsert_usage
  upsert_usage-SameTables u = ground arith

  pub record_tunnel_open-SameTables :
      (now : ℕ) (fresh : String) (s : TunnelSession)
      → SameTables m (record_tunnel_open now fresh s m).1
  unfolding record_tunnel_open
  record_tunnel_open-SameTables now fresh s = ground arith

  pub close_tunnel_session-SameTables :
      (e s t : String) (at : ℕ) (n : Totals) → SameTables m (close_tunnel_session e s t at n m).1
  unfolding close_tunnel_session
  close_tunnel_session-SameTables e s t at n = ground arith

  pub upsert_subscription-SameTables :
      (now : ℕ) (fresh : String) (s : Subscription)
      → SameTables m (upsert_subscription now fresh s m).1
  unfolding upsert_subscription
  upsert_subscription-SameTables now fresh s = ground arith

  pub delete_subscription-SameTables : (id : String) → SameTables m (delete_subscription id m).1
  unfolding delete_subscription
  delete_subscription-SameTables id = ground arith

  pub mark_event_processed-SameTables : (id : String) → SameTables m (mark_event_processed id m).1
  unfolding mark_event_processed
  mark_event_processed-SameTables id = ground arith

  pub insert_metered_usage-SameTables :
      (now : ℕ) (u : MeteredUsage) → SameTables m (insert_metered_usage now u m).1
  unfolding insert_metered_usage
  insert_metered_usage-SameTables now u = ground arith

  pub mark_metered_usage_reported-SameTables :
      (ids : List ℕ) (at : ℕ) → SameTables m (mark_metered_usage_reported ids at m).1
  unfolding mark_metered_usage_reported
  mark_metered_usage_reported-SameTables ids at = ground arith
