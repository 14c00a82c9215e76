-- ===== src/Store/History.antt =====
-- Histories of the store: any methods, in any order, from a new store.
pub mod Tables
pub mod Consistency
use trqsh.Prelude.{
  ℕ, String, ◌≡◌, refl, Bool, true, false, Option, none, some, List, arith, eq_iff, ◌==◌, string_eq,
  if◌then◌else◌, Bool-cases, Option-cases, inl, inr, sym,
}
use mathlib.Core.Path.{subst₂}
use trqsh.Prelude.Text.{to_lower}
use trqsh.Prelude.Dict.{get}
use trqsh.Store.Types.{
  User, Org, OrgMember, ApiKey, ReservedSubdomain, CustomDomain, UsageRecord, TunnelSession,
  Subscription, MeteredUsage,
}
use trqsh.Store.State.{MemStore, new_mem_store, or_new_id}
use trqsh.Store.Accounts.{
  create_user, update_user_profile, create_org, set_org_plan, update_org_plan,
  set_org_stripe_customer, add_org_member, create_api_key, touch_api_key, revoke_api_key,
}
use trqsh.Store.Names.{
  reserve_subdomain, release_subdomain, is_subdomain_reserved, add_custom_domain,
  verify_custom_domain,
}
use trqsh.Store.Usage.{upsert_usage}
use trqsh.Store.Tunnels.{Totals, record_tunnel_open, close_tunnel_session}
use trqsh.Store.Billing.{
  upsert_subscription, delete_subscription, mark_event_processed, insert_metered_usage,
  mark_metered_usage_reported,
}
use trqsh.Store.Index.{IsIndexed}
use trqsh.Store.Consistent.{
  IsConsistent, new_mem_store-IsConsistent, create_user-IsConsistent,
  update_user_profile-IsConsistent, create_api_key-IsConsistent, touch_api_key-IsConsistent,
  revoke_api_key-IsConsistent, reserve_subdomain-IsConsistent, release_subdomain-IsConsistent,
  add_custom_domain-IsConsistent, verify_custom_domain-IsConsistent, email_key, prefix_key,
  subdomain_key, domain_key,
}

-- One call of a method that may write. A drawn identifier is new in its table, as identifiers of
-- sixteen random hexadecimal digits are.
pub data Step (m : MemStore) : MemStore → Type 0 where
  creates_user :
      (now : ℕ) (fresh : String) (u : User)
      → get m.users (or_new_id u.id fresh) ≡ none
      → Step m (create_user now fresh u m).1
  updates_profile :
      (id name avatar_url : String) → Step m (update_user_profile id name avatar_url m).1
  creates_org : (now : ℕ) (fresh : String) (o : Org) → Step m (create_org now fresh o m).1
  sets_plan : (org_id plan : String) (at : Option ℕ) → Step m (set_org_plan org_id plan at m).1
  updates_plan : (org_id plan : String) → Step m (update_org_plan org_id plan m).1
  sets_customer : (org_id c : String) → Step m (set_org_stripe_customer org_id c m).1
  adds_member : (e : OrgMember) → Step m (add_org_member e m).1
  creates_key :
      (now : ℕ) (fresh : String) (k : ApiKey)
      → get m.keys (or_new_id k.id fresh) ≡ none
      → Step m (create_api_key now fresh k m).1
  touches_key : (id : String) (at : ℕ) → Step m (touch_api_key id at m).1
  revokes_key : (id org_id : String) (at : ℕ) → Step m (revoke_api_key id org_id at m).1
  reserves :
      (now : ℕ) (fresh : String) (s : ReservedSubdomain)
      → get m.subs (or_new_id s.id fresh) ≡ none
      → Step m (reserve_subdomain now fresh s m).1
  releases : (id org_id : String) → Step m (release_subdomain id org_id m).1
  adds_domain :
      (now : ℕ) (fresh : String) (d : CustomDomain)
      → get m.domains (or_new_id d.id fresh) ≡ none
      → Step m (add_custom_domain now fresh d m).1
  verifies_domain : (id org_id : String) (at : ℕ) → Step m (verify_custom_domain id org_id at m).1
  reports_usage : (u : UsageRecord) → Step m (upsert_usage u m).1
  opens_tunnel :
      (now : ℕ) (fresh : String) (s : TunnelSession) → Step m (record_tunnel_open now fresh s m).1
  closes_tunnel :
      (e s t : String) (at : ℕ) (n : Totals) → Step m (close_tunnel_session e s t at n m).1
  upserts_subscription :
      (now : ℕ) (fresh : String) (s : Subscription) → Step m (upsert_subscription now fresh s m).1
  deletes_subscription : (id : String) → Step m (delete_subscription id m).1
  marks_event : (id : String) → Step m (mark_event_processed id m).1
  inserts_metered : (now : ℕ) (u : MeteredUsage) → Step m (insert_metered_usage now u m).1
  marks_reported : (ids : List ℕ) (at : ℕ) → Step m (mark_metered_usage_reported ids at m).1

pub data Reach (m : MemStore) : MemStore → Type 0 where
  here : Reach m m
  next : {n p : MemStore} → Reach m n → Step n p → Reach m p
