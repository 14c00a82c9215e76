-- ===== src/Store/History/Consistency.antt =====
-- Every history of the store keeps its tables consistent, so that names have one holder.
use trqsh.Prelude.{◌↔◌, String, ◌≡◌, true, some, arith, eq_iff, string_eq, Option-cases, inl, inr}
use trqsh.Prelude.Text.{to_lower}
use trqsh.Prelude.Dict.{get}
use trqsh.Store.Types.{ReservedSubdomain}
use trqsh.Store.State.{MemStore, new_mem_store}
use trqsh.Store.Names.{is_subdomain_reserved}
use trqsh.Store.Consistent.{
  IsConsistent, new_mem_store-IsConsistent, create_user-IsConsistent,
  update_user_profile-IsConsistent, create_api_key-IsConsistent, touch_api_key-IsConsistent,
  revoke_api_key-IsConsistent, reserve_subdomain-IsConsistent, release_subdomain-IsConsistent,
  add_custom_domain-IsConsistent, verify_custom_domain-IsConsistent,
}
use trqsh.Store.History.{
  Step, Reach, creates_user, updates_profile, creates_org, sets_plan, updates_plan, sets_customer,
  adds_member, creates_key, touches_key, revokes_key, reserves, releases, adds_domain,
  verifies_domain, reports_usage, opens_tunnel, closes_tunnel, upserts_subscription,
  deletes_subscription, marks_event, inserts_metered, marks_reported, here, next,
}
use trqsh.Store.History.Tables.{
  SameTables-IsConsistent, set_org_plan-SameTables, update_org_plan-SameTables,
  set_org_stripe_customer-SameTables, create_org-SameTables, add_org_member-SameTables,
  upsert_usage-SameTables, record_tunnel_open-SameTables, close_tunnel_session-SameTables,
  upsert_subscription-SameTables, delete_subscription-SameTables, mark_event_processed-SameTables,
  insert_metered_usage-SameTables, mark_metered_usage_reported-SameTables,
}

Step-IsConsistent : {m n : MemStore} → Step m n → IsConsistent m → IsConsistent n
Step-IsConsistent {m} (creates_user now fresh u h) v = create_user-IsConsistent m v now fresh u h
Step-IsConsistent {m} (updates_profile id n a) v = update_user_profile-IsConsistent m v id n a
Step-IsConsistent {m} (creates_org now fresh o) v =
    SameTables-IsConsistent (create_org-SameTables m now fresh o) v
Step-IsConsistent {m} (sets_plan o p at) v =
    SameTables-IsConsistent (set_org_plan-SameTables m o p at) v
Step-IsConsistent {m} (updates_plan o p) v =
    SameTables-IsConsistent (update_org_plan-SameTables m o p) v
Step-IsConsistent {m} (sets_customer o c) v =
    SameTables-IsConsistent (set_org_stripe_customer-SameTables m o c) v
Step-IsConsistent {m} (adds_member e) v = SameTables-IsConsistent (add_org_member-SameTables m e) v
Step-IsConsistent {m} (creates_key now fresh k h) v = create_api_key-IsConsistent m v now fresh k h
Step-IsConsistent {m} (touches_key id at) v = touch_api_key-IsConsistent m v id at
Step-IsConsistent {m} (revokes_key id o at) v = revoke_api_key-IsConsistent m v id o at
Step-IsConsistent {m} (reserves now fresh s h) v = reserve_subdomain-IsConsistent m v now fresh s h
Step-IsConsistent {m} (releases id o) v = release_subdomain-IsConsistent m v id o
Step-IsConsistent {m} (adds_domain now fresh d h) v =
    add_custom_domain-IsConsistent m v now fresh d h
Step-IsConsistent {m} (verifies_domain id o at) v = verify_custom_domain-IsConsistent m v id o at
Step-IsConsistent {m} (reports_usage u) v = SameTables-IsConsistent (upsert_usage-SameTables m u) v
Step-IsConsistent {m} (opens_tunnel now fresh s) v =
    SameTables-IsConsistent (record_tunnel_open-SameTables m now fresh s) v
Step-IsConsistent {m} (closes_tunnel e s t at n) v =
    SameTables-IsConsistent (close_tunnel_session-SameTables m e s t at n) v
Step-IsConsistent {m} (upserts_subscription now fresh s) v =
    SameTables-IsConsistent (upsert_subscription-SameTables m now fresh s) v
Step-IsConsistent {m} (deletes_subscription id) v =
    SameTables-IsConsistent (delete_subscription-SameTables m id) v
Step-IsConsistent {m} (marks_event id) v =
    SameTables-IsConsistent (mark_event_processed-SameTables m id) v
Step-IsConsistent {m} (inserts_metered now u) v =
    SameTables-IsConsistent (insert_metered_usage-SameTables m now u) v
Step-IsConsistent {m} (marks_reported ids at) v =
    SameTables-IsConsistent (mark_metered_usage_reported-SameTables m ids at) v

Reach-IsConsistent : {m n : MemStore} → IsConsistent m → Reach m n → IsConsistent n
Reach-IsConsistent v here = v
Reach-IsConsistent v (next r s) = Step-IsConsistent s (Reach-IsConsistent v r)

-- Whatever the store has been through from its start, its indexes of e-mail addresses, key prefixes,
-- subdomains and custom domains are the exact inverses of its tables.
pub history-IsConsistent : {m : MemStore} → Reach new_mem_store m → IsConsistent m
history-IsConsistent r = Reach-IsConsistent new_mem_store-IsConsistent r

-- A reservation of `n` by `org_id`, which is the only one of that name.
abbrev pub HoldsAlone : MemStore → String → String → Type 0
HoldsAlone m org_id n =
    (id : String) × (s : ReservedSubdomain) × (get m.subs id ≡ some s)
    × (s.subdomain ≡ n)
    × (s.org_id ≡ org_id)
    × ((id' : String) (s' : ReservedSubdomain)
        → get m.subs id' ≡ some s'
        → s'.subdomain ≡ n
        → id' ≡ id)

module _ (m : MemStore) (org_id name : String) where
  HoldsAlone-of_reserved :
      IsConsistent m
      → is_subdomain_reserved org_id name m ≡ true
      → HoldsAlone m org_id (to_lower name)
  unfolding is_subdomain_reserved
  HoldsAlone-of_reserved v h = elim (Option-cases (get m.sub_by_name (to_lower name))) [
    | inl free ↦ ground arith
    | inr (id, e) ↦ elim (Option-cases (get m.subs id)) [
      | inl lost ↦ ground (arith, v.subs.table_of_names (to_lower name) id)
      | inr (s, f) ↦ (
        id,
        s,
        f,
        ground (arith, v.subs.table_of_names (to_lower name) id),
        ground (arith, eq_iff s.org_id org_id),
        λ id' s' g n. ground (arith, v.subs.names_of_table id' s'),
      )
    ]
  ]

  reserved_of_HoldsAlone :
      IsConsistent m
      → HoldsAlone m org_id (to_lower name)
      → is_subdomain_reserved org_id name m ≡ true
  unfolding is_subdomain_reserved
  reserved_of_HoldsAlone v (id, s, e, n, o, alone) =
      ground (arith, v.subs.names_of_table id s, eq_iff s.org_id org_id)

-- In any store that has come about so, `IsSubdomainReserved` tells exactly whether the organisation
-- holds a reservation of the lower-case name that is the only one of that name.
pub is_subdomain_reserved_iff :
    {m : MemStore} (org_id name : String)
    → Reach new_mem_store m
    → (is_subdomain_reserved org_id name m ≡ true) ↔ HoldsAlone m org_id (to_lower name)
is_subdomain_reserved_iff {m} org_id name r =
    let v = history-IsConsistent r in
    (HoldsAlone-of_reserved m org_id name v, reserved_of_HoldsAlone m org_id name v)
