-- ===== src/Store/Consistent.antt =====
-- The four tables of the store that have an index of names stay consistent with it.
use trqsh.Prelude.{
  ℕ, String, ◌≡◌, refl, inl, inr, none, some, Bool-cases, Option-cases, ◌==◌, string_eq,
}
use trqsh.Prelude.Text.{to_lower}
use trqsh.Prelude.Dict.{get, put}
use trqsh.Store.Types.{User, ApiKey, ReservedSubdomain, CustomDomain}
use trqsh.Store.State.{MemStore, new_mem_store, or_new_id}
use trqsh.Store.Index.{
  IsIndexed, empty-IsIndexed, put-IsIndexed, update-IsIndexed, delete-IsIndexed,
}
use trqsh.Store.Accounts.{
  create_user, update_user_profile, create_api_key, touch_api_key, revoke_api_key,
}
use trqsh.Store.Names.{
  reserve_subdomain, release_subdomain, add_custom_domain, verify_custom_domain,
}

abbrev pub email_key : User → String
email_key u = to_lower u.email

abbrev pub prefix_key : ApiKey → String
prefix_key k = k.prefix

abbrev pub subdomain_key : ReservedSubdomain → String
subdomain_key s = s.subdomain

abbrev pub domain_key : CustomDomain → String
domain_key d = d.domain

pub record IsConsistent (m : MemStore) : Type 0 where
  pub users : IsIndexed email_key m.users m.users_email
  pub keys : IsIndexed prefix_key m.keys m.key_prefix
  pub subs : IsIndexed subdomain_key m.subs m.sub_by_name
  pub domains : IsIndexed domain_key m.domains m.dom_by_name

pub new_mem_store-IsConsistent : IsConsistent new_mem_store
unfolding new_mem_store
new_mem_store-IsConsistent = record {
  users = empty-IsIndexed email_key;
  keys = empty-IsIndexed prefix_key;
  subs = empty-IsIndexed subdomain_key;
  domains = empty-IsIndexed domain_key;
}

module _ (m : MemStore) (v : IsConsistent m) where
  pub create_user-IsConsistent :
      (now : ℕ) (fresh : String) (u : User)
      → get m.users (or_new_id u.id fresh) ≡ none
      → IsConsistent (create_user now fresh u m).1
  unfolding create_user
  create_user-IsConsistent now fresh u unused =
      elim (Option-cases (get m.users_email (to_lower u.email))) [
        | inr (x, e) ↦ rw (e, create_user) v
        | inl e ↦
            rw (e, create_user)
              (record {
                users = put-IsIndexed email_key m.users m.users_email _ _ _ refl unused e v.users;
                keys = v.keys;
                subs = v.subs;
                domains = v.domains;
              })
      ]

  pub update_user_profile-IsConsistent :
      (id name avatar_url : String) → IsConsistent (update_user_profile id name avatar_url m).1
  unfolding update_user_profile
  update_user_profile-IsConsistent id name avatar_url = elim (Option-cases (get m.users id)) [
    | inl e ↦ rw (e, update_user_profile) v
    | inr (u, e) ↦
        rw (e, update_user_profile)
          (record {
            users = update-IsIndexed email_key m.users m.users_email id u _ e refl v.users;
            keys = v.keys;
            subs = v.subs;
            domains = v.domains;
          })
  ]

  pub create_api_key-IsConsistent :
      (now : ℕ) (fresh : String) (k : ApiKey)
      → get m.keys (or_new_id k.id fresh) ≡ none
      → IsConsistent (create_api_key now fresh k m).1
  unfolding create_api_key
  create_api_key-IsConsistent now fresh k unused = elim (Option-cases (get m.key_prefix k.prefix)) [
    | inr (x, e) ↦ rw (e, create_api_key) v
    | inl e ↦
        rw (e, create_api_key)
          (record {
            users = v.users;
            keys = put-IsIndexed prefix_key m.keys m.key_prefix _ _ _ refl unused e v.keys;
            subs = v.subs;
            domains = v.domains;
          })
  ]

  -- A key is written again with the prefix that it had.
  rewritten_key :
      (id : String) (old k : ApiKey)
      → get m.keys id ≡ some old
      → k.prefix ≡ old.prefix
      → IsConsistent (record m { keys = put m.keys id k })
  rewritten_key id old k e p = record {
    users = v.users;
    keys = update-IsIndexed prefix_key m.keys m.key_prefix id old k e p v.keys;
    subs = v.subs;
    domains = v.domains;
  }

  pub touch_api_key-IsConsistent : (id : String) (at : ℕ) → IsConsistent (touch_api_key id at m).1
  unfolding touch_api_key
  touch_api_key-IsConsistent id at = elim (Option-cases (get m.keys id)) [
    | inl e ↦ rw (e, touch_api_key) v
    | inr (k, e) ↦ rw (e, touch_api_key) (rewritten_key id k _ e refl)
  ]

  pub revoke_api_key-IsConsistent :
      (id org_id : String) (at : ℕ) → IsConsistent (revoke_api_key id org_id at m).1
  unfolding revoke_api_key
  revoke_api_key-IsConsistent id org_id at = elim (Option-cases (get m.keys id)) [
    | inl e ↦ rw (e, revoke_api_key) v
    | inr (k, e) ↦ elim (Bool-cases (k.org_id == org_id)) [
      | inl own ↦ rw (e, revoke_api_key) (rw own (rewritten_key id k _ e refl))
      | inr other ↦ rw (e, revoke_api_key) (rw other v)
    ]
  ]

  pub reserve_subdomain-IsConsistent :
      (now : ℕ) (fresh : String) (s : ReservedSubdomain)
      → get m.subs (or_new_id s.id fresh) ≡ none
      → IsConsistent (reserve_subdomain now fresh s m).1
  unfolding reserve_subdomain
  reserve_subdomain-IsConsistent now fresh s unused =
      elim (Option-cases (get m.sub_by_name (to_lower s.subdomain))) [
        | inr (x, e) ↦ rw (e, reserve_subdomain) v
        | inl e ↦
            rw (e, reserve_subdomain)
              (record {
                users = v.users;
                keys = v.keys;
                subs = put-IsIndexed subdomain_key m.subs m.sub_by_name _ _ _ refl unused e v.subs;
                domains = v.domains;
              })
      ]

  pub release_subdomain-IsConsistent :
      (id org_id : String) → IsConsistent (release_subdomain id org_id m).1
  unfolding release_subdomain
  release_subdomain-IsConsistent id org_id = elim (Option-cases (get m.subs id)) [
    | inl e ↦ rw (e, release_subdomain) v
    | inr (s, e) ↦ elim (Bool-cases (s.org_id == org_id)) [
      | inr other ↦ rw (e, release_subdomain) (rw other v)
      | inl own ↦
          rw (e, release_subdomain)
            (rw own (record {
              users = v.users;
              keys = v.keys;
              subs = delete-IsIndexed subdomain_key m.subs m.sub_by_name id s e v.subs;
              domains = v.domains;
            }))
    ]
  ]

  pub add_custom_domain-IsConsistent :
      (now : ℕ) (fresh : String) (d : CustomDomain)
      → get m.domains (or_new_id d.id fresh) ≡ none
      → IsConsistent (add_custom_domain now fresh d m).1
  unfolding add_custom_domain
  add_custom_domain-IsConsistent now fresh d unused =
      elim (Option-cases (get m.dom_by_name (to_lower d.domain))) [
        | inr (x, e) ↦ rw (e, add_custom_domain) v
        | inl e ↦
            rw (e, add_custom_domain)
              (record {
                users = v.users;
                keys = v.keys;
                subs = v.subs;
                domains =
                    put-IsIndexed domain_key m.domains m.dom_by_name _ _ _ refl unused e v.domains;
              })
      ]

  pub verify_custom_domain-IsConsistent :
      (id org_id : String) (at : ℕ) → IsConsistent (verify_custom_domain id org_id at m).1
  unfolding verify_custom_domain
  verify_custom_domain-IsConsistent id org_id at = elim (Option-cases (get m.domains id)) [
    | inl e ↦ rw (e, verify_custom_domain) v
    | inr (d, e) ↦ elim (Bool-cases (d.org_id == org_id)) [
      | inr other ↦ rw (e, verify_custom_domain) (rw other v)
      | inl own ↦
          rw (e, verify_custom_domain)
            (rw own (record {
              users = v.users;
              keys = v.keys;
              subs = v.subs;
              domains = update-IsIndexed domain_key m.domains m.dom_by_name id d _ e refl v.domains;
            }))
    ]
  ]
