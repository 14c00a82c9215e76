-- ===== src/Store/Accounts.antt =====
-- Users, organisations, members and API keys (internal/api/store/mem.go). A call that reads the clock
-- or draws an identifier takes `now` and `fresh`.
use trqsh.Prelude.{
  ℕ, String, ◌&&◌, Option, none, some, List, [], ◌∷◌, ◌++◌, if◌then◌else◌, ◌==◌, string_eq, any,
  keep, find,
}
use trqsh.Prelude.Text.{to_lower}
use trqsh.Prelude.Result.{Exec, Result, ok, err, not_found, conflict}
use trqsh.Prelude.Dict.{Dict, get, put, values}
use trqsh.Store.Types.{User, Org, OrgMember, ApiKey}
use trqsh.Store.State.{MemStore, or_new_id, or_now}

unfoldable pub create_user : ℕ → String → User → Exec MemStore User
create_user now fresh u m = elim (get m.users_email (to_lower u.email)) [
  | some _ ↦ (err conflict, m)
  | none ↦
      let u' = record u { id = or_new_id u.id fresh; created_at = or_now u.created_at now } in
      (
        ok u',
        record m {
          users = put m.users u'.id u';
          users_email = put m.users_email (to_lower u.email) u'.id;
        },
      )
]

unfoldable pub update_user_profile : String → String → String → Exec MemStore Unit
update_user_profile id name avatar_url m = elim (get m.users id) [
  | none ↦ (err not_found, m)
  | some u ↦
      let u' = record u {
        name = if name == "" then u.name else name;
        avatar_url = if avatar_url == "" then u.avatar_url else avatar_url;
      } in
      (ok tt, record m { users = put m.users id u' })
]

abbrev pub found {ℓ} : {A : Type ℓ} → Option A → Result A
found none = err not_found
found (some a) = ok a

unfoldable pub get_user : String → MemStore → Result User
get_user id m = found (get m.users id)

abbrev zero_user : User
zero_user = record {
  id = "";
  email = "";
  name = "";
  avatar_url = "";
  oauth_provider = "";
  created_at = 0;
}

-- `m.users[id]` is the zero value where the index names no user.
abbrev pub or_zero {ℓ} : {A : Type ℓ} → A → Option A → A
or_zero z none = z
or_zero z (some a) = a

unfoldable pub get_user_by_email : String → MemStore → Result User
get_user_by_email email m = elim (get m.users_email (to_lower email)) [
  | none ↦ err not_found
  | some id ↦ ok (or_zero zero_user (get m.users id))
]

unfoldable pub create_org : ℕ → String → Org → Exec MemStore Org
create_org now fresh o m =
    let o' = record o {
      id = or_new_id o.id fresh;
      plan = if o.plan == "" then "free" else o.plan;
      created_at = or_now o.created_at now;
    } in
    (ok o', record m { orgs = put m.orgs o'.id o' })

unfoldable pub get_org : String → Exec MemStore Org
get_org id m = (found (get m.orgs id), m)

unfoldable pub orgs_by_plan : String → Exec MemStore (List Org)
orgs_by_plan plan m = (ok (keep (λ o. o.plan == plan) (values m.orgs)), m)

unfoldable pub set_org_plan : String → String → Option ℕ → Exec MemStore Unit
set_org_plan org_id plan expires_at m = elim (get m.orgs org_id) [
  | none ↦ (err not_found, m)
  | some o ↦ (
    ok tt,
    record m { orgs = put m.orgs org_id (record o { plan = plan; plan_expires_at = expires_at }) },
  )
]

-- A plan that comes from Stripe has no expiry.
unfoldable pub update_org_plan : String → String → Exec MemStore Unit
update_org_plan org_id plan m = elim (get m.orgs org_id) [
  | none ↦ (err not_found, m)
  | some o ↦ (
    ok tt,
    record m { orgs = put m.orgs org_id (record o { plan = plan; plan_expires_at = none }) },
  )
]

unfoldable pub set_org_stripe_customer : String → String → Exec MemStore Unit
set_org_stripe_customer org_id customer_id m = elim (get m.orgs org_id) [
  | none ↦ (err not_found, m)
  | some o ↦
      (ok tt, record m { orgs = put m.orgs org_id (record o { stripe_customer_id = customer_id }) })
]

unfoldable pub get_org_by_stripe_customer : String → Exec MemStore Org
get_org_by_stripe_customer customer_id m =
    if customer_id == ""
    then (err not_found, m)
    else (found (find (λ o. o.stripe_customer_id == customer_id) (values m.orgs)), m)

unfoldable pub add_org_member : OrgMember → Exec MemStore Unit
add_org_member mem m =
    if any (λ e. e.org_id == mem.org_id && e.user_id == mem.user_id) m.members
    then (err conflict, m)
    else (ok tt, record m { members = m.members ++ mem ∷ [] })

unfoldable pub list_org_members : String → MemStore → List OrgMember
list_org_members org_id m = keep (λ e. e.org_id == org_id) m.members

unfoldable pub orgs_of : Dict String Org → String → List OrgMember → List Org
orgs_of orgs user_id [] = []
orgs_of orgs user_id (e ∷ rest) =
    let more = orgs_of orgs user_id rest in
    if e.user_id == user_id
    then (elim (get orgs e.org_id) [ some o ↦ o ∷ more | none ↦ more ])
    else more

unfoldable pub orgs_for_user : String → MemStore → List Org
unfolding orgs_of
orgs_for_user user_id m = orgs_of m.orgs user_id m.members

-- The prefix is tested after the defaults are filled in; nothing is written on a conflict.
unfoldable pub create_api_key : ℕ → String → ApiKey → Exec MemStore ApiKey
create_api_key now fresh k m =
    let k' = record k { id = or_new_id k.id fresh; created_at = or_now k.created_at now } in
    elim (get m.key_prefix k.prefix) [
      | some _ ↦ (err conflict, m)
      | none ↦ (
        ok k',
        record m { keys = put m.keys k'.id k'; key_prefix = put m.key_prefix k.prefix k'.id },
      )
    ]

abbrev zero_api_key : ApiKey
zero_api_key = record {
  id = "";
  org_id = "";
  name = "";
  prefix = "";
  hash = "";
  last_used_at = none;
  revoked_at = none;
  created_at = 0;
}

unfoldable pub get_api_key_by_prefix : String → MemStore → Result ApiKey
get_api_key_by_prefix prefix m = elim (get m.key_prefix prefix) [
  | none ↦ err not_found
  | some id ↦ ok (or_zero zero_api_key (get m.keys id))
]

unfoldable pub list_api_keys : String → MemStore → List ApiKey
list_api_keys org_id m = keep (λ k. k.org_id == org_id) (values m.keys)

unfoldable pub touch_api_key : String → ℕ → Exec MemStore Unit
touch_api_key id at m = elim (get m.keys id) [
  | none ↦ (err not_found, m)
  | some k ↦ (ok tt, record m { keys = put m.keys id (record k { last_used_at = some at }) })
]

unfoldable pub revoke_api_key : String → String → ℕ → Exec MemStore Unit
revoke_api_key id org_id at m = elim (get m.keys id) [
  | none ↦ (err not_found, m)
  | some k ↦
      if k.org_id == org_id
      then (ok tt, record m { keys = put m.keys id (record k { revoked_at = some at }) })
      else (err not_found, m)
]
