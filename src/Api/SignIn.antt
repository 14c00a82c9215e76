-- ===== src/Api/SignIn.antt =====
-- Signing in: internal/api/handlers_auth.go, over the in-memory stores. The body of a request has been
-- decoded; cookies are the values that the request brings and that the answer sets, without their
-- attributes; the exchange of a code with the provider, the clock and what is drawn are arguments.
pub mod Again
pub mod Redirect
pub mod Device
mod Tests
use trqsh.Prelude.{
  ℕ, zero, suc, String, Bool, true, false, not, ◌||◌, ◌&&◌, Option, none, some, List, [], ◌∷◌,
  if◌then◌else◌, ◌==◌, string_eq,
}
use trqsh.Prelude.Text.{◌<>◌, strip_prefix, before, trim_right_slash}
use trqsh.Prelude.Result.{
  StoreError, Result, ok, err, not_found, conflict, failure, Exec, ◌>>=◌, pure,
}
use trqsh.Store.Types.{User, Org, OrgMember, ApiKey}
use trqsh.Store.State.{MemStore}
use trqsh.Store.Accounts.{
  create_user, create_org, add_org_member, get_user_by_email, update_user_profile, orgs_for_user,
  create_api_key,
}
use trqsh.Api.Keys.{Revoked}
use trqsh.Api.Devices.{
  DeviceStore, DeviceRequest, create, approve, poll, delivered, device_pending, device_expired,
  device_unknown,
}
use trqsh.Api.OauthState.{States, new_state, check_state}
use trqsh.Api.Tokens.{Jwt, Tokens, issue_tokens, refresh, revoke_refresh}

pub record Config : Type 0 where
  pub dev_auth : Bool
  pub app_url : String
  pub base_domain : String
  pub public_url : String

-- The server's stores.
pub record Server : Type 0 where
  pub store : MemStore
  pub revoked : Revoked
  pub states : States
  pub devices : DeviceStore

-- What a handler answers: a value, or the HTTP status of a refusal.
pub data Reply {ℓ} (A : Type ℓ) : Type ℓ where
  answered : A → Reply A
  refused : ℕ → Reply A

-- What is drawn while a request is served: identifiers of a user and of an organisation, and two of
-- tokens.
pub record Drawn : Type 0 where
  pub user_id : String
  pub org_id : String
  pub jti : String
  pub jti' : String

-- errors.New("user has no org") is a failure.
unfoldable pub first_org : String → MemStore → Result Org
first_org user_id m = elim (orgs_for_user user_id m) [ [] ↦ err failure | o ∷ os ↦ ok o ]

-- strings.Split(email, "@")[0], where a name is not given
abbrev pub name_or : String → String → String
name_or name email =
    if name == "" then (elim (before 64 email) [ none ↦ email | some p ↦ p ]) else name

new_account : ℕ → Drawn → String → String → String → String → Exec MemStore (User × Org)
new_account now d email name avatar provider = do
  u ← create_user now d.user_id (record {
    id = "";
    email = email;
    name = name_or name email;
    avatar_url = avatar;
    oauth_provider = provider;
    created_at = 0;
  })
  org ← create_org now d.org_id (record {
    id = "";
    name = name_or name email <> "'s org";
    plan = "free";
    stripe_customer_id = "";
    created_at = 0;
    plan_expires_at = none;
  })
  add_org_member (record { org_id = org.id; user_id = u.id; role = "owner" }) >>= λ _. pure (u, org)

-- The user that is answered, with the new name and avatar where they were stored.
abbrev refreshed : String → String → User → Result (Unit {0}) × MemStore → User × MemStore
refreshed name avatar u (ok _, m) = (
  record u {
    name = if name == "" then u.name else name;
    avatar_url = if avatar == "" then u.avatar_url else avatar;
  },
  m,
)
refreshed name avatar u (err _, m) = (u, m)

abbrev profile_changed : String → String → User → Bool
profile_changed name avatar u =
    (not (avatar == "") && not (avatar == u.avatar_url))
    || (not (name == "") && not (name == u.name))

abbrev profile_kept : Bool → String → String → User → MemStore → User × MemStore
profile_kept changed name avatar u m =
    if changed then refreshed name avatar u (update_user_profile u.id name avatar m) else (u, m)

-- The user with its first organisation.
abbrev with_first_org : String → User × MemStore → Result (User × Org) × MemStore
with_first_org uid (u, m) = elim (first_org uid m) [ ok o ↦ (ok (u, o), m) | err e ↦ (err e, m) ]

known_account : String → String → User → Exec MemStore (User × Org)
known_account name avatar u m =
    with_first_org u.id (profile_kept (profile_changed name avatar u) name avatar u m)

unfoldable pub provision_user :
    ℕ → Drawn → String → String → String → String → Exec MemStore (User × Org)
unfolding new_account known_account
provision_user now d email name avatar provider m = elim (get_user_by_email email m) [
  | ok u ↦ known_account name avatar u m
  | err not_found ↦ new_account now d email name avatar provider m
  | err conflict ↦ (err conflict, m)
  | err failure ↦ (err failure, m)
]

abbrev with_store : Server → MemStore → Server
with_store s m = record s { store = m }

-- The profile that the provider's Exchange gives, none on an error.
abbrev pub Profile : Type 0
Profile = Option (String × String × String × String)

-- strings.TrimRight(s.cfg.AppURL, "/")
unfoldable pub app_base : Config → String
app_base cfg =
    if cfg.app_url == "" then "https://app." <> cfg.base_domain else trim_right_slash cfg.app_url

abbrev starts : String → String → Bool
starts prefix p = elim (strip_prefix prefix p) [ none ↦ false | some _ ↦ true ]

unfoldable pub safe_next_path : String → String
safe_next_path p =
    if p == "" || (not (starts "/" p) || (starts "//" p || starts "/\\" p)) then "" else p

-- Where the browser is sent after a sign-in: the preserved destination, or the dashboard.
abbrev destination : Config → Option String → String
destination cfg none = app_base cfg <> "/"
destination cfg (some n) =
    if safe_next_path n == "" then app_base cfg <> "/" else app_base cfg <> safe_next_path n

module _ (jwt : Jwt) (cfg : Config) where
  -- The user, the organisation and their tokens, 500 where they cannot be signed.
  abbrev signed_in :
      ℕ → Drawn → Server → Result (User × Org) × MemStore → Reply (User × Org × Tokens) × Server
  signed_in now d s (err _, m) = (refused 500, with_store s m)
  signed_in now d s (ok (u, o), m) = elim (issue_tokens jwt now d.jti d.jti' u.id o.id) [
    | none ↦ (refused 500, with_store s m)
    | some t ↦ (answered (u, o, t), with_store s m)
  ]

  unfoldable pub handle_signup :
      ℕ → Drawn → String → String → Server → Reply (User × Org × Tokens) × Server
  handle_signup now d email name s =
      if not cfg.dev_auth then (refused 403, s) else elim (before 64 email) [
        | none ↦ (refused 400, s)
        | some _ ↦ elim (get_user_by_email email s.store) [
          | ok _ ↦ (refused 409, s)
          | err _ ↦ signed_in now d s (provision_user now d email name "" "email" s.store)
        ]
      ]

  unfoldable pub handle_login : ℕ → Drawn → String → Server → Reply (User × Org × Tokens) × Server
  handle_login now d email s =
      if not cfg.dev_auth then (refused 403, s) else elim (get_user_by_email email s.store) [
        | err _ ↦ (refused 401, s)
        | ok u ↦ elim (first_org u.id s.store) [
          | err _ ↦ (refused 500, s)
          | ok o ↦ signed_in now d s (ok (u, o), s.store)
        ]
      ]

  unfoldable pub handle_refresh : ℕ → Drawn → String → Server → Reply Tokens × Server
  handle_refresh now d token s =
      let (t, r) = refresh jwt now d.jti d.jti' token s.revoked in
      let s' = record s { revoked = r } in
      elim t [ none ↦ (refused 401, s') | some t' ↦ (answered t', s') ]

  -- The refresh token of the cookie where it has one, or of the body; the session cookies are cleared.
  unfoldable pub handle_logout : ℕ → Option String → String → Server → Server
  handle_logout now cookie body s =
      let body_token : Server =
        if body == "" then s else record s { revoked = revoke_refresh jwt now body s.revoked } in
      elim cookie [
        | none ↦ body_token
        | some c ↦
            if c == ""
            then body_token
            else record s { revoked = revoke_refresh jwt now c s.revoked }
      ]

  -- dest and the session cookies' tokens
  abbrev redirected :
      Option String → Reply (User × Org × Tokens) × Server → Reply (String × Tokens) × Server
  redirected next (refused n, s) = (refused n, s)
  redirected next (answered (u, o, t), s) = (answered (destination cfg next, t), s)

  -- The cookies are those of the state and of the preserved destination.
  unfoldable pub handle_oauth_callback :
      ℕ
      → Drawn
      → Bool
      → String
      → Option String
      → Option String
      → Profile
      → Server
      → Reply (String × Tokens) × Server
  handle_oauth_callback now d provider_known qstate state_cookie next profile s =
      if not provider_known then (refused 404, s) else elim state_cookie [
        | none ↦ (refused 400, s)
        | some c ↦
            if not (c == qstate)
            then (refused 400, s)
            else let (valid, states) = check_state now qstate s.states in
              let s' = record s { states = states } in
              if not valid then (refused 400, s') else elim profile [
                | none ↦ (refused 502, s')
                | some (email, name, avatar, provider) ↦
                    redirected next (
                      signed_in now d s' (provision_user now d email name avatar provider s'.store))
              ]
      ]

-- The state that is drawn, which is also the state cookie, and the preserved destination, "" for none.
-- The provider is known and configured, or not.
unfoldable pub handle_oauth_start :
    ℕ → Bool → String → String → Server → Reply (String × String) × Server
handle_oauth_start now configured nonce next s =
    if not configured
    then (refused 404, s)
    else let (state, states) = new_state now nonce s.states in
      (answered (state, safe_next_path next), record s { states = states })

-- auth.GenerateAPIKey
pub record GeneratedKey : Type 0 where
  pub full : String
  pub prefix : String
  pub hash : String

unfoldable pub handle_device_code : ℕ → String → String → Server → DeviceRequest × Server
handle_device_code now device_code user_code s =
    let (r, d) = create now device_code user_code s.devices in (r, record s { devices = d })

approved :
    GeneratedKey → String → String → Server → Result ApiKey × MemStore → Reply (Unit {0}) × Server
approved gen org_id user_code s (err _, m) = (refused 500, with_store s m)
approved gen org_id user_code s (ok _, m) =
    let (found, d) = approve user_code org_id gen.full s.devices in
    let s' = record s { store = m; devices = d } in
    if found then (answered tt, s') else (refused 400, s')

abbrev pub device_key : GeneratedKey → String → ApiKey
device_key gen org_id = record {
  id = "";
  org_id = org_id;
  name = "cli-device";
  prefix = gen.prefix;
  hash = gen.hash;
  last_used_at = none;
  revoked_at = none;
  created_at = 0;
}

-- The key is stored before the request is approved.
unfoldable pub handle_device_approve :
    ℕ → String → GeneratedKey → String → String → Server → Reply (Unit {0}) × Server
unfolding approved
handle_device_approve now fresh gen org_id user_code s =
    approved gen org_id user_code s (create_api_key now fresh (device_key gen org_id) s.store)

unfoldable pub handle_device_token : ℕ → String → Server → Reply String × Server
handle_device_token now device_code s =
    let (r, d) = poll now device_code s.devices in
    let s' = record s { devices = d } in
    elim r [
      | delivered key ↦ (answered key, s')
      | device_pending ↦ (refused 400, s')
      | device_expired ↦ (refused 400, s')
      | device_unknown ↦ (refused 400, s')
    ]
