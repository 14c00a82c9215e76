-- ===== src/Api/SignIn/Tests.antt =====
-- The theorems on signing in with one user, one browser and one device.
use trqsh.Prelude.{
  ℕ, ◌≡◌, ◌≢◌, ◌↔◌, ◌+◌, ◌<◌, refl, String, Option, true, false, some, none, [], ◌∷◌, ◌==◌,
  string_eq, arith,
}
use trqsh.Prelude.Text.{
  ◌<>◌, strip_prefix, before, trim_right_slash, to_upper, to_lower, trim_space,
}
use trqsh.Prelude.Result.{ok}
use trqsh.Prelude.Dict.{get, put, delete, empty}
use trqsh.Store.Types.{User, Org, ApiKey}
use trqsh.Store.State.{new_mem_store}
use trqsh.Store.Accounts.{
  create_user, create_org, add_org_member, get_user_by_email, orgs_for_user, orgs_of,
}
use trqsh.Api.Keys.{key_prefix, authenticate_api_key, authenticated}
use trqsh.Api.Devices.{new_device_store}
use trqsh.Api.OauthState.{new_states, new_state, check_state, oauth_state_ttl}
use trqsh.Api.OauthState.SingleUse.{after_calls, issues, checks, open_since, check_state_iff}
use trqsh.Api.Tokens.{issue_tokens}
use trqsh.Api.Tokens.Tests.{jwt, signed, same_claims}
use trqsh.Api.SignIn.{
  Server, Config, Drawn, GeneratedKey, answered, first_org, provision_user, app_base,
  safe_next_path, handle_oauth_callback, handle_device_code, handle_device_approve,
  handle_device_token,
}
use trqsh.Api.SignIn.Again.{SameAccounts, provision_user-again}
use trqsh.Api.SignIn.Redirect.{OnSite, handle_oauth_callback-answered}
use trqsh.Api.SignIn.Device.{device_login}

abbrev gen : GeneratedKey
gen = record { full = "tq_live_ab12_cd34"; prefix = "tq_live_ab12"; hash = "hash" }

abbrev cfg : Config
cfg = record {
  dev_auth = false;
  app_url = "";
  base_domain = "trq.sh";
  public_url = "https://trq.sh";
}

abbrev drawn : Drawn
drawn = record { user_id = "usr_1"; org_id = "org_1"; jti = "j1"; jti' = "j2" }

abbrev drawn' : Drawn
drawn' = record { user_id = "usr_2"; org_id = "org_2"; jti = "j3"; jti' = "j4" }

abbrev server : Server
server = record {
  store = new_mem_store;
  revoked = empty;
  states = (new_state 0 "n1" new_states).1;
  devices = new_device_store;
}

program : Unit {0}
unfolding get put delete empty new_mem_store create_user create_org add_org_member get_user_by_email
    orgs_for_user orgs_of first_org provision_user app_base safe_next_path handle_oauth_callback
    check_state new_state new_states issue_tokens signed same_claims strip_prefix before
    trim_right_slash to_upper to_lower trim_space key_prefix
program = tt

device_login_example :
    let (req, s1) = handle_device_code 10 "dev" "WDJB-MJHT" server in
    let (approval, s2) = handle_device_approve 20 "key_1" gen "org_1" " wdjb-mjht" s1 in
    let (key, s3) = handle_device_token 30 "dev" s2 in
    approval ≡ answered tt
    × key ≡ answered "tq_live_ab12_cd34"
    × ((k : ApiKey) × (authenticate_api_key
            (λ full hash. hash == "hash")
            40
            "tq_live_ab12_cd34"
            s3.store).0
          ≡ authenticated k
        × k.org_id ≡ "org_1")
unfolding program
device_login_example =
    device_login (λ full hash. hash == "hash") 10 20 30 40 "key_1" "dev" "WDJB-MJHT" " wdjb-mjht"
      "org_1" gen server refl (omega arith) refl refl refl

provision_user-again_example :
    let (r, m1) = provision_user 10 drawn "ann@acme.com" "Ann" "" "github" new_mem_store in
    let (r', m2) = provision_user 20 drawn' "Ann@Acme.com" "Ann B" "a.png" "google" m1 in
    ((u : User) × (u' : User) × (o : Org) × r ≡ ok (u, o) × r' ≡ ok (u', o) × u'.id ≡ u.id)
    × SameAccounts m1 m2
unfolding program
provision_user-again_example =
    provision_user-again 10 20 drawn drawn' "ann@acme.com" "Ann" "" "github" "Ann@Acme.com" "Ann B"
      "a.png" "google" new_mem_store refl refl refl

handle_oauth_callback-answered_example :
    ◌≡◌ {A = Option String} (some "n1") (some "n1")
    × (check_state 0 "n1" server.states).0 ≡ true
    × ((p : String) × "https://app.trq.sh/billing" ≡ app_base cfg <> p × OnSite p)
unfolding program
handle_oauth_callback-answered_example =
    handle_oauth_callback-answered jwt cfg (some "/billing") "https://app.trq.sh/billing"
      (record { access = "eyA"; refresh = "eyR"; expires_in = 3600; token_type = "Bearer" }) 0 drawn
      true "n1" (some "n1") (some ("ann@acme.com", "Ann", "", "github")) server refl

check_state_iff_example :
    ((check_state 30 "n1"
        (after_calls ((10, issues "n1") ∷ (20, issues "n2") ∷ (25, checks "n2") ∷ []) new_states)).0
      ≡ true)
    ↔ (◌≢◌ {A = String} "n1" ""
        × ((t : ℕ) × open_since "n1"
                ((10, issues "n1") ∷ (20, issues "n2") ∷ (25, checks "n2") ∷ [])
                none
              ≡ some t
            × 30 < t + oauth_state_ttl))
check_state_iff_example =
    check_state_iff 30 "n1" ((10, issues "n1") ∷ (20, issues "n2") ∷ (25, checks "n2") ∷ [])
