-- ===== src/Api/SignIn/Device.antt =====
-- The device sign-in of internal/api/handlers_auth.go, from the code to a key that authenticates.
use trqsh.Prelude.{
  ℕ, ◌+◌, ◌≤◌, ◌≡◌, refl, ap, ◌∙◌, String, Bool, true, none, some, arith, string_eq,
}
use trqsh.Prelude.Text.{to_upper, trim_space}
use trqsh.Prelude.Dict.{get, put, get-put_same}
use trqsh.Store.Types.{ApiKey}
use trqsh.Store.State.{MemStore, or_new_id, or_now}
use trqsh.Prelude.Result.{ok}
use trqsh.Store.Accounts.{create_api_key, get_api_key_by_prefix}
use trqsh.Api.Keys.{key_prefix, authenticated, authenticate_api_key}
use trqsh.Api.Devices.{approve, poll, delivered, device_ttl}
use trqsh.Api.Devices.Delivery.{create-approve-poll}
use trqsh.Api.SignIn.{
  Server, GeneratedKey, answered, device_key, handle_device_code, handle_device_approve,
  handle_device_token,
}

module _ (t : ℕ) (fresh org_id : String) (gen : GeneratedKey) (m : MemStore) where
  minted : ApiKey
  minted = record (device_key gen org_id) { id = or_new_id "" fresh; created_at = or_now 0 t }

  stored : MemStore
  unfolding minted
  stored = record m {
    keys = put m.keys minted.id minted;
    key_prefix = put m.key_prefix gen.prefix minted.id;
  }

  module _ (unused : get m.key_prefix gen.prefix ≡ none) where
    create_api_key-minted : create_api_key t fresh (device_key gen org_id) m ≡ (ok minted, stored)
    unfolding create_api_key minted stored
    create_api_key-minted = ground arith

    approve-answered :
        (typed : String) (s : Server)
        → s.store ≡ m
        → (approve typed org_id gen.full s.devices).0 ≡ true
        → handle_device_approve t fresh gen org_id typed s ≡ (
          answered tt,
          record s { store = stored; devices = (approve typed org_id gen.full s.devices).1 },
        )
    unfolding handle_device_approve
    approve-answered typed s e a =
        rw (ap (create_api_key t fresh (device_key gen org_id)) e ∙ create_api_key-minted)
          (rw a refl)

    authenticate-minted :
        (verify_key : String → String → Bool) (later : ℕ)
        → key_prefix gen.full ≡ some gen.prefix
        → verify_key gen.full gen.hash ≡ true
        → (authenticate_api_key verify_key later gen.full stored).0 ≡ authenticated minted
    unfolding authenticate_api_key get_api_key_by_prefix minted stored
    authenticate-minted verify_key later p v = ground (
      arith,
      get-put_same m.key_prefix gen.prefix minted.id,
      get-put_same m.keys minted.id minted,
    )

handle_device_token-delivered :
    (now : ℕ) (dc key : String) (s : Server)
    → (poll now dc s.devices).0 ≡ delivered key
    → handle_device_token now dc s
      ≡ (answered key, record s { devices = (poll now dc s.devices).1 })
unfolding handle_device_token
handle_device_token-delivered now dc key s h = rw (h, handle_device_token) refl

-- A device that was given a code, whose user code is then approved for an organisation, in any case of
-- letters and with spaces around it, is given the key that was generated, if it asks within ten
-- minutes; and from then on this key authenticates as a key of that organisation. The generated key
-- has a prefix that no key has yet, and its hash verifies it.
pub device_login :
    (verify_key : String → String → Bool) (t t' t'' later : ℕ) (fresh dc uc typed org_id : String)
    (gen : GeneratedKey) (s : Server)
    → to_upper (trim_space typed) ≡ uc
    → t'' ≤ t + device_ttl
    → get s.store.key_prefix gen.prefix ≡ none
    → key_prefix gen.full ≡ some gen.prefix
    → verify_key gen.full gen.hash ≡ true
    → let (req, s1) = handle_device_code t dc uc s in
      let (approval, s2) = handle_device_approve t' fresh gen org_id typed s1 in
      let (key, s3) = handle_device_token t'' dc s2 in
      approval ≡ answered tt
      × key ≡ answered gen.full
      × ((k : ApiKey) × (authenticate_api_key verify_key later gen.full s3.store).0
            ≡ authenticated k
          × k.org_id ≡ org_id)
unfolding handle_device_code minted
device_login verify_key t t' t'' later fresh dc uc typed org_id gen s e h n p v =
    let (before, done, got) = create-approve-poll t t'' dc uc typed org_id gen.full s.devices e h in
    let s1 = (handle_device_code t dc uc s).1 in
    let a = approve-answered t' fresh org_id gen s.store n typed s1 refl done in
    let s2 = (handle_device_approve t' fresh gen org_id typed s1).1 in
    let b =
      handle_device_token-delivered t'' dc gen.full s2
        (ap (λ x. (poll t'' dc x.1.devices).0) a ∙ got) in
    let c : (handle_device_token t'' dc s2).1.store ≡ stored t' fresh org_id gen s.store =
      ap (λ x. x.1.store) b ∙ ap (λ x. x.1.store) a in
    (
      ap (λ x. x.0) a,
      ap (λ x. x.0) b,
      (
        minted t' fresh org_id gen s.store,
        ap (λ x. (authenticate_api_key verify_key later gen.full x).0) c
            ∙ authenticate-minted t' fresh org_id gen s.store n verify_key later p v,
        refl,
      ),
    )
