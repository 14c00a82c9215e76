-- ===== src/Api/SignIn/Again.antt =====
-- Signing in twice with one address (provisionUser of internal/api/handlers_auth.go).
use trqsh.Prelude.{
  ℕ, ◌≡◌, refl, ap, ◌∙◌, String, Bool, true, false, ◌&&◌, none, some, List, [], ◌∷◌, ◌++◌, any,
  ◌==◌, string_eq, arith, eq_iff, Option-cases, inl, inr,
}
use trqsh.Prelude.Text.{to_lower, ◌<>◌}
use trqsh.Prelude.Result.{Result, ok, err, not_found}
use trqsh.Prelude.Dict.{Dict, get, put, get-put_same}
use trqsh.Store.Types.{User, Org, OrgMember}
use trqsh.Store.State.{MemStore, or_new_id, or_now}
use trqsh.Store.Accounts.{
  create_user, create_org, add_org_member, get_user_by_email, update_user_profile, orgs_for_user,
  orgs_of,
}
use trqsh.Api.SignIn.{
  Drawn, first_org, name_or, provision_user, new_account, known_account, refreshed, profile_kept,
  profile_changed, with_first_org,
}

-- The tables that tell who has an account are the same.
abbrev pub SameAccounts : MemStore → MemStore → Type 0
SameAccounts m m' = m'.users_email ≡ m.users_email × m'.orgs ≡ m.orgs × m'.members ≡ m.members

SameAccounts-first_org :
    (uid : String) (m m' : MemStore) → SameAccounts m m' → first_org uid m' ≡ first_org uid m
unfolding first_org orgs_for_user
SameAccounts-first_org uid m m' (e, f, g) = rw (f, g) refl

update_user_profile-SameAccounts :
    (id name avatar : String) (m : MemStore)
    → SameAccounts m (update_user_profile id name avatar m).1
unfolding update_user_profile
update_user_profile-SameAccounts id name avatar m = elim (Option-cases (get m.users id)) [
  | inl e ↦ rw (e, update_user_profile) (refl, refl, refl)
  | inr (u, e) ↦ rw (e, update_user_profile) (refl, refl, refl)
]

get_user_by_email-lower :
    (email email' : String) (m : MemStore)
    → to_lower email' ≡ to_lower email
    → get_user_by_email email' m ≡ get_user_by_email email m
unfolding get_user_by_email
get_user_by_email-lower email email' m e = ground arith

refreshed_lem :
    (name avatar : String) (u : User) (x : Result (Unit {0}) × MemStore)
    → (refreshed name avatar u x).0.id ≡ u.id × (refreshed name avatar u x).1 ≡ x.1
refreshed_lem name avatar u (ok y, m) = (refl, refl)
refreshed_lem name avatar u (err e, m) = (refl, refl)

with_first_org-ok :
    (uid : String) (o : Org) (x : User × MemStore)
    → first_org uid x.1 ≡ ok o
    → with_first_org uid x ≡ (ok (x.0, o), x.1)
with_first_org-ok uid o (u, m) h = rw (h, with_first_org) refl

profile_kept_lem :
    (b : Bool) (name avatar : String) (u : User) (m : MemStore)
    → let (u', m') = profile_kept b name avatar u m in u'.id ≡ u.id × SameAccounts m m'
profile_kept_lem false name avatar u m = (refl, (refl, refl, refl))
profile_kept_lem true name avatar u m =
    let x = update_user_profile u.id name avatar m in
    let (a, b) = refreshed_lem name avatar u x in
    let (c, d, e) = update_user_profile-SameAccounts u.id name avatar m in
    (a, (ap (λ k. k.users_email) b ∙ c, ap (λ k. k.orgs) b ∙ d, ap (λ k. k.members) b ∙ e))

-- A user that is known keeps its account.
known_account-SameAccounts :
    (name avatar : String) (o : Org) (u : User) (m : MemStore)
    → first_org u.id m ≡ ok o
    → let (r, m') = known_account name avatar u m in
      ((u' : User) × r ≡ ok (u', o) × u'.id ≡ u.id) × SameAccounts m m'
unfolding known_account
known_account-SameAccounts name avatar o u m h =
    let x = profile_kept (profile_changed name avatar u) name avatar u m in
    let (a, b) = profile_kept_lem (profile_changed name avatar u) name avatar u m in
    let e = with_first_org-ok u.id o x (SameAccounts-first_org u.id m x.1 b ∙ h) in
    rw e ((x.0, refl, a), b)

-- The outcome of a new account: who it is for leads to it.
abbrev Opened : String → User → Org → MemStore → Type 0
Opened email u o m = get_user_by_email email m ≡ ok u × first_org u.id m ≡ ok o

any-false :
    (org uid : String) (ms : List OrgMember)
    → any (λ e. e.user_id == uid) ms ≡ false
    → any (λ e. e.org_id == org && e.user_id == uid) ms ≡ false
any-false org uid [] h = refl
any-false org uid (e ∷ ms) h = ground (arith, any-false org uid ms)

orgs_of-append :
    (orgs : Dict String Org) (uid : String) (e : OrgMember) (o : Org) (ms : List OrgMember)
    → any (λ x. x.user_id == uid) ms ≡ false
    → e.user_id ≡ uid
    → get orgs e.org_id ≡ some o
    → orgs_of orgs uid (ms ++ (e ∷ [])) ≡ o ∷ []
unfolding orgs_of
orgs_of-append orgs uid e o [] h f g = ground (arith, eq_iff e.user_id uid)
orgs_of-append orgs uid e o (x ∷ ms) h f g = ground (arith, orgs_of-append orgs uid e o ms)

module _ (now : ℕ) (d : Drawn) (email name avatar provider : String) (m : MemStore) where
  made_user : User
  made_user = record {
    id = or_new_id "" d.user_id;
    email = email;
    name = name_or name email;
    avatar_url = avatar;
    oauth_provider = provider;
    created_at = or_now 0 now;
  }

  made_org : Org
  made_org = record {
    id = or_new_id "" d.org_id;
    name = name_or name email <> "'s org";
    plan = "free";
    stripe_customer_id = "";
    created_at = or_now 0 now;
    plan_expires_at = none;
  }

  made_store : MemStore
  unfolding made_user made_org
  made_store = record m {
    users = put m.users made_user.id made_user;
    users_email = put m.users_email (to_lower email) made_user.id;
    orgs = put m.orgs made_org.id made_org;
    members =
        m.members ++ (record { org_id = made_org.id; user_id = made_user.id; role = "owner" } ∷ []);
  }

  module _ (new : get m.users_email (to_lower email) ≡ none)
      (unused : any (λ e. e.user_id == d.user_id) m.members ≡ false) where
    new_account-made :
        new_account now d email name avatar provider m ≡ (ok (made_user, made_org), made_store)
    unfolding new_account create_user create_org add_org_member made_user made_org made_store
    new_account-made =
        rw (new, create_user) (rw (any-false d.org_id d.user_id m.members unused) refl)

    made-Opened : Opened email made_user made_org made_store
    unfolding made_user made_org made_store get_user_by_email first_org orgs_for_user
    made-Opened = (
      ground (
        arith,
        get-put_same m.users_email (to_lower email) d.user_id,
        get-put_same m.users d.user_id made_user,
      ),
      rw
          (
            orgs_of-append made_store.orgs d.user_id
                (record { org_id = d.org_id; user_id = d.user_id; role = "owner" }) made_org
                m.members unused refl (get-put_same m.orgs d.org_id made_org),
            first_org,
          )
          refl,
    )

get_user_by_email-none :
    (email : String) (m : MemStore)
    → get_user_by_email email m ≡ err not_found
    → get m.users_email (to_lower email) ≡ none
unfolding get_user_by_email
get_user_by_email-none email m h = elim (Option-cases (get m.users_email (to_lower email))) [
  | inl e ↦ e
  | inr (id, e) ↦ absurd (ground arith)
]

provision_user-made :
    (now : ℕ) (d : Drawn) (email name avatar provider : String) (m : MemStore)
    → get_user_by_email email m ≡ err not_found
    → any (λ e. e.user_id == d.user_id) m.members ≡ false
    → provision_user now d email name avatar provider m ≡ (
      ok (
        made_user now d email name avatar provider m,
        made_org now d email name avatar provider m,
      ),
      made_store now d email name avatar provider m,
    )
unfolding provision_user
provision_user-made now d email name avatar provider m h unused =
    rw (h, provision_user)
      (new_account-made now d email name avatar provider m (get_user_by_email-none email m h)
        unused)

provision_user-known :
    (now : ℕ) (d : Drawn) (email name avatar provider : String) (u : User) (o : Org) (m : MemStore)
    → get_user_by_email email m ≡ ok u
    → first_org u.id m ≡ ok o
    → let (r, m') = provision_user now d email name avatar provider m in
      ((u' : User) × r ≡ ok (u', o) × u'.id ≡ u.id) × SameAccounts m m'
unfolding provision_user
provision_user-known now d email name avatar provider u o m h g =
    rw (h, provision_user) (known_account-SameAccounts name avatar o u m g)

-- Where an address has no user, and the identifier that is drawn for one is no member of an
-- organisation, a sign-in makes a user and an organisation; the next sign-in with the address, in any
-- letter case and whatever the profile says, answers the same user and organisation, and makes
-- neither a user, an organisation nor a membership.
pub provision_user-again :
    (now now' : ℕ) (d d' : Drawn)
    (email name avatar provider email' name' avatar' provider' : String) (m : MemStore)
    → get_user_by_email email m ≡ err not_found
    → any (λ e. e.user_id == d.user_id) m.members ≡ false
    → to_lower email' ≡ to_lower email
    → let (r, m1) = provision_user now d email name avatar provider m in
      let (r', m2) = provision_user now' d' email' name' avatar' provider' m1 in
      ((u : User) × (u' : User) × (o : Org) × r ≡ ok (u, o) × r' ≡ ok (u', o) × u'.id ≡ u.id)
      × SameAccounts m1 m2
provision_user-again now now' d d' email name avatar provider email' name' avatar' provider' m h
      unused l =
    let new = get_user_by_email-none email m h in
    let m1 = made_store now d email name avatar provider m in
    let (a, b) = made-Opened now d email name avatar provider m new unused in
    let ((u', e, f), same) =
      provision_user-known now' d' email' name' avatar' provider'
        (made_user now d email name avatar provider m) (made_org now d email name avatar provider m)
        m1 (get_user_by_email-lower email email' m1 l ∙ a) b in
    rw (provision_user-made now d email name avatar provider m h unused) (
      (
        made_user now d email name avatar provider m,
        u',
        made_org now d email name avatar provider m,
        refl,
        e,
        f,
      ),
      same,
    )
