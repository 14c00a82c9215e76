-- ===== src/Api/Entitlements/Granted.antt =====
-- When CheckBind of internal/api/entitlements.go allows a bind.
use trqsh.Prelude.{
  ℕ, ◌<◌, String, ◌≡◌, ◌≢◌, refl, inl, inr, Bool, true, false, not, ◌||◌, ◌&&◌, Option, none, some,
  arith, eq_iff, if◌then◌else◌, ◌==◌, string_eq, Bool-cases, ap, ◌∙◌, sym, subst,
}
use trqsh.Prelude.Result.{ok}
use trqsh.Authz.{BindRequest, Decision, no_limits}
use trqsh.Store.Types.{Org, ApiKey}
use trqsh.Api.Keys.{KeyCheck, authenticate_api_key, authenticated}
use trqsh.Store.State.{MemStore}
use trqsh.Store.Accounts.{get_org}
use trqsh.Store.Names.{get_custom_domain_by_name, is_subdomain_reserved}
use trqsh.Billing.Plans.{Plan, plan_free, plan_for, limits, limits_for_plan}
use trqsh.Api.Entitlements.{
  Quota, quota_answer, effective_plan, authenticate, is_verified_for, within_quota,
  subdomain_allowed, host_allowed, protocol_allowed, decided_for, check_bind, account,
}

abbrev implies : Bool → Bool → Bool
implies a b = not a || b

-- What an account on a plan has to hold for a request.
abbrev pub entitled : Quota → String → String → BindRequest → MemStore → Bool
entitled quota account plan req m =
    let p = plan_for plan in
    implies (req.type == "udp") p.allow_udp
    && implies (req.type == "tls") p.allow_tls
    && implies (req.type == "tcp") p.allow_tcp
    && (implies (not (req.custom_host == "")) (
          p.allow_custom_domains
          && is_verified_for account (get_custom_domain_by_name req.custom_host m))
        && (implies (not (req.subdomain == "")) (is_subdomain_reserved account req.subdomain m)
            && (quota_answer quota account plan m).0 == ""))

-- The decision `d` allows as `b` says, for the account, the plan and the limits of `dec`.
record Says (d : Decision) (b : Bool) (dec : Decision) : Type 0 where
  allowed : d.allow ≡ b
  account : d.account_id ≡ dec.account_id
  plan : d.plan ≡ dec.plan
  limits : d.limits ≡ dec.limits

abbrev no_decision : Decision
no_decision = record {
  allow = false;
  account_id = "";
  plan = "";
  limits = no_limits;
  assigned_subdomain = "";
  error_code = "";
  error_message = "";
}

Says-if :
    (b : Bool) {x y dec : Decision} {p q : Bool}
    → Says x p dec
    → Says y q dec
    → Says (if b then x else y) (if b then p else q) dec
Says-if true s t = s
Says-if false s t = t

host_test :
    (none_asked paid verified rest : Bool)
    → (if none_asked then rest else if not paid then false else if verified then rest else false)
      ≡ (implies (not none_asked) (paid && verified) && rest)
host_test none_asked paid verified rest = ground arith

protocol_test :
    (a p b q c r rest : Bool)
    → (if a && not p
        then false
        else if b && not q
        then false
        else if c && not r
        then false
        else rest)
      ≡ (implies a p && implies b q && implies c r && rest)
protocol_test a p b q c r rest = ground arith

module _ (quota : Quota) (random : String) (req : BindRequest) (account plan : String)
    (m : MemStore) where
  within_quota-Says :
      (dec : Decision)
      → Says
          (within_quota quota random account plan dec m)
          ((quota_answer quota account plan m).0 == "")
          dec
  unfolding within_quota
  within_quota-Says dec = elim (Bool-cases ((quota_answer quota account plan m).0 == "")) [
    | inl e ↦ rw e (record { allowed = refl; account = refl; plan = refl; limits = refl })
    | inr e ↦ rw e (record { allowed = refl; account = refl; plan = refl; limits = refl })
  ]

  abbrev name_held : Bool
  name_held =
      implies (not (req.subdomain == "")) (is_subdomain_reserved account req.subdomain m)
      && (quota_answer quota account plan m).0 == ""

  subdomain_allowed-Says :
      (dec : Decision) → Says (subdomain_allowed quota random req account plan dec m) name_held dec
  unfolding subdomain_allowed
  subdomain_allowed-Says dec = elim (Bool-cases (req.subdomain == "")) [
    | inl e ↦ rw e (elim (Bool-cases (req.custom_host == "")) [
      | inl f ↦
          let h = within_quota-Says (record dec { assigned_subdomain = random }) in
          rw f
            (record { allowed = h.allowed; account = h.account; plan = h.plan; limits = h.limits })
      | inr f ↦ rw f (within_quota-Says dec)
    ])
    | inr e ↦ rw e (elim (Bool-cases (is_subdomain_reserved account req.subdomain m)) [
      | inl f ↦ rw f (within_quota-Says dec)
      | inr f ↦ rw f (record { allowed = refl; account = refl; plan = refl; limits = refl })
    ])
  ]

  abbrev host_held : Plan → Bool
  host_held p =
      implies (not (req.custom_host == "")) (
        p.allow_custom_domains
        && is_verified_for account (get_custom_domain_by_name req.custom_host m))
      && name_held

  host_allowed-Says :
      (p : Plan) (dec : Decision)
      → Says (host_allowed quota random req p account plan dec m) (host_held p) dec
  unfolding host_allowed
  host_allowed-Says p dec =
      let said = subdomain_allowed-Says dec in
      let verified = is_verified_for account (get_custom_domain_by_name req.custom_host m) in
      subst (λ b. Says (host_allowed quota random req p account plan dec m) b dec)
        (host_test (req.custom_host == "") p.allow_custom_domains verified name_held)
        (Says-if (req.custom_host == "") said (
          Says-if (not p.allow_custom_domains)
            (record { allowed = refl; account = refl; plan = refl; limits = refl })
            (Says-if verified said
              (record { allowed = refl; account = refl; plan = refl; limits = refl }))))

  protocol_allowed-entitled :
      let d = protocol_allowed quota random req account plan m in
      d.allow ≡ entitled quota account plan req m
      × d.account_id ≡ account
      × d.plan ≡ plan
      × d.limits ≡ limits_for_plan plan
  unfolding protocol_allowed limits_for_plan
  protocol_allowed-entitled =
      let p = plan_for plan in
      let dec : Decision = record no_decision {
        account_id = account;
        plan = plan;
        limits = limits p;
      } in
      let says =
        Says-if (req.type == "udp" && not p.allow_udp)
          (record { allowed = refl; account = refl; plan = refl; limits = refl })
          (Says-if (req.type == "tls" && not p.allow_tls)
            (record { allowed = refl; account = refl; plan = refl; limits = refl })
            (Says-if (req.type == "tcp" && not p.allow_tcp)
              (record { allowed = refl; account = refl; plan = refl; limits = refl })
              (host_allowed-Says p dec))) in
      (
        says.allowed
            ∙ protocol_test (req.type == "udp") p.allow_udp (req.type == "tls") p.allow_tls
                (req.type == "tcp") p.allow_tcp (host_held p),
        says.account,
        says.plan,
        says.limits,
      )

abbrev pub allowed_for : Quota → Option (String × String) → BindRequest → MemStore → Bool
allowed_for quota none req m = false
allowed_for quota (some (account, plan)) req m = entitled quota account plan req m

decided_for-allow :
    (quota : Quota) (random : String) (req : BindRequest) (w : Option (String × String) × MemStore)
    → let (d, m) = decided_for quota random req w in
      d.allow ≡ allowed_for quota w.0 req w.1 × m ≡ w.1
unfolding decided_for
decided_for-allow quota random req (none, m) = (refl, refl)
decided_for-allow quota random req (some (account, plan), m) =
    ((protocol_allowed-entitled quota random req account plan m).0, refl)

-- A bind is allowed exactly when its key authenticates and the plan in force has what the request
-- needs: the protocol, a custom domain that the account owns and has verified, a subdomain that it
-- has reserved, and a quota that is not used up. The check changes the store only as the
-- authentication does.
pub check_bind_lem :
    (quota : Quota) (random : String) (verify_key : String → String → Bool) (now : ℕ)
    (req : BindRequest) (m : MemStore)
    → let (who, m') = authenticate verify_key now req.api_key m in
      let (d, m'') = check_bind quota random verify_key now req m in
      d.allow ≡ allowed_for quota who req m' × m'' ≡ m'
unfolding check_bind
check_bind_lem quota random verify_key now req m =
    decided_for-allow quota random req (authenticate verify_key now req.api_key m)

free-entitled :
    (quota : Quota) (account : String) (req : BindRequest) (m : MemStore)
    → entitled quota account plan_free req m ≡ true
    → req.type ≢ "udp" × req.type ≢ "tls" × req.custom_host ≡ ""
unfolding plan_for
free-entitled quota account req m h = (
  λ e. absurd (ground (arith, eq_iff req.type "udp")),
  λ e. absurd (ground (arith, eq_iff req.type "tls")),
  ground (arith, eq_iff req.custom_host ""),
)

effective_plan_expired :
    (now t : ℕ) (o : Org) → o.plan_expires_at ≡ some t → t < now → effective_plan now o ≡ plan_free
unfolding effective_plan
effective_plan_expired now t o e h = ground arith

account_lem :
    (now : ℕ) (k : ApiKey) (o : Org) (c : KeyCheck) (m : MemStore)
    → c ≡ authenticated k
    → (get_org k.org_id m).0 ≡ ok o
    → account now (c, m) ≡ (some (o.id, effective_plan now o), m)
unfolding account
account_lem now k o c m e f = rw (e, f) refl

-- Once the expiry of an organisation's plan has passed, no key of it binds UDP, TLS or a custom
-- domain, whatever plan the organisation has stored.
pub expired_plan_binds :
    (quota : Quota) (random : String) (verify_key : String → String → Bool) (now t : ℕ)
    (req : BindRequest) (m : MemStore) (k : ApiKey) (o : Org)
    → (authenticate_api_key verify_key now req.api_key m).0 ≡ authenticated k
    → (get_org k.org_id (authenticate_api_key verify_key now req.api_key m).1).0 ≡ ok o
    → o.plan_expires_at ≡ some t
    → t < now
    → (check_bind quota random verify_key now req m).0.allow ≡ true
    → req.type ≢ "udp" × req.type ≢ "tls" × req.custom_host ≡ ""
unfolding authenticate
expired_plan_binds quota random verify_key now t req m k o e f x l h =
    let r = authenticate_api_key verify_key now req.api_key m in
    let who =
      account_lem now k o r.0 r.1 e f
      ∙ ap (λ p. (some (o.id, p), r.1)) (effective_plan_expired now t o x l) in
    free-entitled quota o.id req r.1 (
      sym (ap (λ w. allowed_for quota w.0 req w.1) who)
      ∙ sym (check_bind_lem quota random verify_key now req m).0
      ∙ h)
