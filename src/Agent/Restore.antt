-- ===== src/Agent/Restore.antt =====
-- What rebindAll of internal/agent/reconnect.go asks for, as the edge and the control plane see it.
use trqsh.Prelude.{
  ℕ, ◌≡◌, ◌≢◌, refl, ap, ◌∙◌, String, Bool, false, some, ◌==◌, string_eq, arith, eq_iff, Bool-cases,
  Option-cases, inl, inr,
}
use trqsh.Prelude.Text.{before}
use trqsh.Authz.{BindRequest}
use trqsh.Store.State.{MemStore}
use trqsh.Store.Names.{is_subdomain_reserved}
use trqsh.Api.Entitlements.{Quota, authenticate, check_bind}
use trqsh.Api.Entitlements.Granted.{allowed_for, check_bind_lem}
use trqsh.Edge.Hub.{AgentSession}
use trqsh.Edge.Server.{EdgeConfig, Edge, bind_request, handle_bind}
use trqsh.Edge.Server.Denied.{handle_bind_denied}
use trqsh.Agent.{ActiveTunnel, bind_tunnel}
use trqsh.Agent.Session.{first_label, restored}

first_label_some : (host : String) → host ≢ "" → first_label host ≢ ""
unfolding first_label
first_label_some host n = elim (Option-cases (before 46 host)) [
  | inl e ↦ rw (e, first_label) n
  | inr (p, e) ↦
      rw (e, first_label)
        (elim (Bool-cases (p == "")) [
          | inl b ↦ rw b n
          | inr b ↦ rw b (λ z. ground (arith, eq_iff p ""))
        ])
]

restored_subdomain :
    (old : ActiveTunnel)
    → old.spec.subdomain ≡ ""
    → old.assigned_host ≢ ""
    → (restored old).subdomain ≡ first_label old.assigned_host
restored_subdomain old e n =
    ground (arith, eq_iff old.spec.subdomain "", eq_iff old.assigned_host "")

-- A subdomain that is asked for and not reserved is not granted.
unreserved_allowed :
    (quota : Quota) (account plan sub : String) (req : BindRequest) (m : MemStore)
    → req.subdomain ≡ sub
    → sub ≢ ""
    → is_subdomain_reserved account sub m ≡ false
    → allowed_for quota (some (account, plan)) req m ≡ false
unreserved_allowed quota account plan sub req m e n r =
    let r' : is_subdomain_reserved account req.subdomain m ≡ false =
      ap (λ x. is_subdomain_reserved account x m) e ∙ r in
    let n' : (req.subdomain == "") ≡ false = ap (λ x. x == "") e ∙ ground (arith, eq_iff sub "") in
    ground arith

-- A tunnel that was bound without a subdomain, and was given a host, is bound again for the first label
-- of that host. Unless the agent's account has reserved that label, the edge refuses, whatever the
-- tunnel's type and its custom domain, and stays as it is: the tunnel is not restored.
pub restored-handle_bind :
    (quota : Quota) (random : String) (verify_key : String → String → Bool) (cfg : EdgeConfig)
    (now now' : ℕ) (listen : String → ℕ → Bool) (draw : ℕ → String) (a : AgentSession)
    (id account plan : String) (old : ActiveTunnel) (m : MemStore) (s : Edge)
    → old.spec.subdomain ≡ ""
    → old.assigned_host ≢ ""
    → (authenticate verify_key now a.api_key m).0 ≡ some (account, plan)
    → is_subdomain_reserved account
        (first_label old.assigned_host)
        (authenticate verify_key now a.api_key m).1
      ≡ false
    → let (resp, s') =
        handle_bind cfg now' listen draw
          (λ req. some (check_bind quota random verify_key now req m).0)
          a
          (bind_tunnel id (restored old))
          s in
      resp.ok ≡ false × s' ≡ s
restored-handle_bind quota random verify_key cfg now now' listen draw a id account plan old m s e n
      w r =
    let req = bind_request cfg a (bind_tunnel id (restored old)) in
    let m' = (authenticate verify_key now a.api_key m).1 in
    let allow =
      (check_bind_lem quota random verify_key now req m).0
      ∙ ap (λ o. allowed_for quota o req m') w
      ∙ unreserved_allowed quota account plan (first_label old.assigned_host) req m'
          (restored_subdomain old e n) (first_label_some old.assigned_host n) r in
    handle_bind_denied cfg now' listen draw
      (λ q. some (check_bind quota random verify_key now q m).0) a (bind_tunnel id (restored old))
      (check_bind quota random verify_key now req m).0 s refl allow
