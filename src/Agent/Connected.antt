-- ===== src/Agent/Connected.antt =====
-- Which steps of internal/agent leave the agent connected, or not, as it was.
use trqsh.Prelude.{
  ℕ, ◌≡◌, ◌⊎◌, refl, ◌∙◌, String, true, Option, none, List, [], ◌∷◌, string_eq, arith, Bool-cases,
  Option-cases, inl, inr,
}
use trqsh.Prelude.Dict.{put}
use trqsh.Edge.Server.{BindResp}
use trqsh.Agent.{
  Agent, ActiveTunnel, BindRun, AgentError, TunnelSpec, Envelope, Event, Handshake, auth_ok,
  connect, emit, bind, bound, bind_failed, Bound, settled, deliver_bind, deliver_all, write_control,
  bind_env, bind_tunnel,
}
use trqsh.Agent.Session.{rebind_all, rebound, restored}

pub emit-connected : (ev : Event) (s : Agent) → (emit ev s).connected ≡ s.connected
unfolding emit
emit-connected ev s = ground arith

emit-closed : (ev : Event) (s : Agent) → (emit ev s).closed ≡ s.closed
unfolding emit
emit-closed ev s = ground arith

-- A connection attempt neither shuts the agent down nor opens it again.
pub connect-closed : (h : Handshake) (s : Agent) → (connect h s).1.closed ≡ s.closed
unfolding connect
connect-closed (auth_ok a p k) s = emit-closed _ _
connect-closed (Handshake.unreachable m) s = refl
connect-closed (Handshake.no_control m) s = refl
connect-closed (Handshake.hello_failed m) s = refl
connect-closed (Handshake.no_answer m) s = refl
connect-closed Handshake.not_auth_resp s = refl
connect-closed (Handshake.auth_denied m) s = refl

pub connect-connected :
    (h : Handshake) (s : Agent) → (connect h s).0 ≡ none → (connect h s).1.connected ≡ true
unfolding connect
connect-connected (auth_ok a p k) s e = emit-connected _ _
connect-connected (Handshake.unreachable m) s e = absurd (ground arith)
connect-connected (Handshake.no_control m) s e = absurd (ground arith)
connect-connected (Handshake.hello_failed m) s e = absurd (ground arith)
connect-connected (Handshake.no_answer m) s e = absurd (ground arith)
connect-connected Handshake.not_auth_resp s e = absurd (ground arith)
connect-connected (Handshake.auth_denied m) s e = absurd (ground arith)

pub write_control-connected :
    (f : Option AgentError) (env : Envelope) (s : Agent)
    → (write_control f env s).1.connected ≡ s.connected
unfolding write_control
write_control-connected f env s = ground arith

pub deliver_bind-connected :
    (br : BindResp) (s : Agent) → (deliver_bind br s).connected ≡ s.connected
unfolding deliver_bind
deliver_bind-connected br s = ground arith

pub settled-connected :
    (now : ℕ) (id : String) (spec : TunnelSpec) (r : AgentError ⊎ BindResp) (s : Agent)
    → (settled now id spec r s).1.connected ≡ s.connected
settled-connected now id spec (inl e) s = refl
settled-connected now id spec (inr br) s = elim (Bool-cases br.ok) [
  | inl e ↦ rw e (emit-connected _ _)
  | inr e ↦ rw e refl
]

pub deliver_all-connected :
    (brs : List BindResp) (s : Agent) → (deliver_all brs s).connected ≡ s.connected
deliver_all-connected [] s = refl
deliver_all-connected (br ∷ brs) s =
    deliver_all-connected brs (deliver_bind br s) ∙ deliver_bind-connected br s

pub bind-connected :
    (run : BindRun) (now : ℕ) (spec : TunnelSpec) (s : Agent)
    → (bind run now spec s).1.connected ≡ s.connected
unfolding bind
bind-connected run now spec s =
    let id = run.client_tunnel_id in
    let (e, s1) =
      write_control run.write_failed (bind_env (bind_tunnel id spec))
        (record s { pending_binds = put s.pending_binds id [] }) in
    let c =
      write_control-connected run.write_failed (bind_env (bind_tunnel id spec))
        (record s { pending_binds = put s.pending_binds id [] }) in
    elim (Option-cases e) [
      | inl n ↦ rw n (settled-connected now id spec _ _ ∙ deliver_all-connected run.arrived s1 ∙ c)
      | inr (err, n) ↦ rw n c
    ]

pub rebound-connected :
    (old : ActiveTunnel) (x : Bound × Agent) → (rebound old x).connected ≡ x.1.connected
rebound-connected old (bound t, s) = refl
rebound-connected old (bind_failed e, s) = emit-connected _ s

pub rebind_all-connected :
    (now : ℕ) (prev : List (ActiveTunnel × BindRun)) (s : Agent)
    → (rebind_all now prev s).connected ≡ s.connected
unfolding rebind_all
rebind_all-connected now [] s = refl
rebind_all-connected now ((old, run) ∷ rest) s =
    rebind_all-connected now rest _
    ∙ rebound-connected old _
    ∙ bind-connected run now (restored old) _
