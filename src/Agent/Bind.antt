-- ===== src/Agent/Bind.antt =====
-- Bind requests of internal/agent/session.go and the responses that reach them.
use trqsh.Prelude.{
  ℕ, ◌≡◌, refl, ap, ◌∙◌, String, Bool, true, false, not, Option, none, some, List, [], ◌∷◌, ◌++◌,
  find, if◌then◌else◌, ◌==◌, string_eq, arith, eq_iff, eq_refl, Bool-cases, inl, inr,
}
use trqsh.Prelude.Dict.{get, put, get-put, get-put_same, get-delete}
use trqsh.Edge.Server.{BindResp}
use trqsh.Agent.{
  Agent, ActiveTunnel, BindRun, TunnelSpec, Event, Envelope, AgentError, bind, bound, bind_failed,
  settled, deliver_bind, deliver_all, write_control, bind_env, bind_tunnel, active_tunnel, view,
  error_from_resp, emit, tunnel_event, Bound,
}

deliver_bind-tunnels : (br : BindResp) (s : Agent) → (deliver_bind br s).tunnels ≡ s.tunnels
unfolding deliver_bind
deliver_bind-tunnels br s = ground arith

deliver_all-tunnels : (brs : List BindResp) (s : Agent) → (deliver_all brs s).tunnels ≡ s.tunnels
deliver_all-tunnels [] s = refl
deliver_all-tunnels (br ∷ brs) s =
    deliver_all-tunnels brs (deliver_bind br s) ∙ deliver_bind-tunnels br s

emit-tunnels : (ev : Event) (s : Agent) → (emit ev s).tunnels ≡ s.tunnels
unfolding emit
emit-tunnels ev s = ground arith

-- A channel that has a response keeps it.
deliver_bind_full :
    (br first : BindResp) (id : String) (s : Agent)
    → get s.pending_binds id ≡ some (first ∷ [])
    → get (deliver_bind br s).pending_binds id ≡ some (first ∷ [])
unfolding deliver_bind
deliver_bind_full br first id s h =
    ground (
      arith,
      get-put s.pending_binds br.client_tunnel_id id (br ∷ []),
      eq_iff br.client_tunnel_id id,
    )

deliver_bind_first :
    (br : BindResp) (id : String) (s : Agent)
    → (br.client_tunnel_id == id) ≡ true
    → get s.pending_binds id ≡ some []
    → get (deliver_bind br s).pending_binds id ≡ some (br ∷ [])
unfolding deliver_bind
deliver_bind_first br id s e h =
    ground (
      arith,
      get-put s.pending_binds br.client_tunnel_id id (br ∷ []),
      eq_iff br.client_tunnel_id id,
    )

deliver_bind_other :
    (br : BindResp) (id : String) (s : Agent)
    → (br.client_tunnel_id == id) ≡ false
    → get s.pending_binds id ≡ some []
    → get (deliver_bind br s).pending_binds id ≡ some []
unfolding deliver_bind
deliver_bind_other br id s e h =
    ground (
      arith,
      get-put s.pending_binds br.client_tunnel_id id (br ∷ []),
      eq_iff br.client_tunnel_id id,
    )

deliver_all_full :
    (brs : List BindResp) (first : BindResp) (id : String) (s : Agent)
    → get s.pending_binds id ≡ some (first ∷ [])
    → get (deliver_all brs s).pending_binds id ≡ some (first ∷ [])
deliver_all_full [] first id s h = h
deliver_all_full (br ∷ brs) first id s h =
    deliver_all_full brs first id (deliver_bind br s) (deliver_bind_full br first id s h)

abbrev pub to_id : String → BindResp → Bool
to_id id br = br.client_tunnel_id == id

deliver_all_first :
    (brs : List BindResp) (first : BindResp) (id : String) (s : Agent)
    → get s.pending_binds id ≡ some []
    → find (to_id id) brs ≡ some first
    → get (deliver_all brs s).pending_binds id ≡ some (first ∷ [])
deliver_all_first [] first id s h f = absurd (ground arith)
deliver_all_first (br ∷ brs) first id s h f = elim (Bool-cases (br.client_tunnel_id == id)) [
  | inl e ↦
      let q : br ≡ first = ground arith in
      deliver_all_full brs first id (deliver_bind br s)
        (deliver_bind_first br id s e h ∙ ap (λ b. some (b ∷ [])) q)
  | inr e ↦
      let q : find (to_id id) brs ≡ some first = ground arith in
      deliver_all_first brs first id (deliver_bind br s) (deliver_bind_other br id s e h) q
]

write_control-sent :
    (f : Option AgentError) (env : Envelope) (s : Agent)
    → s.control ≡ true
    → f ≡ none
    → write_control f env s ≡ (none, record s { sent = s.sent ++ (env ∷ []) })
unfolding write_control
write_control-sent f env s c w = simp (c, w)

settled-tunnels :
    (now : ℕ) (id : String) (spec : TunnelSpec) (br : BindResp) (s : Agent)
    → let t = active_tunnel now id spec br in
      (settled now id spec (inr br) s).0
        ≡ (if br.ok then bound (view t) else bind_failed (error_from_resp br.error))
      × (settled now id spec (inr br) s).1.tunnels
        ≡ (if br.ok then put s.tunnels id t else s.tunnels)
settled-tunnels now id spec br s = split br.ok (active_tunnel now id spec br)
  where
    split :
        (b : Bool) (t : ActiveTunnel)
        → let x : Bound × Agent = if not b then (bind_failed (error_from_resp br.error), s) else (
          bound (view t),
          emit (tunnel_event t) (record s { tunnels = put s.tunnels id t }),
        ) in
          x.0 ≡ (if b then bound (view t) else bind_failed (error_from_resp br.error))
          × x.1.tunnels ≡ (if b then put s.tunnels id t else s.tunnels)
    split true t = (refl, emit-tunnels _ _)
    split false t = (refl, refl)

-- A bind that has written its request, and does not give up first, takes the first response that names
-- its identifier, whatever others come: a response that is ok makes the tunnel, with that response's
-- address, and any other is the error; no other tunnel changes. The identifier is then awaited no more.
pub bind_lem :
    (run : BindRun) (now : ℕ) (spec : TunnelSpec) (br : BindResp) (s : Agent)
    → s.control ≡ true
    → run.write_failed ≡ none
    → run.gave_up ≡ none
    → find (to_id run.client_tunnel_id) run.arrived ≡ some br
    → let (r, s') = bind run now spec s in
      let t = active_tunnel now run.client_tunnel_id spec br in
      r ≡ (if br.ok then bound (view t) else bind_failed (error_from_resp br.error))
      × s'.tunnels ≡ (if br.ok then put s.tunnels run.client_tunnel_id t else s.tunnels)
      × get s'.pending_binds run.client_tunnel_id ≡ none
unfolding bind
bind_lem run now spec br s c w g f =
    let id = run.client_tunnel_id in
    let env = bind_env (bind_tunnel id spec) in
    let s0 : Agent = record s { pending_binds = put s.pending_binds id [] } in
    let s1 : Agent = record s0 { sent = s.sent ++ (env ∷ []) } in
    let s2 = deliver_all run.arrived s1 in
    let wrote = write_control-sent run.write_failed env s0 c w in
    let got = deliver_all_first run.arrived br id s1 (get-put_same s.pending_binds id []) f in
    let (a, b) = settled-tunnels now id spec br s2 in
    let t = active_tunnel now id spec br in
    let same : s2.tunnels ≡ s.tunnels = deliver_all-tunnels run.arrived s1 in
    rw (ap (λ x. x.0) wrote) (
      rw (ap (λ x. x.1) wrote) (
        rw g (
          rw got (
            a,
            b ∙ ap (λ d. if br.ok then put d id t else d) same,
            ground (
              arith,
              get-delete (settled now id spec (inr br) s2).1.pending_binds id id,
              eq_refl id,
            ),
          ))))
