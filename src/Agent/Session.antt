-- ===== src/Agent/Session.antt =====
-- The loops of internal/agent: the control stream's reader in session.go, and reconnect.go. A loop
-- takes a list of what happens in its turns.
pub mod Down
use trqsh.Prelude.{
  ℕ, suc, ◌+◌, ◌*◌, ◌/◌, ◌^◌, String, Bool, true, false, not, Option, none, some, List, [], ◌∷◌,
  map, ltb, if◌then◌else◌, ◌==◌, string_eq, nat_eq,
}
use trqsh.Prelude.Text.{◌<>◌, before}
use trqsh.Prelude.Dict.{delete}
use trqsh.Edge.Server.{BindResp}
use trqsh.Agent.{
  Agent, ActiveTunnel, TunnelSpec, AgentError, Handshake, BindRun, Bound, bound, bind_failed,
  pong_env, connect, bind, deliver_bind, write_control, emit, error_event, handle_session_down,
}

-- What the reader of the control stream gets; an envelope of any other kind is ignored.
pub data ControlMsg : Type 0 where
  bind_resp : BindResp → ControlMsg
  ping : ℕ → ControlMsg
  pong other : ControlMsg
  draining : ControlMsg
  error_msg : String → ControlMsg
  read_failed : ControlMsg

-- One turn of controlLoop; `failed` is the error of writing an answer. A session that is down gives
-- the tunnels to bind again, where it starts a reconnection.
unfoldable pub control_turn :
    Option AgentError → ℕ → ControlMsg → Agent → Option (List ActiveTunnel) × Agent
control_turn failed gen (bind_resp br) s = (none, deliver_bind br s)
control_turn failed gen (ping ts) s = (none, (write_control failed (pong_env ts) s).1)
control_turn failed gen pong s = (none, s)
control_turn failed gen other s = (none, s)
control_turn failed gen draining s =
    handle_session_down gen (emit (error_event "edge draining; reconnecting") s)
control_turn failed gen (error_msg msg) s = (none, emit (error_event msg) s)
control_turn failed gen read_failed s = handle_session_down gen s

-- IndexByte finds a dot that is not the first character.
unfoldable pub first_label : String → String
first_label host = elim (before 46 host) [ none ↦ host | some p ↦ if p == "" then host else p ]

-- The spec of a tunnel that is bound again.
abbrev pub restored : ActiveTunnel → TunnelSpec
restored old = record old.spec {
  subdomain =
      if old.spec.subdomain == ""
      then if old.assigned_host == "" then old.spec.subdomain else first_label old.assigned_host
      else old.spec.subdomain;
  remote_port =
      if old.spec.remote_port == 0
      then if old.assigned_port == 0 then old.spec.remote_port else old.assigned_port
      else old.spec.remote_port;
}

-- The text of an Error.
abbrev pub error_text : AgentError → String
error_text (code, msg) = if msg == "" then code else code <> ": " <> msg

abbrev pub rebound : ActiveTunnel → Bound × Agent → Agent
rebound old (bound t, s) = s
rebound old (bind_failed e, s) =
    emit (error_event ("re-bind " <> old.spec.name <> ": " <> error_text e)) s

-- Each tunnel with the surroundings of its bind.
unfoldable pub rebind_all : ℕ → List (ActiveTunnel × BindRun) → Agent → Agent
rebind_all now [] s = s
rebind_all now ((old, run) ∷ rest) s = rebind_all now rest (
    rebound old
      (bind run now (restored old) (record s { tunnels = delete s.tunnels old.client_tunnel_id })))

-- 500 * time.Millisecond and 30 * time.Second
abbrev pub reconnect_base : ℕ
reconnect_base = 500 * 10 ^ 6

abbrev pub reconnect_max : ℕ
reconnect_max = 30 * 10 ^ 9

-- One turn of the loop: what other calls do before it, whether the context is done, how the handshake
-- goes, the jitter that is drawn, and whether the context ends during the sleep.
pub record Turn : Type 0 where
  pub meanwhile : Agent → Agent
  pub cancelled : Bool
  pub handshake : Handshake
  pub jitter : ℕ
  pub cancelled_asleep : Bool

pub data Ending : Type 0 where
  stopped reconnected unfinished : Ending

abbrev pub slept : ℕ → ℕ → ℕ
slept backoff jitter =
    let sleep = backoff + jitter in if ltb reconnect_max sleep then reconnect_max else sleep

abbrev pub next_backoff : ℕ → ℕ
next_backoff backoff = if ltb backoff reconnect_max then backoff * 2 else backoff

abbrev pub after_sleep : ℕ → Ending × (List ℕ × Agent) → Ending × (List ℕ × Agent)
after_sleep sleep (e, (sleeps, s)) = (e, (sleep ∷ sleeps, s))

module _ (now : ℕ) (prev : List (ActiveTunnel × BindRun)) where
  -- How the loop ends, how long it slept each time, and the agent; `unfinished` where the turns end.
  unfoldable pub reconnect : List Turn → ℕ → Agent → Ending × (List ℕ × Agent)
  reconnect [] backoff s = (unfinished, ([], s))
  reconnect (t ∷ ts) backoff s =
      let s1 = t.meanwhile s in
      let (e, s2) = connect t.handshake s1 in
      let sleep = slept backoff t.jitter in
      let rest = reconnect ts (next_backoff backoff) s2 in
      if t.cancelled
      then (stopped, ([], s1))
      else if s1.closed
      then (stopped, ([], s1))
      else elim e [
        | none ↦ (reconnected, ([], rebind_all now prev s2))
        | some _ ↦
            if t.cancelled_asleep then (stopped, (sleep ∷ [], s2)) else after_sleep sleep rest
      ]
