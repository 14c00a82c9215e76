-- ===== src/Agent/Session/Down.antt =====
-- A lost session of internal/agent is reported by both of its readers, and reconnected once.
use trqsh.Prelude.{
  ℕ, ◌+◌, ◌≤◌, String, Bool, Option, none, some, List, [], ◌∷◌, if◌then◌else◌, nat_eq,
}
use trqsh.Prelude.{string_eq}
use trqsh.Agent.{
  Agent, ActiveTunnel, AgentError, Handshake, BindRun, TunnelSpec, connect, bind, stop_tunnel,
  shutdown, handle_session_down, auth_ok,
}
use trqsh.Agent.Session.{ControlMsg, control_turn}

-- What the agent's goroutines and callers do; accept_failed is the end of acceptLoop.
pub data Step : Type 0 where
  accept_failed : ℕ → Step
  control : Option AgentError → ℕ → ControlMsg → Step
  connects : Handshake → Step
  binds : BindRun → ℕ → TunnelSpec → Step
  stops : Option AgentError → String → Step
  shuts_down : Step

abbrev pub step : Step → Agent → Option (List ActiveTunnel) × Agent
step (accept_failed gen) s = handle_session_down gen s
step (control failed gen msg) s = control_turn failed gen msg s
step (connects h) s = (none, (connect h s).1)
step (binds run now spec) s = (none, (bind run now spec s).1)
step (stops failed id) s = (none, (stop_tunnel failed id s).1)
step shuts_down s = (none, shutdown s)

abbrev pub one_if_some : {A : Type 0} → Option A → ℕ
one_if_some none = 0
one_if_some (some a) = 1

abbrev pub one_if : Bool → ℕ
one_if b = if b then 1 else 0

-- Whether a step connects.
abbrev pub connected_by : Step → ℕ
connected_by (connects (auth_ok a p k)) = 1
connected_by st = 0

-- How often a reconnection is started, and how often the agent connects.
abbrev pub reconnections : List Step → Agent → ℕ
reconnections [] s = 0
reconnections (st ∷ sts) s = one_if_some (step st s).0 + reconnections sts (step st s).1

abbrev pub connections : List Step → ℕ
connections [] = 0
connections (st ∷ sts) = connected_by st + connections sts

abbrev Counted : Step → Agent → Type 0
Counted st s =
    one_if_some (step st s).0 + one_if (step st s).1.connected
    ≤ connected_by st + one_if s.connected
