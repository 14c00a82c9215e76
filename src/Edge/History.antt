-- ===== src/Edge/History.antt =====
-- The histories of one edge: the handlers of internal/server in any order, from an empty edge.
pub mod Ports
use trqsh.Prelude.{ℕ, ◌<◌, String, Bool, Option, string_eq}
use trqsh.Prelude.Dict.{empty}
use trqsh.Authz.{BindRequest, Decision}
use trqsh.Edge.Registry.{new_registry}
use trqsh.Edge.Ports.{new_port_manager}
use trqsh.Edge.Hub.{AgentSession, new_hub}
use trqsh.Edge.Server.{
  Edge, EdgeConfig, BindTunnel, open_session, handle_bind, handle_unbind, teardown_session,
}

unfoldable pub new_edge : ℕ → ℕ → Edge
unfolding new_hub new_port_manager new_registry
new_edge min max = record {
  hub = new_hub;
  ports = new_port_manager min max;
  reg = new_registry;
  tunnels = empty;
}

-- Nothing is assumed of what the clock, the system, the random draws and the control plane answer.
pub data Step (cfg : EdgeConfig) (s : Edge) : Edge → Type 0 where
  opens : (a : AgentSession) → Step cfg s (open_session a s)
  binds :
      (now : ℕ) (listen : String → ℕ → Bool) (draw : ℕ → String)
      (check_bind : BindRequest → Option Decision) (a : AgentSession) (b : BindTunnel)
      → Step cfg s (handle_bind cfg now listen draw check_bind a b s).1
  unbinds :
      (a : AgentSession) (client_tunnel_id : String)
      → Step cfg s (handle_unbind a client_tunnel_id s)
  tears_down : (a : AgentSession) → Step cfg s (teardown_session a s)

pub data Reach (cfg : EdgeConfig) (min max : ℕ) : Edge → Type 0 where
  begins : Reach cfg min max (new_edge min max)
  then_step : (s s' : Edge) → Reach cfg min max s → Step cfg s s' → Reach cfg min max s'
