-- ===== src/Edge/Server/Denied.antt =====
-- handleBind of internal/server/server.go where the control plane does not allow the bind.
use trqsh.Prelude.{ℕ, ◌≡◌, refl, String, Bool, false, Option, some}
use trqsh.Authz.{BindRequest, Decision}
use trqsh.Edge.Hub.{AgentSession}
use trqsh.Edge.Server.{EdgeConfig, Edge, BindTunnel, bind_request, handle_bind, decided}

pub handle_bind_denied :
    (cfg : EdgeConfig) (now : ℕ) (listen : String → ℕ → Bool) (draw : ℕ → String)
    (check : BindRequest → Option Decision) (a : AgentSession) (b : BindTunnel) (dec : Decision)
    (s : Edge)
    → check (bind_request cfg a b) ≡ some dec
    → dec.allow ≡ false
    → (handle_bind cfg now listen draw check a b s).0.ok ≡ false
      × (handle_bind cfg now listen draw check a b s).1 ≡ s
unfolding handle_bind decided
handle_bind_denied cfg now listen draw check a b dec s e d = rw e (rw d (refl, refl))
