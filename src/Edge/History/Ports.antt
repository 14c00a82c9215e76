-- ===== src/Edge/History/Ports.antt =====
-- Public ports over every history of an edge.
use trqsh.Prelude.{ℕ, ◌<◌, ◌≡◌, refl}
use trqsh.Prelude.Dict.{empty, get}
use trqsh.Edge.Routes.{port_key_eq}
use trqsh.Edge.Ports.{marked, new_port_manager}
use trqsh.Edge.Hub.{new_hub, lookup_port}
use trqsh.Edge.Server.{Edge, EdgeConfig}
use trqsh.Edge.Server.Agree.{held}
use trqsh.Edge.Server.Sound.{
  IsSound, handle_bind-IsSound, handle_unbind-IsSound, teardown_session-IsSound,
  open_session-IsSound,
}
use trqsh.Edge.History.{Step, opens, binds, unbinds, tears_down, Reach, begins, then_step, new_edge}

new_edge-IsSound : (min max : ℕ) → 0 < min → IsSound (new_edge min max)
unfolding new_edge new_hub new_port_manager empty get
new_edge-IsSound min max h = record {
  agree = record {
    from_one = h;
    tcp_used = λ p. refl;
    tcp_open = λ p. refl;
    udp_used = λ p. refl;
    udp_open = λ p. refl;
  };
  tracked = tt;
}

Step-IsSound : (cfg : EdgeConfig) (s s' : Edge) → Step cfg s s' → IsSound s → IsSound s'
Step-IsSound cfg s _ (opens a) v = open_session-IsSound a s v
Step-IsSound cfg s _ (binds now listen draw check_bind a b) v =
    handle_bind-IsSound cfg now listen draw a b s v check_bind
Step-IsSound cfg s _ (unbinds a id) v = handle_unbind-IsSound a s v id
Step-IsSound cfg s _ (tears_down a) v = teardown_session-IsSound a s v

module _ (cfg : EdgeConfig) (min max : ℕ) (h : 0 < min) where
  history-IsSound : (s : Edge) → Reach cfg min max s → IsSound s
  history-IsSound _ begins = new_edge-IsSound min max h
  history-IsSound s' (then_step s _ r p) = Step-IsSound cfg s s' p (history-IsSound s r)

  -- After any history of handlers on a pool that starts above port 0, each TCP and each UDP port is
  -- reserved exactly when the hub routes it, and has a listener exactly when it is reserved.
  pub ports_agree :
      (s : Edge)
      → Reach cfg min max s
      → (p : ℕ)
      → marked s.ports.used_tcp p ≡ held (lookup_port "tcp" p s.hub)
        × marked s.ports.tcp p ≡ marked s.ports.used_tcp p
        × marked s.ports.used_udp p ≡ held (lookup_port "udp" p s.hub)
        × marked s.ports.udp p ≡ marked s.ports.used_udp p
  ports_agree s r p =
      let v = (history-IsSound s r).agree in
      (v.tcp_used p, v.tcp_open p, v.udp_used p, v.udp_open p)
