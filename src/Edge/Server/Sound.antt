-- ===== src/Edge/Server/Sound.antt =====
-- Every handler of internal/server keeps pool, hub and listeners in agreement.
use trqsh.Prelude.{
  ℕ, String, ◌≡◌, refl, ◌⊎◌, inl, inr, Bool, false, Option, none, some, arith, ◌==◌, string_eq,
  nat_eq, Bool-cases, Option-cases, List, [], ◌∷◌, map, ◌∙◌, ap, eq_refl, if◌then◌else◌,
}
use trqsh.Prelude.Dict.{
  Dict, get, delete, get-put, empty, AllValues, All, AllValues-put, AllValues-delete, AllValues-get,
  values,
}
use trqsh.Prelude.Text.{◌<>◌}
use trqsh.Authz.{BindRequest, Decision}
use trqsh.Edge.Routes.{TunnelType, tcp, udp, port_key_eq, proto_for_type}
use trqsh.Edge.Ports.{
  PortManager, OpenResult, opened, port_unavailable, listen_failed, open_port, release,
}
use trqsh.Edge.Ports.Reserve.{reserve_lem}
use trqsh.Edge.Hub.{
  BoundTunnel, AgentSession, free_for, bind_port, unbind_tunnel, bind_host, key_of, remove_session,
  unbind_all,
}
use trqsh.Edge.Server.{
  Edge, EdgeConfig, BindTunnel, tunnels_of, handle_bind, decided, by_type, bind_host_tunnel,
  host_allocated, host_bound, bind_port_tunnel, port_opened, port_bound, release_tunnel,
  handle_unbind, unbound, release_all, teardown_session, open_session, set_tunnels, Allocation,
  allocated, refused, new_tunnel, track_tunnel,
}
use trqsh.Edge.Server.Agree.{Agree, Opening, listened-tcp, listened-udp, release-tcp, release-udp}

abbrev IsPortType : TunnelType → Type 0
IsPortType t = t ≡ tcp ⊎ t ≡ udp

-- A tunnel with a port is of a type that has one.
abbrev Typed : BoundTunnel → Type 0
Typed bt = bt.port ≡ 0 ⊎ IsPortType bt.ttype

pub record IsSound (s : Edge) : Type 0 where
  pub agree : Agree s.hub.by_port s.ports
  pub tracked : AllValues (AllValues Typed) s.tunnels

tunnels_of-Typed :
    (s : Edge) (session : String) → IsSound s → AllValues Typed (tunnels_of session s)
unfolding empty
tunnels_of-Typed s session v = elim (Option-cases (get s.tunnels session)) [
  | inl e ↦ rw e tt
  | inr (d, e) ↦ rw e (AllValues-get (AllValues Typed) s.tunnels session d v.tracked e)
]

track_tunnel-tracked :
    (bt : BoundTunnel) (s : Edge)
    → Typed bt
    → IsSound s
    → AllValues (AllValues Typed) (track_tunnel bt s).tunnels
track_tunnel-tracked bt s t v =
    AllValues-put (AllValues Typed) s.tunnels bt.session _
      (AllValues-put Typed (tunnels_of bt.session s) bt.client_tunnel_id bt t
        (tunnels_of-Typed s bt.session v))
      v.tracked

module _ (cfg : EdgeConfig) (now : ℕ) (b : BindTunnel) (bt : BoundTunnel) (s : Edge)
    (v : IsSound s) where
  host_bound-IsSound :
      (host url : String)
      → bt.port ≡ 0
      → let bt' = record bt { host = host; public_url = url; started_at = now } in
        IsSound (host_bound cfg now b bt' (bind_host bt' s.hub) s).1
  unfolding host_bound bind_host
  host_bound-IsSound host url e =
      let bt' = record bt { host = host; public_url = url; started_at = now } in
      elim (Bool-cases (free_for bt.session (get s.hub.by_host host))) [
        | inl f ↦ rw f (record { agree = v.agree; tracked = track_tunnel-tracked bt' s (inl e) v })
        | inr f ↦ rw f v
      ]

  host_allocated-IsSound :
      (al : Allocation) → bt.port ≡ 0 → IsSound (host_allocated cfg now b bt al s).1
  unfolding host_allocated
  host_allocated-IsSound (refused code) e = v
  host_allocated-IsSound (allocated host) e = host_bound-IsSound host ("https://" <> host) e

  port_opened-IsSound :
      (r : OpenResult × PortManager)
      → IsPortType bt.ttype
      → Opening s.hub.by_port s.ports v.agree (proto_for_type bt.ttype) r
      → IsSound (port_opened cfg now b bt r s).1
  unfolding port_opened port_bound bind_port
  port_opened-IsSound (port_unavailable, pm) t o = record { agree = o; tracked = v.tracked }
  port_opened-IsSound (listen_failed, pm) t o = record { agree = o; tracked = v.tracked }
  port_opened-IsSound (opened p, pm) t (_, e, o) =
      rw e (record { agree = o _; tracked = track_tunnel-tracked _ s (inr t) v })

  opening :
      (listen : String → ℕ → Bool) (want : ℕ) (t : TunnelType)
      → IsPortType t
      → Opening s.hub.by_port s.ports v.agree
          (proto_for_type t)
          (open_port listen (proto_for_type t) want s.ports)
  unfolding open_port proto_for_type
  opening listen want t (inl e) =
      rw e
        (listened-tcp s.hub.by_port s.ports v.agree listen want _ (reserve_lem "tcp" want s.ports))
  opening listen want t (inr e) =
      rw e
        (listened-udp s.hub.by_port s.ports v.agree listen want _ (reserve_lem "udp" want s.ports))

  bind_port_tunnel-IsSound :
      (listen : String → ℕ → Bool)
      → IsPortType bt.ttype
      → IsSound (bind_port_tunnel cfg now listen b bt s).1
  unfolding bind_port_tunnel
  bind_port_tunnel-IsSound listen t =
      port_opened-IsSound _ t (opening listen b.remote_port bt.ttype t)

module _ (cfg : EdgeConfig) (now : ℕ) (listen : String → ℕ → Bool) (draw : ℕ → String)
    (a : AgentSession) (b : BindTunnel) (s : Edge) (v : IsSound s) where
  by_type-IsSound :
      (dec : Decision) (t : TunnelType)
      → b.type ≡ t
      → IsSound (by_type cfg now listen draw a b dec t s).1
  unfolding by_type bind_host_tunnel
  by_type-IsSound dec tcp e = elim (Bool-cases dec.limits.allow_tcp) [
    | inl f ↦ rw f (bind_port_tunnel-IsSound cfg now b (new_tunnel cfg a b dec) s v listen (inl e))
    | inr f ↦ rw f v
  ]
  by_type-IsSound dec udp e = elim (Bool-cases dec.limits.allow_udp) [
    | inl f ↦ rw f (bind_port_tunnel-IsSound cfg now b (new_tunnel cfg a b dec) s v listen (inr e))
    | inr f ↦ rw f v
  ]
  by_type-IsSound dec TunnelType.http e =
      host_allocated-IsSound cfg now b (new_tunnel cfg a b dec) s v _ refl
  by_type-IsSound dec TunnelType.https e =
      host_allocated-IsSound cfg now b (new_tunnel cfg a b dec) s v _ refl
  by_type-IsSound dec TunnelType.tls e =
      host_allocated-IsSound cfg now b (new_tunnel cfg a b dec) s v _ refl

  decided-IsSound : (dec : Option Decision) → IsSound (decided cfg now listen draw a b dec s).1
  unfolding decided
  decided-IsSound none = v
  decided-IsSound (some dec) = elim (Bool-cases dec.allow) [
    | inl e ↦ simp e (by_type-IsSound dec b.type refl)
    | inr e ↦ rw e v
  ]

  pub handle_bind-IsSound :
      (check_bind : BindRequest → Option Decision)
      → IsSound (handle_bind cfg now listen draw check_bind a b s).1
  unfolding handle_bind
  handle_bind-IsSound check_bind = decided-IsSound _

-- Releasing a tunnel, whatever its host and wherever it is tracked.
release_tunnel-IsSound :
    (bt : BoundTunnel) (s : Edge) → Typed bt → IsSound s → IsSound (release_tunnel bt s)
unfolding release_tunnel unbind_tunnel proto_for_type
release_tunnel-IsSound bt s t v = elim (Bool-cases (bt.port == 0)) [
  | inl e ↦ rw e (record { agree = v.agree; tracked = v.tracked })
  | inr e ↦ rw e (record { agree = released (port_typed e t); tracked = v.tracked })
]
  where
    port_typed : (bt.port == 0) ≡ false → Typed bt → IsPortType bt.ttype
    port_typed e (inl z) = absurd (ground arith)
    port_typed e (inr t) = t

    released :
        IsPortType bt.ttype
        → Agree
            (delete s.hub.by_port (key_of bt))
            (release (proto_for_type bt.ttype) bt.port s.ports)
    released (inl e) = rw e (release-tcp s.hub.by_port s.ports v.agree bt.port)
    released (inr e) = rw e (release-udp s.hub.by_port s.ports v.agree bt.port)

release_all-IsSound :
    (m : List (String × BoundTunnel)) (s : Edge)
    → All Typed m
    → IsSound s
    → IsSound (release_all (map (λ p. p.1) m) s)
unfolding release_all
release_all-IsSound [] s t v = v
release_all-IsSound ((k, bt) ∷ m) s (t, ts) v =
    release_all-IsSound m (release_tunnel bt s) ts (release_tunnel-IsSound bt s t v)

release_all-tunnels : (bts : List BoundTunnel) (s : Edge) → (release_all bts s).tunnels ≡ s.tunnels
unfolding release_all release_tunnel
release_all-tunnels [] s = refl
release_all-tunnels (bt ∷ bts) s = release_all-tunnels bts (release_tunnel bt s)

set_tunnels-IsSound :
    (session : String) (d : Dict String BoundTunnel) (s : Edge)
    → AllValues Typed d
    → IsSound s
    → IsSound (set_tunnels session d s)
set_tunnels-IsSound session d s t v = record {
  agree = v.agree;
  tracked = AllValues-put (AllValues Typed) s.tunnels session d t v.tracked;
}

unbound-IsSound :
    (o : Option BoundTunnel) (s : Edge)
    → ((bt : BoundTunnel) → o ≡ some bt → Typed bt)
    → IsSound s
    → IsSound (unbound o s)
unfolding unbound
unbound-IsSound none s t v = v
unbound-IsSound (some bt) s t v = release_tunnel-IsSound bt s (t bt refl) v

module _ (a : AgentSession) (s : Edge) (v : IsSound s) where
  pub open_session-IsSound : IsSound (open_session a s)
  unfolding open_session empty
  open_session-IsSound = record {
    agree = v.agree;
    tracked = AllValues-put (AllValues Typed) s.tunnels a.session_id empty tt v.tracked;
  }

  pub handle_unbind-IsSound : (id : String) → IsSound (handle_unbind a id s)
  unfolding handle_unbind
  handle_unbind-IsSound id =
      let d = tunnels_of a.session_id s in
      let t = tunnels_of-Typed s a.session_id v in
      let v' = set_tunnels-IsSound a.session_id (delete d id) s (AllValues-delete Typed d id t) v in
      unbound-IsSound (get d id) _ (λ bt. AllValues-get Typed d id bt t) v'

  pub teardown_session-IsSound : IsSound (teardown_session a s)
  unfolding teardown_session remove_session unbind_all empty
  teardown_session-IsSound =
      let d = tunnels_of a.session_id s in
      let s0 = set_tunnels a.session_id empty s in
      let s1 = release_all (values d) s0 in
      let v0 = set_tunnels-IsSound a.session_id empty s tt v in
      let v1 = release_all-IsSound d.entries s0 (tunnels_of-Typed s a.session_id v) v0 in
      let e : get s1.tunnels a.session_id ≡ some empty =
        ap (λ t. get t a.session_id) (release_all-tunnels (values d) s0)
        ∙ get-put s.tunnels a.session_id a.session_id empty
        ∙ ap (λ c. if c then some empty else get s.tunnels a.session_id) (eq_refl a.session_id) in
      rw e (record { agree = v1.agree; tracked = v1.tracked })
