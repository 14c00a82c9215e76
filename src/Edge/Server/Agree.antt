-- ===== src/Edge/Server/Agree.antt =====
-- The public ports of internal/server: the pool, the hub's table and the open listeners agree.
use trqsh.Prelude.{
  ℕ, ◌<◌, String, ◌≡◌, inl, inr, Bool, true, false, Option, none, some, arith, string_eq, nat_eq,
  Bool-cases, sym, subst,
}
use trqsh.Prelude.Dict.{Dict, get, put, delete, get-put, get-delete}
use trqsh.Edge.Routes.{PortKey, port_key_eq}
use trqsh.Edge.Ports.{
  PortManager, OpenResult, opened, port_unavailable, listen_failed, marked, release, set_tcp,
  set_udp, listened,
}
use trqsh.Edge.Ports.Reserve.{Outcome}
use trqsh.Edge.Hub.{BoundTunnel}

abbrev pub held : Option BoundTunnel → Bool
held none = false
held (some _) = true

abbrev pub port_key : String → ℕ → PortKey
port_key proto port = record { proto = proto; port = port }

-- On each port: the pool marks it, the hub routes it and a listener is open, all or none.
pub record Agree (d : Dict PortKey BoundTunnel) (pm : PortManager) : Type 0 where
  pub from_one : 0 < pm.min
  pub tcp_used : (p : ℕ) → marked pm.used_tcp p ≡ held (get d (port_key "tcp" p))
  pub tcp_open : (p : ℕ) → marked pm.tcp p ≡ marked pm.used_tcp p
  pub udp_used : (p : ℕ) → marked pm.used_udp p ≡ held (get d (port_key "udp" p))
  pub udp_open : (p : ℕ) → marked pm.udp p ≡ marked pm.used_udp p

module _ (d : Dict PortKey BoundTunnel) (pm : PortManager) (v : Agree d pm) where
  pub release-tcp : (p : ℕ) → Agree (delete d (port_key "tcp" p)) (release "tcp" p pm)
  unfolding release
  release-tcp p = record {
    from_one = v.from_one;
    tcp_used = λ q. ground (
      arith,
      v.tcp_used q,
      get-delete pm.used_tcp p q,
      get-delete d (port_key "tcp" p) (port_key "tcp" q),
    );
    tcp_open = λ q. ground (arith, v.tcp_open q, get-delete pm.used_tcp p q, get-delete pm.tcp p q);
    udp_used =
        λ q. ground (arith, v.udp_used q, get-delete d (port_key "tcp" p) (port_key "udp" q));
    udp_open = v.udp_open;
  }

  pub release-udp : (p : ℕ) → Agree (delete d (port_key "udp" p)) (release "udp" p pm)
  unfolding release
  release-udp p = record {
    from_one = v.from_one;
    udp_used = λ q. ground (
      arith,
      v.udp_used q,
      get-delete pm.used_udp p q,
      get-delete d (port_key "udp" p) (port_key "udp" q),
    );
    udp_open = λ q. ground (arith, v.udp_open q, get-delete pm.used_udp p q, get-delete pm.udp p q);
    tcp_used =
        λ q. ground (arith, v.tcp_used q, get-delete d (port_key "udp" p) (port_key "tcp" q));
    tcp_open = v.tcp_open;
  }

  -- After a port is opened the hub has to enter it; a failure leaves the three in agreement.
  abbrev pub Opening : String → OpenResult × PortManager → Type 0
  Opening proto (opened p, pm') =
      0 < p
      × get d (port_key proto p) ≡ none
      × ((bt : BoundTunnel) → Agree (put d (port_key proto p) bt) pm')
  Opening proto (port_unavailable, pm') = Agree d pm'
  Opening proto (listen_failed, pm') = Agree d pm'

  pub listened-tcp :
      (listen : String → ℕ → Bool) (want : ℕ) (r : Option ℕ × PortManager)
      → Outcome "tcp" want pm r
      → Opening "tcp" (listened listen "tcp" r)
  unfolding release set_tcp
  listened-tcp listen want (none, pm') (e, _) = subst (Agree d) (sym e) v
  listened-tcp listen want (some p, pm') (_, a, b, c, (g, t, u, m, x)) =
      elim (Bool-cases (listen "tcp" p)) [
        | inl e ↦ rw e (
          ground (arith, v.from_one),
          ground (arith, v.tcp_used p),
          λ bt. record {
            from_one = ground (arith, v.from_one);
            tcp_used = λ q.
                ground
                  (arith, g q, v.tcp_used q, get-put d (port_key "tcp" p) (port_key "tcp" q) bt);
            tcp_open = λ q. ground (arith, g q, t, v.tcp_open q, get-put pm'.tcp p q true);
            udp_used = λ q.
                ground
                  (arith, g q, v.udp_used q, get-put d (port_key "tcp" p) (port_key "udp" q) bt);
            udp_open = λ q. ground (arith, g q, u, v.udp_open q);
          },
        )
        | inr e ↦ rw e (record {
          from_one = ground (arith, v.from_one);
          tcp_used = λ q. ground (arith, g q, v.tcp_used q, get-delete pm'.used_tcp p q);
          tcp_open = λ q.
              ground
                (arith, g q, t, v.tcp_open q, get-delete pm'.used_tcp p q, get-delete pm'.tcp p q);
          udp_used = λ q. ground (arith, g q, v.udp_used q);
          udp_open = λ q. ground (arith, g q, u, v.udp_open q);
        })
      ]

  pub listened-udp :
      (listen : String → ℕ → Bool) (want : ℕ) (r : Option ℕ × PortManager)
      → Outcome "udp" want pm r
      → Opening "udp" (listened listen "udp" r)
  unfolding release set_udp
  listened-udp listen want (none, pm') (e, _) = subst (Agree d) (sym e) v
  listened-udp listen want (some p, pm') (_, a, b, c, (g, u, t, m, x)) =
      elim (Bool-cases (listen "udp" p)) [
        | inl e ↦ rw e (
          ground (arith, v.from_one),
          ground (arith, v.udp_used p),
          λ bt. record {
            from_one = ground (arith, v.from_one);
            udp_used = λ q.
                ground
                  (arith, g q, v.udp_used q, get-put d (port_key "udp" p) (port_key "udp" q) bt);
            udp_open = λ q. ground (arith, g q, t, v.udp_open q, get-put pm'.udp p q true);
            tcp_used = λ q.
                ground
                  (arith, g q, v.tcp_used q, get-put d (port_key "udp" p) (port_key "tcp" q) bt);
            tcp_open = λ q. ground (arith, g q, u, v.tcp_open q);
          },
        )
        | inr e ↦ rw e (record {
          from_one = ground (arith, v.from_one);
          udp_used = λ q. ground (arith, g q, v.udp_used q, get-delete pm'.used_udp p q);
          udp_open = λ q.
              ground
                (arith, g q, t, v.udp_open q, get-delete pm'.used_udp p q, get-delete pm'.udp p q);
          tcp_used = λ q. ground (arith, g q, v.tcp_used q);
          tcp_open = λ q. ground (arith, g q, u, v.tcp_open q);
        })
      ]
