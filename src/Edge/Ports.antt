-- ===== src/Edge/Ports.antt =====
-- portManager of internal/server/ingress_tcp.go, with openTCPPort and openUDPPort
-- (ingress_udp.go). Every method holds the mutex. An open listener is a mark in `tcp` or `udp`.
pub mod Reserve
use trqsh.Prelude.{
  ℕ, zero, suc, ◌-◌, String, Bool, true, false, ◌||◌, Option, none, some, ltb, if◌then◌else◌, ◌==◌,
  string_eq, nat_eq,
}
use trqsh.Prelude.Dict.{Dict, empty, get, put, delete}

pub record PortManager : Type 0 where
  pub min : ℕ
  pub max : ℕ
  pub used_tcp : Dict ℕ Bool
  pub used_udp : Dict ℕ Bool
  pub tcp : Dict ℕ Bool
  pub udp : Dict ℕ Bool

unfoldable pub new_port_manager : ℕ → ℕ → PortManager
new_port_manager min max = record {
  min = min;
  max = max;
  used_tcp = empty;
  used_udp = empty;
  tcp = empty;
  udp = empty;
}

-- m[k], false where there is no entry
abbrev pub marked : Dict ℕ Bool → ℕ → Bool
marked d k = elim (get d k) [ some b ↦ b | none ↦ false ]

-- pm.used(proto)
abbrev pub used : String → PortManager → Dict ℕ Bool
used proto pm = if proto == "udp" then pm.used_udp else pm.used_tcp

abbrev set_used : String → Dict ℕ Bool → PortManager → PortManager
set_used proto d pm =
    if proto == "udp" then record pm { used_udp = d } else record pm { used_tcp = d }

-- The loop over the `n` ports from `p`.
first_free : Dict ℕ Bool → ℕ → ℕ → Option ℕ
first_free d p zero = none
first_free d p (suc n) = let rest = first_free d (suc p) n in if marked d p then rest else some p

abbrev taken : String → ℕ → PortManager → PortManager
taken proto p pm = set_used proto (put (used proto pm) p true) pm

abbrev reserved : String → Option ℕ → PortManager → Option ℕ × PortManager
reserved proto none pm = (none, pm)
reserved proto (some p) pm = (some p, taken proto p pm)

-- errPortUnavailable is `none`.
unfoldable pub reserve : String → ℕ → PortManager → Option ℕ × PortManager
unfolding first_free
reserve proto want pm =
    if want == 0
    then reserved proto (first_free (used proto pm) pm.min (suc pm.max - pm.min)) pm
    else if ltb want pm.min || ltb pm.max want || marked (used proto pm) want
    then (none, pm)
    else (some want, taken proto want pm)

unfoldable pub set_tcp : ℕ → PortManager → PortManager
set_tcp port pm = record pm { tcp = put pm.tcp port true }

unfoldable pub set_udp : ℕ → PortManager → PortManager
set_udp port pm = record pm { udp = put pm.udp port true }

unfoldable pub release : String → ℕ → PortManager → PortManager
release proto port pm =
    if proto == "udp"
    then record pm { used_udp = delete pm.used_udp port; udp = delete pm.udp port }
    else record pm { used_tcp = delete pm.used_tcp port; tcp = delete pm.tcp port }

unfoldable pub close_all : PortManager → PortManager
close_all pm = record pm { tcp = empty; udp = empty }

pub data OpenResult : Type 0 where
  opened : ℕ → OpenResult
  port_unavailable : OpenResult
  listen_failed : OpenResult

-- `listen` says whether the system opens a listener.
abbrev pub listened :
    (String → ℕ → Bool) → String → Option ℕ × PortManager → OpenResult × PortManager
listened listen proto (none, pm) = (port_unavailable, pm)
listened listen proto (some p, pm) =
    if listen proto p
    then (opened p, if proto == "udp" then set_udp p pm else set_tcp p pm)
    else (listen_failed, release proto p pm)

unfoldable pub open_port : (String → ℕ → Bool) → String → ℕ → PortManager → OpenResult × PortManager
open_port listen proto want pm = listened listen proto (reserve proto want pm)
