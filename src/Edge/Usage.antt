-- ===== src/Edge/Usage.antt =====
-- usageAgg of internal/server/usage.go: record and flush. A flush hands its reports to the control
-- plane in some order and drops the errors; here they are a list.
pub mod Conserved
use trqsh.Prelude.{
  ℕ, String, ◌≡◌, ◌↔◌, Bool, true, not, ◌&&◌, Option, none, some, List, map, keep, if◌then◌else◌,
  ◌==◌, Comparable, string_eq, nat_eq, arith, eq_iff,
}
use trqsh.Prelude.Int64.{add64}
use trqsh.Prelude.Dict.{Dict, empty, get, put, values}
use trqsh.Authz.{Usage}

pub record UsageKey : Type 0 where
  pub account_id : String
  pub tunnel_id : String

abbrev same_key : UsageKey → UsageKey → Bool
same_key a b = a.account_id == b.account_id && a.tunnel_id == b.tunnel_id

pub same_key_iff : (a b : UsageKey) → (same_key a b ≡ true) ↔ (a ≡ b)
same_key_iff a b = ground (arith, eq_iff a.account_id b.account_id, eq_iff a.tunnel_id b.tunnel_id)

instance abbrev pub usage_key_eq : Comparable UsageKey
usage_key_eq = record { same = same_key; same_iff = same_key_iff }

-- The windows by account and tunnel.
abbrev pub Windows : Type 0
Windows = Dict UsageKey Usage

-- A sample of traffic, as an ingress path reports it.
pub record Sample : Type 0 where
  pub account_id : String
  pub tunnel_id : String
  pub bytes_in : ℕ
  pub bytes_out : ℕ
  pub requests : ℕ

-- The window that is there, or a new one that starts now.
abbrev pub window_of : ℕ → Sample → Option Usage → Usage
window_of now x (some w) = w
window_of now x none = record {
  account_id = x.account_id;
  tunnel_id = x.tunnel_id;
  bytes_in = 0;
  bytes_out = 0;
  requests = 0;
  window_start = now;
  window_end = 0;
}

abbrev pub added : Sample → Usage → Usage
added x w = record w {
  bytes_in = add64 w.bytes_in x.bytes_in;
  bytes_out = add64 w.bytes_out x.bytes_out;
  requests = add64 w.requests x.requests;
}

abbrev pub key_of_sample : Sample → UsageKey
key_of_sample x = record { account_id = x.account_id; tunnel_id = x.tunnel_id }

unfoldable pub record_sample : ℕ → Sample → Windows → Windows
record_sample now x u =
    if x.account_id == ""
    then u
    else put u (key_of_sample x) (added x (window_of now x (get u (key_of_sample x))))

abbrev pub is_idle : Usage → Bool
is_idle w = w.bytes_in == 0 && w.bytes_out == 0 && w.requests == 0

abbrev pub closed : ℕ → Usage → Usage
closed now w = record w { window_end = now }

-- The reports, and the windows that the aggregator goes on with.
unfoldable pub flush : ℕ → Windows → List Usage × Windows
flush now u = (map (closed now) (keep (λ w. not (is_idle w)) (values u)), empty)
