-- ===== src/Store/Tests.antt =====
-- Runs of the store of internal/api/store/mem.go, and its theorems at concrete inputs.
use trqsh.Prelude.{◌^◌, String, ◌≡◌, ◌≢◌, ◌↔◌, refl, true, none, arith, eq_iff, nat_eq, string_eq}
use trqsh.Prelude.Text.{to_lower}
use trqsh.Prelude.Result.{ok}
use trqsh.Prelude.Dict.{get, put}
use trqsh.Store.Types.{
  ReservedSubdomain, UsageRecord, TunnelSession, TunnelSessionFilter, MeteredUsage,
}
use trqsh.Store.State.{MemStore, new_mem_store}
use trqsh.Store.Names.{reserve_subdomain, is_subdomain_reserved}
use trqsh.Store.Usage.{upsert_usage, usage_for_org}
use trqsh.Store.Tunnels.{Totals, record_tunnel_open}
use trqsh.Store.Tunnels.Live.{IsSingle, count_live, record_tunnel_open-IsSingle}
use trqsh.Store.Billing.{insert_metered_usage}
use trqsh.Store.Consistent.{IsConsistent}
use trqsh.Store.History.{Reach, here, next, reserves}
use trqsh.Store.History.Consistency.{history-IsConsistent, is_subdomain_reserved_iff, HoldsAlone}

abbrev reservation : ReservedSubdomain
reservation = record { id = ""; org_id = "org_1"; subdomain = "API"; created_at = 0 }

abbrev reserved : MemStore
reserved = (reserve_subdomain 100 "sub_1" reservation new_mem_store).1

reserved-Reach : Reach new_mem_store reserved
unfolding new_mem_store get
reserved-Reach = next here (reserves 100 "sub_1" reservation refl)

is_reserved : is_subdomain_reserved "org_1" "Api" reserved ≡ true
unfolding is_subdomain_reserved reserve_subdomain new_mem_store to_lower get put
is_reserved = refl

history-IsConsistent_example : IsConsistent reserved
history-IsConsistent_example = history-IsConsistent reserved-Reach

is_subdomain_reserved_iff_example :
    (is_subdomain_reserved "org_1" "Api" reserved ≡ true)
    ↔ HoldsAlone reserved "org_1" (to_lower "Api")
is_subdomain_reserved_iff_example = is_subdomain_reserved_iff "org_1" "Api" reserved-Reach

abbrev tunnel : TunnelSession
tunnel = record {
  id = "";
  org_id = "org_1";
  edge_id = "edge_1";
  session_id = "s_1";
  tunnel_id = "web";
  type = "http";
  public_url = "https://api.example";
  host = "api.example";
  port = 0;
  region = "eu";
  client_ip = "";
  country = "";
  city = "";
  bytes_in = 0;
  bytes_out = 0;
  requests = 0;
  status = "";
  started_at = 7;
  ended_at = none;
}

abbrev opened : MemStore
opened = (record_tunnel_open 100 "ts_1" tunnel new_mem_store).1

new_mem_store-IsSingle : IsSingle new_mem_store
unfolding new_mem_store count_live
new_mem_store-IsSingle e s t = omega arith

record_tunnel_open-IsSingle_example : IsSingle opened
record_tunnel_open-IsSingle_example =
    record_tunnel_open-IsSingle 100 "ts_1" tunnel new_mem_store new_mem_store-IsSingle

abbrev totals : Totals
totals = record { bytes_in = 10; bytes_out = 20; requests = 3 }

abbrev of_org : TunnelSessionFilter
of_org = record { org_id = "org_1"; active_only = true; limit = 0; offset = 0 }

abbrev window : UsageRecord
window = record {
  org_id = "org_1";
  tunnel_id = "web";
  bytes_in = 2 ^ 63;
  bytes_out = 5;
  requests = 1;
  window_start = 10;
  window_end = 20;
}

abbrev used : MemStore
used = (upsert_usage window (upsert_usage window new_mem_store).1).1

-- The sum of the two windows wraps round.
usage_wraps :
    (usage_for_org 100 "org_1" 15 used).0
    ≡ ok (record window {
      tunnel_id = "";
      bytes_in = 0;
      bytes_out = 10;
      requests = 2;
      window_start = 15;
      window_end = 100;
    })
unfolding usage_for_org upsert_usage new_mem_store
usage_wraps = refl

evt-ne : ◌≢◌ {A = String} "evt_1" ""
evt-ne e = absurd (ground (arith, eq_iff "evt_1" ""))

abbrev row : MeteredUsage
row = record {
  id = 0;
  org_id = "org_1";
  metric = "requests";
  quantity = 5;
  window_start = 10;
  window_end = 20;
  reported_at = none;
  created_at = 0;
}

abbrev metered : MemStore
metered = (insert_metered_usage 100 row new_mem_store).1
