-- ===== src/Api/Rpc/Tests.antt =====
-- The edge's client against the service: a bind with a key that the store does not have, and a client
-- with another token.
use trqsh.Prelude.{◌≡◌, refl, ap, false, some, none, arith, eq_iff, [], ◌∷◌, string_eq, inl}
use trqsh.Prelude.Text.{strip_prefix, before}
use trqsh.Prelude.Dict.{get, empty, get-empty}
use trqsh.Authz.{BindRequest, Usage}
use trqsh.Store.State.{new_mem_store}
use trqsh.Store.Accounts.{get_api_key_by_prefix}
use trqsh.Entitlerpc.{TunnelReport, report_usage, report_tunnel, new_client, cached}
use trqsh.Entitlerpc
use trqsh.Entitlerpc.Tests.{codecs, marshal, same_request, same_response, same_limits, bool_same}
use trqsh.Api.Keys.{key_prefix, authenticate_api_key}
use trqsh.Api.Entitlements
use trqsh.Api.Rpc.Edge.{to_service, check_bind-served, refused-served}

abbrev request : BindRequest
request = record {
  api_key = "tq_live_x";
  type = "http";
  subdomain = "";
  custom_host = "";
  remote_port = 0;
  region = "eu";
}

program : Unit {0}
unfolding marshal same_request same_response same_limits bool_same get empty new_mem_store
    key_prefix strip_prefix before authenticate_api_key get_api_key_by_prefix
    Entitlements.authenticate Entitlements.check_bind
program = tt

check_bind-served_example :
    Entitlerpc.check_bind codecs "t"
      (to_service codecs "t" (λ a b. false) none (λ ip. ("", "")) 10 "rnd" "ts_1")
      request
      new_mem_store
    ≡ (
      some (Entitlements.check_bind none "rnd" (λ a b. false) 10 request new_mem_store).0,
      new_mem_store,
    )
unfolding program
check_bind-served_example =
    check_bind-served codecs "t" (λ a b. false) none (λ ip. ("", "")) 10 "rnd" "ts_1"
      (λ e. absurd (ground (arith, eq_iff "t" ""))) request new_mem_store (123 ∷ []) (123 ∷ []) refl
      (omega arith) refl

abbrev report : TunnelReport
report = record {
  action = "close";
  edge_id = "e1";
  session_id = "s1";
  tunnel_id = "ct_1";
  account_id = "org_1";
  type = "http";
  public_url = "";
  host = "";
  port = 0;
  region = "";
  client_ip = "";
  bytes_in = 1;
  bytes_out = 2;
  requests = 3;
  at = 0;
}

abbrev usage : Usage
usage = record {
  account_id = "org_1";
  tunnel_id = "ct_1";
  bytes_in = 1;
  bytes_out = 2;
  requests = 3;
  window_start = 0;
  window_end = 1;
}

refused-served_example :
    let service = to_service codecs "t" (λ a b. false) none (λ ip. ("", "")) 10 "rnd" "ts_1" in
    Entitlerpc.authenticate codecs "u" service 10 11 "tq_live_x" (new_client, new_mem_store)
      ≡ (none, (new_client, new_mem_store))
    × Entitlerpc.check_bind codecs "u" service request new_mem_store ≡ (none, new_mem_store)
    × report_usage codecs "u" service usage new_mem_store ≡ (false, new_mem_store)
    × report_tunnel codecs "u" service report new_mem_store ≡ (false, new_mem_store)
refused-served_example =
    refused-served codecs "t" (λ a b. false) none (λ ip. ("", "")) 10 "rnd" "ts_1" "u" new_client
      new_mem_store 10 11 "tq_live_x" request usage report
      (inl (λ e. absurd (ground (arith, eq_iff "u" "t")))) (ap (cached 10) (get-empty "tq_live_x"))
