-- ===== src/Agent/Tests.antt =====
-- The theorems on the agent with one edge and two tunnels.
use trqsh.Prelude.{
  ◌*◌, ◌^◌, ◌≡◌, refl, String, true, false, none, some, List, [], ◌∷◌, string_eq, arith, eq_iff,
}
use trqsh.Prelude.Text.{before, strip_prefix}
use trqsh.Prelude.Dict.{get, put, empty}
use trqsh.Store.Types.{Org, ApiKey}
use trqsh.Store.State.{MemStore, new_mem_store}
use trqsh.Store.Accounts.{create_org, create_api_key, get_org, get_api_key_by_prefix, touch_api_key}
use trqsh.Store.Names.{is_subdomain_reserved}
use trqsh.Api.Keys.{key_prefix, authenticate_api_key}
use trqsh.Api.Entitlements.{authenticate, effective_plan, check_bind}
use trqsh.Edge.Hub.{AgentSession}
use trqsh.Edge.Server.{EdgeConfig, BindResp, handle_bind}
use trqsh.Edge.History.{new_edge}
use trqsh.Agent.{
  Agent, BindRun, TunnelSpec, new_agent, bind, bound, active_tunnel, view, connect, bind_tunnel,
  auth_ok, unreachable, stop_tunnel, write_control, emit,
}
use trqsh.Agent.Bind.{bind_lem}
use trqsh.Agent.Session.{
  Turn, reconnect, reconnect_base, first_label, restored, draining, read_failed,
}
use trqsh.Agent.Session.Down.{Step, accept_failed, control, connects}
use trqsh.Agent.Backoff.{Fails, Succeeds, Ended, reconnect-Ended}
use trqsh.Agent.Restore.{restored-handle_bind}

abbrev spec : TunnelSpec
spec = record {
  name = "db";
  proto = "tcp";
  addr = "localhost:5432";
  subdomain = "";
  custom_domain = "";
  basic_auth = "";
  host_header = "";
  remote_port = 0;
}

abbrev resp : BindResp
resp = record {
  client_tunnel_id = "ct_1";
  ok = true;
  public_url = "tcp://trqsh.example:2000";
  assigned_host = "trqsh.example";
  assigned_port = 2000;
  error = none;
}

abbrev online : Agent
online = record (new_agent "trqsh.example:443" "tq_live_ab12_cd34") {
  control = true;
  connected = true;
  sess_gen = 1;
}

-- A response for another bind comes first, and a second one for this bind last.
abbrev run : BindRun
run = record {
  client_tunnel_id = "ct_1";
  write_failed = none;
  arrived =
      record resp { client_tunnel_id = "ct_0" } ∷ resp ∷ record resp { public_url = "late" } ∷ [];
  gave_up = none;
}

bind_lem_example :
    let (r, s') = bind run 7 spec online in
    let t = active_tunnel 7 "ct_1" spec resp in
    r ≡ bound (view t)
    × s'.tunnels ≡ put online.tunnels "ct_1" t
    × get s'.pending_binds "ct_1" ≡ none
bind_lem_example = bind_lem run 7 spec resp online refl refl refl refl

abbrev lost : List Step
lost =
    control none 1 draining
    ∷ accept_failed 1
    ∷ connects (auth_ok "org_1" "pro" "quic")
    ∷ control none 1 read_failed
    ∷ []

abbrev failing : Turn
failing = record {
  meanwhile = λ s. (stop_tunnel none "ct_0" s).1;
  cancelled = false;
  handshake = unreachable "timeout";
  jitter = 1000;
  cancelled_asleep = false;
}

abbrev accepted : Turn
accepted = record failing { handshake = auth_ok "org_1" "pro" "quic" }

stop_tunnel-closed :
    (id : String) (s : Agent) → s.closed ≡ false → (stop_tunnel none id s).1.closed ≡ false
unfolding stop_tunnel write_control emit
stop_tunnel-closed id s h = ground arith

failing-Fails : Fails failing
unfolding connect
failing-Fails = record {
  waits = refl;
  keeps_open = stop_tunnel-closed "ct_0";
  refused = λ s. (("ERR_UPSTREAM_UNREACHABLE", "cannot reach edge: timeout"), refl);
  sleeps = refl;
}

accepted-Succeeds : Succeeds accepted
unfolding connect
accepted-Succeeds = record {
  waits = refl;
  keeps_open = stop_tunnel-closed "ct_0";
  accepted = λ s. refl;
}

reconnect-Ended_example :
    Ended reconnect_base
      (failing ∷ failing ∷ [])
      (reconnect 7 [] (failing ∷ failing ∷ accepted ∷ []) reconnect_base online)
reconnect-Ended_example =
    reconnect-Ended 7 [] accepted [] (failing ∷ failing ∷ []) online refl
      (failing-Fails, (failing-Fails, tt)) accepted-Succeeds

abbrev org : Org
org = record {
  id = "org_1";
  name = "Acme";
  plan = "pro";
  stripe_customer_id = "";
  created_at = 0;
  plan_expires_at = none;
}

abbrev key : ApiKey
key = record {
  id = "key_1";
  org_id = "org_1";
  name = "ci";
  prefix = "tq_live_ab12";
  hash = "hash";
  last_used_at = none;
  revoked_at = none;
  created_at = 0;
}

abbrev stored : MemStore
stored = (create_api_key 10 "" key (create_org 10 "" org new_mem_store).1).1

abbrev config : EdgeConfig
config = record {
  base_domain = "trqsh.example";
  region = "eu";
  edge_id = "edge_1";
  heartbeat_interval = 20 * 10 ^ 9;
}

abbrev session : AgentSession
session = record {
  session_id = "s_1";
  account_id = "org_1";
  plan = "pro";
  api_key = "tq_live_ab12_cd34";
}

program : Unit {0}
unfolding create_org create_api_key new_mem_store get put empty key_prefix strip_prefix before
    authenticate_api_key get_api_key_by_prefix touch_api_key get_org effective_plan authenticate
    first_label is_subdomain_reserved
program = tt

-- The TCP tunnel asks for the subdomain trqsh, the first label of the edge's own domain.
restored-handle_bind_example :
    let (answer, s') =
      handle_bind config 50
        (λ proto p. true)
        (λ i. "rabcdefg")
        (λ req. some (check_bind none "rabcdefg" (λ a b. true) 40 req stored).0)
        session
        (bind_tunnel "ct_2" (restored (active_tunnel 7 "ct_1" spec resp)))
        (new_edge 2000 2001) in
    answer.ok ≡ false × s' ≡ new_edge 2000 2001
unfolding program
restored-handle_bind_example =
    restored-handle_bind none "rabcdefg" (λ a b. true) config 40 50 (λ proto p. true)
      (λ i. "rabcdefg") session "ct_2" "org_1" "pro" (active_tunnel 7 "ct_1" spec resp) stored
      (new_edge 2000 2001) refl (λ e. absurd (ground (arith, eq_iff "trqsh.example" ""))) refl refl
