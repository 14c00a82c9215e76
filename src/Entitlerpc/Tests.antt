-- ===== src/Entitlerpc/Tests.antt =====
-- JSON for the messages of one exchange, and the theorem on the cache of internal/entitlerpc on it.
use trqsh.Prelude.{
  ℕ, ◌+◌, ◌<◌, ◌≡◌, ◌⊎◌, refl, sym, ap, ◌∙◌, Bool, true, false, not, ◌&&◌, Option, none, some, List,
  [], ◌∷◌, if◌then◌else◌, ◌==◌, string_eq, nat_eq, arith, eq_iff, Bool-cases, inl, inr,
}
use mathlib.Core.Option.{some_inj, none-ne-some}
use trqsh.Prelude.Dict.{get, put, empty}
use trqsh.Authz.{Limits, no_limits, code_auth_invalid}
use trqsh.Entitlerpc.{
  Json, Codecs, Request, Response, AuthRequest, AuthResponse, CheckBindRequest, CheckBindResponse,
  new_client, cache_ttl, fetch, authenticate,
}
use trqsh.Entitlerpc.Cache.{after_calls, AnsweredAt, authenticate-after_calls}

-- A codec that knows one message, and encodes it as one byte.
module _ {A : Type 0} (known : A) (same : A → A → Bool)
    (same_eq : (a b : A) → same a b ≡ true → a ≡ b) where
  unfoldable pub marshal : A → Option (List ℕ)
  marshal a = if same a known then some (123 ∷ []) else none

  unfoldable pub parse : List ℕ → Option A
  parse [] = none
  parse (n ∷ ns) = if n == 123 then some known else none

  pub parse-marshal : (a : A) (b : List ℕ) → marshal a ≡ some b → parse b ≡ some a
  unfolding marshal parse
  parse-marshal a b h = elim (Bool-cases (same a known)) [
    | inl e ↦
        ap parse (sym (some_inj.0 (sym (ap (λ t. if t then some (123 ∷ []) else none) e) ∙ h)))
        ∙ ap some (sym (same_eq a known e))
    | inr e ↦ absurd (ground arith)
  ]

  abbrev pub one : Json A
  one = record { marshal = marshal; parse = parse; parse-marshal = parse-marshal }

-- A type of which no message is encoded.
abbrev pub nothing : {A : Type 0} → Json A
nothing = record {
  marshal = λ a. none;
  parse = λ b. none;
  parse-marshal = λ a b h. absurd (none-ne-some b h);
}

unfoldable pub bool_same : Bool → Bool → Bool
bool_same b c = if b then c else not c

unfoldable pub same_request : CheckBindRequest → CheckBindRequest → Bool
same_request a b =
    a.api_key == b.api_key
    && (a.type == b.type
        && (a.subdomain == b.subdomain
            && (a.custom_host == b.custom_host
                && (a.remote_port == b.remote_port && a.region == b.region))))

pub same_request_eq : (a b : CheckBindRequest) → same_request a b ≡ true → a ≡ b
unfolding same_request
same_request_eq a b h = ground (
  arith,
  eq_iff a.api_key b.api_key,
  eq_iff a.type b.type,
  eq_iff a.subdomain b.subdomain,
  eq_iff a.custom_host b.custom_host,
  eq_iff a.region b.region,
)

unfoldable pub same_limits : Limits → Limits → Bool
unfolding bool_same
same_limits a b =
    a.max_concurrent_tunnels == b.max_concurrent_tunnels
    && (a.max_bandwidth_bytes_mo == b.max_bandwidth_bytes_mo
        && (a.max_requests_mo == b.max_requests_mo
            && (a.rate_limit_rps == b.rate_limit_rps
                && (bool_same a.allow_custom_domains b.allow_custom_domains
                    && (bool_same a.allow_reserved_subdomain b.allow_reserved_subdomain
                        && (bool_same a.allow_tcp b.allow_tcp
                            && bool_same a.allow_udp b.allow_udp))))))

pub same_limits_eq : (a b : Limits) → same_limits a b ≡ true → a ≡ b
unfolding same_limits bool_same
same_limits_eq a b h = ground arith

unfoldable pub same_response : CheckBindResponse → CheckBindResponse → Bool
same_response a b =
    bool_same a.allow b.allow
    && (same_limits a.limits b.limits
        && (a.account_id == b.account_id
            && (a.plan == b.plan
                && (a.assigned_subdomain == b.assigned_subdomain
                    && (a.error_code == b.error_code && a.error_message == b.error_message)))))

pub same_response_eq : (a b : CheckBindResponse) → same_response a b ≡ true → a ≡ b
unfolding same_response bool_same
same_response_eq a b h = ground (
  arith,
  same_limits_eq a.limits b.limits,
  eq_iff a.account_id b.account_id,
  eq_iff a.plan b.plan,
  eq_iff a.assigned_subdomain b.assigned_subdomain,
  eq_iff a.error_code b.error_code,
  eq_iff a.error_message b.error_message,
)

pub same_key_eq : (a b : AuthRequest) → (a.api_key == b.api_key) ≡ true → a ≡ b
same_key_eq a b h = ground (arith, eq_iff a.api_key b.api_key)

unfoldable pub same_account : AuthResponse → AuthResponse → Bool
same_account a b = a.account_id == b.account_id && (a.plan == b.plan && a.error == b.error)

pub same_account_eq : (a b : AuthResponse) → same_account a b ≡ true → a ≡ b
unfolding same_account
same_account_eq a b h =
    ground (arith, eq_iff a.account_id b.account_id, eq_iff a.plan b.plan, eq_iff a.error b.error)

abbrev pub asked : CheckBindRequest
asked = record {
  api_key = "tq_live_x";
  type = "http";
  subdomain = "";
  custom_host = "";
  remote_port = 0;
  region = "eu";
}

abbrev pub denied : CheckBindResponse
denied = record {
  allow = false;
  account_id = "";
  plan = "";
  limits = no_limits;
  assigned_subdomain = "";
  error_code = code_auth_invalid;
  error_message = "invalid api key";
}

abbrev pub codecs : Codecs
codecs = record {
  auth_request = one (record { api_key = "tq_live_x" }) (λ a b. a.api_key == b.api_key) same_key_eq;
  auth_response =
      one (record { account_id = "org_1"; plan = "pro"; error = "" }) same_account same_account_eq;
  check_bind_request = one asked same_request same_request_eq;
  check_bind_response = one denied same_response same_response_eq;
  usage_request = nothing;
  tunnel_report = nothing;
}

-- A control plane that counts its answers, and gives none after the first.
abbrev once : Request → ℕ → Option Response × ℕ
once r n = (if n == 0 then some (record { status = 200; body = 123 ∷ [] }) else none, n + 1)

program : Unit {0}
unfolding marshal parse same_account authenticate fetch get put empty
program = tt

-- The answer at the time 5 is still given at 60, and at 5 more than thirty seconds it is not.
authenticate-after_calls_example :
    (fetch codecs "t" once "tq_live_x"
        (after_calls codecs "t" once ((1, 5, "tq_live_x") ∷ []) (new_client, 0)).1).0
      ≡ some ("org_1", "pro")
    ⊎ ((t : ℕ) × 60 < t + cache_ttl
        × AnsweredAt codecs "t" once t "tq_live_x"
            ("org_1", "pro")
            ((1, 5, "tq_live_x") ∷ [])
            (new_client, 0))
unfolding program
authenticate-after_calls_example =
    authenticate-after_calls codecs "t" once 60 61 "tq_live_x" ("org_1", "pro")
      ((1, 5, "tq_live_x") ∷ []) 0 refl
