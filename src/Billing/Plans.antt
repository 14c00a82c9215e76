-- ===== src/Billing/Plans.antt =====
-- internal/billing/plans.go: the plan catalogue. Durations are in nanoseconds.
pub mod Laws
use trqsh.Prelude.{
  ℕ, ◌*◌, ◌^◌, String, Bool, true, false, ◌||◌, Option, none, some, List, [], ◌∷◌, ltb,
  if◌then◌else◌, ◌==◌, string_eq,
}
use trqsh.Prelude.Dict.{Dict}
use trqsh.Authz.{Limits}

abbrev pub gb : ℕ
gb = 2 ^ 30

abbrev pub tb : ℕ
tb = 2 ^ 40

abbrev pub plan_free : String
plan_free = "free"

abbrev pub plan_pro : String
plan_pro = "pro"

abbrev pub plan_team : String
plan_team = "team"

abbrev pub plan_payg : String
plan_payg = "payg"

pub record StripePrices : Type 0 where
  pub monthly : String
  pub annual : String
  pub metered : String

pub record Plan : Type 0 where
  pub code : String
  pub name : String
  pub max_concurrent_tunnels : ℕ
  pub max_bandwidth_bytes_mo : ℕ
  pub max_requests_mo : ℕ
  pub max_reserved_subdomains : ℕ
  pub max_custom_domains : ℕ
  pub allow_custom_domains : Bool
  pub allow_tcp : Bool
  pub allow_tls : Bool
  pub allow_udp : Bool
  pub rate_limit_rps : ℕ
  pub inspector_history : ℕ
  pub metered_seats : Bool
  pub price_monthly_cents : ℕ
  pub price_annual_cents : ℕ
  pub stripe_prices : StripePrices

unfoldable pub limits : Plan → Limits
limits p = record {
  max_concurrent_tunnels = p.max_concurrent_tunnels;
  max_bandwidth_bytes_mo = p.max_bandwidth_bytes_mo;
  max_requests_mo = p.max_requests_mo;
  allow_custom_domains = p.allow_custom_domains;
  allow_reserved_subdomain = ltb 0 p.max_reserved_subdomains;
  allow_tcp = p.allow_tcp;
  allow_udp = p.allow_udp;
  rate_limit_rps = p.rate_limit_rps;
}

-- Pay-as-you-go bills by usage.
unfoldable pub metered : Plan → Bool
metered p = p.code == plan_payg

abbrev pub hour : ℕ
hour = 3600 * 10 ^ 9

abbrev no_prices : StripePrices
no_prices = record { monthly = ""; annual = ""; metered = "" }

unfoldable pub free : Plan
free = record {
  code = plan_free;
  name = "Free";
  max_concurrent_tunnels = 3;
  max_bandwidth_bytes_mo = 10 * gb;
  max_requests_mo = 0;
  max_reserved_subdomains = 1;
  max_custom_domains = 0;
  allow_custom_domains = false;
  allow_tcp = true;
  allow_tls = false;
  allow_udp = false;
  rate_limit_rps = 60;
  inspector_history = hour;
  metered_seats = false;
  price_monthly_cents = 0;
  price_annual_cents = 0;
  stripe_prices = no_prices;
}

unfoldable pub pro : Plan
pro = record {
  code = plan_pro;
  name = "Pro";
  max_concurrent_tunnels = 10;
  max_bandwidth_bytes_mo = 200 * gb;
  max_requests_mo = 0;
  max_reserved_subdomains = 10;
  max_custom_domains = 5;
  allow_custom_domains = true;
  allow_tcp = true;
  allow_tls = true;
  allow_udp = true;
  rate_limit_rps = 600;
  inspector_history = 30 * 24 * hour;
  metered_seats = false;
  price_monthly_cents = 300;
  price_annual_cents = 2400;
  stripe_prices = no_prices;
}

unfoldable pub team : Plan
team = record {
  code = plan_team;
  name = "Team";
  max_concurrent_tunnels = 25;
  max_bandwidth_bytes_mo = tb;
  max_requests_mo = 0;
  max_reserved_subdomains = 50;
  max_custom_domains = 50;
  allow_custom_domains = true;
  allow_tcp = true;
  allow_tls = true;
  allow_udp = true;
  rate_limit_rps = 2000;
  inspector_history = 30 * 24 * hour;
  metered_seats = false;
  price_monthly_cents = 500;
  price_annual_cents = 4440;
  stripe_prices = no_prices;
}

unfoldable pub payg : Plan
payg = record {
  code = plan_payg;
  name = "Pay-as-you-go";
  max_concurrent_tunnels = 0;
  max_bandwidth_bytes_mo = 0;
  max_requests_mo = 0;
  max_reserved_subdomains = 1000;
  max_custom_domains = 1000;
  allow_custom_domains = true;
  allow_tcp = true;
  allow_tls = true;
  allow_udp = true;
  rate_limit_rps = 0;
  inspector_history = 30 * 24 * hour;
  metered_seats = true;
  price_monthly_cents = 0;
  price_annual_cents = 0;
  stripe_prices = no_prices;
}

-- Catalog[code]
unfoldable pub catalog : String → Option Plan
unfolding free pro team payg
catalog code =
    if code == plan_free
    then some free
    else if code == plan_pro
    then some pro
    else if code == plan_team
    then some team
    else if code == plan_payg
    then some payg
    else none

unfoldable pub plan_for : String → Plan
unfolding catalog
plan_for code = elim (catalog code) [ some p ↦ p | none ↦ free ]

unfoldable pub limits_for_plan : String → Limits
unfolding plan_for limits
limits_for_plan code = limits (plan_for code)

grants : String → StripePrices → Bool
grants price_id p = p.monthly == price_id || p.annual == price_id || p.metered == price_id

price_loop : String → List (String × StripePrices) → Option String
unfolding grants
price_loop price_id [] = none
price_loop price_id ((code, p) ∷ rest) =
    let later = price_loop price_id rest in if grants price_id p then some code else later

unfoldable pub plan_for_price_id : Dict String StripePrices → String → Option String
unfolding price_loop
plan_for_price_id prices price_id =
    if price_id == "" then none else price_loop price_id prices.entries
