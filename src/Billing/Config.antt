-- ===== src/Billing/Config.antt =====
-- internal/billing/config.go, and the Stripe objects of internal/billing/stripe/stripe.go.
use trqsh.Prelude.{
  ℕ, String, Bool, not, Option, none, some, List, [], ◌∷◌, if◌then◌else◌, ◌==◌, string_eq, nat_eq,
}
use trqsh.Prelude.Dict.{Dict, get}
use trqsh.Billing.Plans.{StripePrices}

abbrev pub metric_bandwidth : String
metric_bandwidth = "bandwidth_bytes"

abbrev pub metric_requests : String
metric_requests = "requests"

-- The fields that the modelled code reads.
pub record Config : Type 0 where
  pub secret_key : String
  pub webhook_secret : String
  pub prices : Dict String StripePrices
  pub meter_bandwidth : String
  pub meter_requests : String

abbrev pub enabled : Config → Bool
enabled c = not (c.secret_key == "")

-- Config.PriceID
unfoldable pub config_price_id : Config → String → String → String
config_price_id c plan cadence = elim (get c.prices plan) [
  | none ↦ ""
  | some p ↦
      if cadence == "annual"
      then p.annual
      else if cadence == "metered"
      then p.metered
      else p.monthly
]

unfoldable pub meter_event_name : Config → String → String
meter_event_name c metric =
    if metric == metric_bandwidth
    then c.meter_bandwidth
    else if metric == metric_requests
    then c.meter_requests
    else ""

-- `metadata` is a map; the price identifiers are those of the line items, in order.
pub record SubscriptionObject : Type 0 where
  pub id : String
  pub customer : String
  pub status : String
  pub cancel_at_period_end : Bool
  pub current_period_end : ℕ
  pub item_prices : List String
  pub metadata : Dict String String

abbrev first_or_empty : List String → String
first_or_empty [] = ""
first_or_empty (p ∷ _) = p

unfoldable pub price_id : SubscriptionObject → String
price_id s = first_or_empty s.item_prices

-- Seconds since 1970 as a time, with the zero time for 0. `unix` is the offset of the year 1970.
unfoldable pub period_end : (ℕ → ℕ) → SubscriptionObject → ℕ
period_end unix s = if s.current_period_end == 0 then 0 else unix s.current_period_end

pub record CheckoutSessionObject : Type 0 where
  pub id : String
  pub customer : String
  pub subscription : String
  pub client_reference_id : String
  pub metadata : Dict String String

pub record InvoiceObject : Type 0 where
  pub id : String
  pub customer : String
  pub subscription : String
  pub status : String

-- metadata[key], which is "" on a missing key
abbrev pub value_at : Dict String String → String → String
value_at d key = elim (get d key) [ none ↦ "" | some v ↦ v ]

-- An event and what `Decode` makes of its object at each of the three types (none on an error).
pub record Event : Type 0 where
  pub id : String
  pub type : String
  pub as_checkout : Option CheckoutSessionObject
  pub as_subscription : Option SubscriptionObject
  pub as_invoice : Option InvoiceObject
