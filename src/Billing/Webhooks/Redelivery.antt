-- ===== src/Billing/Webhooks/Redelivery.antt =====
-- What a second delivery of an event meets. The store is any that remembers the events it has taken.
use trqsh.Prelude.{ℕ, String, ◌≡◌, Bool, true, string_eq}
use trqsh.Prelude.Result.{Result}
use trqsh.Billing.Interface.{BillingStore, Remembers, Keeps}
use trqsh.Billing.Config.{Config}

module _ {S : Type 0} (st : BillingStore S) (seen : S → String → Bool) (r : Remembers st seen)
    (cfg : Config) (unix : ℕ → ℕ) (id : String) where
  abbrev Seen : S → Type 0
  Seen s = seen s id ≡ true
