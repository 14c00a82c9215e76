-- ===== src/Store/Billing.antt =====
-- Subscriptions, processed webhook events and the metered-usage queue (internal/api/store/mem.go).
pub mod Metered
pub mod Events
use trqsh.Prelude.{
  ℕ, String, Bool, true, false, ◌&&◌, Option, none, some, List, [], ◌∷◌, ◌++◌, map, ltb, leb,
  length, any, if◌then◌else◌, ◌==◌, string_eq, nat_eq,
}
use trqsh.Prelude.Int64.{add64}
use trqsh.Prelude.Result.{Exec, ok, err, not_found, conflict}
use trqsh.Prelude.Dict.{get, put, delete}
use trqsh.Store.Types.{Subscription, MeteredUsage}
use trqsh.Store.State.{MemStore, or_now}

-- The identifier and the creation time, taken from the organisation's row where there is one.
adopt : String → Subscription → Option Subscription → Subscription
adopt fresh s none = record s { id = fresh }
adopt fresh s (some existing) = record s {
  id = existing.id;
  created_at = if s.created_at == 0 then existing.created_at else s.created_at;
}

unfoldable pub upsert_subscription : ℕ → String → Subscription → Exec MemStore Subscription
unfolding adopt
upsert_subscription now fresh s m =
    let s₁ = if s.id == "" then adopt fresh s (get m.subs_by_org s.org_id) else s in
    let s₂ = record s₁ { created_at = or_now s₁.created_at now; updated_at = now } in
    (
      ok s₂,
      record m {
        subs_by_org = put m.subs_by_org s₂.org_id s₂;
        subs_by_stripe =
            if s₂.stripe_sub_id == ""
            then m.subs_by_stripe
            else put m.subs_by_stripe s₂.stripe_sub_id s₂.org_id;
      },
    )

unfoldable pub get_subscription_for_org : String → Exec MemStore Subscription
get_subscription_for_org org_id m = elim (get m.subs_by_org org_id) [
  | none ↦ (err not_found, m)
  | some s ↦ (ok s, m)
]

unfoldable pub delete_subscription : String → Exec MemStore Unit
delete_subscription stripe_sub_id m = elim (get m.subs_by_stripe stripe_sub_id) [
  | none ↦ (err not_found, m)
  | some org_id ↦ (
    ok tt,
    record m {
      subs_by_org = delete m.subs_by_org org_id;
      subs_by_stripe = delete m.subs_by_stripe stripe_sub_id;
    },
  )
]

-- Whether the event is seen for the first time. `m.events[eventID]` is false on a missing key.
unfoldable pub mark_event_processed : String → Exec MemStore Bool
mark_event_processed event_id m =
    if event_id == "" then (ok true, m) else elim (get m.events event_id) [
      | some true ↦ (ok false, m)
      | other ↦ (ok true, record m { events = put m.events event_id true })
    ]

-- one row for an organisation, a metric and a window
abbrev pub same_window : MeteredUsage → MeteredUsage → Bool
same_window u e = e.org_id == u.org_id && (e.metric == u.metric && e.window_start == u.window_start)

unfoldable pub insert_metered_usage : ℕ → MeteredUsage → Exec MemStore MeteredUsage
insert_metered_usage now u m =
    if any (same_window u) m.metered
    then (err conflict, m)
    else let seq = add64 m.metered_seq 1 in
      let u' = record u { id = seq; created_at = or_now u.created_at now } in
      (ok u', record m { metered = m.metered ++ u' ∷ []; metered_seq = seq })

unfoldable pub pending_loop : ℕ → List MeteredUsage → List MeteredUsage → List MeteredUsage
pending_loop limit [] out = out
pending_loop limit (e ∷ rest) out = elim e.reported_at [
  | some _ ↦ pending_loop limit rest out
  | none ↦
      let out' = out ++ e ∷ [] in
      elim (ltb 0 limit && leb limit (length out')) [
        | true ↦ out'
        | false ↦ pending_loop limit rest out'
      ]
]

unfoldable pub pending_metered_usage : ℕ → Exec MemStore (List MeteredUsage)
unfolding pending_loop
pending_metered_usage limit m = (ok (pending_loop limit m.metered []), m)

abbrev pub stamp : List ℕ → ℕ → MeteredUsage → MeteredUsage
stamp ids at e = if any (λ i. i == e.id) ids then record e { reported_at = some at } else e

unfoldable pub mark_metered_usage_reported : List ℕ → ℕ → Exec MemStore Unit
mark_metered_usage_reported ids at m = (ok tt, record m { metered = map (stamp ids at) m.metered })
