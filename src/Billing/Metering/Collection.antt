-- ===== src/Billing/Metering/Collection.antt =====
-- Collection of metered usage on the in-memory store: once for each window start.
use trqsh.Prelude.{
  ℕ, suc, String, ◌≡◌, refl, true, false, List, [], ◌∷◌, ◌++◌, any, arith, ◌∙◌, string_eq, nat_eq,
  Bool-cases, inl, inr,
}
use trqsh.Prelude.Int64.{add64, nonpos64}
use trqsh.Prelude.Result.{Result, ok, err, conflict}
use trqsh.Store.Types.{UsageRecord, MeteredUsage}
use trqsh.Store.State.{MemStore, or_now}
use trqsh.Store.Usage.{upsert_usage, usage_for_org}
use trqsh.Store.Usage.Totals.{usage_for_org_lem}
use trqsh.Store.Billing.{same_window, insert_metered_usage}
use trqsh.Store.Billing.Metered.{any-append, same_window_refl, same_window_eq, added}
use trqsh.Billing.Config.{metric_bandwidth, metric_requests}
use trqsh.Billing.Memory.{mem_billing}
use trqsh.Billing.Metering.{collected, collect_metrics, collect_for_org, metered_row}

-- The store holds a row for the window of `u`.
abbrev Holds : MeteredUsage → MemStore → Type 0
Holds u m = any (same_window u) m.metered ≡ true

any-append_left :
    (u : MeteredUsage) (xs ys : List MeteredUsage)
    → any (same_window u) xs ≡ true
    → any (same_window u) (xs ++ ys) ≡ true
any-append_left u [] ys h = ground arith
any-append_left u (x ∷ xs) ys h = ground (arith, any-append_left u xs ys)

module _ (now : ℕ) (u : MeteredUsage) (m : MemStore) where
  insert_metered_usage-Holds : Holds u (insert_metered_usage now u m).1
  unfolding insert_metered_usage
  insert_metered_usage-Holds = elim (Bool-cases (any (same_window u) m.metered)) [
    | inl seen ↦ ground arith
    | inr new ↦ ground (
      arith,
      any-append u (added now u m) m.metered
          (same_window_refl (or_now u.created_at now) (add64 m.metered_seq 1) u),
    )
  ]

  insert_metered_usage-keeps_Holds :
      (w : MeteredUsage) → Holds w m → Holds w (insert_metered_usage now u m).1
  unfolding insert_metered_usage
  insert_metered_usage-keeps_Holds w h =
      ground (arith, any-append_left w m.metered (added now u m ∷ []) h)

  insert_metered_usage_held : Holds u m → insert_metered_usage now u m ≡ (err conflict, m)
  unfolding insert_metered_usage
  insert_metered_usage_held h = ground arith

-- The rows of the two metrics for one window start.
abbrev HoldsBoth : String → ℕ → MemStore → Type 0
HoldsBoth org_id start m =
    Holds (metered_row org_id metric_bandwidth 0 start 0) m
    × Holds (metered_row org_id metric_requests 0 start 0) m

module _ (now : ℕ) (fresh org_id : String) (start end : ℕ) where
  abbrev collect : List (String × ℕ) → ℕ → MemStore → Result ℕ × MemStore
  collect = collect_metrics (mem_billing now fresh) org_id start end

  -- With a row for the metric at hand the metric is passed over.
  collect_held :
      (metric : String) (qty : ℕ) (ms : List (String × ℕ)) (n : ℕ) (m : MemStore)
      → Holds (metered_row org_id metric 0 start 0) m
      → collect ((metric, qty) ∷ ms) n m ≡ collect ms n m
  unfolding collect_metrics collected
  collect_held metric qty ms n m h = elim (Bool-cases (nonpos64 qty)) [
    | inl none_used ↦ ground arith
    | inr used ↦ ground (
      arith,
      insert_metered_usage_held now (metered_row org_id metric qty start end) m (
          same_window_eq (metered_row org_id metric 0 start 0)
            (metered_row org_id metric qty start end) m.metered refl refl refl
          ∙ h),
    )
  ]

  -- A positive quantity leaves a row, and keeps every row that is there.
  collect_used :
      (metric : String) (qty : ℕ) (ms : List (String × ℕ)) (n : ℕ) (m : MemStore)
      → nonpos64 qty ≡ false
      → (n' : ℕ) × (m' : MemStore) × (collect ((metric, qty) ∷ ms) n m ≡ collect ms n' m')
        × Holds (metered_row org_id metric 0 start 0) m'
        × ((w : MeteredUsage) → Holds w m → Holds w m')
  unfolding collect_metrics collected
  collect_used metric qty ms n m used =
      let row = metered_row org_id metric qty start end in
      let m' = (insert_metered_usage now row m).1 in
      let held : Holds (metered_row org_id metric 0 start 0) m' =
        same_window_eq row (metered_row org_id metric 0 start 0) m'.metered refl refl refl
        ∙ insert_metered_usage-Holds now row m in
      elim (Bool-cases (any (same_window row) m.metered)) [
        | inl seen ↦ (
          n,
          m',
          unfold insert_metered_usage in ground arith,
          held,
          insert_metered_usage-keeps_Holds now row m,
        )
        | inr new ↦ (
          suc n,
          m',
          unfold insert_metered_usage in ground arith,
          held,
          insert_metered_usage-keeps_Holds now row m,
        )
      ]

  collect_none : (m : MemStore) → collect [] 0 m ≡ (ok 0, m)
  unfolding collect_metrics
  collect_none m = refl

  collect_for_org_step :
      (m : MemStore) (r : UsageRecord)
      → usage_for_org now org_id start m ≡ (ok r, m)
      → collect_for_org (mem_billing now fresh) org_id start end m
        ≡ collect
            ((metric_bandwidth, add64 r.bytes_in r.bytes_out) ∷ (metric_requests, r.requests) ∷ [])
            0
            m
  unfolding collect_for_org
  collect_for_org_step m r e = rw e

  -- A window start that has been collected for both metrics is never collected again: the call
  -- creates no row and changes nothing, whatever has been used since.
  pub collect_for_org_held :
      (m : MemStore)
      → HoldsBoth org_id start m
      → collect_for_org (mem_billing now fresh) org_id start end m ≡ (ok 0, m)
  collect_for_org_held m (b, q) =
      let (r, e, _, _, _) = usage_for_org_lem now org_id start m in
      collect_for_org_step m r e
      ∙ collect_held metric_bandwidth (add64 r.bytes_in r.bytes_out)
          ((metric_requests, r.requests) ∷ []) 0 m b
      ∙ collect_held metric_requests r.requests [] 0 m q
      ∙ collect_none m

  collect_for_org-HoldsBoth :
      (m : MemStore) (r : UsageRecord)
      → usage_for_org now org_id start m ≡ (ok r, m)
      → nonpos64 (add64 r.bytes_in r.bytes_out) ≡ false
      → nonpos64 r.requests ≡ false
      → HoldsBoth org_id start (collect_for_org (mem_billing now fresh) org_id start end m).1
  unfolding collect_metrics
  collect_for_org-HoldsBoth m r e b q =
      let (n₁, m₁, e₁, h₁, _) =
        collect_used metric_bandwidth (add64 r.bytes_in r.bytes_out)
          ((metric_requests, r.requests) ∷ []) 0 m b in
      let (n₂, m₂, e₂, h₂, k₂) = collect_used metric_requests r.requests [] n₁ m₁ q in
      let all : collect_for_org (mem_billing now fresh) org_id start end m ≡ (ok n₂, m₂) =
        collect_for_org_step m r e ∙ e₁ ∙ e₂ in
      rw all (k₂ (metered_row org_id metric_bandwidth 0 start 0) h₁, h₂)

-- Usage that is reported after the first collection for a window start, as every later tick of the
-- month has it, is in no row: the later collection creates none and leaves the queue as it is.
pub late_usage_uncollected :
    (now later : ℕ) (fresh fresh' org_id : String) (start end end' : ℕ) (m : MemStore)
    (r late : UsageRecord)
    → usage_for_org now org_id start m ≡ (ok r, m)
    → nonpos64 (add64 r.bytes_in r.bytes_out) ≡ false
    → nonpos64 r.requests ≡ false
    → let m₁ = (collect_for_org (mem_billing now fresh) org_id start end m).1 in
      let m₂ = (upsert_usage late m₁).1 in
      collect_for_org (mem_billing later fresh') org_id start end' m₂ ≡ (ok 0, m₂)
unfolding upsert_usage
late_usage_uncollected now later fresh fresh' org_id start end end' m r late e b q =
    let (h, k) = collect_for_org-HoldsBoth now fresh org_id start end m r e b q in
    collect_for_org_held later fresh' org_id start end' _ (h, k)
