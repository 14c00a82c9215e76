-- ===== src/Store/Usage/Totals.antt =====
-- The usage total of an organisation against the plain sum of its windows.
use trqsh.Prelude.{
  ℕ, ◌+◌, ◌%◌, ◌<◌, String, ◌≡◌, refl, List, [], ◌∷◌, arith, if◌then◌else◌, Bool-cases, inl, inr,
}
use trqsh.Prelude.Int64.{int64_mod}
use trqsh.Prelude.Result.{ok}
use trqsh.Store.Types.{UsageRecord}
use trqsh.Store.State.{MemStore}
use trqsh.Store.Usage.{counts_for, add_window, add_windows, usage_for_org}

-- The sum of one counter over the windows that count, with no wrap-around.
unfoldable pub total : (UsageRecord → ℕ) → String → ℕ → List UsageRecord → ℕ
total field org_id since [] = 0
total field org_id since (u ∷ us) =
    let rest = total field org_id since us in
    if counts_for org_id since u then field u + rest else rest

-- The three counters of `r` are those of `agg` with the windows added, each in 64 bits.
pub record Adds (org_id : String) (since : ℕ) (us : List UsageRecord) (agg r : UsageRecord)
    : Type 0 where
  pub in_total : r.bytes_in ≡ (agg.bytes_in + total (λ u. u.bytes_in) org_id since us) % int64_mod
  pub out_total :
      r.bytes_out ≡ (agg.bytes_out + total (λ u. u.bytes_out) org_id since us) % int64_mod
  pub request_total :
      r.requests ≡ (agg.requests + total (λ u. u.requests) org_id since us) % int64_mod

module _ (org_id : String) (since : ℕ) where
  add_windows-Adds :
      (us : List UsageRecord) (agg : UsageRecord)
      → agg.bytes_in < int64_mod
      → agg.bytes_out < int64_mod
      → agg.requests < int64_mod
      → Adds org_id since us agg (add_windows org_id since agg us)
  unfolding add_windows total
  add_windows-Adds [] agg h k l = omega arith
  add_windows-Adds (u ∷ us) agg h k l = elim (Bool-cases (counts_for org_id since u)) [
    | inr other ↦ ground (arith, add_windows-Adds us agg h k l)
    | inl mine ↦
        let ih : Adds org_id since us (add_window agg u)
            (add_windows org_id since (add_window agg u) us) =
          add_windows-Adds us (add_window agg u) (omega arith) (omega arith) (omega arith) in
        ground arith
  ]

-- The three totals are the sums of this organisation's windows that do not end before `since`,
-- modulo 2^64.
pub usage_for_org_lem :
    (now : ℕ) (org_id : String) (since : ℕ) (m : MemStore)
    → (r : UsageRecord) × (usage_for_org now org_id since m ≡ (ok r, m))
      × (r.bytes_in ≡ total (λ u. u.bytes_in) org_id since m.usage % int64_mod)
      × (r.bytes_out ≡ total (λ u. u.bytes_out) org_id since m.usage % int64_mod)
      × (r.requests ≡ total (λ u. u.requests) org_id since m.usage % int64_mod)
unfolding usage_for_org
usage_for_org_lem now org_id since m =
    let agg : UsageRecord = record {
      org_id = org_id;
      tunnel_id = "";
      bytes_in = 0;
      bytes_out = 0;
      requests = 0;
      window_start = since;
      window_end = now;
    } in
    let a = add_windows-Adds org_id since m.usage agg (omega arith) (omega arith) (omega arith) in
    (
      add_windows org_id since agg m.usage,
      refl,
      omega (arith, a.in_total),
      omega (arith, a.out_total),
      omega (arith, a.request_total),
    )
