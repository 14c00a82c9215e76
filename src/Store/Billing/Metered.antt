-- ===== src/Store/Billing/Metered.antt =====
-- The metered-usage queue: one row for each organisation, metric and window, with distinct
-- identifiers; what is pending, and what a report changes.
use trqsh.Prelude.{
  ℕ, zero, suc, ◌+◌, ◌≡◌, refl, Bool, true, false, not, none, some, List, [], ◌∷◌, ◌++◌, map, arith,
  eq_iff, if◌then◌else◌, ◌==◌, string_eq, nat_eq, any, keep, take, length, length-append,
  Bool-cases, inl, inr, sym,
}
use mathlib.Core.List.{append-nil, append_assoc}
use trqsh.Prelude.Int64.{add64}
use trqsh.Prelude.Result.{ok, err, conflict}
use trqsh.Store.Types.{MeteredUsage}
use trqsh.Store.State.{MemStore, or_now}
use trqsh.Store.Billing.{
  same_window, insert_metered_usage, pending_loop, pending_metered_usage, stamp,
  mark_metered_usage_reported,
}

abbrev pub added : ℕ → MeteredUsage → MemStore → MeteredUsage
added now u m = record u { id = add64 m.metered_seq 1; created_at = or_now u.created_at now }

pub any-append :
    (u e : MeteredUsage) (xs : List MeteredUsage)
    → same_window u e ≡ true
    → any (same_window u) (xs ++ e ∷ []) ≡ true
any-append u e [] h = ground arith
any-append u e (x ∷ xs) h = ground (arith, any-append u e xs h)

pub same_window_refl :
    (now seq : ℕ) (u : MeteredUsage)
    → same_window u (record u { id = seq; created_at = now }) ≡ true
same_window_refl now seq u = ground (arith, eq_iff u.org_id u.org_id, eq_iff u.metric u.metric)

pub same_window_eq :
    (u w : MeteredUsage) (xs : List MeteredUsage)
    → w.org_id ≡ u.org_id
    → w.metric ≡ u.metric
    → w.window_start ≡ u.window_start
    → any (same_window w) xs ≡ any (same_window u) xs
same_window_eq u w [] o k s = refl
same_window_eq u w (x ∷ xs) o k s = cc (o, k, s, same_window_eq u w xs o k s)

-- Collection is idempotent: a row that differs at most in its quantity, times and identifier from
-- one that the queue has taken is refused, and the queue stays as it is.
pub insert_metered_usage_twice :
    (now later : ℕ) (u w : MeteredUsage) (m : MemStore)
    → w.org_id ≡ u.org_id
    → w.metric ≡ u.metric
    → w.window_start ≡ u.window_start
    → let m' = (insert_metered_usage now u m).1 in
      insert_metered_usage later w m' ≡ (err conflict, m')
unfolding insert_metered_usage
insert_metered_usage_twice now later u w m o k s =
    elim (Bool-cases (any (same_window u) m.metered)) [
      | inl seen ↦ ground (arith, same_window_eq u w m.metered o k s)
      | inr new ↦ ground (
        arith,
        any-append u (added now u m) m.metered
            (same_window_refl (or_now u.created_at now) (add64 m.metered_seq 1) u),
        same_window_eq u w (m.metered ++ added now u m ∷ []) o k s,
      )
    ]

-- A row that has not been pushed yet.
abbrev pub is_pending : MeteredUsage → Bool
is_pending e = elim e.reported_at [ none ↦ true | some _ ↦ false ]

pending_loop_unlimited :
    (xs out : List MeteredUsage) → pending_loop 0 xs out ≡ out ++ keep is_pending xs
unfolding pending_loop
pending_loop_unlimited [] out = sym (append-nil out)
pending_loop_unlimited (x ∷ xs) out = ground (
  arith,
  pending_loop_unlimited xs out,
  pending_loop_unlimited xs (out ++ x ∷ []),
  append_assoc out (x ∷ []) (keep is_pending xs),
)

pending_loop_limited :
    (limit : ℕ) (xs : List MeteredUsage) (r : ℕ) (out : List MeteredUsage)
    → limit ≡ length out + suc r
    → pending_loop limit xs out ≡ out ++ take (suc r) (keep is_pending xs)
unfolding pending_loop
pending_loop_limited limit [] r out h = sym (append-nil out)
pending_loop_limited limit (x ∷ xs) zero out h =
    ground (arith, pending_loop_limited limit xs zero out h, length-append out (x ∷ []))
pending_loop_limited limit (x ∷ xs) (suc r) out h = ground (
  arith,
  pending_loop_limited limit xs (suc r) out h,
  pending_loop_limited limit xs r (out ++ x ∷ []),
  length-append out (x ∷ []),
  append_assoc out (x ∷ []) (take (suc r) (keep is_pending xs)),
)

-- The queue hands out the rows that are not reported, oldest first, at most `limit` of them where
-- a limit is given.
pub pending_metered_usage_lem :
    (limit : ℕ) (m : MemStore)
    → pending_metered_usage limit m ≡ (
      ok (if limit == 0 then keep is_pending m.metered else take limit (keep is_pending m.metered)),
      m,
    )
unfolding pending_metered_usage
pending_metered_usage_lem zero m = rw (pending_loop_unlimited m.metered [])
pending_metered_usage_lem (suc k) m =
    ground (arith, pending_loop_limited (suc k) m.metered k [] (omega arith))

pending_stamp :
    (ids : List ℕ) (at : ℕ) (xs : List MeteredUsage)
    → keep is_pending (map (stamp ids at) xs)
      ≡ keep (λ e. not (any (λ i. i == e.id) ids)) (keep is_pending xs)
pending_stamp ids at [] = refl
pending_stamp ids at (x ∷ xs) = elim (Bool-cases (any (λ i. i == x.id) ids)) [
  | inl hit ↦ ground (arith, pending_stamp ids at xs)
  | inr miss ↦ ground (arith, pending_stamp ids at xs)
]

-- After a report of `ids`, what is pending is what was pending less those rows.
pub pending-mark_reported :
    (ids : List ℕ) (at : ℕ) (m : MemStore)
    → (pending_metered_usage 0 (mark_metered_usage_reported ids at m).1).0
      ≡ ok (keep (λ e. not (any (λ i. i == e.id) ids)) (keep is_pending m.metered))
unfolding mark_metered_usage_reported
pending-mark_reported ids at m = rw (pending_metered_usage_lem 0, pending_stamp ids at m.metered)
