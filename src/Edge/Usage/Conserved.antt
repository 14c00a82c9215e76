-- ===== src/Edge/Usage/Conserved.antt =====
-- No traffic is lost between the samples and the reports of internal/server/usage.go.
use trqsh.Prelude.{
  ℕ, ◌+◌, ◌%◌, String, ◌≡◌, ◌≢◌, refl, Bool, true, false, not, Option, none, some, List, [], ◌∷◌,
  map, keep, if◌then◌else◌, ◌==◌, string_eq, nat_eq, arith, eq_iff, Bool-cases, inl, inr, ap, sym,
  subst, ◌∙◌,
}
use trqsh.Prelude.Int64.{add64, int64_mod}
use trqsh.Prelude.Dict.{
  empty, get, put, get-put, sum_values, sum_values-put, sum_entries, or_nothing, get-empty,
}
use trqsh.Authz.{Usage}
use trqsh.Edge.Usage.{
  UsageKey, usage_key_eq, same_key_iff, Windows, Sample, window_of, added, key_of_sample,
  record_sample, is_idle, closed, flush,
}

-- The three counters of a window and of a sample.
pub data Counter : Type 0 where
  counts_in counts_out counts_requests : Counter

abbrev pub count : Counter → Usage → ℕ
count counts_in w = w.bytes_in
count counts_out w = w.bytes_out
count counts_requests w = w.requests

abbrev pub sampled : Counter → Sample → ℕ
sampled counts_in x = x.bytes_in
sampled counts_out x = x.bytes_out
sampled counts_requests x = x.requests

count-added :
    (c : Counter) (x : Sample) (w : Usage) → count c (added x w) ≡ add64 (count c w) (sampled c x)
count-added counts_in x w = refl
count-added counts_out x w = refl
count-added counts_requests x w = refl

count-window_of : (c : Counter) (now : ℕ) (x : Sample) → count c (window_of now x none) ≡ 0
count-window_of counts_in now x = refl
count-window_of counts_out now x = refl
count-window_of counts_requests now x = refl

idle-count : (c : Counter) (w : Usage) → is_idle w ≡ true → count c w ≡ 0
idle-count counts_in w e = ground arith
idle-count counts_out w e = ground arith
idle-count counts_requests w e = ground arith

count-closed : (c : Counter) (now : ℕ) (w : Usage) → count c (closed now w) ≡ count c w
count-closed counts_in now w = refl
count-closed counts_out now w = refl
count-closed counts_requests now w = refl

added_up :
    (b : Bool) (p q s : ℕ)
    → p ≡ add64 q s
    → (if b then p else 0) % int64_mod ≡ ((if b then q else 0) + (if b then s else 0)) % int64_mod
added_up true p q s e = omega arith
added_up false p q s e = omega arith

nothing : (b : Bool) (p : ℕ) → p ≡ 0 → (if b then p else 0) ≡ 0
nothing true p e = e
nothing false p e = refl

-- A window stands under its own account.
abbrev Homed : Windows → Type 0
Homed u = (k : UsageKey) (w : Usage) → get u k ≡ some w → w.account_id ≡ k.account_id

window_of-account :
    (now : ℕ) (x : Sample) (o : Option Usage)
    → ((w : Usage) → o ≡ some w → w.account_id ≡ x.account_id)
    → (window_of now x o).account_id ≡ x.account_id
window_of-account now x none f = refl
window_of-account now x (some w) f = f w refl

record_sample-Homed : (now : ℕ) (x : Sample) (u : Windows) → Homed u → Homed (record_sample now x u)
unfolding record_sample
record_sample-Homed now x u h k w e = elim (Bool-cases (x.account_id == "")) [
  | inl f ↦ h k w (sym (ap (λ b. get (if b then u else stored) k) f) ∙ e)
  | inr f ↦
      let g : get stored k ≡ some w = sym (ap (λ b. get (if b then u else stored) k) f) ∙ e in
      ground (
        arith,
        get-put u (key_of_sample x) k (added x (window_of now x (get u (key_of_sample x)))),
        same_key_iff (key_of_sample x) k,
        h k w,
        window_of-account now x (get u (key_of_sample x)) (λ v. h (key_of_sample x) v),
      )
]
  where
    stored : Windows
    stored = put u (key_of_sample x) (added x (window_of now x (get u (key_of_sample x))))

empty-Homed : Homed empty
empty-Homed k w e = absurd (ground (arith, get-empty {V = Usage} k))

-- Samples, each at its time, one after another.
abbrev pub recorded : List (ℕ × Sample) → Windows → Windows
recorded [] u = u
recorded ((now, x) ∷ xs) u = recorded xs (record_sample now x u)

module _ (c : Counter) (account : String) where
  -- What a window counts for the account.
  abbrev pub share : Usage → ℕ
  share w = if w.account_id == account then count c w else 0

  abbrev pub sampled_total : List (ℕ × Sample) → ℕ
  sampled_total [] = 0
  sampled_total ((now, x) ∷ xs) =
      (if x.account_id == account then sampled c x else 0) + sampled_total xs

  abbrev pub reported_total : List Usage → ℕ
  reported_total [] = 0
  reported_total (w ∷ ws) = share w + reported_total ws

  share-added :
      (x : Sample) (w : Usage)
      → w.account_id ≡ x.account_id
      → share (added x w) % int64_mod
        ≡ (share w + (if x.account_id == account then sampled c x else 0)) % int64_mod
  share-added x w e =
      subst
        (λ a.
          share (added x w) % int64_mod
          ≡ (share w + (if a == account then sampled c x else 0)) % int64_mod)
        e (added_up (w.account_id == account) _ (count c w) (sampled c x) (count-added c x w))

  -- The window that a sample goes to, with what it counts before.
  window_before :
      (now : ℕ) (x : Sample) (u : Windows)
      → Homed u
      → let o = get u (key_of_sample x) in
        (window_of now x o).account_id ≡ x.account_id
        × or_nothing share o ≡ share (window_of now x o)
  window_before now x u h = before (get u (key_of_sample x)) (λ w. h (key_of_sample x) w)
    where
      before :
          (o : Option Usage)
          → ((w : Usage) → o ≡ some w → w.account_id ≡ x.account_id)
          → (window_of now x o).account_id ≡ x.account_id
            × or_nothing share o ≡ share (window_of now x o)
      before none f = (refl, sym (nothing (x.account_id == account) _ (count-window_of c now x)))
      before (some w) f = (f w refl, refl)

  record_sample-total :
      (now : ℕ) (x : Sample) (u : Windows)
      → account ≢ ""
      → Homed u
      → sum_values share (record_sample now x u) % int64_mod
        ≡ (sum_values share u + (if x.account_id == account then sampled c x else 0)) % int64_mod
  unfolding record_sample
  record_sample-total now x u n h = elim (Bool-cases (x.account_id == "")) [
    | inl e ↦
        let f : (x.account_id == account) ≡ false =
          ground (arith, eq_iff x.account_id "", eq_iff x.account_id account) in
        rw (e, f) (omega arith)
    | inr e ↦
        let k = key_of_sample x in
        let w = window_of now x (get u k) in
        let (a, b) = window_before now x u h in
        rw e (omega (arith, sum_values-put share u k (added x w), share-added x w a, b))
  ]

  recorded-total :
      (xs : List (ℕ × Sample)) (u : Windows)
      → account ≢ ""
      → Homed u
      → sum_values share (recorded xs u) % int64_mod
        ≡ (sum_values share u + sampled_total xs) % int64_mod
  recorded-total [] u n h = omega arith
  recorded-total ((now, x) ∷ xs) u n h = omega (
    arith,
    recorded-total xs (record_sample now x u) n (record_sample-Homed now x u h),
    record_sample-total now x u n h,
  )

  idle-share : (w : Usage) → is_idle w ≡ true → share w ≡ 0
  idle-share w e = elim (Bool-cases (w.account_id == account)) [
    | inl f ↦ rw f (idle-count c w e)
    | inr f ↦ rw f refl
  ]

  share-closed : (now : ℕ) (w : Usage) → share (closed now w) ≡ share w
  share-closed now w = ap (λ p. if w.account_id == account then p else 0) (count-closed c now w)

  flush-total :
      (now : ℕ) (m : List (UsageKey × Usage))
      → reported_total (map (closed now) (keep (λ w. not (is_idle w)) (map (λ p. p.1) m)))
        ≡ sum_entries share m
  unfolding sum_entries
  flush-total now [] = refl
  flush-total now ((k, w) ∷ m) = elim (Bool-cases (is_idle w)) [
    | inl e ↦ rw e (omega (arith, flush-total now m, idle-share w e))
    | inr e ↦ rw e (omega (arith, flush-total now m, share-closed now w))
  ]

  -- For every account, what a flush reports is what the samples since the last one add up to, in
  -- bytes each way and in requests, modulo 2^64; nothing is left for the next flush.
  pub flush-recorded :
      (now : ℕ) (xs : List (ℕ × Sample))
      → account ≢ ""
      → let (reports, rest) = flush now (recorded xs empty) in
        reported_total reports % int64_mod ≡ sampled_total xs % int64_mod × rest ≡ empty
  unfolding flush sum_values sum_entries empty
  flush-recorded now xs n = (
    omega
        (arith, flush-total now (recorded xs empty).entries, recorded-total xs empty n empty-Homed),
    refl,
  )
