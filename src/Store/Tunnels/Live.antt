-- ===== src/Store/Tunnels/Live.antt =====
-- At most one live row for each tunnel instance.
use trqsh.Prelude.{
  ℕ, suc, ◌+◌, ◌≤◌, String, ◌≡◌, refl, true, ◌&&◌, none, some, List, [], ◌∷◌, ◌++◌, arith, eq_iff,
  if◌then◌else◌, ◌==◌, string_eq, Bool-cases, Option-cases, inl, inr,
}
use trqsh.Store.Types.{TunnelSession}
use trqsh.Store.State.{MemStore, or_new_id, or_now}
use trqsh.Store.Tunnels.{tunnel_key_match, is_live, replace_live, record_tunnel_open}

-- How many live rows an instance has.
unfoldable pub count_live : String → String → String → List TunnelSession → ℕ
count_live e s t [] = 0
count_live e s t (x ∷ xs) =
    let rest = count_live e s t xs in if is_live e s t x then suc rest else rest

module _ (e s t : String) where
  count_live-append :
      (xs ys : List TunnelSession)
      → count_live e s t (xs ++ ys) ≡ count_live e s t xs + count_live e s t ys
  unfolding count_live
  count_live-append [] ys = omega arith
  count_live-append (x ∷ xs) ys = ground (arith, count_live-append xs ys)

  -- A live row that is written over one of the same instance is live for the same triples.
  is_live_over :
      (x y : TunnelSession)
      → is_live x.edge_id x.session_id x.tunnel_id y ≡ true
      → x.status ≡ "active"
      → is_live e s t (record x { id = y.id }) ≡ is_live e s t y
  unfolding tunnel_key_match
  is_live_over x y h a = ground (
    arith,
    eq_iff y.edge_id x.edge_id,
    eq_iff y.session_id x.session_id,
    eq_iff y.tunnel_id x.tunnel_id,
    eq_iff y.status "active",
  )

  count_live-replace_live :
      (x y : TunnelSession) (xs ys : List TunnelSession)
      → x.status ≡ "active"
      → replace_live x xs ≡ some (y, ys)
      → count_live e s t ys ≡ count_live e s t xs
  unfolding replace_live count_live
  count_live-replace_live x y [] ys a h = ground arith
  count_live-replace_live x y (z ∷ zs) ys a h =
      elim (Bool-cases (is_live x.edge_id x.session_id x.tunnel_id z)) [
        | inl l ↦ ground (arith, is_live_over x z l a)
        | inr d ↦ elim (Option-cases (replace_live x zs)) [
          | inl n ↦ ground arith
          | inr ((w, ws), f) ↦ ground (arith, count_live-replace_live x w zs ws a f)
        ]
      ]

-- With nothing to replace, the instance has no live row.
count_live-replace_none :
    (x : TunnelSession) (xs : List TunnelSession)
    → replace_live x xs ≡ none
    → count_live x.edge_id x.session_id x.tunnel_id xs ≡ 0
unfolding replace_live count_live
count_live-replace_none x [] h = refl
count_live-replace_none x (z ∷ zs) h = elim (Option-cases (replace_live x zs)) [
  | inl n ↦ ground (arith, count_live-replace_none x zs n)
  | inr ((w, ws), f) ↦ ground arith
]

-- The row that RecordTunnelOpen looks for and stores.
abbrev opened : ℕ → TunnelSession → TunnelSession
opened now x = record x { started_at = or_now x.started_at now; status = "active"; ended_at = none }

-- No instance has two live rows.
abbrev pub IsSingle : MemStore → Type 0
IsSingle m = (e s t : String) → count_live e s t m.tunnels ≤ 1

module _ (e s t : String) where
  -- A row that becomes live counts for its own triple only.
  count_live_new :
      (x : TunnelSession)
      → x.status ≡ "active"
      → count_live e s t (x ∷ [])
        ≡ (if x.edge_id == e && (x.session_id == s && x.tunnel_id == t) then 1 else 0)
  unfolding count_live tunnel_key_match
  count_live_new x a = ground (arith, eq_iff x.status "active")

  count_live-record_tunnel_open :
      (now : ℕ) (fresh : String) (x : TunnelSession) (m : MemStore)
      → count_live e s t m.tunnels ≤ 1
      → count_live e s t (record_tunnel_open now fresh x m).1.tunnels ≤ 1
  unfolding record_tunnel_open
  count_live-record_tunnel_open now fresh x m h =
      elim (Option-cases (replace_live (opened now x) m.tunnels)) [
        | inr ((y, ys), f) ↦
            rw (f, record_tunnel_open)
              (omega (arith, count_live-replace_live e s t (opened now x) y m.tunnels ys refl f))
        | inl n ↦
            rw (n, record_tunnel_open)
              (ground (
                arith,
                count_live-append e s t m.tunnels
                    (record (opened now x) { id = or_new_id x.id fresh } ∷ []),
                count_live_new (record (opened now x) { id = or_new_id x.id fresh }) refl,
                count_live-replace_none (opened now x) m.tunnels n,
                eq_iff x.edge_id e,
                eq_iff x.session_id s,
                eq_iff x.tunnel_id t,
              ))
      ]

-- Opening a tunnel leaves at most one live row for each instance, where there was at most one before.
pub record_tunnel_open-IsSingle :
    (now : ℕ) (fresh : String) (x : TunnelSession) (m : MemStore)
    → IsSingle m
    → IsSingle (record_tunnel_open now fresh x m).1
record_tunnel_open-IsSingle now fresh x m v e s t =
    count_live-record_tunnel_open e s t now fresh x m (v e s t)
