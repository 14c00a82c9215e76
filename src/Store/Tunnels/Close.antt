-- ===== src/Store/Tunnels/Close.antt =====
-- What CloseTunnelSession does to the live rows, on both branches.
use trqsh.Prelude.{
  ℕ, ◌+◌, ◌<◌, String, ◌≡◌, refl, true, ◌&&◌, none, some, List, [], ◌∷◌, arith, eq_iff,
  if◌then◌else◌, ◌==◌, string_eq, Bool-cases, Option-cases, inl, inr, ◌⊎◌,
}
use trqsh.Prelude.Result.{ok, err, not_found}
use trqsh.Store.Types.{TunnelSession}
use trqsh.Store.State.{MemStore}
use trqsh.Store.Tunnels.{
  Totals, tunnel_key_match, is_live, closed_row, close_newest, close_tunnel_session,
}
use trqsh.Store.Tunnels.Live.{count_live, IsSingle}

abbrev pub same_instance : String → String → String → String → String → String → ℕ
same_instance e s t e' s' t' = if e == e' && (s == s' && t == t') then 1 else 0

module _ (e s t : String) (at : ℕ) (n : Totals) where
  -- A row that is closed is live no more, and was live for one triple.
  count_live-closed_row :
      (e' s' t' : String) (x : TunnelSession) (xs : List TunnelSession)
      → is_live e s t x ≡ true
      → count_live e' s' t' (closed_row at n x ∷ xs) + same_instance e s t e' s' t'
        ≡ count_live e' s' t' (x ∷ xs)
  unfolding count_live tunnel_key_match
  count_live-closed_row e' s' t' x xs h = ground (
    arith,
    eq_iff x.edge_id e,
    eq_iff x.session_id s,
    eq_iff x.tunnel_id t,
    eq_iff x.edge_id e',
    eq_iff x.session_id s',
    eq_iff x.tunnel_id t',
    eq_iff e e',
    eq_iff s s',
    eq_iff t t',
    eq_iff x.status "active",
  )

  close_newest-none :
      (xs : List TunnelSession) → close_newest e s t at n xs ≡ none → count_live e s t xs ≡ 0
  unfolding close_newest count_live
  close_newest-none [] h = refl
  close_newest-none (x ∷ xs) h = elim (Option-cases (close_newest e s t at n xs)) [
    | inl f ↦ ground (arith, close_newest-none xs f)
    | inr (ys, f) ↦ ground arith
  ]

  close_newest-some :
      (e' s' t' : String) (xs ys : List TunnelSession)
      → close_newest e s t at n xs ≡ some ys
      → count_live e' s' t' ys + same_instance e s t e' s' t' ≡ count_live e' s' t' xs
  unfolding close_newest count_live
  close_newest-some e' s' t' [] ys h = ground arith
  close_newest-some e' s' t' (x ∷ xs) ys h = elim (Option-cases (close_newest e s t at n xs)) [
    | inr (zs, f) ↦ ground (arith, close_newest-some e' s' t' xs zs f)
    | inl f ↦ elim (Bool-cases (is_live e s t x)) [
      | inl l ↦ ground (arith, count_live-closed_row e' s' t' x xs l)
      | inr d ↦ ground arith
    ]
  ]

  -- With a live row the call succeeds and takes one live row of that instance away, and no other;
  -- with none it reports ErrNotFound and changes nothing.
  pub close_tunnel_session_lem :
      (m : MemStore)
      → let (r, m') = close_tunnel_session e s t at n m in
        ((r ≡ ok tt)
          × (0 < count_live e s t m.tunnels)
          × ((e' s' t' : String)
              → count_live e' s' t' m'.tunnels + same_instance e s t e' s' t'
                ≡ count_live e' s' t' m.tunnels))
        ⊎ ((r ≡ err not_found) × (count_live e s t m.tunnels ≡ 0) × (m' ≡ m))
  unfolding close_tunnel_session
  close_tunnel_session_lem m = elim (Option-cases (close_newest e s t at n m.tunnels)) [
    | inl f ↦ rw (f, close_tunnel_session) (inr (refl, close_newest-none m.tunnels f, refl))
    | inr (ys, f) ↦
        rw (f, close_tunnel_session)
          (inl (
            refl,
            ground
                (arith, close_newest-some e s t m.tunnels ys f, eq_iff e e, eq_iff s s, eq_iff t t),
            λ e' s' t'. close_newest-some e' s' t' m.tunnels ys f,
          ))
  ]

  pub close_tunnel_session-IsSingle :
      (m : MemStore) → IsSingle m → IsSingle (close_tunnel_session e s t at n m).1
  close_tunnel_session-IsSingle m v e' s' t' = elim (close_tunnel_session_lem m) [
    | inl (r, some_live, counts) ↦ omega (arith, counts e' s' t', v e' s' t')
    | inr (r, dead, same) ↦ rw same (v e' s' t')
  ]
