-- ===== src/Store/Tunnels/Listing.antt =====
-- A listing is a page of the matching rows, newest first; a count is the number of matching rows.
use trqsh.Prelude.{
  ℕ, zero, suc, ◌+◌, ◌-◌, String, ◌≡◌, refl, Bool, List, [], ◌∷◌, ◌++◌, arith, nat_eq, length, take,
  drop, keep, length-append, sym, ◌∙◌, ap,
}
use mathlib.Core.List.{reverse, append-nil, append_assoc}
use trqsh.Store.Types.{TunnelSession, TunnelSessionFilter}
use trqsh.Store.State.{MemStore}
use trqsh.Store.Tunnels.{
  selects, list_loop, or_default_limit, list_tunnel_sessions, count_loop, count_tunnel_sessions,
}

drop-nil : (n : ℕ) → drop {A = TunnelSession} n [] ≡ []
drop-nil zero = refl
drop-nil (suc n) = refl

module _ (f : TunnelSessionFilter) (limit : ℕ) where
  abbrev mine : List TunnelSession → List TunnelSession
  mine = keep (selects f.org_id f.active_only)

  -- The loop with `s` rows still to skip and room for `suc r` more.
  list_loop_lem :
      (xs : List TunnelSession) (s r skipped : ℕ) (out : List TunnelSession)
      → f.offset ≡ skipped + s
      → limit ≡ length out + suc r
      → list_loop f limit xs skipped out ≡ out ++ take (suc r) (drop s (mine xs))
  unfolding list_loop
  list_loop_lem [] s r skipped out h k = rw (drop-nil s) (sym (append-nil out))
  list_loop_lem (x ∷ xs) zero zero skipped out h k =
      ground (arith, list_loop_lem xs zero zero skipped out h k, length-append out (x ∷ []))
  list_loop_lem (x ∷ xs) zero (suc r) skipped out h k = ground (
    arith,
    list_loop_lem xs zero (suc r) skipped out h k,
    list_loop_lem xs zero r skipped (out ++ x ∷ []) h,
    length-append out (x ∷ []),
    append_assoc out (x ∷ []) (take (suc r) (mine xs)),
  )
  list_loop_lem (x ∷ xs) (suc s) r skipped out h k =
      ground
        (arith, list_loop_lem xs (suc s) r skipped out h k, list_loop_lem xs s r (suc skipped) out)

-- A listing is the page at `offset` of at most `limit` (or 100) rows, of those that the filter
-- selects, newest first.
pub list_tunnel_sessions_lem :
    (f : TunnelSessionFilter) (m : MemStore)
    → list_tunnel_sessions f m
      ≡ take
          (or_default_limit f.limit)
          (drop f.offset (keep (selects f.org_id f.active_only) (reverse m.tunnels)))
unfolding list_tunnel_sessions
list_tunnel_sessions_lem f m =
    let e : or_default_limit f.limit ≡ suc (or_default_limit f.limit - 1) = ground arith in
    list_loop_lem f (or_default_limit f.limit) (reverse m.tunnels) f.offset
      (or_default_limit f.limit - 1) 0 [] (omega arith) (ground arith)
    ∙ ap (λ l. take l (drop f.offset (keep (selects f.org_id f.active_only) (reverse m.tunnels))))
        (sym e)

module _ (org_id : String) (active_only : Bool) where
  count_loop_lem :
      (xs : List TunnelSession) (n : ℕ)
      → count_loop org_id active_only xs n ≡ n + length (keep (selects org_id active_only) xs)
  unfolding count_loop
  count_loop_lem [] n = omega arith
  count_loop_lem (x ∷ xs) n = ground (arith, count_loop_lem xs n, count_loop_lem xs (suc n))

  -- The count is the number of rows that a listing with the same filter selects.
  pub count_tunnel_sessions_lem :
      (m : MemStore)
      → count_tunnel_sessions org_id active_only m
        ≡ length (keep (selects org_id active_only) m.tunnels)
  unfolding count_tunnel_sessions
  count_tunnel_sessions_lem m = count_loop_lem m.tunnels 0 ∙ omega arith
