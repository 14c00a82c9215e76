-- ===== src/Store/Tunnels.antt =====
-- Tunnel history (internal/api/store/mem.go): an append-only list, newest last.
pub mod Live
pub mod Close
pub mod Listing
use trqsh.Prelude.{
  ℕ, suc, String, Bool, true, false, ◌&&◌, Option, none, some, List, [], ◌∷◌, ◌++◌, ltb, leb,
  length, if◌then◌else◌, ◌==◌, string_eq, nat_eq,
}
use mathlib.Core.List.{reverse}
use trqsh.Prelude.Result.{Exec, ok, err, not_found}
use trqsh.Store.Types.{TunnelSession, TunnelSessionFilter}
use trqsh.Store.State.{MemStore, or_new_id, or_now}

-- The triple that names one live instance.
unfoldable pub tunnel_key_match : TunnelSession → String → String → String → Bool
tunnel_key_match s edge_id session_id tunnel_id =
    s.edge_id == edge_id && (s.session_id == session_id && s.tunnel_id == tunnel_id)

-- the guard of the loops of RecordTunnelOpen and CloseTunnelSession
abbrev pub is_live : String → String → String → TunnelSession → Bool
is_live edge_id session_id tunnel_id s =
    tunnel_key_match s edge_id session_id tunnel_id && s.status == "active"

-- Replaces the first live row for the same instance, which lends its identifier.
unfoldable pub replace_live :
    TunnelSession → List TunnelSession → Option (TunnelSession × List TunnelSession)
replace_live s [] = none
replace_live s (t ∷ ts) = elim (is_live s.edge_id s.session_id s.tunnel_id t) [
  | true ↦ let s' = record s { id = t.id } in some (s', s' ∷ ts)
  | false ↦ elim (replace_live s ts) [ none ↦ none | some (s', ts') ↦ some (s', t ∷ ts') ]
]

unfoldable pub record_tunnel_open : ℕ → String → TunnelSession → Exec MemStore TunnelSession
unfolding replace_live
record_tunnel_open now fresh s m =
    let s' = record s {
      started_at = or_now s.started_at now;
      status = "active";
      ended_at = none;
    } in
    elim (replace_live s' m.tunnels) [
      | some (s'', ts) ↦ (ok s'', record m { tunnels = ts })
      | none ↦
          let s'' = record s' { id = or_new_id s.id fresh } in
          (ok s'', record m { tunnels = m.tunnels ++ s'' ∷ [] })
    ]

-- The final counters that a close event carries.
pub record Totals : Type 0 where
  pub bytes_in : ℕ
  pub bytes_out : ℕ
  pub requests : ℕ

abbrev pub closed_row : ℕ → Totals → TunnelSession → TunnelSession
closed_row ended_at n s = record s {
  bytes_in = n.bytes_in;
  bytes_out = n.bytes_out;
  requests = n.requests;
  status = "closed";
  ended_at = some ended_at;
}

-- The loop from the end of the list: the newest live row of the instance is closed.
unfoldable pub close_newest :
    String → String → String → ℕ → Totals → List TunnelSession → Option (List TunnelSession)
close_newest edge session tunnel ended_at n [] = none
close_newest edge session tunnel ended_at n (t ∷ ts) =
    elim (close_newest edge session tunnel ended_at n ts) [
      | some ts' ↦ some (t ∷ ts')
      | none ↦ if is_live edge session tunnel t then some (closed_row ended_at n t ∷ ts) else none
    ]

unfoldable pub close_tunnel_session : String → String → String → ℕ → Totals → Exec MemStore Unit
unfolding close_newest
close_tunnel_session edge session tunnel ended_at n m =
    elim (close_newest edge session tunnel ended_at n m.tunnels) [
      | none ↦ (err not_found, m)
      | some ts ↦ (ok tt, record m { tunnels = ts })
    ]

-- the two `continue` guards, for rows that a listing or a count is about
abbrev pub selects : String → Bool → TunnelSession → Bool
selects org_id active_only s =
    (if org_id == "" then true else s.org_id == org_id)
    && (if active_only then s.status == "active" else true)

unfoldable pub list_loop :
    TunnelSessionFilter → ℕ → List TunnelSession → ℕ → List TunnelSession → List TunnelSession
list_loop f limit [] skipped out = out
list_loop f limit (s ∷ rest) skipped out = elim (selects f.org_id f.active_only s) [
  | false ↦ list_loop f limit rest skipped out
  | true ↦ elim (ltb skipped f.offset) [
    | true ↦ list_loop f limit rest (suc skipped) out
    | false ↦
        let out' = out ++ s ∷ [] in
        elim (leb limit (length out')) [ true ↦ out' | false ↦ list_loop f limit rest skipped out' ]
  ]
]

abbrev pub or_default_limit : ℕ → ℕ
or_default_limit limit = if limit == 0 then 100 else limit

unfoldable pub list_tunnel_sessions : TunnelSessionFilter → MemStore → List TunnelSession
unfolding list_loop
list_tunnel_sessions f m = list_loop f (or_default_limit f.limit) (reverse m.tunnels) 0 []

count_loop : String → Bool → List TunnelSession → ℕ → ℕ
count_loop org_id active_only [] n = n
count_loop org_id active_only (s ∷ rest) n =
    count_loop org_id active_only rest (if selects org_id active_only s then suc n else n)

unfoldable pub count_tunnel_sessions : String → Bool → MemStore → ℕ
unfolding count_loop
count_tunnel_sessions org_id active_only m = count_loop org_id active_only m.tunnels 0
