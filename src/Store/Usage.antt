-- ===== src/Store/Usage.antt =====
-- Usage windows and their total for an organisation (internal/api/store/mem.go).
pub mod Totals
use trqsh.Prelude.{
  ℕ, String, Bool, not, ◌&&◌, List, [], ◌∷◌, ◌++◌, ltb, if◌then◌else◌, ◌==◌, string_eq,
}
use trqsh.Prelude.Int64.{add64}
use trqsh.Prelude.Result.{Exec, ok}
use trqsh.Store.Types.{UsageRecord}
use trqsh.Store.State.{MemStore}

unfoldable pub upsert_usage : UsageRecord → Exec MemStore Unit
upsert_usage u m = (ok tt, record m { usage = m.usage ++ u ∷ [] })

-- the guard of the loops: this organisation's window, which does not end before `since`
abbrev pub counts_for : String → ℕ → UsageRecord → Bool
counts_for org_id since u = u.org_id == org_id && not (ltb u.window_end since)

abbrev pub add_window : UsageRecord → UsageRecord → UsageRecord
add_window agg u = record agg {
  bytes_in = add64 agg.bytes_in u.bytes_in;
  bytes_out = add64 agg.bytes_out u.bytes_out;
  requests = add64 agg.requests u.requests;
}

unfoldable pub add_windows : String → ℕ → UsageRecord → List UsageRecord → UsageRecord
add_windows org_id since agg [] = agg
add_windows org_id since agg (u ∷ us) =
    add_windows org_id since (if counts_for org_id since u then add_window agg u else agg) us

unfoldable pub usage_for_org : ℕ → String → ℕ → Exec MemStore UsageRecord
unfolding add_windows
usage_for_org now org_id since m =
    let agg : UsageRecord = record {
      org_id = org_id;
      tunnel_id = "";
      bytes_in = 0;
      bytes_out = 0;
      requests = 0;
      window_start = since;
      window_end = now;
    } in
    (ok (add_windows org_id since agg m.usage), m)
