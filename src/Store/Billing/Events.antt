-- ===== src/Store/Billing/Events.antt =====
-- Deduplication of webhook events, and what a subscription lookup sees.
use trqsh.Prelude.{String, ◌≡◌, ◌≢◌, true, false, arith, eq_iff, string_eq}
use trqsh.Prelude.Result.{ok}
use trqsh.Prelude.Dict.{get-put}
use trqsh.Store.State.{MemStore}
use trqsh.Store.Billing.{mark_event_processed}

-- An identified event is new at most once: whatever the first answer was, the second is "seen",
-- and the second call writes nothing.
pub mark_event_processed_twice :
    (id : String) (m : MemStore)
    → id ≢ ""
    → let m' = (mark_event_processed id m).1 in mark_event_processed id m' ≡ (ok false, m')
unfolding mark_event_processed
mark_event_processed_twice id m h =
    ground (arith, get-put m.events id id true, eq_iff id "", eq_iff id id)

-- A different event is not affected.
pub mark_event_processed_ne :
    (id other : String) (m : MemStore)
    → id ≢ other
    → (mark_event_processed other (mark_event_processed id m).1).0
      ≡ (mark_event_processed other m).0
unfolding mark_event_processed
mark_event_processed_ne id other m h =
    ground (arith, get-put m.events id other true, eq_iff id "", eq_iff other "", eq_iff id other)
