-- ===== src/Api/Remote/Turns.antt =====
-- All that happens to the hub of internal/api/remote.go, in order: its handlers and its sweeper, each
-- call one turn, and between them the steps of the streams that are open, until they have ended.
use trqsh.Prelude.{ℕ, List, [], ◌∷◌, if◌then◌else◌, ◌==◌, nat_eq}
use trqsh.Api.Remote.Streams.{StreamStep, after_step}
use trqsh.Api.Remote.Hub.{RemoteHub, on_object}
use trqsh.Api.Remote.Moves.{HubCall, after_call}

-- A call at its time, or a step of a stream that holds an object.
pub data HubTurn : Type 0 where
  call : ℕ → HubCall → HubTurn
  stream : ℕ → StreamStep → HubTurn

abbrev pub after_turn : HubTurn → RemoteHub → RemoteHub
after_turn (call now c) h = after_call now c h
after_turn (stream p t) h = on_object p (after_step t) h

abbrev pub after_turns : List HubTurn → RemoteHub → RemoteHub
after_turns [] h = h
after_turns (t ∷ ts) h = after_turns ts (after_turn t h)

-- The steps among the turns that streams of the object `p` take.
abbrev pub steps_of : ℕ → List HubTurn → List StreamStep
steps_of p [] = []
steps_of p (call now c ∷ ts) = steps_of p ts
steps_of p (stream q t ∷ ts) = let rest = steps_of p ts in if q == p then t ∷ rest else rest
