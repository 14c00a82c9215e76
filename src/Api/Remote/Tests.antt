-- ===== src/Api/Remote/Tests.antt =====
-- The theorems on pairing sessions at concrete calls.
use trqsh.Prelude.{ℕ, ◌+◌, ◌≡◌, refl, String, true, false, none, some, List, [], ◌∷◌, arith, nat_eq}
use trqsh.Prelude.Text.{byte_length}
use trqsh.Prelude.Dict.{get, put, delete, empty, update_values}
use trqsh.Api.Remote.{
  RemoteSession, RemoteEvent, event, presence, attach_agent, detach_agent, add_viewer,
  remove_viewer, publish, command, end_session,
}
use trqsh.Api.Remote.Hub.{
  new_session, new_remote_hub, create, get_session, end_object, end, sweep, session_for_agent,
  handle_remote_create, handle_remote_agent_stream, handle_remote_publish,
  handle_remote_viewer_stream, handle_remote_command, remote_session_ttl,
}
use trqsh.Api.Remote.Context.{
  Call, attaches, detaches, publishes, commands, adds_viewer, after_calls, add_viewer-after_calls,
}
use trqsh.Api.Remote.Moves.{creates, agent_streams, viewer_streams, sweeps}
use trqsh.Api.Remote.Streams.{
  agent_leaves, viewer_reads, after_steps, agent_receives, viewer_receives,
}
use trqsh.Api.Remote.Told.{EachWaiting, IsOld}
use trqsh.Api.Remote.Turns.{HubTurn, call, stream, after_turns, steps_of}
use trqsh.Api.Remote.Reaped.{get_session-reaped}

program : Unit {0}
unfolding byte_length get put delete empty update_values attach_agent detach_agent add_viewer
    remove_viewer publish command end_session create get_session end_object end sweep
    session_for_agent handle_remote_create handle_remote_agent_stream handle_remote_publish
    handle_remote_viewer_stream handle_remote_command agent_receives viewer_receives
program = tt

abbrev lines : List String → RemoteEvent
lines ls = record (event "lines") { lines = ls }

-- A late viewer after two lines, with an agent that came again before its old stream detached.
abbrev calls : List Call
calls =
    attaches
    ∷ publishes (lines ("$ npm start" ∷ []))
    ∷ adds_viewer
    ∷ attaches
    ∷ detaches 0
    ∷ publishes (lines ("ready" ∷ []))
    ∷ commands "/ls"
    ∷ []

add_viewer-after_calls_example :
    get (add_viewer (after_calls calls (new_session 5 "BCDF" "org_1"))).1.viewers 1
    ≡ some (lines ("$ npm start" ∷ "ready" ∷ []) ∷ presence true ∷ [])
unfolding program
add_viewer-after_calls_example = add_viewer-after_calls 5 "BCDF" "org_1" calls

abbrev paired : List HubTurn
paired =
    call 5 (creates "BCDF" "org_1")
    ∷ call 6 (agent_streams "org_1" "BCDF")
    ∷ call 7 (viewer_streams "BCDF")
    ∷ []

abbrev late : ℕ
late = 6 + remote_session_ttl

abbrev paired_session : RemoteSession
paired_session = (add_viewer (attach_agent (new_session 5 "BCDF" "org_1")).1).1

-- The sweeper runs, the agent's stream ends, and the viewer reads that the agent was there.
abbrev after_late : List HubTurn
after_late = call late sweeps ∷ stream 0 (agent_leaves 0) ∷ stream 0 (viewer_reads 0) ∷ []

get_session-reaped_example :
    let (found, k) = get_session late "BCDF" (after_turns paired new_remote_hub) in
    let s' = after_steps (steps_of 0 after_late) paired_session in
    found ≡ none
    × get (after_turns after_late k).objects 0 ≡ some s'
    × s'.ended ≡ paired_session.ended
    × EachWaiting (IsOld paired_session) s'
unfolding program
get_session-reaped_example =
    get_session-reaped paired after_late late "BCDF" 0 paired_session refl refl (omega arith)

-- The viewer is then told that the agent is gone, and not that the session has ended.
told_example :
    let (found, k) = get_session late "BCDF" (after_turns paired new_remote_hub) in
    elim (get (after_turns after_late k).objects 0) [ none ↦ none | some s ↦ get s.viewers 0 ]
    ≡ some (presence false ∷ [])
unfolding program
told_example = refl
