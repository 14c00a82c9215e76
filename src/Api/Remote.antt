-- ===== src/Api/Remote.antt =====
-- The pairing sessions of internal/api/remote.go. A channel is what its stream has still to read.
-- The agent's channels are numbered, as detachAgent compares them; a channel of a viewer that has
-- left or was sent away is kept in `closed`, since its stream still reads it.
pub mod Hub
pub mod Context
pub mod Streams
pub mod Moves
pub mod Told
pub mod Turns
pub mod Reaped
mod Tests
use trqsh.Prelude.{
  ℕ, ◌+◌, ◌-◌, String, Bool, true, false, Option, none, some, List, [], ◌∷◌, ◌++◌, length, drop,
  ltb, leb, if◌then◌else◌, ◌==◌, string_eq, nat_eq,
}
use trqsh.Prelude.Dict.{Dict, empty, get, put, delete, update_values}

abbrev pub remote_backlog_limit : ℕ
remote_backlog_limit = 200

-- The places of an agent's or a viewer's channel.
abbrev pub channel_places : ℕ
channel_places = 32

pub record RemoteTunnel : Type 0 where
  pub id : String
  pub public_url : String
  pub local_addr : String
  pub status : String
  pub requests : ℕ

pub record RemoteState : Type 0 where
  pub online : Bool
  pub edge : String
  pub tunnels : List RemoteTunnel

pub record RemoteEvent : Type 0 where
  pub type : String
  pub lines : List String
  pub state : Option RemoteState
  pub command : String
  pub connected : Bool

-- An event with nothing but its type.
abbrev pub event : String → RemoteEvent
event t = record { type = t; lines = []; state = none; command = ""; connected = false }

abbrev pub Channel : Type 0
Channel = List RemoteEvent

-- select { case ch <- ev: default: }, with whether it was sent
abbrev pub has_room : Channel → Bool
has_room ch = ltb (length ch) channel_places

abbrev pub offer : RemoteEvent → Channel → Channel
offer ev ch = if has_room ch then ch ++ (ev ∷ []) else ch

pub record RemoteSession : Type 0 where
  pub code : String
  pub org_id : String
  pub created_at : ℕ
  pub expires_at : ℕ
  pub agent_ch : Option (ℕ × Channel)
  pub agent_chs : ℕ
  pub agent_connected : Bool
  pub viewers : Dict ℕ Channel
  pub closed : List (ℕ × Channel)
  pub next_viewer : ℕ
  pub backlog : List String
  pub state : Option RemoteState
  pub ended : Bool

abbrev pub broadcast_viewers : RemoteEvent → RemoteSession → RemoteSession
broadcast_viewers ev s = record s { viewers = update_values (offer ev) s.viewers }

abbrev pub presence : Bool → RemoteEvent
presence b = record (event "presence") { connected = b }

-- The number of the new channel.
unfoldable pub attach_agent : RemoteSession → ℕ × RemoteSession
attach_agent s = (
  s.agent_chs,
  broadcast_viewers (presence true) (record s {
    agent_ch = some (s.agent_chs, []);
    agent_chs = s.agent_chs + 1;
    agent_connected = true;
  }),
)

abbrev pub is_current : ℕ → Option (ℕ × Channel) → Bool
is_current n none = false
is_current n (some (k, ch)) = k == n

unfoldable pub detach_agent : ℕ → RemoteSession → RemoteSession
detach_agent n s =
    if is_current n s.agent_ch
    then broadcast_viewers (presence false) (record s { agent_ch = none; agent_connected = false })
    else s

-- What a viewer is sent when it joins.
abbrev pub context : List String → Option RemoteState → Bool → Channel
context backlog state connected =
    (if ltb 0 (length backlog) then record (event "lines") { lines = backlog } ∷ [] else [])
    ++ ((elim state [ none ↦ [] | some st ↦ record (event "state") { state = some st } ∷ [] ])
        ++ (presence connected ∷ []))

unfoldable pub add_viewer : RemoteSession → ℕ × RemoteSession
add_viewer s = (
  s.next_viewer,
  record s {
    viewers = put s.viewers s.next_viewer (context s.backlog s.state s.agent_connected);
    next_viewer = s.next_viewer + 1;
  },
)

unfoldable pub remove_viewer : ℕ → RemoteSession → RemoteSession
remove_viewer id s = elim (get s.viewers id) [
  | none ↦ s
  | some ch ↦ record s { viewers = delete s.viewers id; closed = (id, ch) ∷ s.closed }
]

-- s.backlog[n-remoteBacklogLimit:] where it is longer
abbrev pub last_lines : List String → List String
last_lines ls =
    if ltb remote_backlog_limit (length ls) then drop (length ls - remote_backlog_limit) ls else ls

abbrev taken_in : RemoteEvent → RemoteSession → RemoteSession
taken_in ev s =
    if ev.type == "lines"
    then record s { backlog = last_lines (s.backlog ++ ev.lines) }
    else if ev.type == "state"
    then record s { state = ev.state }
    else s

unfoldable pub publish : RemoteEvent → RemoteSession → RemoteSession
publish ev s = broadcast_viewers ev (taken_in ev s)

unfoldable pub command : String → RemoteSession → Bool × RemoteSession
command text s = elim s.agent_ch [
  | none ↦ (false, s)
  | some (n, ch) ↦
      if has_room ch
      then (
        true,
        record s { agent_ch = some (n, ch ++ (record (event "command") { command = text } ∷ [])) },
      )
      else (false, s)
]

abbrev told : RemoteEvent → Option (ℕ × Channel) → Option (ℕ × Channel)
told ev none = none
told ev (some (n, ch)) = some (n, offer ev ch)

unfoldable pub end_session : RemoteSession → RemoteSession
end_session s = if s.ended then s else record s {
  ended = true;
  agent_ch = told (event "ended") s.agent_ch;
  closed = (update_values (offer (event "ended")) s.viewers).entries ++ s.closed;
  viewers = empty;
}
