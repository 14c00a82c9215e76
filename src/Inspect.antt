-- ===== src/Inspect.antt =====
-- The Recorder of internal/agent/inspect/inspect.go: a ring of captured requests, with channels for
-- the subscribers. A method is one step, and so is each of the two halves of Add.
pub mod Recent
pub mod Live
mod Tests
use trqsh.Prelude.{
  ℕ, ◌+◌, ◌*◌, ◌%◌, ◌^◌, String, Bool, Option, none, some, List, [], ◌∷◌, ◌++◌, length, take, drop,
  find, ltb, leb, if◌then◌else◌, ◌==◌, string_eq, nat_eq,
}
use trqsh.Prelude.Text.{◌<>◌, decimal}
use trqsh.Prelude.Dict.{Dict, empty, get, put, delete, update_values}

pub record CapturedRequest : Type 0 where
  pub id : String
  pub tunnel_id : String
  pub proto : String
  pub method : String
  pub host : String
  pub path : String
  pub status : ℕ
  pub started_at : ℕ
  pub duration_ms : ℕ
  pub req_headers : List (String × String)
  pub resp_headers : List (String × String)
  pub req_body : List ℕ
  pub resp_body : List ℕ
  pub bytes_in : ℕ
  pub bytes_out : ℕ
  pub local_addr : String

abbrev pub max_body_capture : ℕ
max_body_capture = 64 * 1024

-- What a channel holds for its reader, the oldest first.
abbrev pub Channel : Type 0
Channel = List CapturedRequest

pub record Recorder : Type 0 where
  pub cap_n : ℕ
  pub buf : List CapturedRequest
  pub seq : ℕ
  pub subs : Dict ℕ Channel
  pub next_sub : ℕ

-- A negative capacity is as 0.
unfoldable pub new_recorder : ℕ → Recorder
new_recorder capacity = record {
  cap_n = if leb capacity 0 then 128 else capacity;
  buf = [];
  seq = 0;
  subs = empty;
  next_sub = 0;
}

-- The places of a subscriber's channel.
abbrev pub channel_places : ℕ
channel_places = 32

-- select { case ch <- c: default: }, where no receiver waits
abbrev pub send : CapturedRequest → Channel → Channel
send c ch = if ltb (length ch) channel_places then ch ++ (c ∷ []) else ch

abbrev pub identified : ℕ → CapturedRequest → CapturedRequest
identified n c = if c.id == "" then record c { id = "r" <> decimal n } else c

abbrev pub room_made : Recorder → List CapturedRequest
room_made r = if leb r.cap_n (length r.buf) then drop 1 r.buf else r.buf

unfoldable pub add : CapturedRequest → Recorder → CapturedRequest × Recorder
add c r =
    let n = (r.seq + 1) % 2 ^ 64 in
    let d = identified n c in
    (d, record r { seq = n; buf = room_made r ++ (d ∷ []); subs = update_values (send d) r.subs })

-- out[len(r.buf)-1-i] = c
abbrev pub newest_first : List CapturedRequest → List CapturedRequest
newest_first [] = []
newest_first (c ∷ cs) = newest_first cs ++ (c ∷ [])

abbrev pub list_captures : Recorder → List CapturedRequest
list_captures r = newest_first r.buf

abbrev pub clear : Recorder → Recorder
clear r = record r { buf = [] }

abbrev pub get_capture : String → Recorder → Option CapturedRequest
get_capture id r = find (λ c. c.id == id) r.buf

-- The identifier that Subscribe returns, whose channel is new.
unfoldable pub subscribe : Recorder → ℕ × Recorder
subscribe r =
    (r.next_sub, record r { subs = put r.subs r.next_sub []; next_sub = (r.next_sub + 1) % 2 ^ 64 })

unfoldable pub unsubscribe : ℕ → Recorder → Recorder
unsubscribe id r = record r { subs = delete r.subs id }

abbrev pub cap_body : List ℕ → List ℕ
cap_body b = if ltb max_body_capture (length b) then take max_body_capture b else b
