-- ===== src/Inspect/Tests.antt =====
-- The theorems on the request inspector at concrete calls.
use trqsh.Prelude.{◌≡◌, refl, some, List, [], ◌∷◌}
use trqsh.Prelude.Text.{decimal}
use trqsh.Prelude.Dict.{get}
use trqsh.Prelude.{String, nat_eq}
use trqsh.Inspect.{
  CapturedRequest, Recorder, new_recorder, add, list_captures, subscribe, unsubscribe,
}
use trqsh.Inspect.Recent.{
  Call, adds, clears, subscribes, unsubscribes, after_calls, list_captures-newest,
}
use trqsh.Inspect.Live.{subscribe-channel}

abbrev request : String → CapturedRequest
request path = record {
  id = "";
  tunnel_id = "t1";
  proto = "http";
  method = "GET";
  host = "app.example";
  path = path;
  status = 200;
  started_at = 1;
  duration_ms = 3;
  req_headers = [];
  resp_headers = [];
  req_body = [];
  resp_body = [];
  bytes_in = 10;
  bytes_out = 20;
  local_addr = "localhost:3000";
}

abbrev named : String → String → CapturedRequest
named id path = record (request path) { id = id }

abbrev calls : List Call
calls =
    adds (request "/a")
    ∷ clears
    ∷ adds (request "/b")
    ∷ subscribes
    ∷ adds (request "/c")
    ∷ adds (request "/d")
    ∷ unsubscribes 0
    ∷ []

-- A ring of two keeps the last two, with the identifiers that Add drew.
list_captures-newest_example :
    list_captures (after_calls calls (new_recorder 2)) ≡ named "r4" "/d" ∷ named "r3" "/c" ∷ []
unfolding new_recorder add subscribe unsubscribe decimal
list_captures-newest_example = list_captures-newest 2 calls

abbrev started : Recorder
started = after_calls (adds (request "/a") ∷ []) (new_recorder 2)

subscribe-channel_example :
    get
      (after_calls
        (adds (request "/b") ∷ clears ∷ adds (request "/c") ∷ [])
        (subscribe started).1).subs
      0
    ≡ some (named "r2" "/b" ∷ named "r3" "/c" ∷ [])
unfolding new_recorder add subscribe decimal
subscribe-channel_example =
    subscribe-channel started (adds (request "/b") ∷ clears ∷ adds (request "/c") ∷ []) refl
