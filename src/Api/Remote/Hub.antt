-- ===== src/Api/Remote/Hub.antt =====
-- remoteHub and the handlers of internal/api/remote.go. The hub's map leads from a code to a session
-- object, which the streams of an agent and of viewers still hold when the map has lost it: `objects`
-- has every object that was made. The body of a request has been decoded. The two calls of time.Now in
-- create are one time.
use trqsh.Prelude.{
  ℕ, suc, ◌+◌, ◌*◌, ◌^◌, String, Bool, false, not, ◌||◌, ◌&&◌, Option, none, some, List, [], ◌∷◌,
  keep, ltb, if◌then◌else◌, ◌==◌, string_eq, nat_eq,
}
use trqsh.Prelude.Text.{byte_length}
use trqsh.Prelude.Dict.{Dict, empty, get, put, delete, keys}
use trqsh.Api.Remote.{
  RemoteSession, RemoteEvent, attach_agent, publish, command, end_session, add_viewer,
}

-- 30 * time.Minute
abbrev pub remote_session_ttl : ℕ
remote_session_ttl = 1800 * 10 ^ 9

pub record RemoteHub : Type 0 where
  pub sessions : Dict String ℕ
  pub objects : Dict ℕ RemoteSession
  pub next_object : ℕ

abbrev pub new_session : ℕ → String → String → RemoteSession
new_session now code org_id = record {
  code = code;
  org_id = org_id;
  created_at = now;
  expires_at = now + remote_session_ttl;
  agent_ch = none;
  agent_chs = 0;
  agent_connected = false;
  viewers = empty;
  closed = [];
  next_viewer = 0;
  backlog = [];
  state = none;
  ended = false;
}

-- newRemoteHub
abbrev pub new_remote_hub : RemoteHub
new_remote_hub = record { sessions = empty; objects = empty; next_object = 0 }

-- `code` is what newRemoteCode draws.
unfoldable pub create : ℕ → String → String → RemoteHub → ℕ × RemoteHub
create now code org_id h = (
  h.next_object,
  record {
    sessions = put h.sessions code h.next_object;
    objects = put h.objects h.next_object (new_session now code org_id);
    next_object = suc h.next_object;
  },
)

-- time.Now().After(s.expiresAt)
abbrev pub is_expired : ℕ → Option RemoteSession → Bool
is_expired now none = false
is_expired now (some s) = ltb s.expires_at now

unfoldable pub get_session : ℕ → String → RemoteHub → Option ℕ × RemoteHub
get_session now code h = elim (get h.sessions code) [
  | none ↦ (none, h)
  | some p ↦
      if is_expired now (get h.objects p)
      then (none, record h { sessions = delete h.sessions code })
      else (some p, h)
]

-- s.endSession() on one object
unfoldable pub end_object : ℕ → RemoteHub → RemoteHub
end_object p h = elim (get h.objects p) [
  | none ↦ h
  | some s ↦ record h { objects = put h.objects p (end_session s) }
]

unfoldable pub end : String → RemoteHub → RemoteHub
end code h =
    let h' = record h { sessions = delete h.sessions code } in
    elim (get h.sessions code) [ none ↦ h' | some p ↦ end_object p h' ]

abbrev pub end_objects : List ℕ → RemoteHub → RemoteHub
end_objects [] h = h
end_objects (p ∷ ps) h = end_objects ps (end_object p h)

abbrev pub has_expired : ℕ → RemoteHub → String → Bool
has_expired now h code = elim (get h.sessions code) [
  | none ↦ false
  | some p ↦ is_expired now (get h.objects p)
]

-- The sessions that codes lead to.
abbrev pub pointers : List String → Dict String ℕ → List ℕ
pointers [] d = []
pointers (c ∷ cs) d = let rest = pointers cs d in elim (get d c) [ none ↦ rest | some p ↦ p ∷ rest ]

abbrev pub delete_all : List String → Dict String ℕ → Dict String ℕ
delete_all [] d = d
delete_all (c ∷ cs) d = delete_all cs (delete d c)

-- one tick of sweepLoop
unfoldable pub sweep : ℕ → RemoteHub → RemoteHub
sweep now h =
    let expired = keep (has_expired now h) (keys h.sessions) in
    end_objects (pointers expired h.sessions)
      (record h { sessions = delete_all expired h.sessions })

-- What a handler answers; a stream that it opens is the object with its channel's number.
pub data Answer : Type 0 where
  created no_content bad_request not_found conflict : Answer
  streams : ℕ → ℕ → Answer

unfoldable pub handle_remote_create : ℕ → String → String → RemoteHub → Answer × RemoteHub
handle_remote_create now code org_id h = (Answer.created, (create now code org_id h).1)

abbrev pub org_of : Option RemoteSession → String
org_of none = ""
org_of (some s) = s.org_id

-- remoteSessionForAgent
unfoldable pub session_for_agent : ℕ → String → String → RemoteHub → Option ℕ × RemoteHub
session_for_agent now org_id code h =
    let (found, h') = get_session now code h in
    elim found [
      | none ↦ (none, h')
      | some p ↦ if org_of (get h'.objects p) == org_id then (some p, h') else (none, h')
    ]

-- A method of a session, on the object in place.
abbrev pub on_object : ℕ → (RemoteSession → RemoteSession) → RemoteHub → RemoteHub
on_object p f h = elim (get h.objects p) [
  | none ↦ h
  | some s ↦ record h { objects = put h.objects p (f s) }
]

-- The number that attachAgent or addViewer gives, and the object after it.
abbrev pub opened : ℕ → (RemoteSession → ℕ × RemoteSession) → RemoteHub → Answer × RemoteHub
opened p f h = elim (get h.objects p) [
  | none ↦ (Answer.not_found, h)
  | some s ↦ let (n, s') = f s in (Answer.streams p n, record h { objects = put h.objects p s' })
]

unfoldable pub handle_remote_agent_stream : ℕ → String → String → RemoteHub → Answer × RemoteHub
handle_remote_agent_stream now org_id code h =
    let (found, h') = session_for_agent now org_id code h in
    elim found [ none ↦ (Answer.not_found, h') | some p ↦ opened p attach_agent h' ]

unfoldable pub handle_remote_publish :
    ℕ → String → String → RemoteEvent → RemoteHub → Answer × RemoteHub
handle_remote_publish now org_id code ev h =
    let (found, h') = session_for_agent now org_id code h in
    elim found [
      | none ↦ (Answer.not_found, h')
      | some p ↦
          if not (ev.type == "lines") && not (ev.type == "state")
          then (Answer.bad_request, h')
          else (Answer.no_content, on_object p (publish ev) h')
    ]

abbrev pub code_of : Option RemoteSession → String
code_of none = ""
code_of (some s) = s.code

unfoldable pub handle_remote_end : ℕ → String → String → RemoteHub → Answer × RemoteHub
handle_remote_end now org_id code h =
    let (found, h') = session_for_agent now org_id code h in
    elim found [
      | none ↦ (Answer.not_found, h')
      | some p ↦ (Answer.no_content, end (code_of (get h'.objects p)) h')
    ]

unfoldable pub handle_remote_viewer_stream : ℕ → String → RemoteHub → Answer × RemoteHub
handle_remote_viewer_stream now code h =
    let (found, h') = get_session now code h in
    elim found [ none ↦ (Answer.not_found, h') | some p ↦ opened p add_viewer h' ]

abbrev pub commanded : ℕ → String → RemoteHub → Answer × RemoteHub
commanded p text h = elim (get h.objects p) [
  | none ↦ (Answer.not_found, h)
  | some s ↦
      let (sent, s') = command text s in
      if sent
      then (Answer.no_content, record h { objects = put h.objects p s' })
      else (Answer.conflict, h)
]

unfoldable pub handle_remote_command : ℕ → String → String → RemoteHub → Answer × RemoteHub
handle_remote_command now code text h =
    let (found, h') = get_session now code h in
    elim found [
      | none ↦ (Answer.not_found, h')
      | some p ↦
          let n = byte_length text in
          if n == 0 || ltb 240 n then (Answer.bad_request, h') else commanded p text h'
    ]
