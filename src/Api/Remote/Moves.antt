-- ===== src/Api/Remote/Moves.antt =====
-- What the handlers and the sweeper of internal/api/remote.go do to the hub, move by move.
pub mod Calls
use trqsh.Prelude.{
  ℕ, ◌≡◌, refl, ap, subst, ◌∙◌, String, Bool, true, false, not, ◌||◌, ◌&&◌, Option, none, some,
  List, [], ◌∷◌, keep, ltb, if◌then◌else◌, ◌==◌, string_eq, nat_eq, arith, Option-cases, inl, inr,
}
use trqsh.Prelude.Text.{byte_length}
use trqsh.Prelude.Dict.{Dict, keys, get, put, delete}
use trqsh.Api.Remote.{
  RemoteSession, RemoteEvent, attach_agent, publish, command, end_session, add_viewer,
}
use trqsh.Api.Remote.Hub.{
  RemoteHub, Answer, create, get_session, is_expired, has_expired, end_object, end, end_objects,
  pointers, delete_all, sweep, session_for_agent, org_of, code_of, on_object, opened, commanded,
  handle_remote_create, handle_remote_agent_stream, handle_remote_publish, handle_remote_end,
  handle_remote_viewer_stream, handle_remote_command,
}

-- What looks sessions up in the hub: the handlers up to the start of a stream, with the organisation
-- of the caller, and the sweeper.
pub data HubCall : Type 0 where
  creates agent_streams ends : String → String → HubCall
  publishes : String → String → RemoteEvent → HubCall
  viewer_streams : String → HubCall
  commands : String → String → HubCall
  sweeps : HubCall

abbrev pub after_call : ℕ → HubCall → RemoteHub → RemoteHub
after_call now (creates code org_id) h = (handle_remote_create now code org_id h).1
after_call now (agent_streams org_id code) h = (handle_remote_agent_stream now org_id code h).1
after_call now (publishes org_id code ev) h = (handle_remote_publish now org_id code ev h).1
after_call now (ends org_id code) h = (handle_remote_end now org_id code h).1
after_call now (viewer_streams code) h = (handle_remote_viewer_stream now code h).1
after_call now (commands code text) h = (handle_remote_command now code text h).1
after_call now sweeps h = sweep now h

-- What the calls do to the hub, one at a time: a code is dropped, an object that a code leads to
-- changes and keeps its code, or an object is made.
pub data Moves (h : RemoteHub) : RemoteHub → Type 0 where
  here : Moves h h
  drops :
      {k : RemoteHub}
      → Moves h k
      → (code : String) → Moves h (record k { sessions = delete k.sessions code })
  changes :
      {k : RemoteHub}
      → Moves h k
      → (code : String) (p : ℕ) (s s' : RemoteSession) → get k.sessions code ≡ some p
      → get k.objects p ≡ some s
      → s'.code ≡ s.code
      → Moves h (record k { objects = put k.objects p s' })
  makes :
      {k : RemoteHub}
      → Moves h k
      → (now : ℕ) (code org_id : String) → Moves h (create now code org_id k).1

-- No call changes the code of a session.
pub attach_agent-code : (s : RemoteSession) → (attach_agent s).1.code ≡ s.code
unfolding attach_agent
attach_agent-code s = refl

pub add_viewer-code : (s : RemoteSession) → (add_viewer s).1.code ≡ s.code
unfolding add_viewer
add_viewer-code s = refl

pub publish-code : (ev : RemoteEvent) (s : RemoteSession) → (publish ev s).code ≡ s.code
unfolding publish
publish-code ev s = ground arith

pub command-code : (text : String) (s : RemoteSession) → (command text s).1.code ≡ s.code
unfolding command
command-code text s = ground arith

pub end_session-code : (s : RemoteSession) → (end_session s).code ≡ s.code
unfolding end_session
end_session-code s = ground arith

-- What a lookup of a code answers.
abbrev pub Leads : RemoteHub → String → Option ℕ × RemoteHub → Type 0
Leads h code (none, k) = Moves h k
Leads h code (some p, k) = Moves h k × get k.sessions code ≡ some p

pub get_session-Leads :
    (now : ℕ) (code : String) (h : RemoteHub) → Leads h code (get_session now code h)
unfolding get_session
get_session-Leads now code h = looked (get h.sessions code) refl
  where
    dropped : RemoteHub
    dropped = record h { sessions = delete h.sessions code }

    checked :
        (b : Bool) (p : ℕ)
        → get h.sessions code ≡ some p
        → Leads h code (if b then (none, dropped) else (some p, h))
    checked true p e = drops here code
    checked false p e = (here, e)

    looked :
        (o : Option ℕ)
        → get h.sessions code ≡ o
        → Leads h code (elim o as (λ _. Option ℕ × RemoteHub) [
          | none ↦ (none, h)
          | some p ↦ if is_expired now (get h.objects p) then (none, dropped) else (some p, h)
        ])
    looked none e = here
    looked (some p) e = checked (is_expired now (get h.objects p)) p e

pub session_for_agent-Leads :
    (now : ℕ) (org_id code : String) (h : RemoteHub)
    → Leads h code (session_for_agent now org_id code h)
unfolding session_for_agent
session_for_agent-Leads now org_id code h =
    owned (get_session now code h) (get_session-Leads now code h)
  where
    checked :
        (b : Bool) (p : ℕ) (k : RemoteHub)
        → Leads h code (some p, k)
        → Leads h code (if b then (some p, k) else (none, k))
    checked true p k l = l
    checked false p k l = l.0

    owned :
        (x : Option ℕ × RemoteHub)
        → Leads h code x
        → Leads h code (elim x.0 as (λ _. Option ℕ × RemoteHub) [
          | none ↦ (none, x.1)
          | some p ↦ if org_of (get x.1.objects p) == org_id then (some p, x.1) else (none, x.1)
        ])
    owned (none, k) l = l
    owned (some p, k) l = checked (org_of (get k.objects p) == org_id) p k l
