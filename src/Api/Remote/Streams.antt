-- ===== src/Api/Remote/Streams.antt =====
-- What the open streams of internal/api/remote.go do to a session's object: they read their channels,
-- and they leave it when they end (the deferred detachAgent and removeViewer). A stream holds the
-- object, and goes on when no code leads to it any more.
use trqsh.Prelude.{
  ℕ, ◌≡◌, refl, ◌∙◌, Option, none, some, List, [], ◌∷◌, if◌then◌else◌, ◌==◌, nat_eq, arith,
  Option-cases, inl, inr,
}
use trqsh.Prelude.Dict.{get, put}
use trqsh.Api.Remote.{RemoteSession, Channel, detach_agent, remove_viewer}

-- A receive from a channel, which waits while it is empty.
abbrev pub received : Channel → Channel
received [] = []
received (ev ∷ ch) = ch

-- The agent's stream reads its channel; a channel that another one has replaced is not the object's.
abbrev pub current_receives : ℕ → Option (ℕ × Channel) → Option (ℕ × Channel)
current_receives n none = none
current_receives n (some (k, ch)) = some (k, if k == n then received ch else ch)

unfoldable pub agent_receives : ℕ → RemoteSession → RemoteSession
agent_receives n s = record s { agent_ch = current_receives n s.agent_ch }

abbrev pub closed_receives : ℕ → List (ℕ × Channel) → List (ℕ × Channel)
closed_receives id [] = []
closed_receives id ((k, ch) ∷ cs) = (k, if k == id then received ch else ch) ∷ closed_receives id cs

-- A viewer's stream reads its channel, also when the viewer has been sent away.
unfoldable pub viewer_receives : ℕ → RemoteSession → RemoteSession
viewer_receives id s = elim (get s.viewers id) [
  | none ↦ record s { closed = closed_receives id s.closed }
  | some ch ↦ record s { viewers = put s.viewers id (received ch) }
]

-- What one stream does: the agent's, with the number of its channel, or a viewer's.
pub data StreamStep : Type 0 where
  agent_reads agent_leaves viewer_reads viewer_leaves : ℕ → StreamStep

abbrev pub after_step : StreamStep → RemoteSession → RemoteSession
after_step (agent_reads n) s = agent_receives n s
after_step (agent_leaves n) s = detach_agent n s
after_step (viewer_reads id) s = viewer_receives id s
after_step (viewer_leaves id) s = remove_viewer id s

abbrev pub after_steps : List StreamStep → RemoteSession → RemoteSession
after_steps [] s = s
after_steps (t ∷ ts) s = after_steps ts (after_step t s)

agent_receives_lem :
    (n : ℕ) (s : RemoteSession)
    → (agent_receives n s).code ≡ s.code × (agent_receives n s).ended ≡ s.ended
unfolding agent_receives
agent_receives_lem n s = (refl, refl)

detach_agent_lem :
    (n : ℕ) (s : RemoteSession)
    → (detach_agent n s).code ≡ s.code × (detach_agent n s).ended ≡ s.ended
unfolding detach_agent
detach_agent_lem n s = (ground arith, ground arith)

viewer_receives_lem :
    (id : ℕ) (s : RemoteSession)
    → (viewer_receives id s).code ≡ s.code × (viewer_receives id s).ended ≡ s.ended
unfolding viewer_receives
viewer_receives_lem id s = elim (Option-cases (get s.viewers id)) [
  | inl e ↦ rw (e, viewer_receives) (refl, refl)
  | inr (ch, e) ↦ rw (e, viewer_receives) (refl, refl)
]

remove_viewer_lem :
    (id : ℕ) (s : RemoteSession)
    → (remove_viewer id s).code ≡ s.code × (remove_viewer id s).ended ≡ s.ended
unfolding remove_viewer
remove_viewer_lem id s = elim (Option-cases (get s.viewers id)) [
  | inl e ↦ rw (e, remove_viewer) (refl, refl)
  | inr (ch, e) ↦ rw (e, remove_viewer) (refl, refl)
]

-- No step of a stream changes the session's code or ends it.
after_step_lem :
    (t : StreamStep) (s : RemoteSession)
    → (after_step t s).code ≡ s.code × (after_step t s).ended ≡ s.ended
after_step_lem (agent_reads n) s = agent_receives_lem n s
after_step_lem (agent_leaves n) s = detach_agent_lem n s
after_step_lem (viewer_reads id) s = viewer_receives_lem id s
after_step_lem (viewer_leaves id) s = remove_viewer_lem id s

pub after_step-code : (t : StreamStep) (s : RemoteSession) → (after_step t s).code ≡ s.code
after_step-code t s = (after_step_lem t s).0

pub after_steps-ended :
    (ts : List StreamStep) (s : RemoteSession) → (after_steps ts s).ended ≡ s.ended
after_steps-ended [] s = refl
after_steps-ended (t ∷ ts) s = after_steps-ended ts (after_step t s) ∙ (after_step_lem t s).1
