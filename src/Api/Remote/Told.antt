-- ===== src/Api/Remote/Told.antt =====
-- What the open streams of internal/api/remote.go have still to tell, and what their own steps add.
use trqsh.Prelude.{
  ℕ, ◌≡◌, ◌⊎◌, refl, false, Option, none, some, List, [], ◌∷◌, ◌++◌, inl, inr, ◌==◌, nat_eq,
  Bool-cases, Option-cases,
}
use mathlib.Core.List.{Memᴰ}
use trqsh.Prelude.Dict
use trqsh.Prelude.Dict.{
  get, put, delete, update_values, AllValues, AllValues-put, AllValues-delete, AllValues-get,
  AllValues-update_values,
}
use trqsh.Api.Remote.{
  RemoteSession, RemoteEvent, Channel, has_room, offer, presence, is_current, detach_agent,
  remove_viewer,
}
use trqsh.Api.Remote.Streams.{
  StreamStep, agent_reads, agent_leaves, viewer_reads, viewer_leaves, received, current_receives,
  agent_receives, closed_receives, viewer_receives, after_step, after_steps,
}

abbrev agent_waiting : Option (ℕ × Channel) → Channel
agent_waiting none = []
agent_waiting (some (n, ch)) = ch

abbrev all_waiting : List (ℕ × Channel) → Channel
all_waiting [] = []
all_waiting ((id, ch) ∷ cs) = ch ++ all_waiting cs

-- All events that the streams of a session have still to read.
abbrev waiting : RemoteSession → List RemoteEvent
waiting s = agent_waiting s.agent_ch ++ (all_waiting s.viewers.entries ++ all_waiting s.closed)

module _ (P : RemoteEvent → Type 0) where
  abbrev Each : List RemoteEvent → Type 0
  Each [] = Unit
  Each (ev ∷ evs) = P ev × Each evs

  -- Every event that a stream of the session has still to read.
  abbrev pub EachWaiting : RemoteSession → Type 0
  EachWaiting s =
      Each (agent_waiting s.agent_ch) × AllValues Each s.viewers × Dict.All Each s.closed

  append-Each : (a b : List RemoteEvent) → Each a → Each b → Each (a ++ b)
  append-Each [] b h k = k
  append-Each (ev ∷ a) b (p, h) k = (p, append-Each a b h k)

  Each-append : (a b : List RemoteEvent) → Each (a ++ b) → Each a × Each b
  Each-append [] b h = (tt, h)
  Each-append (ev ∷ a) b (p, h) = let (x, y) = Each-append a b h in ((p, x), y)

  all_waiting-Each : (cs : List (ℕ × Channel)) → Each (all_waiting cs) → Dict.All Each cs
  all_waiting-Each [] h = tt
  all_waiting-Each ((id, ch) ∷ cs) h =
      let (a, b) = Each-append ch (all_waiting cs) h in (a, all_waiting-Each cs b)

  waiting-Each : (s : RemoteSession) → Each (waiting s) → EachWaiting s
  waiting-Each s h =
      let (a, b) = Each-append (agent_waiting s.agent_ch) _ h in
      let (c, d) = Each-append (all_waiting s.viewers.entries) (all_waiting s.closed) b in
      (a, all_waiting-Each s.viewers.entries c, all_waiting-Each s.closed d)

  received-Each : (ch : Channel) → Each ch → Each (received ch)
  received-Each [] h = h
  received-Each (ev ∷ ch) (p, h) = h

  offer-Each : (ev : RemoteEvent) → P ev → (ch : Channel) → Each ch → Each (offer ev ch)
  offer-Each ev p ch h = elim (Bool-cases (has_room ch)) [
    | inl e ↦ rw e (append-Each ch (ev ∷ []) h (p, tt))
    | inr e ↦ rw e h
  ]

  closed_receives-Each :
      (id : ℕ) (cs : List (ℕ × Channel)) → Dict.All Each cs → Dict.All Each (closed_receives id cs)
  closed_receives-Each id [] h = h
  closed_receives-Each id ((k, ch) ∷ cs) (a, b) = elim (Bool-cases (k == id)) [
    | inl e ↦ rw e (received-Each ch a, closed_receives-Each id cs b)
    | inr e ↦ rw e (a, closed_receives-Each id cs b)
  ]

  current_receives-Each :
      (n : ℕ) (o : Option (ℕ × Channel))
      → Each (agent_waiting o)
      → Each (agent_waiting (current_receives n o))
  current_receives-Each n none h = h
  current_receives-Each n (some (k, ch)) h = elim (Bool-cases (k == n)) [
    | inl e ↦ rw e (received-Each ch h)
    | inr e ↦ rw e h
  ]

  agent_receives-Each :
      (n : ℕ) (s : RemoteSession) → EachWaiting s → EachWaiting (agent_receives n s)
  unfolding agent_receives
  agent_receives-Each n s (a, b, c) = (current_receives-Each n s.agent_ch a, b, c)

  viewer_receives-Each :
      (id : ℕ) (s : RemoteSession) → EachWaiting s → EachWaiting (viewer_receives id s)
  unfolding viewer_receives
  viewer_receives-Each id s (a, b, c) = elim (Option-cases (get s.viewers id)) [
    | inl e ↦ rw (e, viewer_receives) (a, b, closed_receives-Each id s.closed c)
    | inr (ch, e) ↦
        let x = received-Each ch (AllValues-get Each s.viewers id ch b e) in
        rw (e, viewer_receives) (a, AllValues-put Each s.viewers id (received ch) x b, c)
  ]

  detach_agent-Each :
      (n : ℕ) (s : RemoteSession)
      → P (presence false)
      → EachWaiting s
      → EachWaiting (detach_agent n s)
  unfolding detach_agent
  detach_agent-Each n s p (a, b, c) = elim (Bool-cases (is_current n s.agent_ch)) [
    | inl e ↦ rw e (
      tt,
      AllValues-update_values Each (offer (presence false)) s.viewers
          (offer-Each (presence false) p) b,
      c,
    )
    | inr e ↦ rw e (a, b, c)
  ]

  remove_viewer-Each :
      (id : ℕ) (s : RemoteSession) → EachWaiting s → EachWaiting (remove_viewer id s)
  unfolding remove_viewer
  remove_viewer-Each id s (a, b, c) = elim (Option-cases (get s.viewers id)) [
    | inl e ↦ rw (e, remove_viewer) (a, b, c)
    | inr (ch, e) ↦
        rw (e, remove_viewer)
          (a, AllValues-delete Each s.viewers id b, (AllValues-get Each s.viewers id ch b e, c))
  ]

  after_step-Each :
      (t : StreamStep) (s : RemoteSession)
      → P (presence false)
      → EachWaiting s
      → EachWaiting (after_step t s)
  after_step-Each (agent_reads n) s p h = agent_receives-Each n s h
  after_step-Each (agent_leaves n) s p h = detach_agent-Each n s p h
  after_step-Each (viewer_reads id) s p h = viewer_receives-Each id s h
  after_step-Each (viewer_leaves id) s p h = remove_viewer-Each id s h

  after_steps-Each :
      (ts : List StreamStep) (s : RemoteSession)
      → P (presence false)
      → EachWaiting s
      → EachWaiting (after_steps ts s)
  after_steps-Each [] s p h = h
  after_steps-Each (t ∷ ts) s p h = after_steps-Each ts (after_step t s) p (after_step-Each t s p h)

-- An event that waited before, or that says that the agent is gone.
abbrev pub IsOld : RemoteSession → RemoteEvent → Type 0
IsOld s ev = Memᴰ ev (waiting s) ⊎ (ev ≡ presence false)

among-IsOld :
    (s : RemoteSession) (evs : List RemoteEvent)
    → ((ev : RemoteEvent) → Memᴰ ev evs → Memᴰ ev (waiting s))
    → Each (IsOld s) evs
among-IsOld s [] among = tt
among-IsOld s (ev ∷ evs) among =
    (inl (among ev (Memᴰ.head refl)), among-IsOld s evs (λ x m. among x (Memᴰ.tail m)))

-- The steps of a session's own streams give them nothing to read but that the agent is gone.
pub after_steps-IsOld :
    (ts : List StreamStep) (s : RemoteSession) → EachWaiting (IsOld s) (after_steps ts s)
after_steps-IsOld ts s =
    after_steps-Each (IsOld s) ts s (inr refl)
      (waiting-Each (IsOld s) s (among-IsOld s (waiting s) (λ ev m. m)))
