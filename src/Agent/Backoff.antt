-- ===== src/Agent/Backoff.antt =====
-- The loop of internal/agent/reconnect.go ends, and how long it sleeps.
use trqsh.Prelude.{
  ℕ, suc, ◌*◌, ◌≤◌, ◌≡◌, refl, ap, ◌∙◌, true, false, none, some, List, [], ◌∷◌, ◌++◌, length, ltb,
  if◌then◌else◌, string_eq, nat_eq, arith,
}
use trqsh.Agent.{Agent, ActiveTunnel, BindRun, AgentError, connect}
use trqsh.Agent.Connected.{connect-closed, connect-connected, rebind_all-connected}
use trqsh.Agent.Session.{
  Turn, Ending, reconnect, reconnected, rebind_all, reconnect_base, reconnect_max, slept,
  next_backoff, after_sleep,
}

-- Each sleep is at most thirty seconds, and at least a time that doubles, or thirty seconds.
abbrev pub Paced : ℕ → List ℕ → Type 0
Paced least [] = Unit
Paced least (sleep ∷ sleeps) =
    (if ltb least reconnect_max then least else reconnect_max) ≤ sleep
    × sleep ≤ reconnect_max
    × Paced (least * 2) sleeps

-- A turn that goes to the end without a connection: what happens meanwhile does not shut the agent
-- down, and the handshake is refused.
pub record Fails (t : Turn) : Type 0 where
  pub waits : t.cancelled ≡ false
  pub keeps_open : (s : Agent) → s.closed ≡ false → (t.meanwhile s).closed ≡ false
  pub refused : (s : Agent) → (e : AgentError) × (connect t.handshake s).0 ≡ some e
  pub sleeps : t.cancelled_asleep ≡ false

pub record Succeeds (t : Turn) : Type 0 where
  pub waits : t.cancelled ≡ false
  pub keeps_open : (s : Agent) → s.closed ≡ false → (t.meanwhile s).closed ≡ false
  pub accepted : (s : Agent) → (connect t.handshake s).0 ≡ none

abbrev pub AllFail : List Turn → Type 0
AllFail [] = Unit
AllFail (t ∷ ts) = Fails t × AllFail ts

module _ (now : ℕ) (prev : List (ActiveTunnel × BindRun)) where
  reconnect-Fails :
      (t : Turn) (ts : List Turn) (backoff : ℕ) (s : Agent)
      → s.closed ≡ false
      → Fails t
      → reconnect now prev (t ∷ ts) backoff s
        ≡ after_sleep
            (slept backoff t.jitter)
            (reconnect now prev ts (next_backoff backoff) (connect t.handshake (t.meanwhile s)).1)
  unfolding reconnect
  reconnect-Fails t ts backoff s o f =
      let (e, r) = f.refused (t.meanwhile s) in simp (f.waits, f.keeps_open s o, r, f.sleeps)

  reconnect-Succeeds :
      (t : Turn) (ts : List Turn) (backoff : ℕ) (s : Agent)
      → s.closed ≡ false
      → Succeeds t
      → reconnect now prev (t ∷ ts) backoff s
        ≡ (reconnected, ([], rebind_all now prev (connect t.handshake (t.meanwhile s)).1))
  unfolding reconnect
  reconnect-Succeeds t ts backoff s o f =
      simp (f.waits, f.keeps_open s o, f.accepted (t.meanwhile s))

abbrev capped : ℕ → ℕ
capped n = if ltb n reconnect_max then n else reconnect_max

capped-next_backoff :
    (backoff least : ℕ)
    → capped backoff ≡ capped least
    → capped (next_backoff backoff) ≡ capped (least * 2)
capped-next_backoff backoff least h = ground arith

slept_lem :
    (backoff least jitter : ℕ)
    → capped backoff ≡ capped least
    → capped least ≤ slept backoff jitter × slept backoff jitter ≤ reconnect_max
slept_lem backoff least jitter h = (ground arith, ground arith)

-- How the loop ends: connected, after as many sleeps as turns failed, which are paced.
abbrev pub Ended : ℕ → List Turn → Ending × (List ℕ × Agent) → Type 0
Ended least fails (e, (sleeps, s)) =
    e ≡ reconnected × length sleeps ≡ length fails × Paced least sleeps × s.connected ≡ true

module _ (now : ℕ) (prev : List (ActiveTunnel × BindRun)) (good : Turn) (rest : List Turn) where
  reconnect-Ended_from :
      (fails : List Turn) (backoff least : ℕ) (s : Agent)
      → capped backoff ≡ capped least
      → s.closed ≡ false
      → AllFail fails
      → Succeeds good
      → Ended least fails (reconnect now prev (fails ++ (good ∷ rest)) backoff s)
  reconnect-Ended_from [] backoff least s c o a g =
      rw (reconnect-Succeeds now prev good rest backoff s o g) (
        refl,
        refl,
        tt,
        rebind_all-connected now prev _
            ∙ connect-connected good.handshake (good.meanwhile s) (g.accepted (good.meanwhile s)),
      )
  reconnect-Ended_from (t ∷ ts) backoff least s c o (f, a) g =
      let (e, n, p, k) =
        reconnect-Ended_from ts (next_backoff backoff) (least * 2)
          (connect t.handshake (t.meanwhile s)).1 (capped-next_backoff backoff least c)
          (connect-closed t.handshake (t.meanwhile s) ∙ f.keeps_open s o) a g in
      let (l, u) = slept_lem backoff least t.jitter c in
      rw (reconnect-Fails now prev t (ts ++ (good ∷ rest)) backoff s o f)
        (e, ap suc n, (l, u, p), k)

  -- However many connection attempts fail, as soon as one is accepted the loop ends with the agent
  -- connected, where the agent is open at first, nothing that happens meanwhile shuts an open agent
  -- down, and the loop's context is not cancelled. It has slept once after each failure: at most thirty
  -- seconds, and at least half a second, doubled for each failure before, or thirty seconds where that
  -- is less.
  pub reconnect-Ended :
      (fails : List Turn) (s : Agent)
      → s.closed ≡ false
      → AllFail fails
      → Succeeds good
      → Ended reconnect_base fails (reconnect now prev (fails ++ (good ∷ rest)) reconnect_base s)
  reconnect-Ended fails s o a g =
      reconnect-Ended_from fails reconnect_base reconnect_base s refl o a g
