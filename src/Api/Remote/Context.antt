-- ===== src/Api/Remote/Context.antt =====
-- What a viewer that joins a pairing session of internal/api/remote.go is shown.
use trqsh.Prelude.{
  ℕ, suc, String, ◌+◌, ◌-◌, ◌≡◌, refl, sym, ap, ◌∙◌, Bool, true, false, Option, none, some, List,
  [], ◌∷◌, ◌++◌, length, drop, ltb, if◌then◌else◌, ◌==◌, string_eq, nat_eq, arith, eq_iff,
  Bool-cases, inl, inr, length-append, length-drop, drop-append, drop-drop,
}
use trqsh.Prelude.Dict.{get, get-put_same}
use trqsh.Api.Remote.Hub.{new_session}
use trqsh.Api.Remote.{
  RemoteSession, RemoteEvent, RemoteState, remote_backlog_limit, attach_agent, detach_agent,
  add_viewer, remove_viewer, publish, command, end_session, last_lines, context,
}

-- The calls on a session.
pub data Call : Type 0 where
  attaches adds_viewer ends : Call
  detaches removes_viewer : ℕ → Call
  publishes : RemoteEvent → Call
  commands : String → Call

abbrev pub after_call : Call → RemoteSession → RemoteSession
after_call attaches s = (attach_agent s).1
after_call adds_viewer s = (add_viewer s).1
after_call ends s = end_session s
after_call (detaches n) s = detach_agent n s
after_call (removes_viewer id) s = remove_viewer id s
after_call (publishes ev) s = publish ev s
after_call (commands text) s = (command text s).1

abbrev pub after_calls : List Call → RemoteSession → RemoteSession
after_calls [] s = s
after_calls (c ∷ cs) s = after_calls cs (after_call c s)

-- Every line that was published, in order, after the given ones.
abbrev pub published : List Call → List String → List String
published [] ls = ls
published (publishes ev ∷ cs) ls = published cs (if ev.type == "lines" then ls ++ ev.lines else ls)
published (c ∷ cs) ls = published cs ls

-- The state that was published last, or the given one.
abbrev pub shown : List Call → Option RemoteState → Option RemoteState
shown [] st = st
shown (publishes ev ∷ cs) st = shown cs (if ev.type == "state" then ev.state else st)
shown (c ∷ cs) st = shown cs st

-- Whether a channel of the agent is attached: the one attached last, until it is detached. The
-- numbers count the calls of attachAgent.
abbrev pub attached : List Call → ℕ → Option ℕ → Bool
attached [] n none = false
attached [] n (some k) = true
attached (attaches ∷ cs) n a = attached cs (suc n) (some n)
attached (detaches k ∷ cs) n none = attached cs n none
attached (detaches k ∷ cs) n (some j) = attached cs n (if j == k then none else some j)
attached (c ∷ cs) n a = attached cs n a

last_lines-drop : (xs : List String) → last_lines xs ≡ drop (length xs - remote_backlog_limit) xs
last_lines-drop xs = elim (Bool-cases (ltb remote_backlog_limit (length xs))) [
  | inl e ↦ rw e refl
  | inr e ↦
      let z : 0 ≡ length xs - remote_backlog_limit = ground arith in rw e (ap (λ n. drop n xs) z)
]

-- What a limit keeps of a log is the same when older lines were cut before.
last_lines-append : (xs ys : List String) → last_lines (last_lines xs ++ ys) ≡ last_lines (xs ++ ys)
last_lines-append xs ys =
    let n = length xs - remote_backlog_limit in
    let zs = xs ++ ys in
    let cut : last_lines xs ++ ys ≡ drop n zs =
      ap (λ l. l ++ ys) (last_lines-drop xs) ∙ sym (drop-append n xs ys (omega arith)) in
    let k : n + (length (drop n zs) - remote_backlog_limit) ≡ length zs - remote_backlog_limit =
      omega (arith, length-drop n zs, length-append xs ys) in
    ap last_lines cut
    ∙ last_lines-drop (drop n zs)
    ∙ drop-drop (length (drop n zs) - remote_backlog_limit) n zs
    ∙ ap (λ m. drop m zs) k
    ∙ sym (last_lines-drop zs)

abbrev number_of : Option (ℕ × List RemoteEvent) → Option ℕ
number_of none = none
number_of (some (n, ch)) = some n

abbrev is_some : Option ℕ → Bool
is_some none = false
is_some (some n) = true

record Shows (ls : List String) (st : Option RemoteState) (n : ℕ) (a : Option ℕ) (s : RemoteSession)
    : Type 0 where
  backlog : s.backlog ≡ last_lines ls
  state : s.state ≡ st
  chs : s.agent_chs ≡ n
  agent : number_of s.agent_ch ≡ a
  connected : s.agent_connected ≡ is_some a

publish-Shows :
    (ev : RemoteEvent) (ls : List String) (st : Option RemoteState) (n : ℕ) (a : Option ℕ)
    (s : RemoteSession)
    → Shows ls st n a s
    → Shows
        (if ev.type == "lines" then ls ++ ev.lines else ls)
        (if ev.type == "state" then ev.state else st)
        n
        a
        (publish ev s)
unfolding publish
publish-Shows ev ls st n a s h = elim (Bool-cases (ev.type == "lines")) [
  | inl e ↦
      let f : (ev.type == "state") ≡ false =
        ap (λ t. t == "state") ((eq_iff ev.type "lines").0 e) in
      rw (e, f)
        (record {
          backlog = ap (λ l. last_lines (l ++ ev.lines)) h.backlog ∙ last_lines-append ls ev.lines;
          state = h.state;
          chs = h.chs;
          agent = h.agent;
          connected = h.connected;
        })
  | inr e ↦ elim (Bool-cases (ev.type == "state")) [
    | inl f ↦
        rw (e, f)
          (record {
            backlog = h.backlog;
            state = refl;
            chs = h.chs;
            agent = h.agent;
            connected = h.connected;
          })
    | inr f ↦
        rw (e, f)
          (record {
            backlog = h.backlog;
            state = h.state;
            chs = h.chs;
            agent = h.agent;
            connected = h.connected;
          })
  ]
]

module _ (ls : List String) (st : Option RemoteState) (n : ℕ) (s : RemoteSession) where
  detach_agent-Shows :
      (k j : ℕ)
      → Shows ls st n (some j) s
      → Shows ls st n (if j == k then none else some j) (detach_agent k s)
  unfolding detach_agent
  detach_agent-Shows k j h = ground arith

  detach_agent-Shows-none : (k : ℕ) → Shows ls st n none s → Shows ls st n none (detach_agent k s)
  unfolding detach_agent
  detach_agent-Shows-none k h = ground arith

  -- The other calls keep what is shown.
  module _ (a : Option ℕ) (h : Shows ls st n a s) where
    add_viewer-Shows : Shows ls st n a (add_viewer s).1
    unfolding add_viewer
    add_viewer-Shows = ground arith

    end_session-Shows : Shows ls st n a (end_session s)
    unfolding end_session
    end_session-Shows = ground arith

    remove_viewer-Shows : (id : ℕ) → Shows ls st n a (remove_viewer id s)
    unfolding remove_viewer
    remove_viewer-Shows id = ground arith

    command-Shows : (text : String) → Shows ls st n a (command text s).1
    unfolding command
    command-Shows text = ground arith

after_calls-Shows :
    (cs : List Call) (ls : List String) (st : Option RemoteState) (n : ℕ) (a : Option ℕ)
    (s : RemoteSession)
    → Shows ls st n a s
    → let s' = after_calls cs s in
      s'.backlog ≡ last_lines (published cs ls)
      × s'.state ≡ shown cs st
      × s'.agent_connected ≡ attached cs n a
unfolding attach_agent
after_calls-Shows [] ls st n none s h = (h.backlog, h.state, h.connected)
after_calls-Shows [] ls st n (some k) s h = (h.backlog, h.state, h.connected)
after_calls-Shows (attaches ∷ cs) ls st n a s h =
    after_calls-Shows cs ls st (suc n) (some n) (attach_agent s).1 (record {
      backlog = h.backlog;
      state = h.state;
      chs = omega (arith, h.chs);
      agent = ap some h.chs;
      connected = refl;
    })
after_calls-Shows (publishes ev ∷ cs) ls st n a s h =
    after_calls-Shows cs _ _ n a (publish ev s) (publish-Shows ev ls st n a s h)
after_calls-Shows (adds_viewer ∷ cs) ls st n a s h =
    after_calls-Shows cs ls st n a (add_viewer s).1 (add_viewer-Shows ls st n s a h)
after_calls-Shows (ends ∷ cs) ls st n a s h =
    after_calls-Shows cs ls st n a (end_session s) (end_session-Shows ls st n s a h)
after_calls-Shows (removes_viewer id ∷ cs) ls st n a s h =
    after_calls-Shows cs ls st n a (remove_viewer id s) (remove_viewer-Shows ls st n s a h id)
after_calls-Shows (commands text ∷ cs) ls st n a s h =
    after_calls-Shows cs ls st n a (command text s).1 (command-Shows ls st n s a h text)
after_calls-Shows (detaches k ∷ cs) ls st n none s h =
    after_calls-Shows cs ls st n none (detach_agent k s) (detach_agent-Shows-none ls st n s k h)
after_calls-Shows (detaches k ∷ cs) ls st n (some j) s h =
    after_calls-Shows cs ls st n (if j == k then none else some j) (detach_agent k s)
      (detach_agent-Shows ls st n s k j h)

-- After any calls on a new session, a viewer that joins is sent, in this order: the lines published
-- since, the last 200 at most, where there are any; the state published last, where there is one; and
-- whether an agent is attached, which the one that attached last is until it detaches. What another
-- viewer does, commands and the end of the session change none of this.
pub add_viewer-after_calls :
    (now : ℕ) (code org_id : String) (cs : List Call)
    → let (id, s) = add_viewer (after_calls cs (new_session now code org_id)) in
      let ls = published cs [] in
      get s.viewers id
      ≡ some (context (drop (length ls - 200) ls) (shown cs none) (attached cs 0 none))
unfolding add_viewer
add_viewer-after_calls now code org_id cs =
    let s = after_calls cs (new_session now code org_id) in
    let ls = drop (length (published cs []) - 200) (published cs []) in
    let (a, b, c) =
      after_calls-Shows cs [] none 0 none (new_session now code org_id)
        (record { backlog = refl; state = refl; chs = refl; agent = refl; connected = refl }) in
    get-put_same s.viewers s.next_viewer (context s.backlog s.state s.agent_connected)
    ∙ ap (λ l. some (context l s.state s.agent_connected)) (a ∙ last_lines-drop (published cs []))
    ∙ ap (λ x. some (context ls x s.agent_connected)) b
    ∙ ap (λ x. some (context ls (shown cs none) x)) c
