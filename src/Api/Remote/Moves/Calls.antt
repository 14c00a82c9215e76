-- ===== src/Api/Remote/Moves/Calls.antt =====
-- Every handler and every tick of the sweeper of internal/api/remote.go is a sequence of moves.
use trqsh.Prelude.{
  ℕ, ◌≡◌, refl, ap, subst, ◌∙◌, String, Bool, true, false, not, ◌||◌, ◌&&◌, Option, none, some,
  List, [], ◌∷◌, keep, ltb, if◌then◌else◌, ◌==◌, string_eq, nat_eq, Option-cases, inl, inr,
}
use trqsh.Prelude.Text.{byte_length}
use trqsh.Prelude.Dict.{Dict, keys, get, put, delete}
use trqsh.Api.Remote.{RemoteSession, attach_agent, publish, command, end_session, add_viewer}
use trqsh.Api.Remote.Hub.{
  RemoteHub, Answer, get_session, has_expired, end_object, end, end_objects, pointers, delete_all,
  sweep, session_for_agent, code_of, on_object, opened, commanded, handle_remote_create,
  handle_remote_agent_stream, handle_remote_publish, handle_remote_end, handle_remote_viewer_stream,
  handle_remote_command,
}
use trqsh.Api.Remote.Moves.{
  HubCall, creates, agent_streams, ends, publishes, viewer_streams, commands, sweeps, after_call,
  Moves, here, drops, changes, makes, Leads, get_session-Leads, session_for_agent-Leads,
  attach_agent-code, add_viewer-code, publish-code, command-code, end_session-code,
}

module _ {h k : RemoteHub} (m : Moves h k) (code : String) (p : ℕ)
    (l : get k.sessions code ≡ some p) where
  on_object-Moves :
      (f : RemoteSession → RemoteSession)
      → ((s : RemoteSession) → (f s).code ≡ s.code)
      → Moves h (on_object p f k)
  on_object-Moves f c = elim (Option-cases (get k.objects p)) [
    | inl e ↦ rw (e, on_object) m
    | inr (s, e) ↦ rw (e, on_object) (changes m code p s (f s) l e (c s))
  ]

  opened-Moves :
      (f : RemoteSession → ℕ × RemoteSession)
      → ((s : RemoteSession) → (f s).1.code ≡ s.code)
      → Moves h (opened p f k).1
  opened-Moves f c = elim (Option-cases (get k.objects p)) [
    | inl e ↦ rw (e, opened) m
    | inr (s, e) ↦ rw (e, opened) (changes m code p s (f s).1 l e (c s))
  ]

  end_object-Moves : Moves h (end_object p k)
  unfolding end_object
  end_object-Moves = on_object-Moves end_session end_session-code

  commanded-Moves : (text : String) → Moves h (commanded p text k).1
  commanded-Moves text = elim (Option-cases (get k.objects p)) [
    | inl e ↦ rw (e, commanded) m
    | inr (s, e) ↦ rw (e, commanded) (sent s e (command text s).0)
  ]
    where
      sent :
          (s : RemoteSession)
          → get k.objects p ≡ some s
          → (b : Bool)
          → let sends : Answer × RemoteHub =
              (Answer.no_content, record k { objects = put k.objects p (command text s).1 }) in
            let answers : Answer × RemoteHub = if b then sends else (Answer.conflict, k) in
            Moves h answers.1
      sent s e true = changes m code p s (command text s).1 l e (command-code text s)
      sent s e false = m

-- To end an object and to change the codes commute.
end_object-sessions :
    (p : ℕ) (k : RemoteHub) (d : Dict String ℕ)
    → (end_object p k).sessions ≡ k.sessions
      × record (end_object p k) { sessions = d } ≡ end_object p (record k { sessions = d })
unfolding end_object
end_object-sessions p k d = elim (Option-cases (get k.objects p)) [
  | inl e ↦ rw (e, end_object) (refl, refl)
  | inr (s, e) ↦ rw (e, end_object) (refl, refl)
]

end_objects-sessions :
    (ps : List ℕ) (k : RemoteHub) (d : Dict String ℕ)
    → record (end_objects ps k) { sessions = d } ≡ end_objects ps (record k { sessions = d })
end_objects-sessions [] k d = refl
end_objects-sessions (p ∷ ps) k d =
    end_objects-sessions ps (end_object p k) d ∙ ap (end_objects ps) (end_object-sessions p k d).1

module _ {h : RemoteHub} where
  end-Moves : {k : RemoteHub} → Moves h k → (code : String) → Moves h (end code k)
  unfolding end
  end-Moves {k} m code = elim (Option-cases (get k.sessions code)) [
    | inl e ↦ rw (e, end) (drops m code)
    | inr (p, e) ↦
        let d = delete k.sessions code in
        let (a, b) = end_object-sessions p k d in
        rw (e, end)
          (subst (Moves h) (ap (λ x. record (end_object p k) { sessions = delete x code }) a ∙ b)
            (drops (end_object-Moves m code p e) code))
  ]

  delete_all-Moves :
      (cs : List String) {k : RemoteHub}
      → Moves h k
      → Moves h (record k { sessions = delete_all cs k.sessions })
  delete_all-Moves [] m = m
  delete_all-Moves (c ∷ cs) m = delete_all-Moves cs (drops m c)

  end_objects-Moves :
      (cs : List String) (d : Dict String ℕ) {k : RemoteHub}
      → Moves h k
      → k.sessions ≡ d
      → let k' = end_objects (pointers cs d) k in Moves h k' × k'.sessions ≡ d
  end_objects-Moves [] d m e = (m, e)
  end_objects-Moves (c ∷ cs) d {k} m e = elim (Option-cases (get d c)) [
    | inl f ↦ rw (f, end_objects) (end_objects-Moves cs d m e)
    | inr (p, f) ↦
        rw (f, end_objects)
          (end_objects-Moves cs d (end_object-Moves m c p (ap (λ x. get x c) e ∙ f))
            ((end_object-sessions p k d).0 ∙ e))
  ]

  sweep-Moves : (now : ℕ) → Moves h (sweep now h)
  unfolding sweep
  sweep-Moves now =
      let cs = keep (has_expired now h) (keys h.sessions) in
      let (m, e) = end_objects-Moves cs h.sessions here refl in
      let d = delete_all cs h.sessions in
      let ps = pointers cs h.sessions in
      subst (Moves h)
        (ap (λ x. record (end_objects ps h) { sessions = delete_all cs x }) e
          ∙ end_objects-sessions ps h d)
        (delete_all-Moves cs m)

  -- Every call of the hub is a sequence of moves.
  pub after_call-Moves : (now : ℕ) (c : HubCall) → Moves h (after_call now c h)
  unfolding handle_remote_create handle_remote_agent_stream handle_remote_publish handle_remote_end
      handle_remote_viewer_stream handle_remote_command
  after_call-Moves now (creates code org_id) = makes here now code org_id
  after_call-Moves now sweeps = sweep-Moves now
  after_call-Moves now (agent_streams org_id code) =
      opens (session_for_agent now org_id code h) (session_for_agent-Leads now org_id code h)
    where
      opens :
          (x : Option ℕ × RemoteHub)
          → Leads h code x
          → Moves h
              (elim x.0 as (λ _. Answer × RemoteHub) [
                | none ↦ (Answer.not_found, x.1)
                | some p ↦ opened p attach_agent x.1
              ]).1
      opens (none, k) m = m
      opens (some p, k) (m, l) = opened-Moves m code p l attach_agent attach_agent-code
  after_call-Moves now (viewer_streams code) =
      opens (get_session now code h) (get_session-Leads now code h)
    where
      opens :
          (x : Option ℕ × RemoteHub)
          → Leads h code x
          → Moves h
              (elim x.0 as (λ _. Answer × RemoteHub) [
                | none ↦ (Answer.not_found, x.1)
                | some p ↦ opened p add_viewer x.1
              ]).1
      opens (none, k) m = m
      opens (some p, k) (m, l) = opened-Moves m code p l add_viewer add_viewer-code
  after_call-Moves now (publishes org_id code ev) =
      published (not (ev.type == "lines") && not (ev.type == "state"))
        (session_for_agent now org_id code h) (session_for_agent-Leads now org_id code h)
    where
      published :
          (b : Bool) (x : Option ℕ × RemoteHub)
          → Leads h code x
          → Moves h
              (elim x.0 as (λ _. Answer × RemoteHub) [
                | none ↦ (Answer.not_found, x.1)
                | some p ↦
                    if b
                    then (Answer.bad_request, x.1)
                    else (Answer.no_content, on_object p (publish ev) x.1)
              ]).1
      published b (none, k) m = m
      published true (some p, k) (m, l) = m
      published false (some p, k) (m, l) = on_object-Moves m code p l (publish ev) (publish-code ev)
  after_call-Moves now (ends org_id code) =
      ended (session_for_agent now org_id code h) (session_for_agent-Leads now org_id code h)
    where
      ended :
          (x : Option ℕ × RemoteHub)
          → Leads h code x
          → Moves h
              (elim x.0 as (λ _. Answer × RemoteHub) [
                | none ↦ (Answer.not_found, x.1)
                | some p ↦ (Answer.no_content, end (code_of (get x.1.objects p)) x.1)
              ]).1
      ended (none, k) m = m
      ended (some p, k) (m, l) = end-Moves m (code_of (get k.objects p))
  after_call-Moves now (commands code text) =
      commanded_by (byte_length text == 0 || ltb 240 (byte_length text)) (get_session now code h)
        (get_session-Leads now code h)
    where
      commanded_by :
          (b : Bool) (x : Option ℕ × RemoteHub)
          → Leads h code x
          → Moves h
              (elim x.0 as (λ _. Answer × RemoteHub) [
                | none ↦ (Answer.not_found, x.1)
                | some p ↦ if b then (Answer.bad_request, x.1) else commanded p text x.1
              ]).1
      commanded_by b (none, k) m = m
      commanded_by true (some p, k) (m, l) = m
      commanded_by false (some p, k) (m, l) = commanded-Moves m code p l text
