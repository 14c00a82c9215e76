-- ===== src/Api/Remote/Reaped.antt =====
-- A pairing session of internal/api/remote.go that a lookup drops is never ended.
use trqsh.Prelude.{
  ℕ, ◌<◌, ◌≡◌, ◌≢◌, refl, sym, ap, subst, ◌∙◌, String, true, false, none, some, List, [], ◌∷◌, ◌==◌,
  string_eq, nat_eq, arith, eq_iff, Bool-cases, Option-cases, inl, inr, lt→ltb, if◌then◌else◌,
}
use mathlib.Core.Option.{some_inj}
use trqsh.Prelude.Dict.{get, put, delete, get-put, get-delete, get-empty}
use trqsh.Api.Remote.{RemoteSession}
use trqsh.Api.Remote.Hub.{
  RemoteHub, new_session, new_remote_hub, create, get_session, is_expired, on_object,
}
use trqsh.Api.Remote.Moves.{Moves, here, drops, changes, makes}
use trqsh.Api.Remote.Moves.Calls.{after_call-Moves}
use trqsh.Api.Remote.Streams.{
  StreamStep, after_step, after_steps, after_step-code, after_steps-ended,
}
use trqsh.Api.Remote.Told.{EachWaiting, IsOld, after_steps-IsOld}
use trqsh.Api.Remote.Turns.{HubTurn, call, stream, after_turn, after_turns, steps_of}

-- A code leads to an object that was made and that has this code.
abbrev IsLinked : RemoteHub → Type 0
IsLinked h =
    (c : String) (p : ℕ)
    → get h.sessions c ≡ some p
    → p < h.next_object × ((s : RemoteSession) × get h.objects p ≡ some s × s.code ≡ c)

-- No code leads to the object, which is as given.
abbrev Unlinked : ℕ → RemoteSession → RemoteHub → Type 0
Unlinked p s h =
    p < h.next_object × get h.objects p ≡ some s × ((c : String) → get h.sessions c ≢ some p)

-- An object that changes and keeps its code leaves the hub linked.
put-IsLinked :
    (q : ℕ) (t t' : RemoteSession) (h : RemoteHub)
    → get h.objects q ≡ some t
    → t'.code ≡ t.code
    → IsLinked h
    → IsLinked (record h { objects = put h.objects q t' })
put-IsLinked q t t' h g w i c p e =
    let (a, (s, f, d)) = i c p e in
    (
      a,
      elim (Bool-cases (q == p)) [
        | inl x ↦
            let y : get h.objects q ≡ get h.objects p = ground arith in
            let z : t ≡ s = some_inj.0 (sym g ∙ y ∙ f) in
            (t', ground (arith, get-put h.objects q p t'), w ∙ ap (λ r. r.code) z ∙ d)
        | inr x ↦ (s, ground (arith, get-put h.objects q p t'), d)
      ],
    )

module _ {h : RemoteHub} where
  Moves-Unlinked :
      {k : RemoteHub} (p : ℕ) (s : RemoteSession) → Moves h k → Unlinked p s h → Unlinked p s k
  unfolding create
  Moves-Unlinked p s here u = u
  Moves-Unlinked p s (drops {k} m code) u =
      let (a, b, f) = Moves-Unlinked p s m u in
      (a, b, λ c e. ground (arith, get-delete k.sessions code c, f c))
  Moves-Unlinked p s (changes {k} m code q t t' l g e) u =
      let (a, b, f) = Moves-Unlinked p s m u in
      let n : q ≢ p = λ i. f code (l ∙ ap some i) in
      (a, ground (arith, get-put k.objects q p t'), f)
  Moves-Unlinked p s (makes {k} m now code org_id) u =
      let (a, b, f) = Moves-Unlinked p s m u in
      (
        omega arith,
        ground (arith, get-put k.objects k.next_object p (new_session now code org_id)),
        λ c e. ground (arith, get-put k.sessions code c k.next_object, f c),
      )

  Moves-IsLinked : {k : RemoteHub} → Moves h k → IsLinked h → IsLinked k
  unfolding create
  Moves-IsLinked here i c p e = i c p e
  Moves-IsLinked (drops {k} m code) i c p e =
      Moves-IsLinked m i c p (ground (arith, get-delete k.sessions code c))
  Moves-IsLinked (changes {k} m code q t t' l g w) i c p e =
      put-IsLinked q t t' k g w (Moves-IsLinked m i) c p e
  Moves-IsLinked (makes {k} m now code org_id) i c p e = elim (Bool-cases (code == c)) [
    | inl x ↦
        let y : k.next_object ≡ p = ground (arith, get-put k.sessions code c k.next_object) in
        (
          omega arith,
          (
            new_session now code org_id,
            ground (arith, get-put k.objects k.next_object p (new_session now code org_id)),
            (eq_iff code c).0 x,
          ),
        )
    | inr x ↦
        let (a, (s, f, d)) =
          Moves-IsLinked m i c p (ground (arith, get-put k.sessions code c k.next_object)) in
        (
          omega arith,
          (s, ground (arith, get-put k.objects k.next_object p (new_session now code org_id)), d),
        )
  ]

after_turn-IsLinked : (t : HubTurn) (h : RemoteHub) → IsLinked h → IsLinked (after_turn t h)
after_turn-IsLinked (call now c) h i = Moves-IsLinked (after_call-Moves now c) i
after_turn-IsLinked (stream q t) h i = elim (Option-cases (get h.objects q)) [
  | inl e ↦ rw (e, on_object) i
  | inr (s, e) ↦ rw (e, on_object) (put-IsLinked q s (after_step t s) h e (after_step-code t s) i)
]

after_turns-IsLinked :
    (ts : List HubTurn) (h : RemoteHub) → IsLinked h → IsLinked (after_turns ts h)
after_turns-IsLinked [] h i = i
after_turns-IsLinked (t ∷ ts) h i =
    after_turns-IsLinked ts (after_turn t h) (after_turn-IsLinked t h i)

-- A step of a stream changes its own object only.
on_object-Unlinked :
    (p q : ℕ) (t : StreamStep) (s : RemoteSession) (h : RemoteHub)
    → Unlinked p s h
    → Unlinked p (if q == p then after_step t s else s) (on_object q (after_step t) h)
on_object-Unlinked p q t s h (a, b, f) = elim (Option-cases (get h.objects q)) [
  | inl e ↦ elim (Bool-cases (q == p)) [
    | inl x ↦ absurd (ground arith)
    | inr x ↦ rw (e, on_object) (rw x (a, b, f))
  ]
  | inr (r, e) ↦ elim (Bool-cases (q == p)) [
    | inl x ↦
        let y : get h.objects q ≡ get h.objects p = ground arith in
        let z : r ≡ s = some_inj.0 (sym e ∙ y ∙ b) in
        rw (e, on_object)
          (rw x (
            a,
            ground (arith, get-put h.objects q p (after_step t r))
                ∙ ap (λ w. some (after_step t w)) z,
            f,
          ))
    | inr x ↦
        rw (e, on_object) (rw x (a, ground (arith, get-put h.objects q p (after_step t r)), f))
  ]
]

after_steps-of :
    (p q : ℕ) (t : StreamStep) (ts : List HubTurn) (s : RemoteSession)
    → after_steps (steps_of p (stream q t ∷ ts)) s
      ≡ after_steps (steps_of p ts) (if q == p then after_step t s else s)
after_steps-of p q t ts s = elim (Bool-cases (q == p)) [ inl x ↦ rw x refl | inr x ↦ rw x refl ]

after_turns-Unlinked :
    (p : ℕ) (ts : List HubTurn) (s : RemoteSession) (h : RemoteHub)
    → Unlinked p s h
    → Unlinked p (after_steps (steps_of p ts) s) (after_turns ts h)
after_turns-Unlinked p [] s h u = u
after_turns-Unlinked p (call now c ∷ ts) s h u =
    after_turns-Unlinked p ts s _ (Moves-Unlinked p s (after_call-Moves now c) u)
after_turns-Unlinked p (stream q t ∷ ts) s h u =
    subst (λ r. Unlinked p r (after_turns ts (on_object q (after_step t) h)))
      (sym (after_steps-of p q t ts s))
      (after_turns-Unlinked p ts (if q == p then after_step t s else s)
        (on_object q (after_step t) h) (on_object-Unlinked p q t s h u))

new_remote_hub-IsLinked : IsLinked new_remote_hub
new_remote_hub-IsLinked c p e = absurd (ground (arith, get-empty {V = ℕ} c))

module _ (now : ℕ) (code : String) (p : ℕ) (s : RemoteSession) (h : RemoteHub)
    (e : get h.sessions code ≡ some p) (f : get h.objects p ≡ some s) where
  get_session-expired :
      s.expires_at < now
      → get_session now code h ≡ (none, record h { sessions = delete h.sessions code })
  unfolding get_session
  get_session-expired x =
      let y : is_expired now (get h.objects p) ≡ true = ap (is_expired now) f ∙ lt→ltb _ _ x in
      rw (e, get_session) (rw y refl)

  -- The codes of a sound hub lead to different objects.
  only_code : IsLinked h → (c : String) → get h.sessions c ≡ some p → c ≡ code
  only_code i c g =
      let (a, (t, y, z)) = i c p g in
      let (b, (u, v, w)) = i code p e in sym z ∙ ap (λ r. r.code) (some_inj.0 (sym y ∙ v)) ∙ w

  dropped-Unlinked : IsLinked h → Unlinked p s (record h { sessions = delete h.sessions code })
  dropped-Unlinked i = (
    (i code p e).0,
    f,
    λ c g.
        let y : get h.sessions c ≡ some p = ground (arith, get-delete h.sessions code c) in
        let z : (code == c) ≡ false = ground (arith, get-delete h.sessions code c) in
        absurd (ground (arith, eq_iff code c, only_code i c y)),
  )

-- However a hub has come about, a lookup of a code whose session has expired finds none and drops the
-- code; from then on no handler and no sweep reaches the session, whatever turns follow. Its object is
-- what its own open streams make of it, as they read their channels and leave it: it is not ended, and
-- what waits to be read in it waited at the lookup or says that the agent is gone.
pub get_session-reaped :
    (before later : List HubTurn) (now : ℕ) (code : String) (p : ℕ) (s : RemoteSession)
    → let h = after_turns before new_remote_hub in
      get h.sessions code ≡ some p
      → get h.objects p ≡ some s
      → s.expires_at < now
      → let (found, k) = get_session now code h in
        let s' = after_steps (steps_of p later) s in
        found ≡ none
        × get (after_turns later k).objects p ≡ some s'
        × s'.ended ≡ s.ended
        × EachWaiting (IsOld s) s'
get_session-reaped before later now code p s e f x =
    let h = after_turns before new_remote_hub in
    let i = after_turns-IsLinked before new_remote_hub new_remote_hub-IsLinked in
    let r = get_session-expired now code p s h e f x in
    (
      ap (λ y. y.0) r,
      ap (λ y. get (after_turns later y.1).objects p) r
          ∙ (after_turns-Unlinked p later s _ (dropped-Unlinked now code p s h e f i)).1,
      after_steps-ended (steps_of p later) s,
      after_steps-IsOld (steps_of p later) s,
    )
