-- ===== src/Inspect/Live.antt =====
-- What a subscriber of the Recorder of internal/agent/inspect/inspect.go is sent.
use trqsh.Prelude.{
  ℕ, zero, suc, ◌≤◌, ◌≡◌, refl, sym, ap, ◌∙◌, Bool, true, false, some, List, [], ◌∷◌, ◌++◌, length,
  take, any, ltb, arith, nat_eq, Bool-cases, inl, inr, length-append, take-append_length,
}
use mathlib.Core.List.{append_assoc}
use trqsh.Prelude.Dict.{get, get-put_same, get-update_values}
use trqsh.Inspect.{CapturedRequest, Channel, Recorder, channel_places, send, add, subscribe}
use trqsh.Inspect.Recent.{Call, adds, clears, subscribes, unsubscribes, after_call, after_calls}

-- The captures that the calls to Add return, in order.
abbrev pub returned : List Call → Recorder → List CapturedRequest
returned [] r = []
returned (adds c ∷ es) r = (add c r).0 ∷ returned es (after_call (adds c) r)
returned (clears ∷ es) r = returned es (after_call clears r)
returned (subscribes ∷ es) r = returned es (after_call subscribes r)
returned (unsubscribes id ∷ es) r = returned es (after_call (unsubscribes id) r)

abbrev pub is_subscription : Call → Bool
is_subscription (adds c) = false
is_subscription clears = false
is_subscription subscribes = true
is_subscription (unsubscribes id) = true

-- The first captures of a stream are in the channel.
abbrev pub first_places : List CapturedRequest → Channel
first_places cs = take channel_places cs

first_places-full :
    (ch cs : List CapturedRequest) → length ch ≡ channel_places → first_places (ch ++ cs) ≡ ch
first_places-full ch cs h = sym (ap (λ n. take n (ch ++ cs)) h) ∙ take-append_length ch cs

first_places-send :
    (c : CapturedRequest) (ch cs : List CapturedRequest)
    → length ch ≤ channel_places
    → first_places (send c ch ++ cs) ≡ first_places (ch ++ (c ∷ cs))
      × length (send c ch) ≤ channel_places
first_places-send c ch cs h = elim (Bool-cases (ltb (length ch) channel_places)) [
  | inl b ↦ rw b (ap first_places (append_assoc ch (c ∷ []) cs), short b)
  | inr b ↦
      let n : length ch ≡ channel_places = ground arith in
      rw b (first_places-full ch cs n ∙ sym (first_places-full ch (c ∷ cs) n), h)
]
  where
    short : ltb (length ch) channel_places ≡ true → length (ch ++ (c ∷ [])) ≤ channel_places
    short b = ground (arith, length-append ch (c ∷ []))

first_places-short : (ch : Channel) → length ch ≤ channel_places → first_places (ch ++ []) ≡ ch
first_places-short ch h = short channel_places ch h
  where
    short : (n : ℕ) (cs : Channel) → length cs ≤ n → take n (cs ++ []) ≡ cs
    short zero [] k = refl
    short zero (c ∷ cs) k = absurd (omega arith)
    short (suc n) [] k = refl
    short (suc n) (c ∷ cs) k = rw (short n cs (omega arith))

after_calls-channel :
    (es : List Call) (id : ℕ) (ch : Channel) (r : Recorder)
    → any is_subscription es ≡ false
    → length ch ≤ channel_places
    → get r.subs id ≡ some ch
    → get (after_calls es r).subs id ≡ some (first_places (ch ++ returned es r))
unfolding add
after_calls-channel [] id ch r q h g = g ∙ ap some (sym (first_places-short ch h))
after_calls-channel (adds c ∷ es) id ch r q h g =
    let d = (add c r).0 in
    let cs = returned es (add c r).1 in
    let (a, b) = first_places-send d ch cs h in
    after_calls-channel es id (send d ch) (add c r).1 q b
      (get-update_values (send d) r.subs id ch g)
    ∙ ap some a
after_calls-channel (clears ∷ es) id ch r q h g =
    after_calls-channel es id ch (after_call clears r) q h g
after_calls-channel (subscribes ∷ es) id ch r q h g = absurd (ground arith)
after_calls-channel (unsubscribes i ∷ es) id ch r q h g = absurd (ground arith)

-- The channel that Subscribe returns has, after any calls to Add and Clear and with nothing read
-- from it, the first captures that Add returned since, in order and as many as it has places: Clear
-- drops none of them.
pub subscribe-channel :
    (r : Recorder) (es : List Call)
    → any is_subscription es ≡ false
    → let (id, s) = subscribe r in
      get (after_calls es s).subs id ≡ some (take channel_places (returned es s))
unfolding subscribe
subscribe-channel r es q =
    let (id, s) = subscribe r in
    after_calls-channel es id [] s q (omega arith) (get-put_same r.subs r.next_sub [])
