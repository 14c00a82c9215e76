-- ===== src/Inspect/Recent.antt =====
-- What a reader of the Recorder of internal/agent/inspect/inspect.go sees.
use trqsh.Prelude.{
  ℕ, zero, suc, ◌≤◌, ◌<◌, ◌≡◌, refl, sym, ap, ◌∙◌, List, [], ◌∷◌, ◌++◌, length, take, drop, leb,
  if◌then◌else◌, arith, nat_eq, Bool-cases, inl, inr, length-append, take-append_length,
}
use trqsh.Inspect.{
  CapturedRequest, Recorder, new_recorder, room_made, add, newest_first, list_captures, clear,
  subscribe, unsubscribe,
}

-- The calls that change a recorder.
pub data Call : Type 0 where
  adds : CapturedRequest → Call
  clears subscribes : Call
  unsubscribes : ℕ → Call

abbrev pub after_call : Call → Recorder → Recorder
after_call (adds c) r = (add c r).1
after_call clears r = clear r
after_call subscribes r = (subscribe r).1
after_call (unsubscribes id) r = unsubscribe id r

abbrev pub after_calls : List Call → Recorder → Recorder
after_calls [] r = r
after_calls (e ∷ es) r = after_calls es (after_call e r)

-- What a call makes of the record of everything added since the last Clear, the newest first.
abbrev pub logged : Call → Recorder → List CapturedRequest → List CapturedRequest
logged (adds c) r log = (add c r).0 ∷ log
logged clears r log = []
logged subscribes r log = log
logged (unsubscribes id) r log = log

abbrev pub log_of : List Call → Recorder → List CapturedRequest → List CapturedRequest
log_of [] r log = log
log_of (e ∷ es) r log = log_of es (after_call e r) (logged e r log)

newest_first-snoc :
    (xs : List CapturedRequest) (c : CapturedRequest)
    → newest_first (xs ++ (c ∷ [])) ≡ c ∷ newest_first xs
newest_first-snoc [] c = refl
newest_first-snoc (x ∷ xs) c = rw (newest_first-snoc xs c)

length-newest_first : (xs : List CapturedRequest) → length (newest_first xs) ≡ length xs
length-newest_first [] = refl
length-newest_first (x ∷ xs) =
    omega (arith, length-append (newest_first xs) (x ∷ []), length-newest_first xs)

newest_first-drop :
    (k : ℕ) (xs : List CapturedRequest)
    → length xs ≡ suc k
    → newest_first (drop 1 xs) ≡ take k (newest_first xs)
newest_first-drop k [] h = absurd (omega arith)
newest_first-drop k (x ∷ xs) h =
    let e : k ≡ length (newest_first xs) = omega (arith, length-newest_first xs) in
    sym (
      ap (λ n. take n (newest_first xs ++ (x ∷ []))) e
      ∙ take-append_length (newest_first xs) (x ∷ []))

take-take-suc : (k : ℕ) (xs : List CapturedRequest) → take k (take (suc k) xs) ≡ take k xs
take-take-suc zero xs = refl
take-take-suc (suc k) [] = refl
take-take-suc (suc k) (x ∷ xs) = rw (take-take-suc k xs)

length-take_le : (k : ℕ) (xs : List CapturedRequest) → length (take k xs) ≤ k
length-take_le zero xs = omega arith
length-take_le (suc k) [] = omega arith
length-take_le (suc k) (x ∷ xs) = omega (arith, length-take_le k xs)

take_short :
    (k : ℕ) (xs : List CapturedRequest) → length (take (suc k) xs) ≤ k → take (suc k) xs ≡ take k xs
take_short zero [] h = refl
take_short zero (x ∷ xs) h = absurd (omega arith)
take_short (suc k) [] h = refl
take_short (suc k) (x ∷ xs) h = rw (take_short k xs (omega arith))

-- The ring holds the newest captures of a log, up to its capacity.
abbrev Holds : List CapturedRequest → Recorder → Type 0
Holds log r = 0 < r.cap_n × newest_first r.buf ≡ take r.cap_n log

newest_first-room_made :
    (k : ℕ) (log : List CapturedRequest) (r : Recorder)
    → r.cap_n ≡ suc k
    → newest_first r.buf ≡ take (suc k) log
    → newest_first (room_made r) ≡ take k log
newest_first-room_made k log r c h = elim (Bool-cases (leb r.cap_n (length r.buf))) [
  | inl b ↦
      let n : length r.buf ≡ suc k =
        ground (arith, length-newest_first r.buf, ap length h, length-take_le (suc k) log) in
      rw b (newest_first-drop k r.buf n ∙ ap (take k) h ∙ take-take-suc k log)
  | inr b ↦
      let n : length (take (suc k) log) ≤ k =
        ground (arith, length-newest_first r.buf, ap length h) in
      rw b (h ∙ take_short k log n)
]

add-Holds :
    (c : CapturedRequest) (log : List CapturedRequest) (r : Recorder)
    → Holds log r
    → Holds ((add c r).0 ∷ log) (add c r).1
unfolding add
add-Holds c log r (p, h) = (p, added r.cap_n refl)
  where
    d : CapturedRequest
    d = (add c r).0

    added : (n : ℕ) → r.cap_n ≡ n → newest_first (room_made r ++ (d ∷ [])) ≡ take r.cap_n (d ∷ log)
    added zero e = absurd (omega arith)
    added (suc k) e =
        let g = newest_first-room_made k log r e (h ∙ ap (λ n. take n log) e) in
        newest_first-snoc (room_made r) d ∙ ap (λ t. d ∷ t) g ∙ sym (ap (λ n. take n (d ∷ log)) e)

take_nothing : (n : ℕ) → [] ≡ take {A = CapturedRequest} n []
take_nothing zero = refl
take_nothing (suc n) = refl

after_call-Holds :
    (e : Call) (log : List CapturedRequest) (r : Recorder)
    → Holds log r
    → Holds (logged e r log) (after_call e r)
unfolding subscribe unsubscribe
after_call-Holds (adds c) log r h = add-Holds c log r h
after_call-Holds clears log r (p, h) = (p, take_nothing r.cap_n)
after_call-Holds subscribes log r h = h
after_call-Holds (unsubscribes id) log r h = h

after_calls-Holds :
    (es : List Call) (log : List CapturedRequest) (r : Recorder)
    → Holds log r
    → Holds (log_of es r log) (after_calls es r)
after_calls-Holds [] log r h = h
after_calls-Holds (e ∷ es) log r h =
    after_calls-Holds es (logged e r log) (after_call e r) (after_call-Holds e log r h)

after_call-cap_n : (e : Call) (r : Recorder) → (after_call e r).cap_n ≡ r.cap_n
unfolding add subscribe unsubscribe
after_call-cap_n (adds c) r = refl
after_call-cap_n clears r = refl
after_call-cap_n subscribes r = refl
after_call-cap_n (unsubscribes id) r = refl

after_calls-cap_n : (es : List Call) (r : Recorder) → (after_calls es r).cap_n ≡ r.cap_n
after_calls-cap_n [] r = refl
after_calls-cap_n (e ∷ es) r = after_calls-cap_n es (after_call e r) ∙ after_call-cap_n e r

-- After any calls on a new recorder, List gives the captures that Add returned since the last Clear,
-- the newest first, as many as the capacity, which is 128 for a capacity of 0.
pub list_captures-newest :
    (capacity : ℕ) (es : List Call)
    → let r = new_recorder capacity in
      list_captures (after_calls es r)
      ≡ take (if leb capacity 0 then 128 else capacity) (log_of es r [])
unfolding new_recorder
list_captures-newest capacity es =
    let r = new_recorder capacity in
    let h : Holds [] r = (ground arith, take_nothing r.cap_n) in
    (after_calls-Holds es [] r h).1 ∙ ap (λ n. take n (log_of es r [])) (after_calls-cap_n es r)
