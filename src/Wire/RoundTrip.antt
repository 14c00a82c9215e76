-- ===== src/Wire/RoundTrip.antt =====
-- What is written by pkg/proto/codec.go is read back.
use trqsh.Prelude.{
  ℕ, zero, suc, ◌≤◌, ◌≡◌, refl, sym, ap, ◌∙◌, Option, none, some, List, [], ◌∷◌, ◌++◌, ltb, length,
  take, drop, take-append-drop, length-take, take-append_length, drop-append_length, length-append,
  arith, Bool-cases, inl, inr, Option-cases,
}
use mathlib.Core.List.{append_assoc}
use trqsh.Wire.{
  max_frame_size, put_uint32, read_full, uint32, Written, written, marshal_failed, write_too_large,
  Frame, frame, short_read, frame_too_large, unmarshal_failed, write_framed, framed, read_framed,
  header_read, body_read, parsed,
}

uint32-put_uint32 : (n : ℕ) → n ≤ max_frame_size → uint32 (put_uint32 n) ≡ n
unfolding put_uint32
uint32-put_uint32 n h = omega arith

pub read_full-append : (b s : List ℕ) → read_full (length b) (b ++ s) ≡ some (b, s)
unfolding read_full
read_full-append b s =
    ground (arith, length-append b s, take-append_length b s, drop-append_length b s)

read_full-put_uint32 :
    (n : ℕ) (s : List ℕ) → read_full 4 (put_uint32 n ++ s) ≡ some (put_uint32 n, s)
unfolding put_uint32
read_full-put_uint32 n s = read_full-append (put_uint32 n) s

-- The bytes of a message that is written; none where the write is refused.
abbrev pub bytes_of : Written → Option (List ℕ)
bytes_of (written b) = some b
bytes_of marshal_failed = none
bytes_of write_too_large = none

module _ {M : Type 0} (marshal : M → Option (List ℕ)) (unmarshal : List ℕ → Option M) where
  framed-read :
      (m : M) (b out s : List ℕ)
      → unmarshal b ≡ some m
      → bytes_of (framed marshal (some b)) ≡ some out
      → read_framed unmarshal (out ++ s) ≡ frame m s
  unfolding framed read_framed header_read body_read parsed
  framed-read m b out s u h = elim (Bool-cases (ltb max_frame_size (length b))) [
    | inl e ↦ absurd (ground arith)
    | inr e ↦
        let f : out ≡ put_uint32 (length b) ++ b = ground arith in
        rw f (
          rw (append_assoc (put_uint32 (length b)) b s) (
            rw (read_full-put_uint32 (length b) (b ++ s))
              (rw (uint32-put_uint32 (length b) (ground arith), e, read_full-append b s, u) refl)))
  ]

  abbrev joined : Option (List ℕ) → Option (List ℕ) → Option (List ℕ)
  joined (some b) (some rest) = some (b ++ rest)
  joined (some b) none = none
  joined none rest = none

  -- The stream that writing the messages in order leaves, none where one of them is refused.
  abbrev pub stream_of : List M → Option (List ℕ)
  stream_of [] = some []
  stream_of (m ∷ ms) = joined (bytes_of (write_framed marshal m)) (stream_of ms)

  abbrev consed : M → Option (List M × List ℕ) → Option (List M × List ℕ)
  consed m none = none
  consed m (some (ms, s)) = some (m ∷ ms, s)

  abbrev then_read : Frame M → (List ℕ → Option (List M × List ℕ)) → Option (List M × List ℕ)
  then_read (frame m rest) next = consed m (next rest)
  then_read short_read next = none
  then_read frame_too_large next = none
  then_read unmarshal_failed next = none

  -- `n` reads in a row: the messages and what is left of the stream.
  abbrev pub read_many : ℕ → List ℕ → Option (List M × List ℕ)
  read_many zero s = some ([], s)
  read_many (suc n) s = then_read (read_framed unmarshal s) (read_many n)

  written-read :
      (m : M) (o : Option (List ℕ)) (out s : List ℕ)
      → ((b : List ℕ) → o ≡ some b → unmarshal b ≡ some m)
      → bytes_of (framed marshal o) ≡ some out
      → read_framed unmarshal (out ++ s) ≡ frame m s
  unfolding framed
  written-read m none out s f h = absurd (ground arith)
  written-read m (some b) out s f h = framed-read m b out s (f b refl) h

  -- Where Unmarshal undoes Marshal, any messages that are written to a stream one after another are
  -- read from it one after another, and the reads leave what follows them.
  pub write-read :
      (faithful : (m : M) (b : List ℕ) → marshal m ≡ some b → unmarshal b ≡ some m) (ms : List M)
      (out s : List ℕ)
      → stream_of ms ≡ some out
      → read_many (length ms) (out ++ s) ≡ some (ms, s)
  unfolding write_framed
  write-read faithful [] out s h = let g : out ≡ [] = ground arith in rw g refl
  write-read faithful (m ∷ ms) out s h = elim (Option-cases (bytes_of (write_framed marshal m))) [
    | inl e ↦ absurd (ground arith)
    | inr (b, e) ↦ elim (Option-cases (stream_of ms)) [
      | inl f ↦ absurd (ground arith)
      | inr (rest, f) ↦
          let g : out ≡ b ++ rest = ground arith in
          rw g (
            rw (append_assoc b rest s) (
              ap (λ r. then_read r (read_many (length ms)))
                (written-read m (marshal m) b (rest ++ s) (faithful m) e)
              ∙ ap (consed m) (write-read faithful ms rest s f)))
    ]
  ]

module _ {M : Type 0} (unmarshal : List ℕ → Option M) where
  read_parts :
      (s rest : List ℕ) (m : M)
      → read_framed unmarshal s ≡ frame m rest
      → let n = uint32 (take 4 s) in
        let t = drop 4 s in
        4 ≤ length s
        × (n ≤ max_frame_size × n ≤ length t)
        × unmarshal (take n t) ≡ some m
        × rest ≡ drop n t
  unfolding read_framed header_read body_read parsed read_full
  read_parts s rest m h =
      let n = uint32 (take 4 s) in
      let t = drop 4 s in
      elim (Bool-cases (ltb (length s) 4)) [
        | inl e ↦ absurd (ground arith)
        | inr e ↦ elim (Bool-cases (ltb max_frame_size n)) [
          | inl f ↦ absurd (ground arith)
          | inr f ↦ elim (Bool-cases (ltb (length t) n)) [
            | inl g ↦ absurd (ground arith)
            | inr g ↦ elim (Option-cases (unmarshal (take n t))) [
              | inl x ↦ absurd (ground arith)
              | inr (w, x) ↦
                  (ground arith, (ground arith, ground arith), ground arith, ground arith)
            ]
          ]
        ]
      ]

  -- A read that succeeds has taken a header of exactly four bytes from the stream, and after it as
  -- many bytes as the header says, at most 1 MiB; the message is what Unmarshal makes of those, and
  -- what follows them is left. So a stream that ends before that is never read as a message.
  pub read_framed_lem :
      (s rest : List ℕ) (m : M)
      → read_framed unmarshal s ≡ frame m rest
      → (hdr buf : List ℕ) × s ≡ hdr ++ (buf ++ rest)
        × length hdr ≡ 4
        × length buf ≡ uint32 hdr
        × length buf ≤ max_frame_size
        × unmarshal buf ≡ some m
  read_framed_lem s rest m h =
      let n = uint32 (take 4 s) in
      let (whole, small, parse, left) = read_parts s rest m h in
      let t = drop 4 s in
      (
        take 4 s,
        take n t,
        sym (take-append-drop 4 s)
            ∙ ap (λ x. take 4 s ++ x)
                (sym (take-append-drop n t) ∙ ap (λ x. take n t ++ x) (sym left)),
        length-take 4 s ∙ omega (arith, whole),
        length-take n t ∙ omega (arith, small),
        omega (arith, small, length-take n t),
        parse,
      )
