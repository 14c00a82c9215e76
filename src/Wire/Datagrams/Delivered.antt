-- ===== src/Wire/Datagrams/Delivered.antt =====
-- Datagrams that are written to a stream come out of it (internal/server/ingress_udp.go).
use trqsh.Prelude.{
  ℕ, zero, suc, ◌%◌, ◌^◌, ◌≤◌, ◌<◌, ◌≡◌, refl, sym, ap, ◌∙◌, none, some, List, [], ◌∷◌, ◌++◌,
  length, length-append, arith,
}
use mathlib.Core.List.{append_assoc}
use trqsh.Wire.{read_full}
use trqsh.Wire.RoundTrip.{read_full-append}
use trqsh.Wire.Datagrams.{
  put_uint16, uint16, write_udp_frame, body_of, read_udp_frame, read_back, udp_read_back, stream_of,
}

-- Each datagram has at most 65535 bytes, as the buffers do that they are read into.
abbrev pub AllFit : List (List ℕ) → Type 0
AllFit [] = Unit
AllFit (p ∷ ps) = length p < 2 ^ 16 × AllFit ps

uint16-put_uint16 : (n : ℕ) → n < 2 ^ 16 → uint16 (put_uint16 (n % 2 ^ 16)) ≡ n
unfolding put_uint16
uint16-put_uint16 n h = omega arith

read_udp_frame-written :
    (p s : List ℕ) → length p < 2 ^ 16 → read_udp_frame (write_udp_frame p ++ s) ≡ some (p, s)
unfolding read_udp_frame write_udp_frame put_uint16
read_udp_frame-written p s h =
    let hdr = put_uint16 (length p % 2 ^ 16) in
    ap (λ t. body_of (read_full 2 t)) (append_assoc hdr p s)
    ∙ ap body_of (header hdr (p ++ s) refl)
    ∙ ap (λ n. read_full n (p ++ s)) (uint16-put_uint16 (length p) h)
    ∙ read_full-append p s
  where
    header : (hdr s : List ℕ) → length hdr ≡ 2 → read_full 2 (hdr ++ s) ≡ some (hdr, s)
    header hdr s e = ap (λ n. read_full n (hdr ++ s)) (sym e) ∙ read_full-append hdr s

read_back-stream :
    (n : ℕ) (ps : List (List ℕ)) (tail : List ℕ)
    → length ps ≤ n
    → AllFit ps
    → read_udp_frame tail ≡ none
    → read_back n (stream_of ps ++ tail) ≡ ps
unfolding read_back
read_back-stream zero [] tail l a t = refl
read_back-stream (suc n) [] tail l a t = rw (t, read_back) refl
read_back-stream zero (p ∷ ps) tail l a t = absurd (omega arith)
read_back-stream (suc n) (p ∷ ps) tail l (h, a) t =
    rw (append_assoc (write_udp_frame p) (stream_of ps) tail) (
      rw (read_udp_frame-written p (stream_of ps ++ tail) h, read_back)
        (ap (λ q. p ∷ q) (read_back-stream n ps tail (omega arith) a t)))

length-stream_of : (ps : List (List ℕ)) → length ps ≤ length (stream_of ps)
unfolding write_udp_frame put_uint16
length-stream_of [] = omega arith
length-stream_of (p ∷ ps) =
    omega (arith, length-append (write_udp_frame p) (stream_of ps), length-stream_of ps)

-- Datagrams of at most 65535 bytes that are written to a stream in order are read from it in order, each
-- with its own bounds, and no other, where what follows them is not a whole datagram.
pub udp_read_back-stream_of :
    (ps : List (List ℕ)) (tail : List ℕ)
    → AllFit ps
    → read_udp_frame tail ≡ none
    → udp_read_back (stream_of ps ++ tail) ≡ ps
udp_read_back-stream_of ps tail a t =
    read_back-stream (length (stream_of ps ++ tail)) ps tail
      (omega (arith, length-append (stream_of ps) tail, length-stream_of ps)) a t
