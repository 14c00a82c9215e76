-- ===== src/Wire/Tests.antt =====
-- The theorems on frames at concrete messages, which are their own bytes.
use trqsh.Prelude.{ℕ, ◌≤◌, ◌≡◌, refl, Option, some, List, [], ◌∷◌, ◌++◌, length}
use mathlib.Core.Option.{some_inj}
use mathlib.Core.Path.{ap, sym}
use trqsh.Wire.{max_frame_size, uint32, put_uint32, write_framed, read_framed, read_full}
use native.Mathlib.Omega.{arith}
use trqsh.Wire.Datagrams.{read_udp_frame, udp_read_back, stream_of}
use trqsh.Wire.Datagrams.Delivered.{udp_read_back-stream_of}
use trqsh.Wire.RoundTrip.{read_many, write-read, read_framed_lem}

program : Unit {0}
unfolding put_uint32 write_framed read_framed read_full
program = tt

abbrev same : List ℕ → Option (List ℕ)
same b = some b

abbrev messages : List (List ℕ)
messages = (7 ∷ 8 ∷ []) ∷ [] ∷ []

abbrev stream : List ℕ
stream = 0 ∷ 0 ∷ 0 ∷ 2 ∷ 7 ∷ 8 ∷ 0 ∷ 0 ∷ 0 ∷ 0 ∷ []

write-read_example : read_many same same 2 (stream ++ (9 ∷ [])) ≡ some (messages, 9 ∷ [])
unfolding program
write-read_example =
    write-read same same (λ m b h. ap some (some_inj.0 (sym h))) messages stream (9 ∷ []) refl

read_framed_lem_example :
    (hdr buf : List ℕ) × stream ≡ hdr ++ (buf ++ (0 ∷ 0 ∷ 0 ∷ 0 ∷ []))
    × length hdr ≡ 4
    × length buf ≡ uint32 hdr
    × length buf ≤ max_frame_size
    × same buf ≡ some (7 ∷ 8 ∷ [])
unfolding program
read_framed_lem_example = read_framed_lem same stream (0 ∷ 0 ∷ 0 ∷ 0 ∷ []) (7 ∷ 8 ∷ []) refl

-- Two datagrams, the second one empty, and the first byte of a third one's header.
udp_read_back-stream_of_example : udp_read_back (stream_of messages ++ (0 ∷ [])) ≡ messages
unfolding read_udp_frame read_full
udp_read_back-stream_of_example =
    udp_read_back-stream_of messages (0 ∷ []) (omega arith, (omega arith, tt)) refl
