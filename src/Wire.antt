-- ===== src/Wire.antt =====
-- pkg/proto/codec.go. A byte is a number below 256 and a stream the bytes still to read; protobuf's
-- Marshal and Unmarshal are parameters. A write to the stream does not fail here.
pub mod RoundTrip
pub mod Datagrams
mod Tests
use trqsh.Prelude.{
  ℕ, zero, suc, ◌+◌, ◌*◌, ◌/◌, ◌%◌, ◌^◌, Bool, true, false, Option, none, some, List, [], ◌∷◌, ◌++◌,
  ltb, length, take, drop, if◌then◌else◌,
}

-- 1 MiB
abbrev pub max_frame_size : ℕ
max_frame_size = 2 ^ 20

-- binary.BigEndian.PutUint32
unfoldable pub put_uint32 : ℕ → List ℕ
put_uint32 n = n / 2 ^ 24 % 256 ∷ n / 2 ^ 16 % 256 ∷ n / 2 ^ 8 % 256 ∷ n % 256 ∷ []

-- io.ReadFull: exactly `n` bytes, or none where the stream is shorter.
unfoldable pub read_full : ℕ → List ℕ → Option (List ℕ × List ℕ)
read_full n s = if ltb (length s) n then none else some (take n s, drop n s)

-- binary.BigEndian.Uint32, which reads four bytes
abbrev pub uint32 : List ℕ → ℕ
uint32 (a ∷ b ∷ c ∷ d ∷ rest) = a * 2 ^ 24 + b * 2 ^ 16 + c * 2 ^ 8 + d
uint32 bs = 0

pub data Written : Type 0 where
  written : List ℕ → Written
  marshal_failed : Written
  write_too_large : Written

pub data Frame (M : Type 0) : Type 0 where
  frame : M → List ℕ → Frame M
  short_read : Frame M
  frame_too_large : Frame M
  unmarshal_failed : Frame M

module _ {M : Type 0} (marshal : M → Option (List ℕ)) where
  framed : Option (List ℕ) → Written
  framed none = marshal_failed
  framed (some b) =
      if ltb max_frame_size (length b)
      then write_too_large
      else written (put_uint32 (length b) ++ b)

  unfoldable pub write_framed : M → Written
  unfolding framed
  write_framed m = framed (marshal m)

module _ {M : Type 0} (unmarshal : List ℕ → Option M) where
  parsed : Option M → List ℕ → Frame M
  parsed none s = unmarshal_failed
  parsed (some m) s = frame m s

  body_read : Option (List ℕ × List ℕ) → Frame M
  unfolding parsed
  body_read none = short_read
  body_read (some (buf, s)) = parsed (unmarshal buf) s

  header_read : Option (List ℕ × List ℕ) → Frame M
  unfolding body_read
  header_read none = short_read
  header_read (some (hdr, s)) =
      let n = uint32 hdr in
      if ltb max_frame_size n then frame_too_large else body_read (read_full n s)

  unfoldable pub read_framed : List ℕ → Frame M
  unfolding header_read
  read_framed s = header_read (read_full 4 s)
