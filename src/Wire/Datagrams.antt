-- ===== src/Wire/Datagrams.antt =====
-- UDP datagrams on a data stream: writeUDPFrame and udpReadBack of internal/server/ingress_udp.go, which
-- the agent's forwardUDP (internal/agent/forward.go) does in the same way. A byte is a number below 256.
pub mod Delivered
use trqsh.Prelude.{
  ℕ, zero, suc, ◌+◌, ◌*◌, ◌/◌, ◌%◌, ◌^◌, Option, none, some, List, [], ◌∷◌, ◌++◌, length,
}
use trqsh.Wire.{read_full}

-- binary.BigEndian.PutUint16
unfoldable pub put_uint16 : ℕ → List ℕ
put_uint16 n = n / 2 ^ 8 % 256 ∷ n % 256 ∷ []

-- binary.BigEndian.Uint16, which reads two bytes
abbrev pub uint16 : List ℕ → ℕ
uint16 (a ∷ b ∷ rest) = a * 2 ^ 8 + b
uint16 bs = 0

-- What writeUDPFrame writes; the length is cut to 16 bits.
unfoldable pub write_udp_frame : List ℕ → List ℕ
write_udp_frame payload = put_uint16 (length payload % 2 ^ 16) ++ payload

abbrev pub body_of : Option (List ℕ × List ℕ) → Option (List ℕ × List ℕ)
body_of none = none
body_of (some (hdr, s)) = read_full (uint16 hdr) s

-- One turn of the loop of udpReadBack: the datagram and the rest of the stream, none where it ends.
unfoldable pub read_udp_frame : List ℕ → Option (List ℕ × List ℕ)
read_udp_frame s = body_of (read_full 2 s)

-- The loop, where every datagram can be sent on; each turn takes two bytes at least, so that the length of
-- the stream is fuel enough.
unfoldable pub read_back : ℕ → List ℕ → List (List ℕ)
read_back zero s = []
read_back (suc n) s = elim (read_udp_frame s) [ none ↦ [] | some (p, s') ↦ p ∷ read_back n s' ]

abbrev pub udp_read_back : List ℕ → List (List ℕ)
udp_read_back s = read_back (length s) s

-- The stream after the datagrams have been written in order.
abbrev pub stream_of : List (List ℕ) → List ℕ
stream_of [] = []
stream_of (p ∷ ps) = write_udp_frame p ++ stream_of ps
