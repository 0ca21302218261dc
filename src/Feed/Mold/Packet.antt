-- ===== src/Feed/Mold/Packet.antt =====
-- The MoldUDP64 downstream packet, laid out from the protocol's description: a header, then each
-- message behind its length.
use fastbook.Prelude.{ℕ, ◌<◌, ◌+◌, ◌^◌, ◌≡◌, List, [], ◌∷◌, ◌++◌, length, All}
use fastbook.Feed.Bytes.{to_big_endian}
use fastbook.Feed.Mold.{session_size, end_of_session}

abbrev pub encode_messages : List (List ℕ) → List ℕ → List ℕ
encode_messages [] rest = rest
encode_messages (m ∷ ms) rest = to_big_endian 2 (length m) ++ (m ++ encode_messages ms rest)

abbrev pub encode_packet : List ℕ → ℕ → List (List ℕ) → List ℕ
encode_packet session seq ms =
    session ++ (to_big_endian 8 seq ++ (to_big_endian 2 (length ms) ++ encode_messages ms []))

abbrev pub FitsLength : List ℕ → Type 0
FitsLength m = length m < 256 ^ 2

-- A packet that a server can send: its fields hold their values, and its count is no marker.
pub record IsPacket (session : List ℕ) (seq : ℕ) (ms : List (List ℕ)) : Type 0 where
  pub session_fits : session_size ≡ length session
  pub numbers_fit : seq + length ms < 2 ^ 64
  pub count_fits : length ms < end_of_session
  pub lengths_fit : All FitsLength ms
