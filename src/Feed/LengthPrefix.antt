-- ===== src/Feed/LengthPrefix.antt =====
-- src/feed/length_prefix_framer.hpp: messages behind a length of two bytes, over a byte stream (`straddle`,
-- where a message may lie across reads) or in datagrams. The state is the `leftover` bytes of the
-- reassembly buffer, `held`; without `straddle` there is none. The sink's `on_message` does not reach
-- back into the framer: `feed` returns the messages in the order in which the code hands them over.
pub mod Cases
pub mod Chunks
pub mod Leftover
pub mod Bound
pub mod Stream
pub mod Datagram
mod Tests
use fastbook.Prelude.{
  ℕ, zero, suc, ◌+◌, ◌-◌, ◌%◌, ◌^◌, List, [], ◌∷◌, ◌++◌, Option, none, some, Bool, true, false,
  ◌&&◌, ltb, ◌==◌, length, take, drop, if◌then◌else◌,
}
use fastbook.Feed.Bytes.{from_big_endian}

pub data StreamError : Type 0 where
  malformed : StreamError

-- The bytes held back, the messages handed to the sink, the error.
abbrev pub Outcome : Type 0
Outcome = List ℕ × List (List ℕ) × Option StreamError

abbrev pub prepend : List (List ℕ) → Outcome → Outcome
prepend ms (held, later, e) = (held, ms ++ later, e)

-- `read_num<uint16_t>` of bytes that are there.
abbrev pub prefix : List ℕ → ℕ
prefix bytes = from_big_endian (take 2 bytes)

-- What `handle_leftover_bytes_` makes of the bytes: a whole message and what is behind it, bytes to
-- hold, or a length beyond the limit.
pub data Continued : Type 0 where
  complete : List ℕ → List ℕ → Continued
  waiting : List ℕ → Continued
  too_long : Continued

module _ (max_payload : ℕ) where
  -- Behind the two bytes of the length. `needed` is a `size_t`.
  unfoldable pub continue_message : List ℕ → List ℕ → Continued
  continue_message held bytes =
      let msg_size = prefix held in
      let needed = (2 + msg_size + 2 ^ 64 - length held) % 2 ^ 64 in
      if ltb max_payload msg_size
      then too_long
      else if ltb (length bytes) needed
      then waiting (held ++ bytes)
      else complete (take msg_size (drop 2 (held ++ take needed bytes))) (drop needed bytes)

  unfoldable pub handle_leftover_bytes : List ℕ → List ℕ → Continued
  unfolding continue_message
  handle_leftover_bytes held [] =
      if ltb (length held) 2 then waiting held else continue_message held []
  handle_leftover_bytes held (b ∷ bytes) =
      if ltb (length held) 2
      then continue_message (held ++ (b ∷ [])) bytes
      else continue_message held (b ∷ bytes)

  -- The `while` loop, with `n` rounds left.
  unfoldable pub read_messages : Bool → ℕ → List ℕ → Outcome
  read_messages straddle zero bytes = ([], [], none)
  read_messages straddle (suc n) bytes =
      let rem = length bytes % 2 ^ 32 in
      let msg_length = prefix bytes in
      let rest = drop 2 bytes in
      let later = read_messages straddle n (drop msg_length rest) in
      if length bytes == 0
      then ([], [], none)
      else if ltb rem 2
      then (if straddle then (take rem bytes, [], none) else ([], [], some malformed))
      else if ltb max_payload msg_length
      then ([], [], some malformed)
      else if ltb (length rest) msg_length
      then (if straddle then (take rem bytes, [], none) else ([], [], some malformed))
      else prepend (take msg_length rest ∷ []) later

  -- A round reads two bytes or more, so there are no more rounds than bytes.
  unfoldable pub feed : Bool → List ℕ → List ℕ → Outcome
  unfolding read_messages handle_leftover_bytes
  feed straddle held bytes =
      if straddle && ltb 0 (length held)
      then elim (handle_leftover_bytes held bytes) [
        | too_long ↦ ([], [], some malformed)
        | waiting held' ↦ (held', [], none)
        | complete m rest ↦ prepend (m ∷ []) (read_messages straddle (length rest) rest)
      ]
      else read_messages straddle (length bytes) bytes
