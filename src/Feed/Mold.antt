-- ===== src/Feed/Mold.antt =====
-- src/feed/mold_udp64.hpp and src/feed/mold_udp64_framer.hpp: MoldUDP64 packets and the framer that
-- checks their sequence numbers. The sink's `on_message` does not reach back into the framer: `feed`
-- returns the messages in the order in which the code hands them over. Sums of sequence numbers are
-- those of `uint64_t`.
pub mod HeaderCodec
pub mod Packet
pub mod Loop
pub mod Accept
pub mod Stream
pub mod Session
mod Tests
use fastbook.Prelude.{
  ℕ, zero, suc, ◌+◌, ◌-◌, ◌*◌, ◌/◌, ◌%◌, ◌^◌, List, [], ◌∷◌, ◌++◌, Option, none, some, Bool, true,
  false, not, ◌&&◌, leb, ltb, ◌==◌, length, take, drop, if◌then◌else◌,
}
use fastbook.Feed.Bytes.{
  Read, pure, ◌>>=◌, take_n, read_num, from_big_endian, BufWriter, write_sv, write_num_be,
}

abbrev pub session_size : ℕ
session_size = 10

abbrev pub header_size : ℕ
header_size = session_size + 8 + 2

abbrev pub end_of_session : ℕ
end_of_session = 0xFFFF

pub record Header : Type 0 where
  pub session : List ℕ
  pub seq_num : ℕ
  pub msg_count : ℕ

header_fields : Read Header
header_fields = do
  session ← take_n session_size
  seq_num ← read_num 8
  msg_count ← read_num 2
  pure (record { session = session; seq_num = seq_num; msg_count = msg_count })

-- The inner `none` is the code's `nullopt`.
unfoldable pub read_header : List ℕ → Option (Header × List ℕ)
unfolding header_fields
read_header buf = if ltb (length buf) header_size then none else header_fields buf

unfoldable pub write_header : BufWriter → Header → Option BufWriter
write_header w hdr = elim (write_sv w hdr.session) [
  | none ↦ none
  | some w' ↦ elim (write_num_be 8 w' hdr.seq_num) [
    | none ↦ none
    | some w'' ↦ write_num_be 2 w'' hdr.msg_count
  ]
]

pub data SequencedError : Type 0 where
  malformed gap end_of_session_reached session_changed : SequencedError

pub record Framer : Type 0 where
  pub last_session : List ℕ
  pub has_session : Bool
  pub exp_seq : ℕ
  pub gap_end : ℕ

abbrev pub init : Framer
init = record { last_session = []; has_session = false; exp_seq = 1; gap_end = 0 }

-- `memcmp(a, b, SESSION_SIZE) == 0`
pub same_bytes : List ℕ → List ℕ → Bool
same_bytes [] [] = true
same_bytes [] (y ∷ ys) = false
same_bytes (x ∷ xs) [] = false
same_bytes (x ∷ xs) (y ∷ ys) = x == y && same_bytes xs ys

-- What a call leaves behind: the next sequence number, the messages handed to the sink, the error.
pub record Fed : Type 0 where
  pub exp_seq : ℕ
  pub delivered : List (List ℕ)
  pub error : Option SequencedError

abbrev next_seq : ℕ → ℕ
next_seq s = (s + 1) % 2 ^ 64

abbrev stopped : ℕ → SequencedError → Fed
stopped exp e = record { exp_seq = exp; delivered = []; error = some e }

abbrev prepend : Bool → List ℕ → Fed → Fed
prepend true m f = record f { delivered = m ∷ f.delivered }
prepend false m f = f

-- The `for` loop with `n` rounds left: skip what was delivered before, hand over the rest.
pub deliver : ℕ → List ℕ → ℕ → ℕ → Fed
deliver zero buf current exp = record { exp_seq = exp; delivered = []; error = none }
deliver (suc n) buf current exp =
    let msg_length = from_big_endian (take 2 buf) in
    let rest = drop 2 buf in
    let fresh = not (ltb current exp) in
    let later =
      deliver n (drop msg_length rest) (next_seq current) (if fresh then next_seq exp else exp) in
    if ltb (length buf) 2
    then stopped exp malformed
    else if ltb (length rest) msg_length
    then stopped exp malformed
    else prepend fresh (take msg_length rest) later

abbrev pub Outcome : Type 0
Outcome = Framer × List (List ℕ) × Option SequencedError

abbrev after_loop : Framer → Fed → Outcome
after_loop f r = (record f { exp_seq = r.exp_seq }, r.delivered, r.error)

-- `feed` behind the session check.
pub feed_in_session : Framer → Header → List ℕ → Outcome
unfolding deliver
feed_in_session f hdr body =
    if ltb f.exp_seq hdr.seq_num
    then (record f { gap_end = hdr.seq_num }, [], some gap)
    else if hdr.msg_count == end_of_session
    then (f, [], some end_of_session_reached)
    else if leb ((hdr.seq_num + hdr.msg_count) % 2 ^ 64) f.exp_seq
    then (f, [], none)
    else after_loop f (deliver hdr.msg_count body hdr.seq_num f.exp_seq)

pub adopt_session : Framer → List ℕ → Framer
adopt_session f session =
    if f.has_session then f else record f { last_session = session; has_session = true }

unfoldable pub feed_header : Framer → Header → List ℕ → Outcome
unfolding feed_in_session adopt_session same_bytes
feed_header f hdr body =
    let f' = adopt_session f hdr.session in
    if same_bytes f'.last_session hdr.session
    then feed_in_session f' hdr body
    else (record f' { last_session = hdr.session; exp_seq = 1 }, [], some session_changed)

unfoldable pub feed : Framer → List ℕ → Outcome
unfolding feed_header read_header
feed f buf = elim (read_header buf) [
  | none ↦ (f, [], some malformed)
  | some (hdr, body) ↦ feed_header f hdr body
]
