-- ===== src/Feed/Mold/Tests.antt =====
-- The MoldUDP64 theorems on a stream of four messages, with an overlap, a gap and a heartbeat.
use fastbook.Prelude.{ℕ, ◌-◌, ◌≡◌, ◌⊎◌, refl, List, [], ◌∷◌, ◌++◌, some, arith, take, true}
use fastbook.Feed.Bytes.{to_big_endian, from_big_endian, read_num, take_n, ◌>>=◌, BufWriter}
use fastbook.Feed.Mold.HeaderCodec.{read-write_header}
use fastbook.Feed.Mold.Packet.{encode_packet, IsPacket}
use fastbook.Feed.Mold.Accept.{accept, feed-packet, feed-advance, Advances, Restarts}
use fastbook.Feed.Mold.Stream.{Datagram, IsStream, run, run-in_order, datagrams, reach}
use fastbook.Feed.Mold.{
  Framer, Header, init, feed, read_header, write_header, malformed, feed_header, read_header,
}

abbrev session : List ℕ
session = 70 ∷ 66 ∷ 48 ∷ 48 ∷ 48 ∷ 48 ∷ 48 ∷ 48 ∷ 48 ∷ 49 ∷ []

abbrev stream : List (List ℕ)
stream = (1 ∷ []) ∷ (2 ∷ 3 ∷ []) ∷ [] ∷ (4 ∷ []) ∷ []

-- Messages 1-2, then 4 (a gap), then 2-3 (an overlap), a heartbeat, and 4 again.
abbrev arrivals : List Datagram
arrivals =
    record { first = 1; count = 2 }
    ∷ record { first = 4; count = 1 }
    ∷ record { first = 2; count = 2 }
    ∷ record { first = 4; count = 0 }
    ∷ record { first = 4; count = 1 }
    ∷ []

stream-IsStream : IsStream session stream
stream-IsStream = omega arith

run-in_order_example :
    let (f, out) = run init (datagrams session stream arrivals) in
    (f.exp_seq ≡ reach 1 arrivals) × (out ≡ take (f.exp_seq - 1) stream)
run-in_order_example = run-in_order arrivals stream-IsStream (omega arith)

-- All four messages have arrived.
run-arrivals : (run init (datagrams session stream arrivals)).1 ≡ stream
unfolding run feed read_header feed_header read_num take_n ◌>>=◌ to_big_endian from_big_endian
run-arrivals = refl

abbrev following : Framer
following = record { last_session = session; has_session = true; exp_seq = 3; gap_end = 0 }

sent-IsPacket : IsPacket session 2 ((7 ∷ []) ∷ (8 ∷ []) ∷ [])
sent-IsPacket = omega arith

feed-packet_example :
    feed following (encode_packet session 2 ((7 ∷ []) ∷ (8 ∷ []) ∷ []))
    ≡ accept sent-IsPacket following
feed-packet_example = feed-packet sent-IsPacket following (λ _. refl) (omega arith)

-- The second of two messages is cut off.
abbrev cut : List ℕ
cut = session ++ (0 ∷ 0 ∷ 0 ∷ 0 ∷ 0 ∷ 0 ∷ 0 ∷ 3 ∷ 0 ∷ 2 ∷ 0 ∷ 1 ∷ 9 ∷ 0 ∷ 5 ∷ 9 ∷ [])

feed-advance_example : Restarts (feed following cut) ⊎ Advances 3 (feed following cut)
feed-advance_example = feed-advance following cut (omega arith)

feed-cut : feed following cut ≡ (record following { exp_seq = 4 }, (9 ∷ []) ∷ [], some malformed)
unfolding feed read_header feed_header read_num take_n ◌>>=◌ to_big_endian from_big_endian
feed-cut = refl

abbrev request : Header
request = record { session = session; seq_num = 513; msg_count = 4 }

abbrev buffer : BufWriter
buffer = record { out = []; room = 20 }

read-write_header_example :
    (bytes : List ℕ) × (write_header buffer request ≡ some (record { out = bytes; room = 0 }))
    × (read_header (bytes ++ (5 ∷ [])) ≡ some (request, 5 ∷ []))
read-write_header_example = read-write_header request buffer (5 ∷ []) (omega arith) (omega arith)
