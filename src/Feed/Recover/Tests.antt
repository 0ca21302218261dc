-- ===== src/Feed/Recover/Tests.antt =====
-- A gap of two messages: the first reply holds one of them, then the socket is silent, and the next
-- request brings the other.
use fastbook.Prelude.{ℕ, zero, suc, ◌*◌, ◌≡◌, refl, List, [], ◌∷◌, Option, none, some, true, length}
use fastbook.Feed.Bytes.{
  to_big_endian, from_big_endian, read_num, take_n, ◌>>=◌, write_sv, write_num_be,
}
use fastbook.Feed.Mold.{feed, feed_header, read_header, write_header}
use fastbook.Feed.Mold.Packet.{encode_packet}
use fastbook.Feed.Recover.{
  RecoveryError, Reply, datagram, would_block, World, MoldRetransmitRecoverer, Run, recover,
  recover_from, send_request, listen, listen_once, on_reply, judge,
}

abbrev session : List ℕ
session = 70 ∷ 66 ∷ 48 ∷ 48 ∷ 48 ∷ 48 ∷ 48 ∷ 48 ∷ 48 ∷ 49 ∷ []

abbrev waiting : Run
waiting = record {
  framer = record { last_session = session; has_session = true; exp_seq = 3; gap_end = 5 };
  delivered = [];
  requests = [];
  readings = 0;
  replies = 0;
  attempts = 0;
}

abbrev replies : ℕ → Reply
replies zero = datagram (encode_packet session 3 ((7 ∷ []) ∷ []))
replies (suc zero) = would_block
replies (suc (suc zero)) = datagram (encode_packet session 4 ((8 ∷ []) ∷ []))
replies (suc (suc (suc n))) = would_block

abbrev world : World
world = record { clock = λ i. i * 10; reply = replies; sends = λ n. true }

abbrev recoverer : MoldRetransmitRecoverer
recoverer = record { max_attempts = 2; max_per_request = 100; max_recovery_time = 60 }

abbrev outcome :
    Option (Run × Option RecoveryError) → Option (ℕ × List (List ℕ) × ℕ × Option RecoveryError)
outcome none = none
outcome (some (r, e)) = some (r.framer.exp_seq, r.delivered, length r.requests, e)

gap_closed :
    outcome (recover 8 recoverer world waiting) ≡ some (5, (7 ∷ []) ∷ (8 ∷ []) ∷ [], 2, none)
unfolding recover recover_from send_request listen listen_once on_reply judge feed feed_header
    read_header write_header write_sv write_num_be read_num take_n ◌>>=◌ to_big_endian
    from_big_endian
gap_closed = refl
