-- ===== src/Feed/Mold/Accept.antt =====
-- `MoldUDP64Framer::feed` on the packets that a server sends, and on any bytes at all.
use fastbook.Prelude.{
  ℕ, zero, suc, ◌+◌, ◌-◌, ◌%◌, ◌^◌, ◌<◌, max, ◌≡◌, ◌⊎◌, refl, subst, ◌∙◌, List, [], ◌∷◌, ◌++◌, none,
  some, true, Bool-cases, Option-cases, ◌≢◌, inl, inr, ltb, arith, length, take, drop,
  length-append, drop-all, if◌then◌else◌,
}
use fastbook.Feed.Bytes.{to_big_endian, from_big_endian}
use fastbook.Feed.Bytes.RoundTrip.{length-to_big_endian, bind-read_num, bind-take_n}
use fastbook.Feed.Mold.Packet.{encode_packet, encode_messages, IsPacket}
use fastbook.Feed.Mold.Loop.{deliver-encode}
use fastbook.Feed.Mold.{
  Header, Framer, Outcome, gap, session_changed, malformed, header_fields, read_header, same_bytes,
  deliver, adopt_session, feed_in_session, feed_header, feed,
}

pub same_bytes_refl : (xs : List ℕ) → same_bytes xs xs ≡ true
unfolding same_bytes
same_bytes_refl [] = refl
same_bytes_refl (x ∷ xs) = ground (arith, same_bytes_refl xs)

abbrev packet_header : List ℕ → ℕ → List (List ℕ) → Header
packet_header session seq ms = record { session = session; seq_num = seq; msg_count = length ms }

module _ {session : List ℕ} {seq : ℕ} {ms : List (List ℕ)} (p : IsPacket session seq ms) where
  header_fields-encode :
      header_fields (encode_packet session seq ms)
      ≡ some (packet_header session seq ms, encode_messages ms [])
  unfolding header_fields
  header_fields-encode =
      bind-take_n _ 10 session _ p.session_fits
      ∙ bind-read_num _ 8 seq _ (omega arith)
      ∙ bind-read_num _ 2 (length ms) _ (omega arith)

  length-encode_packet : length (encode_packet session seq ms) ≡ 20 + length (encode_messages ms [])
  length-encode_packet =
      let body = encode_messages ms [] in
      let count = to_big_endian 2 (length ms) ++ body in
      omega (
        arith,
        p.session_fits,
        length-append session (to_big_endian 8 seq ++ count),
        length-append (to_big_endian 8 seq) count,
        length-append (to_big_endian 2 (length ms)) body,
        length-to_big_endian 8 seq,
        length-to_big_endian 2 (length ms),
      )

  pub read_header-encode :
      read_header (encode_packet session seq ms)
      ≡ some (packet_header session seq ms, encode_messages ms [])
  unfolding read_header
  read_header-encode = ground (arith, header_fields-encode, length-encode_packet)

  -- What a receiver should do with the packet.
  abbrev pub accept : Framer → Outcome
  accept f =
      let f' = record f { last_session = session; has_session = true } in
      if ltb f.exp_seq seq then (record f' { gap_end = seq }, [], some gap) else (
        record f' { exp_seq = max f.exp_seq (seq + length ms) },
        drop (f.exp_seq - seq) ms,
        none,
      )

  adopt_session-packet :
      (f : Framer)
      → (f.has_session ≡ true → f.last_session ≡ session)
      → adopt_session f session ≡ record f { last_session = session; has_session = true }
  unfolding adopt_session
  adopt_session-packet f h = ground arith

  -- On a packet of the framer's session, or the first of all: beyond the expected number it is a gap
  -- and is dropped; of any other exactly the messages from the expected number on are delivered, and
  -- the expected number moves past them.
  pub feed-packet :
      (f : Framer)
      → (f.has_session ≡ true → f.last_session ≡ session)
      → f.exp_seq < 2 ^ 64
      → feed f (encode_packet session seq ms) ≡ accept f
  unfolding feed feed_header feed_in_session
  feed-packet f same cap = ground (
    arith,
    read_header-encode,
    adopt_session-packet f same,
    same_bytes_refl session,
    deliver-encode ms [] seq f.exp_seq p.lengths_fit p.numbers_fit,
    drop-all (f.exp_seq - seq) ms,
  )

-- On any body the expected number moves by the number of messages that were handed over.
deliver-advance :
    (n : ℕ) (buf : List ℕ) (current exp : ℕ)
    → exp < 2 ^ 64
    → (deliver n buf current exp).exp_seq
      ≡ (exp + length (deliver n buf current exp).delivered) % 2 ^ 64
unfolding deliver
deliver-advance zero buf current exp cap = omega arith
deliver-advance (suc n) buf current exp cap =
    let rest = drop 2 buf in
    let tail = drop (from_big_endian (take 2 buf)) rest in
    ground (
      arith,
      deliver-advance n tail ((current + 1) % 2 ^ 64) exp,
      deliver-advance n tail ((current + 1) % 2 ^ 64) ((exp + 1) % 2 ^ 64),
    )

deliver_error :
    (n : ℕ) (buf : List ℕ) (current exp : ℕ)
    → ((deliver n buf current exp).error ≡ none)
      ⊎ ((deliver n buf current exp).error ≡ some malformed)
unfolding deliver
deliver_error zero buf current exp = inl refl
deliver_error (suc n) buf current exp =
    let tail = drop (from_big_endian (take 2 buf)) (drop 2 buf) in
    ground (
      arith,
      deliver_error n tail ((current + 1) % 2 ^ 64) exp,
      deliver_error n tail ((current + 1) % 2 ^ 64) ((exp + 1) % 2 ^ 64),
    )

-- The expected number has moved by the messages handed over, of which a gap has none.
abbrev pub Advances : ℕ → Outcome → Type 0
Advances exp (f, out, e) =
    (e ≢ some session_changed)
    × (f.exp_seq ≡ (exp + length out) % 2 ^ 64)
    × (e ≡ some gap → out ≡ [])

-- The call was the first of another session: nothing is handed over and counting starts again.
abbrev pub Restarts : Outcome → Type 0
Restarts (f, out, e) = (e ≡ some session_changed) × (out ≡ []) × (f.exp_seq ≡ 1)

feed_in_session-Advances :
    (f : Framer) (hdr : Header) (body : List ℕ)
    → f.exp_seq < 2 ^ 64
    → Advances f.exp_seq (feed_in_session f hdr body)
unfolding feed_in_session
feed_in_session-Advances f hdr body fits = ground (
  arith,
  deliver-advance hdr.msg_count body hdr.seq_num f.exp_seq,
  deliver_error hdr.msg_count body hdr.seq_num f.exp_seq,
)

feed_header-cases :
    (f : Framer) (hdr : Header) (body : List ℕ)
    → f.exp_seq < 2 ^ 64
    → Restarts (feed_header f hdr body) ⊎ Advances f.exp_seq (feed_header f hdr body)
unfolding feed_header
feed_header-cases f hdr body fits =
    let f' = adopt_session f hdr.session in
    let same : f'.exp_seq ≡ f.exp_seq = unfold adopt_session in ground arith in
    elim (Bool-cases (same_bytes f'.last_session hdr.session)) [
      | inl e ↦ rw e (
          inr (
            subst (λ k. Advances k (feed_in_session f' hdr body)) same
              (feed_in_session-Advances f' hdr body (omega (arith, fits, same)))))
      | inr e ↦ rw e (inl (refl, refl, refl))
    ]

-- Each message handed over moves the expected number by one, whatever the bytes are and however
-- the call ends, and a gap hands over nothing; or the datagram is the first of another session:
-- then nothing is handed over and the expected number is 1.
pub feed-advance :
    (f : Framer) (buf : List ℕ)
    → f.exp_seq < 2 ^ 64
    → Restarts (feed f buf) ⊎ Advances f.exp_seq (feed f buf)
unfolding feed
feed-advance f buf fits = elim (Option-cases (read_header buf)) [
  | inl e ↦ rw (e, feed) (ground arith)
  | inr (r, e) ↦ rw (e, feed) (feed_header-cases f r.0 r.1 fits)
]
