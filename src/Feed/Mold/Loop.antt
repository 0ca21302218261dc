-- ===== src/Feed/Mold/Loop.antt =====
-- The loop of `MoldUDP64Framer::feed`.
use fastbook.Prelude.{
  ℕ, ◌+◌, ◌-◌, ◌^◌, ◌≤◌, ◌<◌, max, ◌≡◌, refl, sym, ap, ◌∙◌, List, [], ◌∷◌, ◌++◌, none, arith,
  length, take, drop, All, length-append, take-append, drop-append, drop_pos, drop-all,
}
use fastbook.Feed.Bytes.{to_big_endian, from_big_endian}
use fastbook.Feed.Bytes.RoundTrip.{length-to_big_endian, from-to_big_endian}
use fastbook.Feed.Mold.Packet.{encode_messages, FitsLength}
use fastbook.Feed.Mold.{deliver}

-- One message in front of `tail`: its length, then its bytes.
pub record Reads (m tail : List ℕ) (buf : List ℕ) : Type 0 where
  pub size : length buf ≡ 2 + length m + length tail
  pub prefix : from_big_endian (take 2 buf) ≡ length m
  pub body : drop 2 buf ≡ m ++ tail
  pub message : take (length m) (m ++ tail) ≡ m
  pub later : drop (length m) (m ++ tail) ≡ tail
  pub left : length (m ++ tail) ≡ length m + length tail

pub Reads_lem :
    (m tail : List ℕ) → FitsLength m → Reads m tail (to_big_endian 2 (length m) ++ (m ++ tail))
Reads_lem m tail h =
    let l = to_big_endian 2 (length m) in
    let e = length-to_big_endian 2 (length m) in
    record {
      size = omega (arith, length-append l (m ++ tail), length-append m tail);
      prefix = ap from_big_endian (take-append l (m ++ tail) 2 (sym e)) ∙ from-to_big_endian 2 _ h;
      body = drop-append l (m ++ tail) 2 (sym e);
      message = take-append m tail (length m) refl;
      later = drop-append m tail (length m) refl;
      left = length-append m tail;
    }

-- On a well-formed body the loop hands over the messages from `exp` on, and `exp` moves past them.
pub deliver-encode :
    (ms : List (List ℕ)) (rest : List ℕ) (current exp : ℕ)
    → All FitsLength ms
    → current + length ms < 2 ^ 64
    → exp < 2 ^ 64
    → current ≤ exp
    → deliver (length ms) (encode_messages ms rest) current exp ≡ record {
      exp_seq = max exp (current + length ms);
      delivered = drop (exp - current) ms;
      error = none;
    }
unfolding deliver
deliver-encode [] rest current exp fit low cap h =
    ground (arith, drop-all {A = List ℕ} (exp - current) [])
deliver-encode (m ∷ ms) rest current exp fit low cap h =
    let tail = encode_messages ms rest in
    let r = Reads_lem m tail fit.0 in
    ground (
      arith,
      r.size,
      r.prefix,
      r.body,
      r.message,
      r.later,
      r.left,
      deliver-encode ms rest (current + 1) exp fit.1,
      deliver-encode ms rest (current + 1) (exp + 1) fit.1,
      drop_pos (exp - current) m ms,
    )
