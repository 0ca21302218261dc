-- ===== src/Feed/Mold/HeaderCodec.antt =====
-- The packet header, written by `mold::write_header` and read by `mold::read_header`.
use fastbook.Prelude.{
  ℕ, ◌-◌, ◌^◌, ◌≤◌, ◌<◌, ◌≡◌, ap, ◌∙◌, List, ◌++◌, some, arith, length, length-append, append_assoc,
}
use fastbook.Feed.Bytes.{to_big_endian, BufWriter, write_sv, write_num_be}
use fastbook.Feed.Bytes.RoundTrip.{length-to_big_endian, bind-read_num, bind-take_n}
use fastbook.Feed.Mold.{Header, session_size, header_size, header_fields, read_header, write_header}

pub record HeaderFits (h : Header) : Type 0 where
  pub session : session_size ≡ length h.session
  pub seq_num : h.seq_num < 2 ^ 64
  pub msg_count : h.msg_count < 2 ^ 16

abbrev layout : Header → List ℕ
layout h = h.session ++ (to_big_endian 8 h.seq_num ++ to_big_endian 2 h.msg_count)

header_fields-layout :
    (h : Header) (rest : List ℕ)
    → HeaderFits h
    → header_fields
        (h.session ++ (to_big_endian 8 h.seq_num ++ (to_big_endian 2 h.msg_count ++ rest)))
      ≡ some (h, rest)
unfolding header_fields
header_fields-layout h rest f =
    bind-take_n _ 10 h.session _ f.session
    ∙ bind-read_num _ 8 h.seq_num _ (omega (arith, f.seq_num))
    ∙ bind-read_num _ 2 h.msg_count _ (omega (arith, f.msg_count))

write_header-layout :
    (h : Header) (w : BufWriter)
    → HeaderFits h
    → header_size ≤ w.room
    → write_header w h
      ≡ some (record {
        out = ((w.out ++ h.session) ++ to_big_endian 8 h.seq_num) ++ to_big_endian 2 h.msg_count;
        room = w.room - header_size;
      })
unfolding write_header write_sv write_num_be
write_header-layout h w f room =
    ground (arith, f.session, length-to_big_endian 8 h.seq_num, length-to_big_endian 2 h.msg_count)

-- With room for it, a header is written after what the buffer holds, and is read back, with whatever
-- follows it left over.
pub read-write_header :
    (h : Header) (w : BufWriter) (rest : List ℕ)
    → HeaderFits h
    → header_size ≤ w.room
    → (bytes : List ℕ) × (write_header w h
        ≡ some (record { out = w.out ++ bytes; room = w.room - header_size }))
      × (read_header (bytes ++ rest) ≡ some (h, rest))
unfolding read_header
read-write_header h w rest f room = (
  layout h,
  write_header-layout h w f room
      ∙ ap (λ o. some (record { out = o; room = w.room - header_size })) shape,
  rw parts (
      ground (
        arith,
        header_fields-layout h rest f,
        f.session,
        length-append h.session (seq ++ (count ++ rest)),
        length-append seq (count ++ rest),
        length-append count rest,
        length-to_big_endian 8 h.seq_num,
        length-to_big_endian 2 h.msg_count,
      )),
)
  where
    seq : List ℕ
    seq = to_big_endian 8 h.seq_num

    count : List ℕ
    count = to_big_endian 2 h.msg_count

    shape : ((w.out ++ h.session) ++ seq) ++ count ≡ w.out ++ layout h
    shape = simp append_assoc

    parts : layout h ++ rest ≡ h.session ++ (seq ++ (count ++ rest))
    parts = simp append_assoc
