-- ===== src/Feed/Bytes.antt =====
-- src/feed/buf_reader.hpp and src/feed/buf_writer.hpp: a cursor over a span of bytes.
-- A reader is the list of the bytes that it has not read. `none` is a failed `assert` or a
-- read past the end of the span, which is undefined behaviour: a release build carries it out, and
-- `read_timestamp` has no assertion in any build. The host is
-- little-endian or big-endian: `from_big_endian` gives the big-endian value on both.
pub mod RoundTrip
pub mod Consumes
use fastbook.Prelude.{
  ℕ, zero, suc, ◌+◌, ◌-◌, ◌*◌, ◌/◌, ◌%◌, List, [], ◌∷◌, ◌++◌, Option, none, some, leb, length, take,
  drop, if◌then◌else◌,
}

abbrev pub Read : Type 0 → Type 0
Read A = List ℕ → Option (A × List ℕ)

abbrev pub pure : {A : Type 0} → A → Read A
pure a buf = some (a, buf)

infixl 5 ◌>>=◌
unfoldable pub ◌>>=◌ : {A B : Type 0} → Read A → (A → Read B) → Read B
◌>>=◌ m f buf = elim (m buf) [ none ↦ none | some (a, rest) ↦ f a rest ]

-- The number that a big-endian field of these bytes stands for, after `acc`.
pub be_from : ℕ → List ℕ → ℕ
be_from acc [] = acc
be_from acc (b ∷ bs) = be_from (acc * 256 + b) bs

unfoldable pub from_big_endian : List ℕ → ℕ
unfolding be_from
from_big_endian bs = be_from 0 bs

-- `take_n` and `take_n_sv`.
unfoldable pub take_n : ℕ → Read (List ℕ)
take_n n buf = if leb n (length buf) then some (take n buf, drop n buf) else none

-- `read_num<T>` with `n = sizeof(T)`.
unfoldable pub read_num : ℕ → Read ℕ
read_num n buf =
    if leb n (length buf) then some (from_big_endian (take n buf), drop n buf) else none

-- Six bytes, placed behind two zero bytes of a `uint64_t`. The source has no assertion here: with fewer
-- than six bytes left its `memcpy` reads past the end, and that is the `none`.
unfoldable pub read_timestamp : Read ℕ
read_timestamp buf =
    if leb 6 (length buf) then some (from_big_endian (0 ∷ 0 ∷ take 6 buf), drop 6 buf) else none

-- The `n` bytes of a value, most significant first and least significant first.
unfoldable pub to_big_endian : ℕ → ℕ → List ℕ
to_big_endian zero v = []
to_big_endian (suc n) v = to_big_endian n (v / 256) ++ (v % 256 ∷ [])

unfoldable pub to_little_endian : ℕ → ℕ → List ℕ
to_little_endian zero v = []
to_little_endian (suc n) v = v % 256 ∷ to_little_endian n (v / 256)

-- A writer is what it has written and the room that is left.
pub record BufWriter : Type 0 where
  pub out : List ℕ
  pub room : ℕ

-- The `memcpy` of each method, after its `assert` on the room.
unfoldable pub write_sv : BufWriter → List ℕ → Option BufWriter
write_sv w bs =
    if leb (length bs) w.room
    then some (record { out = w.out ++ bs; room = w.room - length bs })
    else none

unfoldable pub write_num_be : ℕ → BufWriter → ℕ → Option BufWriter
write_num_be n w v = write_sv w (to_big_endian n v)

unfoldable pub write_num_le : ℕ → BufWriter → ℕ → Option BufWriter
write_num_le n w v = write_sv w (to_little_endian n v)
