-- ===== src/Feed/Bytes/RoundTrip.antt =====
-- Reading back the fields that were written, and how far a read advances.
use native.Mathlib.Nat.{pow-suc}
use fastbook.Prelude.{
  ℕ, zero, suc, ◌+◌, ◌*◌, ◌/◌, ◌%◌, ◌^◌, ◌<◌, ◌≡◌, refl, List, [], ◌∷◌, ◌++◌, some, arith, length,
  length-append, take-append, drop-append,
}
use fastbook.Feed.Bytes.{
  Read, ◌>>=◌, be_from, from_big_endian, take_n, read_num, read_timestamp, to_big_endian,
}

be_from-append : (acc : ℕ) (xs ys : List ℕ) → be_from acc (xs ++ ys) ≡ be_from (be_from acc xs) ys
unfolding be_from
be_from-append acc [] ys = refl
be_from-append acc (x ∷ xs) ys = be_from-append (acc * 256 + x) xs ys

pub length-to_big_endian : (n v : ℕ) → length (to_big_endian n v) ≡ n
unfolding to_big_endian
length-to_big_endian zero v = refl
length-to_big_endian (suc n) v = omega (
  arith,
  length-append (to_big_endian n (v / 256)) (v % 256 ∷ []),
  length-to_big_endian n (v / 256),
)

-- The value of a field is the value that was stored in it.
pub from-to_big_endian : (n v : ℕ) → v < 256 ^ n → from_big_endian (to_big_endian n v) ≡ v
unfolding to_big_endian from_big_endian
from-to_big_endian zero v h = omega arith
from-to_big_endian (suc n) v h =
    let small : v / 256 < 256 ^ n = omega (arith, pow-suc 256 n) in
    omega (
      arith,
      be_from-append 0 (to_big_endian n (v / 256)) (v % 256 ∷ []),
      from-to_big_endian n (v / 256) small,
    )

pub read-to_big_endian :
    (n v : ℕ) (rest : List ℕ)
    → v < 256 ^ n
    → read_num n (to_big_endian n v ++ rest) ≡ some (v, rest)
unfolding read_num
read-to_big_endian n v rest h = ground (
  arith,
  length-append (to_big_endian n v) rest,
  length-to_big_endian n v,
  take-append (to_big_endian n v) rest n,
  drop-append (to_big_endian n v) rest n,
  from-to_big_endian n v h,
)

read-take_n : (n : ℕ) (xs rest : List ℕ) → n ≡ length xs → take_n n (xs ++ rest) ≡ some (xs, rest)
unfolding take_n
read-take_n n xs rest h =
    ground (arith, length-append xs rest, take-append xs rest n, drop-append xs rest n)

read-timestamp :
    (v : ℕ) (rest : List ℕ)
    → v < 256 ^ 6
    → read_timestamp (to_big_endian 6 v ++ rest) ≡ some (v, rest)
unfolding read_timestamp from_big_endian
read-timestamp v rest h = ground (
  arith,
  length-append (to_big_endian 6 v) rest,
  length-to_big_endian 6 v,
  take-append (to_big_endian 6 v) rest 6,
  drop-append (to_big_endian 6 v) rest 6,
  from-to_big_endian 6 v h,
)

module _ {A B : Type 0} where
  pub bind-some :
      (m : Read A) (buf rest : List ℕ) (a : A) (k : A → Read B)
      → m buf ≡ some (a, rest)
      → (m >>= k) buf ≡ k a rest
  unfolding ◌>>=◌
  bind-some m buf rest a k h = rw (h, ◌>>=◌)

module _ {B : Type 0} (rest : List ℕ) where
  pub bind-read_num :
      (n v : ℕ) (k : ℕ → Read B)
      → v < 256 ^ n
      → (read_num n >>= k) (to_big_endian n v ++ rest) ≡ k v rest
  bind-read_num n v k h = bind-some (read_num n) _ rest v k (read-to_big_endian n v rest h)

  pub bind-take_n :
      (n : ℕ) (xs : List ℕ) (k : List ℕ → Read B)
      → n ≡ length xs
      → (take_n n >>= k) (xs ++ rest) ≡ k xs rest
  bind-take_n n xs k h = bind-some (take_n n) _ rest xs k (read-take_n n xs rest h)

  pub bind-read_timestamp :
      (v : ℕ) (k : ℕ → Read B)
      → v < 256 ^ 6
      → (read_timestamp >>= k) (to_big_endian 6 v ++ rest) ≡ k v rest
  bind-read_timestamp v k h = bind-some read_timestamp _ rest v k (read-timestamp v rest h)
