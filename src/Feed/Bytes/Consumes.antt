-- ===== src/Feed/Bytes/Consumes.antt =====
-- Readers that take a fixed number of bytes: they fail exactly on a span that is too short.
use fastbook.Prelude.{
  ℕ, ◌+◌, ◌<◌, ◌≡◌, List, Option, none, some, arith, length, length-drop, Bool-cases, inl, inr, leb,
}
use fastbook.Feed.Bytes.{Read, ◌>>=◌, pure, take_n, read_num, read_timestamp}

-- On a span of `l` bytes, a reader of `n` bytes fails or leaves `l - n`.
abbrev pub Leaves : {A : Type 0} → ℕ → ℕ → Option (A × List ℕ) → Type 0
Leaves n l none = l < n
Leaves n l (some r) = length r.1 + n ≡ l

abbrev pub Consumes : {A : Type 0} → ℕ → Read A → Type 0
Consumes n m = (buf : List ℕ) → Leaves n (length buf) (m buf)

module _ {A B : Type 0} where
  Leaves-bind :
      (n k l : ℕ) (r : Option (A × List ℕ)) (f : A → Read B)
      → Leaves n l r
      → ((a : A) → Consumes k (f a))
      → Leaves (n + k) l (elim r [ none ↦ none | some (a, rest) ↦ f a rest ])
  Leaves-bind n k l none f h g = omega arith
  Leaves-bind n k l (some (a, rest)) f h g = shift (f a rest) (g a rest)
    where
      shift : (o : Option (B × List ℕ)) → Leaves k (length rest) o → Leaves (n + k) l o
      shift none e = omega arith
      shift (some r) e = omega arith

  pub bind-Consumes :
      (n k : ℕ) (m : Read A) (f : A → Read B)
      → Consumes n m
      → ((a : A) → Consumes k (f a))
      → Consumes (n + k) (m >>= f)
  unfolding ◌>>=◌
  bind-Consumes n k m f h g buf = Leaves-bind n k (length buf) (m buf) f (h buf) g

pub pure-Consumes : {A : Type 0} (a : A) → Consumes 0 (pure a)
pure-Consumes a buf = omega arith

pub take_n-Consumes : (n : ℕ) → Consumes n (take_n n)
unfolding take_n
take_n-Consumes n buf = elim (Bool-cases (leb n (length buf))) [
  | inl e ↦ rw e (ground (arith, length-drop n buf))
  | inr e ↦ rw e (ground arith)
]

pub read_num-Consumes : (n : ℕ) → Consumes n (read_num n)
unfolding read_num
read_num-Consumes n buf = elim (Bool-cases (leb n (length buf))) [
  | inl e ↦ rw e (ground (arith, length-drop n buf))
  | inr e ↦ rw e (ground arith)
]

pub read_timestamp-Consumes : Consumes 6 read_timestamp
unfolding read_timestamp
read_timestamp-Consumes buf = elim (Bool-cases (leb 6 (length buf))) [
  | inl e ↦ rw e (ground (arith, length-drop 6 buf))
  | inr e ↦ rw e (ground arith)
]
