-- ===== src/Common/Pool/Count.antt =====
-- How often a pointer stands in an array.
use fastbook.Prelude.{
  ℕ, zero, suc, ◌+◌, ◌-◌, ◌≤◌, ◌<◌, ◌≡◌, ◌≢◌, refl, ap, arith, ◌∙◌, List, [], ◌∷◌, ◌++◌, Option,
  none, some, Bool, true, false, ◌==◌, ltb, leb, ◌&&◌, replicate, length, set, take, if◌then◌else◌,
}
use fastbook.Common.Pool.{hand_out, chunk, pointer_at}

abbrev pub one_if : Bool → ℕ
one_if true = 1
one_if false = 0

abbrev pub is_at : ℕ → Option ℕ → ℕ
is_at i none = 0
is_at i (some j) = one_if (j == i)

abbrev pub count : ℕ → List (Option ℕ) → ℕ
count i [] = 0
count i (p ∷ ps) = is_at i p + count i ps

pub count-append : (i : ℕ) (ps qs : List (Option ℕ)) → count i (ps ++ qs) ≡ count i ps + count i qs
count-append i [] qs = omega arith
count-append i (p ∷ ps) qs = omega (arith, count-append i ps qs)

pub count-take_step :
    (i n : ℕ) (ps : List (Option ℕ))
    → n < length ps
    → count i (take (suc n) ps) ≡ count i (take n ps) + is_at i (pointer_at ps n)
count-take_step i n [] lt = absurd (omega arith)
count-take_step i zero (p ∷ ps) lt = omega arith
count-take_step i (suc n) (p ∷ ps) lt = omega (arith, count-take_step i n ps (omega arith))

-- The top of a stack of `n` pointers counts beside those below.
pub count-take_top :
    (i n : ℕ) (ps : List (Option ℕ))
    → 0 < n
    → n ≤ length ps
    → count i (take n ps) ≡ count i (take (n - 1) ps) + is_at i (pointer_at ps (n - 1))
count-take_top i zero ps pos le = absurd (omega arith)
count-take_top i (suc n) ps pos le =
    count-take_step i n ps (omega arith)
    ∙ ap (λ m. count i (take m ps) + is_at i (pointer_at ps m)) (omega arith)

pub take-set_self : (n : ℕ) (ps : List (Option ℕ)) (p : Option ℕ) → take n (set ps n p) ≡ take n ps
take-set_self zero [] p = refl
take-set_self zero (q ∷ ps) p = refl
take-set_self (suc n) [] p = refl
take-set_self (suc n) (q ∷ ps) p = ap (λ l. q ∷ l) (take-set_self n ps p)

pub count-hand_out : (i n : ℕ) → count i (hand_out n) ≡ (if (suc i - n) == 0 then 1 else 0)
unfolding hand_out
count-hand_out i zero = ground arith
count-hand_out i (suc n) = ground (arith, count-hand_out i n)

pub count-chunk :
    (i first n : ℕ) → count i (chunk first n) ≡ (if leb first i && ltb i (first + n) then 1 else 0)
unfolding chunk
count-chunk i first zero = ground arith
count-chunk i first (suc n) = ground (arith, count-chunk i (first + 1) n)

pub count-replicate-none : (i n : ℕ) → count i (replicate n none) ≡ 0
count-replicate-none i zero = refl
count-replicate-none i (suc n) = omega (arith, count-replicate-none i n)

pub is-at_self : (i : ℕ) → is_at i (some i) ≡ 1
is-at_self i = ground arith

pub length-hand_out : (n : ℕ) → length (hand_out n) ≡ n
unfolding hand_out
length-hand_out zero = refl
length-hand_out (suc n) = omega (arith, length-hand_out n)

pub length-chunk : (first n : ℕ) → length (chunk first n) ≡ n
unfolding chunk
length-chunk first zero = refl
length-chunk first (suc n) = omega (arith, length-chunk (first + 1) n)

pub hand-out_filled : (n j : ℕ) → j < n → pointer_at (hand_out n) j ≢ none
unfolding hand_out
hand-out_filled zero j lt e = absurd (omega arith)
hand-out_filled (suc n) zero lt e = cc
hand-out_filled (suc n) (suc j) lt e = hand-out_filled n j (omega arith) e

pub chunk_filled : (first n j : ℕ) → j < n → pointer_at (chunk first n) j ≢ none
unfolding chunk
chunk_filled first zero j lt e = absurd (omega arith)
chunk_filled first (suc n) zero lt e = cc
chunk_filled first (suc n) (suc j) lt e = chunk_filled (first + 1) n j (omega arith) e

pub pointer-at-append_left :
    (ps qs : List (Option ℕ)) (j : ℕ) → j < length ps → pointer_at (ps ++ qs) j ≡ pointer_at ps j
pointer-at-append_left [] qs j lt = absurd (omega arith)
pointer-at-append_left (p ∷ ps) qs zero lt = refl
pointer-at-append_left (p ∷ ps) qs (suc j) lt = pointer-at-append_left ps qs j (omega arith)

pub pointer-at-append_right :
    (ps qs : List (Option ℕ)) (j : ℕ)
    → length ps ≤ j
    → pointer_at (ps ++ qs) j ≡ pointer_at qs (j - length ps)
pointer-at-append_right [] qs j le = ap (pointer_at qs) (omega arith)
pointer-at-append_right (p ∷ ps) qs zero le = absurd (omega arith)
pointer-at-append_right (p ∷ ps) qs (suc j) le =
    pointer-at-append_right ps qs j (omega arith) ∙ ap (pointer_at qs) (omega arith)

pub pointer-at-take :
    (n j : ℕ) (ps : List (Option ℕ)) → j < n → pointer_at (take n ps) j ≡ pointer_at ps j
pointer-at-take zero j ps lt = absurd (omega arith)
pointer-at-take (suc n) j [] lt = refl
pointer-at-take (suc n) zero (p ∷ ps) lt = refl
pointer-at-take (suc n) (suc j) (p ∷ ps) lt = pointer-at-take n j ps (omega arith)
