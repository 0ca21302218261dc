-- ===== src/Common/Pool.antt =====
-- src/common/object_pool.hpp: a stack of pointers to free objects. A pointer is the number of an
-- object, in the order in which the pool was given them; `none` is a null pointer. `reset` is the hook
-- on the objects that come back.
pub mod Count
pub mod Valid
pub mod Ops
mod Tests
use fastbook.Prelude.{
  ℕ, zero, suc, ◌+◌, ◌-◌, List, [], ◌∷◌, ◌++◌, Option, none, some, Bool, true, false, ◌==◌,
  get_elem?, set, replicate, take, if◌then◌else◌,
}

pub record ObjectPool {ℓ} (A : Type ℓ) : Type ℓ where
  pub storage : List A
  pub free : List (Option ℕ)
  pub capacity : ℕ
  pub n_free : ℕ

-- `free_[i] = &storage_[n - 1 - i]`
unfoldable pub hand_out : ℕ → List (Option ℕ)
hand_out zero = []
hand_out (suc n) = some n ∷ hand_out n

-- The `n` objects of a chunk, the first of them with number `first`.
unfoldable pub chunk : ℕ → ℕ → List (Option ℕ)
chunk first zero = []
chunk first (suc n) = some first ∷ chunk (first + 1) n

abbrev pub pointer_at : List (Option ℕ) → ℕ → Option ℕ
pointer_at free i = elim (get_elem? free i) [ none ↦ none | some p ↦ p ]

module _ {ℓ} {A : Type ℓ} (reset : A → A) (blank : A) where
  unfoldable pub new : ℕ → ObjectPool A
  unfolding hand_out
  new n = record { storage = replicate n blank; free = hand_out n; capacity = n; n_free = n }

  unfoldable pub get : ObjectPool A → Option ℕ × ObjectPool A
  get p =
      if p.n_free == 0
      then (none, p)
      else (pointer_at p.free (p.n_free - 1), record p { n_free = p.n_free - 1 })

  abbrev pub reset_at : List A → ℕ → List A
  reset_at storage i = elim (get_elem? storage i) [
    | none ↦ storage
    | some o ↦ set storage i (reset o)
  ]

  unfoldable pub restore : Option ℕ → ObjectPool A → ObjectPool A
  restore none p = p
  restore (some i) p = record p {
    storage = reset_at p.storage i;
    free = set p.free p.n_free (some i);
    n_free = p.n_free + 1;
  }

  abbrev pub available : ObjectPool A → ℕ
  available p = p.n_free

  -- `allocated` says whether `make_unique` finds memory; the rest of the new array is null pointers.
  unfoldable pub add_chunk : Bool → ℕ → ObjectPool A → Bool × ObjectPool A
  unfolding chunk
  add_chunk false n p = (false, p)
  add_chunk true n p = (
    true,
    record {
      storage = p.storage ++ replicate n blank;
      free = take p.n_free p.free ++ (chunk p.capacity n ++ replicate (p.capacity - p.n_free) none);
      capacity = p.capacity + n;
      n_free = p.n_free + n;
    },
  )
