-- ===== src/Common/Spsc.antt =====
-- src/common/spsc_queue.hpp: the ring between one producer and one consumer, of `N = 2 ^ k` slots. A
-- slot of the buffer holds an object or raw memory (`none`). The value that an acquire load of the
-- other side's index returns is an argument, `loaded`.
pub mod Threads
pub mod Window
pub mod Inv
pub mod Producer
pub mod Consumer
pub mod Fifo
pub mod Calls
mod Tests
use Prim.Native.Nat.{bit_and}
use fastbook.Prelude.{
  ℕ, zero, suc, ◌+◌, ◌-◌, ◌^◌, List, [], ◌∷◌, Option, none, some, Bool, true, false, not, ◌==◌,
  get_elem?, set, replicate, if◌then◌else◌,
}

pub record Queue {ℓ} (A : Type ℓ) : Type ℓ where
  pub buffer : List (Option A)
  pub head : ℕ
  pub cached_tail : ℕ
  pub tail : ℕ
  pub cached_head : ℕ

-- `i & (N - 1)`
unfoldable pub wrap : ℕ → ℕ → ℕ
wrap k i = bit_and i (2 ^ k - 1)

module _ {ℓ} {A : Type ℓ} where
  abbrev pub slot : List (Option A) → ℕ → Option A
  slot buffer i = elim (get_elem? buffer i) [ none ↦ none | some o ↦ o ]

  module _ (k : ℕ) where
    abbrev pub new : Queue A
    new = record {
      buffer = replicate (2 ^ k) none;
      head = 0;
      cached_tail = 0;
      tail = 0;
      cached_head = 0;
    }

    unfoldable pub empty_at : ℕ → ℕ → Queue A → Bool × Queue A
    empty_at tail_val loaded q =
        if not (tail_val == q.cached_head)
        then (false, q)
        else if loaded == tail_val
        then (true, q)
        else (false, record q { cached_head = loaded })

    unfoldable pub full_at : ℕ → ℕ → Queue A → Bool × Queue A
    unfolding wrap
    full_at head_val loaded q =
        let next = wrap k (head_val + 1) in
        if not (next == q.cached_tail)
        then (false, q)
        else if loaded == next
        then (true, q)
        else (false, record q { cached_tail = loaded })

    abbrev pub empty : Queue A → Bool
    empty q = q.head == q.tail

    pub full : Queue A → Bool
    unfolding wrap
    full q = wrap k (q.head + 1) == q.tail

    -- The index of the slot, or `nullptr`.
    unfoldable pub try_reserve : ℕ → Queue A → Option ℕ × Queue A
    unfolding full_at
    try_reserve loaded q =
        let (is_full, q') = full_at q.head loaded q in
        if is_full then (none, q') else (some q.head, q')

    -- `new (slot) T(...)`
    abbrev pub construct : ℕ → A → Queue A → Queue A
    construct i v q = record q { buffer = set q.buffer i (some v) }

    unfoldable pub commit : Queue A → Queue A
    unfolding wrap
    commit q = record q { head = wrap k (q.head + 1) }

    unfoldable pub push : ℕ → A → Queue A → Bool × Queue A
    unfolding try_reserve commit
    push loaded v q =
        let (reserved, q') = try_reserve loaded q in
        elim reserved [ none ↦ (false, q') | some i ↦ (true, commit (construct i v q')) ]

    -- The move out of the slot and the destructor call; `none` where no object stands there.
    abbrev pub take_object : Queue A → Option A × Queue A
    take_object q = (slot q.buffer q.tail, record q { buffer = set q.buffer q.tail none })

    unfoldable pub release : Queue A → Queue A
    unfolding wrap
    release q = record q { tail = wrap k (q.tail + 1) }

    unfoldable pub pop : ℕ → Queue A → Option A × Queue A
    unfolding empty_at release
    pop loaded q =
        let (is_empty, q') = empty_at q.tail loaded q in
        if is_empty then (none, q') else (let (value, q'') = take_object q' in (value, release q''))
