-- ===== src/Common/Table.antt =====
-- src/common/linear_probing_table.hpp: the hash table with linear probing, with both ways to erase. A
-- pointer is its address: 0 is `nullptr`, 1 the mark of a deleted slot; `size_` counts slots, so it never wraps. `hash` is the functor that the
-- template takes. `capacity_` is a power of two, so `& (capacity_ - 1)` goes round the slots.
pub mod Ring
pub mod Valid
pub mod Find
pub mod Insert
pub mod Live
pub mod Store
pub mod Map
pub mod Stored
pub mod Rehash
pub mod Hole
pub mod Moved
pub mod Ends
pub mod Shift
pub mod Removed
pub mod Erase
pub mod Fresh
mod Tests
use Prim.Native.Nat.{bit_and}
use fastbook.Prelude.{
  ℕ, zero, suc, ◌+◌, ◌-◌, ◌*◌, ◌/◌, ◌%◌, ◌^◌, List, [], ◌∷◌, Option, none, some, Bool, true, false,
  ◌&&◌, ltb, ◌==◌, get_elem?, set, replicate, if◌then◌else◌,
}

pub data EraseMode : Type 0 where
  backward_shift tombstone : EraseMode

pub record Slot : Type 0 where
  pub key : ℕ
  pub value : ℕ

pub record Table : Type 0 where
  pub slots : List Slot
  pub size : ℕ
  pub capacity : ℕ
  pub shift : ℕ

-- `FibHash`
unfoldable pub fib_hash : ℕ → ℕ
fib_hash key = (key * 0x9e3779b97f4a7c15) % 2 ^ 64

abbrev pub blank_slot : Slot
blank_slot = record { key = 0; value = 0 }

abbrev pub slot_at : List Slot → ℕ → Slot
slot_at slots i = elim (get_elem? slots i) [ none ↦ blank_slot | some s ↦ s ]

abbrev pub is_empty : List Slot → ℕ → Bool
is_empty slots i = (slot_at slots i).value == 0

abbrev pub set_empty : List Slot → ℕ → List Slot
set_empty slots i = set slots i (record { key = (slot_at slots i).key; value = 0 })

abbrev pub set_deleted : List Slot → ℕ → List Slot
set_deleted slots i = set slots i (record { key = (slot_at slots i).key; value = 1 })

-- The test under `if constexpr (Mode == EraseMode::Tombstone)`.
abbrev pub skip_value : EraseMode → ℕ → Bool
skip_value tombstone v = v == 1
skip_value backward_shift v = false

abbrev pub skips : EraseMode → List Slot → ℕ → Bool
skips mode slots i = skip_value mode (slot_at slots i).value

-- How the loop of `insert` ends: at a slot to write, at the key, or after all slots with the first
-- deleted one, `capacity_` if there is none.
pub data Probe : Type 0 where
  free_slot : ℕ → Probe
  duplicate : Probe
  exhausted : ℕ → Probe

-- For the capacity `2 ^ k`: the array of twice as many slots, a number of 64 bits, and the shift that
-- makes an index of a hash. The bytes of the array must be fewer than 2 ^ 64; beyond that their number
-- wraps in `make_prefaulted_array`.
unfoldable pub new : ℕ → Table
new k = record {
  slots = replicate (2 ^ k * 2 % 2 ^ 64) blank_slot;
  size = 0;
  capacity = 2 ^ k * 2 % 2 ^ 64;
  shift = 64 - (k + 1);
}

module _ (mode : EraseMode) (hash : ℕ → ℕ) where
  unfoldable pub get_pos : Table → ℕ → ℕ
  get_pos t key = hash key / 2 ^ t.shift

  unfoldable pub wrap : Table → ℕ → ℕ
  wrap t i = bit_and i (t.capacity - 1)

  -- The loop with `n` rounds left.
  unfoldable pub find_from : ℕ → ℕ → Table → ℕ → ℕ
  unfolding wrap get_pos
  find_from zero i t key = t.capacity
  find_from (suc n) i t key =
      let slot = wrap t (get_pos t key + i) in
      let rest = find_from n (i + 1) t key in
      if is_empty t.slots slot
      then t.capacity
      else if skips mode t.slots slot
      then rest
      else if (slot_at t.slots slot).key == key
      then slot
      else rest

  unfoldable pub find_key : Table → ℕ → ℕ
  unfolding find_from
  find_key t key = find_from t.capacity 0 t key

  unfoldable pub find : Table → ℕ → ℕ
  unfolding find_key
  find t key =
      let pos = find_key t key in if pos == t.capacity then 0 else (slot_at t.slots pos).value

  unfoldable pub insert_from : ℕ → ℕ → ℕ → Table → ℕ → Probe
  unfolding wrap get_pos
  insert_from zero i first_deleted t key = exhausted first_deleted
  insert_from (suc n) i first_deleted t key =
      let slot = wrap t (get_pos t key + i) in
      let deleted = skips mode t.slots slot in
      let rest =
        insert_from n (i + 1)
          (if deleted && (first_deleted == t.capacity) then slot else first_deleted) t key in
      if deleted
      then rest
      else if is_empty t.slots slot
      then free_slot (if first_deleted == t.capacity then slot else first_deleted)
      else if (slot_at t.slots slot).key == key
      then duplicate
      else rest

  abbrev pub write : Table → ℕ → ℕ → ℕ → Table
  write t i key value = record t {
    slots = set t.slots i (record { key = key; value = value });
    size = t.size + 1;
  }

  unfoldable pub insert : Table → ℕ → ℕ → Bool × Table
  unfolding insert_from
  insert t key value = elim (insert_from t.capacity 0 t.capacity t key) [
    | free_slot i ↦ (true, write t i key value)
    | duplicate ↦ (false, t)
    | exhausted i ↦ if i == t.capacity then (false, t) else (true, write t i key value)
  ]

  -- The `while` loop of `erase`, with fuel: `none` is out of fuel.
  unfoldable pub shift_back : ℕ → Table → ℕ → ℕ → List Slot → Option (List Slot)
  unfolding wrap get_pos
  shift_back zero t empty current slots = none
  shift_back (suc n) t empty current slots =
      let wanted = get_pos t (slot_at slots current).key in
      let steps_wc = wrap t ((current + 2 ^ 64 - wanted) % 2 ^ 64) in
      let steps_we = wrap t ((empty + 2 ^ 64 - wanted) % 2 ^ 64) in
      let moves = ltb steps_we steps_wc in
      let moved = set_empty (set slots empty (slot_at slots current)) current in
      let rest =
        shift_back n t (if moves then current else empty) (wrap t (current + 1))
          (if moves then moved else slots) in
      if is_empty slots current then some slots else rest

  erase_at : EraseMode → Table → ℕ → Option Table
  unfolding shift_back
  erase_at tombstone t pos = some (record t { slots = set_deleted t.slots pos; size = t.size - 1 })
  erase_at backward_shift t pos =
      elim (shift_back t.capacity t pos (wrap t (pos + 1)) (set_empty t.slots pos)) [
        | none ↦ none
        | some slots ↦ some (record t { slots = slots; size = t.size - 1 })
      ]

  unfoldable pub erase : Table → ℕ → Option (Bool × Table)
  unfolding find_key erase_at
  erase t key =
      let pos = find_key t key in
      if pos == t.capacity
      then some (false, t)
      else elim (erase_at mode t pos) [ none ↦ none | some t' ↦ some (true, t') ]

  -- The loop of `rehash` over the slots that are left. An insert that fails goes unnoticed, as it does
  -- without assertions.
  unfoldable pub reinsert : List Slot → Table → Table
  unfolding insert
  reinsert [] t = t
  reinsert (s ∷ slots) t =
      let next =
        if s.value == 0 then t else if s.value == 1 then t else (insert t s.key s.value).1 in
      reinsert slots next

  -- `rehash(2 ^ k)`; `allocated` says whether the new table finds memory. `size_` is not swapped.
  unfoldable pub rehash : Bool → ℕ → Table → Bool × Table
  unfolding reinsert new
  rehash false k t = (false, t)
  rehash true k t =
      let fresh = reinsert t.slots (new k) in
      (true, record t { slots = fresh.slots; capacity = fresh.capacity; shift = fresh.shift })
