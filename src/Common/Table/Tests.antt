-- ===== src/Common/Table/Tests.antt =====
-- Four slots under the Fibonacci hash, with one key or two.
use fastbook.Prelude.{ℕ, zero, suc, true, false, ◌+◌, ◌^◌, ◌≤◌, ◌<◌, ◌≡◌, refl, arith, some, set}
use fastbook.Common.Table.{
  backward_shift, tombstone, Table, fib_hash, get_pos, insert_from, insert, find_from, find_key,
  find, shift_back, wrap, set_empty, slot_at, new, rehash,
}
use fastbook.Common.Table.Store.{IsValid}
use fastbook.Common.Table.Map.{Inserted, insert-Inserted}
use fastbook.Common.Table.Erase.{Forgets, erase-Forgets}
use fastbook.Common.Table.Fresh.{fib-hash-lt, find-new}
use fastbook.Common.Table.Stored.{Unmarked}
use fastbook.Common.Table.Rehash.{find-rehash}

find-new_example :
    IsValid tombstone fib_hash (new 1) × ((key : ℕ) → find tombstone fib_hash (new 1) key ≡ 0)
find-new_example = find-new tombstone fib_hash fib-hash-lt 1 (omega arith)

insert-Inserted_example : Inserted tombstone fib_hash fib-hash-lt (new 1) 5 100
insert-Inserted_example =
    insert-Inserted tombstone fib_hash fib-hash-lt (new 1) 5 100
      (find-new tombstone fib_hash fib-hash-lt 1 (omega arith)).0 ((λ e. omega (arith, e)), refl)

-- Keys 1 and 6 both want slot 2.
abbrev one_key : Table
one_key = (insert backward_shift fib_hash (new 1) 1 10).1

abbrev two_keys : Table
two_keys = (insert backward_shift fib_hash one_key 6 60).1

one_key-IsValid : IsValid backward_shift fib_hash one_key
unfolding new
one_key-IsValid =
    let (valid, empty) = find-new backward_shift fib_hash fib-hash-lt 1 (omega arith) in
    ((insert-Inserted backward_shift fib_hash fib-hash-lt (new 1) 1 10 valid
        ((λ e. omega (arith, e)), refl)).added
      (empty 1) (omega arith)).1

one_key-find : find backward_shift fib_hash one_key 6 ≡ 0
unfolding insert new insert_from get_pos wrap fib_hash find find_key find_from
one_key-find = refl

one_key_room : one_key.size < one_key.capacity
unfolding insert new insert_from get_pos wrap fib_hash
one_key_room = omega arith

two_keys-IsValid : IsValid backward_shift fib_hash two_keys
two_keys-IsValid =
    ((insert-Inserted backward_shift fib_hash fib-hash-lt one_key 6 60 one_key-IsValid
        ((λ e. omega (arith, e)), refl)).added
      one_key-find one_key_room).1

two_keys_room : two_keys.size < two_keys.capacity
unfolding insert new insert_from get_pos wrap fib_hash
two_keys_room = omega arith

erase-Forgets_example : Forgets fib_hash fib-hash-lt backward_shift two_keys 1
erase-Forgets_example =
    erase-Forgets fib_hash fib-hash-lt backward_shift two_keys 1 two_keys-IsValid two_keys_room

-- Key 6 goes back to slot 2.
moved_back :
    shift_back backward_shift fib_hash 4 two_keys 2 3 (set_empty two_keys.slots 2)
    ≡ some (set_empty (set two_keys.slots 2 (slot_at two_keys.slots 3)) 3)
unfolding insert new insert_from get_pos wrap fib_hash shift_back
moved_back = refl

two_keys-Unmarked : Unmarked backward_shift two_keys.slots
unfolding insert new insert_from get_pos wrap fib_hash
two_keys-Unmarked zero lt live e = omega (arith, e)
two_keys-Unmarked (suc zero) lt live e = omega (arith, e)
two_keys-Unmarked (suc (suc zero)) lt live e = omega (arith, e)
two_keys-Unmarked (suc (suc (suc zero))) lt live e = omega (arith, e)
two_keys-Unmarked (suc (suc (suc (suc p)))) lt live e = omega (arith, lt)

two_keys_fit : two_keys.size ≤ 2 ^ (2 + 1)
unfolding insert new insert_from get_pos wrap fib_hash
two_keys_fit = omega arith

find-rehash_example :
    (rehash backward_shift fib_hash false 2 two_keys ≡ (false, two_keys))
    × ((rehash backward_shift fib_hash true 2 two_keys).0 ≡ true)
    × IsValid backward_shift fib_hash (rehash backward_shift fib_hash true 2 two_keys).1
    × ((rehash backward_shift fib_hash true 2 two_keys).1.capacity ≡ 2 ^ (2 + 1))
    × ((key : ℕ)
        → find backward_shift fib_hash (rehash backward_shift fib_hash true 2 two_keys).1 key
          ≡ find backward_shift fib_hash two_keys key)
find-rehash_example =
    find-rehash backward_shift fib_hash fib-hash-lt 2 two_keys (omega arith) two_keys-IsValid
      two_keys-Unmarked two_keys_fit
