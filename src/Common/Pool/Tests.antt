-- ===== src/Common/Pool/Tests.antt =====
-- A pool of two objects that are numbers; `reset` makes them 0.
use fastbook.Prelude.{ℕ, ◌≡◌, refl, [], ◌∷◌, some, true}
use fastbook.Common.Pool.{ObjectPool, new, hand_out, get, restore, add_chunk}
use fastbook.Common.Pool.Valid.{IsValid, Got, constructed-IsValid, get-Got, Got-IsValid}
use fastbook.Common.Pool.Ops.{restore-IsValid, add-chunk-IsValid, get-restore}

abbrev clear : ℕ → ℕ
clear x = 0

abbrev pool : ObjectPool ℕ
pool = new clear 0 2

one_out : IsValid (get clear 0 pool).1 (0 ∷ [])
unfolding new hand_out get
one_out = Got-IsValid clear 0 (get-Got clear 0 pool [] (constructed-IsValid clear 0 2))

gets : (get clear 0 (get clear 0 pool).1).0 ≡ some 1
unfolding new hand_out get
gets = refl

constructed-IsValid_example : IsValid pool []
constructed-IsValid_example = constructed-IsValid clear 0 2

get-Got_example : Got clear 0 pool [] (get clear 0 pool).0 (get clear 0 pool).1
get-Got_example = get-Got clear 0 pool [] (constructed-IsValid clear 0 2)

restore-IsValid_example : IsValid (restore clear 0 (some 0) (get clear 0 pool).1) []
restore-IsValid_example = restore-IsValid clear 0 (get clear 0 pool).1 0 [] [] one_out

add-chunk-IsValid_example : IsValid (add_chunk clear 0 true 3 (get clear 0 pool).1).1 (0 ∷ [])
add-chunk-IsValid_example = add-chunk-IsValid clear 0 (get clear 0 pool).1 (0 ∷ []) true 3 one_out

get-restore_example : (get clear 0 (restore clear 0 (some 0) (get clear 0 pool).1)).0 ≡ some 0
get-restore_example = get-restore clear 0 (get clear 0 pool).1 0 [] [] one_out
