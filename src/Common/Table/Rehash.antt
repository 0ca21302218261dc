-- ===== src/Common/Table/Rehash.antt =====
-- `rehash` keeps the map: every live slot is inserted once into the new table.
use native.Mathlib.Decide.{ℕ_discrete}
use fastbook.Prelude.{
  ℕ, suc, ◌+◌, ◌^◌, ◌≤◌, ◌<◌, ◌≡◌, ◌≢◌, inl, inr, refl, sym, ap, subst, arith, ◌∙◌, List, [], ◌∷◌,
  true, false, ◌==◌, length, if◌then◌else◌,
}
use fastbook.Common.Table.{EraseMode, Slot, Table, slot_at, find, insert, new, reinsert, rehash}
use fastbook.Common.Table.Valid.{Live}
use fastbook.Common.Table.Live.{one_live, one-live_cases, one-live_of, count_live}
use fastbook.Common.Table.Store.{IsValid, find_cases}
use fastbook.Common.Table.Map.{insert-Inserted, insert-size, insert-size_true}
use fastbook.Common.Table.Fresh.{find-new, new_capacity}
use fastbook.Common.Table.Stored.{
  skip-value_other, IsLive, stored, Unmarked, Once, stored_none, stored_some,
}

module _ (mode : EraseMode) (hash : ℕ → ℕ) (word : (key : ℕ) → hash key < 2 ^ 64) where
  Absent : List Slot → Table → Type 0
  Absent slots u =
      (p : ℕ) → p < length slots → Live mode slots p → find mode hash u (slot_at slots p).key ≡ 0

  answer : List Slot → Table → ℕ → ℕ
  answer slots u j = if stored mode slots j == 0 then find mode hash u j else stored mode slots j

  -- What the insertion of the slots makes of the table.
  record Filled (slots : List Slot) (u r : Table) : Type 0 where
    valid : IsValid mode hash r
    capacity : r.capacity ≡ u.capacity
    size : r.size ≡ u.size + count_live mode slots
    finds : (j : ℕ) → find mode hash r j ≡ answer slots u j

  reinsert_dead :
      (s : Slot) (slots : List Slot) (u : Table)
      → ¬ IsLive mode s
      → reinsert mode hash (s ∷ slots) u ≡ reinsert mode hash slots u
  unfolding reinsert
  reinsert_dead s slots u dead = elim (ℕ_discrete s.value 0) [
    | yes z ↦ rw z refl
    | no full ↦ elim (ℕ_discrete s.value 1) [
      | yes mark ↦ rw mark refl
      | no other ↦ absurd (dead (full, skip-value_other mode s.value other))
    ]
  ]

  reinsert_live :
      (s : Slot) (slots : List Slot) (u : Table)
      → s.value ≢ 0
      → s.value ≢ 1
      → reinsert mode hash (s ∷ slots) u
        ≡ reinsert mode hash slots (insert mode hash u s.key s.value).1
  unfolding reinsert
  reinsert_live s slots u full other =
      let zero_test : (s.value == 0) ≡ false = ground arith in
      let one_test : (s.value == 1) ≡ false = ground arith in rw (zero_test, one_test) refl

  tail-Once : (s : Slot) (slots : List Slot) → Once mode (s ∷ slots) → Once mode slots
  tail-Once s slots once i j li lj vi vj e =
      let same = once (suc i) (suc j) (omega arith) (omega arith) vi vj e in omega (arith, same)

  first_other :
      (s : Slot) (slots : List Slot)
      → Once mode (s ∷ slots)
      → IsLive mode s
      → (p : ℕ) → p < length slots
      → Live mode slots p
      → (slot_at slots p).key ≢ s.key
  first_other s slots once live p lt other e =
      let same = once 0 (suc p) (omega arith) (omega arith) live other (sym e) in
      omega (arith, same)

  answer_dead :
      (s : Slot) (slots : List Slot) (u : Table) (j : ℕ)
      → one_live mode s.value ≡ 0
      → answer slots u j ≡ answer (s ∷ slots) u j
  unfolding answer stored
  answer_dead s slots u j z = ground arith

  answer_live :
      (s : Slot) (slots : List Slot) (u u' : Table) (j : ℕ)
      → Once mode (s ∷ slots)
      → IsLive mode s
      → find mode hash u' j ≡ (if j == s.key then s.value else find mode hash u j)
      → answer slots u' j ≡ answer (s ∷ slots) u j
  unfolding answer stored
  answer_live s slots u u' j once live added =
      let one = one-live_of mode s.value live.0 live.1 in
      let full = live.0 in
      let gone = stored_none mode slots s.key (first_other s slots once live) in
      elim (ℕ_discrete j s.key) [
        | yes here ↦
            let gone' : stored mode slots j ≡ 0 = ap (stored mode slots) here ∙ gone in ground arith
        | no other ↦ ground arith
      ]

  reinsert-Filled :
      (slots : List Slot) (u : Table)
      → IsValid mode hash u
      → Once mode slots
      → Unmarked mode slots
      → Absent slots u
      → u.size + count_live mode slots ≤ u.capacity
      → Filled slots u (reinsert mode hash slots u)
  unfolding reinsert stored count_live answer Absent
  reinsert-Filled [] u v once unmarked absent room = record {
    valid = v;
    capacity = refl;
    size = omega arith;
    finds = λ j. refl;
  }
  reinsert-Filled (s ∷ slots) u v once unmarked absent room =
      let once' = tail-Once s slots once in
      let unmarked' : Unmarked mode slots = λ p lt live. unmarked (suc p) (omega arith) live in
      elim (one-live_cases mode s.value) [
        | inr (dead, z) ↦
            let f =
              reinsert-Filled slots u v once' unmarked'
                (λ p lt live. absent (suc p) (omega arith) live) (omega (arith, room, z)) in
            subst (Filled (s ∷ slots) u) (sym (reinsert_dead s slots u dead)) (record {
              valid = f.valid;
              capacity = f.capacity;
              size = omega (arith, f.size, z);
              finds = λ j. f.finds j ∙ answer_dead s slots u j z;
            })
        | inl (full, kept, one) ↦
            let nothing = absent 0 (omega arith) (full, kept) in
            let (stored_it, valid, finds) =
              (insert-Inserted mode hash word u s.key s.value v (full, kept)).added nothing
                (omega (arith, room, one)) in
            let u' = (insert mode hash u s.key s.value).1 in
            let grown : u'.size ≡ u.size + 1 =
              insert-size_true mode hash word u s.key s.value stored_it in
            let same : u'.capacity ≡ u.capacity = (insert-size mode hash word u s.key s.value).0 in
            let absent' : Absent slots u' = λ p lt live.
              let other = first_other s slots once (full, kept) p lt live in
              let before = absent (suc p) (omega arith) live in
              finds (slot_at slots p).key ∙ ground arith in
            let f =
              reinsert-Filled slots u' valid once' unmarked' absent'
                (omega (arith, room, one, grown, same)) in
            subst (Filled (s ∷ slots) u)
              (sym (reinsert_live s slots u full (unmarked 0 (omega arith) (full, kept))))
              (record {
                valid = f.valid;
                capacity = f.capacity ∙ same;
                size = omega (arith, f.size, grown, one);
                finds = λ j. f.finds j ∙ answer_live s slots u u' j once (full, kept) (finds j);
              })
      ]

  -- A valid table answers what its first live slot with the key holds.
  find-stored :
      (t : Table) (key : ℕ)
      → IsValid mode hash t
      → Once mode t.slots
      → find mode hash t key ≡ stored mode t.slots key
  find-stored t key v once = elim (find_cases mode hash word t key v) [
    | inl h ↦
        sym h.has_value
        ∙ sym (stored_some mode t.slots h.at once (omega (arith, h.inside, v.shape.slots)) h.live)
        ∙ ap (stored mode t.slots) h.has_key
    | inr (z, absent) ↦
        z
        ∙ sym (
            stored_none mode t.slots key
              (λ p lt live. absent p (omega (arith, lt, v.shape.slots)) live))
  ]

  answer_empty :
      (slots : List Slot) (u : Table) (j : ℕ)
      → find mode hash u j ≡ 0
      → answer slots u j ≡ stored mode slots j
  unfolding answer
  answer_empty slots u j z = ground arith

  -- On a valid table none of whose live slots holds the address 1, `rehash` to the capacity `2 ^ k`, for
  -- which the 2 ^ (k + 1) slots of 16 bytes can hold all its keys and fill fewer than 2 ^ 64 bytes, changes
  -- nothing and returns false if it finds no memory. Else it returns true and leaves a valid table of `2 ^ (k + 1)` slots that answers
  -- as before for every key.
  pub find-rehash :
      (k : ℕ) (t : Table)
      → k < 59
      → IsValid mode hash t
      → Unmarked mode t.slots
      → t.size ≤ 2 ^ (k + 1)
      → (rehash mode hash false k t ≡ (false, t))
        × ((rehash mode hash true k t).0 ≡ true)
        × IsValid mode hash (rehash mode hash true k t).1
        × ((rehash mode hash true k t).1.capacity ≡ 2 ^ (k + 1))
        × ((key : ℕ) → find mode hash (rehash mode hash true k t).1 key ≡ find mode hash t key)
  unfolding rehash new Absent
  find-rehash k t small v unmarked room =
      let once : Once mode t.slots = λ p q lp lq vp vq e.
        v.probed.unique p q (omega (arith, lp, v.shape.slots)) (omega (arith, lq, v.shape.slots)) vp
          vq e in
      let (valid, empty) = find-new mode hash word k small in
      let wide = new_capacity mode hash word k small in
      let f =
        reinsert-Filled t.slots (new k) valid once unmarked
          (λ p lt live. empty (slot_at t.slots p).key) (omega (arith, room, v.size, wide)) in
      let fresh = reinsert mode hash t.slots (new k) in
      let sized : fresh.size ≡ t.size = omega (arith, f.size, v.size) in
      let is : fresh
          ≡ record t { slots = fresh.slots; capacity = fresh.capacity; shift = fresh.shift } =
        ap (λ (n : ℕ). record fresh { size = n }) sized in
      (
        refl,
        refl,
        subst (IsValid mode hash) is f.valid,
        omega (arith, f.capacity, wide),
        λ key.
            ap (λ u. find mode hash u key) (sym is)
            ∙ f.finds key
            ∙ answer_empty t.slots (new k) key (empty key)
            ∙ sym (find-stored t key v once),
      )
