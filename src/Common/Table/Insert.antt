-- ===== src/Common/Table/Insert.antt =====
-- The rounds of the loop of `insert`, and its end at the key.
use native.Mathlib.Decide.{dec_le}
use fastbook.Prelude.{
  ℕ, zero, suc, ◌+◌, ◌^◌, ◌≤◌, ◌<◌, ◌≡◌, ◌≢◌, inl, inr, refl, sym, ap, subst, arith, ◌∙◌, true,
  false, ◌&&◌, ◌==◌, if◌then◌else◌, Bool-cases,
}
use fastbook.Common.Table.{
  EraseMode, backward_shift, tombstone, Table, free_slot, duplicate, slot_at, skips, skip_value,
  is_empty, get_pos, insert_from,
}
use fastbook.Common.Table.Ring.{off, step, step-lt, off-step, off-lt, step-off}
use fastbook.Common.Table.Valid.{Live, IsProbed, path-Passes, Shape, get-pos-lt, wrap-step}

module _ (mode : EraseMode) (hash : ℕ → ℕ) (word : (key : ℕ) → hash key < 2 ^ 64) where
  skip-value_zero : (v : ℕ) → v ≡ 0 → skip_value mode v ≡ false
  skip-value_zero v e = ap (skip_value mode) e ∙ go mode
    where
      go : (m : EraseMode) → skip_value m 0 ≡ false
      go backward_shift = refl
      go tombstone = refl

  insert-from-suc :
      (n i fd : ℕ) (t : Table) (key slot : ℕ)
      → Shape t
      → i ≤ t.capacity
      → step t.capacity (get_pos mode hash t key) i ≡ slot
      → insert_from mode hash (suc n) i fd t key ≡ (
          if skips mode t.slots slot
          then insert_from mode hash n
              (i + 1)
              (if skips mode t.slots slot && (fd == t.capacity) then slot else fd)
              t
              key
          else if is_empty t.slots slot
          then free_slot (if fd == t.capacity then slot else fd)
          else if (slot_at t.slots slot).key == key
          then duplicate
          else insert_from mode hash n
              (i + 1)
              (if skips mode t.slots slot && (fd == t.capacity) then slot else fd)
              t
              key)
  unfolding insert_from
  insert-from-suc n i fd t key slot sh le e =
      ap
        (λ slot.
          if skips mode t.slots slot
          then insert_from mode hash n (i + 1)
              (if skips mode t.slots slot && (fd == t.capacity) then slot else fd) t key
          else if is_empty t.slots slot
          then free_slot (if fd == t.capacity then slot else fd)
          else if (slot_at t.slots slot).key == key
          then duplicate
          else insert_from mode hash n (i + 1)
              (if skips mode t.slots slot && (fd == t.capacity) then slot else fd) t key)
        (wrap-step mode hash word t (get_pos mode hash t key) i sh
            (get-pos-lt mode hash word t key sh) le
          ∙ e)

  module _ (n i fd : ℕ) (t : Table) (key slot : ℕ) (sh : Shape t) (le : i ≤ t.capacity)
      (e : step t.capacity (get_pos mode hash t key) i ≡ slot) where
    pub round_deleted :
        skips mode t.slots slot ≡ true
        → insert_from mode hash (suc n) i fd t key
          ≡ insert_from mode hash n (i + 1) (if fd == t.capacity then slot else fd) t key
    round_deleted skip = insert-from-suc n i fd t key slot sh le e ∙ ground arith

    pub round_other :
        Live mode t.slots slot
        → (slot_at t.slots slot).key ≢ key
        → insert_from mode hash (suc n) i fd t key ≡ insert_from mode hash n (i + 1) fd t key
    round_other (full, live) ne = insert-from-suc n i fd t key slot sh le e ∙ ground arith

    pub round_empty :
        (slot_at t.slots slot).value ≡ 0
        → insert_from mode hash (suc n) i fd t key
          ≡ free_slot (if fd == t.capacity then slot else fd)
    round_empty zero_value =
        let live = skip-value_zero (slot_at t.slots slot).value zero_value in
        insert-from-suc n i fd t key slot sh le e ∙ ground arith

    round_same :
        Live mode t.slots slot
        → (slot_at t.slots slot).key ≡ key
        → insert_from mode hash (suc n) i fd t key ≡ duplicate
    round_same (full, live) same = insert-from-suc n i fd t key slot sh le e ∙ ground arith

  -- The slot with the key is reached, and nothing is written.
  pub insert-from_found :
      (n i fd : ℕ) (t : Table) (key p : ℕ)
      → Shape t
      → IsProbed mode t.capacity (get_pos mode hash t) t.slots
      → p < t.capacity
      → Live mode t.slots p
      → (slot_at t.slots p).key ≡ key
      → n + i ≡ t.capacity
      → i ≤ off t.capacity (get_pos mode hash t key) p
      → insert_from mode hash n i fd t key ≡ duplicate
  insert-from_found zero i fd t key p sh v inside live e sum le =
      let h = get-pos-lt mode hash word t key sh in
      absurd (omega (arith, off-lt t.capacity (get_pos mode hash t key) p h inside))
  insert-from_found (suc n) i fd t key p sh v inside live e sum le =
      let home = get_pos mode hash t key in
      let h = get-pos-lt mode hash word t key sh in
      let slot = step t.capacity home i in
      elim (dec_le (suc i) (off t.capacity home p)) [
        | yes before ↦
            let there = off-step t.capacity home i h (omega arith) in
            let (full, other) =
              path-Passes mode t.capacity (get_pos mode hash t) t.slots p slot key v inside
                (step-lt t.capacity home i h (omega arith)) live e
                (subst (λ j. j < off t.capacity home p) (sym there) before) in
            let later = λ (fd : ℕ).
              insert-from_found n (i + 1) fd t key p sh v inside live e (omega arith)
                (omega arith) in
            elim (Bool-cases (skips mode t.slots slot)) [
              | inl skip ↦ round_deleted n i fd t key slot sh (omega arith) refl skip ∙ later _
              | inr live' ↦
                  round_other n i fd t key slot sh (omega arith) refl (full, live')
                    (other (full, live'))
                  ∙ later fd
            ]
        | no reached ↦
            let here : i ≡ off t.capacity home p = omega arith in
            round_same n i fd t key p sh (omega arith)
              (ap (step t.capacity home) here ∙ step-off t.capacity home p h inside) live e
      ]
