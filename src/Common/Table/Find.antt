-- ===== src/Common/Table/Find.antt =====
-- `find_key` and `find` on slots that hold a map.
use native.Mathlib.Decide.{dec_le}
use fastbook.Prelude.{
  ℕ, zero, suc, ◌+◌, ◌^◌, ◌≤◌, ◌<◌, ◌≡◌, ◌≢◌, inl, inr, refl, sym, ap, subst, arith, ◌∙◌, ◌==◌,
  if◌then◌else◌, Bool-cases,
}
use fastbook.Common.Table.{
  EraseMode, Table, slot_at, skips, is_empty, get_pos, find_from, find_key, find,
}
use fastbook.Common.Table.Ring.{off, step, step-lt, off-step, off-lt, step-off}
use fastbook.Common.Table.Valid.{
  Live, IsProbed, Holds, Passes, path-Passes, Shape, get-pos-lt, wrap-step,
}

module _ (mode : EraseMode) (hash : ℕ → ℕ) (word : (key : ℕ) → hash key < 2 ^ 64) where
  -- One round, with the slot that it looks at.
  find-from-suc :
      (n i : ℕ) (t : Table) (key slot : ℕ)
      → Shape t
      → i ≤ t.capacity
      → step t.capacity (get_pos mode hash t key) i ≡ slot
      → find_from mode hash (suc n) i t key ≡ (
          if is_empty t.slots slot
          then t.capacity
          else if skips mode t.slots slot
          then find_from mode hash n (i + 1) t key
          else if (slot_at t.slots slot).key == key
          then slot
          else find_from mode hash n (i + 1) t key)
  unfolding find_from
  find-from-suc n i t key slot sh le e =
      ap
        (λ slot.
          if is_empty t.slots slot
          then t.capacity
          else if skips mode t.slots slot
          then find_from mode hash n (i + 1) t key
          else if (slot_at t.slots slot).key == key
          then slot
          else find_from mode hash n (i + 1) t key)
        (wrap-step mode hash word t (get_pos mode hash t key) i sh
            (get-pos-lt mode hash word t key sh) le
          ∙ e)

  find-from_Passes :
      (n i : ℕ) (t : Table) (key slot : ℕ)
      → Shape t
      → i ≤ t.capacity
      → step t.capacity (get_pos mode hash t key) i ≡ slot
      → Passes mode t.slots key slot
      → find_from mode hash (suc n) i t key ≡ find_from mode hash n (i + 1) t key
  find-from_Passes n i t key slot sh le e (full, other) =
      find-from-suc n i t key slot sh le e ∙ elim (Bool-cases (skips mode t.slots slot)) [
        | inl skip ↦ ground arith
        | inr live ↦ let ne = other (full, live) in ground arith
      ]

  find-from_stops :
      (n i : ℕ) (t : Table) (key slot : ℕ)
      → Shape t
      → i ≤ t.capacity
      → step t.capacity (get_pos mode hash t key) i ≡ slot
      → Live mode t.slots slot
      → (slot_at t.slots slot).key ≡ key
      → find_from mode hash (suc n) i t key ≡ slot
  find-from_stops n i t key slot sh le e (full, live) same =
      find-from-suc n i t key slot sh le e ∙ ground arith

  find-from_found :
      (n i : ℕ) (t : Table) (key p : ℕ)
      → Shape t
      → IsProbed mode t.capacity (get_pos mode hash t) t.slots
      → p < t.capacity
      → Live mode t.slots p
      → (slot_at t.slots p).key ≡ key
      → n + i ≡ t.capacity
      → i ≤ off t.capacity (get_pos mode hash t key) p
      → find_from mode hash n i t key ≡ p
  find-from_found zero i t key p sh v inside live e sum le =
      let h = get-pos-lt mode hash word t key sh in
      absurd (omega (arith, off-lt t.capacity (get_pos mode hash t key) p h inside))
  find-from_found (suc n) i t key p sh v inside live e sum le =
      let home = get_pos mode hash t key in
      let h = get-pos-lt mode hash word t key sh in
      let slot = step t.capacity home i in
      elim (dec_le (suc i) (off t.capacity home p)) [
        | yes before ↦
            let there = off-step t.capacity home i h (omega arith) in
            find-from_Passes n i t key slot sh (omega arith) refl (
              path-Passes mode t.capacity (get_pos mode hash t) t.slots p slot key v inside
                (step-lt t.capacity home i h (omega arith)) live e
                (subst (λ j. j < off t.capacity home p) (sym there) before))
            ∙ find-from_found n (i + 1) t key p sh v inside live e (omega arith) (omega arith)
        | no reached ↦
            let here : i ≡ off t.capacity home p = omega arith in
            find-from_stops n i t key p sh (omega arith)
              (ap (step t.capacity home) here ∙ step-off t.capacity home p h inside) live e
      ]

  -- Without the key the search answers `capacity_`.
  find-from_absent :
      (n i : ℕ) (t : Table) (key : ℕ)
      → Shape t
      → ((p : ℕ) → p < t.capacity → Live mode t.slots p → (slot_at t.slots p).key ≢ key)
      → n + i ≡ t.capacity
      → find_from mode hash n i t key ≡ t.capacity
  unfolding find_from
  find-from_absent zero i t key sh none_has sum = refl
  find-from_absent (suc n) i t key sh none_has sum =
      let home = get_pos mode hash t key in
      let h = get-pos-lt mode hash word t key sh in
      let slot = step t.capacity home i in
      let later = find-from_absent n (i + 1) t key sh none_has (omega arith) in
      elim (Bool-cases (is_empty t.slots slot)) [
        | inl stop ↦ find-from-suc n i t key slot sh (omega arith) refl ∙ ground arith
        | inr more ↦
            find-from_Passes n i t key slot sh (omega arith) refl
              (ground arith, none_has slot (step-lt t.capacity home i h (omega arith)))
            ∙ later
      ]

  pub find-key_found :
      (t : Table) (key v : ℕ)
      → Shape t
      → IsProbed mode t.capacity (get_pos mode hash t) t.slots
      → (h : Holds mode t.capacity t.slots key v) → find_key mode hash t key ≡ h.at
  unfolding find_key
  find-key_found t key v sh probed h =
      find-from_found t.capacity 0 t key h.at sh probed h.inside h.live h.has_key (omega arith)
        (omega arith)

  pub find-key_absent :
      (t : Table) (key : ℕ)
      → Shape t
      → ((p : ℕ) → p < t.capacity → Live mode t.slots p → (slot_at t.slots p).key ≢ key)
      → find_key mode hash t key ≡ t.capacity
  unfolding find_key
  find-key_absent t key sh none_has = find-from_absent t.capacity 0 t key sh none_has (omega arith)

  pub find-Holds :
      (t : Table) (key v : ℕ)
      → Shape t
      → IsProbed mode t.capacity (get_pos mode hash t) t.slots
      → Holds mode t.capacity t.slots key v
      → find mode hash t key ≡ v
  unfolding find
  find-Holds t key v sh probed holds =
      let inside = holds.inside in
      let value = holds.has_value in
      ap (λ p. if p == t.capacity then 0 else (slot_at t.slots p).value)
        (find-key_found t key v sh probed holds)
      ∙ ground arith

  pub find-absent :
      (t : Table) (key : ℕ)
      → Shape t
      → ((p : ℕ) → p < t.capacity → Live mode t.slots p → (slot_at t.slots p).key ≢ key)
      → find mode hash t key ≡ 0
  unfolding find
  find-absent t key sh none_has =
      ap (λ p. if p == t.capacity then 0 else (slot_at t.slots p).value)
        (find-key_absent t key sh none_has)
      ∙ ground arith
