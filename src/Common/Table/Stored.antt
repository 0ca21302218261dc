-- ===== src/Common/Table/Stored.antt =====
-- What a list of slots holds under a key, its first live slot with the key taken.
use fastbook.Prelude.{
  ℕ, zero, suc, ◌<◌, ◌≡◌, ◌≢◌, inl, inr, refl, arith, List, [], ◌∷◌, false, ◌==◌, length,
  if◌then◌else◌,
}
use fastbook.Common.Table.{EraseMode, backward_shift, tombstone, Slot, slot_at, skip_value}
use fastbook.Common.Table.Valid.{Live}
use fastbook.Common.Table.Live.{one_live, one-live_cases, one-live_of}

pub skip-value_other : (mode : EraseMode) (v : ℕ) → v ≢ 1 → skip_value mode v ≡ false
skip-value_other tombstone v ne = ground arith
skip-value_other backward_shift v ne = refl

module _ (mode : EraseMode) where
  abbrev pub IsLive : Slot → Type 0
  IsLive s = (s.value ≢ 0) × (skip_value mode s.value ≡ false)

  -- What the first live slot with the key holds.
  unfoldable pub stored : List Slot → ℕ → ℕ
  stored [] key = 0
  stored (s ∷ slots) key =
      let rest = stored slots key in
      if one_live mode s.value == 0 then rest else if s.key == key then s.value else rest

  -- No live slot holds the address 1, which `rehash` takes for the mark.
  abbrev pub Unmarked : List Slot → Type 0
  Unmarked slots = (p : ℕ) → p < length slots → Live mode slots p → (slot_at slots p).value ≢ 1

  abbrev pub Once : List Slot → Type 0
  Once slots =
      (p q : ℕ)
      → p < length slots
      → q < length slots
      → Live mode slots p
      → Live mode slots q
      → (slot_at slots p).key ≡ (slot_at slots q).key
      → p ≡ q

  pub stored_none :
      (slots : List Slot) (key : ℕ)
      → ((p : ℕ) → p < length slots → Live mode slots p → (slot_at slots p).key ≢ key)
      → stored slots key ≡ 0
  unfolding stored
  stored_none [] key h = refl
  stored_none (s ∷ slots) key h =
      let rest = stored_none slots key (λ p lt live. h (suc p) (omega arith) live) in
      elim (one-live_cases mode s.value) [
        | inr (dead, z) ↦ ground arith
        | inl (full, kept, one) ↦
            let other : s.key ≢ key = h 0 (omega arith) (full, kept) in ground arith
      ]

  pub stored_some :
      (slots : List Slot) (p : ℕ)
      → Once slots
      → p < length slots
      → Live mode slots p
      → stored slots (slot_at slots p).key ≡ (slot_at slots p).value
  unfolding stored
  stored_some [] p once lt live = absurd (omega arith)
  stored_some (s ∷ slots) zero once lt live =
      let one = one-live_of mode s.value live.0 live.1 in ground arith
  stored_some (s ∷ slots) (suc p) once lt live =
      let key = (slot_at slots p).key in
      let rest =
        stored_some slots p
          (λ i j li lj vi vj e.
            let same = once (suc i) (suc j) (omega arith) (omega arith) vi vj e in
            omega (arith, same))
          (omega arith) live in
      elim (one-live_cases mode s.value) [
        | inr (dead, z) ↦ ground arith
        | inl (full, kept, one) ↦
            let other : s.key ≢ key = λ e.
              let same = once 0 (suc p) (omega arith) lt (full, kept) live e in
              omega (arith, same) in
            ground arith
      ]
