-- ===== src/Common/Table/Live.antt =====
-- The number of live slots, and the search for one among all.
use fastbook.Prelude.{
  ℕ, zero, suc, ◌+◌, ◌≤◌, ◌<◌, ◌≡◌, ◌≢◌, ◌⊎◌, inl, inr, refl, sym, ap, subst, arith, ◌∙◌, List, [],
  ◌∷◌, false, ◌==◌, ==_iff, length, set, if◌then◌else◌, Bool-cases,
}
use native.Mathlib.Decide.{ℕ_discrete}
use fastbook.Common.Table.{EraseMode, Slot, slot_at, skip_value}
use fastbook.Common.Table.Valid.{Live, Holds}

module _ (mode : EraseMode) where
  abbrev pub one_live : ℕ → ℕ
  one_live v = if v == 0 then 0 else if skip_value mode v then 0 else 1

  unfoldable pub count_live : List Slot → ℕ
  count_live [] = 0
  count_live (s ∷ slots) = one_live s.value + count_live slots

  pub one-live_cases :
      (v : ℕ)
      → ((v ≢ 0) × (skip_value mode v ≡ false) × (one_live v ≡ 1))
        ⊎ ((¬ ((v ≢ 0) × (skip_value mode v ≡ false))) × (one_live v ≡ 0))
  one-live_cases v = elim (Bool-cases (v == 0)) [
    | inl z ↦ inr ((λ l. l.0 ((==_iff v 0).0 z)), ground arith)
    | inr n ↦ elim (Bool-cases (skip_value mode v)) [
      | inl s ↦ inr ((λ l. cc (l.1, s)), ground arith)
      | inr s ↦ inl ((λ z. cc (n, (==_iff v 0).1 z)), s, ground arith)
    ]
  ]

  pub Live_dec : (slots : List Slot) (p : ℕ) → Live mode slots p ⊎ (¬ Live mode slots p)
  Live_dec slots p = elim (one-live_cases (slot_at slots p).value) [
    | inl (a, b, _) ↦ inl (a, b)
    | inr (n, _) ↦ inr n
  ]

  pub one-live_of : (v : ℕ) → v ≢ 0 → skip_value mode v ≡ false → one_live v ≡ 1
  one-live_of v a b = ground arith

  pub one-live_not : (v : ℕ) → ¬ ((v ≢ 0) × (skip_value mode v ≡ false)) → one_live v ≡ 0
  one-live_not v n = elim (one-live_cases v) [ inl (a, b, _) ↦ absurd (n (a, b)) | inr (_, z) ↦ z ]

  pub count-live-set :
      (slots : List Slot) (p : ℕ) (s : Slot)
      → p < length slots
      → count_live (set slots p s) + one_live (slot_at slots p).value
        ≡ count_live slots + one_live s.value
  unfolding count_live
  count-live-set [] p s h = absurd (omega arith)
  count-live-set (x ∷ slots) zero s h = omega arith
  count-live-set (x ∷ slots) (suc p) s h = omega (arith, count-live-set slots p s (omega arith))

  pub count-live-ge :
      (slots : List Slot) (p : ℕ)
      → p < length slots
      → one_live (slot_at slots p).value ≤ count_live slots
  unfolding count_live
  count-live-ge [] p h = absurd (omega arith)
  count-live-ge (x ∷ slots) zero h = omega arith
  count-live-ge (x ∷ slots) (suc p) h = omega (arith, count-live-ge slots p (omega arith))

  pub count-live_free :
      (slots : List Slot)
      → count_live slots < length slots
      → (p : ℕ) × (p < length slots) × (¬ Live mode slots p)
  unfolding count_live
  count-live_free [] h = absurd (omega arith)
  count-live_free (x ∷ slots) h = elim (one-live_cases x.value) [
    | inr (n, _) ↦ (0, omega arith, n)
    | inl (_, _, one) ↦
        let (p, inside, free) = count-live_free slots (omega (arith, one)) in
        (suc p, omega arith, free)
  ]

  one-live_le : (v : ℕ) → one_live v ≤ 1
  one-live_le v = ground arith

  pub count-live_le : (slots : List Slot) → count_live slots ≤ length slots
  unfolding count_live
  count-live_le [] = omega arith
  count-live_le (x ∷ slots) = omega (arith, one-live_le x.value, count-live_le slots)

  pub count-live_lt :
      (slots : List Slot) (p : ℕ)
      → p < length slots
      → ¬ Live mode slots p
      → count_live slots < length slots
  unfolding count_live
  count-live_lt [] p h free = absurd (omega arith)
  count-live_lt (x ∷ slots) zero h free =
      omega (arith, one-live_not x.value free, count-live_le slots)
  count-live_lt (x ∷ slots) (suc p) h free =
      omega (arith, count-live_lt slots p (omega arith) free, one-live_le x.value)

  -- A key is held with some pointer, or no live slot has it.
  pub Holds_cases :
      (n : ℕ) (slots : List Slot) (key : ℕ)
      → ((v : ℕ) × Holds mode n slots key v)
        ⊎ ((p : ℕ) → p < n → Live mode slots p → (slot_at slots p).key ≢ key)
  Holds_cases zero slots key = inr (λ p h. absurd (omega arith))
  Holds_cases (suc n) slots key = elim (Holds_cases n slots key) [
    | inl (v, h) ↦
        let inside = h.inside in
        inl (
          v,
          record {
            at = h.at;
            inside = omega arith;
            live = h.live;
            has_key = h.has_key;
            has_value = h.has_value;
          },
        )
    | inr none_has ↦ elim (Live_dec slots n) [
      | inr dead ↦ inr (λ p h live. elim (ℕ_discrete p n) [
        | yes e ↦ absurd (dead (subst (Live mode slots) e live))
        | no ne ↦ none_has p (omega arith) live
      ])
      | inl live ↦ elim (ℕ_discrete (slot_at slots n).key key) [
        | yes same ↦ inl (
          (slot_at slots n).value,
          record { at = n; inside = omega arith; live = live; has_key = same; has_value = refl },
        )
        | no other ↦ inr (λ p h live. elim (ℕ_discrete p n) [
          | yes e ↦ λ k. other (ap (λ i. (slot_at slots i).key) (sym e) ∙ k)
          | no ne ↦ none_has p (omega arith) live
        ])
      ]
    ]
  ]
