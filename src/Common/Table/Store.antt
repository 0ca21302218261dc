-- ===== src/Common/Table/Store.antt =====
-- A table that holds a map, and the write of a new key at a slot that fits.
use native.Mathlib.Decide.{ℕ_discrete}
use fastbook.Prelude.{
  ℕ, ◌^◌, ◌<◌, ◌≡◌, ◌≢◌, ◌⊎◌, inl, inr, sym, ap, subst, arith, ◌∙◌, false, ◌==◌, length, length-set,
  if◌then◌else◌,
}
use fastbook.Common.Table.{EraseMode, Slot, Table, slot_at, skip_value, get_pos, write, find}
use fastbook.Common.Table.Ring.{off}
use fastbook.Common.Table.Valid.{
  Full, Live, IsProbed, Holds, Shape, slot-at_set_self, slot-at_set_ne,
}
use fastbook.Common.Table.Find.{find-Holds, find-absent}
use fastbook.Common.Table.Ends.{Fits}
use fastbook.Common.Table.Live.{one-live_of, one-live_not, count_live, count-live-set, Holds_cases}

module _ (mode : EraseMode) (hash : ℕ → ℕ) where
  -- The fields agree, the slots hold a map, and `size_` counts the live ones.
  pub record IsValid (t : Table) : Type 0 where
    pub shape : Shape t
    pub probed : IsProbed mode t.capacity (get_pos mode hash t) t.slots
    pub size : t.size ≡ count_live mode t.slots

  -- A pointer that is neither null nor the mark of a deleted slot.
  abbrev pub Storable : ℕ → Type 0
  Storable v = (v ≢ 0) × (skip_value mode v ≡ false)

module _ (mode : EraseMode) (hash : ℕ → ℕ) (word : (key : ℕ) → hash key < 2 ^ 64) where
  pub find_cases :
      (t : Table) (key : ℕ)
      → IsValid mode hash t
      → Holds mode t.capacity t.slots key (find mode hash t key)
        ⊎ ((find mode hash t key ≡ 0)
            × ((p : ℕ) → p < t.capacity → Live mode t.slots p → (slot_at t.slots p).key ≢ key))
  find_cases t key v = elim (Holds_cases mode t.capacity t.slots key) [
    | inl (w, h) ↦ inl (
        subst (Holds mode t.capacity t.slots key)
          (sym (find-Holds mode hash word t key w v.shape v.probed h)) h)
    | inr absent ↦ inr (find-absent mode hash word t key v.shape absent, absent)
  ]

  -- Two tables that hold the same under a key answer the same.
  pub find_same :
      (t u : Table) (key : ℕ)
      → IsValid mode hash t
      → IsValid mode hash u
      → ((v : ℕ) → Holds mode t.capacity t.slots key v → Holds mode u.capacity u.slots key v)
      → ((v : ℕ) → Holds mode u.capacity u.slots key v → Holds mode t.capacity t.slots key v)
      → find mode hash u key ≡ find mode hash t key
  find_same t u key vt vu to from = elim (find_cases t key vt) [
    | inl h ↦ find-Holds mode hash word u key _ vu.shape vu.probed (to _ h)
    | inr (zero_t, absent) ↦ elim (find_cases u key vu) [
      | inr (zero_u, _) ↦ zero_u ∙ sym zero_t
      | inl h ↦ let h' = from _ h in absurd (absent h'.at h'.inside h'.live h'.has_key)
    ]
  ]

  module _ (t : Table) (key v p : ℕ) (valid : IsValid mode hash t) (storable : Storable mode hash v)
      (absent : (q : ℕ) → q < t.capacity → Live mode t.slots q → (slot_at t.slots q).key ≢ key)
      (fits : Fits mode hash word t key p) where
    abbrev pub written : Table
    written = write mode hash t p key v

    inside' : p < length t.slots
    inside' = omega (arith, fits.inside, valid.shape.slots)

    at_p : slot_at written.slots p ≡ record { key = key; value = v }
    at_p = slot-at_set_self t.slots p (record { key = key; value = v }) inside'

    at_other : (q : ℕ) → q ≢ p → slot_at written.slots q ≡ slot_at t.slots q
    at_other q ne = slot-at_set_ne t.slots p q (record { key = key; value = v }) (λ e. ne (sym e))

    live_p : Live mode written.slots p
    live_p = subst (λ (s : Slot). Storable mode hash s.value) (sym at_p) storable

    old_live : (q : ℕ) → q ≢ p → Live mode written.slots q → Live mode t.slots q
    old_live q ne live = subst (λ (s : Slot). Storable mode hash s.value) (at_other q ne) live

    key_p : (slot_at written.slots p).key ≡ key
    key_p = ap (λ (s : Slot). s.key) at_p

    key_other : (q : ℕ) → q ≢ p → (slot_at written.slots q).key ≡ (slot_at t.slots q).key
    key_other q ne = ap (λ (s : Slot). s.key) (at_other q ne)

    abbrev Before : ℕ → ℕ → ℕ → Type 0
    Before k r q =
        off t.capacity (get_pos mode hash t k) r < off t.capacity (get_pos mode hash t k) q

    written_path :
        (q r : ℕ)
        → q < t.capacity
        → r < t.capacity
        → r ≢ p
        → Live mode written.slots q
        → Before (slot_at written.slots q).key r q
        → Full mode t.slots r
    written_path q r hq hr ne live before = elim (ℕ_discrete q p) [
      | yes e ↦ fits.taken r hr (
          subst (λ k. Before k r p) key_p
            (subst (λ q. Before (slot_at written.slots q).key r q) e before))
      | no ne' ↦
          valid.probed.path q r hq hr (old_live q ne' live)
            (subst (λ k. Before k r q) (key_other q ne') before)
    ]

    new_key_is :
        (q : ℕ)
        → q < t.capacity
        → q ≢ p
        → Live mode written.slots q
        → (slot_at written.slots q).key ≢ key
    new_key_is q hq ne live e = absent q hq (old_live q ne live) (sym (key_other q ne) ∙ e)

    written-IsProbed : IsProbed mode t.capacity (get_pos mode hash t) written.slots
    written-IsProbed = record {
      path = λ q r hq hr live before. elim (ℕ_discrete r p) [
        | yes e ↦ subst (Full mode written.slots) (sym e) live_p.0
        | no ne ↦
            subst (λ (s : Slot). s.value ≢ 0) (sym (at_other r ne))
              (written_path q r hq hr ne live before)
      ];
      unique = λ q r hq hr live live' same. elim (ℕ_discrete q p) [
        | yes e ↦ elim (ℕ_discrete r p) [
          | yes e' ↦ e ∙ sym e'
          | no ne ↦ absurd (
              new_key_is r hr ne live'
                (sym same ∙ ap (λ i. (slot_at written.slots i).key) e ∙ key_p))
        ]
        | no ne ↦ elim (ℕ_discrete r p) [
          | yes e' ↦
              absurd (
                new_key_is q hq ne live (same ∙ ap (λ i. (slot_at written.slots i).key) e' ∙ key_p))
          | no ne' ↦
              valid.probed.unique q r hq hr (old_live q ne live) (old_live r ne' live')
                (sym (key_other q ne) ∙ same ∙ key_other r ne')
        ]
      ];
    }

    pub written-IsValid : IsValid mode hash written
    unfolding get_pos
    written-IsValid = record {
      shape = record {
        bits = valid.shape.bits;
        bits_le = valid.shape.bits_le;
        capacity = valid.shape.capacity;
        shift = valid.shape.shift;
        slots = length-set t.slots p (record { key = key; value = v }) ∙ valid.shape.slots;
      };
      probed = written-IsProbed;
      size = omega (
        arith,
        valid.size,
        count-live-set mode t.slots p (record { key = key; value = v }) inside',
        one-live_of mode v storable.0 storable.1,
        one-live_not mode (slot_at t.slots p).value fits.free,
      );
    }

    to_written :
        (j w : ℕ) → Holds mode t.capacity t.slots j w → Holds mode t.capacity written.slots j w
    to_written j w h =
        let ne : h.at ≢ p = λ e. fits.free (subst (Live mode t.slots) e h.live) in
        let same = sym (at_other h.at ne) in
        record {
          at = h.at;
          inside = h.inside;
          live = subst (λ (s : Slot). Storable mode hash s.value) same h.live;
          has_key = subst (λ (s : Slot). s.key ≡ j) same h.has_key;
          has_value = subst (λ (s : Slot). s.value ≡ w) same h.has_value;
        }

    from_written :
        (j w : ℕ)
        → j ≢ key
        → Holds mode t.capacity written.slots j w
        → Holds mode t.capacity t.slots j w
    from_written j w other h =
        let ne : h.at ≢ p =
          λ e. other (sym h.has_key ∙ ap (λ i. (slot_at written.slots i).key) e ∙ key_p) in
        let same = at_other h.at ne in
        record {
          at = h.at;
          inside = h.inside;
          live = subst (λ (s : Slot). Storable mode hash s.value) same h.live;
          has_key = subst (λ (s : Slot). s.key ≡ j) same h.has_key;
          has_value = subst (λ (s : Slot). s.value ≡ w) same h.has_value;
        }

    find-written : find mode hash written key ≡ v
    unfolding get_pos
    find-written =
        find-Holds mode hash word written key v written-IsValid.shape written-IsValid.probed
          (record {
            at = p;
            inside = fits.inside;
            live = live_p;
            has_key = key_p;
            has_value = ap (λ (s : Slot). s.value) at_p;
          })

    pub written-find :
        (j : ℕ) → find mode hash written j ≡ (if j == key then v else find mode hash t j)
    written-find j = elim (ℕ_discrete j key) [
      | yes e ↦ ap (find mode hash written) e ∙ find-written ∙ ground arith
      | no ne ↦
          find_same t written j valid written-IsValid (to_written j) (λ w h. from_written j w ne h)
          ∙ ground arith
    ]
