-- ===== src/Common/Table/Removed.antt =====
-- A table that has lost one key: what its slots then hold, and what `find` answers.
use native.Mathlib.Decide.{ℕ_discrete}
use fastbook.Prelude.{
  ℕ, ◌+◌, ◌-◌, ◌^◌, ◌<◌, ◌≡◌, ◌≢◌, ◌⊎◌, inl, inr, sym, ap, subst, arith, ◌∙◌, List, ◌==◌, length,
  length-set, set, if◌then◌else◌,
}
use fastbook.Common.Table.{EraseMode, Slot, Table, slot_at, get_pos, find}
use fastbook.Common.Table.Ring.{off}
use fastbook.Common.Table.Valid.{Full, Live, IsProbed, Holds, slot-at_set_self, slot-at_set_ne}
use fastbook.Common.Table.Live.{one-live_of, one-live_not, count_live, count-live-set}
use fastbook.Common.Table.Store.{IsValid, Storable, find_cases, find_same}

module _ (mode : EraseMode) where
  pub record Removed (n : ℕ) (s u : List Slot) (key : ℕ) : Type 0 where
    pub to : (j v : ℕ) → j ≢ key → Holds mode n s j v → Holds mode n u j v
    pub from : (j v : ℕ) → Holds mode n u j v → Holds mode n s j v
    pub gone : (v : ℕ) → ¬ Holds mode n u key v
    pub count : count_live mode u + 1 ≡ count_live mode s
    pub size : length u ≡ length s

  -- The slot `p` keeps its key and gets a pointer that is not live.
  module _ (n : ℕ) (home : ℕ → ℕ) (s : List Slot) (p d : ℕ) (dead : ¬ Storable mode (λ i. i) d)
      (probed : IsProbed mode n home s) (inside : p < n) (size : length s ≡ n)
      (live : Live mode s p) where
    abbrev cut : List Slot
    cut = set s p (record { key = (slot_at s p).key; value = d })

    pub cut_self : slot_at cut p ≡ record { key = (slot_at s p).key; value = d }
    cut_self = slot-at_set_self s p _ (omega (arith, inside, size))

    pub cut_other : (q : ℕ) → q ≢ p → slot_at cut q ≡ slot_at s q
    cut_other q ne = slot-at_set_ne s p q _ (λ e. ne (sym e))

    cut_dead : ¬ Live mode cut p
    cut_dead l = dead (subst (λ (x : Slot). Storable mode (λ i. i) x.value) cut_self l)

    pub cut_ne : (q : ℕ) → Live mode cut q → q ≢ p
    cut_ne q l e = cut_dead (subst (Live mode cut) e l)

    pub cut-live : (q : ℕ) → Live mode cut q → Live mode s q
    cut-live q l = subst (λ (x : Slot). Storable mode (λ i. i) x.value) (cut_other q (cut_ne q l)) l

    cut_from : (j v : ℕ) → Holds mode n cut j v → Holds mode n s j v
    cut_from j v h =
        let same = cut_other h.at (cut_ne h.at h.live) in
        record {
          at = h.at;
          inside = h.inside;
          live = cut-live h.at h.live;
          has_key = ap (λ (x : Slot). x.key) (sym same) ∙ h.has_key;
          has_value = ap (λ (x : Slot). x.value) (sym same) ∙ h.has_value;
        }

    cut_to : (j v : ℕ) → j ≢ (slot_at s p).key → Holds mode n s j v → Holds mode n cut j v
    cut_to j v other h =
        let same = cut_other h.at (λ e. other (sym h.has_key ∙ ap (λ i. (slot_at s i).key) e)) in
        record {
          at = h.at;
          inside = h.inside;
          live = subst (λ (x : Slot). Storable mode (λ i. i) x.value) (sym same) h.live;
          has_key = ap (λ (x : Slot). x.key) same ∙ h.has_key;
          has_value = ap (λ (x : Slot). x.value) same ∙ h.has_value;
        }

    cut_gone : (v : ℕ) → ¬ Holds mode n cut (slot_at s p).key v
    unfolding cut_from
    cut_gone v h =
        let old = cut_from (slot_at s p).key v h in
        cut_ne h.at h.live (probed.unique old.at p old.inside inside old.live live old.has_key)

    -- On the way to a key there is no empty slot, but perhaps the one that was cut.
    pub cut_path :
        (a b : ℕ)
        → a < n
        → b < n
        → Live mode cut a
        → off n (home (slot_at cut a).key) b < off n (home (slot_at cut a).key) a
        → (Full mode cut b) ⊎ (b ≡ p)
    cut_path a b ha hb l before =
        let same = cut_other a (cut_ne a l) in
        elim (ℕ_discrete b p) [
          | yes e ↦ inr e
          | no ne ↦
              let full =
                probed.path a b ha hb (cut-live a l)
                  (subst (λ (x : Slot). off n (home x.key) b < off n (home x.key) a) same before) in
              inl (λ z. full (ap (λ (x : Slot). x.value) (sym (cut_other b ne)) ∙ z))
        ]

    pub cut_unique :
        (a b : ℕ)
        → a < n
        → b < n
        → Live mode cut a
        → Live mode cut b
        → (slot_at cut a).key ≡ (slot_at cut b).key
        → a ≡ b
    cut_unique a b ha hb la lb same =
        let key_a = ap (λ (x : Slot). x.key) (cut_other a (cut_ne a la)) in
        let key_b = ap (λ (x : Slot). x.key) (cut_other b (cut_ne b lb)) in
        probed.unique a b ha hb (cut-live a la) (cut-live b lb) (sym key_a ∙ same ∙ key_b)

    pub cut-Removed : Removed n s cut (slot_at s p).key
    cut-Removed =
        let counts =
          count-live-set mode s p (record { key = (slot_at s p).key; value = d })
            (omega (arith, inside, size)) in
        record {
          to = cut_to;
          from = cut_from;
          gone = cut_gone;
          count = omega (
            arith,
            counts,
            one-live_of mode (slot_at s p).value live.0 live.1,
            one-live_not mode d dead,
          );
          size = length-set s p _;
        }

module _ (mode : EraseMode) (hash : ℕ → ℕ) (word : (key : ℕ) → hash key < 2 ^ 64) where
  module _ (t : Table) (u : List Slot) (key : ℕ) (valid : IsValid mode hash t)
      (r : Removed mode t.capacity t.slots u key)
      (probed : IsProbed mode t.capacity (get_pos mode hash t) u) where
    abbrev pub without : Table
    without = record t { slots = u; size = t.size - 1 }

    pub without-IsValid : IsValid mode hash without
    unfolding get_pos
    without-IsValid = record {
      shape = record {
        bits = valid.shape.bits;
        bits_le = valid.shape.bits_le;
        capacity = valid.shape.capacity;
        shift = valid.shape.shift;
        slots = r.size ∙ valid.shape.slots;
      };
      probed = probed;
      size = omega (arith, valid.size, r.count);
    }

    pub without-find :
        (j : ℕ) → find mode hash without j ≡ (if j == key then 0 else find mode hash t j)
    without-find j = elim (ℕ_discrete j key) [
      | yes e ↦ elim (find_cases mode hash word without j without-IsValid) [
        | inl h ↦
            absurd
              (r.gone _ (subst (λ i. Holds mode t.capacity u i (find mode hash without j)) e h))
        | inr (none_there, _) ↦ none_there ∙ ground arith
      ]
      | no ne ↦
          find_same mode hash word t without j valid without-IsValid (λ v. r.to j v ne) (r.from j)
          ∙ ground arith
    ]
