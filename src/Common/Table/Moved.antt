-- ===== src/Common/Table/Moved.antt =====
-- One key moved back into the hole: the slot that it leaves is the hole now.
use native.Mathlib.Decide.{ℕ_discrete}
use native.Mathlib.Nat.{lt_trans}
use fastbook.Prelude.{
  ℕ, ◌<◌, ◌≡◌, ◌≢◌, ◌⊎◌, inl, inr, refl, sym, ap, subst, arith, ◌∙◌, List, length, length-set, set,
}
use fastbook.Common.Table.{Slot, slot_at, set_empty}
use fastbook.Common.Table.Ring.{off, step, step-lt, off_pos, off-one}
use fastbook.Common.Table.Valid.{slot-at_set_self, slot-at_set_ne}
use fastbook.Common.Table.Hole.{Hole, key_at, value_at}

module _ (n : ℕ) (home : ℕ → ℕ) (home_lt : (k : ℕ) → home k < n) where
  -- The key moves into the hole, and leaves one behind.
  module _ (s : List Slot) (e c z : ℕ) (size : length s ≡ n) (h : Hole n home home_lt s e c z)
      (full : value_at s c ≢ 0)
      (moves : off n (home (key_at s c)) e < off n (home (key_at s c)) c) where
    abbrev pub moved : List Slot
    moved = set_empty (set s e (slot_at s c)) c

    not_e : e ≢ c
    not_e same = full (subst (λ i. value_at s i ≡ 0) same h.hole)

    not_z : c ≢ z
    not_z same = full (subst (λ i. value_at s i ≡ 0) (sym same) h.stop)

    filled_lt : c < length (set s e (slot_at s c))
    filled_lt = omega (arith, length-set s e (slot_at s c), size, h.c_lt)

    pub at_e : slot_at moved e ≡ slot_at s c
    at_e =
        slot-at_set_ne (set s e (slot_at s c)) c e _ (λ same. not_e (sym same))
        ∙ slot-at_set_self s e (slot_at s c) (omega (arith, size, h.e_lt))

    pub at_c : value_at moved c ≡ 0
    at_c = ap (λ (x : Slot). x.value) (slot-at_set_self (set s e (slot_at s c)) c _ filled_lt)

    pub at_other : (p : ℕ) → p ≢ e → p ≢ c → slot_at moved p ≡ slot_at s p
    at_other p ne nc =
        slot-at_set_ne (set s e (slot_at s c)) c p _ (λ same. nc (sym same))
        ∙ slot-at_set_ne s e p (slot_at s c) (λ same. ne (sym same))

    pub length-moved : length moved ≡ n
    length-moved = length-set (set s e (slot_at s c)) c _ ∙ length-set s e (slot_at s c) ∙ size

    -- Where a full slot was before.
    pub record Was (p : ℕ) : Type 0 where
      pub from : ℕ
      pub inside : from < n
      pub same : slot_at moved p ≡ slot_at s from
      pub back : (from ≡ p) ⊎ ((p ≡ e) × (from ≡ c))
      pub stays : p ≢ c

    pub was : (p : ℕ) → p < n → value_at moved p ≢ 0 → Was p
    was p hp full' = elim (ℕ_discrete p e) [
      | yes p_e ↦ record {
        from = c;
        inside = h.c_lt;
        same = ap (slot_at moved) p_e ∙ at_e;
        back = inr (p_e, refl);
        stays = λ p_c. full' (subst (λ i. value_at moved i ≡ 0) (sym p_c) at_c);
      }
      | no ne ↦
          let nc : p ≢ c = λ p_c. full' (subst (λ i. value_at moved i ≡ 0) (sym p_c) at_c) in
          record { from = p; inside = hp; same = at_other p ne nc; back = inl refl; stays = nc }
    ]

    -- What is on the way to a slot now was on the way to where its key was.
    way :
        (p q : ℕ) (w : Was p)
        → off n (home (key_at moved p)) q < off n (home (key_at moved p)) p
        → off n (home (key_at s w.from)) q < off n (home (key_at s w.from)) w.from
    way p q w before =
        let k : key_at moved p ≡ key_at s w.from = ap (λ (x : Slot). x.key) w.same in
        let before' : off n (home (key_at s w.from)) q < off n (home (key_at s w.from)) p =
          subst (λ j. off n (home j) q < off n (home j) p) k before in
        elim w.back [
          | inl same ↦
              subst (λ i. off n (home (key_at s w.from)) q < off n (home (key_at s w.from)) i)
                (sym same) before'
          | inr (p_e, from_c) ↦
              lt_trans
                (subst (λ i. off n (home (key_at s w.from)) q < off n (home (key_at s w.from)) i)
                  p_e before')
                (subst (λ i. off n (home (key_at s i)) e < off n (home (key_at s i)) i) (sym from_c)
                  moves)
        ]

    moved_path :
        (p q : ℕ)
        → p < n
        → q < n
        → value_at moved p ≢ 0
        → off n (home (key_at moved p)) q < off n (home (key_at moved p)) p
        → (value_at moved q ≢ 0) ⊎ (q ≡ c)
    moved_path p q hp hq full' before = elim (ℕ_discrete q c) [
      | yes q_c ↦ inr q_c
      | no nc ↦ elim (ℕ_discrete q e) [
        | yes q_e ↦
            inl (λ z. full (ap (λ (x : Slot). x.value) (sym (ap (slot_at moved) q_e ∙ at_e)) ∙ z))
        | no ne ↦
            let w = was p hp full' in
            let from_full : value_at s w.from ≢ 0 =
              λ z. full' (ap (λ (x : Slot). x.value) w.same ∙ z) in
            elim (h.path w.from q w.inside hq from_full (way p q w before)) [
              | inl full_q ↦
                  inl (λ z. full_q (ap (λ (x : Slot). x.value) (sym (at_other q ne nc)) ∙ z))
              | inr q_e ↦ absurd (ne q_e)
            ]
      ]
    ]

    moved_unique :
        (p q : ℕ)
        → p < n
        → q < n
        → value_at moved p ≢ 0
        → value_at moved q ≢ 0
        → key_at moved p ≡ key_at moved q
        → p ≡ q
    moved_unique p q hp hq fp fq same =
        let v = was p hp fp in
        let w = was q hq fq in
        let from_same : v.from ≡ w.from =
          h.unique v.from w.from v.inside w.inside (λ z. fp (ap (λ (x : Slot). x.value) v.same ∙ z))
            (λ z. fq (ap (λ (x : Slot). x.value) w.same ∙ z))
            (ap (λ (x : Slot). x.key) (sym v.same) ∙ same ∙ ap (λ (x : Slot). x.key) w.same) in
        elim v.back [
          | inl a ↦ elim w.back [
            | inl b ↦ sym a ∙ from_same ∙ b
            | inr (q_e, b) ↦ absurd (v.stays (sym a ∙ from_same ∙ b))
          ]
          | inr (p_e, a) ↦ elim w.back [
            | inl b ↦ absurd (w.stays (sym b ∙ sym from_same ∙ a))
            | inr (q_e, b) ↦ p_e ∙ sym q_e
          ]
        ]

    pub Hole-moved : Hole n home home_lt moved c (step n c 1) z
    Hole-moved =
        let one = off-one n c z h.c_lt h.z_lt not_z in
        record {
          e_lt = h.c_lt;
          c_lt = step-lt n c 1 h.c_lt (omega (arith, h.c_lt));
          z_lt = h.z_lt;
          hole = at_c;
          stop =
              ap (λ (x : Slot). x.value) (at_other z h.apart (λ same. not_z (sym same))) ∙ h.stop;
          apart = λ same. not_z (sym same);
          after = omega (arith, one);
          between = omega (arith, one, off_pos n c z h.c_lt h.z_lt not_z);
          path = moved_path;
          scanned = λ p hp pos before full'. absurd (omega (arith, one));
          unique = moved_unique;
        }
