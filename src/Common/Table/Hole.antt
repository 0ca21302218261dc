-- ===== src/Common/Table/Hole.antt =====
-- The slots during the backward shift: one empty slot, the hole, may lie on the way to keys not yet
-- looked at.
use native.Mathlib.Decide.{dec_le}
use fastbook.Prelude.{ℕ, suc, ◌≤◌, ◌<◌, ◌≡◌, ◌≢◌, ◌⊎◌, inl, inr, sym, ap, subst, arith, List}
use fastbook.Common.Table.{backward_shift, Slot, slot_at}
use fastbook.Common.Table.Ring.{
  off, step, step-lt, off-lt, off_inj, off_between, off-next, off_pos, off_self,
}
use fastbook.Common.Table.Valid.{IsProbed}

abbrev pub key_at : List Slot → ℕ → ℕ
key_at s p = (slot_at s p).key

abbrev pub value_at : List Slot → ℕ → ℕ
value_at s p = (slot_at s p).value

module _ (n : ℕ) (home : ℕ → ℕ) (home_lt : (k : ℕ) → home k < n) where
  -- `e` is the hole, `c` the slot to look at next, `z` an empty slot farther on.
  pub record Hole (s : List Slot) (e c z : ℕ) : Type 0 where
    pub e_lt : e < n
    pub c_lt : c < n
    pub z_lt : z < n
    pub hole : value_at s e ≡ 0
    pub stop : value_at s z ≡ 0
    pub apart : z ≢ e
    pub after : 0 < off n e c
    pub between : off n e c ≤ off n e z
    pub path :
        (p q : ℕ)
        → p < n
        → q < n
        → value_at s p ≢ 0
        → off n (home (key_at s p)) q < off n (home (key_at s p)) p
        → (value_at s q ≢ 0) ⊎ (q ≡ e)
    pub scanned :
        (p : ℕ)
        → p < n
        → 0 < off n e p
        → off n e p < off n e c
        → value_at s p ≢ 0
        → off n (home (key_at s p)) p < off n (home (key_at s p)) e
    pub unique :
        (p q : ℕ)
        → p < n
        → q < n
        → value_at s p ≢ 0
        → value_at s q ≢ 0
        → key_at s p ≡ key_at s q
        → p ≡ q

  -- At an empty slot the shift is done: no hole is left on any way.
  pub Hole-IsProbed :
      (s : List Slot) (e c z : ℕ)
      → Hole s e c z
      → value_at s c ≡ 0
      → IsProbed backward_shift n home s
  Hole-IsProbed s e c z h empty = record {
    path = λ p q hp hq live before. elim (h.path p q hp hq live.0 before) [
      | inl full ↦ full
      | inr at_hole ↦
          let k = home (key_at s p) in
          let e_before : off n k e < off n k p =
            subst (λ q. off n k q < off n k p) at_hole before in
          let not_e : e ≢ p = λ e_p. live.0 (subst (λ i. value_at s i ≡ 0) e_p h.hole) in
          let pos = off_pos n e p h.e_lt hp not_e in
          elim (dec_le (suc (off n e p)) (off n e c)) [
            | yes old ↦ absurd (omega (arith, e_before, h.scanned p hp pos old live.0))
            | no far ↦
                let not_c : off n e c ≢ off n e p = λ same.
                  live.0
                    (subst (λ i. value_at s i ≡ 0) (off_inj n e c p h.e_lt h.c_lt hp same) empty) in
                let c_before =
                  off_between n k e c p (home_lt (key_at s p)) h.e_lt h.c_lt hp e_before
                    (omega (arith, not_c)) in
                elim (h.path p c hp h.c_lt live.0 c_before) [
                  | inl full ↦ absurd (full empty)
                  | inr c_e ↦ absurd (omega (arith, h.after, ap (off n e) c_e, off_self n e))
                ]
          ]
    ];
    unique = λ p q hp hq live live' same. h.unique p q hp hq live.0 live'.0 same;
  }

  -- The key stays where it is.
  pub Hole-stay :
      (s : List Slot) (e c z : ℕ)
      → Hole s e c z
      → value_at s c ≢ 0
      → ¬ (off n (home (key_at s c)) e < off n (home (key_at s c)) c)
      → Hole s e (step n c 1) z
  Hole-stay s e c z h full stays =
      let not_z : c ≢ z = λ same. full (subst (λ i. value_at s i ≡ 0) (sym same) h.stop) in
      let before_z : off n e c ≢ off n e z =
        λ same. not_z (off_inj n e c z h.e_lt h.c_lt h.z_lt same) in
      let z_in = off-lt n e z h.e_lt h.z_lt in
      let next = off-next n e c h.e_lt h.c_lt (omega (arith, before_z, h.between)) in
      let not_e : c ≢ e = λ same. full (subst (λ i. value_at s i ≡ 0) (sym same) h.hole) in
      record {
        e_lt = h.e_lt;
        c_lt = step-lt n c 1 h.c_lt (omega (arith, h.c_lt));
        z_lt = h.z_lt;
        hole = h.hole;
        stop = h.stop;
        apart = h.apart;
        after = omega (arith, next);
        between = omega (arith, next, before_z, h.between);
        path = h.path;
        scanned = λ p hp pos before full'. elim (dec_le (suc (off n e p)) (off n e c)) [
          | yes old ↦ h.scanned p hp pos old full'
          | no new_one ↦
              let is_c : p ≡ c = off_inj n e p c h.e_lt hp h.c_lt (omega (arith, next)) in
              let w = home (key_at s c) in
              let w_lt = home_lt (key_at s c) in
              let ne : off n w e ≢ off n w c =
                λ same. not_e (sym (off_inj n w e c w_lt h.e_lt h.c_lt same)) in
              subst (λ i. off n (home (key_at s i)) i < off n (home (key_at s i)) e) (sym is_c)
                (omega (arith, ne))
        ];
        unique = h.unique;
      }
