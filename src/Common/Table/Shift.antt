-- ===== src/Common/Table/Shift.antt =====
-- The backward shift ends, and the slots then hold the same map without a hole.
use native.Mathlib.Decide.{dec_lt, ℕ_discrete}
use fastbook.Prelude.{
  ℕ, zero, suc, ◌+◌, ◌-◌, ◌%◌, ◌^◌, ◌<◌, ◌≡◌, ◌≢◌, inl, inr, refl, sym, ap, subst, arith, ◌∙◌, List,
  Option, some, ==_iff, ltb, lt→ltb, le→not-ltb, length, length-set, set, if◌then◌else◌, Bool-cases,
}
use fastbook.Common.Table.{
  backward_shift, Slot, Table, slot_at, is_empty, set_empty, get_pos, wrap, shift_back,
}
use fastbook.Common.Table.Ring.{off, step, off_down}
use fastbook.Common.Table.Valid.{
  IsProbed, Holds, Shape, get-pos-lt, wrap-step, wrap-off, slot-at_set_ne,
}
use fastbook.Common.Table.Live.{one_live, count_live, count-live-set}
use fastbook.Common.Table.Hole.{Hole, Hole-IsProbed, Hole-stay}
use fastbook.Common.Table.Moved.{at_e, at_other, length-moved, was, Hole-moved}

-- The same keys with the same pointers, and as many live slots.
pub record SameMap (n : ℕ) (s u : List Slot) : Type 0 where
  pub to : (j v : ℕ) → Holds backward_shift n s j v → Holds backward_shift n u j v
  pub from : (j v : ℕ) → Holds backward_shift n u j v → Holds backward_shift n s j v
  pub count : count_live backward_shift u ≡ count_live backward_shift s
  pub size : length u ≡ length s

SameMap-refl : (n : ℕ) (s : List Slot) → SameMap n s s
SameMap-refl n s = record { to = λ j v h. h; from = λ j v h. h; count = refl; size = refl }

SameMap-trans : (n : ℕ) (s u v : List Slot) → SameMap n s u → SameMap n u v → SameMap n s v
SameMap-trans n s u v a b = record {
  to = λ j w h. b.to j w (a.to j w h);
  from = λ j w h. a.from j w (b.from j w h);
  count = b.count ∙ a.count;
  size = b.size ∙ a.size;
}

-- A slot that has come to another place still holds its key.
Holds_at :
    (n : ℕ) (s u : List Slot) (j v q : ℕ) (h : Holds backward_shift n s j v)
    → q < n
    → slot_at u q ≡ slot_at s h.at
    → Holds backward_shift n u j v
Holds_at n s u j v q h inside same = record {
  at = q;
  inside = inside;
  live = ((λ z. h.live.0 (ap (λ (x : Slot). x.value) (sym same) ∙ z)), refl);
  has_key = ap (λ (x : Slot). x.key) same ∙ h.has_key;
  has_value = ap (λ (x : Slot). x.value) same ∙ h.has_value;
}

module _ (hash : ℕ → ℕ) (word : (key : ℕ) → hash key < 2 ^ 64) (t : Table) (sh : Shape t) where
  abbrev n : ℕ
  n = t.capacity

  pub home_lt : (k : ℕ) → get_pos backward_shift hash t k < t.capacity
  home_lt k = get-pos-lt backward_shift hash word t k sh

  module _ (s : List Slot) (e c z : ℕ) (size : length s ≡ t.capacity)
      (h : Hole t.capacity (get_pos backward_shift hash t) home_lt s e c z)
      (full : (slot_at s c).value ≢ 0)
      (moves : off t.capacity (get_pos backward_shift hash t (slot_at s c).key) e
        < off t.capacity (get_pos backward_shift hash t (slot_at s c).key) c) where
    abbrev after : List Slot
    after = set_empty (set s e (slot_at s c)) c

    moved_to :
        (j v : ℕ)
        → Holds backward_shift t.capacity s j v
        → Holds backward_shift t.capacity after j v
    moved_to j v held = elim (ℕ_discrete held.at c) [
      | yes at ↦
          let same : slot_at after e ≡ slot_at s held.at =
            at_e t.capacity (get_pos backward_shift hash t) home_lt s e c z size h full moves
            ∙ ap (slot_at s) (sym at) in
          Holds_at t.capacity s after j v e held h.e_lt same
      | no ne ↦
          let not_e : held.at ≢ e =
            λ same. held.live.0 (subst (λ i. (slot_at s i).value ≡ 0) (sym same) h.hole) in
          Holds_at t.capacity s after j v held.at held held.inside (
            at_other t.capacity (get_pos backward_shift hash t) home_lt s e c z size h full moves
              held.at not_e ne)
    ]

    moved_from :
        (j v : ℕ)
        → Holds backward_shift t.capacity after j v
        → Holds backward_shift t.capacity s j v
    moved_from j v held =
        let w =
          was t.capacity (get_pos backward_shift hash t) home_lt s e c z size h full moves held.at
            held.inside held.live.0 in
        Holds_at t.capacity after s j v w.from held w.inside (sym w.same)

    moved_count : count_live backward_shift after ≡ count_live backward_shift s
    moved_count =
        let filled = set s e (slot_at s c) in
        let not_e : c ≢ e = λ same. full (subst (λ i. (slot_at s i).value ≡ 0) (sym same) h.hole) in
        let one = count-live-set backward_shift s e (slot_at s c) (omega (arith, size, h.e_lt)) in
        let two =
          count-live-set backward_shift filled c
            (record { key = (slot_at filled c).key; value = 0 })
            (omega (arith, size, h.c_lt, length-set s e (slot_at s c))) in
        let gone : one_live backward_shift (slot_at s e).value ≡ 0 =
          ap (one_live backward_shift) h.hole in
        let kept : one_live backward_shift (slot_at filled c).value
            ≡ one_live backward_shift (slot_at s c).value =
          ap (λ (x : Slot). one_live backward_shift x.value)
            (slot-at_set_ne s e c (slot_at s c) (λ same. not_e (sym same))) in
        omega (arith, one, two, gone, kept)

    moved-SameMap : SameMap t.capacity s after
    moved-SameMap = record {
      to = moved_to;
      from = moved_from;
      count = moved_count;
      size = length-set (set s e (slot_at s c)) c _ ∙ length-set s e (slot_at s c);
    }

  -- One round of the loop: `we` and `wc` are the two distances, `next` the slot after `c`.
  abbrev round : ℕ → ℕ → ℕ → List Slot → ℕ → ℕ → ℕ → Option (List Slot)
  round fuel e c s we wc next =
      let moves = ltb we wc in
      let rest =
        shift_back backward_shift hash fuel t (if moves then c else e) next
          (if moves then set_empty (set s e (slot_at s c)) c else s) in
      if is_empty s c then some s else rest

  abbrev home_of : List Slot → ℕ → ℕ
  home_of s c = get_pos backward_shift hash t (slot_at s c).key

  shift-back-suc :
      (fuel e c : ℕ) (s : List Slot)
      → e < t.capacity
      → c < t.capacity
      → shift_back backward_shift hash (suc fuel) t e c s
        ≡ round fuel e c s
            (off t.capacity (home_of s c) e)
            (off t.capacity (home_of s c) c)
            (step t.capacity c 1)
  unfolding shift_back
  shift-back-suc fuel e c s he hc =
      let w = home_of s c in
      let raw = λ (i : ℕ). wrap backward_shift hash t ((i + 2 ^ 64 - w) % 2 ^ 64) in
      let raw_next = wrap backward_shift hash t (c + 1) in
      ap (λ x. round fuel e c s x (raw c) raw_next)
        (wrap-off backward_shift hash word t w e sh (home_lt _) he)
      ∙ ap (λ x. round fuel e c s (off t.capacity w e) x raw_next)
          (wrap-off backward_shift hash word t w c sh (home_lt _) hc)
      ∙ ap (λ x. round fuel e c s (off t.capacity w e) (off t.capacity w c) x)
          (wrap-step backward_shift hash word t c 1 sh hc (omega (arith, hc)))

  -- With more fuel than the way to the empty slot the loop ends, on slots that hold the same map.
  abbrev pub Shifted : ℕ → ℕ → ℕ → List Slot → Type 0
  Shifted fuel e c s =
      (u : List Slot) × (shift_back backward_shift hash fuel t e c s ≡ some u)
      × IsProbed backward_shift t.capacity (get_pos backward_shift hash t) u
      × SameMap t.capacity s u

  pub shift-back-Shifted :
      (fuel e c z : ℕ) (s : List Slot)
      → length s ≡ t.capacity
      → Hole t.capacity (get_pos backward_shift hash t) home_lt s e c z
      → off t.capacity c z < fuel
      → Shifted fuel e c s
  shift-back-Shifted zero e c z s size h room = absurd (omega arith)
  shift-back-Shifted (suc fuel) e c z s size h room =
      let n = t.capacity in
      let home = get_pos backward_shift hash t in
      let once = shift-back-suc fuel e c s h.e_lt h.c_lt in
      elim (Bool-cases (is_empty s c)) [
        | inl stop ↦ (
          s,
          once ∙ rw stop,
          Hole-IsProbed n home home_lt s e c z h ((==_iff (slot_at s c).value 0).0 stop),
          SameMap-refl n s,
        )
        | inr more ↦
            let full : (slot_at s c).value ≢ 0 =
              λ zero_value. cc (more, (==_iff (slot_at s c).value 0).1 zero_value) in
            let not_z : c ≢ z =
              λ same. full (subst (λ i. (slot_at s i).value ≡ 0) (sym same) h.stop) in
            let closer = off_down n c z h.c_lt h.z_lt not_z in
            elim (dec_lt (off n (home_of s c) e) (off n (home_of s c) c)) [
              | yes moves ↦
                  let same = moved-SameMap s e c z size h full moves in
                  let (u, rest, probed, map) =
                    shift-back-Shifted fuel c (step n c 1) z (set_empty (set s e (slot_at s c)) c)
                      (length-moved n home home_lt s e c z size h full moves)
                      (Hole-moved n home home_lt s e c z size h full moves)
                      (omega (arith, closer)) in
                  (
                    u,
                    once ∙ rw (more, lt→ltb _ _ moves, rest),
                    probed,
                    SameMap-trans n s _ u same map,
                  )
              | no stays ↦
                  let (u, rest, probed, map) =
                    shift-back-Shifted fuel e (step n c 1) z s size
                      (Hole-stay n home home_lt s e c z h full stays) (omega (arith, closer)) in
                  (
                    u,
                    once
                        ∙ rw (
                          more,
                          le→not-ltb (off n (home_of s c) e) (off n (home_of s c) c)
                              (omega (arith, stays)),
                          rest,
                        ),
                    probed,
                    map,
                  )
            ]
      ]
