-- ===== src/Common/Pool/Ops.antt =====
-- `restore` and `add_chunk` on a valid pool.
use native.Mathlib.Decide.{dec_le}
use fastbook.Prelude.{
  ℕ, suc, ◌+◌, ◌-◌, ◌<◌, ◌≡◌, inl, inr, refl, sym, ap, ap₂, arith, ◌∙◌, List, [], ◌∷◌, ◌++◌,
  append_assoc, Option, none, some, Option-cases, Bool, true, false, length, length-append,
  length-set, length-take, length-replicate, get_elem?, get_elem?-set_self, get_elem?-set_ne, set,
  take, take-append, replicate,
}
use fastbook.Common.Pool.{ObjectPool, chunk, pointer_at, reset_at, get, restore, add_chunk}
use fastbook.Common.Pool.Count.{
  count, is_at, count-append, count-take_step, take-set_self, count-chunk, length-chunk,
  chunk_filled, pointer-at-append_left, pointer-at-append_right, pointer-at-take,
}
use fastbook.Common.Pool.Valid.{IsValid, used_count, get_top}

used-count_split :
    (j i : ℕ) (before after : List ℕ)
    → used_count j (before ++ (i ∷ after)) ≡ is_at j (some i) + used_count j (before ++ after)
used-count_split j i [] after = refl
used-count_split j i (x ∷ before) after = omega (arith, used-count_split j i before after)

module _ {ℓ} {A : Type ℓ} (reset : A → A) (blank : A) where
  length-reset_at :
      (storage : List A) (i : ℕ) → length (reset_at reset blank storage i) ≡ length storage
  length-reset_at storage i = elim (Option-cases (get_elem? storage i)) [
    | inl e ↦ ap (λ o. length (elim o [ none ↦ storage | some o ↦ set storage i (reset o) ])) e
    | inr (a, e) ↦
        ap (λ o. length (elim o [ none ↦ storage | some o ↦ set storage i (reset o) ])) e
        ∙ length-set storage i (reset a)
  ]

  -- On a valid pool `restore` of an object that is handed out, whichever it is, leaves a valid pool of
  -- which the others are handed out.
  pub restore-IsValid :
      (p : ObjectPool A) (i : ℕ) (before after : List ℕ)
      → IsValid p (before ++ (i ∷ after))
      → IsValid (restore reset blank (some i) p) (before ++ after)
  unfolding restore
  restore-IsValid p i before after v =
      let room = v.room in
      let sum = length-append before (i ∷ after) in
      let below : p.n_free < length p.free = omega (arith, v.size) in
      let on_top : pointer_at (set p.free p.n_free (some i)) p.n_free ≡ some i =
        ap (λ o. elim o [ none ↦ none | some o ↦ o ])
          (get_elem?-set_self p.free p.n_free (some i) below) in
      let counts : (j : ℕ)
          → count j (take (p.n_free + 1) (set p.free p.n_free (some i)))
            ≡ count j (take p.n_free p.free) + is_at j (some i) =
        λ j.
          ap (λ m. count j (take m (set p.free p.n_free (some i)))) {y = suc p.n_free} (omega arith)
          ∙ count-take_step j p.n_free (set p.free p.n_free (some i))
              (omega (arith, below, length-set p.free p.n_free (some i)))
          ∙ ap₂ (λ l o. count j l + is_at j o) (take-set_self p.n_free p.free (some i)) on_top in
      record {
        size = length-set p.free p.n_free (some i) ∙ v.size;
        objects = length-reset_at p.storage i ∙ v.objects;
        room = omega (arith, length-append before after);
        once = λ j lt. omega (arith, v.once j lt, counts j, used-count_split j i before after);
        beyond = λ j le. omega (arith, v.beyond j le, counts j, used-count_split j i before after);
        filled = λ j lt e. elim (dec_le (suc j) p.n_free) [
          | yes old ↦ v.filled j old (
              ap (λ o. elim o [ none ↦ none | some o ↦ o ])
                (sym (get_elem?-set_ne p.free (some i) (λ h. omega (arith, h))))
              ∙ e)
          | no new_top ↦
              let is_top : p.n_free ≡ j = omega arith in
              cc (e, on_top, ap (pointer_at (set p.free p.n_free (some i))) is_top)
        ];
      }

  -- On a valid pool `add_chunk` leaves a valid pool with the same objects handed out, whether it finds
  -- memory or not.
  pub add-chunk-IsValid :
      (p : ObjectPool A) (used : List ℕ) (allocated : Bool) (n : ℕ)
      → IsValid p used
      → IsValid (add_chunk reset blank allocated n p).1 used
  unfolding add_chunk
  add-chunk-IsValid p used false n v = v
  add-chunk-IsValid p used true n v =
      let room = v.room in
      let old = take p.n_free p.free in
      let added = chunk p.capacity n in
      let null : List (Option ℕ) = replicate (p.capacity - p.n_free) none in
      let old_size : length old ≡ p.n_free = omega (arith, length-take p.n_free p.free, v.size) in
      let both : length (old ++ added) ≡ p.n_free + n =
        omega (arith, length-append old added, length-chunk p.capacity n) in
      let filled_part : take (p.n_free + n) (old ++ (added ++ null)) ≡ old ++ added =
        ap (take (p.n_free + n)) (sym (append_assoc old added null))
        ∙ take-append (old ++ added) null (p.n_free + n) (sym both) in
      let counts : (j : ℕ)
          → count j (take (p.n_free + n) (old ++ (added ++ null))) ≡ count j old + count j added =
        λ j. ap (count j) filled_part ∙ count-append j old added in
      record {
        size = omega (
          arith,
          old_size,
          length-append old (added ++ null),
          length-append added null,
          length-chunk p.capacity n,
          length-replicate {A = Option ℕ} (p.capacity - p.n_free) none,
        );
        objects = omega (
          arith,
          length-append p.storage (replicate n blank),
          length-replicate n blank,
          v.objects,
        );
        room = omega arith;
        once = λ j lt. elim (dec_le (suc j) p.capacity) [
          | yes inside ↦ ground (arith, v.once j inside, counts j, count-chunk j p.capacity n)
          | no over ↦ ground (arith, v.beyond j (omega arith), counts j, count-chunk j p.capacity n)
        ];
        beyond =
            λ j le. ground (arith, v.beyond j (omega arith), counts j, count-chunk j p.capacity n);
        filled = λ j lt e. elim (dec_le (suc j) p.n_free) [
          | yes below ↦ v.filled j below (
              sym (pointer-at-take p.n_free j p.free below)
              ∙ sym (pointer-at-append_left old (added ++ null) j (omega (arith, old_size)))
              ∙ e)
          | no above ↦ chunk_filled p.capacity n (j - length old) (omega (arith, old_size)) (
              sym (
                pointer-at-append_left added null (j - length old)
                  (omega (arith, old_size, length-chunk p.capacity n)))
              ∙ sym (pointer-at-append_right old (added ++ null) j (omega (arith, old_size)))
              ∙ e)
        ];
      }

  -- With an object of a valid pool handed out, `get` right after its `restore` hands it out again.
  pub get-restore :
      (p : ObjectPool A) (i : ℕ) (before after : List ℕ)
      → IsValid p (before ++ (i ∷ after))
      → (get reset blank (restore reset blank (some i) p)).0 ≡ some i
  unfolding restore
  get-restore p i before after v =
      let room = v.room in
      let sum = length-append before (i ∷ after) in
      let below : p.n_free < length p.free = omega (arith, v.size) in
      ap (λ (r : Option ℕ × ObjectPool A). r.0)
        (get_top reset blank (restore reset blank (some i) p) (omega arith))
      ∙ ap (pointer_at (set p.free p.n_free (some i))) {y = p.n_free} (omega arith)
      ∙ ap (λ o. elim o [ none ↦ none | some o ↦ o ])
          (get_elem?-set_self p.free p.n_free (some i) below)
