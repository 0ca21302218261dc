-- ===== src/Common/Pool/Valid.antt =====
-- When the pool and the pointers handed out fit together, and that every operation keeps it so.
use native.Mathlib.Decide.{dec_le}
use fastbook.Prelude.{
  ℕ, suc, ◌+◌, ◌-◌, ◌≤◌, ◌<◌, ◌≡◌, ◌≢◌, inl, inr, sym, ap, subst, arith, ◌∙◌, List, [], ◌∷◌, map,
  Option, none, some, Option-cases, length, length-replicate, take, take-all,
}
use fastbook.Common.Pool.{ObjectPool, hand_out, pointer_at, new, get}
use fastbook.Common.Pool.Count.{
  count, is_at, count-take_top, count-hand_out, is-at_self, length-hand_out, hand-out_filled,
}

abbrev pub used_count : ℕ → List ℕ → ℕ
used_count i used = count i (map some used)

module _ {ℓ} {A : Type ℓ} where
  -- Each object is either free or handed out, and once only.
  pub record IsValid (p : ObjectPool A) (used : List ℕ) : Type ℓ where
    pub size : length p.free ≡ p.capacity
    pub objects : length p.storage ≡ p.capacity
    pub room : p.n_free + length used ≡ p.capacity
    pub once : (i : ℕ) → i < p.capacity → count i (take p.n_free p.free) + used_count i used ≡ 1
    pub beyond : (i : ℕ) → p.capacity ≤ i → count i (take p.n_free p.free) + used_count i used ≡ 0
    pub filled : (j : ℕ) → j < p.n_free → pointer_at p.free j ≢ none

module _ {ℓ} {A : Type ℓ} (reset : A → A) (blank : A) where
  -- The pool that the constructor makes has all its objects free.
  pub constructed-IsValid : (n : ℕ) → IsValid (new reset blank n) []
  unfolding new
  constructed-IsValid n =
      let all = take-all n (hand_out n) (omega (arith, length-hand_out n)) in
      record {
        size = length-hand_out n;
        objects = length-replicate n blank;
        room = omega arith;
        once = λ i lt. ground (arith, ap (count i) all, count-hand_out i n);
        beyond = λ i le. ground (arith, ap (count i) all, count-hand_out i n);
        filled = λ j lt. hand-out_filled n j lt;
      }

  -- What `get` does to a pool of which `used` are handed out.
  pub data Got (p : ObjectPool A) (used : List ℕ) : Option ℕ → ObjectPool A → Type ℓ where
    exhausted : length used ≡ p.capacity → Got p used none p
    got :
        (i : ℕ) (q : ObjectPool A)
        → i < p.capacity
        → used_count i used ≡ 0
        → q.n_free + 1 ≡ p.n_free
        → IsValid q (i ∷ used)
        → Got p used (some i) q

  get_some :
      (p : ObjectPool A) (used : List ℕ) (i : ℕ)
      → IsValid p used
      → 0 < p.n_free
      → pointer_at p.free (p.n_free - 1) ≡ some i
      → Got p used (some i) (record p { n_free = p.n_free - 1 })
  get_some p used i v pos e =
      let room = v.room in
      let top : (j : ℕ)
          → count j (take p.n_free p.free)
            ≡ count j (take (p.n_free - 1) p.free) + is_at j (some i) =
        λ j.
          count-take_top j p.n_free p.free pos (omega (arith, v.size))
          ∙ ap (λ o. count j (take (p.n_free - 1) p.free) + is_at j o) e in
      let self = is-at_self i in
      let inside : i < p.capacity = elim (dec_le (suc i) p.capacity) [
        | yes lt ↦ lt
        | no over ↦ absurd (omega (arith, v.beyond i (omega arith), top i, self))
      ] in
      got i (record p { n_free = p.n_free - 1 }) inside
        (omega (arith, v.once i inside, top i, self)) (omega arith)
        (record {
          size = v.size;
          objects = v.objects;
          room = omega arith;
          once = λ j lt. omega (arith, v.once j lt, top j);
          beyond = λ j le. omega (arith, v.beyond j le, top j);
          filled = λ j lt. v.filled j (omega arith);
        })

  get_empty : (p : ObjectPool A) → p.n_free ≡ 0 → get reset blank p ≡ (none, p)
  unfolding get
  get_empty p e = ground arith

  pub get_top :
      (p : ObjectPool A)
      → 0 < p.n_free
      → get reset blank p ≡ (pointer_at p.free (p.n_free - 1), record p { n_free = p.n_free - 1 })
  unfolding get
  get_top p pos = ground arith

  -- On a valid pool `get` returns null and changes nothing, with all objects handed out, or else an
  -- object of the pool that is not handed out, and the pool stays valid with it handed out too.
  pub get-Got :
      (p : ObjectPool A) (used : List ℕ)
      → IsValid p used
      → Got p used (get reset blank p).0 (get reset blank p).1
  get-Got p used v =
      let room = v.room in
      elim (dec_le 1 p.n_free) [
        | no e ↦
            let same = get_empty p (omega arith) in
            subst (λ (r : Option ℕ × ObjectPool A). Got p used r.0 r.1) (sym same)
              (exhausted (omega arith))
        | yes pos ↦ elim (Option-cases (pointer_at p.free (p.n_free - 1))) [
          | inl null ↦ absurd (v.filled (p.n_free - 1) (omega arith) null)
          | inr (i, e) ↦
              let same : get reset blank p ≡ (some i, record p { n_free = p.n_free - 1 }) =
                get_top p (omega arith)
                ∙ ap (λ (o : Option ℕ). (o, record p { n_free = p.n_free - 1 })) e in
              subst (λ (r : Option ℕ × ObjectPool A). Got p used r.0 r.1) (sym same)
                (get_some p used i v (omega arith) e)
        ]
      ]

  pub Got-IsValid :
      {p : ObjectPool A} {used : List ℕ} {i : ℕ} {q : ObjectPool A}
      → Got p used (some i) q
      → IsValid q (i ∷ used)
  Got-IsValid (got i q inside fresh below v) = v
