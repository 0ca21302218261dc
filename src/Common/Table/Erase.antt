-- ===== src/Common/Table/Erase.antt =====
-- `erase` in both modes: it ends, and the table answers as before for every other key.
use native.Mathlib.Decide.{ℕ_discrete}
use fastbook.Prelude.{
  ℕ, ◌+◌, ◌-◌, ◌^◌, ◌<◌, ◌≡◌, ◌≢◌, inl, inr, refl, sym, ap, subst, arith, ◌∙◌, List, none, some,
  true, false, ◌==◌, length, length-set, if◌then◌else◌,
}
use fastbook.Common.Table.{
  EraseMode, backward_shift, tombstone, Slot, Table, slot_at, set_empty, set_deleted, get_pos, find,
  shift_back, erase_at, erase,
}
use fastbook.Common.Table.Ring.{step, step-lt, off-lt, off-one, off_pos}
use fastbook.Common.Table.Valid.{Live, IsProbed, wrap-step}
use fastbook.Common.Table.Find.{find-key_found, find-key_absent}
use fastbook.Common.Table.Live.{count-live_free}
use fastbook.Common.Table.Store.{IsValid, Storable, find_cases}
use fastbook.Common.Table.Hole.{Hole}
use fastbook.Common.Table.Shift.{home_lt, shift-back-Shifted}
use fastbook.Common.Table.Removed.{
  Removed, cut_self, cut_other, cut_path, cut_unique, cut-Removed, without, without-IsValid,
  without-find,
}

module _ (hash : ℕ → ℕ) (word : (key : ℕ) → hash key < 2 ^ 64) where
  no_null : ¬ Storable backward_shift hash 0
  no_null s = s.0 refl

  no_mark : ¬ Storable tombstone hash 1
  no_mark s = cc s.1

  abbrev Outcome : EraseMode → Table → ℕ → ℕ → Type 0
  Outcome mode t key p =
      (u : List Slot) × (erase_at mode hash mode t p
        ≡ some (record t { slots = u; size = t.size - 1 }))
      × IsProbed mode t.capacity (get_pos mode hash t) u
      × Removed mode t.capacity t.slots u key

  mark_outcome :
      (t : Table) (p : ℕ)
      → IsValid tombstone hash t
      → p < t.capacity
      → Live tombstone t.slots p
      → Outcome tombstone t (slot_at t.slots p).key p
  unfolding erase_at
  mark_outcome t p valid inside live =
      let n = t.capacity in
      let home = get_pos tombstone hash t in
      let probed = valid.probed in
      let not_null : (slot_at (set_deleted t.slots p) p).value ≢ 0 = λ z. cc (
        ap (λ (x : Slot). x.value)
            (cut_self tombstone n home t.slots p 1 no_mark probed inside valid.shape.slots live),
        z,
      ) in
      (
        set_deleted t.slots p,
        refl,
        record {
          path = λ a b ha hb l before.
              elim (cut_path tombstone n home t.slots p 1 no_mark probed inside valid.shape.slots
                live a b ha hb l before) [
                  | inl full ↦ full
                  | inr e ↦ λ z.
                      not_null (ap (λ i. (slot_at (set_deleted t.slots p) i).value) (sym e) ∙ z)
                ];
          unique =
              cut_unique tombstone n home t.slots p 1 no_mark probed inside valid.shape.slots live;
        },
        cut-Removed tombstone n home t.slots p 1 no_mark probed inside valid.shape.slots live,
      )

  module _ (t : Table) (p : ℕ) (valid : IsValid backward_shift hash t) (inside : p < t.capacity)
      (live : Live backward_shift t.slots p) where
    abbrev n : ℕ
    n = t.capacity

    abbrev home : ℕ → ℕ
    home = get_pos backward_shift hash t

    abbrev opened : List Slot
    opened = set_empty t.slots p

    open_hole : (slot_at opened p).value ≡ 0
    open_hole =
        ap (λ (x : Slot). x.value)
          (cut_self backward_shift n home t.slots p 0 no_null valid.probed inside valid.shape.slots
            live)

    -- An empty slot of the table, another than the hole.
    start_Hole :
        (z : ℕ)
        → z < n
        → ¬ Live backward_shift t.slots z
        → Hole n home (home_lt hash word t valid.shape) opened p (step n p 1) z
    start_Hole z hz free =
        let not_p : z ≢ p = λ e. free (subst (Live backward_shift t.slots) (sym e) live) in
        let one = off-one n p z inside hz (λ e. not_p (sym e)) in
        let empty : (slot_at t.slots z).value ≡ 0 = elim (ℕ_discrete (slot_at t.slots z).value 0) [
          | yes e ↦ e
          | no ne ↦ absurd (free (ne, refl))
        ] in
        record {
          e_lt = inside;
          c_lt = step-lt n p 1 inside (omega (arith, inside));
          z_lt = hz;
          hole = open_hole;
          stop =
              ap (λ (x : Slot). x.value)
                (cut_other backward_shift n home t.slots p 0 no_null valid.probed inside
                  valid.shape.slots live z not_p)
              ∙ empty;
          apart = not_p;
          after = omega (arith, one);
          between = omega (arith, one, off_pos n p z inside hz (λ e. not_p (sym e)));
          path = λ a b ha hb full.
              cut_path backward_shift n home t.slots p 0 no_null valid.probed inside
                valid.shape.slots live a b ha hb (full, refl);
          scanned = λ a ha pos before. absurd (omega (arith, one));
          unique = λ a b ha hb fa fb.
              cut_unique backward_shift n home t.slots p 0 no_null valid.probed inside
                valid.shape.slots live a b ha hb (fa, refl) (fb, refl);
        }

    shift_outcome : t.size < n → Outcome backward_shift t (slot_at t.slots p).key p
    unfolding erase_at
    shift_outcome room =
        let (z, in_slots, free) =
          count-live_free backward_shift t.slots
            (omega (arith, room, valid.size, valid.shape.slots)) in
        let hz : z < n = omega (arith, in_slots, valid.shape.slots) in
        let size_opened : length opened ≡ n = length-set t.slots p _ ∙ valid.shape.slots in
        let next_lt = step-lt n p 1 inside (omega (arith, inside)) in
        let (u, ends, probed, same) =
          shift-back-Shifted hash word t valid.shape n p (step n p 1) z opened size_opened
            (start_Hole z hz free) (off-lt n (step n p 1) z next_lt hz) in
        let first =
          wrap-step backward_shift hash word t p 1 valid.shape inside (omega (arith, inside)) in
        let cut =
          cut-Removed backward_shift n home t.slots p 0 no_null valid.probed inside
            valid.shape.slots live in
        (
          u,
          ap
                (λ c. elim (shift_back backward_shift hash n t p c opened) [
                  | none ↦ none
                  | some slots ↦ some (record t { slots = slots; size = t.size - 1 })
                ])
                first
              ∙ ap
                  (λ o. elim o [
                    | none ↦ none
                    | some slots ↦ some (record t { slots = slots; size = t.size - 1 })
                  ])
                  ends,
          probed,
          record {
            to = λ j v ne h. same.to j v (cut.to j v ne h);
            from = λ j v h. cut.from j v (same.from j v h);
            gone = λ v h. cut.gone v (same.from _ v h);
            count = omega (arith, same.count, cut.count);
            size = same.size ∙ cut.size;
          },
        )

  -- What `erase` of a key promises.
  pub record Forgets (mode : EraseMode) (t : Table) (key : ℕ) : Type 0 where
    pub no_key : find mode hash t key ≡ 0 → erase mode hash t key ≡ some (false, t)
    pub removed :
        find mode hash t key ≢ 0
        → (t' : Table) × (erase mode hash t key ≡ some (true, t'))
          × IsValid mode hash t'
          × (t'.size + 1 ≡ t.size)
          × ((j : ℕ) → find mode hash t' j ≡ (if j == key then 0 else find mode hash t j))

  outcome :
      (mode : EraseMode) (t : Table) (p : ℕ)
      → IsValid mode hash t
      → t.size < t.capacity
      → p < t.capacity
      → Live mode t.slots p
      → Outcome mode t (slot_at t.slots p).key p
  outcome backward_shift t p valid room inside live = shift_outcome t p valid inside live room
  outcome tombstone t p valid room inside live = mark_outcome t p valid inside live

  -- On a valid table with at least one slot that is not live, in both modes, `erase` of a key that is
  -- not there changes nothing and returns false. Of a key that is there it ends within the fuel, returns
  -- true and takes one off the size; the table stays valid, answers null for this key and as before for
  -- every other one.
  pub erase-Forgets :
      (mode : EraseMode) (t : Table) (key : ℕ)
      → IsValid mode hash t
      → t.size < t.capacity
      → Forgets mode t key
  unfolding erase
  erase-Forgets mode t key valid room = elim (find_cases mode hash word t key valid) [
    | inr (zero_value, absent) ↦ record {
      no_key = λ _. rw (find-key_absent mode hash word t key valid.shape absent) (ground arith);
      removed = λ n. absurd (n zero_value);
    }
    | inl h ↦ record {
      no_key = λ z. absurd (h.live.0 (h.has_value ∙ z));
      removed = λ _.
          let inside = h.inside in
          let (u, ends, probed, r) = outcome mode t h.at valid room h.inside h.live in
          let r' = subst (Removed mode t.capacity t.slots u) h.has_key r in
          (
            without mode hash word t u key valid r' probed,
            rw
                (
                  find-key_found mode hash word t key (find mode hash t key) valid.shape
                      valid.probed h,
                  ends,
                )
                (ground arith),
            without-IsValid mode hash word t u key valid r' probed,
            omega (arith, r.count, valid.size),
            without-find mode hash word t u key valid r' probed,
          );
    }
  ]
