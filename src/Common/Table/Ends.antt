-- ===== src/Common/Table/Ends.antt =====
-- How the loop of `insert` ends.
use native.Mathlib.Decide.{dec_le}
use fastbook.Prelude.{
  ℕ, zero, suc, ◌+◌, ◌^◌, ◌<◌, ◌≡◌, ◌≢◌, ◌⊎◌, inl, inr, refl, sym, subst, arith, ◌==◌,
  if◌then◌else◌, Bool-cases, ==_iff,
}
use fastbook.Common.Table.{
  EraseMode, Table, Probe, free_slot, duplicate, exhausted, slot_at, skips, is_empty, get_pos,
  insert_from,
}
use fastbook.Common.Table.Ring.{off, step, step-lt, off-step, off-lt, off_inj}
use fastbook.Common.Table.Valid.{Full, Live, Shape, get-pos-lt}
use fastbook.Common.Table.Insert.{round_deleted, round_other, round_empty}

module _ (mode : EraseMode) (hash : ℕ → ℕ) (word : (key : ℕ) → hash key < 2 ^ 64) where
  -- A slot for a key that is not there: free, and every slot on the way to it is taken.
  pub record Fits (t : Table) (key p : ℕ) : Type 0 where
    pub inside : p < t.capacity
    pub free : ¬ Live mode t.slots p
    pub taken :
        (q : ℕ)
        → q < t.capacity
        → off t.capacity (get_pos mode hash t key) q < off t.capacity (get_pos mode hash t key) p
        → Full mode t.slots q

  abbrev pub AllLive : Table → Type 0
  AllLive t = (p : ℕ) → p < t.capacity → Live mode t.slots p

  abbrev pub Ends : Table → ℕ → Probe → Type 0
  Ends t key (free_slot p) = Fits t key p
  Ends t key duplicate = ⊥
  Ends t key (exhausted p) = Fits t key p ⊎ ((p ≡ t.capacity) × AllLive t)

  -- What the loop knows after `i` slots.
  record Seen (t : Table) (key i fd : ℕ) : Type 0 where
    taken :
        (q : ℕ)
        → q < t.capacity
        → off t.capacity (get_pos mode hash t key) q < i
        → Full mode t.slots q
    deleted :
        Fits t key fd
        ⊎ ((fd ≡ t.capacity)
            × ((q : ℕ)
                → q < t.capacity
                → off t.capacity (get_pos mode hash t key) q < i
                → Live mode t.slots q))

  choose_old : (slot fd cap : ℕ) → fd < cap → (if fd == cap then slot else fd) ≡ fd
  choose_old slot fd cap h = ground arith

  choose_slot : (slot fd cap : ℕ) → fd ≡ cap → (if fd == cap then slot else fd) ≡ slot
  choose_slot slot fd cap h = ground arith

  -- One more slot has been seen.
  seen_more :
      (t : Table) (key i q slot : ℕ)
      → Shape t
      → q < t.capacity
      → slot < t.capacity
      → off t.capacity (get_pos mode hash t key) slot ≡ i
      → off t.capacity (get_pos mode hash t key) q < i + 1
      → (q ≡ slot) ⊎ (off t.capacity (get_pos mode hash t key) q < i)
  seen_more t key i q slot sh hq hs there before =
      elim (dec_le (suc (off t.capacity (get_pos mode hash t key) q)) i) [
        | yes old ↦ inr old
        | no new_one ↦ inl (
            off_inj t.capacity (get_pos mode hash t key) q slot (get-pos-lt mode hash word t key sh)
              hq hs (omega arith))
      ]

  insert-from_stops :
      (n i fd : ℕ) (t : Table) (key : ℕ)
      → Shape t
      → ((p : ℕ) → p < t.capacity → Live mode t.slots p → (slot_at t.slots p).key ≢ key)
      → n + i ≡ t.capacity
      → Seen t key i fd
      → Ends t key (insert_from mode hash n i fd t key)
  unfolding insert_from
  insert-from_stops zero i fd t key sh new_key sum seen =
      let h = get-pos-lt mode hash word t key sh in
      elim seen.deleted [
        | inl fits ↦ inl fits
        | inr (e, live) ↦ inr (
          e,
          λ p hp. live p hp (omega (arith, off-lt t.capacity (get_pos mode hash t key) p h hp)),
        )
      ]
  insert-from_stops (suc n) i fd t key sh new_key sum seen =
      let home = get_pos mode hash t key in
      let h = get-pos-lt mode hash word t key sh in
      let slot = step t.capacity home i in
      let slot_lt = step-lt t.capacity home i h (omega arith) in
      let there = off-step t.capacity home i h (omega arith) in
      let free_here : (¬ Live mode t.slots slot) → Fits t key slot = λ free. record {
        inside = slot_lt;
        free = free;
        taken =
            λ q hq before. seen.taken q hq (subst (λ j. off t.capacity home q < j) there before);
      } in
      let chosen : (¬ Live mode t.slots slot) → Fits t key (if fd == t.capacity then slot else fd) =
        λ free. elim seen.deleted [
          | inl fits ↦
              let inside = fits.inside in
              subst (Fits t key) (sym (choose_old slot fd t.capacity (omega arith))) fits
          | inr (e, live) ↦
              subst (Fits t key) (sym (choose_slot slot fd t.capacity e)) (free_here free)
        ] in
      let taken' : Full mode t.slots slot
          → (q : ℕ) → q < t.capacity
          → off t.capacity home q < i + 1
          → Full mode t.slots q =
        λ full q hq before. elim (seen_more t key i q slot sh hq slot_lt there before) [
          | inl same ↦ subst (Full mode t.slots) (sym same) full
          | inr old ↦ seen.taken q hq old
        ] in
      elim (Bool-cases (is_empty t.slots slot)) [
        | inl stop ↦
            let zero_value = (==_iff (slot_at t.slots slot).value 0).0 stop in
            subst (Ends t key)
              (sym (round_empty mode hash word n i fd t key slot sh (omega arith) refl zero_value))
              (chosen (λ l. l.0 zero_value))
        | inr some_value ↦
            let full : Full mode t.slots slot =
              λ z. cc (some_value, (==_iff (slot_at t.slots slot).value 0).1 z) in
            elim (Bool-cases (skips mode t.slots slot)) [
              | inl skip ↦
                  subst (Ends t key)
                    (sym
                      (round_deleted mode hash word n i fd t key slot sh (omega arith) refl skip))
                    (insert-from_stops n (i + 1) (if fd == t.capacity then slot else fd) t key sh
                      new_key (omega arith)
                      (record {
                        taken = taken' full;
                        deleted = inl (chosen (λ l. cc (l.1, skip)));
                      }))
              | inr live ↦
                  let seen' : Seen t key (i + 1) fd = record {
                    taken = taken' full;
                    deleted = elim seen.deleted [
                      | inl fits ↦ inl fits
                      | inr (e, all) ↦ inr (
                        e,
                        λ q hq before. elim (seen_more t key i q slot sh hq slot_lt there before) [
                          | inl same ↦ subst (Live mode t.slots) (sym same) (full, live)
                          | inr old ↦ all q hq old
                        ],
                      )
                    ];
                  } in
                  subst (Ends t key)
                    (sym (
                      round_other mode hash word n i fd t key slot sh (omega arith) refl
                        (full, live) (new_key slot slot_lt (full, live))))
                    (insert-from_stops n (i + 1) fd t key sh new_key (omega arith) seen')
            ]
      ]

  -- For a key that is not there the loop ends at a slot for it, or sees that every slot is live.
  pub insert-from-Ends :
      (t : Table) (key : ℕ)
      → Shape t
      → ((p : ℕ) → p < t.capacity → Live mode t.slots p → (slot_at t.slots p).key ≢ key)
      → Ends t key (insert_from mode hash t.capacity 0 t.capacity t key)
  insert-from-Ends t key sh new_key =
      insert-from_stops t.capacity 0 t.capacity t key sh new_key (omega arith) (record {
        taken = λ q hq before. absurd (omega arith);
        deleted = inr (refl, λ q hq before. absurd (omega arith));
      })
