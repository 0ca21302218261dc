-- ===== src/Common/Table/Map.antt =====
-- The table as a map: what `insert` does to `find` for every key.
use fastbook.Prelude.{
  ℕ, ◌^◌, ◌<◌, ◌+◌, ◌≤◌, ◌≡◌, ◌≢◌, inl, inr, refl, sym, ap, subst, arith, ◌∙◌, Bool, true, false,
  ◌==◌, if◌then◌else◌,
}
use fastbook.Common.Table.{
  EraseMode, Table, Probe, free_slot, duplicate, exhausted, slot_at, insert_from, insert, write,
  find,
}
use fastbook.Common.Table.Valid.{Live, Holds}
use fastbook.Common.Table.Ends.{Fits, Ends, insert-from-Ends}
use fastbook.Common.Table.Insert.{insert-from_found}
use fastbook.Common.Table.Live.{count-live_free}
use fastbook.Common.Table.Live.{count-live_lt}
use fastbook.Common.Table.Store.{IsValid, Storable, find_cases, written-IsValid, written-find}

module _ (mode : EraseMode) (hash : ℕ → ℕ) (word : (key : ℕ) → hash key < 2 ^ 64) where
  -- What `insert` of a key and a storable pointer promises.
  pub record Inserted (t : Table) (key v : ℕ) : Type 0 where
    -- A key that is there keeps its pointer.
    pub old_key : find mode hash t key ≢ 0 → insert mode hash t key v ≡ (false, t)
    pub no_room :
        find mode hash t key ≡ 0 → t.size ≡ t.capacity → insert mode hash t key v ≡ (false, t)
    pub added :
        find mode hash t key ≡ 0
        → t.size < t.capacity
        → ((insert mode hash t key v).0 ≡ true)
          × IsValid mode hash (insert mode hash t key v).1
          × ((j : ℕ)
              → find mode hash (insert mode hash t key v).1 j
                ≡ (if j == key then v else find mode hash t j))

  insert_old :
      (t : Table) (key v : ℕ)
      → IsValid mode hash t
      → Holds mode t.capacity t.slots key (find mode hash t key)
      → insert mode hash t key v ≡ (false, t)
  unfolding insert
  insert_old t key v valid h =
      let stop =
        insert-from_found mode hash word t.capacity 0 t.capacity t key h.at valid.shape valid.probed
          h.inside h.live h.has_key (omega arith) (omega arith) in
      ap
        (λ p. elim p [
          | free_slot i ↦ (true, write mode hash t i key v)
          | duplicate ↦ (false, t)
          | exhausted i ↦ if i == t.capacity then (false, t) else (true, write mode hash t i key v)
        ])
        stop

  abbrev settle : Table → ℕ → ℕ → Probe → Bool × Table
  settle t key v (free_slot i) = (true, write mode hash t i key v)
  settle t key v duplicate = (false, t)
  settle t key v (exhausted i) =
      if i == t.capacity then (false, t) else (true, write mode hash t i key v)

  abbrev Added : Table → ℕ → ℕ → Bool × Table → Type 0
  Added t key v r =
      (r.0 ≡ true)
      × IsValid mode hash r.1
      × ((j : ℕ) → find mode hash r.1 j ≡ (if j == key then v else find mode hash t j))

  write-Added :
      (t : Table) (key v p : ℕ)
      → IsValid mode hash t
      → Storable mode hash v
      → ((q : ℕ) → q < t.capacity → Live mode t.slots q → (slot_at t.slots q).key ≢ key)
      → Fits mode hash word t key p
      → Added t key v (true, write mode hash t p key v)
  write-Added t key v p valid storable absent fits = (
    refl,
    written-IsValid mode hash word t key v p valid storable absent fits,
    written-find mode hash word t key v p valid storable absent fits,
  )

  settle-Added :
      (t : Table) (key v : ℕ)
      → IsValid mode hash t
      → Storable mode hash v
      → ((q : ℕ) → q < t.capacity → Live mode t.slots q → (slot_at t.slots q).key ≢ key)
      → t.size < t.capacity
      → (p : Probe) → Ends mode hash word t key p
      → Added t key v (settle t key v p)
  settle-Added t key v valid storable absent room (free_slot p) fits =
      write-Added t key v p valid storable absent fits
  settle-Added t key v valid storable absent room duplicate e = absurd e
  settle-Added t key v valid storable absent room (exhausted p) (inl fits) =
      let inside = fits.inside in
      let test : settle t key v (exhausted p) ≡ (true, write mode hash t p key v) = ground arith in
      subst (Added t key v) (sym test) (write-Added t key v p valid storable absent fits)
  settle-Added t key v valid storable absent room (exhausted p) (inr (e, all)) =
      let (q, inside, free) =
        count-live_free mode t.slots (omega (arith, valid.size, valid.shape.slots)) in
      absurd (free (all q (omega (arith, valid.shape.slots))))

  full_not-Fits :
      (t : Table) (key p : ℕ)
      → IsValid mode hash t
      → t.size ≡ t.capacity
      → ¬ Fits mode hash word t key p
  full_not-Fits t key p valid full fits =
      let free = fits.free in
      omega (
        arith,
        valid.size,
        valid.shape.slots,
        count-live_lt mode t.slots p (omega (arith, fits.inside, valid.shape.slots)) free,
      )

  settle_full :
      (t : Table) (key v : ℕ)
      → IsValid mode hash t
      → t.size ≡ t.capacity
      → (p : Probe) → Ends mode hash word t key p
      → settle t key v p ≡ (false, t)
  settle_full t key v valid full (free_slot p) fits = absurd (full_not-Fits t key p valid full fits)
  settle_full t key v valid full duplicate e = refl
  settle_full t key v valid full (exhausted p) (inl fits) =
      absurd (full_not-Fits t key p valid full fits)
  settle_full t key v valid full (exhausted p) (inr (e, all)) = ground arith

  insert-settle :
      (t : Table) (key v : ℕ)
      → insert mode hash t key v
        ≡ settle t key v (insert_from mode hash t.capacity 0 t.capacity t key)
  unfolding insert
  insert-settle t key v = go (insert_from mode hash t.capacity 0 t.capacity t key)
    where
      go :
          (p : Probe)
          → elim p [
            | free_slot i ↦ (true, write mode hash t i key v)
            | duplicate ↦ (false, t)
            | exhausted i ↦
                if i == t.capacity then (false, t) else (true, write mode hash t i key v)
          ]
            ≡ settle t key v p
      go (free_slot i) = refl
      go duplicate = refl
      go (exhausted i) = refl

  settle-size :
      (t : Table) (key v : ℕ) (p : Probe)
      → ((settle t key v p).1.capacity ≡ t.capacity) × ((settle t key v p).1.size ≤ t.size + 1)
  settle-size t key v (free_slot i) = (refl, omega arith)
  settle-size t key v duplicate = (refl, omega arith)
  settle-size t key v (exhausted i) = ground arith

  pub insert-size :
      (t : Table) (key v : ℕ)
      → ((insert mode hash t key v).1.capacity ≡ t.capacity)
        × ((insert mode hash t key v).1.size ≤ t.size + 1)
  insert-size t key v =
      subst (λ (r : Bool × Table). (r.1.capacity ≡ t.capacity) × (r.1.size ≤ t.size + 1))
        (sym (insert-settle t key v))
        (settle-size t key v (insert_from mode hash t.capacity 0 t.capacity t key))

  settle-true :
      (t : Table) (key v : ℕ) (p : Probe)
      → (settle t key v p).0 ≡ true
      → (settle t key v p).1.size ≡ t.size + 1
  settle-true t key v (free_slot i) e = refl
  settle-true t key v duplicate e = absurd (cc e)
  settle-true t key v (exhausted i) e = ground arith

  pub insert-size_true :
      (t : Table) (key v : ℕ)
      → (insert mode hash t key v).0 ≡ true
      → (insert mode hash t key v).1.size ≡ t.size + 1
  insert-size_true t key v =
      subst (λ (r : Bool × Table). r.0 ≡ true → r.1.size ≡ t.size + 1) (sym (insert-settle t key v))
        (settle-true t key v (insert_from mode hash t.capacity 0 t.capacity t key))

  -- On a valid table, with a pointer that is neither null nor, in the mode that leaves them, the mark of a
  -- deleted slot, `insert` of a key that is there changes nothing and returns false; so does it on a table
  -- all of whose slots are live. Else it returns true, and the table stays valid and answers as before for
  -- every other key and the pointer for this one.
  pub insert-Inserted :
      (t : Table) (key v : ℕ) → IsValid mode hash t → Storable mode hash v → Inserted t key v
  insert-Inserted t key v valid storable = elim (find_cases mode hash word t key valid) [
    | inl h ↦
        let some_value : find mode hash t key ≢ 0 = λ z. h.live.0 (h.has_value ∙ z) in
        record {
          old_key = λ _. insert_old t key v valid h;
          no_room = λ z _. absurd (some_value z);
          added = λ z _. absurd (some_value z);
        }
    | inr (zero_value, absent) ↦
        let ends = insert-from-Ends mode hash word t key valid.shape absent in
        let same = insert-settle t key v in
        record {
          old_key = λ n. absurd (n zero_value);
          no_room = λ _ full. same ∙ settle_full t key v valid full _ ends;
          added = λ _ room.
              subst (Added t key v) (sym same)
                (settle-Added t key v valid storable absent room _ ends);
        }
  ]
