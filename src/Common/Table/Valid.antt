-- ===== src/Common/Table/Valid.antt =====
-- When the slots hold a map: each key at one live slot, and no empty slot on the way to it.
use native.Mathlib.Nat.{div-lt_iff_lt-mul, mul_comm}
use Prim.Native.Nat.{bit_and}
use fastbook.Prelude.{
  ℕ, ◌+◌, ◌-◌, ◌*◌, ◌%◌, ◌^◌, ◌≤◌, ◌<◌, ◌≡◌, ◌≢◌, sym, ap, ap₂, subst, arith, ◌∙◌, List, none, some,
  false, ◌==◌, length, set, get_elem?-set_self, get_elem?-set_ne, if◌then◌else◌,
}
use fastbook.Prelude.Bits.{two-pow_pos}
use fastbook.Common.Table.{EraseMode, Slot, Table, slot_at, skips, get_pos, wrap}
use fastbook.Common.Table.Ring.{off, step, mask-add_step, mask-sub_off, two-pow_split}

pub slot-at_set_self :
    (slots : List Slot) (p : ℕ) (s : Slot) → p < length slots → slot_at (set slots p s) p ≡ s
slot-at_set_self slots p s h =
    ap (λ o. elim o [ none ↦ record { key = 0; value = 0 } | some s ↦ s ])
      (get_elem?-set_self slots p s h)

pub slot-at_set_ne :
    (slots : List Slot) (p q : ℕ) (s : Slot) → p ≢ q → slot_at (set slots p s) q ≡ slot_at slots q
slot-at_set_ne slots p q s h =
    ap (λ o. elim o [ none ↦ record { key = 0; value = 0 } | some s ↦ s ])
      (get_elem?-set_ne slots s h)

pub slot-at_set :
    (slots : List Slot) (p q : ℕ) (s : Slot)
    → p < length slots
    → slot_at (set slots p s) q ≡ (if q == p then s else slot_at slots q)
slot-at_set slots p q s h = ground (
  arith,
  λ (e : q ≡ p). ap (slot_at (set slots p s)) e ∙ slot-at_set_self slots p s h,
  slot-at_set_ne slots p q s,
)

ne_of_off : (n a p q : ℕ) → off n a q < off n a p → p ≢ q
ne_of_off n a p q before e = absurd (ground (arith, ap (off n a) e))

module _ (mode : EraseMode) where
  abbrev pub Full : List Slot → ℕ → Type 0
  Full slots p = (slot_at slots p).value ≢ 0

  abbrev pub Live : List Slot → ℕ → Type 0
  Live slots p = ((slot_at slots p).value ≢ 0) × (skips mode slots p ≡ false)

  pub record IsProbed (n : ℕ) (home : ℕ → ℕ) (slots : List Slot) : Type 0 where
    pub path :
        (p q : ℕ)
        → p < n
        → q < n
        → Live slots p
        → off n (home (slot_at slots p).key) q < off n (home (slot_at slots p).key) p
        → Full slots q
    pub unique :
        (p q : ℕ)
        → p < n
        → q < n
        → Live slots p
        → Live slots q
        → (slot_at slots p).key ≡ (slot_at slots q).key
        → p ≡ q

  -- A slot at which no search for the key stops.
  abbrev pub Passes : List Slot → ℕ → ℕ → Type 0
  Passes slots key q = Full slots q × (Live slots q → (slot_at slots q).key ≢ key)

  pub path-Passes :
      (n : ℕ) (home : ℕ → ℕ) (slots : List Slot) (p q key : ℕ)
      → IsProbed n home slots
      → p < n
      → q < n
      → Live slots p
      → (slot_at slots p).key ≡ key
      → off n (home key) q < off n (home key) p
      → Passes slots key q
  path-Passes n home slots p q key v hp hq live e before = (
    v.path p q hp hq live (subst (λ k. off n (home k) q < off n (home k) p) (sym e) before),
    λ other e'. ne_of_off n (home key) p q before (v.unique p q hp hq live other (e ∙ sym e')),
  )

  -- The slots hold the pointer `v`, not null, under the key.
  pub record Holds (n : ℕ) (slots : List Slot) (key v : ℕ) : Type 0 where
    pub at : ℕ
    pub inside : at < n
    pub live : Live slots at
    pub has_key : (slot_at slots at).key ≡ key
    pub has_value : (slot_at slots at).value ≡ v

-- The fields that the constructor sets, for `2 ^ k` slots.
pub record Shape (t : Table) : Type 0 where
  pub bits : ℕ
  pub bits_le : bits ≤ 64
  pub capacity : t.capacity ≡ 2 ^ bits
  pub shift : t.shift ≡ 64 - bits
  pub slots : length t.slots ≡ t.capacity

module _ (mode : EraseMode) (hash : ℕ → ℕ) (word : (key : ℕ) → hash key < 2 ^ 64) where
  pub get-pos-lt : (t : Table) (key : ℕ) → Shape t → get_pos mode hash t key < t.capacity
  unfolding get_pos
  get-pos-lt t key sh =
      let split = two-pow_split sh.bits 64 sh.bits_le in
      let product : t.capacity * 2 ^ t.shift ≡ 2 ^ 64 =
        ap₂ (λ c s. c * 2 ^ s) sh.capacity sh.shift
        ∙ mul_comm (2 ^ sh.bits) (2 ^ (64 - sh.bits))
        ∙ sym split in
      let small : hash key < t.capacity * 2 ^ t.shift = omega (arith, word key, product) in
      (div-lt_iff_lt-mul (two-pow_pos t.shift)).1 small

  pub wrap-step :
      (t : Table) (a i : ℕ)
      → Shape t
      → a < t.capacity
      → i ≤ t.capacity
      → wrap mode hash t (a + i) ≡ step t.capacity a i
  unfolding wrap
  wrap-step t a i sh ha hi =
      ap (λ c. bit_and (a + i) (c - 1)) sh.capacity
      ∙ mask-add_step sh.bits a i (omega (arith, sh.capacity)) (omega (arith, sh.capacity))
      ∙ ap (λ n. step n a i) (sym sh.capacity)

  pub wrap-off :
      (t : Table) (a b : ℕ)
      → Shape t
      → a < t.capacity
      → b < t.capacity
      → wrap mode hash t ((b + 2 ^ 64 - a) % 2 ^ 64) ≡ off t.capacity a b
  unfolding wrap
  wrap-off t a b sh ha hb =
      ap (λ c. bit_and ((b + 2 ^ 64 - a) % 2 ^ 64) (c - 1)) sh.capacity
      ∙ mask-sub_off sh.bits a b sh.bits_le (omega (arith, sh.capacity))
          (omega (arith, sh.capacity))
      ∙ ap (λ n. off n a b) (sym sh.capacity)
