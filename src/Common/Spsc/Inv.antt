-- ===== src/Common/Spsc/Inv.antt =====
-- What holds of the ring and both threads after any steps.
use fastbook.Prelude.{
  ℕ, ◌+◌, ◌%◌, ◌^◌, ◌≤◌, ◌<◌, ◌≡◌, sym, arith, List, Option, none, some, length, length-replicate,
  get_elem?,
}
use fastbook.Prelude.Bits.{two-pow_pos}
use native.Mathlib.Nat.{zero-mod}
use fastbook.Common.Spsc.Threads.{
  System, ProducerState, idle, reserved, constructed, ConsumerState, waiting, ready, taken, start,
}

module _ {ℓ} {A : Type ℓ} where
  -- The number of the oldest value that still stands in the ring.
  abbrev pub first : ConsumerState A → ℕ → ℕ
  first (taken v) t = t + 1
  first _ t = t

  -- With a slot reserved, one more value fits before the oldest that the producer knows to be taken.
  abbrev pub ProducerOk : ProducerState A → ℕ → ℕ → ℕ → List (Option A) → Type ℓ
  ProducerOk idle n h seen buffer = Unit {ℓ}
  ProducerOk (reserved x) n h seen buffer = (h + 2 ≤ seen + n) × Unit {ℓ}
  ProducerOk (constructed x) n h seen buffer =
      (h + 2 ≤ seen + n) × (get_elem? buffer (h % n) ≡ some (some x))

  abbrev pub ConsumerOk : ConsumerState A → ℕ → ℕ → List A → Type ℓ
  ConsumerOk waiting t seen sent = Unit {ℓ}
  ConsumerOk ready t seen sent = (t < seen) × Unit {ℓ}
  ConsumerOk (taken v) t seen sent = (t < seen) × (get_elem? sent t ≡ some v)

  module _ (k : ℕ) where
    pub record Inv (s : System A) : Type ℓ where
      pub size : length s.q.buffer ≡ 2 ^ k
      pub head : s.q.head ≡ length s.sent % 2 ^ k
      pub tail : s.q.tail ≡ length s.received % 2 ^ k
      pub cached_tail : s.q.cached_tail ≡ s.p_seen % 2 ^ k
      pub p_seen_le : s.p_seen ≤ length s.received
      pub p_room : length s.sent + 1 ≤ s.p_seen + 2 ^ k
      pub cached_head : s.q.cached_head ≡ s.c_seen % 2 ^ k
      pub c_seen_le : s.c_seen ≤ length s.sent
      pub c_behind : length s.received ≤ s.c_seen
      pub objects :
          (i : ℕ)
          → first s.consumer (length s.received) ≤ i
          → i < length s.sent
          → get_elem? s.q.buffer (i % 2 ^ k) ≡ some (get_elem? s.sent i)
      pub prefix : (i : ℕ) → i < length s.received → get_elem? s.received i ≡ get_elem? s.sent i
      pub producer_ok : ProducerOk s.producer (2 ^ k) (length s.sent) s.p_seen s.q.buffer
      pub consumer_ok : ConsumerOk s.consumer (length s.received) s.c_seen s.sent

    pub start-Inv : Inv (start k)
    start-Inv =
        let p = two-pow_pos k in
        record {
          size = length-replicate (2 ^ k) none;
          head = sym (zero-mod (2 ^ k));
          tail = sym (zero-mod (2 ^ k));
          cached_tail = sym (zero-mod (2 ^ k));
          p_seen_le = omega arith;
          p_room = omega arith;
          cached_head = sym (zero-mod (2 ^ k));
          c_seen_le = omega arith;
          c_behind = omega arith;
          objects = λ i a b. absurd (omega arith);
          prefix = λ i a. absurd (omega arith);
          producer_ok = tt;
          consumer_ok = tt;
        }
