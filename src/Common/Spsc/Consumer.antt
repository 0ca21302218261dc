-- ===== src/Common/Spsc/Consumer.antt =====
-- The consumer's steps keep what holds of the ring: the test of `pop`, its move out of the slot and
-- the store of the new tail.
use native.Mathlib.Decide.{dec_le}
use fastbook.Prelude.{
  ℕ, suc, ◌+◌, ◌%◌, ◌^◌, ◌≤◌, ◌<◌, ◌≡◌, ◌≢◌, refl, sym, ap, subst, arith, ◌∙◌, List, [], ◌∷◌, ◌++◌,
  Option, none, some, inl, inr, Bool, true, false, ◌==◌, length, length-set, length-append,
  get_elem?, set, get_elem?-set_ne, get_elem?-append_left, get_elem?-append_end, ==_iff, Bool-cases,
}
use fastbook.Common.Spsc.{wrap, slot, empty_at, take_object, release}
use fastbook.Common.Spsc.Threads.{
  System, ProducerState, idle, reserved, constructed, waiting, ready, taken, check,
}
use fastbook.Common.Spsc.Window.{wrap-mod, suc-mod_step, mod_apart}
use fastbook.Common.Spsc.Inv.{first, ProducerOk, ConsumerOk, Inv}

left_of_ne : (t c n : ℕ) → t ≤ c → t % n ≢ c % n → t < c
left_of_ne t c n le ne = elim (dec_le (suc t) c) [
  | yes p ↦ p
  | no q ↦ absurd (ne (ap (λ i. i % n) (omega arith)))
]

module _ {ℓ} {A : Type ℓ} (k : ℕ) where
  -- `check` by its two tests: the cached index looks empty, and the loaded one does too.
  abbrev check_by : Bool → Bool → System A → ℕ → System A
  check_by false looks_empty s j = record s { consumer = ready }
  check_by true true s j = record s { consumer = waiting }
  check_by true false s j = record s {
    q = record s.q { cached_head = wrap k j };
    consumer = ready;
    c_seen = j;
  }

  check-by_tests :
      (s : System A) (j : ℕ)
      → check k s j ≡ check_by (s.q.tail == s.q.cached_head) (wrap k j == s.q.tail) s j
  unfolding empty_at
  check-by_tests s j = elim (Bool-cases (s.q.tail == s.q.cached_head)) [
    | inl e ↦ elim (Bool-cases (wrap k j == s.q.tail)) [
      | inl e' ↦ simp (e, e')
      | inr e' ↦ simp (e, e')
    ]
    | inr e ↦ simp (e)
  ]

  check_by-Inv :
      (s : System A) (j : ℕ) (cached_empty loaded_empty : Bool)
      → s.consumer ≡ waiting
      → s.c_seen ≤ j
      → j ≤ length s.sent
      → Inv k s
      → (s.q.tail == s.q.cached_head) ≡ cached_empty
      → (wrap k j == s.q.tail) ≡ loaded_empty
      → Inv k (check_by cached_empty loaded_empty s j)
  check_by-Inv s j false loaded_empty w le le' inv e e' = record {
    size = inv.size;
    head = inv.head;
    tail = inv.tail;
    cached_tail = inv.cached_tail;
    p_seen_le = inv.p_seen_le;
    p_room = inv.p_room;
    cached_head = inv.cached_head;
    c_seen_le = inv.c_seen_le;
    c_behind = inv.c_behind;
    prefix = inv.prefix;
    producer_ok = inv.producer_ok;
    objects = λ i a b. inv.objects i (subst (λ c. first c (length s.received) ≤ i) (sym w) a) b;
    consumer_ok = (
      omega (
        arith,
        left_of_ne (length s.received) s.c_seen (2 ^ k) inv.c_behind
            (λ h. cc (e, (==_iff s.q.tail s.q.cached_head).1 (inv.tail ∙ h ∙ sym inv.cached_head))),
      ),
      tt,
    );
  }
  check_by-Inv s j true true w le le' inv e e' = record {
    size = inv.size;
    head = inv.head;
    tail = inv.tail;
    cached_tail = inv.cached_tail;
    p_seen_le = inv.p_seen_le;
    p_room = inv.p_room;
    cached_head = inv.cached_head;
    c_seen_le = inv.c_seen_le;
    c_behind = inv.c_behind;
    prefix = inv.prefix;
    producer_ok = inv.producer_ok;
    objects = λ i a b. inv.objects i (subst (λ c. first c (length s.received) ≤ i) (sym w) a) b;
    consumer_ok = tt;
  }
  check_by-Inv s j true false w le le' inv e e' = record {
    size = inv.size;
    head = inv.head;
    tail = inv.tail;
    cached_tail = inv.cached_tail;
    p_seen_le = inv.p_seen_le;
    p_room = inv.p_room;
    prefix = inv.prefix;
    producer_ok = inv.producer_ok;
    cached_head = wrap-mod k j;
    c_seen_le = le';
    c_behind = omega (arith, inv.c_behind);
    objects = λ i a b. inv.objects i (subst (λ c. first c (length s.received) ≤ i) (sym w) a) b;
    consumer_ok = (
      omega (
        arith,
        left_of_ne (length s.received) j (2 ^ k) (omega (arith, inv.c_behind))
            (λ h. cc (e', (==_iff (wrap k j) s.q.tail).1 (wrap-mod k j ∙ sym h ∙ sym inv.tail))),
      ),
      tt,
    );
  }

  pub checks-Inv :
      (s : System A) (j : ℕ)
      → s.consumer ≡ waiting
      → s.c_seen ≤ j
      → j ≤ length s.sent
      → Inv k s
      → Inv k (check k s j)
  checks-Inv s j w le le' inv =
      subst (Inv k) (sym (check-by_tests s j)) (check_by-Inv s j _ _ w le le' inv refl refl)

  -- The object that stands in the slot at the tail is the oldest one not yet received.
  pub ready-object :
      (s : System A)
      → s.consumer ≡ ready
      → Inv k s
      → slot s.q.buffer s.q.tail ≡ get_elem? s.sent (length s.received)
  ready-object s r inv =
      let left =
        (subst (λ c. ConsumerOk c (length s.received) s.c_seen s.sent) r inv.consumer_ok).0 in
      ap (λ o. elim o [ none ↦ none | some o ↦ o ])
        (ap (get_elem? s.q.buffer) inv.tail
          ∙ inv.objects (length s.received)
              (subst (λ c. first c (length s.received) ≤ length s.received) (sym r) (omega arith))
              (omega (arith, left, inv.c_seen_le)))

  taken-ProducerOk :
      (p : ProducerState A) (n h seen t : ℕ) (buffer : List (Option A))
      → t < h
      → h < t + n
      → ProducerOk p n h seen buffer
      → ProducerOk p n h seen (set buffer (t % n) none)
  taken-ProducerOk idle n h seen t buffer lt lt' ok = tt
  taken-ProducerOk (reserved x) n h seen t buffer lt lt' ok = ok
  taken-ProducerOk (constructed x) n h seen t buffer lt lt' ok =
      (ok.0, get_elem?-set_ne buffer none (mod_apart t h n lt lt') ∙ ok.1)

  pub takes-Inv :
      (s : System A) (v : A)
      → s.consumer ≡ ready
      → (take_object k s.q).0 ≡ some v
      → Inv k s
      → Inv k (record s { q = (take_object k s.q).1; consumer = taken v })
  takes-Inv s v r e inv =
      let left =
        (subst (λ c. ConsumerOk c (length s.received) s.c_seen s.sent) r inv.consumer_ok).0 in
      record {
        head = inv.head;
        tail = inv.tail;
        cached_tail = inv.cached_tail;
        p_seen_le = inv.p_seen_le;
        p_room = inv.p_room;
        cached_head = inv.cached_head;
        c_seen_le = inv.c_seen_le;
        c_behind = inv.c_behind;
        prefix = inv.prefix;
        size = length-set s.q.buffer s.q.tail none ∙ inv.size;
        objects = λ i a b.
            get_elem?-set_ne s.q.buffer none (λ h.
              mod_apart (length s.received) i (2 ^ k) (omega (arith, a))
                (omega (arith, b, inv.p_room, inv.p_seen_le)) (sym inv.tail ∙ h))
            ∙ inv.objects i
                (subst (λ c. first c (length s.received) ≤ i) (sym r) (omega (arith, a))) b;
        producer_ok =
            subst
              (λ t. ProducerOk s.producer (2 ^ k) (length s.sent) s.p_seen (set s.q.buffer t none))
              (sym inv.tail)
              (taken-ProducerOk s.producer (2 ^ k) (length s.sent) s.p_seen (length s.received)
                s.q.buffer (omega (arith, left, inv.c_seen_le))
                (omega (arith, inv.p_room, inv.p_seen_le)) inv.producer_ok);
        consumer_ok = (left, sym (ready-object s r inv) ∙ e);
      }

  pub releases-Inv :
      (s : System A) (v : A)
      → s.consumer ≡ taken v
      → Inv k s
      → Inv k
          (record s { q = release k s.q; consumer = waiting; received = s.received ++ (v ∷ []) })
  unfolding release
  releases-Inv s v e inv =
      let ok = subst (λ c. ConsumerOk c (length s.received) s.c_seen s.sent) e inv.consumer_ok in
      let more : length (s.received ++ (v ∷ [])) ≡ length s.received + 1 =
        length-append s.received (v ∷ []) in
      record {
        size = inv.size;
        head = inv.head;
        cached_tail = inv.cached_tail;
        p_room = inv.p_room;
        cached_head = inv.cached_head;
        c_seen_le = inv.c_seen_le;
        producer_ok = inv.producer_ok;
        tail =
            wrap-mod k (s.q.tail + 1)
            ∙ ap (λ h. (h + 1) % 2 ^ k) inv.tail
            ∙ suc-mod_step (length s.received) (2 ^ k)
            ∙ ap (λ h. h % 2 ^ k) (sym more);
        p_seen_le = omega (arith, inv.p_seen_le, more);
        c_behind = omega (arith, ok.0, more);
        objects = λ i a b.
            inv.objects i
              (subst (λ c. first c (length s.received) ≤ i) (sym e) (omega (arith, a, more))) b;
        prefix = λ i a. elim (dec_le (suc i) (length s.received)) [
          | yes below ↦ get_elem?-append_left s.received (v ∷ []) i below ∙ inv.prefix i below
          | no over ↦
              let last : i ≡ length s.received = omega (arith, more) in
              get_elem?-append_end s.received v i last ∙ sym ok.1 ∙ ap (get_elem? s.sent) (sym last)
        ];
        consumer_ok = tt;
      }
