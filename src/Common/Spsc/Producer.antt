-- ===== src/Common/Spsc/Producer.antt =====
-- The producer's steps keep what holds of the ring: `try_reserve`, the construction and `commit`.
use native.Mathlib.Nat.{mod-lt}
use native.Mathlib.Decide.{dec_le}
use fastbook.Prelude.{
  ℕ, suc, ◌+◌, ◌%◌, ◌^◌, ◌≤◌, ◌<◌, ◌≡◌, ◌≢◌, refl, sym, ap, subst, arith, ◌∙◌, List, [], ◌∷◌, ◌++◌,
  some, inl, inr, Bool, true, false, ◌==◌, length, length-set, length-append, get_elem?, set,
  get_elem?-set_self, get_elem?-set_ne, get_elem?-append_left, get_elem?-append_end, ==_iff,
  Bool-cases,
}
use fastbook.Prelude.Bits.{two-pow_pos}
use fastbook.Common.Spsc.{wrap, full_at, construct, commit}
use fastbook.Common.Spsc.Threads.{
  System, idle, reserved, constructed, ConsumerState, waiting, ready, taken, reserve,
}
use fastbook.Common.Spsc.Window.{wrap-mod, suc-mod_step, mod_apart, room_of_ne}
use fastbook.Common.Spsc.Inv.{first, ProducerOk, ConsumerOk, Inv}

module _ {ℓ} {A : Type ℓ} (k : ℕ) where
  first_ge : (c : ConsumerState A) (t : ℕ) → t ≤ first c t
  first_ge waiting t = omega arith
  first_ge ready t = omega arith
  first_ge (taken v) t = omega arith

  pub constructs-Inv :
      (s : System A) (x : A)
      → s.producer ≡ reserved x
      → Inv k s
      → Inv k (record s { q = construct k s.q.head x s.q; producer = constructed x })
  constructs-Inv s x e inv =
      let p = two-pow_pos k in
      let room =
        (subst (λ r. ProducerOk r (2 ^ k) (length s.sent) s.p_seen s.q.buffer) e
          inv.producer_ok).0 in
      let below : s.q.head < length s.q.buffer =
        grind (arith, inv.head, inv.size, mod-lt (length s.sent) p) in
      record {
        head = inv.head;
        tail = inv.tail;
        cached_tail = inv.cached_tail;
        p_seen_le = inv.p_seen_le;
        p_room = inv.p_room;
        cached_head = inv.cached_head;
        c_seen_le = inv.c_seen_le;
        c_behind = inv.c_behind;
        prefix = inv.prefix;
        consumer_ok = inv.consumer_ok;
        size = length-set s.q.buffer s.q.head (some x) ∙ inv.size;
        objects = λ i a b.
            get_elem?-set_ne s.q.buffer (some x) (λ h.
              mod_apart i (length s.sent) (2 ^ k) b
                (omega (arith, room, a, inv.p_seen_le, first_ge s.consumer (length s.received)))
                (sym h ∙ inv.head))
            ∙ inv.objects i a b;
        producer_ok = (
          room,
          subst (λ h. get_elem? (set s.q.buffer s.q.head (some x)) h ≡ some (some x)) inv.head
              (get_elem?-set_self s.q.buffer s.q.head (some x) below),
        );
      }

  sent-ConsumerOk :
      (c : ConsumerState A) (t seen : ℕ) (sent : List A) (x : A)
      → seen ≤ length sent
      → ConsumerOk c t seen sent
      → ConsumerOk c t seen (sent ++ (x ∷ []))
  sent-ConsumerOk waiting t seen sent x le ok = tt
  sent-ConsumerOk ready t seen sent x le ok = ok
  sent-ConsumerOk (taken v) t seen sent x le ok =
      (ok.0, get_elem?-append_left sent (x ∷ []) t (omega (arith, ok.0, le)) ∙ ok.1)

  pub commits-Inv :
      (s : System A) (x : A)
      → s.producer ≡ constructed x
      → Inv k s
      → Inv k (record s { q = commit k s.q; producer = idle; sent = s.sent ++ (x ∷ []) })
  unfolding commit
  commits-Inv s x e inv =
      let p = two-pow_pos k in
      let ok =
        subst (λ r. ProducerOk r (2 ^ k) (length s.sent) s.p_seen s.q.buffer) e inv.producer_ok in
      let room = ok.0 in
      let more : length (s.sent ++ (x ∷ [])) ≡ length s.sent + 1 = length-append s.sent (x ∷ []) in
      record {
        size = inv.size;
        tail = inv.tail;
        cached_tail = inv.cached_tail;
        p_seen_le = inv.p_seen_le;
        cached_head = inv.cached_head;
        c_behind = inv.c_behind;
        head =
            wrap-mod k (s.q.head + 1)
            ∙ ap (λ h. (h + 1) % 2 ^ k) inv.head
            ∙ suc-mod_step (length s.sent) (2 ^ k)
            ∙ ap (λ h. h % 2 ^ k) (sym more);
        p_room = omega (arith, room, more);
        c_seen_le = omega (arith, inv.c_seen_le, more);
        objects = λ i a b. elim (dec_le (suc i) (length s.sent)) [
          | yes below ↦
              inv.objects i a below ∙ ap some (sym (get_elem?-append_left s.sent (x ∷ []) i below))
          | no over ↦
              let last : i ≡ length s.sent = omega (arith, more) in
              ap (λ h. get_elem? s.q.buffer (h % 2 ^ k)) last
              ∙ ok.1
              ∙ ap some (sym (get_elem?-append_end s.sent x i last))
        ];
        prefix = λ i a.
            inv.prefix i a
            ∙ sym (
                get_elem?-append_left s.sent (x ∷ []) i
                  (omega (arith, inv.c_behind, inv.c_seen_le, a)));
        producer_ok = tt;
        consumer_ok =
            sent-ConsumerOk s.consumer (length s.received) s.c_seen s.sent x inv.c_seen_le
              inv.consumer_ok;
      }

  -- `reserve` by its two tests: the cached index looks full, and the loaded one does too.
  abbrev reserve_by : Bool → Bool → System A → ℕ → A → System A
  reserve_by false looks_full s j x = record s { producer = reserved x }
  reserve_by true true s j x = record s { producer = idle }
  reserve_by true false s j x = record s {
    q = record s.q { cached_tail = wrap k j };
    producer = reserved x;
    p_seen = j;
  }

  reserve-by_tests :
      (s : System A) (j : ℕ) (x : A)
      → reserve k s j x
        ≡ reserve_by
            (wrap k (s.q.head + 1) == s.q.cached_tail)
            (wrap k j == wrap k (s.q.head + 1))
            s
            j
            x
  unfolding full_at
  reserve-by_tests s j x = elim (Bool-cases (wrap k (s.q.head + 1) == s.q.cached_tail)) [
    | inl e ↦ elim (Bool-cases (wrap k j == wrap k (s.q.head + 1))) [
      | inl e' ↦ simp (e, e')
      | inr e' ↦ simp (e, e')
    ]
    | inr e ↦ simp (e)
  ]

  pub room_left :
      (s : System A) (seen : ℕ)
      → Inv k s
      → length s.sent + 1 ≤ seen + 2 ^ k
      → wrap k (s.q.head + 1) ≢ seen % 2 ^ k
      → length s.sent + 2 ≤ seen + 2 ^ k
  room_left s seen inv le ne =
      room_of_ne (length s.sent) seen (2 ^ k) le
        (λ e. ne (wrap-mod k (s.q.head + 1) ∙ ap (λ h. (h + 1) % 2 ^ k) inv.head ∙ e))

  reserve_by-Inv :
      (s : System A) (j : ℕ) (x : A) (cached_full loaded_full : Bool)
      → s.p_seen ≤ j
      → j ≤ length s.received
      → Inv k s
      → (wrap k (s.q.head + 1) == s.q.cached_tail) ≡ cached_full
      → (wrap k j == wrap k (s.q.head + 1)) ≡ loaded_full
      → Inv k (reserve_by cached_full loaded_full s j x)
  reserve_by-Inv s j x false loaded_full le le' inv e e' = record {
    size = inv.size;
    head = inv.head;
    tail = inv.tail;
    cached_tail = inv.cached_tail;
    p_seen_le = inv.p_seen_le;
    p_room = inv.p_room;
    cached_head = inv.cached_head;
    c_seen_le = inv.c_seen_le;
    c_behind = inv.c_behind;
    objects = inv.objects;
    prefix = inv.prefix;
    consumer_ok = inv.consumer_ok;
    producer_ok = (
      room_left s s.p_seen inv inv.p_room (λ h.
          cc (e, (==_iff (wrap k (s.q.head + 1)) s.q.cached_tail).1 (h ∙ sym inv.cached_tail))),
      tt,
    );
  }
  reserve_by-Inv s j x true true le le' inv e e' = record {
    size = inv.size;
    head = inv.head;
    tail = inv.tail;
    cached_tail = inv.cached_tail;
    p_seen_le = inv.p_seen_le;
    p_room = inv.p_room;
    cached_head = inv.cached_head;
    c_seen_le = inv.c_seen_le;
    c_behind = inv.c_behind;
    objects = inv.objects;
    prefix = inv.prefix;
    consumer_ok = inv.consumer_ok;
    producer_ok = tt;
  }
  reserve_by-Inv s j x true false le le' inv e e' = record {
    size = inv.size;
    head = inv.head;
    tail = inv.tail;
    cached_head = inv.cached_head;
    c_seen_le = inv.c_seen_le;
    c_behind = inv.c_behind;
    objects = inv.objects;
    prefix = inv.prefix;
    consumer_ok = inv.consumer_ok;
    cached_tail = wrap-mod k j;
    p_seen_le = le';
    p_room = omega (arith, inv.p_room);
    producer_ok = (
      room_left s j inv (omega (arith, inv.p_room))
          (λ h. cc (e', (==_iff (wrap k j) (wrap k (s.q.head + 1))).1 (wrap-mod k j ∙ sym h))),
      tt,
    );
  }

  pub reserves-Inv :
      (s : System A) (j : ℕ) (x : A)
      → s.p_seen ≤ j
      → j ≤ length s.received
      → Inv k s
      → Inv k (reserve k s j x)
  reserves-Inv s j x le le' inv =
      subst (Inv k) (sym (reserve-by_tests s j x)) (reserve_by-Inv s j x _ _ le le' inv refl refl)
