-- ===== src/Common/Spsc/Fifo.antt =====
-- What the ring promises over all interleavings of its two threads.
use native.Mathlib.Nat.{add-mod_right}
use native.Mathlib.Decide.{dec_le}
use fastbook.Prelude.{
  ℕ, suc, ◌+◌, ◌%◌, ◌^◌, ◌<◌, ◌≡◌, ◌≢◌, ◌↔◌, ◌⊎◌, sym, ap, subst, arith, ◌∙◌, List, ◌++◌,
  append-nil, some, inl, inr, true, length, length-append, get_elem?, append_of_get, drop, drop-all,
  get_elem?_lt,
}
use fastbook.Common.Spsc.{Queue, wrap, empty_at, full_at, take_object}
use fastbook.Common.Spsc.Threads.{
  System, reserved, constructed, ready, taken, Step, reserves, constructs, commits, checks, takes,
  releases, Reach, here, next,
}
use fastbook.Common.Spsc.Window.{wrap-mod, suc-mod_step, mod_apart}
use fastbook.Common.Spsc.Inv.{ConsumerOk, Inv, start-Inv}
use fastbook.Common.Spsc.Producer.{reserves-Inv, constructs-Inv, commits-Inv}
use fastbook.Common.Spsc.Consumer.{checks-Inv, takes-Inv, releases-Inv, ready-object}

module _ {ℓ} {A : Type ℓ} (k : ℕ) where
  full-at_iff :
      (loaded : ℕ) (q : Queue A)
      → ((full_at k q.head loaded q).0 ≡ true)
        ↔ ((wrap k (q.head + 1) ≡ q.cached_tail) × (loaded ≡ wrap k (q.head + 1)))
  unfolding full_at
  full-at_iff loaded q = ground arith

  empty-at_iff :
      (loaded : ℕ) (q : Queue A)
      → ((empty_at k q.tail loaded q).0 ≡ true) ↔ ((q.tail ≡ q.cached_head) × (loaded ≡ q.tail))
  unfolding empty_at
  empty-at_iff loaded q = ground arith

  Step-Inv : {s t : System A} → Step k s t → Inv k s → Inv k t
  Step-Inv {s} (reserves x j i le le') inv = reserves-Inv k s j x le le' inv
  Step-Inv {s} (constructs x r) inv = constructs-Inv k s x r inv
  Step-Inv {s} (commits x c) inv = commits-Inv k s x c inv
  Step-Inv {s} (checks j w le le') inv = checks-Inv k s j w le le' inv
  Step-Inv {s} (takes v r e) inv = takes-Inv k s v r e inv
  Step-Inv {s} (releases v e) inv = releases-Inv k s v e inv

  pub Reach-Inv : {s : System A} → Reach k s → Inv k s
  Reach-Inv here = start-Inv k
  Reach-Inv (next r step) = Step-Inv step (Reach-Inv r)

  -- After any steps the values received are the first of the values sent, in order, each once, and
  -- fewer than `N` are under way.
  pub Reach-in_order :
      {s : System A}
      → Reach k s
      → (rest : List A) × (s.sent ≡ s.received ++ rest) × (length rest < 2 ^ k)
  Reach-in_order {s} r =
      let inv = Reach-Inv r in
      let rest = drop (length s.received) s.sent in
      let e : s.sent ≡ s.received ++ rest = append_of_get s.received s.sent inv.prefix in
      let sum : length s.sent ≡ length s.received + length rest =
        ap length e ∙ length-append s.received rest in
      (rest, e, omega (arith, sum, inv.p_room, inv.p_seen_le))

  -- After any steps, while the producer has a slot reserved or an object in it, and the consumer has
  -- found one to read or has read it, the two stand at different slots.
  pub Reach-apart :
      {s : System A} (x : A)
      → Reach k s
      → (s.producer ≡ reserved x) ⊎ (s.producer ≡ constructed x)
      → (s.consumer ≡ ready) ⊎ ((v : A) × (s.consumer ≡ taken v))
      → s.q.head ≢ s.q.tail
  Reach-apart {s} x r p c e =
      let inv = Reach-Inv r in
      let below : length s.received < s.c_seen = elim c [
        | inl h ↦
            (subst (λ c. ConsumerOk c (length s.received) s.c_seen s.sent) h inv.consumer_ok).0
        | inr (v, h) ↦
            (subst (λ c. ConsumerOk c (length s.received) s.c_seen s.sent) h inv.consumer_ok).0
      ] in
      mod_apart (length s.received) (length s.sent) (2 ^ k) (omega (arith, below, inv.c_seen_le))
        (omega (arith, inv.p_room, inv.p_seen_le)) (sym inv.tail ∙ sym e ∙ inv.head)

  -- After any steps a consumer whose test found the ring not empty finds an object in the slot at the
  -- tail, and it is the oldest value sent and not yet received.
  pub Reach-take_object :
      {s : System A}
      → Reach k s
      → s.consumer ≡ ready
      → (v : A) × ((take_object k s.q).0 ≡ some v) × (get_elem? s.sent (length s.received) ≡ some v)
  Reach-take_object {s} r c =
      let inv = Reach-Inv r in
      let below =
        (subst (λ c. ConsumerOk c (length s.received) s.c_seen s.sent) c inv.consumer_ok).0 in
      let (v, e) = get_elem?_lt s.sent (length s.received) (omega (arith, below, inv.c_seen_le)) in
      (v, ready-object k s c inv ∙ e, e)

  -- After any steps, with the tail as it stands loaded, `full_at` answers true exactly if `N - 1`
  -- values are under way.
  pub Reach-full_at :
      {s : System A}
      → Reach k s
      → ((full_at k s.q.head s.q.tail s.q).0 ≡ true)
        ↔ (length s.sent + 1 ≡ length s.received + 2 ^ k)
  Reach-full_at {s} r =
      let inv = Reach-Inv r in
      let h = length s.sent in
      let t = length s.received in
      let iff = full-at_iff s.q.tail s.q in
      let next_is : wrap k (s.q.head + 1) ≡ (h + 1) % 2 ^ k =
        wrap-mod k (s.q.head + 1) ∙ ap (λ h. (h + 1) % 2 ^ k) inv.head ∙ suc-mod_step h (2 ^ k) in
      (
        λ e. elim (dec_le (h + 2) (t + 2 ^ k)) [
          | yes room ↦ absurd (
              mod_apart t (h + 1) (2 ^ k) (omega (arith, inv.c_behind, inv.c_seen_le)) (omega arith)
                (sym inv.tail ∙ (iff.0 e).1 ∙ next_is))
          | no over ↦ omega (arith, inv.p_room, inv.p_seen_le)
        ],
        λ e.
            let at_tail : (h + 1) % 2 ^ k ≡ t % 2 ^ k =
              ap (λ i. i % 2 ^ k) e ∙ add-mod_right t (2 ^ k) in
            let seen : s.p_seen ≡ t = omega (arith, inv.p_room, inv.p_seen_le) in
            iff.1 (
              next_is ∙ at_tail ∙ ap (λ i. i % 2 ^ k) (sym seen) ∙ sym inv.cached_tail,
              inv.tail ∙ sym at_tail ∙ sym next_is,
            ),
      )

  -- After any steps, with the head as it stands loaded, `empty_at` answers true exactly if every value
  -- sent has been received.
  pub Reach-empty_at :
      {s : System A}
      → Reach k s
      → ((empty_at k s.q.tail s.q.head s.q).0 ≡ true) ↔ (s.received ≡ s.sent)
  Reach-empty_at {s} r =
      let inv = Reach-Inv r in
      let h = length s.sent in
      let t = length s.received in
      let iff = empty-at_iff s.q.head s.q in
      (
        λ e. elim (dec_le (suc t) h) [
          | yes left ↦ absurd (
              mod_apart t h (2 ^ k) left (omega (arith, inv.p_room, inv.p_seen_le))
                (sym inv.tail ∙ sym (iff.0 e).1 ∙ inv.head))
          | no over ↦
              let split = append_of_get s.received s.sent inv.prefix in
              sym (
                split
                ∙ ap (λ l. s.received ++ l) (drop-all t s.sent (omega arith))
                ∙ append-nil s.received)
        ],
        λ e.
            let same : t ≡ h = ap length e in
            let seen : t ≡ s.c_seen = omega (arith, inv.c_behind, inv.c_seen_le) in
            iff.1 (
              inv.tail ∙ ap (λ i. i % 2 ^ k) seen ∙ sym inv.cached_head,
              inv.head ∙ ap (λ i. i % 2 ^ k) (sym same) ∙ sym inv.tail,
            ),
      )
