-- ===== src/Common/Spsc/Calls.antt =====
-- `push` and `pop` as the steps of one thread that the other does not interrupt.
use fastbook.Prelude.{
  ℕ, ◌≤◌, ◌≡◌, refl, sym, ap, arith, ◌∙◌, [], ◌∷◌, ◌++◌, none, some, inl, inr, true, false,
  Bool-cases, length, if◌then◌else◌,
}
use fastbook.Common.Spsc.{
  Queue, wrap, empty_at, full_at, try_reserve, push, pop, construct, commit, take_object, release,
}
use fastbook.Common.Spsc.Threads.{
  System, idle, reserved, waiting, ready, reserves, constructs, commits, checks, takes, releases,
  Reach, reserve, check, ProducerSteps, unmoved, produces, ConsumerSteps, unmoved_too, consumes,
  ProducerSteps-Reach, ConsumerSteps-Reach,
}
use fastbook.Common.Spsc.Fifo.{Reach-take_object}

module _ {ℓ} {A : Type ℓ} (k : ℕ) where
  push_full :
      (loaded : ℕ) (x : A) (q : Queue A)
      → (full_at k q.head loaded q).0 ≡ true
      → push k loaded x q ≡ (false, (full_at k q.head loaded q).1)
  unfolding push try_reserve full_at
  push_full loaded x q e = ground arith

  push_room :
      (loaded : ℕ) (x : A) (q : Queue A)
      → (full_at k q.head loaded q).0 ≡ false
      → push k loaded x q ≡ (true, commit k (construct k q.head x (full_at k q.head loaded q).1))
  unfolding push try_reserve full_at
  push_room loaded x q e = ground arith

  full-at_head : (h loaded : ℕ) (q : Queue A) → (full_at k h loaded q).1.head ≡ q.head
  unfolding full_at
  full-at_head h loaded q = ground arith

  pop_empty :
      (loaded : ℕ) (q : Queue A)
      → (empty_at k q.tail loaded q).0 ≡ true
      → pop k loaded q ≡ (none, (empty_at k q.tail loaded q).1)
  unfolding pop
  pop_empty loaded q e = simp (e)

  pop_object :
      (loaded : ℕ) (q : Queue A)
      → (empty_at k q.tail loaded q).0 ≡ false
      → pop k loaded q ≡ (
        (take_object k (empty_at k q.tail loaded q).1).0,
        release k (take_object k (empty_at k q.tail loaded q).1).1,
      )
  unfolding pop
  pop_object loaded q e = simp (e)

  abbrev pub AfterPush : System A → ℕ → A → System A → Type ℓ
  AfterPush s j x t =
      (t.q ≡ (push k (wrap k j) x s.q).1)
      × (t.sent ≡ (if (push k (wrap k j) x s.q).0 then s.sent ++ (x ∷ []) else s.sent))
      × (t.received ≡ s.received)
      × (t.producer ≡ idle)
      × (t.consumer ≡ s.consumer)
      × (t.c_seen ≡ s.c_seen)
      × (t.p_seen ≡ (reserve k s j x).p_seen)

  -- From a state that steps lead to, with the producer idle and any value that its load may return,
  -- steps of the producer alone lead to the queue that `push` leaves. It has then sent the value exactly
  -- if `push` returned true, and is idle again; what the consumer has received and seen, and where it
  -- stands, are as before.
  pub push-Reach :
      {s : System A} (j : ℕ) (x : A)
      → Reach k s
      → s.producer ≡ idle
      → s.p_seen ≤ j
      → j ≤ length s.received
      → (t : System A) × ProducerSteps k s t × Reach k t × AfterPush s j x t
  push-Reach {s} j x r i le le' =
      let first : ProducerSteps k s (reserve k s j x) =
        produces unmoved (reserves x j i le le') tt in
      elim (Bool-cases (full_at k s.q.head (wrap k j) s.q).0) [
        | inl e ↦
            let answer = push_full (wrap k j) x s.q e in
            (
              reserve k s j x,
              first,
              ProducerSteps-Reach k r first,
              (
                sym (ap (λ p. p.1) answer),
                ap (λ b. if b then s.sent ++ (x ∷ []) else s.sent) (sym (ap (λ p. p.0) answer)),
                refl,
                ap (λ b. if b then idle else reserved x) e,
                refl,
                refl,
                refl,
              ),
            )
        | inr e ↦
            let answer = push_room (wrap k j) x s.q e in
            let at_head = full-at_head s.q.head (wrap k j) s.q in
            let done =
              produces
                (produces first (constructs x (ap (λ b. if b then idle else reserved x) e)) tt)
                (commits x refl) tt in
            (
              _,
              done,
              ProducerSteps-Reach k r done,
              (
                ap (λ h. commit k (construct k h x (full_at k s.q.head (wrap k j) s.q).1)) at_head
                    ∙ sym (ap (λ p. p.1) answer),
                ap (λ b. if b then s.sent ++ (x ∷ []) else s.sent) (sym (ap (λ p. p.0) answer)),
                refl,
                refl,
                refl,
                refl,
                refl,
              ),
            )
      ]

  abbrev pub AfterPop : System A → ℕ → System A → Type ℓ
  AfterPop s j t =
      (t.q ≡ (pop k (wrap k j) s.q).1)
      × (t.received
          ≡ elim (pop k (wrap k j) s.q).0 [ none ↦ s.received | some v ↦ s.received ++ (v ∷ []) ])
      × (t.sent ≡ s.sent)
      × (t.consumer ≡ waiting)
      × (t.producer ≡ s.producer)
      × (t.p_seen ≡ s.p_seen)
      × (t.c_seen ≡ (check k s j).c_seen)

  -- From a state that steps lead to, with the consumer waiting and any value that its load may return,
  -- steps of the consumer alone lead to the queue that `pop` leaves. It has then received exactly the
  -- value that `pop` returned, if any, and is waiting again; what the producer has sent and seen, and
  -- where it stands, are as before.
  pub pop-Reach :
      {s : System A} (j : ℕ)
      → Reach k s
      → s.consumer ≡ waiting
      → s.c_seen ≤ j
      → j ≤ length s.sent
      → (t : System A) × ConsumerSteps k s t × Reach k t × AfterPop s j t
  pop-Reach {s} j r w le le' =
      let first : ConsumerSteps k s (check k s j) = consumes unmoved_too (checks j w le le') tt in
      elim (Bool-cases (empty_at k s.q.tail (wrap k j) s.q).0) [
        | inl e ↦
            let answer = pop_empty (wrap k j) s.q e in
            (
              check k s j,
              first,
              ConsumerSteps-Reach k r first,
              (
                sym (ap (λ p. p.1) answer),
                ap (λ o. elim o [ none ↦ s.received | some v ↦ s.received ++ (v ∷ []) ])
                    (sym (ap (λ p. p.0) answer)),
                refl,
                ap (λ b. if b then waiting else ready) e,
                refl,
                refl,
                refl,
              ),
            )
        | inr e ↦
            let answer = pop_object (wrap k j) s.q e in
            let is_ready : (check k s j).consumer ≡ ready =
              ap (λ b. if b then waiting else ready) e in
            let (v, object, _) = Reach-take_object k (ConsumerSteps-Reach k r first) is_ready in
            let done =
              consumes (consumes first (takes v is_ready object) tt) (releases v refl) tt in
            (
              _,
              done,
              ConsumerSteps-Reach k r done,
              (
                sym (ap (λ p. p.1) answer),
                ap (λ o. elim o [ none ↦ s.received | some v ↦ s.received ++ (v ∷ []) ])
                    (sym (ap (λ p. p.0) answer ∙ object)),
                refl,
                refl,
                refl,
                refl,
                refl,
              ),
            )
      ]
