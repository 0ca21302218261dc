-- ===== src/Common/Spsc/Threads.antt =====
-- The two threads, one shared access to a step. A thread may stop between any two steps. A load of
-- the other side's index may return any value that the index has had since the one cached last, which
-- are all that coherence allows and more. `p_seen` and `c_seen` count the values cached, `sent` and
-- `received` are the values whose index store has been made.
use fastbook.Prelude.{ℕ, ◌+◌, ◌≤◌, ◌≡◌, List, [], ◌∷◌, ◌++◌, some, ◌==◌, length, if◌then◌else◌}
use fastbook.Common.Spsc.{
  Queue, wrap, new, empty_at, full_at, construct, commit, take_object, release,
}

pub data ProducerState {ℓ} (A : Type ℓ) : Type ℓ where
  idle : ProducerState A
  reserved constructed : A → ProducerState A

pub data ConsumerState {ℓ} (A : Type ℓ) : Type ℓ where
  waiting ready : ConsumerState A
  taken : A → ConsumerState A

pub record System {ℓ} (A : Type ℓ) : Type ℓ where
  pub q : Queue A
  pub producer : ProducerState A
  pub consumer : ConsumerState A
  pub sent : List A
  pub received : List A
  pub p_seen : ℕ
  pub c_seen : ℕ

module _ {ℓ} {A : Type ℓ} (k : ℕ) where
  abbrev pub start : System A
  start = record {
    q = new k;
    producer = idle;
    consumer = waiting;
    sent = [];
    received = [];
    p_seen = 0;
    c_seen = 0;
  }

  -- `try_reserve` makes its load only if the cached index looks full; so does `pop`, if it looks empty.
  abbrev pub reserve : System A → ℕ → A → System A
  reserve s j x = record s {
    q = (full_at k s.q.head (wrap k j) s.q).1;
    producer = if (full_at k s.q.head (wrap k j) s.q).0 then idle else reserved x;
    p_seen =
        if (full_at k s.q.head (wrap k j) s.q).0
        then s.p_seen
        else (if wrap k (s.q.head + 1) == s.q.cached_tail then j else s.p_seen);
  }

  abbrev pub check : System A → ℕ → System A
  check s j = record s {
    q = (empty_at k s.q.tail (wrap k j) s.q).1;
    consumer = if (empty_at k s.q.tail (wrap k j) s.q).0 then waiting else ready;
    c_seen =
        if (empty_at k s.q.tail (wrap k j) s.q).0
        then s.c_seen
        else (if s.q.tail == s.q.cached_head then j else s.c_seen);
  }

  pub data Step (s : System A) : System A → Type ℓ where
    reserves :
        (x : A) (j : ℕ)
        → s.producer ≡ idle
        → s.p_seen ≤ j
        → j ≤ length s.received
        → Step s (reserve s j x)
    constructs :
        (x : A)
        → s.producer ≡ reserved x
        → Step s (record s { q = construct k s.q.head x s.q; producer = constructed x })
    commits :
        (x : A)
        → s.producer ≡ constructed x
        → Step s (record s { q = commit k s.q; producer = idle; sent = s.sent ++ (x ∷ []) })
    checks : (j : ℕ) → s.consumer ≡ waiting → s.c_seen ≤ j → j ≤ length s.sent → Step s (check s j)
    takes :
        (v : A)
        → s.consumer ≡ ready
        → (take_object k s.q).0 ≡ some v
        → Step s (record s { q = (take_object k s.q).1; consumer = taken v })
    releases :
        (v : A)
        → s.consumer ≡ taken v
        → Step s
            (record s { q = release k s.q; consumer = waiting; received = s.received ++ (v ∷ []) })

  pub data Reach : System A → Type ℓ where
    here : Reach start
    next : {s t : System A} → Reach s → Step s t → Reach t

  abbrev pub IsProducer : {s t : System A} → Step s t → Type 0
  IsProducer (reserves x j i le le') = Unit
  IsProducer (constructs x r) = Unit
  IsProducer (commits x c) = Unit
  IsProducer (checks j w le le') = ⊥
  IsProducer (takes v r o) = ⊥
  IsProducer (releases v t) = ⊥

  abbrev pub IsConsumer : {s t : System A} → Step s t → Type 0
  IsConsumer (reserves x j i le le') = ⊥
  IsConsumer (constructs x r) = ⊥
  IsConsumer (commits x c) = ⊥
  IsConsumer (checks j w le le') = Unit
  IsConsumer (takes v r o) = Unit
  IsConsumer (releases v t) = Unit

  -- Steps of the producer alone, from `s`.
  pub data ProducerSteps (s : System A) : System A → Type ℓ where
    unmoved : ProducerSteps s s
    produces :
        {t u : System A}
        → ProducerSteps s t
        → (step : Step t u) → IsProducer step
        → ProducerSteps s u

  -- Steps of the consumer alone, from `s`.
  pub data ConsumerSteps (s : System A) : System A → Type ℓ where
    unmoved_too : ConsumerSteps s s
    consumes :
        {t u : System A}
        → ConsumerSteps s t
        → (step : Step t u) → IsConsumer step
        → ConsumerSteps s u

  pub ProducerSteps-Reach : {s t : System A} → Reach s → ProducerSteps s t → Reach t
  ProducerSteps-Reach r unmoved = r
  ProducerSteps-Reach r (produces steps step by) = next (ProducerSteps-Reach r steps) step

  pub ConsumerSteps-Reach : {s t : System A} → Reach s → ConsumerSteps s t → Reach t
  ConsumerSteps-Reach r unmoved_too = r
  ConsumerSteps-Reach r (consumes steps step by) = next (ConsumerSteps-Reach r steps) step
