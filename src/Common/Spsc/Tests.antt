-- ===== src/Common/Spsc/Tests.antt =====
-- A ring of four slots, in which a second value is being pushed while the first is popped.
use fastbook.Prelude.{
  ℕ, ◌+◌, ◌^◌, ◌<◌, ◌≡◌, ◌≢◌, ◌↔◌, refl, arith, List, [], ◌∷◌, ◌++◌, some, inl, true, length,
  get_elem?,
}
use fastbook.Common.Spsc.{empty_at, full_at, pop, take_object, construct, commit}
use fastbook.Common.Spsc.Threads.{
  System, constructed, idle, start, reserve, check, reserves, constructs, commits, checks, Reach,
  here, next, ProducerSteps, ConsumerSteps,
}
use fastbook.Common.Spsc.Fifo.{
  Reach-in_order, Reach-apart, Reach-take_object, Reach-full_at, Reach-empty_at,
}
use fastbook.Common.Spsc.Calls.{push-Reach, pop-Reach, AfterPush, AfterPop}

abbrev filling : System ℕ
filling =
    let s = reserve 2 (start 2) 0 7 in
    record s { q = construct 2 s.q.head 7 s.q; producer = constructed 7 }

abbrev pushed : System ℕ
pushed = record filling { q = commit 2 filling.q; producer = idle; sent = 7 ∷ [] }

abbrev both : System ℕ
both = check 2 (reserve 2 pushed 0 8) 1

filling-Reach : Reach 2 filling
unfolding full_at
filling-Reach = next (next here (reserves 7 0 refl (omega arith) (omega arith))) (constructs 7 refl)

pushed-Reach : Reach 2 pushed
pushed-Reach = next filling-Reach (commits 7 refl)

both-Reach : Reach 2 both
unfolding full_at commit
both-Reach =
    next (next pushed-Reach (reserves 8 0 refl (omega arith) (omega arith)))
      (checks 1 refl (omega arith) (omega arith))

Reach-in_order_example :
    (rest : List ℕ) × (both.sent ≡ both.received ++ rest) × (length rest < 2 ^ 2)
Reach-in_order_example = Reach-in_order 2 both-Reach

Reach-apart_example : both.q.head ≢ both.q.tail
unfolding full_at empty_at commit
Reach-apart_example = Reach-apart 2 8 both-Reach (inl refl) (inl refl)

Reach-take_object_example :
    (v : ℕ) × ((take_object 2 both.q).0 ≡ some v)
    × (get_elem? both.sent (length both.received) ≡ some v)
unfolding full_at empty_at commit
Reach-take_object_example = Reach-take_object 2 both-Reach refl

Reach-full_at_example :
    ((full_at 2 both.q.head both.q.tail both.q).0 ≡ true)
    ↔ (length both.sent + 1 ≡ length both.received + 2 ^ 2)
Reach-full_at_example = Reach-full_at 2 both-Reach

Reach-empty_at_example :
    ((empty_at 2 both.q.tail both.q.head both.q).0 ≡ true) ↔ (both.received ≡ both.sent)
Reach-empty_at_example = Reach-empty_at 2 both-Reach

push-Reach_example :
    (t : System ℕ) × ProducerSteps 2 pushed t × Reach 2 t × AfterPush 2 pushed 0 9 t
unfolding full_at
push-Reach_example = push-Reach 2 0 9 pushed-Reach refl (omega arith) (omega arith)

pop-Reach_example : (t : System ℕ) × ConsumerSteps 2 pushed t × Reach 2 t × AfterPop 2 pushed 1 t
pop-Reach_example = pop-Reach 2 1 pushed-Reach refl (omega arith) (omega arith)

pop_lem : (pop 2 1 pushed.q).0 ≡ some 7
unfolding pop full_at commit
pop_lem = refl
