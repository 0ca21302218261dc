-- ===== src/Book/Builder/Replay.antt =====
-- The events of each instrument alone: the builder does to every book what these make of it.
use native.Mathlib.Decide.{ℕ_discrete}
use fastbook.Prelude.{
  ℕ, ◌+◌, ◌≤◌, ◌≡◌, ◌⊎◌, inl, inr, refl, sym, ap, arith, ◌∙◌, List, [], ◌∷◌, Option, none, some,
  ◌==◌, length, if◌then◌else◌,
}
use fastbook.Feed.Event.{MboEvent}
use fastbook.Book.OrderBook.{OrderBook, Memory}
use fastbook.Book.Builder.{BookBuilder, apply_event, apply_events}
use fastbook.Book.Builder.Views.{IsValid, view, Became}
use fastbook.Book.Builder.Handlers.{of_type, apply_event-Does, same_test, other_test}

-- The events of instrument `k` on its book, with those of the others left out; `none` is a failed
-- assertion or `std::terminate`.
abbrev pub replay : ℕ → List (Memory × MboEvent) → Option OrderBook → Option (Option OrderBook)
replay k [] o = some o
replay k ((m, e) ∷ es) o = elim (if e.instrument == k then of_type e.etype m e o else some o) [
  | none ↦ none
  | some o' ↦ replay k es o'
]

abbrev pub Replayed : List (Memory × MboEvent) → BookBuilder → Option BookBuilder → Type 0
Replayed es b r =
    ((b' : BookBuilder) × (r ≡ some b')
      × IsValid b'
      × ((k : ℕ) → replay k es (view b k) ≡ some (view b' k)))
    ⊎ ((r ≡ none) × (k : ℕ) × (replay k es (view b k) ≡ none))

abbrev go_on : ℕ → List (Memory × MboEvent) → Option (Option OrderBook) → Option (Option OrderBook)
go_on k es r = elim r [ none ↦ none | some o ↦ replay k es o ]

abbrev own : MboEvent → Memory → ℕ → Option OrderBook → Option (Option OrderBook)
own e m k o = if e.instrument == k then of_type e.etype m e o else some o

replay_step :
    (m : Memory) (e : MboEvent) (es : List (Memory × MboEvent)) (b c : BookBuilder)
    (now : Option OrderBook)
    → of_type e.etype m e (view b e.instrument) ≡ some now
    → Became 1 b c e.instrument now
    → (k : ℕ) → replay k ((m, e) ∷ es) (view b k) ≡ replay k es (view c k)
replay_step m e es b c now is x k = elim (ℕ_discrete k e.instrument) [
  | yes here ↦
      ap (λ t. go_on k es (if t then of_type e.etype m e (view b k) else some (view b k)))
        (same_test e.instrument k here)
      ∙ ap (λ j. go_on k es (of_type e.etype m e (view b j))) here
      ∙ ap (go_on k es) is
      ∙ ap (replay k es) (sym x.changed)
      ∙ ap (λ j. replay k es (view c j)) (sym here)
  | no other ↦
      ap (λ t. go_on k es (if t then of_type e.etype m e (view b k) else some (view b k)))
        (other_test e.instrument k other)
      ∙ ap (replay k es) (sym (x.others k other))
]

replay_failed :
    (m : Memory) (e : MboEvent) (es : List (Memory × MboEvent)) (o : Option OrderBook)
    → of_type e.etype m e o ≡ none
    → replay e.instrument ((m, e) ∷ es) o ≡ none
replay_failed m e es o fails =
    ap (λ t. go_on e.instrument es (if t then of_type e.etype m e o else some o))
      (same_test e.instrument e.instrument refl)
    ∙ ap (go_on e.instrument es) fails

later :
    (m : Memory) (e : MboEvent) (es : List (Memory × MboEvent)) (b c : BookBuilder)
    → apply_event m b e ≡ some c
    → ((k : ℕ) → replay k ((m, e) ∷ es) (view b k) ≡ replay k es (view c k))
    → Replayed es c (apply_events c es)
    → Replayed ((m, e) ∷ es) b (apply_events b ((m, e) ∷ es))
unfolding apply_events
later m e es b c once steps (inl (b', rest, valid, views)) =
    inl (b', rw (once, apply_events) rest, valid, λ k. steps k ∙ views k)
later m e es b c once steps (inr (fails, k, lost)) =
    inr (rw (once, apply_events) fails, k, steps k ∙ lost)

-- On a valid builder with room in the map for as many instruments as there are events, and with any
-- answers to the requests for memory: either all events are handled, the builder stays valid, and the
-- book of every instrument, or its absence, is what the events of that instrument alone make of it, in
-- their order; or an assertion fails or the program terminates, and so it does for the events of some
-- instrument alone.
pub apply_events-replay :
    (es : List (Memory × MboEvent)) (b : BookBuilder)
    → IsValid b
    → b.instrument_map.size + length es ≤ b.instrument_map.capacity
    → Replayed es b (apply_events b es)
unfolding apply_events
apply_events-replay [] b v room = inl (b, refl, v, (λ k. refl))
apply_events-replay ((m, e) ∷ es) b v room = elim (apply_event-Does m b e v (omega arith)) [
  | inr (fails, lost) ↦
      inr (
        rw (fails, apply_events) refl,
        e.instrument,
        replay_failed m e es (view b e.instrument) lost,
      )
  | inl (c, now, once, is, x) ↦
      later m e es b c once (replay_step m e es b c now is x)
        (apply_events-replay es c x.valid (omega (arith, x.size, x.capacity, room)))
]
