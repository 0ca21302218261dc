-- ===== src/Feed/Venue/Push.antt =====
-- The way of an event into the queue of its shard.
use native.Mathlib.Decide.{ℕ_discrete}
use fastbook.Prelude.{
  ℕ, zero, suc, ◌+◌, ◌-◌, ◌%◌, ◌^◌, ◌≤◌, ◌<◌, ◌≡◌, inl, inr, refl, sym, ap, subst, arith, ◌∙◌, List,
  [], ◌∷◌, ◌++◌, append_assoc, append-nil, map, some, true, false, Bool-cases,
}
use fastbook.Prelude.Bits.{bit_and-mask}
use fastbook.Feed.Event.{MboEvent}
use fastbook.Feed.Venue.{Outside, Shards, shard_of, taken, spin, on_event, on_events}

-- One of the next `m` calls of `push` after `q` finds room.
abbrev pub RoomWithin : Outside → ℕ → ℕ → Type 0
RoomWithin o from m = (i : ℕ) × (i < m) × (o.pushes (from + i) ≡ true)

abbrev pub NeverStops : Outside → Type 0
NeverStops o = (i : ℕ) → o.stops i ≡ false

-- The event has been queued, and nothing else.
pub record Queued (q q' : Shards) (shard : ℕ) (e : MboEvent) : Type 0 where
  pub queued : q'.queued ≡ q.queued ++ ((shard, e) ∷ [])
  pub tried : q.tries < q'.tries

the_same : (a i : ℕ) → i ≡ 0 → a ≡ a + i
the_same a i h = omega arith

module _ (o : Outside) (never : NeverStops o) where
  spin-Queued :
      (n m shard : ℕ) (q : Shards) (e : MboEvent)
      → m ≤ n
      → RoomWithin o q.tries m
      → (q' : Shards) × (spin n o shard q e ≡ some q')
        × Queued q q' shard e
        × (q'.queue_full ≡ q.queue_full)
  unfolding spin
  spin-Queued zero m shard q e le (i, small, room) = absurd (omega arith)
  spin-Queued (suc n) m shard q e le (i, small, room) = elim (Bool-cases (o.pushes q.tries)) [
    | inl now ↦
        (taken shard q e, rw (now, spin) refl, record { queued = refl; tried = omega arith }, refl)
    | inr later ↦ elim (ℕ_discrete i 0) [
      | yes at_once ↦ absurd (cc (later, ap o.pushes (the_same q.tries i at_once), room))
      | no not_yet ↦
          let next : Shards = record q { tries = q.tries + 1; loads = q.loads + 1 } in
          let (q', ends, done, same) = spin-Queued n (m - 1) shard next e (omega arith) (
            i - 1,
            omega (arith, not_yet),
            subst (λ j. o.pushes j ≡ true) {x = q.tries + i} {y = q.tries + 1 + (i - 1)}
                (omega (arith, not_yet)) room,
          ) in
          let tried = done.tried in
          (
            q',
            rw (later, never q.loads, spin) ends,
            record { queued = done.queued; tried = omega arith },
            same,
          )
    ]
  ]

  -- Among any `m` calls of `push` in a row one finds room, and the loop has fuel for as many.
  module _ (k m fuel : ℕ) (room : (from : ℕ) → RoomWithin o from m) (enough : m ≤ fuel) where
    abbrev pub stamp : ℕ → MboEvent → ℕ × MboEvent
    stamp rx_tsc e = (e.instrument % 2 ^ k, record e { rx_tsc = rx_tsc })

    on_event-Queued :
        (rx_tsc : ℕ) (q : Shards) (e : MboEvent)
        → (q' : Shards) × (on_event fuel o k rx_tsc q e ≡ some q')
          × (q'.queued ≡ q.queued ++ (stamp rx_tsc e ∷ []))
    unfolding on_event
    on_event-Queued rx_tsc q e =
        let stamped = record e { rx_tsc = rx_tsc } in
        let shard = shard_of k stamped in
        let mask = ap (λ s. q.queued ++ ((s, stamped) ∷ [])) (bit_and-mask e.instrument k) in
        elim (Bool-cases (o.pushes q.tries)) [
          | inl now ↦ (taken shard q stamped, rw (now, on_event) refl, mask)
          | inr later ↦
              let waiting : Shards = record q {
                tries = q.tries + 1;
                queue_full = (q.queue_full + 1) % 2 ^ 64;
              } in
              let (q', ends, done, _) =
                spin-Queued fuel m shard waiting stamped enough (room (q.tries + 1)) in
              (q', rw (later, on_event) ends, done.queued ∙ mask)
        ]

    -- While no stop is requested and the consumers keep making room, `on_event` returns for every event
    -- of a message, and the queues take all of them, in order and once each, stamped, into the shard of
    -- the instrument modulo `N_SHARDS`.
    pub on_events-stamp :
        (rx_tsc : ℕ) (q : Shards) (es : List MboEvent)
        → (q' : Shards) × (on_events fuel o k rx_tsc q es ≡ some q')
          × (q'.queued ≡ q.queued ++ map (stamp rx_tsc) es)
    unfolding on_events
    on_events-stamp rx_tsc q [] = (q, refl, sym (append-nil q.queued))
    on_events-stamp rx_tsc q (e ∷ es) =
        let (q', once, first) = on_event-Queued rx_tsc q e in
        let (q'', rest, all) = on_events-stamp rx_tsc q' es in
        (
          q'',
          rw (once, on_events) rest,
          all
              ∙ ap (λ l. l ++ map (stamp rx_tsc) es) first
              ∙ append_assoc q.queued (stamp rx_tsc e ∷ []) (map (stamp rx_tsc) es),
        )
