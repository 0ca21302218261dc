-- ===== src/Feed/Venue.antt =====
-- src/feed/venue_feed.hpp: the thread between a source and the shard queues. A framer, its recoverer and
-- their sink are an interface here, as they are for the template; the source, the consumers of the queues
-- and the thread that stops this one are given by what their calls answer, in order.
pub mod Handle
pub mod OverMold
pub mod Push
mod Tests
use Prim.Native.Nat.{bit_and}
use fastbook.Prelude.{
  ℕ, zero, suc, ◌+◌, ◌-◌, ◌%◌, ◌^◌, List, [], ◌∷◌, ◌++◌, Option, none, some, Bool, true, false,
  ◌||◌, if◌then◌else◌,
}
use fastbook.Feed.Event.{MboEvent}
use fastbook.Feed.Mold.{SequencedError, malformed, gap, end_of_session_reached, session_changed}
use fastbook.Feed.Itch.{parse}
use fastbook.Feed.Recover.{RecoveryError}

abbrev pub max_recoveries : ℕ
max_recoveries = 3

-- `framer_`, `recoverer_`, and all that their sink writes. `recover` is `none` where it does not return.
pub record Framing (S : Type 0) : Type 0 where
  pub set_rx_tsc : ℕ → S → S
  pub feed : S → List ℕ → S × Option SequencedError
  pub recover : S → Option (S × Option RecoveryError)

pub record VenueFeed (S : Type 0) : Type 0 where
  pub inner : S
  pub stop_requested : Bool
  pub finished : Bool
  pub malformed : ℕ

-- What `src_.next()` returns; a packet comes with the reading of the time-stamp counter after it.
pub data Input : Type 0 where
  packet : ℕ → List ℕ → Input
  would_block eof error : Input

module _ {S : Type 0} (framing : Framing S) where
  pub stop : VenueFeed S → VenueFeed S
  stop v = record v { stop_requested = true }

  -- The overload for a `SequencedError`, with `n` rounds left.
  pub on_framer_error : ℕ → VenueFeed S → List ℕ → SequencedError → Option (VenueFeed S)
  unfolding stop
  on_framer_error zero v buf e = some (stop v)
  on_framer_error (suc n) v buf malformed =
      some (record v { malformed = (v.malformed + 1) % 2 ^ 64 })
  on_framer_error (suc n) v buf session_changed = some (stop v)
  on_framer_error (suc n) v buf end_of_session_reached = some (stop v)
  on_framer_error (suc n) v buf gap = elim (framing.recover v.inner) [
    | none ↦ none
    | some (s, failed) ↦ elim failed [
      | some e ↦ some (stop (record v { inner = s }))
      | none ↦
          let (s', ret) = framing.feed s buf in
          elim ret [
            | none ↦ some (record v { inner = s' })
            | some e ↦ on_framer_error n (record v { inner = s' }) buf e
          ]
    ]
  ]

  -- The overload for a `StreamError`.
  pub on_stream_error : VenueFeed S → VenueFeed S
  unfolding stop
  on_stream_error v = stop v

  -- A round of the loop of `run`.
  pub turn : VenueFeed S → Input → Option (VenueFeed S)
  unfolding on_framer_error
  turn v would_block = some v
  turn v eof = some (stop v)
  turn v error = some (stop v)
  turn v (packet rx_tsc bytes) =
      let (s, ret) = framing.feed (framing.set_rx_tsc rx_tsc v.inner) bytes in
      elim ret [
        | none ↦ some (record v { inner = s })
        | some e ↦ on_framer_error max_recoveries (record v { inner = s }) bytes e
      ]

  -- The loop of `run` on the inputs that come while it runs; the flag beside each says whether another
  -- thread has called `stop` by then.
  pub run : List (Bool × Input) → VenueFeed S → Option (VenueFeed S)
  unfolding turn
  run [] v = some v
  run ((stopped, input) ∷ inputs) v = elim (v.stop_requested || stopped) [
    | true ↦ some (record v { stop_requested = true; finished = true })
    | false ↦ elim (turn v input) [ none ↦ none | some v' ↦ run inputs v' ]
  ]

-- `N_SHARDS` is `2 ^ k`.
abbrev pub shard_of : ℕ → MboEvent → ℕ
shard_of k e = bit_and e.instrument (2 ^ k - 1)

-- The answers of `push` and of the loads of `stop_requested_`.
pub record Outside : Type 0 where
  pub pushes : ℕ → Bool
  pub stops : ℕ → Bool

-- What the queues took, each event with its shard, and the calls made.
pub record Shards : Type 0 where
  pub queued : List (ℕ × MboEvent)
  pub tries : ℕ
  pub loads : ℕ
  pub queue_full : ℕ

abbrev pub taken : ℕ → Shards → MboEvent → Shards
taken shard q e = record q { queued = q.queued ++ ((shard, e) ∷ []); tries = q.tries + 1 }

-- `while (!producer.push(stamped))`, with fuel.
pub spin : ℕ → Outside → ℕ → Shards → MboEvent → Option Shards
spin zero o shard q e = none
spin (suc n) o shard q e = elim (o.pushes q.tries) [
  | true ↦ some (taken shard q e)
  | false ↦ elim (o.stops q.loads) [
    | true ↦ some (record q { tries = q.tries + 1; loads = q.loads + 1 })
    | false ↦ spin n o shard (record q { tries = q.tries + 1; loads = q.loads + 1 }) e
  ]
]

pub on_event : ℕ → Outside → ℕ → ℕ → Shards → MboEvent → Option Shards
unfolding spin
on_event fuel o k rx_tsc q e =
    let stamped = record e { rx_tsc = rx_tsc } in
    let shard = shard_of k stamped in
    elim (o.pushes q.tries) [
      | true ↦ some (taken shard q stamped)
      | false ↦
          spin fuel o shard
            (record q { tries = q.tries + 1; queue_full = (q.queue_full + 1) % 2 ^ 64 }) stamped
    ]

-- `on_event` on the events of a message, in order.
pub on_events : ℕ → Outside → ℕ → ℕ → Shards → List MboEvent → Option Shards
unfolding on_event
on_events fuel o k rx_tsc q [] = some q
on_events fuel o k rx_tsc q (e ∷ es) = elim (on_event fuel o k rx_tsc q e) [
  | none ↦ none
  | some q' ↦ on_events fuel o k rx_tsc q' es
]

-- `P::parse(b, *this)` for the ITCH parser.
pub on_message : ℕ → Outside → ℕ → ℕ → Shards → List ℕ → Option Shards
unfolding on_events
on_message fuel o k rx_tsc q bytes = elim (parse bytes) [
  | none ↦ none
  | some es ↦ on_events fuel o k rx_tsc q es
]
