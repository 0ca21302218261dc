-- ===== src/Feed/Venue/Tests.antt =====
-- A gap that the recoverer closes, and two events whose first push finds the queue full.
use fastbook.Prelude.{
  ℕ, zero, suc, ◌+◌, ◌<◌, ◌≡◌, refl, List, [], ◌∷◌, some, arith, Bool, true, false,
}
use fastbook.Feed.Event.{MboEvent, blank}
use fastbook.Feed.Mold.{gap}
use fastbook.Feed.Mold.Packet.{encode_packet}
use fastbook.Feed.Recover.{Reply, datagram, would_block, World, MoldRetransmitRecoverer, Run}
use fastbook.Feed.Venue.{
  Framing, VenueFeed, packet, eof, on_framer_error, run, Outside, Shards, on_events,
}
use fastbook.Feed.Venue.Handle.{Lawful, Handled, on_framer_error-Handled, Going, Ran, run-Ran}
use fastbook.Feed.Venue.OverMold.{FollowingUnless, mold_framing, mold-Lawful}
use fastbook.Feed.Venue.Push.{on_events-stamp}

abbrev session : List ℕ
session = 70 ∷ 66 ∷ 48 ∷ 48 ∷ 48 ∷ 48 ∷ 48 ∷ 48 ∷ 48 ∷ 49 ∷ []

abbrev following : Run
following = record {
  framer = record { last_session = session; has_session = true; exp_seq = 3; gap_end = 5 };
  delivered = [];
  requests = [];
  readings = 0;
  replies = 0;
  attempts = 0;
}

abbrev replies : ℕ → Reply
replies zero = datagram (encode_packet session 3 ((7 ∷ []) ∷ (8 ∷ []) ∷ []))
replies (suc n) = would_block

abbrev world : World
world = record { clock = λ i. i; reply = replies; sends = λ n. true }

abbrev recoverer : MoldRetransmitRecoverer
recoverer = record { max_attempts = 2; max_per_request = 100; max_recovery_time = 60 }

abbrev feed : VenueFeed Run
feed = record { inner = following; stop_requested = false; finished = false; malformed = 0 }

abbrev late : List ℕ
late = encode_packet session 5 ((9 ∷ []) ∷ [])

abbrev framing : Framing Run
framing = mold_framing recoverer world (λ d. d)

abbrev lawful : Lawful framing FollowingUnless
lawful = mold-Lawful recoverer world (λ d. d) (λ d i h. h)

on_framer_error-Handled_example :
    (v' : VenueFeed Run) × (on_framer_error framing 3 feed late gap ≡ some v')
    × Handled framing 3 feed late (some gap) v'
    × Going framing FollowingUnless lawful v'
on_framer_error-Handled_example =
    on_framer_error-Handled framing FollowingUnless lawful 3 feed late gap
      (record { has_session = refl; session = refl; fits = omega arith })

run-Ran_example :
    (v' : VenueFeed Run) × (run framing ((false, packet 1 late) ∷ (false, eof) ∷ []) feed ≡ some v')
    × Ran framing ((false, packet 1 late) ∷ (false, eof) ∷ []) feed v'
    × Going framing FollowingUnless lawful v'
run-Ran_example =
    run-Ran framing FollowingUnless lawful ((false, packet 1 late) ∷ (false, eof) ∷ []) feed
      (λ _. record { has_session = refl; session = refl; fits = omega arith })

-- The first call of `push` finds the queue full.
abbrev pushes : ℕ → Bool
pushes zero = false
pushes (suc n) = true

pushes_pos : (i : ℕ) → 0 < i → pushes i ≡ true
pushes_pos zero h = absurd (omega arith)
pushes_pos (suc i) h = refl

abbrev consumers : Outside
consumers = record { pushes = pushes; stops = λ i. false }

abbrev no_events : Shards
no_events = record { queued = []; tries = 0; loads = 0; queue_full = 0 }

abbrev events : List MboEvent
events = record blank { instrument = 6 } ∷ record blank { instrument = 5 } ∷ []

on_events-stamp_example :
    (q' : Shards) × (on_events 2 consumers 2 77 no_events events ≡ some q')
    × (q'.queued
        ≡ (2, record blank { instrument = 6; rx_tsc = 77 })
          ∷ (1, record blank { instrument = 5; rx_tsc = 77 })
          ∷ [])
on_events-stamp_example =
    on_events-stamp consumers (λ i. refl) 2 2 2
      (λ from. (1, omega arith, pushes_pos (from + 1) (omega arith))) (omega arith) 77 no_events
      events
