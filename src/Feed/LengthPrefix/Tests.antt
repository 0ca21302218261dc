-- ===== src/Feed/LengthPrefix/Tests.antt =====
-- Two messages, their stream cut inside the first length and inside the second message.
use fastbook.Prelude.{
  ℕ, ◌+◌, ◌<◌, ◌≡◌, inl, refl, arith, List, [], ◌∷◌, ◌++◌, some, none, true, false, length,
}
use fastbook.Feed.Bytes.{from_big_endian, to_big_endian}
use fastbook.Feed.LengthPrefix.{
  malformed, prepend, feed, read_messages, handle_leftover_bytes, continue_message,
}
use fastbook.Feed.LengthPrefix.Cases.{Partial}
use fastbook.Feed.LengthPrefix.Stream.{run, feed-Partial, feed-append, run-encode}
use fastbook.Feed.LengthPrefix.Datagram.{strict, feed-strict}

abbrev messages : List (List ℕ)
messages = (7 ∷ 8 ∷ 9 ∷ []) ∷ (5 ∷ 6 ∷ []) ∷ []

abbrev cuts : List (List ℕ)
cuts = (0 ∷ []) ∷ (3 ∷ 7 ∷ 8 ∷ 9 ∷ 0 ∷ 2 ∷ 5 ∷ []) ∷ [] ∷ (6 ∷ []) ∷ []

run-cuts : run 4 [] cuts ≡ ([], messages, none)
unfolding run feed read_messages handle_leftover_bytes continue_message from_big_endian
run-cuts = refl

run-too_long : run 4 [] ((0 ∷ []) ∷ (5 ∷ 1 ∷ []) ∷ []) ≡ ([], [], some malformed)
unfolding run feed read_messages handle_leftover_bytes continue_message from_big_endian
run-too_long = refl

run-encode_example : run 4 [] cuts ≡ ([], messages, none)
unfolding to_big_endian
run-encode_example =
    run-encode 4 messages cuts ((omega arith, omega arith), ((omega arith, omega arith), tt))
      (omega arith) (omega arith) refl

feed-append_example :
    feed 4 true (0 ∷ []) ((3 ∷ 7 ∷ []) ++ (8 ∷ 9 ∷ []))
    ≡ prepend
        (feed 4 true (0 ∷ []) (3 ∷ 7 ∷ [])).1
        (feed 4 true (feed 4 true (0 ∷ []) (3 ∷ 7 ∷ [])).0 (8 ∷ 9 ∷ []))
unfolding feed handle_leftover_bytes continue_message from_big_endian
feed-append_example =
    feed-append 4 (0 ∷ []) (3 ∷ 7 ∷ []) (8 ∷ 9 ∷ []) (inl (omega arith)) (omega arith) (omega arith)
      refl

feed-Partial_example :
    Partial 4 (feed 4 true (0 ∷ []) (3 ∷ 7 ∷ [])).0
    × (length (feed 4 true (0 ∷ []) (3 ∷ 7 ∷ [])).0 < 4 + 2)
feed-Partial_example =
    feed-Partial 4 (0 ∷ []) (3 ∷ 7 ∷ []) (inl (omega arith)) (omega arith) (omega arith)

feed-strict_example :
    feed 4 false [] (0 ∷ 1 ∷ 9 ∷ 0 ∷ []) ≡ strict (feed 4 true [] (0 ∷ 1 ∷ 9 ∷ 0 ∷ []))
feed-strict_example = feed-strict 4 (0 ∷ 1 ∷ 9 ∷ 0 ∷ []) (omega arith)
