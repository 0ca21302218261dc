-- ===== src/Feed/Mold/Stream.antt =====
-- The framer over a run of datagrams that all come from one stream of messages.
use fastbook.Prelude.{
  All-take, All-drop, if◌then◌else◌, ℕ, ◌+◌, ◌-◌, ◌^◌, ◌≤◌, ◌<◌, max, ◌≡◌, refl, sym, ap, ◌∙◌, List,
  [], ◌∷◌, ◌++◌, arith, length, take, drop, All, append_assoc, length-take, length-drop, drop-drop,
  drop-take, take-append-take-drop, ltb, Bool-cases, inl, inr, true, append-nil,
}
use fastbook.Feed.Mold.Packet.{encode_packet, FitsLength, IsPacket}
use fastbook.Feed.Mold.Accept.{feed-packet}
use fastbook.Feed.Mold.{Framer, Outcome, session_size, end_of_session, init, feed}

-- Datagrams in the order of arrival: the framer after the last, and all that the sink was handed.
unfoldable pub run : Framer → List (List ℕ) → Framer × List (List ℕ)
run f [] = (f, [])
run f (d ∷ ds) = let (f', out, _) = feed f d in let (f'', later) = run f' ds in (f'', out ++ later)

-- `count` messages of the stream from number `first` on; the first message has number 1.
pub record Datagram : Type 0 where
  pub first : ℕ
  pub count : ℕ

module _ (session : List ℕ) (msgs : List (List ℕ)) where
  abbrev pub payload : Datagram → List (List ℕ)
  payload d = take d.count (drop (d.first - 1) msgs)

  abbrev pub datagram : Datagram → List ℕ
  datagram d = encode_packet session d.first (payload d)

  abbrev pub datagrams : List Datagram → List (List ℕ)
  datagrams [] = []
  datagrams (d ∷ ds) = datagram d ∷ datagrams ds

  -- A datagram of this stream; a count of 0 is a heartbeat.
  pub record IsSlice (d : Datagram) : Type 0 where
    pub from_one : 1 ≤ d.first
    pub inside : d.first - 1 + d.count ≤ length msgs
    pub countable : d.count < end_of_session

  pub record IsStream : Type 0 where
    pub session_fits : session_size ≡ length session
    pub numbers_fit : length msgs + 2 < 2 ^ 64
    pub lengths_fit : All FitsLength msgs

  -- The framer follows this stream, and its expected number is in range.
  pub record Follows (f : Framer) : Type 0 where
    pub same_session : f.has_session ≡ true → f.last_session ≡ session
    pub from_one : 1 ≤ f.exp_seq
    pub in_range : f.exp_seq - 1 ≤ length msgs

-- How far a receiver gets that takes each datagram that leaves no gap.
abbrev pub advance : ℕ → Datagram → ℕ
advance exp d = if ltb exp d.first then exp else max exp (d.first + d.count)

abbrev pub reach : ℕ → List Datagram → ℕ
reach exp [] = exp
reach exp (d ∷ ds) = reach (advance exp d) ds

module _ {session : List ℕ} {msgs : List (List ℕ)} (stream : IsStream session msgs) where
  length-payload :
      {d : Datagram} → IsSlice session msgs d → length (payload session msgs d) ≡ d.count
  length-payload {d} s = omega (
    arith,
    length-take d.count (drop (d.first - 1) msgs),
    length-drop (d.first - 1) msgs,
    s.inside,
  )

  payload-IsPacket :
      {d : Datagram} → IsSlice session msgs d → IsPacket session d.first (payload session msgs d)
  payload-IsPacket {d} s = record {
    session_fits = stream.session_fits;
    numbers_fit = omega (arith, length-payload s, s.inside, s.from_one, stream.numbers_fit);
    count_fits = omega (arith, length-payload s, s.countable);
    lengths_fit =
        All-take FitsLength d.count (drop (d.first - 1) msgs)
          (All-drop FitsLength (d.first - 1) msgs stream.lengths_fit);
  }

  -- The new part of a datagram continues what the sink has.
  continues :
      (d : Datagram) (exp : ℕ)
      → 1 ≤ d.first
      → d.first ≤ exp
      → take (exp - 1) msgs ++ drop (exp - d.first) (payload session msgs d)
        ≡ take (max exp (d.first + d.count) - 1) msgs
  continues d exp h k =
      let gap = exp - d.first in
      ap (◌++◌ (take (exp - 1) msgs)) (
        drop-take gap d.count (drop (d.first - 1) msgs)
        ∙ ap (take (d.count - gap)) (drop-drop gap (d.first - 1) msgs ∙ at_exp))
      ∙ take-append-take-drop (exp - 1) (d.count - gap) msgs
      ∙ ap (λ k. take k msgs) total
    where
      at_exp : drop (d.first - 1 + (exp - d.first)) msgs ≡ drop (exp - 1) msgs
      at_exp = let e : d.first - 1 + (exp - d.first) ≡ exp - 1 = omega arith in rw e

      total : exp - 1 + (d.count - (exp - d.first)) ≡ max exp (d.first + d.count) - 1
      total = omega arith

  record Continues (f : Framer) (d : Datagram) (r : Outcome) : Type 0 where
    follows : Follows session msgs r.0
    reached : r.0.exp_seq ≡ advance f.exp_seq d
    joined : take (f.exp_seq - 1) msgs ++ r.1 ≡ take (r.0.exp_seq - 1) msgs

  feed-Continues :
      {f : Framer} {d : Datagram}
      → Follows session msgs f
      → IsSlice session msgs d
      → Continues f d (feed f (datagram session msgs d))
  feed-Continues {f} {d} h s =
      let p = payload-IsPacket s in
      let small : f.exp_seq < 2 ^ 64 = omega (arith, h.in_range, stream.numbers_fit) in
      rw (feed-packet p f h.same_session small) (elim (Bool-cases (ltb f.exp_seq d.first)) [
        | inl e ↦ rw e (record {
          follows = record {
            same_session = λ _. refl;
            from_one = h.from_one;
            in_range = h.in_range;
          };
          reached = rw e;
          joined = append-nil _;
        })
        | inr e ↦ rw e (record {
          follows = record {
            same_session = λ _. refl;
            from_one = omega (arith, h.from_one);
            in_range = omega (arith, length-payload s, s.inside, h.in_range);
          };
          reached = rw (e, length-payload s);
          joined = rw (length-payload s) (continues d f.exp_seq s.from_one (ground arith));
        })
      ])

  run-Continues :
      (ds : List Datagram) {f : Framer}
      → Follows session msgs f
      → All (IsSlice session msgs) ds
      → let (f', out) = run f (datagrams session msgs ds) in
        (f'.exp_seq ≡ reach f.exp_seq ds)
        × (take (f.exp_seq - 1) msgs ++ out ≡ take (f'.exp_seq - 1) msgs)
  unfolding run
  run-Continues [] h s = (refl, append-nil _)
  run-Continues (d ∷ ds) {f} h s =
      let step = feed-Continues h s.0 in
      let rest = run-Continues ds step.follows s.1 in
      (
        rest.0 ∙ ap (λ k. reach k ds) step.reached,
        sym (append_assoc (take (f.exp_seq - 1) msgs) _ _)
            ∙ ap
                (λ xs.
                  xs ++ (run (feed f (datagram session msgs d)).0 (datagrams session msgs ds)).1)
                step.joined
            ∙ rest.1,
      )

-- From a new framer, after any datagrams of one stream, in any order and with repeats, overlaps,
-- heartbeats and gaps, the sink holds a prefix of the stream, each message once and in order, and it
-- reaches as far as a receiver gets that takes each datagram which leaves no gap.
pub run-in_order :
    {session : List ℕ} {msgs : List (List ℕ)} (ds : List Datagram)
    → IsStream session msgs
    → All (IsSlice session msgs) ds
    → let (f, out) = run init (datagrams session msgs ds) in
      (f.exp_seq ≡ reach 1 ds) × (out ≡ take (f.exp_seq - 1) msgs)
run-in_order {session} {msgs} ds stream s =
    run-Continues stream ds
      (record { same_session = λ e. cc; from_one = omega arith; in_range = omega arith }) s
