-- ===== src/Feed/Venue/Handle.antt =====
-- Errors of the framer, and the loop of `run`: what becomes of each input, with a framer and a
-- recoverer that keep an invariant.
use fastbook.Prelude.{
  ℕ, zero, suc, ◌+◌, ◌%◌, ◌^◌, ◌≡◌, inl, inr, refl, ap, arith, ◌∙◌, List, [], ◌∷◌, Option, none,
  some, Bool, true, false, ◌||◌, Bool-cases, Option-cases,
}
use fastbook.Feed.Mold.{SequencedError, malformed, gap, end_of_session_reached, session_changed}
use fastbook.Feed.Recover.{RecoveryError}
use fastbook.Feed.Venue.{
  max_recoveries, Framing, VenueFeed, Input, packet, would_block, eof, error, stop, on_framer_error,
  turn, run,
}

no_stop : (a b : Bool) → (a || b) ≡ false → a ≡ false
no_stop true b e = cc e
no_stop false b e = refl

-- `Holds ret s`: what is known of the state after `feed` has answered `ret`.
pub record Lawful {S : Type 0} (framing : Framing S) (Holds : Option SequencedError → S → Type 0)
    : Type 0 where
  pub fed :
      (s : S) (buf : List ℕ) → Holds none s → Holds (framing.feed s buf).1 (framing.feed s buf).0
  pub recovered :
      (s : S)
      → Holds (some gap) s
      → (s' : S) × (e : Option RecoveryError) × (framing.recover s ≡ some (s', e))
        × (e ≡ none → Holds none s')
  pub dropped : (s : S) → Holds (some malformed) s → Holds none s
  pub stamped : (n : ℕ) (s : S) → Holds none s → Holds none (framing.set_rx_tsc n s)

module _ {S : Type 0} (framing : Framing S) where
  -- `j` recoveries, each of a gap and without an error, with the datagram fed again after each: from a
  -- framer that has answered `ret` to one that answers `ret'` at the end.
  pub data Rounds (buf : List ℕ) (s' : S) (ret' : Option SequencedError)
      : ℕ → S → Option SequencedError → Type 0 where
    no_more : Rounds buf s' ret' 0 s' ret'
    again :
        {j : ℕ} {s s1 s2 : S} {ret : Option SequencedError}
        → framing.recover s ≡ some (s1, none)
        → framing.feed s1 buf ≡ (s2, ret)
        → Rounds buf s' ret' j s2 ret
        → Rounds buf s' ret' (suc j) s (some gap)

  -- What the last answer makes of the feed, by the number of rounds that are left.
  pub data Settled (v : VenueFeed S) (s : S)
      : ℕ → Option SequencedError → VenueFeed S → Type 0 where
    accepted : (left : ℕ) → Settled v s left none (record v { inner = s })
    spent : (e : SequencedError) → Settled v s 0 (some e) (stop framing (record v { inner = s }))
    counted :
        (left : ℕ)
        → Settled v s
            (suc left)
            (some malformed)
            (record v { inner = s; malformed = (v.malformed + 1) % 2 ^ 64 })
    new_session :
        (left : ℕ)
        → Settled v s (suc left) (some session_changed) (stop framing (record v { inner = s }))
    session_over :
        (left : ℕ)
        → Settled v s
            (suc left)
            (some end_of_session_reached)
            (stop framing (record v { inner = s }))
    unrecovered :
        (left : ℕ) {s' : S} {e : RecoveryError}
        → framing.recover s ≡ some (s', some e)
        → Settled v s (suc left) (some gap) (stop framing (record v { inner = s' }))

  -- The whole way from a framer that has answered `ret`, with `n` rounds.
  pub record Handled (n : ℕ) (v : VenueFeed S) (buf : List ℕ) (ret : Option SequencedError)
      (v' : VenueFeed S) : Type 0 where
    pub rounds : ℕ
    pub left : ℕ
    pub total : rounds + left ≡ n
    pub framer : S
    pub answer : Option SequencedError
    pub retries : Rounds buf framer answer rounds v.inner ret
    pub settled : Settled v framer left answer v'

  Settled-inner :
      (v : VenueFeed S) (s0 s : S) (left : ℕ) (ret : Option SequencedError) (v' : VenueFeed S)
      → Settled (record v { inner = s0 }) s left ret v'
      → Settled v s left ret v'
  Settled-inner v s0 s left ret v' (accepted l) = accepted l
  Settled-inner v s0 s left ret v' (spent e) = spent e
  Settled-inner v s0 s left ret v' (counted l) = counted l
  Settled-inner v s0 s left ret v' (new_session l) = new_session l
  Settled-inner v s0 s left ret v' (session_over l) = session_over l
  Settled-inner v s0 s left ret v' (unrecovered l e) = unrecovered l e

  once_more :
      (n : ℕ) (v : VenueFeed S) (buf : List ℕ) (s s2 : S) (ret : Option SequencedError)
      (v' : VenueFeed S)
      → framing.recover v.inner ≡ some (s, none)
      → framing.feed s buf ≡ (s2, ret)
      → Handled n (record v { inner = s2 }) buf ret v'
      → Handled (suc n) v buf (some gap) v'
  once_more n v buf s s2 ret v' rec fed h = record {
    rounds = suc h.rounds;
    left = h.left;
    total = omega (arith, h.total);
    framer = h.framer;
    answer = h.answer;
    retries = again rec fed h.retries;
    settled = Settled-inner v s2 h.framer h.left h.answer v' h.settled;
  }

  at_once :
      (n : ℕ) (v : VenueFeed S) (buf : List ℕ) (ret : Option SequencedError) (v' : VenueFeed S)
      → Settled v v.inner n ret v'
      → Handled n v buf ret v'
  at_once n v buf ret v' settled = record {
    rounds = 0;
    left = n;
    total = omega arith;
    framer = v.inner;
    answer = ret;
    retries = no_more;
    settled = settled;
  }

  -- What an input makes of a feed that goes on.
  abbrev pub Turned : VenueFeed S → Input → VenueFeed S → Type 0
  Turned v would_block v' = v' ≡ v
  Turned v eof v' = v' ≡ stop framing v
  Turned v error v' = v' ≡ stop framing v
  Turned v (packet rx_tsc bytes) v' =
      let fed = framing.feed (framing.set_rx_tsc rx_tsc v.inner) bytes in
      Handled 3 (record v { inner = fed.0 }) bytes fed.1 v'

  -- The inputs up to the end, or up to the first that finds the feed stopped.
  pub data Ran : List (Bool × Input) → VenueFeed S → VenueFeed S → Type 0 where
    no_input : {v : VenueFeed S} → Ran [] v v
    left_loop :
        {inputs : List (Bool × Input)} {stopped : Bool} {input : Input} {v : VenueFeed S}
        → (v.stop_requested || stopped) ≡ true
        → Ran ((stopped, input) ∷ inputs) v (record v { stop_requested = true; finished = true })
    took :
        {inputs : List (Bool × Input)} {stopped : Bool} {input : Input} {v v1 v' : VenueFeed S}
        → (v.stop_requested || stopped) ≡ false
        → Turned v input v1
        → Ran inputs v1 v'
        → Ran ((stopped, input) ∷ inputs) v v'

module _ {S : Type 0} (framing : Framing S) (Holds : Option SequencedError → S → Type 0)
    (lawful : Lawful framing Holds) where
  -- The invariant, as long as no stop is requested.
  abbrev pub Going : VenueFeed S → Type 0
  Going v = v.stop_requested ≡ false → Holds none v.inner

  abbrev Ends : ℕ → VenueFeed S → List ℕ → Option SequencedError → Option (VenueFeed S) → Type 0
  Ends n v buf ret o =
      (v' : VenueFeed S) × (o ≡ some v') × Handled framing n v buf ret v' × Going v'

  -- One more recovery, after which the datagram is fed again.
  retried :
      (n : ℕ) (v : VenueFeed S) (buf : List ℕ) (s : S) (ret : Option SequencedError)
      → framing.recover v.inner ≡ some (s, none)
      → (framing.feed s buf).1 ≡ ret
      → Holds ret (framing.feed s buf).0
      → ((e : SequencedError)
          → Holds (some e) (framing.feed s buf).0
          → Ends n
              (record v { inner = (framing.feed s buf).0 })
              buf
              (some e)
              (on_framer_error framing n (record v { inner = (framing.feed s buf).0 }) buf e))
      → Ends (suc n) v buf (some gap) (on_framer_error framing (suc n) v buf gap)
  unfolding on_framer_error
  retried n v buf s none rec fed holds later =
      let s2 = (framing.feed s buf).0 in
      let v' : VenueFeed S = record v { inner = s2 } in
      (
        v',
        rw (rec, fed, on_framer_error) refl,
        once_more framing n v buf s s2 none v' rec (ap (λ r. (s2, r)) fed)
            (at_once framing n v' buf none v' (accepted n)),
        λ _. holds,
      )
  retried n v buf s (some e) rec fed holds later =
      let s2 = (framing.feed s buf).0 in
      let (v', ends, handled, going) = later e holds in
      (
        v',
        rw (rec, fed, on_framer_error) ends,
        once_more framing n v buf s s2 (some e) v' rec (ap (λ r. (s2, r)) fed) handled,
        going,
      )

  -- With a framer and a recoverer that keep an invariant and return, the handler returns after any error,
  -- with `n` rounds. Each gap is recovered and the datagram is fed again. A feed that accepts the datagram
  -- leaves the state that the framer is in; with no round left any error stops the feed. Before that a
  -- malformed datagram is counted and nothing else, and another session, the end of the session or a
  -- recovery that fails stops the feed. The invariant holds unless a stop was requested.
  pub on_framer_error-Handled :
      (n : ℕ) (v : VenueFeed S) (buf : List ℕ) (e : SequencedError)
      → Holds (some e) v.inner
      → (v' : VenueFeed S) × (on_framer_error framing n v buf e ≡ some v')
        × Handled framing n v buf (some e) v'
        × Going v'
  unfolding on_framer_error stop
  on_framer_error-Handled zero v buf e holds = (
    stop framing v,
    refl,
    at_once framing 0 v buf (some e) (stop framing v) (spent e),
    λ on. absurd (cc on),
  )
  on_framer_error-Handled (suc n) v buf malformed holds =
      let v' : VenueFeed S = record v { malformed = (v.malformed + 1) % 2 ^ 64 } in
      (
        v',
        refl,
        at_once framing (suc n) v buf (some malformed) v' (counted n),
        λ _. lawful.dropped v.inner holds,
      )
  on_framer_error-Handled (suc n) v buf session_changed holds = (
    stop framing v,
    refl,
    at_once framing (suc n) v buf (some session_changed) (stop framing v) (new_session n),
    λ on. absurd (cc on),
  )
  on_framer_error-Handled (suc n) v buf end_of_session_reached holds = (
    stop framing v,
    refl,
    at_once framing (suc n) v buf (some end_of_session_reached) (stop framing v) (session_over n),
    λ on. absurd (cc on),
  )
  on_framer_error-Handled (suc n) v buf gap holds =
      let (s, failed, rec, kept) = lawful.recovered v.inner holds in
      elim (Option-cases failed) [
        | inr (e, is_e) ↦
            let v' = stop framing (record v { inner = s }) in
            let rec' = rec ∙ ap (λ f. some (s, f)) is_e in
            (
              v',
              rw (rec, is_e, on_framer_error) refl,
              at_once framing (suc n) v buf (some gap) v' (unrecovered n rec'),
              λ on. absurd (cc on),
            )
        | inl fine ↦
            let ret = (framing.feed s buf).1 in
            let s' = (framing.feed s buf).0 in
            let rec' = rec ∙ ap (λ f. some (s, f)) fine in
            retried n v buf s ret rec' refl (lawful.fed s buf (kept fine))
              (λ e h. on_framer_error-Handled n (record v { inner = s' }) buf e h)
      ]

  fed-Turned :
      (v : VenueFeed S) (rx_tsc : ℕ) (bytes : List ℕ) (ret : Option SequencedError)
      → (framing.feed (framing.set_rx_tsc rx_tsc v.inner) bytes).1 ≡ ret
      → Holds ret (framing.feed (framing.set_rx_tsc rx_tsc v.inner) bytes).0
      → Ends max_recoveries
          (record v { inner = (framing.feed (framing.set_rx_tsc rx_tsc v.inner) bytes).0 })
          bytes
          ret
          (turn framing v (packet rx_tsc bytes))
  unfolding turn
  fed-Turned v rx_tsc bytes none fed holds =
      let v' : VenueFeed S = record v {
        inner = (framing.feed (framing.set_rx_tsc rx_tsc v.inner) bytes).0;
      } in
      (
        v',
        rw (fed, turn) refl,
        at_once framing max_recoveries v' bytes none v' (accepted max_recoveries),
        λ _. holds,
      )
  fed-Turned v rx_tsc bytes (some e) fed holds =
      let fed_once = record v {
        inner = (framing.feed (framing.set_rx_tsc rx_tsc v.inner) bytes).0;
      } in
      let (v', ends, handled, going) =
        on_framer_error-Handled max_recoveries fed_once bytes e holds in
      (v', rw (fed, turn) ends, handled, going)

  turn-Turned :
      (v : VenueFeed S) (input : Input)
      → Holds none v.inner
      → (v' : VenueFeed S) × (turn framing v input ≡ some v') × Turned framing v input v' × Going v'
  unfolding turn stop
  turn-Turned v would_block holds = (v, refl, refl, (λ _. holds))
  turn-Turned v eof holds = (stop framing v, refl, refl, (λ e. absurd (cc e)))
  turn-Turned v error holds = (stop framing v, refl, refl, (λ e. absurd (cc e)))
  turn-Turned v (packet rx_tsc bytes) holds =
      let s = framing.set_rx_tsc rx_tsc v.inner in
      fed-Turned v rx_tsc bytes (framing.feed s bytes).1 refl
        (lawful.fed s bytes (lawful.stamped rx_tsc v.inner holds))

  -- With a framer and a recoverer that keep an invariant and return, and the invariant unless a stop is
  -- requested, the loop of `run` comes to the end of any inputs or leaves at the first that finds a stop
  -- requested, finished. Up to there it has taken every input in order: a packet is stamped, fed and, on
  -- an error, handled with 3 rounds, the end of the input and a failed read stop the feed, and no input
  -- changes nothing. The invariant holds again unless a stop was requested.
  pub run-Ran :
      (inputs : List (Bool × Input)) (v : VenueFeed S)
      → Going v
      → (v' : VenueFeed S) × (run framing inputs v ≡ some v') × Ran framing inputs v v' × Going v'
  unfolding run
  run-Ran [] v going = (v, refl, no_input, going)
  run-Ran ((stopped, input) ∷ inputs) v going = elim (Bool-cases (v.stop_requested || stopped)) [
    | inl end ↦ (
      record v { stop_requested = true; finished = true },
      rw (end, run) refl,
      left_loop end,
      (λ e. absurd (cc e)),
    )
    | inr on ↦
        let (v', once, turned, going') =
          turn-Turned v input (going (no_stop v.stop_requested stopped on)) in
        let (v'', rest, ran, going'') = run-Ran inputs v' going' in
        (v'', rw (on, once, run) rest, took on turned ran, going'')
  ]
