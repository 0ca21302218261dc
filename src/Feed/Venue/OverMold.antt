-- ===== src/Feed/Venue/OverMold.antt =====
-- The interface filled by the MoldUDP64 framer and its recoverer.
use fastbook.Prelude.{
  ℕ, ◌+◌, ◌^◌, ◌<◌, ◌≡◌, ◌≢◌, inl, inr, sym, ap, arith, ◌∙◌, List, ◌++◌, Option, none, some, true,
  length,
}
use fastbook.Feed.Mold.{
  SequencedError, malformed, gap, end_of_session_reached, session_changed, session_size, feed,
}
use fastbook.Feed.Mold.Accept.{feed-advance}
use fastbook.Feed.Mold.Session.{feed-InSession}
use fastbook.Feed.Recover.{other_session, World, MoldRetransmitRecoverer, Run, recover}
use fastbook.Feed.Recover.Listen.{IsOver}
use fastbook.Feed.Recover.Loops.{recover-Recovered}
use fastbook.Feed.Venue.{Framing}
use fastbook.Feed.Venue.Handle.{Lawful}

-- A framer that has its session.
pub record Following (r : Run) : Type 0 where
  pub has_session : r.framer.has_session ≡ true
  pub session : session_size ≡ length r.framer.last_session
  pub fits : r.framer.exp_seq < 2 ^ 64

abbrev pub FollowingUnless : Option SequencedError → Run → Type 0
FollowingUnless none r = Following r
FollowingUnless (some malformed) r = Following r
FollowingUnless (some gap) r = Following r
FollowingUnless (some end_of_session_reached) r = Following r
FollowingUnless (some session_changed) r = Unit

-- After another session has been seen nothing is known but that.
Unless_intro :
    (ret : Option SequencedError) (r : Run)
    → (ret ≢ some session_changed → Following r)
    → FollowingUnless ret r
Unless_intro none r h = h (λ e. cc e)
Unless_intro (some malformed) r h = h (λ e. cc e)
Unless_intro (some gap) r h = h (λ e. cc e)
Unless_intro (some end_of_session_reached) r h = h (λ e. cc e)
Unless_intro (some session_changed) r h = tt

-- `limit` gives, for a deadline, a reading of the clock from which on it has passed.
module _ (c : MoldRetransmitRecoverer) (w : World) (limit : ℕ → ℕ) where
  abbrev feed_run : Run → List ℕ → Run × Option SequencedError
  feed_run r buf =
      let (framer, out, error) = feed r.framer buf in
      (record r { framer = framer; delivered = r.delivered ++ out }, error)

  abbrev pub mold_framing : Framing Run
  mold_framing = record {
    set_rx_tsc = λ n r. r;
    feed = feed_run;
    recover = λ r. recover (limit (w.clock r.readings + c.max_recovery_time) + 2) c w r;
  }

  fed-Following :
      (r : Run) (buf : List ℕ)
      → Following r
      → (feed r.framer buf).2 ≢ some session_changed
      → Following (feed_run r buf).0
  fed-Following r buf f ne =
      let (same, has) = feed-InSession r.framer buf f.has_session ne in
      let small : (feed r.framer buf).0.exp_seq < 2 ^ 64 = elim (feed-advance r.framer buf f.fits) [
        | inl restarts ↦ absurd (ne restarts.0)
        | inr advances ↦ omega (arith, advances.1)
      ] in
      record { has_session = has; session = f.session ∙ ap length (sym same); fits = small }

  -- If the clock passes every deadline, the framer and the recoverer keep a session, and `recover` returns.
  pub mold-Lawful :
      ((deadline : ℕ) → IsOver w deadline (limit deadline)) → Lawful mold_framing FollowingUnless
  mold-Lawful over = record {
    fed = λ r buf f. Unless_intro (feed r.framer buf).2 (feed_run r buf).0 (fed-Following r buf f);
    recovered = λ r f.
        let deadline = w.clock r.readings + c.max_recovery_time in
        let (r', e, ends, d) =
          recover-Recovered (limit deadline + 2) (limit deadline) c w r f.has_session f.session
            f.fits (over deadline) (omega arith) in
        (
          r',
          e,
          ends,
          λ fine.
              let ne : e ≢ some other_session = λ other. cc (fine, other) in
              let (same, has) = d.session ne in
              record {
                has_session = has;
                session = f.session ∙ ap length (sym same);
                fits = omega (arith, d.advance ne);
              },
        );
    dropped = λ r f. f;
    stamped = λ n r f. f;
  }
