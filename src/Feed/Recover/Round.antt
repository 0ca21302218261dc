-- ===== src/Feed/Recover/Round.antt =====
-- One round of the inner loop of `recover`.
use fastbook.Prelude.{
  ℕ, ◌+◌, ◌%◌, ◌^◌, ◌≤◌, ◌<◌, ◌≡◌, ◌≢◌, ◌⊎◌, inl, inr, refl, sym, arith, List, [], ◌++◌, append-nil,
  Option, none, some, true, leb, ltb, ltb→lt, length, Bool-cases,
}
use fastbook.Feed.Mold.{
  Framer, Outcome, SequencedError, malformed, gap, end_of_session_reached, session_changed, feed,
}
use fastbook.Feed.Mold.Accept.{Advances, Restarts, feed-advance}
use fastbook.Feed.Mold.Session.{InSession, feed-InSession}
use fastbook.Feed.Recover.{
  timeout, other_session, session_ended, transport_error, Reply, datagram, would_block, failed,
  World, Run, Heard, filled, ask_again, broken, judge, on_reply, listen_once,
}

-- Whether the loop that a round leaves, if it does, is only left to ask again.
abbrev pub Open : Option Heard → Type 0
Open none = Unit
Open (some filled) = ⊥
Open (some ask_again) = Unit
Open (some (broken e)) = ⊥

pub record Rounded (w : World) (target deadline : ℕ) (r r' : Run) (left : Option Heard)
    : Type 0 where
  pub out : List (List ℕ)
  pub delivered : r'.delivered ≡ r.delivered ++ out
  pub requests : r'.requests ≡ r.requests
  pub readings : r'.readings ≡ r.readings + 1
  pub attempts : (r'.attempts ≡ r.attempts) ⊎ ((r'.attempts ≡ 0) × (0 < length out))
  pub in_session :
      left ≢ some (broken other_session)
      → (r'.framer.exp_seq ≡ (r.framer.exp_seq + length out) % 2 ^ 64)
        × InSession r.framer r'.framer
  pub in_time : Open left → w.clock r.readings < deadline
  pub enough : left ≡ some filled → target ≤ r'.framer.exp_seq

module _ (w : World) (target deadline last : ℕ) (r : Run) (has : r.framer.has_session ≡ true)
    (fits : r.framer.exp_seq < 2 ^ 64) where
  -- A round that hands over `out`, and stays in the session or reports another.
  round :
      (r' : Run) (left : Option Heard) (out : List (List ℕ))
      → r'.delivered ≡ r.delivered ++ out
      → r'.requests ≡ r.requests
      → r'.readings ≡ r.readings + 1
      → (r'.attempts ≡ r.attempts) ⊎ ((r'.attempts ≡ 0) × (0 < length out))
      → (left ≢ some (broken other_session)
          → (r'.framer.exp_seq ≡ (r.framer.exp_seq + length out) % 2 ^ 64)
            × InSession r.framer r'.framer)
      → (Open left → w.clock r.readings < deadline)
      → (left ≡ some filled → target ≤ r'.framer.exp_seq)
      → Rounded w target deadline r r' left
  round r' left out d q n a s t e = record {
    out = out;
    delivered = d;
    requests = q;
    readings = n;
    attempts = a;
    in_session = s;
    in_time = t;
    enough = e;
  }

  -- A round that hears nothing.
  abbrev read_on : ℕ → Run
  read_on n = record r { readings = r.readings + 1; replies = n }

  quiet :
      (n : ℕ) (left : Option Heard)
      → (Open left → w.clock r.readings < deadline)
      → left ≢ some filled
      → Rounded w target deadline r (read_on n) left
  quiet n left in_time not_filled =
      round (read_on n) left [] (sym (append-nil r.delivered)) refl refl (inl refl)
        (λ _. (omega (arith, fits), (refl, has))) in_time (λ e. absurd (not_filled e))

  abbrev after : Framer → List (List ℕ) → ℕ → Run
  after f out attempts = record r {
    framer = f;
    delivered = r.delivered ++ out;
    readings = r.readings + 1;
    replies = r.replies + 1;
    attempts = attempts;
  }

  -- The round after a reply has been fed to the framer.
  module _ (before : w.clock r.readings < deadline) where
    abbrev Judged : Outcome → Type 0
    Judged fed =
        let j = judge target last r.framer.exp_seq (after fed.0 fed.1 r.attempts) fed.2 in
        Rounded w target deadline r j.0 j.1

    fed_on :
        (f : Framer) (out : List (List ℕ)) (error : Option SequencedError) (attempts : ℕ)
        (left : Option Heard)
        → error ≢ some session_changed
        → Restarts (f, out, error) ⊎ Advances r.framer.exp_seq (f, out, error)
        → (error ≢ some session_changed → InSession r.framer f)
        → ((f.exp_seq ≡ (r.framer.exp_seq + length out) % 2 ^ 64)
            → (attempts ≡ r.attempts) ⊎ ((attempts ≡ 0) × (0 < length out)))
        → (left ≡ some filled → target ≤ f.exp_seq)
        → Rounded w target deadline r (after f out attempts) left
    fed_on f out error attempts left ne (inl restarts) keeps a e = absurd (ne restarts.0)
    fed_on f out error attempts left ne (inr advances) keeps a e =
        round (after f out attempts) left out refl refl refl (a advances.1)
          (λ _. (advances.1, keeps ne)) (λ _. before) e

    progress :
        (f : Framer) (out : List (List ℕ))
        → f.exp_seq ≡ (r.framer.exp_seq + length out) % 2 ^ 64
        → ltb r.framer.exp_seq f.exp_seq ≡ true
        → 0 < length out
    progress f out moved more = omega (arith, fits, moved, ltb→lt r.framer.exp_seq f.exp_seq more)

    judge_none :
        (f : Framer) (out : List (List ℕ))
        → Restarts (f, out, none) ⊎ Advances r.framer.exp_seq (f, out, none)
        → (none ≢ some session_changed → InSession r.framer f)
        → Judged (f, out, none)
    unfolding judge
    judge_none f out moved keeps =
        let on = λ (attempts : ℕ) (left : Option Heard).
          fed_on f out none attempts left (λ e. cc e) moved keeps in
        elim (Bool-cases (leb target f.exp_seq)) [
          | inl there ↦ rw there (on r.attempts (some filled) (λ _. inl refl) (λ _. ground arith))
          | inr short ↦ elim (Bool-cases (ltb r.framer.exp_seq f.exp_seq)) [
            | inl more ↦
                let grown = λ (m : f.exp_seq ≡ (r.framer.exp_seq + length out) % 2 ^ 64).
                  progress f out m more in
                elim (Bool-cases (leb last f.exp_seq)) [
                  | inl all ↦
                      rw (short, more, all)
                        (on 0 (some ask_again) (λ m. inr (refl, grown m)) (λ e. absurd (cc e)))
                  | inr some_left ↦
                      rw (short, more, some_left)
                        (on 0 none (λ m. inr (refl, grown m)) (λ e. absurd (cc e)))
                ]
            | inr same ↦ elim (Bool-cases (leb last f.exp_seq)) [
              | inl all ↦
                  rw (short, same, all)
                    (on r.attempts (some ask_again) (λ m. inl refl) (λ e. absurd (cc e)))
              | inr some_left ↦
                  rw (short, same, some_left)
                    (on r.attempts none (λ m. inl refl) (λ e. absurd (cc e)))
            ]
          ]
        ]

    judge-Rounded :
        (fed : Outcome)
        → Restarts fed ⊎ Advances r.framer.exp_seq fed
        → (fed.2 ≢ some session_changed → InSession r.framer fed.0)
        → Judged fed
    unfolding judge
    judge-Rounded (f, out, some session_changed) (inl restarts) keeps =
        round (after f out r.attempts) (some (broken other_session)) out refl refl refl (inl refl)
          (λ ne. absurd (ne refl)) (λ o. absurd o) (λ e. absurd (cc e))
    judge-Rounded (f, out, some session_changed) (inr advances) keeps = absurd (advances.0 refl)
    judge-Rounded (f, out, some gap) moved keeps =
        fed_on f out (some gap) r.attempts (some ask_again) (λ e. cc e) moved keeps (λ _. inl refl)
          (λ e. absurd (cc e))
    judge-Rounded (f, out, some malformed) moved keeps =
        fed_on f out (some malformed) r.attempts none (λ e. cc e) moved keeps (λ _. inl refl)
          (λ e. absurd (cc e))
    judge-Rounded (f, out, some end_of_session_reached) moved keeps =
        fed_on f out (some end_of_session_reached) r.attempts (some (broken session_ended))
          (λ e. cc e) moved keeps (λ _. inl refl) (λ e. absurd (cc e))
    judge-Rounded (f, out, none) moved keeps = judge_none f out moved keeps

  on_reply-Rounded :
      (before : w.clock r.readings < deadline) (reply : Reply)
      → let j =
          on_reply target last
            (record r { readings = r.readings + 1; replies = r.replies + 1 })
            reply in
        Rounded w target deadline r j.0 j.1
  unfolding on_reply
  on_reply-Rounded before would_block =
      quiet (r.replies + 1) (some ask_again) (λ _. before) (λ e. cc e)
  on_reply-Rounded before failed =
      quiet (r.replies + 1) (some (broken transport_error)) (λ o. absurd o) (λ e. cc e)
  on_reply-Rounded before (datagram bytes) =
      judge-Rounded before (feed r.framer bytes) (feed-advance r.framer bytes fits)
        (feed-InSession r.framer bytes has)

  pub listen_once-Rounded :
      let j = listen_once w target deadline last r in Rounded w target deadline r j.0 j.1
  unfolding listen_once
  listen_once-Rounded = elim (Bool-cases (leb deadline (w.clock r.readings))) [
    | inl late ↦ rw late (quiet r.replies (some (broken timeout)) (λ o. absurd o) (λ e. cc e))
    | inr early ↦ rw early (on_reply-Rounded (ground arith) (w.reply r.replies))
  ]
