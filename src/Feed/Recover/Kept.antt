-- ===== src/Feed/Recover/Kept.antt =====
-- What a recovery leaves behind, and what each round keeps of it.
use fastbook.Prelude.{
  ℕ, ◌+◌, ◌*◌, ◌%◌, ◌^◌, ◌≤◌, ◌<◌, ◌≡◌, ◌≢◌, inl, inr, refl, ap, arith, ◌∙◌, List, [], ◌∷◌, ◌++◌,
  append_assoc, Option, none, some, length, length-append, All,
}
use fastbook.Feed.Mold.{read_header}
use fastbook.Feed.Mold.Session.{InSession}
use fastbook.Feed.Recover.{
  RecoveryError, retries_exhausted, timeout, other_session, transport_error, session_ended,
  unsupported, request_count, World, MoldRetransmitRecoverer, Run, Heard, filled, ask_again, broken,
}
use fastbook.Feed.Recover.Round.{Rounded}

grown : (m a b : ℕ) → 0 < b → m * a + m ≤ m * (a + b)
grown m a b h = grind arith

more : (m a b : ℕ) → m * a ≤ m * (a + b)
more m a b = grind arith

module _ (c : MoldRetransmitRecoverer) (target : ℕ) where
  -- A request sent after `got` of the `received` messages had come: it starts at the number expected
  -- then, which is before the end of the gap, and asks for what is missing of the gap or for
  -- `max_per_request` messages, if that is less.
  pub record Asks (r0 : Run) (received : ℕ) (q : List ℕ) : Type 0 where
    pub got : ℕ
    pub first : ℕ
    pub count : ℕ
    pub bytes :
        read_header q
        ≡ some (record { session = r0.framer.last_session; seq_num = first; msg_count = count }, [])
    pub before : got ≤ received
    pub at : first ≡ (r0.framer.exp_seq + got) % 2 ^ 64
    pub open_gap : first < target
    pub asked_for : count ≡ request_count c target first
    pub small : count ≤ c.max_per_request
    pub needed : first + count ≤ target

  -- More messages may have come by now.
  Asks-later :
      (r0 : Run) (m n : ℕ) (qs : List (List ℕ)) → m ≤ n → All (Asks r0 m) qs → All (Asks r0 n) qs
  Asks-later r0 m n [] le h = tt
  Asks-later r0 m n (q ∷ qs) le h = (
    record {
      got = h.0.got;
      first = h.0.first;
      count = h.0.count;
      bytes = h.0.bytes;
      before = omega (arith, h.0.before, le);
      at = h.0.at;
      open_gap = h.0.open_gap;
      asked_for = h.0.asked_for;
      small = h.0.small;
      needed = h.0.needed;
    },
    Asks-later r0 m n qs le h.1,
  )

  pub record Kept (r0 r : Run) : Type 0 where
    pub new : List (List ℕ)
    pub asked : List (List ℕ)
    pub delivered : r.delivered ≡ r0.delivered ++ new
    pub requests : r.requests ≡ r0.requests ++ asked
    pub seq : r.framer.exp_seq ≡ (r0.framer.exp_seq + length new) % 2 ^ 64
    pub session : InSession r0.framer r.framer
    pub attempts : r.attempts ≤ c.max_attempts
    pub few : length asked ≤ c.max_attempts * length new + r.attempts
    pub asks : All (Asks r0 (length new)) asked

  -- How a recovery from `r0` ends, in `r` with the error `e` or with none.
  pub record Recovered (r0 r : Run) (e : Option RecoveryError) : Type 0 where
    pub new : List (List ℕ)
    pub asked : List (List ℕ)
    pub delivered : r.delivered ≡ r0.delivered ++ new
    pub requests : r.requests ≡ r0.requests ++ asked
    pub advance :
        e ≢ some other_session → r.framer.exp_seq ≡ (r0.framer.exp_seq + length new) % 2 ^ 64
    pub session : e ≢ some other_session → InSession r0.framer r.framer
    pub enough : e ≡ none → target ≤ r.framer.exp_seq
    pub few : length asked ≤ c.max_attempts * (length new + 1)
    pub asks : All (Asks r0 (length new)) asked

  pub Kept-Recovered :
      (r0 r : Run) (e : Option RecoveryError)
      → Kept r0 r
      → (e ≡ none → target ≤ r.framer.exp_seq)
      → Recovered r0 r e
  Kept-Recovered r0 r e k h = record {
    new = k.new;
    asked = k.asked;
    delivered = k.delivered;
    requests = k.requests;
    advance = λ _. k.seq;
    session = λ _. k.session;
    enough = h;
    few = omega (arith, k.few, k.attempts, grown c.max_attempts (length k.new) 1 (omega arith));
    asks = k.asks;
  }

  abbrev pub AfterHeard : Run → Run → Heard → Type 0
  AfterHeard r0 r filled = Recovered r0 r none
  AfterHeard r0 r (broken e) = Recovered r0 r (some e)
  AfterHeard r0 r ask_again = Kept r0 r

  abbrev pub After : Run → Run → Option Heard → Type 0
  After r0 r none = Kept r0 r
  After r0 r (some h) = AfterHeard r0 r h

  module _ (w : World) (deadline : ℕ) (r0 r r' : Run) (left : Option Heard) (k : Kept r0 r)
      (d : Rounded w target deadline r r' left) where
    both : r'.delivered ≡ r0.delivered ++ (k.new ++ d.out)
    both = d.delivered ∙ ap (λ l. l ++ d.out) k.delivered ∙ append_assoc r0.delivered k.new d.out

    abbrev total : ℕ
    total = length (k.new ++ d.out)

    times : c.max_attempts * total ≡ c.max_attempts * (length k.new + length d.out)
    times = ap (λ t. c.max_attempts * t) (length-append k.new d.out)

    attempts_after : r'.attempts ≤ c.max_attempts
    attempts_after = elim d.attempts [
      | inl same ↦ omega (arith, same, k.attempts)
      | inr (reset, some_out) ↦ omega (arith, reset)
    ]

    few_after : length k.asked ≤ c.max_attempts * total + r'.attempts
    few_after = elim d.attempts [
      | inl same ↦
          omega (arith, same, k.few, times, more c.max_attempts (length k.new) (length d.out))
      | inr (reset, some_out) ↦ omega (
        arith,
        k.few,
        k.attempts,
        times,
        grown c.max_attempts (length k.new) (length d.out) some_out,
      )
    ]

    Asks-after : All (Asks r0 total) k.asked
    Asks-after =
        Asks-later r0 (length k.new) total k.asked (omega (arith, length-append k.new d.out)) k.asks

    round-Kept : left ≢ some (broken other_session) → Kept r0 r'
    round-Kept ne = record {
      new = k.new ++ d.out;
      asked = k.asked;
      delivered = both;
      requests = d.requests ∙ k.requests;
      seq = omega (arith, k.seq, (d.in_session ne).0, length-append k.new d.out);
      session = ((d.in_session ne).1.0 ∙ k.session.0, (d.in_session ne).1.1);
      attempts = attempts_after;
      few = few_after;
      asks = Asks-after;
    }

    other-Recovered : Recovered r0 r' (some other_session)
    other-Recovered = record {
      new = k.new ++ d.out;
      asked = k.asked;
      delivered = both;
      requests = d.requests ∙ k.requests;
      advance = λ ne. absurd (ne refl);
      session = λ ne. absurd (ne refl);
      enough = λ e. absurd (cc e);
      few = omega (arith, few_after, attempts_after, grown c.max_attempts total 1 (omega arith));
      asks = Asks-after;
    }

  pub round-After :
      (w : World) (deadline : ℕ) (r0 r r' : Run) (left : Option Heard)
      → Kept r0 r
      → Rounded w target deadline r r' left
      → After r0 r' left
  round-After w deadline r0 r r' none k d = round-Kept w deadline r0 r r' none k d (λ e. cc e)
  round-After w deadline r0 r r' (some ask_again) k d =
      round-Kept w deadline r0 r r' (some ask_again) k d (λ e. cc e)
  round-After w deadline r0 r r' (some filled) k d =
      Kept-Recovered r0 r' none (round-Kept w deadline r0 r r' (some filled) k d (λ e. cc e))
        (λ _. d.enough refl)
  round-After w deadline r0 r r' (some (broken other_session)) k d =
      other-Recovered w deadline r0 r r' (some (broken other_session)) k d
  round-After w deadline r0 r r' (some (broken retries_exhausted)) k d =
      Kept-Recovered r0 r' _
        (round-Kept w deadline r0 r r' (some (broken retries_exhausted)) k d (λ e. cc e))
        (λ e. absurd (cc e))
  round-After w deadline r0 r r' (some (broken timeout)) k d =
      Kept-Recovered r0 r' _ (round-Kept w deadline r0 r r' (some (broken timeout)) k d (λ e. cc e))
        (λ e. absurd (cc e))
  round-After w deadline r0 r r' (some (broken transport_error)) k d =
      Kept-Recovered r0 r' _
        (round-Kept w deadline r0 r r' (some (broken transport_error)) k d (λ e. cc e))
        (λ e. absurd (cc e))
  round-After w deadline r0 r r' (some (broken session_ended)) k d =
      Kept-Recovered r0 r' _
        (round-Kept w deadline r0 r r' (some (broken session_ended)) k d (λ e. cc e))
        (λ e. absurd (cc e))
  round-After w deadline r0 r r' (some (broken unsupported)) k d =
      Kept-Recovered r0 r' _
        (round-Kept w deadline r0 r r' (some (broken unsupported)) k d (λ e. cc e))
        (λ e. absurd (cc e))
