-- ===== src/Feed/Recover/Loops.antt =====
-- Both loops of `recover`: they end once the time is up.
use native.Mathlib.Nat.{mod-lt}
use fastbook.Prelude.{
  ℕ, zero, suc, ◌+◌, ◌%◌, ◌^◌, ◌≤◌, ◌<◌, ◌≡◌, ◌≢◌, inl, inr, refl, sym, ap, subst, arith, ◌∙◌, List,
  [], ◌∷◌, ◌++◌, append-nil, append_assoc, Option, none, some, true, leb, ◌==◌, length,
  length-append, All-append, Bool-cases,
}
use fastbook.Feed.Mold.{Header, header_size, session_size, read_header}
use fastbook.Feed.Mold.HeaderCodec.{read-write_header}
use fastbook.Feed.Recover.{
  RecoveryError, retries_exhausted, transport_error, World, MoldRetransmitRecoverer, Run, Heard,
  filled, ask_again, broken, request_count, send_request, recover_from, recover,
}
use fastbook.Feed.Recover.Kept.{Asks, Kept, Recovered, Kept-Recovered, AfterHeard}
use fastbook.Feed.Recover.Listen.{IsOver, InTime, listen-Listened}

module _ (c : MoldRetransmitRecoverer) (w : World) (target deadline bound : ℕ)
    (over : IsOver w deadline bound) (r0 : Run)
    (session : session_size ≡ length r0.framer.last_session) where
  abbrev asking : Run → ℕ
  asking r = request_count c target r.framer.exp_seq

  count_small : (first : ℕ) → request_count c target first < 2 ^ 16
  count_small first = mod-lt _ (omega arith)

  count_needed : (first : ℕ) → first < target → first + request_count c target first ≤ target
  count_needed first h = omega arith

  count_few : (first : ℕ) → request_count c target first ≤ c.max_per_request
  count_few first = omega arith

  send_request-sent :
      (r : Run) (k : Kept c target r0 r)
      → (bytes : List ℕ) × (send_request w r r.framer.exp_seq
            (request_count c target r.framer.exp_seq)
          ≡ some (record r { requests = r.requests ++ (bytes ∷ []) }, w.sends (length r.requests)))
        × (read_header bytes
            ≡ some (
              record {
                session = r0.framer.last_session;
                seq_num = r.framer.exp_seq;
                msg_count = request_count c target r.framer.exp_seq;
              },
              [],
            ))
  unfolding send_request
  send_request-sent r k =
      let h : Header = record {
        session = r.framer.last_session;
        seq_num = r.framer.exp_seq;
        msg_count = request_count c target r.framer.exp_seq;
      } in
      let (bytes, written, read) =
        read-write_header h (record { out = []; room = header_size }) []
          (record {
            session = session ∙ ap length (sym k.session.0);
            seq_num = omega (arith, k.seq);
            msg_count = count_small r.framer.exp_seq;
          })
          (omega arith) in
      (
        bytes,
        rw (written, send_request) refl,
        ap read_header (sym (append-nil bytes))
            ∙ read
            ∙ ap
                (λ l. some (
                  (record {
                    session = l;
                    seq_num = r.framer.exp_seq;
                    msg_count = request_count c target r.framer.exp_seq;
                  }),
                  [],
                ))
                k.session.0,
      )

  abbrev asked_run : Run → List ℕ → Run
  asked_run r bytes = record r { requests = r.requests ++ (bytes ∷ []); attempts = r.attempts + 1 }

  asked-Kept :
      (r : Run) (bytes : List ℕ)
      → Kept c target r0 r
      → r.framer.exp_seq < target
      → r.attempts ≢ c.max_attempts
      → read_header bytes
        ≡ some (
          record {
            session = r0.framer.last_session;
            seq_num = r.framer.exp_seq;
            msg_count = asking r;
          },
          [],
        )
      → Kept c target r0 (asked_run r bytes)
  asked-Kept r bytes k short left read = record {
    new = k.new;
    asked = k.asked ++ (bytes ∷ []);
    delivered = k.delivered;
    requests =
        ap (λ l. l ++ (bytes ∷ [])) k.requests ∙ append_assoc r0.requests k.asked (bytes ∷ []);
    seq = k.seq;
    session = k.session;
    attempts = omega (arith, k.attempts, left);
    few = omega (arith, k.few, length-append k.asked (bytes ∷ []));
    asks = All-append (Asks c target r0 (length k.new)) k.asked (bytes ∷ []) k.asks (
      record {
        got = length k.new;
        first = r.framer.exp_seq;
        count = asking r;
        bytes = read;
        before = omega arith;
        at = k.seq;
        open_gap = short;
        asked_for = refl;
        small = count_few r.framer.exp_seq;
        needed = count_needed r.framer.exp_seq short;
      },
      tt,
    );
  }

  -- Only the count of attempts tells the run whose request was lost from that of one that was sent.
  unsent :
      (r : Run) (bytes : List ℕ)
      → Recovered c target r0 (asked_run r bytes) (some transport_error)
      → Recovered c target r0
          (record r { requests = r.requests ++ (bytes ∷ []) })
          (some transport_error)
  unsent r bytes d = record {
    new = d.new;
    asked = d.asked;
    delivered = d.delivered;
    requests = d.requests;
    advance = d.advance;
    session = d.session;
    enough = d.enough;
    few = d.few;
    asks = d.asks;
  }

  abbrev Done : ℕ → Run → Type 0
  Done n r =
      (r' : Run) × (e : Option RecoveryError) × (recover_from n c w target deadline r
        ≡ some (r', e))
      × Recovered c target r0 r' e

  -- What follows a request that was sent.
  abbrev settle : ℕ → Option (Run × Heard) → Option (Run × Option RecoveryError)
  settle n o = elim o [
    | none ↦ none
    | some (r'', heard) ↦ elim heard [
      | filled ↦ some (r'', none)
      | broken e ↦ some (r'', some e)
      | ask_again ↦ recover_from n c w target deadline r''
    ]
  ]

  settled :
      (n : ℕ) (r r' : Run) (h : Heard)
      → recover_from (suc n) c w target deadline r ≡ settle n (some (r', h))
      → AfterHeard c target r0 r' h
      → (Kept c target r0 r' → h ≡ ask_again → Done n r')
      → Done (suc n) r
  settled n r r' filled once heard later = (r', none, once, heard)
  settled n r r' (broken e) once heard later = (r', some e, once, heard)
  settled n r r' ask_again once heard later =
      let (r'', e, rest, end) = later heard refl in (r'', e, once ∙ rest, end)

  recover_from-Recovered :
      (n : ℕ) (r : Run) → Kept c target r0 r → bound + 1 < r.readings + n → 1 < n → Done n r
  unfolding recover_from
  recover_from-Recovered zero r k room pos = absurd (omega arith)
  recover_from-Recovered (suc n) r k room pos = elim (Bool-cases (leb target r.framer.exp_seq)) [
    | inl there ↦ (
      r,
      none,
      rw (there, recover_from) refl,
      Kept-Recovered c target r0 r none k (λ _. ground arith),
    )
    | inr short ↦ elim (Bool-cases (r.attempts == c.max_attempts)) [
      | inl spent ↦ (
        r,
        some retries_exhausted,
        rw (short, spent, recover_from) refl,
        Kept-Recovered c target r0 r (some retries_exhausted) k (λ e. absurd (cc e)),
      )
      | inr left ↦
          let (bytes, sent, read) = send_request-sent r k in
          let k' = asked-Kept r bytes k (ground arith) (ground arith) read in
          let asked = asked_run r bytes in
          elim (Bool-cases (w.sends (length r.requests))) [
            | inr lost ↦ (
              record r { requests = r.requests ++ (bytes ∷ []) },
              some transport_error,
              rw (short, left, sent, lost, recover_from) refl,
              unsent r bytes
                  (Kept-Recovered c target r0 asked (some transport_error) k' (λ e. absurd (cc e))),
            )
            | inl out ↦
                let last = (r.framer.exp_seq + asking r) % 2 ^ 64 in
                let (r', h, e, heard, in_time) =
                  listen-Listened c w target deadline bound over r0 n last asked k'
                    (omega (arith, room)) (omega (arith, pos)) in
                settled n r r' h (rw (short, left, sent, out, e, recover_from) refl) heard
                  (λ kept again.
                    let times =
                      subst (InTime c w target deadline bound over r0 asked r') again in_time in
                    recover_from-Recovered n r' kept (omega (arith, room, times.0))
                      (omega (arith, room, times.0, times.1)))
          ]
    ]
  ]

pub recover-Recovered :
    (fuel bound : ℕ) (c : MoldRetransmitRecoverer) (w : World) (r : Run)
    → r.framer.has_session ≡ true
    → session_size ≡ length r.framer.last_session
    → r.framer.exp_seq < 2 ^ 64
    → IsOver w (w.clock r.readings + c.max_recovery_time) bound
    → bound + 1 < fuel
    → (r' : Run) × (e : Option RecoveryError) × (recover fuel c w r ≡ some (r', e))
      × Recovered c r.framer.gap_end r r' e
unfolding recover
recover-Recovered fuel bound c w r has session fits over room =
    let deadline = w.clock r.readings + c.max_recovery_time in
    let started = record r { readings = r.readings + 1; attempts = 0 } in
    let k : Kept c r.framer.gap_end r started = record {
      new = [];
      asked = [];
      delivered = sym (append-nil r.delivered);
      requests = sym (append-nil r.requests);
      seq = omega (arith, fits);
      session = (refl, has);
      attempts = omega arith;
      few = omega arith;
      asks = tt;
    } in
    recover_from-Recovered c w r.framer.gap_end deadline bound over r session fuel started k
      (omega (arith, room)) (omega (arith, room))
