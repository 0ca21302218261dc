-- ===== src/Feed/Recover.antt =====
-- src/feed/retransmit_recoverer.hpp and the errors of src/feed/recovery.hpp: the requests for a gap.
-- The socket and the clock are outside: `World` says what each of their calls answers, in the order of
-- the calls. Times are numbers of one unit, and a deadline does not overflow.
pub mod Round
pub mod Kept
pub mod Listen
pub mod Loops
mod Tests
use fastbook.Prelude.{
  ℕ, zero, suc, ◌+◌, ◌-◌, ◌%◌, ◌^◌, min, List, [], ◌∷◌, ◌++◌, Option, none, some, Bool, true, false,
  leb, ltb, ◌==◌, length, if◌then◌else◌,
}
use fastbook.Feed.Bytes.{BufWriter}
use fastbook.Feed.Mold.{
  Framer, SequencedError, malformed, gap, end_of_session_reached, session_changed, header_size,
  Header, write_header, feed,
}

pub data RecoveryError : Type 0 where
  retries_exhausted timeout transport_error other_session session_ended unsupported : RecoveryError

-- What `transp_.next()` returns; `failed` is every status but `WouldBlock`.
pub data Reply : Type 0 where
  datagram : List ℕ → Reply
  would_block failed : Reply

pub record World : Type 0 where
  pub clock : ℕ → ℕ
  pub reply : ℕ → Reply
  pub sends : ℕ → Bool

pub record MoldRetransmitRecoverer : Type 0 where
  pub max_attempts : ℕ
  pub max_per_request : ℕ
  pub max_recovery_time : ℕ

-- The framer, what its sink has received, the requests sent, and how often the clock and the socket
-- were read.
pub record Run : Type 0 where
  pub framer : Framer
  pub delivered : List (List ℕ)
  pub requests : List (List ℕ)
  pub readings : ℕ
  pub replies : ℕ
  pub attempts : ℕ

-- `none` is a failed assertion of the writer.
pub send_request : World → Run → ℕ → ℕ → Option (Run × Bool)
send_request w r seq count =
    elim (write_header (record { out = []; room = header_size })
      (record { session = r.framer.last_session; seq_num = seq; msg_count = count })) [
        | none ↦ none
        | some b ↦
            some (record r { requests = r.requests ++ (b.out ∷ []) }, w.sends (length r.requests))
      ]

-- How the inner loop is left: by a return, or by `break`, to ask again.
pub data Heard : Type 0 where
  filled ask_again : Heard
  broken : RecoveryError → Heard

-- After `feed` of a reply; `none` goes on listening.
pub judge : ℕ → ℕ → ℕ → Run → Option SequencedError → Run × Option Heard
judge target last prev_exp r (some gap) = (r, some ask_again)
judge target last prev_exp r (some malformed) = (r, none)
judge target last prev_exp r (some session_changed) = (r, some (broken other_session))
judge target last prev_exp r (some end_of_session_reached) = (r, some (broken session_ended))
judge target last prev_exp r none =
    let r' = if ltb prev_exp r.framer.exp_seq then record r { attempts = 0 } else r in
    if leb target r.framer.exp_seq
    then (r, some filled)
    else if leb last r.framer.exp_seq
    then (r', some ask_again)
    else (r', none)

pub on_reply : ℕ → ℕ → Run → Reply → Run × Option Heard
unfolding judge
on_reply target last r would_block = (r, some ask_again)
on_reply target last r failed = (r, some (broken transport_error))
on_reply target last r (datagram bytes) =
    let (framer, out, error) = feed r.framer bytes in
    judge target last r.framer.exp_seq
      (record r { framer = framer; delivered = r.delivered ++ out }) error

-- One round of `while (true)`.
pub listen_once : World → ℕ → ℕ → ℕ → Run → Run × Option Heard
unfolding on_reply
listen_once w target deadline last r =
    let read = record r { readings = r.readings + 1 } in
    if leb deadline (w.clock r.readings)
    then (read, some (broken timeout))
    else on_reply target last (record read { replies = r.replies + 1 }) (w.reply r.replies)

pub listen : ℕ → World → ℕ → ℕ → ℕ → Run → Option (Run × Heard)
unfolding listen_once
listen zero w target deadline last r = none
listen (suc n) w target deadline last r =
    let (r', left) = listen_once w target deadline last r in
    elim left [ some heard ↦ some (r', heard) | none ↦ listen n w target deadline last r' ]

-- `static_cast<uint16_t>(std::min<uint64_t>(target - first, max_per_request_))`
abbrev pub request_count : MoldRetransmitRecoverer → ℕ → ℕ → ℕ
request_count c target first = min (target - first) c.max_per_request % 2 ^ 16

-- The outer loop, with fuel; `none` in the result is the code's `{}`.
pub recover_from :
    ℕ → MoldRetransmitRecoverer → World → ℕ → ℕ → Run → Option (Run × Option RecoveryError)
unfolding send_request listen
recover_from zero c w target deadline r = none
recover_from (suc n) c w target deadline r =
    let first = r.framer.exp_seq in
    let count = request_count c target first in
    elim (leb target first) [
      | true ↦ some (r, none)
      | false ↦ elim (r.attempts == c.max_attempts) [
        | true ↦ some (r, some retries_exhausted)
        | false ↦ elim (send_request w r first count) [
          | none ↦ none
          | some (r', sent) ↦ elim sent [
            | false ↦ some (r', some transport_error)
            | true ↦
                elim (listen n w target deadline ((first + count) % 2 ^ 64)
                  (record r' { attempts = r.attempts + 1 })) [
                    | none ↦ none
                    | some (r'', heard) ↦ elim heard [
                      | filled ↦ some (r'', none)
                      | broken e ↦ some (r'', some e)
                      | ask_again ↦ recover_from n c w target deadline r''
                    ]
                  ]
          ]
        ]
      ]
    ]

pub recover : ℕ → MoldRetransmitRecoverer → World → Run → Option (Run × Option RecoveryError)
unfolding recover_from
recover fuel c w r =
    recover_from fuel c w r.framer.gap_end (w.clock r.readings + c.max_recovery_time)
      (record r { readings = r.readings + 1; attempts = 0 })
