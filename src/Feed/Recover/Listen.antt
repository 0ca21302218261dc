-- ===== src/Feed/Recover/Listen.antt =====
-- The inner loop of `recover`: it ends once the time is up.
use native.Mathlib.Decide.{dec_le}
use fastbook.Prelude.{
  ℕ, zero, suc, ◌+◌, ◌^◌, ◌≤◌, ◌<◌, ◌≡◌, refl, sym, ap, subst, arith, ◌∙◌, Option, none, some,
}
use fastbook.Feed.Recover.{
  World, MoldRetransmitRecoverer, Run, Heard, filled, ask_again, broken, listen_once, listen,
}
use fastbook.Feed.Recover.Round.{Open, Rounded, listen_once-Rounded}
use fastbook.Feed.Recover.Kept.{Kept, After, AfterHeard, round-After}

-- From the `bound`-th reading on the clock shows the deadline or a later time.
abbrev pub IsOver : World → ℕ → ℕ → Type 0
IsOver w deadline bound = (i : ℕ) → bound ≤ i → deadline ≤ w.clock i

module _ (c : MoldRetransmitRecoverer) (w : World) (target deadline bound : ℕ)
    (over : IsOver w deadline bound) (r0 : Run) where
  abbrev pub InTime : Run → Run → Heard → Type 0
  InTime r r' filled = Unit
  InTime r r' (broken e) = Unit
  InTime r r' ask_again = (r.readings < r'.readings) × (r'.readings ≤ bound)

  abbrev pub Listened : ℕ → ℕ → Run → Type 0
  Listened n last r =
      (r' : Run) × (h : Heard) × (listen n w target deadline last r ≡ some (r', h))
      × AfterHeard c target r0 r' h
      × InTime r r' h

  -- A round after which the loop goes on read the clock before it was over.
  soon :
      (r r' : Run) (left : Option Heard)
      → Rounded w target deadline r r' left
      → Open left
      → r.readings < bound
  soon r r' left d open_left = elim (dec_le bound r.readings) [
    | yes late ↦ absurd (omega (arith, over r.readings late, d.in_time open_left))
    | no early ↦ omega (arith, early)
  ]

  -- What the rounds before it found holds after one more.
  listened :
      (n last : ℕ) (r r' : Run) (left : Option Heard)
      → listen_once w target deadline last r ≡ (r', left)
      → After c target r0 r' left
      → Rounded w target deadline r r' left
      → (left ≡ none → Listened n last r')
      → Listened (suc n) last r
  unfolding listen
  listened n last r r' none once after d later =
      let (r'', h, e, heard, in_time) = later refl in
      (
        r'',
        h,
        ap
              (λ (p : Run × Option Heard). elim p.1 [
                | some heard ↦ some (p.0, heard)
                | none ↦ listen n w target deadline last p.0
              ])
              once
            ∙ e,
        heard,
        sooner h in_time,
      )
    where
      sooner : (h : Heard) → InTime r' (later refl).0 h → InTime r (later refl).0 h
      sooner filled t = tt
      sooner (broken e) t = tt
      sooner ask_again t = omega (arith, t.0, t.1, d.readings)
  listened n last r r' (some h) once after d later = (
    r',
    h,
    ap
        (λ (p : Run × Option Heard). elim p.1 [
          | some heard ↦ some (p.0, heard)
          | none ↦ listen n w target deadline last p.0
        ])
        once,
    after,
    first h d,
  )
    where
      first : (h : Heard) → Rounded w target deadline r r' (some h) → InTime r r' h
      first filled t = tt
      first (broken e) t = tt
      first ask_again t = omega (arith, t.readings, soon r r' (some ask_again) t tt)

  pub listen-Listened :
      (n last : ℕ) (r : Run)
      → Kept c target r0 r
      → bound < r.readings + n
      → 0 < n
      → Listened n last r
  listen-Listened zero last r k room pos = absurd (omega arith)
  listen-Listened (suc n) last r k room pos =
      let fits : r.framer.exp_seq < 2 ^ 64 = omega (arith, k.seq) in
      let d = listen_once-Rounded w target deadline last r k.session.1 fits in
      let r' = (listen_once w target deadline last r).0 in
      let left = (listen_once w target deadline last r).1 in
      let after = round-After c target w deadline r0 r r' left k d in
      listened n last r r' left refl after d λ goes_on.
        let early = soon r r' left d (subst Open (sym goes_on) tt) in
        listen-Listened n last r' (subst (After c target r0 r') goes_on after)
          (omega (arith, room, d.readings)) (omega (arith, room, early))
