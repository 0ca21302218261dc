-- ===== src/Feed/LengthPrefix/Bound.antt =====
-- What the loop holds back: always the beginning of one message that the limit lets in.
use fastbook.Prelude.{
  ℕ, zero, suc, ◌+◌, ◌^◌, ◌≤◌, ◌<◌, ◌≡◌, inl, inr, sym, ap, subst, arith, ◌∙◌, List, [], ◌∷◌, ◌++◌,
  some, true, length, length-append,
}
use fastbook.Feed.LengthPrefix.{Outcome, prepend, StreamError, read_messages}
use fastbook.Feed.LengthPrefix.Cases.{
  Partial, front_cases, behind, message, read-messages-Partial, read-messages-TooLong,
  length-behind,
}
use fastbook.Feed.LengthPrefix.Chunks.{
  frames, frames-Whole, TooLong-append, Whole-append, behind-append,
}

module _ (max_payload : ℕ) where
  -- The bytes held back fit in the buffer with the length in front.
  pub length-Partial : (held : List ℕ) → Partial max_payload held → length held < max_payload + 2
  length-Partial held (inl short) = omega arith
  length-Partial held (inr (limit, part)) = omega arith

  pub frames-Partial :
      (n : ℕ) (bytes : List ℕ)
      → length bytes ≤ n
      → length bytes < 2 ^ 32
      → Partial max_payload (frames max_payload bytes).0
        × (length (frames max_payload bytes).0 ≤ length bytes)
  unfolding read_messages
  frames-Partial zero [] le fits = (inl (omega arith), omega arith)
  frames-Partial zero (b ∷ bytes) le fits = absurd (omega arith)
  frames-Partial (suc n) bytes le fits = elim (front_cases max_payload bytes) [
    | inl p ↦
        let held : (frames max_payload bytes).0 ≡ bytes =
          ap (λ (o : Outcome). o.0)
            (read-messages-Partial max_payload (length bytes) bytes (omega arith) fits p) in
        (subst (Partial max_payload) (sym held) p, omega (arith, ap length held))
    | inr (inl p) ↦
        let held : (frames max_payload bytes).0 ≡ [] =
          ap (λ (o : Outcome). o.0)
            (read-messages-TooLong max_payload true (length bytes) bytes (omega arith) fits p) in
        (subst (Partial max_payload) (sym held) (inl (omega arith)), omega (arith, ap length held))
    | inr (inr p) ↦
        let held : (frames max_payload bytes).0
            ≡ (frames max_payload (behind max_payload bytes)).0 =
          ap (λ (o : Outcome). o.0) (frames-Whole max_payload bytes fits p) in
        let less = length-behind max_payload bytes in
        let (part, shorter) =
          frames-Partial n (behind max_payload bytes) (omega (arith, less, p.1))
            (omega (arith, less)) in
        (subst (Partial max_payload) (sym held) part, omega (arith, ap length held, shorter, less))
  ]

  -- A length beyond the limit stays one, whatever is read behind it.
  pub frames_error :
      (n : ℕ) (a b : List ℕ) (e : StreamError)
      → length a ≤ n
      → length (a ++ b) < 2 ^ 32
      → (frames max_payload a).2 ≡ some e
      → (frames max_payload (a ++ b)).2 ≡ some e
  frames_error zero a b e le fits bad = absurd (
      cc (
        bad,
        read-messages-Partial max_payload (length a) a (omega arith)
            (omega (arith, length-append a b)) (inl (omega arith)),
      ))
  frames_error (suc n) a b e le fits bad =
      let sum = length-append a b in
      elim (front_cases max_payload a) [
        | inl p ↦ absurd (
            cc (
              bad,
              read-messages-Partial max_payload (length a) a (omega arith) (omega (arith, sum)) p,
            ))
        | inr (inl p) ↦
            ap (λ (o : Outcome). o.2)
              (read-messages-TooLong max_payload true (length (a ++ b)) (a ++ b) (omega arith) fits
                  (TooLong-append max_payload a b p)
                ∙ sym (
                    read-messages-TooLong max_payload true (length a) a (omega arith)
                      (omega (arith, sum)) p))
            ∙ bad
        | inr (inr p) ↦
            let less = length-behind max_payload a in
            let one = frames-Whole max_payload a (omega (arith, sum)) p in
            let later =
              frames_error n (behind max_payload a) b e (omega (arith, less, p.1))
                (omega (arith, less, sum, length-append (behind max_payload a) b))
                (sym (ap (λ (o : Outcome). o.2) one) ∙ bad) in
            ap (λ (o : Outcome). o.2)
              (frames-Whole max_payload (a ++ b) fits (Whole-append max_payload a b p)
                ∙ ap (λ rest. prepend (message max_payload (a ++ b) ∷ []) (frames max_payload rest))
                    (behind-append max_payload a b p))
            ∙ later
      ]
