-- ===== src/Feed/LengthPrefix/Stream.antt =====
-- A byte stream cut into reads anywhere: what the framer hands over does not depend on the cuts.
use fastbook.Prelude.{
  ℕ, ◌+◌, ◌^◌, ◌≤◌, ◌<◌, ◌≡◌, inl, inr, sym, ap, ap₂, subst, arith, ◌∙◌, List, [], ◌∷◌, ◌++◌,
  append_assoc, append-nil, none, some, Option-cases, true, length, length-append, take, drop, All,
}
use fastbook.Feed.Bytes.{to_big_endian}
use fastbook.Feed.Mold.Packet.{encode_messages, FitsLength}
use fastbook.Feed.Mold.Loop.{Reads_lem}
use fastbook.Feed.LengthPrefix.{Outcome, prepend, feed}
use fastbook.Feed.LengthPrefix.Cases.{read-messages-Partial, Partial, Whole}
use fastbook.Feed.LengthPrefix.Chunks.{frames, frames-Whole, frames-append}
use fastbook.Feed.LengthPrefix.Leftover.{feed-frames}
use fastbook.Feed.LengthPrefix.Bound.{length-Partial, frames-Partial, frames_error}

abbrev pub concat : List (List ℕ) → List ℕ
concat [] = []
concat (c ∷ cs) = c ++ concat cs

module _ (max_payload : ℕ) where
  -- The reads of a connection, one after the other, up to the first error.
  unfoldable pub run : List ℕ → List (List ℕ) → Outcome
  run held [] = (held, [], none)
  run held (c ∷ cs) =
      let now = feed max_payload true held c in
      let later = run now.0 cs in elim now.2 [ some e ↦ now | none ↦ prepend now.1 later ]

  -- With the beginning of a message held back, a limit that a `size_t` can hold with the length in
  -- front, and fewer than 2 ^ 32 bytes in all, a `feed` of any bytes holds back the beginning of a
  -- message again, within the limit and within the buffer, whether it returns an error or not.
  pub feed-Partial :
      (held bytes : List ℕ)
      → Partial max_payload held
      → max_payload + 2 < 2 ^ 64
      → length (held ++ bytes) < 2 ^ 32
      → Partial max_payload (feed max_payload true held bytes).0
        × (length (feed max_payload true held bytes).0 < max_payload + 2)
  feed-Partial held bytes p big fits =
      let same = feed-frames max_payload held bytes p big fits in
      let part =
        (frames-Partial max_payload (length (held ++ bytes)) (held ++ bytes) (omega arith)
          fits).0 in
      let part' = subst (λ (o : Outcome). Partial max_payload o.0) (sym same) part in
      (part', length-Partial max_payload _ part')

  -- The loop on `x`, then `feed` of what comes behind it.
  frames-feed :
      (x b : List ℕ)
      → max_payload + 2 < 2 ^ 64
      → length (x ++ b) < 2 ^ 32
      → (frames max_payload x).2 ≡ none
      → frames max_payload (x ++ b)
        ≡ prepend (frames max_payload x).1 (feed max_payload true (frames max_payload x).0 b)
  frames-feed x b big fits ok =
      let sum = length-append x b in
      let (part, shorter) =
        frames-Partial max_payload (length x) x (omega arith) (omega (arith, sum)) in
      let held = (frames max_payload x).0 in
      frames-append max_payload (length x) x b (omega arith) fits ok
      ∙ ap (prepend (frames max_payload x).1) (
          sym (
            feed-frames max_payload held b part big
              (omega (arith, sum, shorter, length-append held b))))

  length_first : (x y b : List ℕ) → length (x ++ (y ++ b)) < 2 ^ 32 → length (x ++ y) < 2 ^ 32
  length_first x y b fits =
      omega (arith, length-append x (y ++ b), length-append y b, length-append x y)

  -- With the beginning of a message held back, a limit that a `size_t` can hold with the length in
  -- front, and fewer than 2 ^ 32 bytes in all, and if the first of two reads returns no error, a `feed`
  -- of both at once is one of the first and one of the second.
  pub feed-append :
      (held a b : List ℕ)
      → Partial max_payload held
      → max_payload + 2 < 2 ^ 64
      → length (held ++ (a ++ b)) < 2 ^ 32
      → (feed max_payload true held a).2 ≡ none
      → feed max_payload true held (a ++ b)
        ≡ prepend
            (feed max_payload true held a).1
            (feed max_payload true (feed max_payload true held a).0 b)
  feed-append held a b p big fits ok =
      let now = feed-frames max_payload held a p big (length_first held a b fits) in
      let same = append_assoc held a b in
      feed-frames max_payload held (a ++ b) p big fits
      ∙ ap (frames max_payload) (sym same)
      ∙ frames-feed (held ++ a) b big (omega (arith, ap length same, fits))
          (sym (ap (λ (o : Outcome). o.2) now) ∙ ok)
      ∙ sym (ap (λ (o : Outcome). prepend o.1 (feed max_payload true o.0 b)) now)

  -- On any cuts of a stream without an error the framer hands over what it hands over on the whole.
  pub run-frames :
      (held : List ℕ) (cs : List (List ℕ))
      → Partial max_payload held
      → max_payload + 2 < 2 ^ 64
      → length (held ++ concat cs) < 2 ^ 32
      → (frames max_payload (held ++ concat cs)).2 ≡ none
      → run held cs ≡ frames max_payload (held ++ concat cs)
  unfolding run
  run-frames held [] p big fits ok =
      let same = append-nil held in
      sym (
        read-messages-Partial max_payload (length (held ++ [])) (held ++ []) (omega arith) fits
          (subst (Partial max_payload) (sym same) p)
        ∙ ap (λ (l : List ℕ). (l, [], none)) same)
  run-frames held (c ∷ cs) p big fits ok =
      let rest = concat cs in
      let x = held ++ c in
      let now = feed-frames max_payload held c p big (length_first held c rest fits) in
      let same = append_assoc held c rest in
      let fits' : length (x ++ rest) < 2 ^ 32 = omega (arith, ap length same, fits) in
      let sum = length-append x rest in
      elim (Option-cases (feed max_payload true held c).2) [
        | inr (e, bad) ↦ absurd (
            cc (
              ok,
              ap (λ l. (frames max_payload l).2) same,
              frames_error max_payload (length x) x rest e (omega arith) fits'
                  (sym (ap (λ (o : Outcome). o.2) now) ∙ bad),
            ))
        | inl good ↦
            let good' = sym (ap (λ (o : Outcome). o.2) now) ∙ good in
            let (part, shorter) =
              frames-Partial max_payload (length x) x (omega arith) (omega (arith, sum)) in
            let h = (frames max_payload x).0 in
            let whole = frames-append max_payload (length x) x rest (omega arith) fits' good' in
            let later =
              run-frames h cs part big (omega (arith, sum, shorter, length-append h rest)) (
                sym (ap (λ (o : Outcome). o.2) whole)
                ∙ ap (λ l. (frames max_payload l).2) same
                ∙ ok) in
            ap
              (λ r. elim r [
                | some e ↦ feed max_payload true held c
                | none ↦
                    prepend (feed max_payload true held c).1
                      (run (feed max_payload true held c).0 cs)
              ])
              good
            ∙ ap (λ (o : Outcome). prepend o.1 (run o.0 cs)) now
            ∙ ap (prepend (frames max_payload x).1) later
            ∙ sym whole
            ∙ ap (frames max_payload) same
      ]

  abbrev pub FitsLimit : List ℕ → Type 0
  FitsLimit m = (length m ≤ max_payload) × FitsLength m

  frames-encode :
      (ms : List (List ℕ))
      → All FitsLimit ms
      → length (encode_messages ms []) < 2 ^ 32
      → frames max_payload (encode_messages ms []) ≡ ([], ms, none)
  frames-encode [] h fits =
      read-messages-Partial max_payload 0 [] (omega arith) (omega arith) (inl (omega arith))
  frames-encode (m ∷ ms) h fits =
      let (limit, fits_length) = h.0 in
      let tail = encode_messages ms [] in
      let all = to_big_endian 2 (length m) ++ (m ++ tail) in
      let reads = Reads_lem m tail fits_length in
      let body : drop 2 all ≡ m ++ tail = reads.body in
      let is_whole : Whole max_payload all =
        (omega (arith, reads.prefix), omega (arith, reads.prefix, reads.size)) in
      frames-Whole max_payload all fits is_whole
      ∙ ap (λ n. prepend (take n (drop 2 all) ∷ []) (frames max_payload (drop n (drop 2 all))))
          reads.prefix
      ∙ ap (λ l. prepend (take (length m) l ∷ []) (frames max_payload (drop (length m) l))) body
      ∙ ap₂ (λ l r. prepend (l ∷ []) (frames max_payload r)) reads.message reads.later
      ∙ ap (prepend (m ∷ [])) (frames-encode ms h.1 (omega (arith, reads.size)))

  -- If each message is within the limit and its length fits in two bytes, the limit with the length in
  -- front is a `size_t`, and the stream is shorter than 2 ^ 32 bytes, then, however it is cut into reads, the framer hands over the messages, in order, each once, without an
  -- error, and holds nothing back at the end.
  pub run-encode :
      (ms cs : List (List ℕ))
      → All FitsLimit ms
      → max_payload + 2 < 2 ^ 64
      → length (concat cs) < 2 ^ 32
      → concat cs ≡ encode_messages ms []
      → run [] cs ≡ ([], ms, none)
  run-encode ms cs h big fits e =
      let all = ap (frames max_payload) e ∙ frames-encode ms h (omega (arith, ap length e, fits)) in
      run-frames [] cs (inl (omega arith)) big fits (ap (λ (o : Outcome). o.2) all) ∙ all
