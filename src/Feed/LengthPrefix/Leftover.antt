-- ===== src/Feed/LengthPrefix/Leftover.antt =====
-- `feed` with bytes held back: the same as the loop on the bytes held and the new ones together.
use native.Mathlib.Nat.{mod-eq_of_lt, add-mod_right}
use fastbook.Prelude.{
  ℕ, ◌+◌, ◌-◌, ◌%◌, ◌^◌, ◌≤◌, ◌<◌, ◌≡◌, inl, inr, refl, sym, ap, ap₂, arith, ◌∙◌, List, [], ◌∷◌,
  ◌++◌, none, some, true, length, length-append, length-take, take, drop, take-all,
  take-append_right, drop-append_right, drop-drop, drop-take, ltb, lt→ltb, le→not-ltb,
  if◌then◌else◌,
}
use fastbook.Feed.LengthPrefix.{
  prefix, Outcome, prepend, malformed, read_messages, Continued, complete, waiting, too_long,
  continue_message, handle_leftover_bytes, feed,
}
use fastbook.Feed.LengthPrefix.Cases.{
  Partial, front_cases, read-messages-Partial, read-messages-TooLong,
}
use fastbook.Feed.LengthPrefix.Chunks.{frames, frames-Whole, prefix-append}

module _ (max_payload : ℕ) where
  abbrev after : Continued → Outcome
  after too_long = ([], [], some malformed)
  after (waiting held) = (held, [], none)
  after (complete m rest) = prepend (m ∷ []) (frames max_payload rest)

  needed_lem : (p l : ℕ) → l ≤ 2 + p → 2 + p < 2 ^ 64 → (2 + p + 2 ^ 64 - l) % 2 ^ 64 ≡ 2 + p - l
  needed_lem p l le fits =
      let shift : 2 + p + 2 ^ 64 - l ≡ (2 + p - l) + 2 ^ 64 = omega arith in
      ap (λ i. i % 2 ^ 64) shift ∙ add-mod_right (2 + p - l) (2 ^ 64) ∙ mod-eq_of_lt (omega arith)

  -- The message is the one in front of the bytes held and the new ones together.
  whole_message :
      (held bytes : List ℕ) (p : ℕ)
      → length held ≤ 2 + p
      → take p (drop 2 (held ++ take (2 + p - length held) bytes)) ≡ take p (drop 2 (held ++ bytes))
  whole_message held bytes p le =
      ap (λ l. take p (drop 2 l)) (sym (take-append_right held bytes (2 + p) le))
      ∙ ap (take p) (drop-take 2 (2 + p) (held ++ bytes))
      ∙ ap (λ n. take p (take n (drop 2 (held ++ bytes)))) (omega arith)
      ∙ take-all p (take p (drop 2 (held ++ bytes)))
          (omega (arith, length-take p (drop 2 (held ++ bytes))))

  whole_behind :
      (held bytes : List ℕ) (p : ℕ)
      → length held ≤ 2 + p
      → drop (2 + p - length held) bytes ≡ drop p (drop 2 (held ++ bytes))
  whole_behind held bytes p le =
      sym (drop-append_right held bytes (2 + p) le) ∙ sym (drop-drop p 2 (held ++ bytes))

  continue_waiting :
      (held bytes : List ℕ)
      → prefix held ≤ max_payload
      → length held ≤ 2 + prefix held
      → 2 + prefix held < 2 ^ 64
      → length held + length bytes < 2 + prefix held
      → continue_message max_payload held bytes ≡ waiting (held ++ bytes)
  unfolding continue_message
  continue_waiting held bytes limit le big part =
      let needed = needed_lem (prefix held) (length held) le big in ground arith

  continue_complete :
      (held bytes : List ℕ)
      → prefix held ≤ max_payload
      → length held ≤ 2 + prefix held
      → 2 + prefix held < 2 ^ 64
      → 2 + prefix held ≤ length held + length bytes
      → continue_message max_payload held bytes
        ≡ complete
            (take (prefix held) (drop 2 (held ++ bytes)))
            (drop (prefix held) (drop 2 (held ++ bytes)))
  unfolding continue_message
  continue_complete held bytes limit le big whole =
      let needed = needed_lem (prefix held) (length held) le big in
      let step : continue_message max_payload held bytes
          ≡ complete
              (take (prefix held) (drop 2 (held ++ take (2 + prefix held - length held) bytes)))
              (drop (2 + prefix held - length held) bytes) =
        ground arith in
      step
      ∙ ap₂ complete (whole_message held bytes (prefix held) le)
          (whole_behind held bytes (prefix held) le)

  continue_too_long :
      (held bytes : List ℕ)
      → max_payload < prefix held
      → continue_message max_payload held bytes ≡ too_long
  unfolding continue_message
  continue_too_long held bytes long = ground arith

  continue-frames :
      (held bytes : List ℕ)
      → 2 ≤ length held
      → length held ≤ 2 + prefix held
      → max_payload + 2 < 2 ^ 64
      → length (held ++ bytes) < 2 ^ 32
      → after (continue_message max_payload held bytes) ≡ frames max_payload (held ++ bytes)
  continue-frames held bytes two le big fits =
      let same = prefix-append max_payload held bytes two in
      let sum = length-append held bytes in
      elim (front_cases max_payload (held ++ bytes)) [
        | inl (inl short) ↦ absurd (omega arith)
        | inl (inr (limit, part)) ↦
            ap after (
              continue_waiting held bytes (omega (arith, same)) le (omega (arith, same))
                (omega (arith, same, sum)))
            ∙ sym (
                read-messages-Partial max_payload (length (held ++ bytes)) (held ++ bytes)
                  (omega arith) fits (inr (limit, part)))
        | inr (inl p) ↦
            ap after (continue_too_long held bytes (omega (arith, same, p.1)))
            ∙ sym (
                read-messages-TooLong max_payload true (length (held ++ bytes)) (held ++ bytes)
                  (omega arith) fits p)
        | inr (inr p) ↦
            ap after (
              continue_complete held bytes (omega (arith, same, p.0)) le (omega (arith, same, p.0))
                (omega (arith, same, sum, p.1)))
            ∙ ap
                (λ n.
                  prepend (take n (drop 2 (held ++ bytes)) ∷ [])
                    (frames max_payload (drop n (drop 2 (held ++ bytes)))))
                (sym same)
            ∙ sym (frames-Whole max_payload (held ++ bytes) fits p)
      ]

  part_le :
      (held : List ℕ) → 2 ≤ length held → Partial max_payload held → length held ≤ 2 + prefix held
  part_le held two (inl short) = absurd (omega arith)
  part_le held two (inr (limit, part)) = omega arith

  leftover_long :
      (held bytes : List ℕ)
      → 2 ≤ length held
      → handle_leftover_bytes max_payload held bytes ≡ continue_message max_payload held bytes
  unfolding handle_leftover_bytes
  leftover_long held [] two =
      ap (λ b. if b then waiting held else continue_message max_payload held [])
        (le→not-ltb (length held) 2 two)
  leftover_long held (b ∷ bytes) two =
      ap
        (λ c.
          if c
          then continue_message max_payload (held ++ (b ∷ [])) bytes
          else continue_message max_payload held (b ∷ bytes))
        (le→not-ltb (length held) 2 two)

  handle-leftover-frames :
      (held bytes : List ℕ)
      → 0 < length held
      → Partial max_payload held
      → max_payload + 2 < 2 ^ 64
      → length (held ++ bytes) < 2 ^ 32
      → after (handle_leftover_bytes max_payload held bytes) ≡ frames max_payload (held ++ bytes)
  unfolding handle_leftover_bytes
  handle-leftover-frames [] bytes some_held p big fits = absurd (omega arith)
  handle-leftover-frames (x ∷ []) [] some_held p big fits =
      sym (
        read-messages-Partial max_payload 1 (x ∷ []) (omega arith) (omega arith)
          (inl (omega arith)))
  handle-leftover-frames (x ∷ []) (b ∷ bytes) some_held p big fits =
      continue-frames (x ∷ b ∷ []) bytes (omega arith) (omega arith) big fits
  handle-leftover-frames (x ∷ y ∷ held) bytes some_held p big fits =
      ap after (leftover_long (x ∷ y ∷ held) bytes (omega arith))
      ∙ continue-frames (x ∷ y ∷ held) bytes (omega arith) (part_le (x ∷ y ∷ held) (omega arith) p)
          big fits

  feed_held :
      (held bytes : List ℕ)
      → 0 < length held
      → feed max_payload true held bytes ≡ after (handle_leftover_bytes max_payload held bytes)
  unfolding feed
  feed_held held bytes some_held =
      let test : ltb 0 (length held) ≡ true = lt→ltb 0 (length held) some_held in
      ap
        (λ b.
          if b
          then (elim (handle_leftover_bytes max_payload held bytes) [
            | too_long ↦ ([], [], some malformed)
            | waiting held' ↦ (held', [], none)
            | complete m rest ↦ prepend (m ∷ []) (read_messages max_payload true (length rest) rest)
          ])
          else read_messages max_payload true (length bytes) bytes)
        test

  -- With the beginning of a message held back, `feed` does what the loop does on the bytes held and the
  -- new ones together.
  pub feed-frames :
      (held bytes : List ℕ)
      → Partial max_payload held
      → max_payload + 2 < 2 ^ 64
      → length (held ++ bytes) < 2 ^ 32
      → feed max_payload true held bytes ≡ frames max_payload (held ++ bytes)
  unfolding feed
  feed-frames [] bytes p big fits = refl
  feed-frames (x ∷ held) bytes p big fits =
      feed_held (x ∷ held) bytes (omega arith)
      ∙ handle-leftover-frames (x ∷ held) bytes (omega arith) p big fits
