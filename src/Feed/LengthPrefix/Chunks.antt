-- ===== src/Feed/LengthPrefix/Chunks.antt =====
-- Reading on after a read that ended inside a message: the stream may be cut anywhere.
use fastbook.Prelude.{
  ℕ, zero, suc, ◌^◌, ◌≤◌, ◌<◌, ◌≡◌, inl, inr, refl, sym, ap, ap₂, arith, ◌∙◌, List, [], ◌∷◌, ◌++◌,
  none, true, length, length-append, take, drop, length-drop, take-append_left, drop-append_left,
}
use fastbook.Feed.Bytes.{from_big_endian}
use fastbook.Feed.LengthPrefix.{prefix, Outcome, prepend, read_messages}
use fastbook.Feed.LengthPrefix.Cases.{
  TooLong, Whole, front_cases, behind, message, read-messages-Partial, read-messages-TooLong,
  read-messages-Whole, length-behind,
}

module _ (max_payload : ℕ) where
  -- With enough rounds their number does not matter.
  pub read-messages_rounds :
      (n m : ℕ) (bytes : List ℕ)
      → length bytes ≤ n
      → length bytes ≤ m
      → length bytes < 2 ^ 32
      → read_messages max_payload true n bytes ≡ read_messages max_payload true m bytes
  read-messages_rounds zero m bytes le le' fits =
      read-messages-Partial max_payload zero bytes le fits (inl (omega arith))
      ∙ sym (read-messages-Partial max_payload m bytes le' fits (inl (omega arith)))
  read-messages_rounds (suc n) zero bytes le le' fits =
      read-messages-Partial max_payload (suc n) bytes le fits (inl (omega arith))
      ∙ sym (read-messages-Partial max_payload zero bytes le' fits (inl (omega arith)))
  read-messages_rounds (suc n) (suc m) bytes le le' fits = elim (front_cases max_payload bytes) [
    | inl p ↦
        read-messages-Partial max_payload (suc n) bytes le fits p
        ∙ sym (read-messages-Partial max_payload (suc m) bytes le' fits p)
    | inr (inl p) ↦
        read-messages-TooLong max_payload true (suc n) bytes le fits p
        ∙ sym (read-messages-TooLong max_payload true (suc m) bytes le' fits p)
    | inr (inr p) ↦
        let less = length-behind max_payload bytes in
        read-messages-Whole max_payload true n bytes fits p
        ∙ ap (prepend (message max_payload bytes ∷ [])) (
            read-messages_rounds n m (behind max_payload bytes) (omega (arith, p.1, less))
              (omega (arith, p.1, less)) (omega (arith, less)))
        ∙ sym (read-messages-Whole max_payload true m bytes fits p)
  ]

  -- The loop with as many rounds as there are bytes.
  abbrev pub frames : List ℕ → Outcome
  frames bytes = read_messages max_payload true (length bytes) bytes

  pub frames-Whole :
      (bytes : List ℕ)
      → length bytes < 2 ^ 32
      → Whole max_payload bytes
      → frames bytes ≡ prepend (message max_payload bytes ∷ []) (frames (behind max_payload bytes))
  frames-Whole bytes fits p =
      let less = length-behind max_payload bytes in
      read-messages_rounds (length bytes) (suc (length bytes)) bytes (omega arith) (omega arith)
        fits
      ∙ read-messages-Whole max_payload true (length bytes) bytes fits p
      ∙ ap (prepend (message max_payload bytes ∷ [])) (
          read-messages_rounds (length bytes) _ (behind max_payload bytes) (omega (arith, less))
            (omega arith) (omega (arith, less)))

  pub prefix-append : (a b : List ℕ) → 2 ≤ length a → prefix (a ++ b) ≡ prefix a
  prefix-append a b two = ap from_big_endian (take-append_left a b 2 two)

  pub Whole-append : (a b : List ℕ) → Whole max_payload a → Whole max_payload (a ++ b)
  Whole-append a b (limit, whole) =
      let same = prefix-append a b (omega arith) in
      (omega (arith, same), omega (arith, same, length-append a b))

  pub TooLong-append : (a b : List ℕ) → TooLong max_payload a → TooLong max_payload (a ++ b)
  TooLong-append a b (two, long) =
      (omega (arith, length-append a b), omega (arith, prefix-append a b two))

  length_rest : (a : List ℕ) → Whole max_payload a → prefix a ≤ length (drop 2 a)
  length_rest a (limit, whole) = omega (arith, length-drop 2 a)

  pub message-append :
      (a b : List ℕ) → Whole max_payload a → message max_payload (a ++ b) ≡ message max_payload a
  message-append a b p =
      ap (λ n. take n (drop 2 (a ++ b))) (prefix-append a b (omega (arith, p.1)))
      ∙ ap (take (prefix a)) (drop-append_left a b 2 (omega (arith, p.1)))
      ∙ take-append_left (drop 2 a) b (prefix a) (length_rest a p)

  pub behind-append :
      (a b : List ℕ) → Whole max_payload a → behind max_payload (a ++ b) ≡ behind max_payload a ++ b
  behind-append a b p =
      ap (λ n. drop n (drop 2 (a ++ b))) (prefix-append a b (omega (arith, p.1)))
      ∙ ap (drop (prefix a)) (drop-append_left a b 2 (omega (arith, p.1)))
      ∙ drop-append_left (drop 2 a) b (prefix a) (length_rest a p)

  -- Bytes read in two parts: the second part is read behind what the first held back.
  pub frames-append :
      (n : ℕ) (a b : List ℕ)
      → length a ≤ n
      → length (a ++ b) < 2 ^ 32
      → (frames a).2 ≡ none
      → frames (a ++ b) ≡ prepend (frames a).1 (frames ((frames a).0 ++ b))
  unfolding read_messages
  frames-append zero [] b le fits ok = refl
  frames-append zero (x ∷ a) b le fits ok = absurd (omega arith)
  frames-append (suc n) a b le fits ok =
      let both = length-append a b in
      elim (front_cases max_payload a) [
        | inl p ↦
            let all =
              read-messages-Partial max_payload (length a) a (omega arith) (omega (arith, both))
                p in
            sym (ap (λ (o : Outcome). prepend o.1 (frames (o.0 ++ b))) all)
        | inr (inl p) ↦ absurd (
            cc (
              ok,
              read-messages-TooLong max_payload true (length a) a (omega arith)
                  (omega (arith, both)) p,
            ))
        | inr (inr p) ↦
            let one = frames-Whole a (omega (arith, both)) p in
            let less = length-behind max_payload a in
            let later =
              frames-append n (behind max_payload a) b (omega (arith, less, p.1))
                (omega (arith, less, both, length-append (behind max_payload a) b))
                (sym (ap (λ (o : Outcome). o.2) one) ∙ ok) in
            frames-Whole (a ++ b) fits (Whole-append a b p)
            ∙ ap₂ (λ m rest. prepend (m ∷ []) (frames rest)) (message-append a b p)
                (behind-append a b p)
            ∙ ap (prepend (message max_payload a ∷ [])) later
            ∙ sym (ap (λ (o : Outcome). prepend o.1 (frames (o.0 ++ b))) one)
      ]
