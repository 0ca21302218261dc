-- ===== src/Feed/LengthPrefix/Cases.antt =====
-- The loop by the three cases of the bytes in front of it: part of a message, a length beyond the
-- limit, a whole message.
use native.Mathlib.Nat.{mod-eq_of_lt}
use native.Mathlib.Decide.{dec_le}
use fastbook.Prelude.{
  ℕ, zero, suc, ◌+◌, ◌-◌, ◌%◌, ◌^◌, ◌≤◌, ◌<◌, ◌≡◌, ◌⊎◌, inl, inr, refl, ap, arith, ◌∙◌, List, [],
  ◌∷◌, none, some, Bool, true, length, take, drop, length-drop, take-all,
}
use fastbook.Feed.LengthPrefix.{prefix, prepend, malformed, read_messages}

module _ (max_payload : ℕ) where
  -- The beginning of a message, its length within the limit, but not all of it.
  abbrev pub Partial : List ℕ → Type 0
  Partial bytes =
      (length bytes < 2) ⊎ ((prefix bytes ≤ max_payload) × (length bytes < 2 + prefix bytes))

  abbrev pub TooLong : List ℕ → Type 0
  TooLong bytes = (2 ≤ length bytes) × (max_payload < prefix bytes)

  abbrev pub Whole : List ℕ → Type 0
  Whole bytes = (prefix bytes ≤ max_payload) × (2 + prefix bytes ≤ length bytes)

  pub front_cases : (bytes : List ℕ) → Partial bytes ⊎ (TooLong bytes ⊎ Whole bytes)
  front_cases bytes = elim (dec_le 2 (length bytes)) [
    | no short ↦ inl (inl (omega arith))
    | yes two ↦ elim (dec_le (prefix bytes) max_payload) [
      | no long ↦ inr (inl (two, omega arith))
      | yes fits ↦ elim (dec_le (2 + prefix bytes) (length bytes)) [
        | yes whole ↦ inr (inr (fits, whole))
        | no part ↦ inl (inr (fits, omega arith))
      ]
    ]
  ]

  pub read-messages-Partial :
      (n : ℕ) (bytes : List ℕ)
      → length bytes ≤ n
      → length bytes < 2 ^ 32
      → Partial bytes
      → read_messages max_payload true n bytes ≡ (bytes, [], none)
  unfolding read_messages
  read-messages-Partial zero [] le fits p = refl
  read-messages-Partial zero (b ∷ bytes) le fits p = absurd (omega arith)
  read-messages-Partial (suc n) bytes le fits p =
      let rem : length bytes % 2 ^ 32 ≡ length bytes = mod-eq_of_lt fits in
      let all : take (length bytes % 2 ^ 32) bytes ≡ bytes =
        take-all _ bytes (omega (arith, rem)) in
      let behind_prefix = length-drop 2 bytes in
      elim p [ inl short ↦ ground arith | inr (limit, part) ↦ ground arith ]

  pub read-messages-TooLong :
      (straddle : Bool) (n : ℕ) (bytes : List ℕ)
      → length bytes ≤ n
      → length bytes < 2 ^ 32
      → TooLong bytes
      → read_messages max_payload straddle n bytes ≡ ([], [], some malformed)
  unfolding read_messages
  read-messages-TooLong straddle zero bytes le fits p = absurd (omega arith)
  read-messages-TooLong straddle (suc n) bytes le fits p =
      let rem : length bytes % 2 ^ 32 ≡ length bytes = mod-eq_of_lt fits in
      let (two, long) = p in ground arith

  abbrev pub behind : List ℕ → List ℕ
  behind bytes = drop (prefix bytes) (drop 2 bytes)

  abbrev pub message : List ℕ → List ℕ
  message bytes = take (prefix bytes) (drop 2 bytes)

  pub read-messages-Whole :
      (straddle : Bool) (n : ℕ) (bytes : List ℕ)
      → length bytes < 2 ^ 32
      → Whole bytes
      → read_messages max_payload straddle (suc n) bytes
        ≡ prepend (message bytes ∷ []) (read_messages max_payload straddle n (behind bytes))
  unfolding read_messages
  read-messages-Whole straddle n bytes fits p =
      let rem : length bytes % 2 ^ 32 ≡ length bytes = mod-eq_of_lt fits in
      let behind_prefix = length-drop 2 bytes in let (limit, whole) = p in ground arith

  pub length-behind : (bytes : List ℕ) → length (behind bytes) ≡ length bytes - 2 - prefix bytes
  length-behind bytes =
      length-drop (prefix bytes) (drop 2 bytes) ∙ ap (λ l. l - prefix bytes) (length-drop 2 bytes)
