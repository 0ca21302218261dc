-- ===== src/Feed/LengthPrefix/Datagram.antt =====
-- The framer for datagrams, which holds nothing back.
use native.Mathlib.Nat.{mod-eq_of_lt}
use fastbook.Prelude.{
  ℕ, zero, suc, ◌%◌, ◌^◌, ◌≤◌, ◌<◌, ◌≡◌, inl, inr, refl, sym, ap, arith, ◌∙◌, List, [], ◌∷◌, none,
  some, true, false, length, length-drop,
}
use fastbook.Feed.LengthPrefix.{Outcome, prepend, malformed, read_messages, feed}
use fastbook.Feed.LengthPrefix.Cases.{
  Partial, front_cases, behind, message, read-messages-Partial, read-messages-TooLong,
  read-messages-Whole, length-behind,
}

-- Bytes that would be held back are an error instead.
abbrev pub strict : Outcome → Outcome
strict ([], ms, e) = ([], ms, e)
strict (b ∷ held, ms, e) = ([], ms, some malformed)

strict-prepend : (ms : List (List ℕ)) (o : Outcome) → strict (prepend ms o) ≡ prepend ms (strict o)
strict-prepend ms ([], later, e) = refl
strict-prepend ms (b ∷ held, later, e) = refl

module _ (max_payload : ℕ) where
  datagram-Partial :
      (n : ℕ) (bytes : List ℕ)
      → length bytes ≤ n
      → length bytes < 2 ^ 32
      → Partial max_payload bytes
      → read_messages max_payload false n bytes ≡ strict (bytes, [], none)
  unfolding read_messages
  datagram-Partial zero [] le fits p = refl
  datagram-Partial zero (b ∷ bytes) le fits p = absurd (omega arith)
  datagram-Partial (suc n) [] le fits p = refl
  datagram-Partial (suc n) (b ∷ bytes) le fits p =
      let rem : length (b ∷ bytes) % 2 ^ 32 ≡ length (b ∷ bytes) = mod-eq_of_lt fits in
      let behind_prefix = length-drop 2 (b ∷ bytes) in
      elim p [ inl short ↦ ground arith | inr (limit, part) ↦ ground arith ]

  datagram-read_messages :
      (n : ℕ) (bytes : List ℕ)
      → length bytes ≤ n
      → length bytes < 2 ^ 32
      → read_messages max_payload false n bytes ≡ strict (read_messages max_payload true n bytes)
  datagram-read_messages zero bytes le fits =
      let p : Partial max_payload bytes = inl (omega arith) in
      datagram-Partial zero bytes le fits p
      ∙ ap strict (sym (read-messages-Partial max_payload zero bytes le fits p))
  datagram-read_messages (suc n) bytes le fits = elim (front_cases max_payload bytes) [
    | inl p ↦
        datagram-Partial (suc n) bytes le fits p
        ∙ ap strict (sym (read-messages-Partial max_payload (suc n) bytes le fits p))
    | inr (inl p) ↦
        read-messages-TooLong max_payload false (suc n) bytes le fits p
        ∙ ap strict (sym (read-messages-TooLong max_payload true (suc n) bytes le fits p))
    | inr (inr p) ↦
        let less = length-behind max_payload bytes in
        let one = message max_payload bytes ∷ [] in
        read-messages-Whole max_payload false n bytes fits p
        ∙ ap (prepend one) (
            datagram-read_messages n (behind max_payload bytes) (omega (arith, less, p.1))
              (omega (arith, less)))
        ∙ sym (strict-prepend one (read_messages max_payload true n (behind max_payload bytes)))
        ∙ ap strict (sym (read-messages-Whole max_payload true n bytes fits p))
  ]

  -- Of a datagram shorter than 2 ^ 32 bytes the framer for datagrams hands over what the framer for
  -- streams does, holds nothing back, and returns an error also where that one holds bytes back.
  pub feed-strict :
      (bytes : List ℕ)
      → length bytes < 2 ^ 32
      → feed max_payload false [] bytes ≡ strict (feed max_payload true [] bytes)
  unfolding feed
  feed-strict bytes fits = datagram-read_messages (length bytes) bytes (omega arith) fits
