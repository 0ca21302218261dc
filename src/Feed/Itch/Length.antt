-- ===== src/Feed/Itch/Length.antt =====
-- How long a message must be, by its type byte, and what the parser does with a shorter one.
use fastbook.Prelude.{
  ℕ, ◌<◌, ◌≡◌, refl, List, [], ◌∷◌, Option, none, some, arith, length, if◌then◌else◌, ◌==◌,
  Bool-cases, inl, inr, ◌↔◌,
}
use fastbook.Feed.Bytes.{◌>>=◌, read_num, from_big_endian}
use fastbook.Feed.Bytes.RoundTrip.{bind-some}
use fastbook.Feed.Bytes.Consumes.{
  Leaves, Consumes, bind-Consumes, pure-Consumes, take_n-Consumes, read_num-Consumes,
  read_timestamp-Consumes,
}
use fastbook.Feed.Itch.Message.{ItchMessage}
use fastbook.Feed.Itch.{
  parse_body, parse_msg, parse_add_order_msg, parse_add_order_mpid_msg, parse_order_executed_msg,
  parse_order_executed_price_msg, parse_order_cancel_msg, parse_order_delete_msg,
  parse_order_replace_msg,
}

-- The bytes behind the type byte, from the ITCH 5.0 tables; nothing is read of other messages.
abbrev pub body_size : ℕ → ℕ
body_size t =
    if t == b'A'
    then 35
    else if t == b'F'
    then 39
    else if t == b'E'
    then 30
    else if t == b'C'
    then 35
    else if t == b'X'
    then 22
    else if t == b'D'
    then 18
    else if t == b'U'
    then 34
    else 0

add_order-Consumes : Consumes 35 parse_add_order_msg
unfolding parse_add_order_msg
add_order-Consumes = bind-Consumes 2 33 _ _ (read_num-Consumes 2) λ _.
    bind-Consumes 2 31 _ _ (read_num-Consumes 2) λ _.
      bind-Consumes 6 25 _ _ read_timestamp-Consumes λ _.
        bind-Consumes 8 17 _ _ (read_num-Consumes 8) λ _.
          bind-Consumes 1 16 _ _ (read_num-Consumes 1) λ _.
            bind-Consumes 4 12 _ _ (read_num-Consumes 4) λ _.
              bind-Consumes 8 4 _ _ (take_n-Consumes 8)
                λ _. bind-Consumes 4 0 _ _ (read_num-Consumes 4) λ _ buf. omega arith

add_order_mpid-Consumes : Consumes 39 parse_add_order_mpid_msg
unfolding parse_add_order_mpid_msg
add_order_mpid-Consumes = bind-Consumes 2 37 _ _ (read_num-Consumes 2) λ _.
    bind-Consumes 2 35 _ _ (read_num-Consumes 2) λ _.
      bind-Consumes 6 29 _ _ read_timestamp-Consumes λ _.
        bind-Consumes 8 21 _ _ (read_num-Consumes 8) λ _.
          bind-Consumes 1 20 _ _ (read_num-Consumes 1) λ _.
            bind-Consumes 4 16 _ _ (read_num-Consumes 4) λ _.
              bind-Consumes 8 8 _ _ (take_n-Consumes 8) λ _.
                bind-Consumes 4 4 _ _ (read_num-Consumes 4)
                  λ _. bind-Consumes 4 0 _ _ (take_n-Consumes 4) λ _ buf. omega arith

order_executed-Consumes : Consumes 30 parse_order_executed_msg
unfolding parse_order_executed_msg
order_executed-Consumes = bind-Consumes 2 28 _ _ (read_num-Consumes 2) λ _.
    bind-Consumes 2 26 _ _ (read_num-Consumes 2) λ _.
      bind-Consumes 6 20 _ _ read_timestamp-Consumes λ _.
        bind-Consumes 8 12 _ _ (read_num-Consumes 8) λ _.
          bind-Consumes 4 8 _ _ (read_num-Consumes 4)
            λ _. bind-Consumes 8 0 _ _ (read_num-Consumes 8) λ _ buf. omega arith

order_executed_price-Consumes : Consumes 35 parse_order_executed_price_msg
unfolding parse_order_executed_price_msg
order_executed_price-Consumes = bind-Consumes 2 33 _ _ (read_num-Consumes 2) λ _.
    bind-Consumes 2 31 _ _ (read_num-Consumes 2) λ _.
      bind-Consumes 6 25 _ _ read_timestamp-Consumes λ _.
        bind-Consumes 8 17 _ _ (read_num-Consumes 8) λ _.
          bind-Consumes 4 13 _ _ (read_num-Consumes 4) λ _.
            bind-Consumes 8 5 _ _ (read_num-Consumes 8) λ _.
              bind-Consumes 1 4 _ _ (read_num-Consumes 1)
                λ _. bind-Consumes 4 0 _ _ (read_num-Consumes 4) λ _ buf. omega arith

order_cancel-Consumes : Consumes 22 parse_order_cancel_msg
unfolding parse_order_cancel_msg
order_cancel-Consumes = bind-Consumes 2 20 _ _ (read_num-Consumes 2) λ _.
    bind-Consumes 2 18 _ _ (read_num-Consumes 2) λ _.
      bind-Consumes 6 12 _ _ read_timestamp-Consumes λ _.
        bind-Consumes 8 4 _ _ (read_num-Consumes 8)
          λ _. bind-Consumes 4 0 _ _ (read_num-Consumes 4) λ _ buf. omega arith

order_delete-Consumes : Consumes 18 parse_order_delete_msg
unfolding parse_order_delete_msg
order_delete-Consumes = bind-Consumes 2 16 _ _ (read_num-Consumes 2) λ _.
    bind-Consumes 2 14 _ _ (read_num-Consumes 2) λ _.
      bind-Consumes 6 8 _ _ read_timestamp-Consumes
        λ _. bind-Consumes 8 0 _ _ (read_num-Consumes 8) λ _ buf. omega arith

order_replace-Consumes : Consumes 34 parse_order_replace_msg
unfolding parse_order_replace_msg
order_replace-Consumes = bind-Consumes 2 32 _ _ (read_num-Consumes 2) λ _.
    bind-Consumes 2 30 _ _ (read_num-Consumes 2) λ _.
      bind-Consumes 6 24 _ _ read_timestamp-Consumes λ _.
        bind-Consumes 8 16 _ _ (read_num-Consumes 8) λ _.
          bind-Consumes 8 8 _ _ (read_num-Consumes 8) λ _.
            bind-Consumes 4 4 _ _ (read_num-Consumes 4)
              λ _. bind-Consumes 4 0 _ _ (read_num-Consumes 4) λ _ buf. omega arith

body-Consumes : (t : ℕ) → Consumes (body_size t) (parse_body t)
unfolding parse_body
body-Consumes t = elim (Bool-cases (t == b'A')) [
  | inl e ↦ rw e add_order-Consumes
  | inr e ↦ rw e (elim (Bool-cases (t == b'F')) [
    | inl e ↦ rw e add_order_mpid-Consumes
    | inr e ↦ rw e (elim (Bool-cases (t == b'E')) [
      | inl e ↦ rw e order_executed-Consumes
      | inr e ↦ rw e (elim (Bool-cases (t == b'C')) [
        | inl e ↦ rw e order_executed_price-Consumes
        | inr e ↦ rw e (elim (Bool-cases (t == b'X')) [
          | inl e ↦ rw e order_cancel-Consumes
          | inr e ↦ rw e (elim (Bool-cases (t == b'D')) [
            | inl e ↦ rw e order_delete-Consumes
            | inr e ↦ rw e (elim (Bool-cases (t == b'U')) [
              | inl e ↦ rw e order_replace-Consumes
              | inr e ↦ rw e (pure-Consumes ItchMessage.unknown)
            ])
          ])
        ])
      ])
    ])
  ])
]

read_type : (t : ℕ) (body : List ℕ) → read_num 1 (t ∷ body) ≡ some (t, body)
unfolding read_num from_big_endian
read_type t body = ground arith

Leaves-none_iff :
    (n l : ℕ) (r : Option (ItchMessage × List ℕ)) → Leaves n l r → (r ≡ none) ↔ (l < n)
Leaves-none_iff n l none h = (λ _. h, λ _. refl)
Leaves-none_iff n l (some r) h = (λ e. cc, λ e. absurd (omega arith))

-- `parse_msg` does not check the length of a message: it fails an assertion, or reads past the end of the
-- span, as `read_timestamp` does without an assertion, exactly on the empty message and on one shorter
-- than the layout of its type.
pub parse_msg-none_iff :
    (t : ℕ) (body : List ℕ)
    → (parse_msg [] ≡ none) × ((parse_msg (t ∷ body) ≡ none) ↔ (length body < body_size t))
unfolding parse_msg read_num ◌>>=◌
parse_msg-none_iff t body = (
  refl,
  rw (bind-some (read_num 1) (t ∷ body) body t parse_body (read_type t body))
      (Leaves-none_iff _ _ _ (body-Consumes t body)),
)
