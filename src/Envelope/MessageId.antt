-- ===== src/Envelope/MessageId.antt =====
-- src/internal/xml/envelope_validate.go: what is minted is what the specification allows.
use open_mos.Prelude.{
  ℕ, ◌+◌, ◌-◌, ◌%◌, ◌≤◌, ◌≡◌, refl, Bool, [], ◌∷◌, some, arith, ltb, if◌then◌else◌, All, Bool-cases,
  inl, inr,
}
use open_mos.Text.{Text}
use open_mos.Text.Number.{ℤ, pos, negsuc}
use open_mos.Text.Format.{format_int, parse_int-format_int, format_int-IsDigit, IsDigit}
use open_mos.MessageId.{Sequence, max_id, next_value, next_id}
use open_mos.MessageId.Durable.{IsReserved, next_value_lem}
use open_mos.Envelope.{parse_message_id, message_id_base, format_message_id}

message_id_base_digits : (s : Text) → All IsDigit s → message_id_base s ≡ (s, 10)
unfolding message_id_base
message_id_base_digits [] h = refl
message_id_base_digits (a ∷ []) h = ground (arith, h.0)
message_id_base_digits (a ∷ b ∷ r) h = ground (arith, h.0, h.1.0)

-- What strconv.FormatInt prints for a number from 1 to the limit is that messageID.
pub parse_message_id-format_int :
    (n : ℕ) → 1 ≤ n → n ≤ max_id → parse_message_id (format_int n) ≡ some n
unfolding parse_message_id
parse_message_id-format_int n h r =
    rw
      (
        message_id_base_digits (format_int n) (format_int-IsDigit n),
        parse_int-format_int 2147483648 n (omega (arith, r)),
      )
      (ground (arith, h))

-- The number that FormatMessageID prints for a counter.
abbrev pub wrapped_id : ℤ → ℕ
wrapped_id (negsuc _) = 1
wrapped_id (pos n) = if ltb n 1 then 1 else if ltb max_id n then (n - 1) % max_id + 1 else n

format_message_id_printed : (n : ℤ) → format_message_id n ≡ format_int (wrapped_id n)
unfolding format_message_id
format_message_id_printed (negsuc m) = refl
format_message_id_printed (pos n) = elim (Bool-cases (ltb n 1)) [
  | inl q ↦ rw q refl
  | inr q ↦ rw q refl
]

wrapped_id_ranged : (n : ℤ) → (1 ≤ wrapped_id n) × (wrapped_id n ≤ max_id)
wrapped_id_ranged (negsuc m) = (omega arith, omega arith)
wrapped_id_ranged (pos n) = (ground arith, ground arith)

-- FormatMessageID prints a valid messageID for every counter: a number from 1 to 2147483647, which
-- ParseMessageID reads back, and which is the counter itself where it is in that range.
pub parse_message_id-format_message_id :
    (n : ℤ)
    → (parse_message_id (format_message_id n) ≡ some (wrapped_id n))
      × (1 ≤ wrapped_id n)
      × (wrapped_id n ≤ max_id)
parse_message_id-format_message_id n =
    let r = wrapped_id_ranged n in
    (
      rw (format_message_id_printed n) (parse_message_id-format_int (wrapped_id n) r.0 r.1),
      r.0,
      r.1,
    )

-- Every identifier that Next hands out passes the outbound rule: it is read back as the value, which
-- is from 1 to 2147483647.
pub parse_message_id-next_id :
    (is_written : Bool) (s : Sequence)
    → IsReserved s
    → parse_message_id (next_id is_written s).0 ≡ some (next_value is_written s).0
unfolding next_id
parse_message_id-next_id is_written s h =
    let v = next_value_lem is_written s h in
    parse_message_id-format_int (next_value is_written s).0 v.1 v.2
