-- ===== src/Text/Format.antt =====
-- strconv.FormatInt(n, 10) of a number that is not negative, and that ParseInt reads it back.
use open_mos.Prelude.{
  ℕ, zero, suc, ◌+◌, ◌*◌, ◌/◌, ◌%◌, ◌<◌, ◌≤◌, ◌≡◌, refl, ◌∙◌, [], ◌∷◌, some, ltb, if◌then◌else◌,
  arith, All, Bool-cases, inl, inr, ◌++◌, append-nil, ap,
}
use open_mos.Text.{Text}
use open_mos.Text.Trim.{trim_left, trim_reversed, trim_space}
use mathlib.Core.List.{reverse, reverse_aux}
use open_mos.Text.Number.{pos, digit, digits, unsigned, parse_int}

-- The digits of a number in front of those already written; `fuel` bounds their count.
unfoldable pub digits_before : ℕ → ℕ → Text → Text
digits_before zero n acc = acc
digits_before (suc fuel) n acc =
    let rest = digits_before fuel (n / 10) ((b'0' + n % 10) ∷ acc) in
    if ltb n 10 then (b'0' + n) ∷ acc else rest

-- strconv.FormatInt(n, 10)
unfoldable pub format_int : ℕ → Text
unfolding digits_before
format_int n = digits_before (suc n) n []

abbrev pub IsDigit : ℕ → Type 0
IsDigit c = (b'0' ≤ c) × (c ≤ b'9')

digit_of : (n : ℕ) → n < 10 → digit (b'0' + n) ≡ n
digit_of n h = ground arith

digits_one :
    (m n : ℕ) (acc : Text) → n < 10 → digits 10 m ((b'0' + n) ∷ acc) ≡ digits 10 (m * 10 + n) acc
unfolding digits
digits_one m n acc h = rw (digit_of n h) (ground arith)

digits-digits_before :
    (fuel n : ℕ) (acc : Text) → n < fuel → digits 10 0 (digits_before fuel n acc) ≡ digits 10 n acc
unfolding digits_before
digits-digits_before zero n acc h = ground arith
digits-digits_before (suc fuel) n acc h = elim (Bool-cases (ltb n 10)) [
  | inl q ↦ rw q (digits_one 0 n acc (ground arith) ∙ ap (λ m. digits 10 m acc) (omega arith))
  | inr q ↦ rw q (
      digits-digits_before fuel (n / 10) ((b'0' + n % 10) ∷ acc) (ground arith)
      ∙ digits_one (n / 10) (n % 10) acc (omega arith)
      ∙ ap (λ m. digits 10 m acc) (omega arith))
]

digits_before-IsDigit :
    (fuel n : ℕ) (acc : Text) → All IsDigit acc → All IsDigit (digits_before fuel n acc)
unfolding digits_before
digits_before-IsDigit zero n acc h = h
digits_before-IsDigit (suc fuel) n acc h = elim (Bool-cases (ltb n 10)) [
  | inl q ↦ rw q ((omega arith, ground arith), h)
  | inr q ↦
      rw q (
        digits_before-IsDigit fuel (n / 10) ((b'0' + n % 10) ∷ acc) ((omega arith, omega arith), h))
]

pub format_int-IsDigit : (n : ℕ) → All IsDigit (format_int n)
unfolding format_int
format_int-IsDigit n = digits_before-IsDigit (suc n) n [] tt

pub digits_before-head :
    (fuel n : ℕ) (acc : Text) → n < fuel → (c : ℕ) × (r : Text) × (digits_before fuel n acc ≡ c ∷ r)
unfolding digits_before
digits_before-head zero n acc h = ground arith
digits_before-head (suc fuel) n acc h = elim (Bool-cases (ltb n 10)) [
  | inl q ↦ rw q ((b'0' + n), acc, refl)
  | inr q ↦ rw q (digits_before-head fuel (n / 10) ((b'0' + n % 10) ∷ acc) (ground arith))
]

parse_int-digits :
    (limit n c : ℕ) (r : Text)
    → IsDigit c
    → digits 10 0 (c ∷ r) ≡ some n
    → n < limit
    → parse_int 10 limit (c ∷ r) ≡ some (pos n)
unfolding parse_int unsigned
parse_int-digits limit n c r d h q = ground (arith, d.0, d.1)

parse_int_text :
    (limit n : ℕ) (s : Text)
    → ((c : ℕ) × (r : Text) × (s ≡ c ∷ r))
    → All IsDigit s
    → digits 10 0 s ≡ some n
    → n < limit
    → parse_int 10 limit s ≡ some (pos n)
parse_int_text limit n [] (c, r, q) d e h = ground arith
parse_int_text limit n (c ∷ r) _ d e h = parse_int-digits limit n c r d.0 e h

-- A number that the type holds is read back as it was written.
pub parse_int-format_int :
    (limit n : ℕ) → n < limit → parse_int 10 limit (format_int n) ≡ some (pos n)
unfolding format_int digits
parse_int-format_int limit n h =
    parse_int_text limit n (format_int n) (digits_before-head (suc n) n [] (omega arith))
      (format_int-IsDigit n) (digits-digits_before (suc n) n [] (omega arith)) h

trim_left_digits : (s : Text) → All IsDigit s → trim_left s ≡ s
unfolding trim_left
trim_left_digits [] h = refl
trim_left_digits (a ∷ []) h = ground (arith, h.0)
trim_left_digits (a ∷ b ∷ []) h = ground (arith, h.0)
trim_left_digits (a ∷ b ∷ c ∷ r) h = ground (arith, h.0)

trim_reversed_digits : (s : Text) → All IsDigit s → trim_reversed s ≡ s
unfolding trim_reversed
trim_reversed_digits [] h = refl
trim_reversed_digits (a ∷ []) h = ground (arith, h.0)
trim_reversed_digits (a ∷ b ∷ []) h = ground (arith, h.0)
trim_reversed_digits (a ∷ b ∷ c ∷ r) h = ground (arith, h.0)

All-reverse_aux : (s t : Text) → All IsDigit s → All IsDigit t → All IsDigit (reverse_aux s t)
All-reverse_aux [] t h k = k
All-reverse_aux (c ∷ s) t h k = All-reverse_aux s (c ∷ t) h.1 (h.0, k)

reverse_aux-reverse_aux : (s t u : Text) → reverse_aux (reverse_aux s t) u ≡ reverse_aux t (s ++ u)
reverse_aux-reverse_aux [] t u = refl
reverse_aux-reverse_aux (c ∷ s) t u = reverse_aux-reverse_aux s (c ∷ t) u

pub trim_space_digits : (s : Text) → All IsDigit s → trim_space s ≡ s
unfolding trim_space
trim_space_digits s h =
    rw
      (
        trim_left_digits s h,
        trim_reversed_digits (reverse s) (All-reverse_aux s [] h tt),
        reverse_aux-reverse_aux s [] [],
        append-nil s,
      )
      refl
