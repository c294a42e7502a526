-- ===== src/Text/Number.antt =====
-- Signed numbers as strconv.Atoi and strconv.ParseInt read them: an optional sign and digits, in the
-- range of the type.
use open_mos.Prelude.{
  ℕ, zero, suc, ◌+◌, ◌-◌, ◌*◌, ◌^◌, Bool, true, false, ◌&&◌, [], ◌∷◌, Option, none, some, leb, ltb,
  ◌==◌, if◌then◌else◌,
}
use open_mos.Text.{Text}

-- `negsuc n` is -(n + 1).
pub data ℤ : Type 0 where
  pos : ℕ → ℤ
  negsuc : ℕ → ℤ

-- The value of a digit, letters included; 255 where there is none.
abbrev pub digit : ℕ → ℕ
digit c =
    if leb b'0' c && leb c b'9'
    then c - b'0'
    else if leb b'a' c && leb c b'z'
    then c - b'a' + 10
    else if leb b'A' c && leb c b'Z'
    then c - b'A' + 10
    else 255

-- The digits of a number in the base, after the value read so far.
unfoldable pub digits : ℕ → ℕ → Text → Option ℕ
digits base n [] = some n
digits base n (c ∷ r) =
    let rest = digits base (n * base + digit c) r in if ltb (digit c) base then rest else none

unfoldable pub unsigned : ℕ → Text → Option ℕ
unfolding digits
unsigned base [] = none
unsigned base (c ∷ r) = digits base 0 (c ∷ r)

-- The sign applied, for a type of which `limit` is one more than its greatest value.
abbrev signed : ℕ → Bool → Option ℕ → Option ℤ
signed limit neg none = none
signed limit true (some zero) = some (pos 0)
signed limit true (some (suc n)) = if ltb n limit then some (negsuc n) else none
signed limit false (some n) = if ltb n limit then some (pos n) else none

-- strconv.ParseInt(s, base, bits), with `limit` as 2 ^ (bits - 1)
unfoldable pub parse_int : ℕ → ℕ → Text → Option ℤ
unfolding unsigned
parse_int base limit [] = none
parse_int base limit (c ∷ r) =
    if c == b'-'
    then signed limit true (unsigned base r)
    else if c == b'+'
    then signed limit false (unsigned base r)
    else signed limit false (unsigned base (c ∷ r))

-- strconv.Atoi(s): a nil error is `some`
unfoldable pub atoi : Text → Option ℤ
unfolding parse_int
atoi s = parse_int 10 (2 ^ 63) s
