-- ===== src/Text/Trim.antt =====
-- strings.TrimSpace on valid UTF-8: the bytes of unicode.IsSpace's code points are cut from both
-- ends. U+0085 and U+00A0 take two bytes, the others outside ASCII take three.
use mathlib.Core.List.{reverse}
use open_mos.Prelude.{ℕ, Bool, ◌&&◌, ◌||◌, [], ◌∷◌, leb, ◌==◌, if◌then◌else◌}
use open_mos.Text.{Text}

-- Tab, line feed, vertical tab, form feed, carriage return and the space.
abbrev is_ascii_space : ℕ → Bool
is_ascii_space c = leb 9 c && leb c 13 || c == 32

-- U+0085 and U+00A0
abbrev is_space_2 : ℕ → ℕ → Bool
is_space_2 a b = a == 0xC2 && (b == 0x85 || b == 0xA0)

-- U+1680, U+2000 to U+200A, U+2028, U+2029, U+202F, U+205F and U+3000
abbrev is_space_3 : ℕ → ℕ → ℕ → Bool
is_space_3 a b c =
    a == 0xE1 && (b == 0x9A && c == 0x80)
    || a == 0xE2
      && (b == 0x80 && (leb 0x80 c && leb c 0x8A || c == 0xA8 || c == 0xA9 || c == 0xAF)
          || b == 0x81 && c == 0x9F)
    || a == 0xE3 && (b == 0x80 && c == 0x80)

-- Cuts the spaces in front.
unfoldable pub trim_left : Text → Text
trim_left [] = []
trim_left (a ∷ []) = if is_ascii_space a then [] else a ∷ []
trim_left (a ∷ b ∷ []) =
    let one = trim_left (b ∷ []) in
    if is_ascii_space a then one else if is_space_2 a b then [] else a ∷ b ∷ []
trim_left (a ∷ b ∷ c ∷ r) =
    let one = trim_left (b ∷ c ∷ r) in
    let two = trim_left (c ∷ r) in
    let three = trim_left r in
    if is_ascii_space a
    then one
    else if is_space_2 a b
    then two
    else if is_space_3 a b c
    then three
    else a ∷ b ∷ c ∷ r

-- The same on the reversed text: the bytes of a code point stand last byte first.
unfoldable pub trim_reversed : Text → Text
trim_reversed [] = []
trim_reversed (a ∷ []) = if is_ascii_space a then [] else a ∷ []
trim_reversed (a ∷ b ∷ []) =
    let one = trim_reversed (b ∷ []) in
    if is_ascii_space a then one else if is_space_2 b a then [] else a ∷ b ∷ []
trim_reversed (a ∷ b ∷ c ∷ r) =
    let one = trim_reversed (b ∷ c ∷ r) in
    let two = trim_reversed (c ∷ r) in
    let three = trim_reversed r in
    if is_ascii_space a
    then one
    else if is_space_2 b a
    then two
    else if is_space_3 c b a
    then three
    else a ∷ b ∷ c ∷ r

-- strings.TrimSpace(s)
unfoldable pub trim_space : Text → Text
unfolding trim_left trim_reversed
trim_space s = reverse (trim_reversed (reverse (trim_left s)))
