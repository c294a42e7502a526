-- ===== src/Text.antt =====
-- Go strings as the bytes that they hold, with the parts of packages strings and strconv that
-- the program calls: equality, `<`, TrimSpace and Atoi.
use Prim.Native.Char.{code}
pub mod Order
pub mod Trim
pub mod Number
pub mod Format
use open_mos.Prelude.{
  ℕ, zero, suc, ◌+◌, ◌-◌, ◌*◌, ◌^◌, String, ◌≡◌, refl, Bool, true, false, ◌&&◌, ◌||◌, List, [], ◌∷◌,
  ◌++◌, Option, none, some, ltb, leb, ◌==◌, if◌then◌else◌,
}

abbrev pub Text : Type 0
Text = List ℕ

-- An ASCII literal of the source.
abbrev pub text : String → Text
text String.[] = []
text (String.◌∷◌ c s) = code c ∷ text s

-- a == b
unfoldable pub same : Text → Text → Bool
same [] [] = true
same (x ∷ xs) (y ∷ ys) = x == y && same xs ys
same _ _ = false

-- a < b, byte by byte
unfoldable pub before : Text → Text → Bool
before [] [] = false
before [] (y ∷ ys) = true
before (x ∷ xs) [] = false
before (x ∷ xs) (y ∷ ys) = if x == y then before xs ys else ltb x y

unfoldable pub is_empty : Text → Bool
is_empty [] = true
is_empty (_ ∷ _) = false

-- set[k], for a Go set filled from a list
unfoldable pub is_one_of : List Text → Text → Bool
is_one_of [] k = false
is_one_of (j ∷ js) k = if same j k then true else is_one_of js k
