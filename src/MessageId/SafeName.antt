-- ===== src/MessageId/SafeName.antt =====
-- src/internal/messageid/sequence.go: the counter file stays in its directory.
use open_mos.Prelude.{ℕ, ◌≡◌, refl, false, [], ◌∷◌, ◌++◌, map, All, arith}
use open_mos.Text.{Text, text}
use open_mos.MessageId.{is_unsafe, safe_byte, safe_name}

abbrev pub IsSafe : ℕ → Type 0
IsSafe c = is_unsafe c ≡ false

safe_byte-IsSafe : (c : ℕ) → IsSafe (safe_byte c)
unfolding safe_byte is_unsafe
safe_byte-IsSafe c = ground arith

IsSafe-bytes : (s t : Text) → All IsSafe t → All IsSafe (map safe_byte s ++ t)
IsSafe-bytes [] t h = h
IsSafe-bytes (c ∷ s) t h = (safe_byte-IsSafe c, IsSafe-bytes s t h)

-- The name of the counter file holds no path separator and no other character that the replacer
-- names, whatever the mosID is.
pub safe_name-IsSafe : (owner : Text) → All IsSafe (safe_name owner)
unfolding safe_name is_unsafe
safe_name-IsSafe owner =
    IsSafe-bytes _ (text ".messageid")
      (refl, (refl, (refl, (refl, (refl, (refl, (refl, (refl, (refl, (refl, tt))))))))))
