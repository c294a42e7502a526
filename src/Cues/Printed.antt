-- ===== src/Cues/Printed.antt =====
-- scanBodyCues of src/internal/xml/story_cues.go reads back the cues of a text that is put together from plain
-- text and cues.
use open_mos.Prelude.{
  ℕ, suc, ◌+◌, ◌≡◌, refl, ap, ◌∙◌, false, List, [], ◌∷◌, ◌++◌, none, some, length, All, ◌==◌, arith,
}
use open_mos.Text.{Text}
use open_mos.Cues.{scan, closer, until, enclosed}

pub data Piece : Type 0 where
  plain bracketed braced : Text → Piece

-- Plain text opens nothing, and a cue does not hold its closer.
abbrev pub IsPiece : Piece → Type 0
IsPiece (plain t) = All (λ c. closer c ≡ none) t
IsPiece (bracketed raw) = All (λ c. (c == b']') ≡ false) raw
IsPiece (braced raw) = All (λ c. (c == b'}') ≡ false) raw

-- A piece in front of a text.
unfoldable pub print : List Piece → Text
print [] = []
print (plain t ∷ ps) = t ++ print ps
print (bracketed raw ∷ ps) = b'[' ∷ raw ++ (b']' ∷ print ps)
print (braced raw ∷ ps) = b'{' ∷ raw ++ (b'}' ∷ print ps)

-- The cues of the pieces, each with its offset and the byte that opens it.
unfoldable pub cues_in : ℕ → List Piece → List (ℕ × ℕ × Text)
cues_in at [] = []
cues_in at (plain t ∷ ps) = cues_in (at + length t) ps
cues_in at (bracketed raw ∷ ps) = (at, b'[', raw) ∷ cues_in (suc (suc (at + length raw))) ps
cues_in at (braced raw ∷ ps) = (at, b'{', raw) ∷ cues_in (suc (suc (at + length raw))) ps

until-append :
    (k : ℕ) (raw t : Text) → All (λ c. (c == k) ≡ false) raw → until k (raw ++ (k ∷ t)) ≡ some raw
unfolding until
until-append k [] t h = ground arith
until-append k (c ∷ r) t h = rw h.0 (rw (until-append k r t h.1) refl)

scan-plain :
    (at : ℕ) (p t : Text)
    → All (λ c. closer c ≡ none) p
    → scan 0 at (p ++ t) ≡ scan 0 (at + length p) t
unfolding scan enclosed
scan-plain at [] t h = ap (λ n. scan 0 n t) (omega arith)
scan-plain at (c ∷ r) t h =
    rw h.0 (scan-plain (suc at) r t h.1 ∙ ap (λ n. scan 0 n t) (omega arith))

-- The text of a cue and its closer are passed over.
scan-skip :
    (at k : ℕ) (xs t : Text)
    → scan (suc (length xs)) at (xs ++ (k ∷ t)) ≡ scan 0 (suc (at + length xs)) t
unfolding scan
scan-skip at k [] t = ap (λ n. scan 0 n t) (omega arith)
scan-skip at k (c ∷ r) t = scan-skip (suc at) k r t ∙ ap (λ n. scan 0 n t) (omega arith)

scan-found :
    (at c k : ℕ) (raw t : Text)
    → closer c ≡ some k
    → All (λ x. (x == k) ≡ false) raw
    → scan 0 at (c ∷ raw ++ (k ∷ t)) ≡ (at, c, raw) ∷ scan 0 (suc (suc (at + length raw))) t
unfolding scan enclosed
scan-found at c k raw t o h = rw o (
    rw (until-append k raw t h) (
      ap (λ (l : List (ℕ × ℕ × Text)). (at, c, raw) ∷ l)
        (scan-skip (suc at) k raw t ∙ ap (λ n. scan 0 n t) (omega arith))))

-- Reading a text that is put together from plain text and cues gives back the cues in their order, each
-- where it starts and with its text, where no plain text opens a cue and no cue holds its closer.
pub scan-print : (at : ℕ) (ps : List Piece) → All IsPiece ps → scan 0 at (print ps) ≡ cues_in at ps
unfolding print cues_in scan closer
scan-print at [] h = refl
scan-print at (plain t ∷ ps) h = scan-plain at t (print ps) h.0 ∙ scan-print (at + length t) ps h.1
scan-print at (bracketed raw ∷ ps) h =
    scan-found at b'[' b']' raw (print ps) refl h.0
    ∙ ap (λ (l : List (ℕ × ℕ × Text)). (at, b'[', raw) ∷ l)
        (scan-print (suc (suc (at + length raw))) ps h.1)
scan-print at (braced raw ∷ ps) h =
    scan-found at b'{' b'}' raw (print ps) refl h.0
    ∙ ap (λ (l : List (ℕ × ℕ × Text)). (at, b'{', raw) ∷ l)
        (scan-print (suc (suc (at + length raw))) ps h.1)
