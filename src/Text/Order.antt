-- ===== src/Text/Order.antt =====
-- `same` decides equality of texts, and `before` is a strict total order on them.
use open_mos.Prelude.{◌≡◌, ◌↔◌, refl, true, false, [], ◌∷◌, arith}
use open_mos.Text.{Text, same, before}

pub same_sound : (a b : Text) → same a b ≡ true → a ≡ b
unfolding same
same_sound [] [] h = refl
same_sound [] (y ∷ ys) h = ground arith
same_sound (x ∷ xs) [] h = ground arith
same_sound (x ∷ xs) (y ∷ ys) h = ground (arith, same_sound xs ys)

pub same_refl : (a : Text) → same a a ≡ true
unfolding same
same_refl [] = refl
same_refl (x ∷ xs) = ground (arith, same_refl xs)

pub same_iff : (a b : Text) → (same a b ≡ true) ↔ (a ≡ b)
same_iff a b = (same_sound a b, λ e. ground (arith, same_refl a))

pub before_irrefl : (a : Text) → before a a ≡ false
unfolding before
before_irrefl [] = refl
before_irrefl (x ∷ xs) = ground (arith, before_irrefl xs)

pub before_asymm : (a b : Text) → before a b ≡ true → before b a ≡ false
unfolding before
before_asymm [] [] h = refl
before_asymm [] (y ∷ ys) h = refl
before_asymm (x ∷ xs) [] h = ground arith
before_asymm (x ∷ xs) (y ∷ ys) h = ground (arith, before_asymm xs ys)

pub before_trans : (a b c : Text) → before a b ≡ true → before b c ≡ true → before a c ≡ true
unfolding before
before_trans [] [] c h k = k
before_trans [] (y ∷ ys) [] h k = ground arith
before_trans [] (y ∷ ys) (z ∷ zs) h k = refl
before_trans (x ∷ xs) [] c h k = ground arith
before_trans (x ∷ xs) (y ∷ ys) [] h k = ground arith
before_trans (x ∷ xs) (y ∷ ys) (z ∷ zs) h k = ground (arith, before_trans xs ys zs)

pub before_total : (a b : Text) → before a b ≡ false → before b a ≡ false → a ≡ b
unfolding before
before_total [] [] h k = refl
before_total [] (y ∷ ys) h k = ground arith
before_total (x ∷ xs) [] h k = ground arith
before_total (x ∷ xs) (y ∷ ys) h k = ground (arith, before_total xs ys)
