-- ===== src/Prelude/Lists.antt =====
-- Lists measured by native numbers, and membership and predicates by recursion on the list.
use Prim.Native.Nat.{ℕ, zero, suc}
use mathlib.Core.Path.{◌≡◌, refl}
use mathlib.Core.Logic.{◌⊎◌, inl, inr}
use mathlib.Core.Bool.{Bool, true, false}
use mathlib.Core.List.{List, [], ◌∷◌, ◌++◌}
use open_mos.Prelude.Tests.{Bool-cases, if◌then◌else◌}

module _ {ℓ} {A : Type ℓ} where
  abbrev pub length : List A → ℕ
  length [] = 0
  length (x ∷ xs) = suc (length xs)

  abbrev pub take : ℕ → List A → List A
  take zero xs = []
  take (suc n) [] = []
  take (suc n) (x ∷ xs) = x ∷ take n xs

  abbrev pub drop : ℕ → List A → List A
  drop zero xs = xs
  drop (suc n) [] = []
  drop (suc n) (x ∷ xs) = drop n xs

  -- The elements that pass the test, in order.
  abbrev pub keep : (A → Bool) → List A → List A
  keep p [] = []
  keep p (x ∷ xs) = if p x then x ∷ keep p xs else keep p xs

  abbrev pub All {κ} : (A → Type κ) → List A → Type κ
  All P [] = Unit
  All P (x ∷ xs) = P x × All P xs

module _ {A : Type 0} where
  abbrev pub In : A → List A → Type 0
  In x [] = ⊥
  In x (y ∷ ys) = (x ≡ y) ⊎ In x ys

  pub In-append_cases : (x : A) (xs ys : List A) → In x (xs ++ ys) → In x xs ⊎ In x ys
  In-append_cases x [] ys h = inr h
  In-append_cases x (y ∷ xs) ys (inl e) = inl (inl e)
  In-append_cases x (y ∷ xs) ys (inr h) = elim (In-append_cases x xs ys h) [
    | inl a ↦ inl (inr a)
    | inr b ↦ inr b
  ]

  pub In-append_left : (x : A) (xs ys : List A) → In x xs → In x (xs ++ ys)
  In-append_left x [] ys h = elim h [ ]
  In-append_left x (y ∷ xs) ys (inl e) = inl e
  In-append_left x (y ∷ xs) ys (inr h) = inr (In-append_left x xs ys h)

  pub In-append_right : (x : A) (xs ys : List A) → In x ys → In x (xs ++ ys)
  In-append_right x [] ys h = h
  In-append_right x (y ∷ xs) ys h = inr (In-append_right x xs ys h)

  In-keep_head :
      (p : A → Bool) (x y : A) (xs : List A)
      → p y ≡ true
      → (x ≡ y) ⊎ In x (keep p xs)
      → (In x (keep p xs) → In x xs × (p x ≡ true))
      → ((x ≡ y) ⊎ In x xs) × (p x ≡ true)
  In-keep_head p x y xs t (inl e) ih = (inl e, rw e t)
  In-keep_head p x y xs t (inr h) ih = (inr (ih h).0, (ih h).1)

  pub In-keep : (p : A → Bool) (x : A) (xs : List A) → In x (keep p xs) → In x xs × (p x ≡ true)
  In-keep p x [] h = elim h [ ]
  In-keep p x (y ∷ xs) h = elim (Bool-cases (p y)) [
    | inl t ↦ In-keep_head p x y xs t (rw t at h) (In-keep p x xs)
    | inr f ↦ let r : In x xs × (p x ≡ true) = In-keep p x xs (rw f at h) in (inr r.0, r.1)
  ]

  pub keep-In : (p : A → Bool) (x : A) (xs : List A) → In x xs → p x ≡ true → In x (keep p xs)
  keep-In p x [] h t = elim h [ ]
  keep-In p x (y ∷ xs) (inl e) t = rw (rw e at t) (inl e)
  keep-In p x (y ∷ xs) (inr h) t = elim (Bool-cases (p y)) [
    | inl q ↦ rw q (inr (keep-In p x xs h t))
    | inr q ↦ rw q (keep-In p x xs h t)
  ]

  pub All-In {κ} : (P : A → Type κ) (x : A) (xs : List A) → All P xs → In x xs → P x
  All-In P x [] h i = elim i [ ]
  All-In P x (y ∷ xs) h (inl e) = rw e h.0
  All-In P x (y ∷ xs) h (inr i) = All-In P x xs h.1 i

  pub All-of_In {κ} : (P : A → Type κ) (xs : List A) → ((x : A) → In x xs → P x) → All P xs
  All-of_In P [] h = tt
  All-of_In P (y ∷ xs) h = (h y (inl refl), All-of_In P xs (λ x i. h x (inr i)))

  pub In-take : (n : ℕ) (x : A) (xs : List A) → In x (take n xs) → In x xs
  In-take zero x xs i = elim i [ ]
  In-take (suc n) x [] i = elim i [ ]
  In-take (suc n) x (y ∷ ys) (inl e) = inl e
  In-take (suc n) x (y ∷ ys) (inr i) = inr (In-take n x ys i)

  pub In-drop : (n : ℕ) (x : A) (xs : List A) → In x (drop n xs) → In x xs
  In-drop zero x xs i = i
  In-drop (suc n) x [] i = elim i [ ]
  In-drop (suc n) x (y ∷ ys) i = inr (In-drop n x ys i)

  pub In-take-drop : (n : ℕ) (x : A) (xs : List A) → In x xs → In x (take n xs) ⊎ In x (drop n xs)
  In-take-drop zero x xs i = inr i
  In-take-drop (suc n) x [] i = elim i [ ]
  In-take-drop (suc n) x (y ∷ ys) (inl e) = inl (inl e)
  In-take-drop (suc n) x (y ∷ ys) (inr i) = elim (In-take-drop n x ys i) [
    | inl a ↦ inl (inr a)
    | inr b ↦ inr b
  ]

module _ {ℓ} {A : Type ℓ} where
  pub take-append-drop : (n : ℕ) (xs : List A) → take n xs ++ drop n xs ≡ xs
  take-append-drop zero xs = refl
  take-append-drop (suc n) [] = refl
  take-append-drop (suc n) (x ∷ xs) = rw (take-append-drop n xs)

  pub keep-append : (p : A → Bool) (xs ys : List A) → keep p (xs ++ ys) ≡ keep p xs ++ keep p ys
  keep-append p [] ys = refl
  keep-append p (x ∷ xs) ys = elim (Bool-cases (p x)) [
    | inl q ↦ rw (q, keep-append p xs ys)
    | inr q ↦ rw (q, keep-append p xs ys)
  ]

  pub All-keep : (p : A → Bool) (xs : List A) → All (λ x. p x ≡ true) (keep p xs)
  All-keep p [] = tt
  All-keep p (x ∷ xs) = elim (Bool-cases (p x)) [
    | inl q ↦ rw q (q, All-keep p xs)
    | inr q ↦ rw q (All-keep p xs)
  ]

  pub keep_every : (p : A → Bool) (xs : List A) → All (λ x. p x ≡ true) xs → keep p xs ≡ xs
  keep_every p [] h = refl
  keep_every p (x ∷ xs) h = rw (h.0, keep_every p xs h.1)

  pub keep_no : (p : A → Bool) (xs : List A) → All (λ x. p x ≡ false) xs → keep p xs ≡ []
  keep_no p [] h = refl
  keep_no p (x ∷ xs) h = rw h.0 (keep_no p xs h.1)

  pub All-mono {κ μ} :
      (P : A → Type κ) (Q : A → Type μ) (xs : List A) → ((x : A) → P x → Q x) → All P xs → All Q xs
  All-mono P Q [] f h = tt
  All-mono P Q (x ∷ xs) f h = (f x h.0, All-mono P Q xs f h.1)

  pub All-drop {κ} : (P : A → Type κ) (n : ℕ) (xs : List A) → All P xs → All P (drop n xs)
  All-drop P zero xs h = h
  All-drop P (suc n) [] h = tt
  All-drop P (suc n) (x ∷ xs) h = All-drop P n xs h.1

  pub All-take {κ} : (P : A → Type κ) (n : ℕ) (xs : List A) → All P xs → All P (take n xs)
  All-take P zero xs h = tt
  All-take P (suc n) [] h = tt
  All-take P (suc n) (x ∷ xs) h = (h.0, All-take P n xs h.1)
