-- ===== src/Table/Distinct.antt =====
-- Lists with distinct identifiers, under append, selection and exchange of places.
use open_mos.Prelude.{
  ℕ, zero, suc, refl, ◌≢◌, inl, inr, Bool, List, [], ◌∷◌, ◌++◌, In, Bool-cases, All-In, All-of_In,
  In-append_cases, take, drop, keep, In-keep, In-take, In-drop,
}
use open_mos.Text.{Text}
use open_mos.Table.Sorted.{AreDistinct}

module _ {A : Type 0} (order : A → ℕ) (ident : A → Text) where
  pub AreDistinct-keep :
      (test : A → Bool) (xs : List A)
      → AreDistinct order ident xs
      → AreDistinct order ident (keep test xs)
  AreDistinct-keep test [] d = tt
  AreDistinct-keep test (x ∷ xs) d = elim (Bool-cases (test x)) [
    | inl q ↦ rw q (
      All-of_In (λ y. ident x ≢ ident y) (keep test xs)
          (λ y i. All-In (λ y. ident x ≢ ident y) y xs d.0 (In-keep test y xs i).0),
      AreDistinct-keep test xs d.1,
    )
    | inr q ↦ rw q (AreDistinct-keep test xs d.1)
  ]

  pub AreDistinct-append :
      (xs ys : List A)
      → AreDistinct order ident xs
      → AreDistinct order ident ys
      → ((x y : A) → In x xs → In y ys → ident x ≢ ident y)
      → AreDistinct order ident (xs ++ ys)
  AreDistinct-append [] ys d e f = e
  AreDistinct-append (x ∷ xs) ys d e f = (
    All-of_In (λ y. ident x ≢ ident y) (xs ++ ys)
        (λ y i. elim (In-append_cases y xs ys i) [
          | inl a ↦ All-In (λ y. ident x ≢ ident y) y xs d.0 a
          | inr b ↦ f x y (inl refl) b
        ]),
    AreDistinct-append xs ys d.1 e (λ z y i j. f z y (inr i) j),
  )

  -- The two halves of a list, and that they have no identifier in common.
  pub AreDistinct-take :
      (n : ℕ) (xs : List A) → AreDistinct order ident xs → AreDistinct order ident (take n xs)
  AreDistinct-take zero xs d = tt
  AreDistinct-take (suc n) [] d = tt
  AreDistinct-take (suc n) (x ∷ xs) d = (
    All-of_In (λ y. ident x ≢ ident y) (take n xs)
        (λ y i. All-In (λ y. ident x ≢ ident y) y xs d.0 (In-take n y xs i)),
    AreDistinct-take n xs d.1,
  )

  pub AreDistinct-drop :
      (n : ℕ) (xs : List A) → AreDistinct order ident xs → AreDistinct order ident (drop n xs)
  AreDistinct-drop zero xs d = d
  AreDistinct-drop (suc n) [] d = tt
  AreDistinct-drop (suc n) (x ∷ xs) d = AreDistinct-drop n xs d.1

  pub take-drop_apart :
      (n : ℕ) (xs : List A) (x y : A)
      → AreDistinct order ident xs
      → In x (take n xs)
      → In y (drop n xs)
      → ident x ≢ ident y
  take-drop_apart zero xs x y d i j = elim i [ ]
  take-drop_apart (suc n) [] x y d i j = elim i [ ]
  take-drop_apart (suc n) (z ∷ xs) x y d (inl e) j =
      rw e (All-In (λ y. ident z ≢ ident y) y xs d.0 (In-drop n y xs j))
  take-drop_apart (suc n) (z ∷ xs) x y d (inr i) j = take-drop_apart n xs x y d.1 i j
