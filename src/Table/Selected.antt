-- ===== src/Table/Selected.antt =====
-- What a list method returns: the values of a table that pass a test, sorted.
use open_mos.Prelude.{
  ℕ, ◌≡◌, sym, ◌∙◌, ◌≢◌, inl, inr, Bool, true, List, [], ◌∷◌, none, some, In, Bool-cases, All-of_In,
  keep, In-keep, keep-In, All-In, ap, arith, refl,
}
use open_mos.Text.{Text}
use open_mos.Table.{Table, lookup, values}
use open_mos.Table.Laws.{IsKeyed, lookup_of_In, In-values}
use open_mos.Table.Listing.{less, sort}
use open_mos.Table.Sorted.{
  IsSorted, AreDistinct, less_irrefl, In-sort, In-sort_cases, sort-IsSorted, sorted_unique,
}

module _ {A : Type 0} (order : A → ℕ) (ident : A → Text) (test : A → Bool) where
  unfoldable pub selected : Table A → List A
  selected t = sort order ident (keep test (values t))

  -- The values are those that are stored under their identifier and pass the test.
  pub In-selected :
      (x : A) (t : Table A)
      → IsKeyed ident t
      → In x (selected t)
      → (lookup (ident x) t ≡ some x) × (test x ≡ true)
  unfolding selected
  In-selected x t h i =
      let j : In x (values t) × (test x ≡ true) =
        In-keep test x (values t) (In-sort_cases order ident x (keep test (values t)) i) in
      (lookup_of_In ident x t h j.0, j.1)

  pub selected-In :
      (k : Text) (x : A) (t : Table A) → lookup k t ≡ some x → test x ≡ true → In x (selected t)
  unfolding selected
  selected-In k x t e p =
      In-sort order ident x (keep test (values t))
        (keep-In test x (values t) (In-values ident k x t e) p)

module _ {A : Type 0} (order : A → ℕ) (ident : A → Text) where
  ident_ne :
      (k : Text) (x y : A) (t : Table A)
      → IsKeyed ident t
      → lookup k t ≡ none
      → k ≡ ident x
      → In y (values t)
      → ident x ≢ ident y
  ident_ne k x y t h miss e i f = cc (lookup_of_In ident y t h i)

  keep-AreDistinct :
      (test : A → Bool) (t : Table A)
      → IsKeyed ident t
      → AreDistinct order ident (keep test (values t))
  unfolding values
  keep-AreDistinct test [] h = tt
  keep-AreDistinct test ((k, v) ∷ t) h = elim (Bool-cases (test v)) [
    | inl q ↦ rw q (
      All-of_In (λ y. ident v ≢ ident y) (keep test (values t))
          (λ y i. ident_ne k v y t h.2 h.1 h.0 (In-keep test y (values t) i).0),
      keep-AreDistinct test t h.2,
    )
    | inr q ↦ rw q (keep-AreDistinct test t h.2)
  ]

  pub selected-IsSorted :
      (test : A → Bool) (t : Table A)
      → IsKeyed ident t
      → IsSorted order ident (selected order ident test t)
  unfolding selected
  selected-IsSorted test t h =
      sort-IsSorted order ident (keep test (values t)) (keep-AreDistinct test t h)

  -- An increasing list of exactly the stored values that pass the test is what is returned.
  pub selected_unique :
      (test : A → Bool) (t : Table A) (xs : List A)
      → IsKeyed ident t
      → IsSorted order ident xs
      → ((x : A) → In x xs → (lookup (ident x) t ≡ some x) × (test x ≡ true))
      → ((x : A) → lookup (ident x) t ≡ some x → test x ≡ true → In x xs)
      → selected order ident test t ≡ xs
  selected_unique test t xs h s f g =
      sorted_unique order ident (selected order ident test t) xs (selected-IsSorted test t h) s
        (λ x i.
          let r : (lookup (ident x) t ≡ some x) × (test x ≡ true) =
            In-selected order ident test x t h i in
          g x r.0 r.1)
        (λ x i. selected-In order ident test (ident x) x t (f x i).0 (f x i).1)

  -- The result depends on what each key holds, not on the order of the entries.
  pub selected_ext :
      (test : A → Bool) (t u : Table A)
      → IsKeyed ident t
      → IsKeyed ident u
      → ((k : Text) → lookup k t ≡ lookup k u)
      → selected order ident test t ≡ selected order ident test u
  selected_ext test t u h k e =
      selected_unique test t (selected order ident test u) h (selected-IsSorted test u k)
        (λ x i.
          let r : (lookup (ident x) u ≡ some x) × (test x ≡ true) =
            In-selected order ident test x u k i in
          (e (ident x) ∙ r.0, r.1))
        (λ x l p. selected-In order ident test (ident x) x u (sym (e (ident x)) ∙ l) p)

  apart_of_less :
      (t : Table A) (x y : A)
      → lookup (ident x) t ≡ some x
      → lookup (ident y) t ≡ some y
      → less order ident x y ≡ true
      → ident x ≢ ident y
  apart_of_less t x y a b h e =
      let p : some x ≡ some y = sym a ∙ (ap (λ k. lookup k t) e ∙ b) in
      ground (arith, less_irrefl order ident x)

  distinct_of_sorted :
      (t : Table A) (xs : List A)
      → IsSorted order ident xs
      → ((x : A) → In x xs → lookup (ident x) t ≡ some x)
      → AreDistinct order ident xs
  distinct_of_sorted t [] s f = tt
  distinct_of_sorted t (x ∷ xs) s f = (
    All-of_In (λ y. ident x ≢ ident y) xs
        (λ y i.
          apart_of_less t x y (f x (inl refl)) (f y (inr i))
            (All-In (λ z. less order ident x z ≡ true) y xs s.0 i)),
    distinct_of_sorted t xs s.1 (λ y i. f y (inr i)),
  )

  pub selected-AreDistinct :
      (test : A → Bool) (t : Table A)
      → IsKeyed ident t
      → AreDistinct order ident (selected order ident test t)
  selected-AreDistinct test t h =
      distinct_of_sorted t (selected order ident test t) (selected-IsSorted test t h)
        (λ x i. (In-selected order ident test x t h i).0)
