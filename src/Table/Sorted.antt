-- ===== src/Table/Sorted.antt =====
-- The sort returns the one increasing list of the elements it is given.
use open_mos.Prelude.{
  ℕ, ◌≡◌, refl, sym, ◌≢◌, ◌⊎◌, inl, inr, true, false, List, [], ◌∷◌, In, All, arith, Bool-cases,
  ap₂, All-In, All-of_In,
}
use open_mos.Text.{Text}
use open_mos.Text.Order.{before_irrefl, before_asymm, before_trans, before_total}
use open_mos.Table.Listing.{less, insert, sort}

module _ {A : Type 0} (order : A → ℕ) (ident : A → Text) where
  pub less_irrefl : (a : A) → less order ident a a ≡ false
  unfolding less
  less_irrefl a = ground (arith, before_irrefl (ident a))

  pub less_asymm : (a b : A) → less order ident a b ≡ true → less order ident b a ≡ false
  unfolding less
  less_asymm a b h = ground (arith, before_asymm (ident a) (ident b))

  pub less_trans :
      (a b c : A)
      → less order ident a b ≡ true
      → less order ident b c ≡ true
      → less order ident a c ≡ true
  unfolding less
  less_trans a b c h k = ground (arith, before_trans (ident a) (ident b) (ident c))

  pub less_total :
      (a b : A) → ident a ≢ ident b → less order ident a b ≡ false → less order ident b a ≡ true
  unfolding less
  less_total a b n h = ground (arith, before_total (ident a) (ident b))

  -- Each element is less than all behind it.
  abbrev pub IsSorted : List A → Type 0
  IsSorted [] = Unit
  IsSorted (x ∷ xs) = All (λ y. less order ident x y ≡ true) xs × IsSorted xs

  -- No two elements have one identifier.
  abbrev pub AreDistinct : List A → Type 0
  AreDistinct [] = Unit
  AreDistinct (x ∷ xs) = All (λ y. ident x ≢ ident y) xs × AreDistinct xs

  pub In-insert_cases : (x z : A) (ys : List A) → In z (insert order ident x ys) → (z ≡ x) ⊎ In z ys
  unfolding insert
  In-insert_cases x z [] h = h
  In-insert_cases x z (y ∷ ys) h = elim (Bool-cases (less order ident y x)) [
    | inl q ↦ elim (let i : (z ≡ y) ⊎ In z (insert order ident x ys) = rw q at h in i) [
      | inl e ↦ inr (inl e)
      | inr i ↦ elim (In-insert_cases x z ys i) [ inl e ↦ inl e | inr j ↦ inr (inr j) ]
    ]
    | inr q ↦ rw q at h
  ]

  pub In-insert : (x z : A) (ys : List A) → (z ≡ x) ⊎ In z ys → In z (insert order ident x ys)
  unfolding insert
  In-insert x z [] h = h
  In-insert x z (y ∷ ys) (inl e) = elim (Bool-cases (less order ident y x)) [
    | inl q ↦ rw q (inr (In-insert x z ys (inl e)))
    | inr q ↦ rw q (inl e)
  ]
  In-insert x z (y ∷ ys) (inr (inl e)) = elim (Bool-cases (less order ident y x)) [
    | inl q ↦ rw q (inl e)
    | inr q ↦ rw q (inr (inl e))
  ]
  In-insert x z (y ∷ ys) (inr (inr i)) = elim (Bool-cases (less order ident y x)) [
    | inl q ↦ rw q (inr (In-insert x z ys (inr i)))
    | inr q ↦ rw q (inr (inr i))
  ]

  insert-IsSorted :
      (x : A) (ys : List A)
      → All (λ y. ident x ≢ ident y) ys
      → IsSorted ys
      → IsSorted (insert order ident x ys)
  unfolding insert
  insert-IsSorted x [] n h = (tt, tt)
  insert-IsSorted x (y ∷ ys) n h = elim (Bool-cases (less order ident y x)) [
    | inl q ↦ rw q (
      All-of_In (λ z. less order ident y z ≡ true) (insert order ident x ys)
          (λ z i. elim (In-insert_cases x z ys i) [
            | inl e ↦ rw e q
            | inr j ↦ All-In (λ z. less order ident y z ≡ true) z ys h.0 j
          ]),
      insert-IsSorted x ys n.1 h.1,
    )
    | inr q ↦
        let xy : less order ident x y ≡ true = less_total y x (λ e. n.0 (sym e)) q in
        rw q (
          (
            xy,
            All-of_In (λ z. less order ident x z ≡ true) ys
                (λ z i. less_trans x y z xy (All-In (λ z. less order ident y z ≡ true) z ys h.0 i)),
          ),
          h,
        )
  ]

  pub In-sort_cases : (z : A) (xs : List A) → In z (sort order ident xs) → In z xs
  unfolding sort
  In-sort_cases z [] h = h
  In-sort_cases z (x ∷ xs) h = elim (In-insert_cases x z (sort order ident xs) h) [
    | inl e ↦ inl e
    | inr i ↦ inr (In-sort_cases z xs i)
  ]

  pub In-sort : (z : A) (xs : List A) → In z xs → In z (sort order ident xs)
  unfolding sort
  In-sort z [] h = h
  In-sort z (x ∷ xs) (inl e) = In-insert x z (sort order ident xs) (inl e)
  In-sort z (x ∷ xs) (inr i) = In-insert x z (sort order ident xs) (inr (In-sort z xs i))

  pub sort-IsSorted : (xs : List A) → AreDistinct xs → IsSorted (sort order ident xs)
  unfolding sort
  sort-IsSorted [] h = tt
  sort-IsSorted (x ∷ xs) h =
      insert-IsSorted x (sort order ident xs)
        (All-of_In (λ y. ident x ≢ ident y) (sort order ident xs)
          (λ y i. All-In (λ y. ident x ≢ ident y) y xs h.0 (In-sort_cases y xs i)))
        (sort-IsSorted xs h.1)

  same_head :
      (x y : A) (xs ys : List A)
      → IsSorted (x ∷ xs)
      → IsSorted (y ∷ ys)
      → In x (y ∷ ys)
      → In y (x ∷ xs)
      → x ≡ y
  same_head x y xs ys h k (inl e) j = e
  same_head x y xs ys h k (inr i) (inl e) = sym e
  same_head x y xs ys h k (inr i) (inr j) =
      let yx : less order ident y x ≡ true = All-In (λ z. less order ident y z ≡ true) x ys k.0 i in
      let xy : less order ident x y ≡ true = All-In (λ z. less order ident x z ≡ true) y xs h.0 j in
      cc (less_asymm x y xy)

  In-tail :
      (x y z : A) (xs ys : List A) → IsSorted (x ∷ xs) → x ≡ y → In z xs → In z (y ∷ ys) → In z ys
  In-tail x y z xs ys h e i (inr j) = j
  In-tail x y z xs ys h e i (inl f) =
      let xz : less order ident x z ≡ true = All-In (λ z. less order ident x z ≡ true) z xs h.0 i in
      cc (less_irrefl x)

  -- Two increasing lists with the same elements are one.
  pub sorted_unique :
      (xs ys : List A)
      → IsSorted xs
      → IsSorted ys
      → ((z : A) → In z xs → In z ys)
      → ((z : A) → In z ys → In z xs)
      → xs ≡ ys
  sorted_unique [] [] h k f g = refl
  sorted_unique [] (y ∷ ys) h k f g = elim (g y (inl refl)) [ ]
  sorted_unique (x ∷ xs) [] h k f g = elim (f x (inl refl)) [ ]
  sorted_unique (x ∷ xs) (y ∷ ys) h k f g =
      let e : x ≡ y = same_head x y xs ys h k (f x (inl refl)) (g y (inl refl)) in
      ap₂ ◌∷◌ e (
        sorted_unique xs ys h.1 k.1 (λ z i. In-tail x y z xs ys h e i (f z (inr i)))
          (λ z i. In-tail y x z ys xs k (sym e) i (g z (inr i))))
