-- ===== src/Table/Rewrite.antt =====
-- Writing a list of values back into a table, each under its identifier, and what is listed then.
use open_mos.Prelude.{
  ℕ, ◌≡◌, refl, sym, ◌∙◌, ◌≢◌, inl, inr, Bool, true, false, List, [], ◌∷◌, none, some, In, All,
  arith, if◌then◌else◌, Bool-cases, All-In, All-of_In,
}
use open_mos.Text.{Text, same}
use open_mos.Text.Order.{same_iff, same_sound}
use open_mos.Table.{Table, lookup, put}
use open_mos.Table.Laws.{IsKeyed, IsKeyed-put, lookup-put, lookup-put_self, lookup-put_ne}
use open_mos.Table.Sorted.{IsSorted, AreDistinct}
use open_mos.Table.Selected.{selected, selected_unique}

module _ {A : Type 0} (ident : A → Text) where
  -- Each value written, in order.
  unfoldable pub put_all : List A → Table A → Table A
  put_all [] t = t
  put_all (x ∷ xs) t = put_all xs (put (ident x) x t)

  abbrev pub AreHeld : List A → Table A → Type 0
  AreHeld xs t = All (λ x. lookup (ident x) t ≢ none) xs

  unfoldable pub has_ident : Text → List A → Bool
  has_ident k [] = false
  has_ident k (x ∷ xs) = if same (ident x) k then true else has_ident k xs

  pub has_ident-true :
      (k : Text) (xs : List A) → has_ident k xs ≡ true → (x : A) × In x xs × (ident x ≡ k)
  unfolding has_ident
  has_ident-true k [] h = cc
  has_ident-true k (x ∷ xs) h = elim (Bool-cases (same (ident x) k)) [
    | inl q ↦ (x, inl refl, same_sound (ident x) k q)
    | inr q ↦ let (y, i, e) = has_ident-true k xs (rw q at h) in (y, inr i, e)
  ]

  pub has_ident-false :
      (k : Text) (xs : List A) → has_ident k xs ≡ false → All (λ x. ident x ≢ k) xs
  unfolding has_ident
  has_ident-false k [] h = tt
  has_ident-false k (x ∷ xs) h =
      (ground (arith, same_iff (ident x) k), has_ident-false k xs (ground arith))

  pub has_ident-In : (x : A) (xs : List A) → In x xs → has_ident (ident x) xs ≡ true
  unfolding has_ident
  has_ident-In x [] i = elim i [ ]
  has_ident-In x (y ∷ ys) (inl e) = ground (arith, same_iff (ident y) (ident x))
  has_ident-In x (y ∷ ys) (inr i) = ground (arith, has_ident-In x ys i)

  pub lookup-put_all_ne :
      (k : Text) (xs : List A) (t : Table A)
      → All (λ x. ident x ≢ k) xs
      → lookup k (put_all xs t) ≡ lookup k t
  unfolding put_all
  lookup-put_all_ne k [] t h = refl
  lookup-put_all_ne k (x ∷ xs) t h =
      lookup-put_all_ne k xs (put (ident x) x t) h.1 ∙ lookup-put_ne (ident x) k x t h.0

  pub IsKeyed-put_all : (xs : List A) (t : Table A) → IsKeyed ident t → IsKeyed ident (put_all xs t)
  unfolding put_all
  IsKeyed-put_all [] t h = h
  IsKeyed-put_all (x ∷ xs) t h =
      IsKeyed-put_all xs (put (ident x) x t) (IsKeyed-put ident (ident x) x t refl h)

  held_put :
      (k : Text) (x : A) (t : Table A) → lookup k t ≢ none → lookup k (put (ident x) x t) ≢ none
  held_put k x t h e = ground (arith, lookup-put (ident x) k x t)

  pub AreHeld-put :
      (x : A) (xs : List A) (t : Table A) → AreHeld xs t → AreHeld xs (put (ident x) x t)
  AreHeld-put x [] t h = tt
  AreHeld-put x (y ∷ ys) t h = (held_put (ident y) x t h.0, AreHeld-put x ys t h.1)

module _ {A : Type 0} (order : A → ℕ) (ident : A → Text) where
  pub lookup-put_all :
      (x : A) (xs : List A) (t : Table A)
      → AreDistinct order ident xs
      → In x xs
      → lookup (ident x) (put_all ident xs t) ≡ some x
  unfolding put_all
  lookup-put_all x [] t d i = elim i [ ]
  lookup-put_all x (y ∷ ys) t d (inr i) = lookup-put_all x ys (put (ident y) y t) d.1 i
  lookup-put_all x (y ∷ ys) t d (inl e) = rw e (
      lookup-put_all_ne ident (ident y) ys (put (ident y) y t) (
        All-of_In (λ z. ident z ≢ ident y) ys
          (λ z i f. All-In (λ z. ident y ≢ ident z) z ys d.0 i (sym f)))
      ∙ lookup-put_self (ident y) y t)

  -- An increasing list that has every selected identifier once, written back, is what is selected.
  pub selected-put_all :
      (test : A → Bool) (xs : List A) (t : Table A)
      → IsKeyed ident t
      → IsSorted order ident xs
      → AreDistinct order ident xs
      → All (λ x. test x ≡ true) xs
      → ((x : A)
          → lookup (ident x) t ≡ some x
          → test x ≡ true
          → has_ident ident (ident x) xs ≡ true)
      → selected order ident test (put_all ident xs t) ≡ xs
  selected-put_all test xs t k s d p cover =
      selected_unique order ident test (put_all ident xs t) xs (IsKeyed-put_all ident xs t k) s
        (λ x i. (lookup-put_all x xs t d i, All-In (λ x. test x ≡ true) x xs p i))
        (λ x l q. elim (Bool-cases (has_ident ident (ident x) xs)) [
          | inl y ↦ written x l (has_ident-true ident (ident x) xs y)
          | inr n ↦ absurd (unwritten x l q n)
        ])
    where
      written :
          (x : A)
          → lookup (ident x) (put_all ident xs t) ≡ some x
          → ((y : A) × In y xs × (ident y ≡ ident x))
          → In x xs
      written x l (y, i, e) = rw (let g : x ≡ y = ground (arith, lookup-put_all y xs t d i) in g) i

      unwritten :
          (x : A)
          → lookup (ident x) (put_all ident xs t) ≡ some x
          → test x ≡ true
          → has_ident ident (ident x) xs ≡ false
          → ⊥
      unwritten x l q n =
          let m : lookup (ident x) t ≡ some x =
            sym (lookup-put_all_ne ident (ident x) xs t (has_ident-false ident (ident x) xs n))
            ∙ l in
          cc (cover x m q)
