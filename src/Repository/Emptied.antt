-- ===== src/Repository/Emptied.antt =====
-- What the listings of src/internal/repository/memory.go hold after several keys are deleted.
use open_mos.Prelude.{
  ℕ, ◌≡◌, Bool, true, false, List, [], ◌∷◌, some, In, inl, inr, arith, Bool-cases, map, ap, subst,
  sym, ◌∙◌, refl,
}
use open_mos.Text.{Text, is_one_of, same}
use open_mos.Table.{Table, lookup}
use open_mos.Table.Laws.{IsKeyed}
use open_mos.Table.Selected.{selected, In-selected, selected-In, selected-IsSorted, selected_unique}
use open_mos.Repository.{delete_multiple}
use open_mos.Repository.Removal.{lookup-delete_multiple, IsKeyed-delete_multiple, is_one_of-In}
use open_mos.Text.Order.{same_sound}

module _ {A : Type 0} (order : A → ℕ) (ident : A → Text) (test : A → Bool) where
  In-map : (x : A) (xs : List A) → In x xs → In (ident x) (map ident xs)
  In-map x [] i = elim i [ ]
  In-map x (y ∷ ys) (inl e) = inl (ap ident e)
  In-map x (y ∷ ys) (inr i) = inr (In-map x ys i)

  pub is_one_of-selected :
      (x : A) (xs : List A) → In x xs → is_one_of (map ident xs) (ident x) ≡ true
  is_one_of-selected x xs i = is_one_of-In (ident x) (map ident xs) (In-map x xs i)

  still_held :
      (k : Text) (x : A) (ks : List Text) (t : Table A)
      → lookup k (delete_multiple ks t) ≡ some x
      → (lookup k t ≡ some x) × (is_one_of ks k ≡ false)
  still_held k x ks t e =
      (ground (arith, lookup-delete_multiple k ks t), ground (arith, lookup-delete_multiple k ks t))

  -- A listing whose keys are all deleted is empty.
  pub selected_deleted :
      (ks : List Text) (t : Table A)
      → IsKeyed ident t
      → ((x : A) → lookup (ident x) t ≡ some x → test x ≡ true → is_one_of ks (ident x) ≡ true)
      → selected order ident test (delete_multiple ks t) ≡ []
  selected_deleted ks t h f =
      selected_unique order ident test (delete_multiple ks t) []
        (IsKeyed-delete_multiple ident ks t h) tt (λ x i. elim i [ ])
        (λ x l p. cc (f x (still_held (ident x) x ks t l).0 p, (still_held (ident x) x ks t l).1))

  kept :
      (x : A) (ks : List Text) (t : Table A)
      → lookup (ident x) t ≡ some x
      → test x ≡ true
      → (is_one_of ks (ident x) ≡ true → test x ≡ false)
      → lookup (ident x) (delete_multiple ks t) ≡ some x
  kept x ks t l p f = elim (Bool-cases (is_one_of ks (ident x))) [
    | inl q ↦ cc (f q, p)
    | inr q ↦ ground (arith, lookup-delete_multiple (ident x) ks t)
  ]

  -- A listing of which nothing is deleted stays.
  pub selected_kept :
      (ks : List Text) (t : Table A)
      → IsKeyed ident t
      → ((x : A) → lookup (ident x) t ≡ some x → is_one_of ks (ident x) ≡ true → test x ≡ false)
      → selected order ident test (delete_multiple ks t) ≡ selected order ident test t
  selected_kept ks t h f =
      selected_unique order ident test (delete_multiple ks t) (selected order ident test t)
        (IsKeyed-delete_multiple ident ks t h) (selected-IsSorted order ident test t h)
        (λ x i.
          let r = In-selected order ident test x t h i in (kept x ks t r.0 r.1 (f x r.0), r.1))
        (λ x l p. selected-In order ident test (ident x) x t (still_held (ident x) x ks t l).0 p)

  -- An empty listing stays empty.
  pub selected_nil :
      (ks : List Text) (t : Table A)
      → IsKeyed ident t
      → selected order ident test t ≡ []
      → selected order ident test (delete_multiple ks t) ≡ []
  selected_nil ks t h e =
      selected_unique order ident test (delete_multiple ks t) []
        (IsKeyed-delete_multiple ident ks t h) tt (λ x i. elim i [ ])
        (λ x l p.
          subst (In x) e
            (selected-In order ident test (ident x) x t (still_held (ident x) x ks t l).0 p))

  In-of_ids :
      (k : Text) (xs : List A)
      → is_one_of (map ident xs) k ≡ true
      → (x : A) × In x xs × (ident x ≡ k)
  unfolding is_one_of
  In-of_ids k [] h = absurd (ground (arith, h))
  In-of_ids k (x ∷ xs) h = elim (Bool-cases (same (ident x) k)) [
    | inl q ↦ (x, inl refl, same_sound (ident x) k q)
    | inr q ↦ let (y, p, e) = In-of_ids k xs (rw q at h) in (y, inr p, e)
  ]

  -- What is held under a key of the listing is in the listing.
  pub listed_holds :
      (x : A) (t : Table A)
      → IsKeyed ident t
      → lookup (ident x) t ≡ some x
      → is_one_of (map ident (selected order ident test t)) (ident x) ≡ true
      → test x ≡ true
  listed_holds x t h l q =
      let (y, p, e) = In-of_ids (ident x) (selected order ident test t) q in
      let r = In-selected order ident test y t h p in
      let same_value : some y ≡ some x = sym r.0 ∙ (ap (λ k. lookup k t) e ∙ l) in
      ground (arith, same_value, r.1)
