-- ===== src/Table/Laws.antt =====
-- Reads after writes, and the invariant of a table whose values carry their own key.
use open_mos.Prelude.{
  ◌≡◌, refl, ◌≢◌, inl, inr, [], ◌∷◌, none, some, In, arith, if◌then◌else◌, Bool-cases,
}
use open_mos.Text.{Text, same}
use open_mos.Text.Order.{same_iff, same_refl, same_sound}
use open_mos.Table.{Table, lookup, put, remove, values}

module _ {ℓ} {A : Type ℓ} where
  pub lookup-put :
      (k j : Text) (v : A) (t : Table A)
      → lookup j (put k v t) ≡ (if same k j then some v else lookup j t)
  unfolding lookup put
  lookup-put k j v [] = refl
  lookup-put k j v ((i, w) ∷ t) =
      ground (arith, same_iff k j, same_iff i k, same_iff i j, lookup-put k j v t)

  pub lookup-remove :
      (k j : Text) (t : Table A) → lookup j (remove k t) ≡ (if same k j then none else lookup j t)
  unfolding lookup remove
  lookup-remove k j [] = ground arith
  lookup-remove k j ((i, w) ∷ t) =
      ground (arith, same_iff k j, same_iff i k, same_iff i j, lookup-remove k j t)

  pub lookup-put_self : (k : Text) (v : A) (t : Table A) → lookup k (put k v t) ≡ some v
  lookup-put_self k v t = ground (arith, lookup-put k k v t, same_refl k)

  pub lookup-put_ne : (k j : Text) (v : A) (t : Table A) → k ≢ j → lookup j (put k v t) ≡ lookup j t
  lookup-put_ne k j v t h = ground (arith, lookup-put k j v t, same_iff k j)

  pub lookup-remove_self : (k : Text) (t : Table A) → lookup k (remove k t) ≡ none
  lookup-remove_self k t = ground (arith, lookup-remove k k t, same_refl k)

  pub lookup-remove_ne : (k j : Text) (t : Table A) → k ≢ j → lookup j (remove k t) ≡ lookup j t
  lookup-remove_ne k j t h = ground (arith, lookup-remove k j t, same_iff k j)

module _ {A : Type 0} (ident : A → Text) where
  -- Each key stands once, and is the identifier of its value.
  abbrev pub IsKeyed : Table A → Type 0
  IsKeyed [] = Unit
  IsKeyed ((k, v) ∷ t) = (k ≡ ident v) × (lookup k t ≡ none) × IsKeyed t

  pub IsKeyed-put : (k : Text) (v : A) (t : Table A) → k ≡ ident v → IsKeyed t → IsKeyed (put k v t)
  unfolding put lookup
  IsKeyed-put k v [] e h = (e, refl, tt)
  IsKeyed-put k v ((j, w) ∷ t) e h = elim (Bool-cases (same j k)) [
    | inl q ↦ rw q (e, rw (same_sound j k q) at h.1, h.2)
    | inr q ↦ rw q (
      h.0,
      ground (arith, lookup-put k j v t, same_iff j k, same_iff k j),
      IsKeyed-put k v t e h.2,
    )
  ]

  pub IsKeyed-remove : (k : Text) (t : Table A) → IsKeyed t → IsKeyed (remove k t)
  unfolding remove
  IsKeyed-remove k [] h = tt
  IsKeyed-remove k ((j, w) ∷ t) h = elim (Bool-cases (same j k)) [
    | inl q ↦ rw q (IsKeyed-remove k t h.2)
    | inr q ↦ rw q (h.0, ground (arith, lookup-remove k j t), IsKeyed-remove k t h.2)
  ]

  pub ident_of_lookup :
      (k : Text) (v : A) (t : Table A) → IsKeyed t → lookup k t ≡ some v → ident v ≡ k
  unfolding lookup
  ident_of_lookup k v [] h e = ground arith
  ident_of_lookup k v ((j, w) ∷ t) h e = ground (arith, same_iff j k, ident_of_lookup k v t h.2)

  pub In-values : (k : Text) (v : A) (t : Table A) → lookup k t ≡ some v → In v (values t)
  unfolding lookup values
  In-values k v [] e = ground arith
  In-values k v ((j, w) ∷ t) e = elim (Bool-cases (same j k)) [
    | inl q ↦ inl (ground arith)
    | inr q ↦ inr (In-values k v t (rw q at e))
  ]

  pub lookup_of_In :
      (v : A) (t : Table A) → IsKeyed t → In v (values t) → lookup (ident v) t ≡ some v
  unfolding lookup values
  lookup_of_In v [] h i = elim i [ ]
  lookup_of_In v ((j, w) ∷ t) h (inl e) = ground (arith, same_refl (ident v), same_iff j (ident v))
  lookup_of_In v ((j, w) ∷ t) h (inr i) =
      ground (arith, same_iff j (ident v), lookup_of_In v t h.2 i)
