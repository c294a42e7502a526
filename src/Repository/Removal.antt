-- ===== src/Repository/Removal.antt =====
-- Removing several keys.
use open_mos.Prelude.{◌≡◌, refl, true, List, [], ◌∷◌, none, All, In, inl, inr, arith, if◌then◌else◌}
use open_mos.Text.{Text, is_one_of}
use open_mos.Text.Order.{same_iff}
use open_mos.Table.{Table, lookup, remove}
use open_mos.Table.Laws.{IsKeyed, IsKeyed-remove, lookup-remove}
use open_mos.Repository.{delete_multiple}

module _ {ℓ} {A : Type ℓ} where
  pub remove_absent : (k : Text) (t : Table A) → lookup k t ≡ none → remove k t ≡ t
  unfolding lookup remove
  remove_absent k [] h = refl
  remove_absent k ((j, v) ∷ t) h = ground (arith, remove_absent k t)

  pub delete_multiple_absent :
      (ks : List Text) (t : Table A) → All (λ k. lookup k t ≡ none) ks → delete_multiple ks t ≡ t
  unfolding delete_multiple
  delete_multiple_absent [] t h = refl
  delete_multiple_absent (k ∷ ks) t h = rw (remove_absent k t h.0) (delete_multiple_absent ks t h.1)

  pub lookup-delete_multiple :
      (k : Text) (ks : List Text) (t : Table A)
      → lookup k (delete_multiple ks t) ≡ (if is_one_of ks k then none else lookup k t)
  unfolding delete_multiple is_one_of
  lookup-delete_multiple k [] t = refl
  lookup-delete_multiple k (j ∷ js) t =
      ground (arith, lookup-delete_multiple k js (remove j t), lookup-remove j k t)

pub is_one_of-In : (k : Text) (ks : List Text) → In k ks → is_one_of ks k ≡ true
unfolding is_one_of
is_one_of-In k [] i = elim i [ ]
is_one_of-In k (j ∷ js) (inl e) = ground (arith, same_iff j k)
is_one_of-In k (j ∷ js) (inr i) = ground (arith, is_one_of-In k js i)

module _ {A : Type 0} (ident : A → Text) where
  pub IsKeyed-delete_multiple :
      (ks : List Text) (t : Table A) → IsKeyed ident t → IsKeyed ident (delete_multiple ks t)
  unfolding delete_multiple
  IsKeyed-delete_multiple [] t h = h
  IsKeyed-delete_multiple (k ∷ ks) t h =
      IsKeyed-delete_multiple ks (remove k t) (IsKeyed-remove ident k t h)
