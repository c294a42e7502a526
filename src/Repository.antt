-- ===== src/Repository.antt =====
-- The in-memory repositories of src/internal/repository/memory.go, the default backend. Stored and
-- returned values are copies there, which a pure value is at once. The four types repeat the same
-- methods, which stand here once for any type with an identifier; the children give them to each.
pub mod Stories
pub mod Items
pub mod RunningOrders
pub mod Objects
pub mod Removal
pub mod Emptied
pub mod Listing
use open_mos.Prelude.{String, List, [], ◌∷◌, Option, none, some}
use open_mos.Text.{Text}
use open_mos.Outcome.{Error, Result, ok, err, failed}
use open_mos.Table.{Table, lookup, put, remove}

abbrev pub already_exists_error : Error
already_exists_error = failed "already exists"

abbrev pub not_found_error : Error
not_found_error = failed "not found"

module _ {ℓ} {A : Type ℓ} (ident : A → Text) where
  -- Refuses a key that is there.
  unfoldable pub create : A → Table A → Result (Table A)
  create x t = elim (lookup (ident x) t) [
    | none ↦ ok (put (ident x) x t)
    | some _ ↦ err already_exists_error
  ]

  -- Refuses a key that is not there.
  unfoldable pub update : A → Table A → Result (Table A)
  update x t = elim (lookup (ident x) t) [
    | none ↦ err not_found_error
    | some _ ↦ ok (put (ident x) x t)
  ]

module _ {ℓ} {A : Type ℓ} where
  unfoldable pub get : Text → Table A → Result A
  get k t = elim (lookup k t) [ none ↦ err not_found_error | some x ↦ ok x ]

  -- Never an error, whether the key is there or not.
  unfoldable pub delete : Text → Table A → Table A
  delete k t = remove k t

  unfoldable pub delete_multiple : List Text → Table A → Table A
  delete_multiple [] t = t
  delete_multiple (k ∷ ks) t = delete_multiple ks (remove k t)
