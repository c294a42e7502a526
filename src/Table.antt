-- ===== src/Table.antt =====
-- A Go map[string]T: the entries in some order, each key once.
pub mod Laws
pub mod Listing
pub mod Sorted
pub mod Selected
pub mod Distinct
pub mod Rewrite
use open_mos.Prelude.{Bool, List, [], ◌∷◌, Option, none, some, if◌then◌else◌, ◌≡◌}
use open_mos.Text.{Text, same}

abbrev pub Table {ℓ} : Type ℓ → Type ℓ
Table A = List (Text × A)

module _ {ℓ} {A : Type ℓ} where
  -- v, ok := m[k]
  unfoldable pub lookup : Text → Table A → Option A
  lookup k [] = none
  lookup k ((j, v) ∷ t) = if same j k then some v else lookup k t

  -- m[k] = v
  unfoldable pub put : Text → A → Table A → Table A
  put k v [] = (k, v) ∷ []
  put k v ((j, w) ∷ t) = if same j k then (k, v) ∷ t else (j, w) ∷ put k v t

  -- delete(m, k)
  unfoldable pub remove : Text → Table A → Table A
  remove k [] = []
  remove k ((j, v) ∷ t) = if same j k then remove k t else (j, v) ∷ remove k t

  -- for _, v := range m
  unfoldable pub values : Table A → List A
  values [] = []
  values ((j, v) ∷ t) = v ∷ values t
