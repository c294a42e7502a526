-- ===== src/Tests/Identity.antt =====
-- Tests of the storage keys and of the translation of identifiers.
use open_mos.Prelude.{◌≡◌, refl}
use open_mos.Text.{text}
use open_mos.Service.Identity.{path_escape}
use open_mos.Service.Identity.Keys.{item_persistence_id_inj}

escape_slash : path_escape (text "A/B C") ≡ text "A%2FB%20C"
unfolding path_escape
escape_slash = refl

item_persistence_id_inj_example :
    (text "R" ≡ text "R") × (text "S/1" ≡ text "S/1") × (text "I" ≡ text "I")
item_persistence_id_inj_example =
    item_persistence_id_inj (text "R") (text "S/1") (text "I") (text "R") (text "S/1") (text "I")
      refl
