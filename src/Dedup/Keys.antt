-- ===== src/Dedup/Keys.antt =====
-- src/internal/server/dedup.go: messages of different scopes, newsroom systems or identifiers have
-- different keys.
use open_mos.Prelude.{◌≡◌, ap₂, [], ◌∷◌, ◌++◌, All, arith, ◌==◌, false}
use open_mos.Text.{Text}
use open_mos.Dedup.{dedup_key}

-- A text without the byte that separates the parts of a key.
abbrev pub HasNoZero : Text → Type 0
HasNoZero = All (λ c. (c == 0) ≡ false)

part_inj :
    (a b r s : Text) → HasNoZero a → HasNoZero b → a ++ (0 ∷ r) ≡ b ++ (0 ∷ s) → (a ≡ b) × (r ≡ s)
part_inj [] [] r s h k e = ground arith
part_inj [] (d ∷ b) r s h k e = ground (arith, k.0)
part_inj (c ∷ a) [] r s h k e = ground (arith, h.0)
part_inj (c ∷ a) (d ∷ b) r s h k e =
    let t : a ++ (0 ∷ r) ≡ b ++ (0 ∷ s) = ground arith in
    let (p, q) = part_inj a b r s h.1 k.1 t in (ap₂ ◌∷◌ (ground arith) p, q)

-- Two messages have the same key only if scope, newsroom system and messageID are the same, where no
-- scope and no newsroom system holds the byte 0.
pub dedup_key_inj :
    (scope ncs message scope' ncs' message' : Text)
    → HasNoZero scope
    → HasNoZero scope'
    → HasNoZero ncs
    → HasNoZero ncs'
    → dedup_key scope ncs message ≡ dedup_key scope' ncs' message'
    → (scope ≡ scope') × (ncs ≡ ncs') × (message ≡ message')
unfolding dedup_key
dedup_key_inj scope ncs message scope' ncs' message' h h' k k' e =
    let (p, q) = part_inj scope scope' _ _ h h' e in
    let (u, v) = part_inj ncs ncs' message message' k k' q in (p, u, v)
