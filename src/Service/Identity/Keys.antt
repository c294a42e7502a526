-- ===== src/Service/Identity/Keys.antt =====
-- A storage key determines the identifiers that it was made of.
use open_mos.Prelude.{ℕ, ◌/◌, ◌%◌, ◌≡◌, sym, ap, ap₂, ◌∙◌, append_assoc, [], ◌∷◌, ◌++◌, arith}
use open_mos.Text.{Text}
use open_mos.Service.Identity.{
  upper_hex, escape_byte, path_escape, story_persistence_id, item_persistence_id,
}

upper_hex_inj : (d e : ℕ) → upper_hex d ≡ upper_hex e → d ≡ e
upper_hex_inj d e h = ground arith

escape_byte_inj : (c d : ℕ) (r s : Text) → escape_byte c r ≡ escape_byte d s → (c ≡ d) × (r ≡ s)
unfolding escape_byte
escape_byte_inj c d r s h =
    ground (arith, upper_hex_inj (c / 16) (d / 16), upper_hex_inj (c % 16) (d % 16))

escape_byte-append : (c : ℕ) (r t : Text) → escape_byte c r ++ t ≡ escape_byte c (r ++ t)
unfolding escape_byte
escape_byte-append c r t = ground arith

-- No escape begins with a slash.
escape_byte_slash : (c : ℕ) (r s : Text) → escape_byte c r ≡ b'/' ∷ s → ⊥
unfolding escape_byte
escape_byte_slash c r s h = ground arith

segment_inj :
    (a b r s : Text) → path_escape a ++ (b'/' ∷ r) ≡ path_escape b ++ (b'/' ∷ s) → (a ≡ b) × (r ≡ s)
unfolding path_escape
segment_inj [] [] r s h = ground arith
segment_inj [] (d ∷ b) r s h = absurd (
    escape_byte_slash d (path_escape b ++ (b'/' ∷ s)) r
      (sym (h ∙ escape_byte-append d (path_escape b) (b'/' ∷ s))))
segment_inj (c ∷ a) [] r s h = absurd (
    escape_byte_slash c (path_escape a ++ (b'/' ∷ r)) s
      (sym (escape_byte-append c (path_escape a) (b'/' ∷ r)) ∙ h))
segment_inj (c ∷ a) (d ∷ b) r s h =
    let e : escape_byte c (path_escape a ++ (b'/' ∷ r))
        ≡ escape_byte d (path_escape b ++ (b'/' ∷ s)) =
      sym (escape_byte-append c (path_escape a) (b'/' ∷ r))
      ∙ (h ∙ escape_byte-append d (path_escape b) (b'/' ∷ s)) in
    let (p, q) =
      escape_byte_inj c d (path_escape a ++ (b'/' ∷ r)) (path_escape b ++ (b'/' ∷ s)) e in
    let (i, j) = segment_inj a b r s q in (ap₂ ◌∷◌ p i, j)

path_escape_inj : (a b : Text) → path_escape a ≡ path_escape b → a ≡ b
path_escape_inj a b h = (segment_inj a b [] [] (ap (λ (t : Text). t ++ (b'/' ∷ [])) h)).0

-- Stories of two running orders, and two stories of one, have different storage keys: the key
-- determines the running order's identifier and the story's.
pub story_persistence_id_inj :
    (ro story ro' story' : Text)
    → story_persistence_id ro story ≡ story_persistence_id ro' story'
    → (ro ≡ ro') × (story ≡ story')
unfolding story_persistence_id
story_persistence_id_inj ro story ro' story' h =
    let (p, q) = segment_inj ro ro' (path_escape story) (path_escape story') h in
    (p, path_escape_inj story story' q)

-- The keys of two items of stories with storage keys are equal only if running order, story and item
-- are the same.
pub item_persistence_id_inj :
    (ro story item ro' story' item' : Text)
    → item_persistence_id (story_persistence_id ro story) item
      ≡ item_persistence_id (story_persistence_id ro' story') item'
    → (ro ≡ ro') × (story ≡ story') × (item ≡ item')
unfolding item_persistence_id story_persistence_id
item_persistence_id_inj ro story item ro' story' item' h =
    let (p, q) =
      segment_inj ro ro' (path_escape story ++ (b'/' ∷ path_escape item))
        (path_escape story' ++ (b'/' ∷ path_escape item'))
        (sym (append_assoc (path_escape ro) (b'/' ∷ path_escape story) (b'/' ∷ path_escape item))
          ∙ (h
              ∙ append_assoc (path_escape ro') (b'/' ∷ path_escape story')
                  (b'/' ∷ path_escape item'))) in
    let (u, v) = segment_inj story story' (path_escape item) (path_escape item') q in
    (p, u, path_escape_inj item item' v)
