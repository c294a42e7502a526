-- ===== src/Service/Identity.antt =====
-- src/internal/service/identity.go: from the identifiers of the wire to the keys of the storage, which
-- storyPersistenceID and itemPersistenceID (service/mos.go) make with url.PathEscape.
pub mod Keys
use open_mos.Prelude.{
  ℕ, ◌+◌, ◌/◌, ◌%◌, Bool, ◌&&◌, ◌||◌, List, [], ◌∷◌, ◌++◌, Option, none, some, ltb, leb, ◌==◌,
  if◌then◌else◌,
}
use open_mos.Text.{Text, same}
use open_mos.Outcome.{Error, Result, ok, err, failed, unknown_running_order, ◌>>=◌}
use open_mos.Model.{Item, Story}
use open_mos.Table.{Table}
use open_mos.Repository.Stories
use open_mos.Repository.Items

-- The bytes that url.PathEscape leaves: letters, digits, and - _ . ~ $ & + : = @
abbrev is_plain : ℕ → Bool
is_plain c =
    leb b'a' c && leb c b'z'
    || leb b'A' c && leb c b'Z'
    || leb b'0' c && leb c b'9'
    || c == b'-'
    || c == b'_'
    || c == b'.'
    || c == b'~'
    || c == b'$'
    || c == b'&'
    || c == b'+'
    || c == b':'
    || c == b'='
    || c == b'@'

-- "0123456789ABCDEF"[d]
abbrev pub upper_hex : ℕ → ℕ
upper_hex d = if ltb d 10 then 48 + d else 55 + d

-- The escape of one byte, in front of a text.
unfoldable pub escape_byte : ℕ → Text → Text
escape_byte c r = if is_plain c then c ∷ r else b'%' ∷ upper_hex (c / 16) ∷ upper_hex (c % 16) ∷ r

-- url.PathEscape
unfoldable pub path_escape : Text → Text
unfolding escape_byte
path_escape [] = []
path_escape (c ∷ r) = escape_byte c (path_escape r)

unfoldable pub story_persistence_id : Text → Text → Text
unfolding path_escape
story_persistence_id ro story = path_escape ro ++ (b'/' ∷ path_escape story)

unfoldable pub item_persistence_id : Text → Text → Text
unfolding path_escape
item_persistence_id story item = story ++ (b'/' ∷ path_escape item)

-- The loop over the listed stories: the first whose wire or storage identifier fits.
unfoldable pub find_story : Text → List Story → Option Story
find_story wire [] = none
find_story wire (x ∷ xs) =
    if same x.raw_id wire || same x.id wire then some x else find_story wire xs

unfoldable pub find_item : Text → List Item → Option Item
find_item wire [] = none
find_item wire (x ∷ xs) = if same x.raw_id wire || same x.id wire then some x else find_item wire xs

abbrev pub story_not_held : Text → Error
story_not_held ro = unknown_running_order ro (failed "story is not held in this running order")

abbrev story_from_scan : Text → Option Story → Result Story
story_from_scan ro (some x) = ok x
story_from_scan ro none = err (story_not_held ro)

abbrev story_or_scan : Text → Text → Table Story → Result Story → Result Story
story_or_scan ro wire t (ok x) = ok x
story_or_scan ro wire t (err _) =
    story_from_scan ro (find_story wire (Stories.list_by_running_order ro t))

-- resolveStory
unfoldable pub resolve_story : Text → Text → Table Story → Result Story
resolve_story ro [] t = err (failed "empty storyID")
resolve_story ro (c ∷ r) t =
    story_or_scan ro (c ∷ r) t (Stories.get (story_persistence_id ro (c ∷ r)) t)

abbrev item_from_scan : Option Item → Result Item
item_from_scan (some x) = ok x
item_from_scan none = err (failed "item is not held in story")

abbrev item_or_scan : Text → Text → Table Item → Result Item → Result Item
item_or_scan story wire t (ok x) = ok x
item_or_scan story wire t (err _) = item_from_scan (find_item wire (Items.list_by_story story t))

-- resolveItem
unfoldable pub resolve_item : Text → Text → Table Item → Result Item
resolve_item story [] t = err (failed "empty itemID")
resolve_item story (c ∷ r) t =
    item_or_scan story (c ∷ r) t (Items.get (item_persistence_id story (c ∷ r)) t)

abbrev add_key : Text → Result Text → List Text × List Text → List Text × List Text
add_key wire (ok k) (keys, missing) = (k ∷ keys, missing)
add_key wire (err _) (keys, missing) = (keys, wire ∷ missing)

-- resolveStoryKeys: the keys found, and the identifiers that are not held
unfoldable pub resolve_story_keys : Text → List Text → Table Story → List Text × List Text
resolve_story_keys ro [] t = ([], [])
resolve_story_keys ro (wire ∷ rest) t =
    add_key wire (do x ← resolve_story ro wire t; ok x.id) (resolve_story_keys ro rest t)

-- resolveItemKeys
unfoldable pub resolve_item_keys : Text → List Text → Table Item → List Text × List Text
resolve_item_keys story [] t = ([], [])
resolve_item_keys story (wire ∷ rest) t =
    add_key wire (do x ← resolve_item story wire t; ok x.id) (resolve_item_keys story rest t)

-- storyKeyFor
unfoldable pub story_key_for : Text → Text → Table Story → Result Text
story_key_for ro wire t = do x ← resolve_story ro wire t; ok x.id
