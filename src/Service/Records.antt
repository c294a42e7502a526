-- ===== src/Service/Records.antt =====
-- The records that the element actions build from the wire (service/element_action.go), and the
-- renumbering that MOVE and DELETE write.
use open_mos.Prelude.{ℕ, List, [], ◌∷◌, Option, none, some, if◌then◌else◌, suc}
use open_mos.Text.{Text, is_empty}
use open_mos.Text.Number.{atoi}
use open_mos.Model.{Item, Story, Time, zero_item, zero_story, status_pending}
use open_mos.Wire.{StoryInfo, ItemInfo, ElementTarget}
use open_mos.Service.Identity.{story_persistence_id, item_persistence_id}

-- `target.StoryID`, empty where the target is nil
abbrev pub target_story : Option ElementTarget → Text
target_story none = []
target_story (some t) = t.story_id

abbrev pub target_item : Option ElementTarget → Text
target_item none = []
target_item (some t) = t.item_id

-- The story of a StoryInfo, at a position.
unfoldable pub new_story : Time → Text → ℕ → StoryInfo → Story
new_story now ro position info = record zero_story {
  id = story_persistence_id ro info.id;
  raw_id = info.id;
  running_order_id = ro;
  slug = info.slug;
  number = info.number;
  status = status_pending;
  order = position;
  created_at = now;
  updated_at = now;
}

-- A duration that does not parse leaves zero.
unfoldable pub with_duration : Text → Item → Item
with_duration d item =
    if is_empty d
    then item
    else elim (atoi d) [ none ↦ item | some n ↦ record item { duration = n } ]

-- An item of a story that INSERT or REPLACE brings: keyed under its story.
unfoldable pub new_story_item : Time → Text → ℕ → ItemInfo → Item
unfolding with_duration
new_story_item now story position info = with_duration info.duration (record zero_item {
  id = item_persistence_id story info.id;
  raw_id = info.id;
  story_id = story;
  slug = info.slug;
  object_id = info.object_id;
  order = position;
  status = status_pending;
  created_at = now;
  updated_at = now;
})

-- An item that an item-level INSERT or REPLACE brings: its wire identifier is its key, and it has
-- no raw identifier.
unfoldable pub new_item : Time → Text → ℕ → ItemInfo → Item
unfolding with_duration
new_item now story position info = with_duration info.duration (record zero_item {
  id = info.id;
  story_id = story;
  slug = info.slug;
  object_id = info.object_id;
  order = position;
  status = status_pending;
  created_at = now;
  updated_at = now;
})

unfoldable pub place_story : Time → ℕ → Story → Story
place_story now position x = record x { order = position; updated_at = now }

unfoldable pub place_item : Time → ℕ → Item → Item
place_item now position x = record x { order = position; updated_at = now }

-- The stories as they are written back: numbered in their sequence, from a first number.
unfoldable pub renumber : Time → ℕ → List Story → List Story
unfolding place_story
renumber now n [] = []
renumber now n (x ∷ xs) = place_story now n x ∷ renumber now (suc n) xs

unfoldable pub renumber_items : Time → ℕ → List Item → List Item
unfolding place_item
renumber_items now n [] = []
renumber_items now n (x ∷ xs) = place_item now n x ∷ renumber_items now (suc n) xs
