-- ===== src/Tests/Stories.antt =====
-- Element actions on a running order of three stories, the first of which has an item.
use open_mos.Prelude.{
  arith, inl, inr, ◌≡◌, refl, List, [], ◌∷◌, ◌++◌, Option, none, some, false, ℕ, inl, All,
}
use open_mos.Text.{Text, text, is_one_of, is_empty}
use open_mos.Outcome.{ok, err, Error, lost_synchronisation}
use open_mos.Model.{Story, Item, zero_story, zero_item}
use open_mos.Wire.{ElementTarget}
use open_mos.Table.{lookup, values, put}
use open_mos.Table.Selected.{selected}
use open_mos.Table.Listing.{sort}
use open_mos.Repository
use open_mos.Service.Identity.{find_story}
use open_mos.Text.{same}
use open_mos.Table.Rewrite.{has_ident}
use open_mos.Repository.Stories
use open_mos.Repository.Items
use open_mos.Service.{MosService}
use open_mos.Service.Identity.{
  resolve_story_keys, resolve_story, story_key_for, story_persistence_id,
}
use open_mos.Service.Records.{renumber}
use open_mos.Service.StoryActions.{move_stories, delete_wire_stories}
use open_mos.Service.StoryActions.Moving.{story_ident}
use open_mos.Service.StoryActions.Placed.{ArePlaced, numbered}
use open_mos.Service.StoryActions.Missing.{IsNotHeld, move_stories_missing}
use open_mos.Service.StoryActions.Move.{move_stories_lem}
use open_mos.Service.StoryActions.Delete.{delete_wire_stories_keeps, delete_wire_stories_items}
use open_mos.Service.StoryActions.Numbering.{StoriesKeyed}
use open_mos.Exec.{for_each}

abbrev story_at : Text → ℕ → Story
story_at wire n = record zero_story {
  id = text "R/" ++ wire;
  raw_id = wire;
  running_order_id = text "R";
  order = n;
}

abbrev story_a : Story
story_a = story_at (text "A") 1

abbrev story_b : Story
story_b = story_at (text "B") 2

abbrev story_c : Story
story_c = story_at (text "C") 3

abbrev item_a : Item
item_a = record zero_item { id = text "R/A/1"; raw_id = text "1"; story_id = text "R/A"; order = 1 }

abbrev rundown : MosService
rundown = record {
  running_orders = [];
  stories = (story_a.id, story_a) ∷ (story_b.id, story_b) ∷ (story_c.id, story_c) ∷ [];
  items = (item_a.id, item_a) ∷ [];
  objects = [];
  event_bus = none;
}

abbrev before_a : Option ElementTarget
before_a = some (record { story_id = text "A"; item_id = [] })

rundown-StoriesKeyed : StoriesKeyed rundown
unfolding lookup same
rundown-StoriesKeyed = (refl, refl, (refl, refl, (refl, refl, tt)))

unkeyed_a : All (λ w. lookup w rundown.stories ≡ none) (text "A" ∷ [])
unfolding lookup same
unkeyed_a = (refl, tt)

-- C in front of A.
moved_rundown :
    Stories.list_by_running_order
      (text "R")
      (move_stories 9 (text "R") before_a (text "C" ∷ []) rundown).1.stories
    ≡ renumber 9 1 (story_c ∷ story_a ∷ story_b ∷ [])
unfolding move_stories Stories.list_by_running_order renumber selected sort values is_empty
    resolve_story Repository.get lookup same story_persistence_id resolve_story_keys for_each
    is_one_of Repository.update put
moved_rundown = refl

move_stories_lem_example :
    ((move_stories 9 (text "R") before_a (text "C" ∷ []) rundown).0 ≡ ok tt)
    × ((placed : List Story) × ArePlaced
          (text "R/C" ∷ [])
          (text "R/A")
          (Stories.list_by_running_order (text "R") rundown.stories)
          placed
        × (Stories.list_by_running_order
              (text "R")
              (move_stories 9 (text "R") before_a (text "C" ∷ []) rundown).1.stories
            ≡ numbered 9 1 placed))
    × ((k : Text)
        → has_ident story_ident k (Stories.list_by_running_order (text "R") rundown.stories) ≡ false
        → lookup k (move_stories 9 (text "R") before_a (text "C" ∷ []) rundown).1.stories
          ≡ lookup k rundown.stories)
    × ((move_stories 9 (text "R") before_a (text "C" ∷ []) rundown).1.items ≡ rundown.items)
    × ((move_stories 9 (text "R") before_a (text "C" ∷ []) rundown).1.running_orders
        ≡ rundown.running_orders)
unfolding resolve_story resolve_story_keys is_empty Repository.get lookup same story_persistence_id
    find_story Stories.list_by_running_order selected sort values is_one_of has_ident
move_stories_lem_example =
    move_stories_lem 9 (text "R") before_a (text "C" ∷ []) rundown (text "R/A") (text "R/C" ∷ [])
      rundown-StoriesKeyed refl refl

z-IsNotHeld : IsNotHeld (text "R") (text "Z") rundown.stories
unfolding Stories.list_by_running_order selected sort values lookup same story_persistence_id
z-IsNotHeld = (
  refl,
  (
    (ground arith, ground arith),
    ((ground arith, ground arith), ((ground arith, ground arith), tt)),
  ),
)

move_stories_missing_example :
    (e : Error) × (move_stories 9 (text "R") before_a (text "C" ∷ text "Z" ∷ []) rundown
      ≡ (err e, rundown))
    × (lost_synchronisation e ≡ some (text "R"))
unfolding resolve_story resolve_story_keys is_empty Repository.get lookup same story_persistence_id
    find_story Stories.list_by_running_order selected sort values is_one_of has_ident
move_stories_missing_example =
    move_stories_missing 9 (text "R") (text "Z") (text "R/A") before_a (text "C" ∷ text "Z" ∷ [])
      rundown refl (inr (inl refl)) z-IsNotHeld

delete_wire_stories_keeps_example :
    ((delete_wire_stories 9 (text "R") (text "A" ∷ []) rundown).0 ≡ ok tt)
    × (Stories.list_by_running_order
          (text "R")
          (delete_wire_stories 9 (text "R") (text "A" ∷ []) rundown).1.stories
        ≡ renumber 9 1 (Stories.list_by_running_order (text "R") rundown.stories))
delete_wire_stories_keeps_example =
    delete_wire_stories_keeps 9 (text "R") (text "A" ∷ []) rundown rundown-StoriesKeyed unkeyed_a

delete_wire_stories_items_example :
    Items.list_by_story
      (text "R/A")
      (delete_wire_stories 9 (text "R") (text "A" ∷ []) rundown).1.items
    ≡ []
unfolding resolve_story resolve_story_keys is_empty Repository.get lookup same story_persistence_id
    find_story Stories.list_by_running_order selected sort values is_one_of has_ident story_key_for
delete_wire_stories_items_example =
    delete_wire_stories_items 9 (text "R") (text "A" ∷ []) rundown (text "A") (text "R/A")
      rundown-StoriesKeyed (refl, refl, tt) unkeyed_a (inl refl) refl
