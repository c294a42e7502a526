-- ===== src/Service/StoryActions.antt =====
-- The story operations of service/element_action.go.
pub mod Moving
pub mod Placed
pub mod Missing
pub mod Numbering
pub mod Move
pub mod Delete
use open_mos.Prelude.{
  ℕ, zero, suc, ◌+◌, ◌-◌, Bool, true, false, not, List, [], ◌∷◌, ◌++◌, Option, none, some, length,
  take, drop, keep, ltb, if◌then◌else◌, map,
}
use open_mos.Text.{is_one_of, Text, same, is_empty}
use open_mos.Outcome.{Error, Result, ok, err, failed, wrap, unknown_running_order, is_ok}
use open_mos.Exec.{Exec, pure, raise, lift, reads, ignore, ◌>>=◌, ◌>>◌, for_each, annotate}
use open_mos.Model.{Story, Item, Time}
use open_mos.Wire.{StoryInfo, ItemInfo, ElementTarget}
use open_mos.Repository.Stories
use open_mos.Repository.Items
use open_mos.Service.{
  MosService, create_story, update_story, delete_story, delete_stories, create_item, delete_item,
  delete_items, publish_ro_update,
}
use open_mos.Service.Identity.{resolve_story, resolve_story_keys, story_key_for}
use open_mos.Service.Records.{target_story, new_story, new_story_item, place_story, renumber}

-- s.storyRepo.ListByRunningOrder, which the memory backend never fails
abbrev pub list_stories : Text → Exec MosService (List Story)
list_stories ro = reads (λ s. ok (Stories.list_by_running_order ro s.stories))

-- `0` where the target names no story
abbrev position_of_target : Text → Option ElementTarget → Exec MosService ℕ
position_of_target ro target = if is_empty (target_story target) then pure 0 else do
  x ←
      annotate "target story not found"
        (reads (λ s. resolve_story ro (target_story target) s.stories))
  pure x.order

-- Every listed story behind a position moves back by a number of places.
unfoldable pub shift_stories : Time → ℕ → ℕ → List Story → Exec MosService (Unit {0})
unfolding place_story
shift_stories now after by existing = for_each existing λ x.
    if ltb after x.order
    then annotate "failed to shift story order" (update_story (place_story now (x.order + by) x))
    else pure tt

-- The items of a story that is brought; an item that cannot be created is logged and left out.
unfoldable pub create_items : Time → Text → ℕ → List ItemInfo → Exec MosService (Unit {0})
unfolding new_story_item
create_items now story position [] = pure tt
create_items now story position (info ∷ infos) =
    ignore (create_item (new_story_item now story position info))
    >> create_items now story (suc position) infos

-- The loop that creates the stories of an INSERT, from a position.
unfoldable pub create_stories : Time → Text → ℕ → List StoryInfo → Exec MosService (Unit {0})
unfolding new_story create_items
create_stories now ro position [] = pure tt
create_stories now ro position (info ∷ infos) =
    annotate "failed to insert story" (create_story (new_story now ro position info))
    >> create_items now (new_story now ro position info).id 1 info.items
    >> create_stories now ro (suc position) infos

-- InsertStories
unfoldable pub insert_stories :
    Time → Text → Option ElementTarget → List StoryInfo → Exec MosService (Unit {0})
unfolding shift_stories create_stories
insert_stories now ro target stories = do
  after ← position_of_target ro target
  existing ← list_stories ro
  shift_stories now after (length stories) existing
  create_stories now ro (after + 1) stories
  publish_ro_update ro

-- A story that is held keeps its creation time; another is created.
unfoldable pub put_story : Story → Exec MosService (Unit {0})
put_story x s = elim (Stories.get x.id s.stories) [
  | ok old ↦
      annotate "failed to update replacement story"
        (update_story (record x { created_at = old.created_at })) s
  | err e ↦ annotate "failed to create replacement story" (create_story x) s
]

unfoldable pub put_stories : Time → Text → ℕ → List StoryInfo → Exec MosService (Unit {0})
unfolding new_story put_story create_items
put_stories now ro position [] = pure tt
put_stories now ro position (info ∷ infos) =
    put_story (new_story now ro position info)
    >> create_items now (new_story now ro position info).id 1 info.items
    >> put_stories now ro (suc position) infos

-- The items of a story, deleted one by one.
unfoldable pub delete_items_of : Text → Exec MosService (Unit {0})
delete_items_of story = do
  items ← reads (λ s. ok (Items.list_by_story story s.items))
  for_each items (λ i. delete_item i.id)

-- Only several replacements shift the stories behind.
unfoldable pub make_room : Time → Text → ℕ → ℕ → Exec MosService (Unit {0})
unfolding shift_stories
make_room now ro after count =
    if ltb 1 count
    then (do existing ← list_stories ro; shift_stories now after (count - 1) existing)
    else pure tt

-- ReplaceStories. The story that is deleted is the one under the wire identifier of the target.
unfoldable pub replace_stories :
    Time → Text → Option ElementTarget → List StoryInfo → Exec MosService (Unit {0})
unfolding delete_items_of make_room put_stories
replace_stories now ro target stories =
    if is_empty (target_story target)
    then raise (failed "REPLACE story requires element_target with storyID")
    else do
      x ←
          annotate "target story not found"
            (reads (λ s. resolve_story ro (target_story target) s.stories))
      delete_items_of x.id
      delete_story (target_story target)
      make_room now ro x.order (length stories)
      put_stories now ro x.order stories
      publish_ro_update ro

-- The key of the story that MOVE names as its target, empty where it names none.
abbrev pub key_of_target : Text → Option ElementTarget → Exec MosService Text
key_of_target ro target = if is_empty (target_story target) then pure [] else do
  x ←
      annotate "target story not found"
        (reads (λ s. resolve_story ro (target_story target) s.stories))
  pure x.id

-- The index of the first story with the key, or the length of the list.
unfoldable pub index_of : Text → List Story → ℕ
index_of key [] = 0
index_of key (x ∷ xs) = if same x.id key then 0 else suc (index_of key xs)

-- `insertIdx` of MOVE: the target's index among the stories that stay, or their end.
unfoldable pub insert_index : Text → List Story → ℕ
unfolding index_of
insert_index key remaining = if is_empty key then length remaining else index_of key remaining

-- remaining[:insertIdx] + moving + remaining[insertIdx:]
unfoldable pub moved_order : List Text → Text → List Story → List Story
unfolding insert_index
moved_order keys target all =
    let moving = keep (λ x. is_one_of keys x.id) all in
    let remaining = keep (λ x. not (is_one_of keys x.id)) all in
    let i = insert_index target remaining in take i remaining ++ (moving ++ drop i remaining)

abbrev refuse_missing : Text → List Text → Exec MosService (Unit {0})
refuse_missing ro [] = pure tt
refuse_missing ro (_ ∷ _) =
    raise (unknown_running_order ro (failed "stories not held by this device"))

-- MoveStories
unfoldable pub move_stories :
    Time → Text → Option ElementTarget → List Text → Exec MosService (Unit {0})
unfolding moved_order
move_stories now ro target wire_ids = do
  key ← key_of_target ro target
  all ← list_stories ro
  found ← reads (λ s. ok (resolve_story_keys ro wire_ids s.stories))
  refuse_missing ro found.1
  for_each (renumber now 1 (moved_order found.0 key all))
      (λ x. annotate "failed to update story order" (update_story x))
  publish_ro_update ro

-- The item keys of the stories that are held; a story that is not is skipped.
unfoldable pub items_of_stories : Text → List Text → MosService → List Text
items_of_stories ro [] s = []
items_of_stories ro (wire ∷ rest) s = elim (story_key_for ro wire s.stories) [
  | ok key ↦
      map (λ (i : Item). i.id) (Items.list_by_story key s.items) ++ items_of_stories ro rest s
  | err _ ↦ items_of_stories ro rest s
]

-- DeleteStories. The batch delete of the stories is given their wire identifiers.
unfoldable pub delete_wire_stories : Time → Text → List Text → Exec MosService (Unit {0})
unfolding items_of_stories
delete_wire_stories now ro wire_ids = do
  item_ids ← reads (λ s. ok (items_of_stories ro wire_ids s))
  if ltb 0 (length item_ids) then delete_items item_ids else pure tt
  delete_stories wire_ids
  remaining ← list_stories ro
  for_each (renumber now 1 remaining) (λ x. ignore (update_story x))
  publish_ro_update ro

-- SwapStories
unfoldable pub swap_stories : Time → Text → Text → Text → Exec MosService (Unit {0})
unfolding place_story
swap_stories now ro wire_1 wire_2 = do
  x ← annotate "story not found" (reads (λ s. resolve_story ro wire_1 s.stories))
  y ← annotate "story not found" (reads (λ s. resolve_story ro wire_2 s.stories))
  annotate "failed to update story" (update_story (place_story now y.order x))
  annotate "failed to update story" (update_story (place_story now x.order y))
  publish_ro_update ro
