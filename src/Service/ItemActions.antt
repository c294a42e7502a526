-- ===== src/Service/ItemActions.antt =====
-- The item operations of service/element_action.go, and SetReadyToAir.
use open_mos.Prelude.{
  ℕ, suc, ◌+◌, ◌-◌, not, List, [], ◌∷◌, ◌++◌, length, take, drop, keep, ltb, leb, if◌then◌else◌,
}
use open_mos.Text.{is_one_of, Text, text, is_empty}
use open_mos.Outcome.{ok, failed, unknown_running_order}
use open_mos.Exec.{Exec, pure, raise, reads, ignore, ◌>>=◌, ◌>>◌, for_each, annotate}
use open_mos.Model.{Item, Time}
use open_mos.Wire.{ItemInfo}
use open_mos.Table.{put}
use open_mos.Repository.Items
use open_mos.Repository.RunningOrders
use open_mos.Service.{
  MosService, create_item, update_item, delete_item, delete_items, publish_ro_update,
  update_running_order,
}
use open_mos.Service.Identity.{resolve_item, resolve_item_keys, story_key_for}
use open_mos.Service.Records.{new_item, place_item, renumber_items}

-- s.itemRepo.ListByStory, which the memory backend never fails
abbrev pub list_items : Text → Exec MosService (List Item)
list_items story = reads (λ s. ok (Items.list_by_story story s.items))

abbrev pub key_for : Text → Text → Exec MosService Text
key_for ro wire = reads (λ s. story_key_for ro wire s.stories)

abbrev pub find_target : Text → Text → Exec MosService Item
find_target story wire =
    annotate "target item not found" (reads (λ s. resolve_item story wire s.items))

-- `0` where no item is named
abbrev position_of_item : Text → Text → Exec MosService ℕ
position_of_item story wire =
    if is_empty wire then pure 0 else do x ← find_target story wire; pure x.order

unfoldable pub shift_items : Time → ℕ → ℕ → List Item → Exec MosService (Unit {0})
unfolding place_item
shift_items now after by existing = for_each existing λ x.
    if ltb after x.order
    then annotate "failed to shift item order" (update_item (place_item now (x.order + by) x))
    else pure tt

-- The loop that creates the items, from a position. The first failure ends it.
unfoldable pub create_new_items : Time → Text → ℕ → List ItemInfo → Exec MosService (Unit {0})
unfolding new_item
create_new_items now story position [] = pure tt
create_new_items now story position (info ∷ infos) =
    annotate "failed to insert item" (create_item (new_item now story position info))
    >> create_new_items now story (suc position) infos

-- InsertItems
unfoldable pub insert_items : Time → Text → Text → Text → List ItemInfo → Exec MosService (Unit {0})
unfolding shift_items create_new_items
insert_items now ro wire_story target infos = do
  story ← key_for ro wire_story
  after ← position_of_item story target
  existing ← list_items story
  shift_items now after (length infos) existing
  create_new_items now story (after + 1) infos
  publish_ro_update ro

-- Only several replacements shift the items behind.
unfoldable pub make_item_room : Time → Text → ℕ → ℕ → Exec MosService (Unit {0})
unfolding shift_items
make_item_room now story after count =
    if ltb 1 count
    then (do existing ← list_items story; shift_items now after (count - 1) existing)
    else pure tt

-- ReplaceItems. The item that is deleted is the one under the wire identifier of the target.
unfoldable pub replace_items :
    Time → Text → Text → Text → List ItemInfo → Exec MosService (Unit {0})
unfolding make_item_room create_new_items
replace_items now ro wire_story target infos = do
  story ← key_for ro wire_story
  if is_empty target then raise (failed "REPLACE item requires target itemID") else do
    x ← find_target story target
    delete_item target
    make_item_room now story x.order (length infos)
    create_new_items now story x.order infos
    publish_ro_update ro

-- `insertIdx` of an item MOVE: behind the last item whose order is at most the target's.
unfoldable pub item_index : ℕ → ℕ → ℕ → List Item → ℕ
item_index target i found [] = found
item_index target i found (x ∷ xs) =
    item_index target (suc i) (if leb x.order target then suc i else found) xs

unfoldable pub moved_items : List Text → ℕ → List Item → List Item
unfolding item_index
moved_items keys target all =
    let moving = keep (λ x. is_one_of keys x.id) all in
    let remaining = keep (λ x. not (is_one_of keys x.id)) all in
    let i = item_index target 0 0 remaining in take i remaining ++ (moving ++ drop i remaining)

abbrev refuse_missing_items : Text → List Text → Exec MosService (Unit {0})
refuse_missing_items ro [] = pure tt
refuse_missing_items ro (_ ∷ _) =
    raise (unknown_running_order ro (failed "items not held in story"))

-- MoveItems. The target and the listing are looked up under the wire identifier of the story, and
-- the items to move under its key.
unfoldable pub move_items : Time → Text → Text → Text → List Text → Exec MosService (Unit {0})
unfolding moved_items
move_items now ro wire_story target wire_ids = do
  position ← position_of_item wire_story target
  all ← list_items wire_story
  story ← key_for ro wire_story
  found ← reads (λ s. ok (resolve_item_keys story wire_ids s.items))
  refuse_missing_items ro found.1
  for_each (renumber_items now 1 (moved_items found.0 position all))
      (λ x. annotate "failed to update item order" (update_item x))
  publish_ro_update ro

-- DeleteItems; identifiers that are not held are logged and skipped.
unfoldable pub delete_wire_items : Time → Text → Text → List Text → Exec MosService (Unit {0})
delete_wire_items now ro wire_story wire_ids = do
  story ← key_for ro wire_story
  found ← reads (λ s. ok (resolve_item_keys story wire_ids s.items))
  delete_items found.0
  remaining ← list_items story
  for_each (renumber_items now 1 remaining) (λ x. ignore (update_item x))
  publish_ro_update ro

-- SwapItems
unfoldable pub swap_items : Time → Text → Text → Text → Text → Exec MosService (Unit {0})
unfolding place_item
swap_items now ro wire_story wire_1 wire_2 = do
  story ← key_for ro wire_story
  x ← annotate "item not found" (reads (λ s. resolve_item story wire_1 s.items))
  y ← annotate "item not found" (reads (λ s. resolve_item story wire_2 s.items))
  annotate "failed to update item" (update_item (place_item now y.order x))
  annotate "failed to update item" (update_item (place_item now x.order y))
  publish_ro_update ro

-- SetReadyToAir
unfoldable pub set_ready_to_air : Time → Text → Text → Exec MosService (Unit {0})
set_ready_to_air now ro air = do
  x ← annotate "running order not found" (reads (λ s. RunningOrders.get ro s.running_orders))
  annotate "failed to update running order" (
      update_running_order
        (record x { metadata = put (text "roAir") air x.metadata; updated_at = now }))
  publish_ro_update ro
