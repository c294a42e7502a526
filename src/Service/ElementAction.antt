-- ===== src/Service/ElementAction.antt =====
-- ProcessElementAction and the dispatch of each operation (service/element_action.go).
use open_mos.Prelude.{List, [], ◌∷◌, Option, if◌then◌else◌}
use open_mos.Text.{Text, text, same, is_empty}
use open_mos.Outcome.{failed}
use open_mos.Exec.{Exec, raise}
use open_mos.Model.{Time}
use open_mos.Wire.{RoElementAction, ElementTarget, story, item, story_id, item_id, source_type}
use open_mos.Service.{MosService}
use open_mos.Service.Records.{target_story, target_item}
use open_mos.Service.StoryActions.{
  insert_stories, replace_stories, move_stories, delete_wire_stories, swap_stories,
}
use open_mos.Service.ItemActions.{
  insert_items, replace_items, move_items, delete_wire_items, swap_items,
}

-- Runs an item operation, which needs the story of the target.
abbrev pub in_target_story :
    Option ElementTarget → Exec MosService (Unit {0}) → Exec MosService (Unit {0})
in_target_story target m =
    if is_empty (target_story target)
    then raise (failed "item operation requires element_target with storyID")
    else m

unfoldable pub process_insert : Time → RoElementAction → Exec MosService (Unit {0})
unfolding source_type
process_insert now a = elim (source_type a.source) [
  | story ↦ insert_stories now a.ro_id a.target a.source.stories
  | item ↦
      in_target_story a.target
        (insert_items now a.ro_id (target_story a.target) (target_item a.target) a.source.items)
  | _ ↦ raise (failed "INSERT operation requires stories or items in element_source")
]

unfoldable pub process_replace : Time → RoElementAction → Exec MosService (Unit {0})
unfolding source_type
process_replace now a = elim (source_type a.source) [
  | story ↦ replace_stories now a.ro_id a.target a.source.stories
  | item ↦
      in_target_story a.target
        (replace_items now a.ro_id (target_story a.target) (target_item a.target) a.source.items)
  | _ ↦ raise (failed "REPLACE operation requires stories or items in element_source")
]

unfoldable pub process_move : Time → RoElementAction → Exec MosService (Unit {0})
unfolding source_type
process_move now a = elim (source_type a.source) [
  | story_id ↦ move_stories now a.ro_id a.target a.source.story_ids
  | item_id ↦
      in_target_story a.target
        (move_items now a.ro_id (target_story a.target) (target_item a.target) a.source.item_ids)
  | _ ↦ raise (failed "MOVE operation requires storyIDs or itemIDs in element_source")
]

unfoldable pub process_delete : Time → RoElementAction → Exec MosService (Unit {0})
unfolding source_type
process_delete now a = elim (source_type a.source) [
  | story_id ↦ delete_wire_stories now a.ro_id a.source.story_ids
  | item_id ↦
      in_target_story a.target
        (delete_wire_items now a.ro_id (target_story a.target) a.source.item_ids)
  | _ ↦ raise (failed "DELETE operation requires storyIDs or itemIDs in element_source")
]

-- Exactly two identifiers, given to the operation.
abbrev with_two :
    List Text → (Text → Text → Exec MosService (Unit {0})) → Exec MosService (Unit {0})
with_two (a ∷ b ∷ []) f = f a b
with_two _ f = raise (failed "SWAP operation requires exactly 2 identifiers")

unfoldable pub process_swap : Time → RoElementAction → Exec MosService (Unit {0})
unfolding source_type
process_swap now a = elim (source_type a.source) [
  | story_id ↦ with_two a.source.story_ids (swap_stories now a.ro_id)
  | item_id ↦
      with_two a.source.item_ids
        (λ b c. in_target_story a.target (swap_items now a.ro_id (target_story a.target) b c))
  | _ ↦ raise (failed "SWAP operation requires storyIDs or itemIDs in element_source")
]

unfoldable pub process_element_action : Time → RoElementAction → Exec MosService (Unit {0})
unfolding process_insert process_replace process_move process_delete process_swap
process_element_action now a =
    if same a.operation (text "INSERT")
    then process_insert now a
    else if same a.operation (text "REPLACE")
    then process_replace now a
    else if same a.operation (text "MOVE")
    then process_move now a
    else if same a.operation (text "DELETE")
    then process_delete now a
    else if same a.operation (text "SWAP")
    then process_swap now a
    else raise (failed "unsupported roElementAction operation")
