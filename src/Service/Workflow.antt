-- ===== src/Service/Workflow.antt =====
-- The running orders of src/internal/service/mos.go (Profile 2), and applyROList of service/resync.go. The
-- identifiers in the messages of errors are left out.
pub mod Removal
pub mod Stored
pub mod Deleted
pub mod Listed
pub mod Replaced
use open_mos.Prelude.{ℕ, suc, List, [], ◌∷◌, Option, none, some, if◌then◌else◌, map}
use open_mos.Text.{Text, text, is_empty}
use open_mos.Text.Trim.{trim_space}
use open_mos.Text.Number.{ℤ, atoi}
use open_mos.Outcome.{Result, ok, err, failed}
use open_mos.Exec.{Exec, pure, raise, lift, reads, for_each, annotate, ◌>>=◌, ◌>>◌}
use open_mos.Model.{
  Time, Story, RunningOrder, ExternalMetadata, zero_running_order, status_pending, Item,
}
use open_mos.Wire.{
  ItemInfo, StoryInfo, RunningOrderInfo, RoReplace, RoList, RoMetadataReplace, RoListAllItem,
}
use open_mos.Table.{lookup, put}
use open_mos.Repository.Stories
use open_mos.Repository.Items
use open_mos.Repository.RunningOrders
use open_mos.Service.{
  MosService, create_story, update_story, delete_story, create_item, update_item, delete_item,
  update_running_order, delete_running_order_record, create_running_order, publish_ro_update,
}
use open_mos.Service.Identity.{story_persistence_id, item_persistence_id}
use open_mos.Service.Timing.{Floats, preserve_external_metadata}
use open_mos.Service.Messages.{
  story_of, merge_story, item_of, merge_item, validate_running_order, parse_duration, is_blank,
  atoi_or, put_unless_empty, duration_seconds,
}

module _ {Rate : Type 0} (floats : Floats Rate) where
  -- Creates an item, or updates the one that is held.
  abbrev pub store_found : Time → Text → ℕ → ItemInfo → Result Item → Exec MosService (Unit {0})
  store_found now story position info (err e) =
      annotate "failed to create item" (create_item (item_of floats now story position info))
  store_found now story position info (ok old) =
      annotate "failed to update item" (update_item (merge_item floats now story position info old))

  unfoldable pub store_item : Time → Text → ℕ → ItemInfo → Exec MosService (Unit {0})
  unfolding item_of merge_item
  store_item now story position info s =
      store_found now story position info (Items.get (item_persistence_id story info.id) s.items) s

  -- storeItems, from a position
  unfoldable pub store_items : Time → Text → ℕ → List ItemInfo → Exec MosService (Unit {0})
  unfolding store_item
  store_items now story position [] = pure tt
  store_items now story position (info ∷ infos) =
      store_item now story position info >> store_items now story (suc position) infos

  -- The loop of ReplaceRunningOrder over the stories of the message, from a position.
  unfoldable pub create_all : Time → Text → ℕ → List StoryInfo → Exec MosService (Unit {0})
  unfolding story_of store_items
  create_all now ro position [] = pure tt
  create_all now ro position (info ∷ infos) =
      annotate "failed to create replacement story" (create_story (story_of now ro position info))
      >> store_items now (story_persistence_id ro info.id) 1 info.items
      >> create_all now ro (suc position) infos

  -- Creates a story, or updates the one that is held.
  abbrev pub store_found_story :
      Time → Text → ℕ → StoryInfo → Result Story → Exec MosService (Unit {0})
  store_found_story now ro position info (err e) =
      annotate "failed to create story" (create_story (story_of now ro position info))
  store_found_story now ro position info (ok old) =
      annotate "failed to update story" (update_story (merge_story now ro position info old))

  unfoldable pub store_story : Time → Text → ℕ → StoryInfo → Exec MosService (Unit {0})
  unfolding story_of merge_story
  store_story now ro position info s =
      store_found_story now ro position info
        (Stories.get (story_persistence_id ro info.id) s.stories) s

  -- The loop of ProcessRunningOrderInfo, from a position.
  unfoldable pub store_all : Time → Text → ℕ → List StoryInfo → Exec MosService (Unit {0})
  unfolding store_story store_items
  store_all now ro position [] = pure tt
  store_all now ro position (info ∷ infos) =
      store_story now ro position info
      >> store_items now (story_persistence_id ro info.id) 1 info.items
      >> store_all now ro (suc position) infos

-- The items of a story, and then the story.
unfoldable pub delete_story_and_items : Story → Exec MosService (Unit {0})
delete_story_and_items x = do
  items ← reads (λ s. ok (Items.list_by_story x.id s.items))
  for_each items (λ i. delete_item i.id)
  delete_story x.id

-- Every story of a running order.
unfoldable pub delete_contents : Text → Exec MosService (Unit {0})
unfolding delete_story_and_items
delete_contents ro = do
  stories ← reads (λ s. ok (Stories.list_by_running_order ro s.stories))
  for_each stories delete_story_and_items

-- DeleteRunningOrder
unfoldable pub delete_running_order : Text → Exec MosService (Unit {0})
unfolding delete_contents trim_space is_empty
delete_running_order ro =
    if is_blank ro
    then raise (failed "roID is required")
    else do delete_contents ro; delete_running_order_record ro; publish_ro_update ro

-- The running order of a message that is not held.
abbrev pub new_running_order :
    Time → Text → Text → Text → Text → ℤ → List ExternalMetadata → RunningOrder
new_running_order now ro mos_id slug channel duration metadata = record zero_running_order {
  id = ro;
  mos_id = mos_id;
  slug = slug;
  status = status_pending;
  duration = duration;
  channel = channel;
  version = 1;
  created_at = now;
  updated_at = now;
  external_metadata = metadata;
}

-- The running order of a roReplace that is held.
abbrev pub replaced : Time → RoReplace → RunningOrder → RunningOrder
replaced now m r = record r {
  slug = m.slug;
  channel = m.channel;
  duration = parse_duration m.ed_dur;
  external_metadata = preserve_external_metadata m.mos_external_metadata;
  version = suc r.version;
  updated_at = now;
}

abbrev pub replace_found : Time → RoReplace → Result RunningOrder → Exec MosService (Unit {0})
replace_found now m (err e) = annotate "failed to create running order" (
    create_running_order (
      new_running_order now m.id [] m.slug m.channel (parse_duration m.ed_dur)
        (preserve_external_metadata m.mos_external_metadata)))
replace_found now m (ok r) =
    annotate "failed to update running order" (update_running_order (replaced now m r))

-- Creates the running order of a roReplace, or updates the one that is held.
unfoldable pub replace_record : Time → RoReplace → Exec MosService (Unit {0})
unfolding preserve_external_metadata duration_seconds is_empty
replace_record now m s = replace_found now m (RunningOrders.get m.id s.running_orders) s

-- The running order of a roCreate that is held.
abbrev pub updated : Time → RunningOrderInfo → Text → RunningOrder → RunningOrder
updated now m mos_id r = record r {
  slug = m.slug;
  channel = m.channel;
  duration = parse_duration m.duration;
  external_metadata = preserve_external_metadata m.mos_external_metadata;
  updated_at = now;
  mos_id = if is_empty mos_id then r.mos_id else mos_id;
}

abbrev pub store_found_record :
    Time → RunningOrderInfo → Text → Result RunningOrder → Exec MosService (Unit {0})
store_found_record now m mos_id (err e) = annotate "failed to create running order" (
    create_running_order (
      new_running_order now m.id mos_id m.slug m.channel (parse_duration m.duration)
        (preserve_external_metadata m.mos_external_metadata)))
store_found_record now m mos_id (ok r) =
    annotate "failed to update running order" (update_running_order (updated now m mos_id r))

-- Creates the running order of a roCreate, or updates the one that is held.
unfoldable pub store_record : Time → RunningOrderInfo → Text → Exec MosService (Unit {0})
unfolding preserve_external_metadata duration_seconds is_empty
store_record now m mos_id s =
    store_found_record now m mos_id (RunningOrders.get m.id s.running_orders) s

module _ {Rate : Type 0} (floats : Floats Rate) where
  -- ReplaceRunningOrder
  unfoldable pub replace_running_order : Time → RoReplace → Exec MosService (Unit {0})
  replace_running_order now m = do
    lift (validate_running_order m.id m.slug m.stories)
    delete_contents m.id
    replace_record now m
    create_all floats now m.id 1 m.stories
    publish_ro_update m.id

  -- ProcessRunningOrderInfo
  unfoldable pub process_running_order_info :
      Time → RunningOrderInfo → Text → Exec MosService (Unit {0})
  process_running_order_info now m mos_id = do
    lift (validate_running_order m.id m.slug m.stories)
    store_record now m mos_id
    store_all floats now m.id 1 m.stories
    publish_ro_update m.id

  -- ApplyROList (service/resync.go)
  unfoldable pub apply_ro_list : Time → RoList → Text → Exec MosService (Unit {0})
  unfolding process_running_order_info is_empty
  apply_ro_list now list mos_id =
      if is_empty list.id
      then raise (failed "roList carried no roID")
      else annotate "failed to apply roList" (
          process_running_order_info now
            (record {
              id = list.id;
              slug = list.slug;
              channel = list.channel;
              edit_time = list.ed_start;
              start_time = [];
              duration = list.ed_dur;
              mos_external_metadata = list.mos_external_metadata;
              stories = list.stories;
            })
            mos_id)

abbrev or_old : Text → Text → Text
or_old new old = if is_empty new then old else new

-- The running order as ReplaceMetadata writes it.
unfoldable pub with_metadata : Time → RoMetadataReplace → RunningOrder → RunningOrder
unfolding preserve_external_metadata is_empty put atoi
with_metadata now m r = record r {
  external_metadata = preserve_external_metadata m.mos_external_metadata;
  slug = or_old m.slug r.slug;
  channel = or_old m.channel r.channel;
  duration = atoi_or r.duration m.ed_dur;
  metadata = put_unless_empty (text "macroOut") m.macro_out (
      put_unless_empty (text "macroIn") m.macro_in (
        put_unless_empty (text "trigger") m.trigger (
          put_unless_empty (text "edDur") m.ed_dur
            (put_unless_empty (text "edStart") m.ed_start r.metadata))));
  updated_at = now;
}

-- ReplaceMetadata
unfoldable pub replace_metadata : Time → RoMetadataReplace → Exec MosService (Unit {0})
unfolding with_metadata
replace_metadata now m = do
  r ← annotate "running order not found" (reads (λ s. RunningOrders.get m.id s.running_orders))
  annotate "failed to update running order metadata" (update_running_order (with_metadata now m r))
  publish_ro_update m.id

abbrev or_empty : Option Text → Text
or_empty none = []
or_empty (some t) = t

unfoldable pub compact : RunningOrder → RoListAllItem
unfolding lookup
compact r = record {
  id = r.id;
  slug = r.slug;
  channel = r.channel;
  ed_start = or_empty (lookup (text "edStart") r.metadata);
  ed_dur = or_empty (lookup (text "edDur") r.metadata);
  trigger = or_empty (lookup (text "trigger") r.metadata);
}

-- ListAllRunningOrdersCompact
unfoldable pub list_all_running_orders_compact : MosService → List RoListAllItem
unfolding compact
list_all_running_orders_compact s = map compact (RunningOrders.list s.running_orders)

abbrev pub paired : Text → MosService → Result RunningOrder → Result (RunningOrder × List Story)
paired ro s (err e) = err e
paired ro s (ok r) = ok (r, Stories.list_by_running_order ro s.stories)

-- GetRunningOrderWithStories
unfoldable pub get_running_order_with_stories :
    Text → MosService → Result (RunningOrder × List Story)
get_running_order_with_stories ro s = paired ro s (RunningOrders.get ro s.running_orders)
