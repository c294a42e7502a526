-- ===== src/Service/ObjectStore.antt =====
-- The objects of src/internal/service/mos.go (Profiles 1 and 3), and ReplaceItemInStory. `format_time` is the
-- printing of an instant in time.RFC3339; the identifier that utils.GenerateID makes, or its error, is an
-- argument.
pub mod Stored
use open_mos.Prelude.{List, [], ◌∷◌, Option, none, some, map, if◌then◌else◌}
use open_mos.Text.{Text, text, is_empty}
use open_mos.Outcome.{Result, ok, err, wrap}
use open_mos.Exec.{Exec, lift, reads, annotate, ◌>>=◌, ◌>>◌}
use open_mos.Model.{Time, Item, MosObject, zero_mos_object, zero_item, status_pending}
use open_mos.Table.{Table, lookup, put}
use open_mos.Repository.Items
use open_mos.Repository.Stories
use open_mos.Repository.Objects
use open_mos.Events.{identifier, object_created, object_updated, item_changed}
use open_mos.Wire.Objects.{MosObj, zero_mos_obj, MosObjCreate, MosItemReplace}
use open_mos.Service.{
  MosService, create_object, update_object, create_item, update_item, publish_event,
}
use open_mos.Service.Messages.{put_unless_empty}
use open_mos.Service.StorySend.{service_event}

-- A missing key of the map reads as the empty string.
abbrev value_of : Text → Table Text → Text
value_of k t = elim (lookup k t) [ none ↦ [] | some v ↦ v ]

unfoldable pub object_message : (Time → Text) → MosObject → MosObj
unfolding lookup
object_message format_time o = record zero_mos_obj {
  obj_id = o.id;
  obj_slug = o.slug;
  mos_abstract = o.mos_abstract;
  obj_type = o.object_type;
  obj_tb = o.time_base;
  obj_dur = o.duration;
  status = o.status;
  created_by = value_of (text "createdBy") o.metadata;
  created = format_time o.created_at;
  changed_by = value_of (text "changedBy") o.metadata;
  changed = format_time o.updated_at;
  description = value_of (text "description") o.metadata;
}

abbrev printed_object : (Time → Text) → Result MosObject → Result MosObj
printed_object format_time (ok o) = ok (object_message format_time o)
printed_object format_time (err e) = err e

-- GetObject
unfoldable pub get_object : (Time → Text) → Text → MosService → Result MosObj
unfolding object_message
get_object format_time id s =
    wrap "failed to get object" (printed_object format_time (Objects.get id s.objects))

-- GetAllObjects
unfoldable pub get_all_objects : (Time → Text) → MosService → List MosObj
unfolding object_message
get_all_objects format_time s = map (object_message format_time) (Objects.list s.objects)

-- The object of a mosObj that is not held.
unfoldable pub object_of : Time → MosObj → MosObject
object_of now m = record zero_mos_object {
  id = m.obj_id;
  slug = m.obj_slug;
  mos_abstract = m.mos_abstract;
  object_type = m.obj_type;
  time_base = m.obj_tb;
  duration = m.obj_dur;
  status = m.status;
  metadata =
      (text "createdBy", m.created_by)
      ∷ (text "changedBy", m.changed_by)
      ∷ (text "description", m.description)
      ∷ (text "objGroup", m.obj_group)
      ∷ (text "objAir", m.obj_air)
      ∷ [];
  created_at = now;
  updated_at = now;
}

-- The object of a mosObj that is held.
unfoldable pub merge_object : Time → MosObj → MosObject → MosObject
unfolding is_empty put
merge_object now m o = record o {
  slug = m.obj_slug;
  mos_abstract = m.mos_abstract;
  object_type = m.obj_type;
  time_base = m.obj_tb;
  duration = m.obj_dur;
  updated_at = now;
  status = if is_empty m.status then o.status else m.status;
  metadata = put_unless_empty (text "objGroup") m.obj_group (
      put_unless_empty (text "description") m.description
        (put_unless_empty (text "changedBy") m.changed_by o.metadata));
}

abbrev pub store_found_object : Time → MosObj → Result MosObject → Exec MosService (Unit {0})
store_found_object now m (err e) =
    annotate "failed to create object" (create_object (object_of now m))
    >> publish_event (service_event object_created (identifier m.obj_id))
store_found_object now m (ok old) =
    annotate "failed to update object" (update_object (merge_object now m old))
    >> publish_event (service_event object_updated (identifier m.obj_id))

-- StoreObject
unfoldable pub store_object : Time → MosObj → Exec MosService (Unit {0})
unfolding object_of merge_object
store_object now m s = store_found_object now m (Objects.get m.obj_id s.objects) s

-- CreateObjectFromNCS
unfoldable pub create_object_from_ncs : Result Text → Time → MosObjCreate → Exec MosService Text
create_object_from_ncs generated now m = do
  id ← annotate "failed to generate object ID" (lift generated)
  annotate "failed to create object" (
      create_object (record zero_mos_object {
        id = id;
        slug = m.obj_slug;
        object_type = m.obj_type;
        time_base = m.obj_tb;
        duration = m.obj_dur;
        status = status_pending;
        metadata =
            (text "createdBy", m.created_by)
            ∷ (text "description", m.description)
            ∷ (text "objGroup", m.obj_group)
            ∷ [];
        created_at = now;
        updated_at = now;
      }))
  publish_event (service_event object_created (identifier id))
  lift (ok id)

-- The item of a mosItemReplace that is held.
unfoldable pub replaced_item : Time → MosItemReplace → Item → Item
unfolding is_empty put
replaced_item now m i = record i {
  slug = m.item.item_slug;
  object_id = m.item.obj_id;
  duration = m.item.item_ed_dur;
  updated_at = now;
  metadata =
      put_unless_empty (text "itemChannel") m.item.item_channel
        (put_unless_empty (text "mosID") m.item.mos_id i.metadata);
}

abbrev replace_found_item : Time → MosItemReplace → Result Item → Exec MosService (Unit {0})
replace_found_item now m (err e) = annotate "failed to create replacement item" (
    create_item (record zero_item {
      id = m.item.item_id;
      story_id = m.story_id;
      slug = m.item.item_slug;
      object_id = m.item.obj_id;
      duration = m.item.item_ed_dur;
      status = status_pending;
      created_at = now;
      updated_at = now;
    }))
replace_found_item now m (ok i) =
    annotate "failed to update item" (update_item (replaced_item now m i))

-- ReplaceItemInStory
unfoldable pub replace_item_in_story : Time → MosItemReplace → Exec MosService (Unit {0})
unfolding replaced_item
replace_item_in_story now m = do
  x ← annotate "story not found" (reads (λ s. Stories.get m.story_id s.stories))
  λ s. replace_found_item now m (Items.get m.item.item_id s.items) s
  publish_event (service_event item_changed (identifier m.item.item_id))
