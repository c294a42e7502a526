-- ===== src/Wire/StorySend.antt =====
-- The messages that carry the body of a story: StoryItem, StoryItemFields, StoryBody and ROStorySend
-- (src/internal/xml/story_messages.go), BodyCue (story_cues.go), StoryActionBody (story_action.go), and the
-- messages of src/internal/xml/control_messages.go. `ordered` of a body is what
-- its method OrderedSource reads from its XML, which is not modelled.
use open_mos.Prelude.{ℕ, not, ◌||◌, List, [], Option, none, some, if◌then◌else◌}
use open_mos.Text.{Text, is_empty}
use open_mos.Text.Number.{ℤ}
use open_mos.Outcome.{Result, err, failed}
use open_mos.Table.{Table}
use open_mos.Wire.{ObjPaths, MosExternalMetadata, ItemInfo}

pub record StoryItemFields : Type 0 where
  pub item_id : Text
  pub item_slug : Text
  pub obj_id : Text
  pub mos_id : Text
  pub mos_abstract : Text
  pub item_ed_start : ℤ
  pub item_ed_dur : ℤ
  pub obj_dur : Text
  pub obj_tb : Text
  pub obj_paths : Option ObjPaths
  pub item_user_timing_dur : ℤ
  pub item_channel : Text
  pub macro_in : Text
  pub macro_out : Text
  pub external_meta : List MosExternalMetadata

-- `StoryItem` without Source, which is read by the source synchronisation alone.
pub record StoryItem : Type 0 where
  pub mos_item : Option StoryItemFields
  pub item_id : Text
  pub item_slug : Text
  pub mos_abstract : Text
  pub obj_id : Text
  pub mos_id : Text
  pub item_ed_start : ℤ
  pub item_ed_dur : ℤ
  pub obj_dur : Text
  pub obj_tb : Text
  pub obj_paths : Option ObjPaths
  pub item_user_timing_dur : ℤ
  pub macro_in : Text
  pub macro_out : Text
  pub external_meta : List MosExternalMetadata

-- The fields of the flat shape, which has no channel.
abbrev flat_fields : StoryItem → StoryItemFields
flat_fields s = record {
  item_id = s.item_id;
  item_slug = s.item_slug;
  obj_id = s.obj_id;
  mos_id = s.mos_id;
  mos_abstract = s.mos_abstract;
  item_ed_start = s.item_ed_start;
  item_ed_dur = s.item_ed_dur;
  obj_dur = s.obj_dur;
  obj_tb = s.obj_tb;
  obj_paths = s.obj_paths;
  item_user_timing_dur = s.item_user_timing_dur;
  item_channel = [];
  macro_in = s.macro_in;
  macro_out = s.macro_out;
  external_meta = s.external_meta;
}

-- A missing slug borrows the abstract.
abbrev with_label : StoryItemFields → StoryItemFields
with_label f = record f { item_slug = if is_empty f.item_slug then f.mos_abstract else f.item_slug }

abbrev flat_shape : StoryItem → Option StoryItemFields
flat_shape s =
    if not (is_empty s.item_id) || not (is_empty s.obj_id)
    then some (with_label (flat_fields s))
    else none

abbrev first_shape : StoryItem → Option StoryItemFields → Option StoryItemFields
first_shape s none = flat_shape s
first_shape s (some f) =
    if not (is_empty f.item_id) || not (is_empty f.obj_id)
    then some (with_label f)
    else flat_shape s

-- StoryItem.ItemFields, none for nil
unfoldable pub item_fields : StoryItem → Option StoryItemFields
item_fields s = first_shape s s.mos_item

pub record BodyCue : Type 0 where
  pub kind : Text
  pub raw : Text
  pub verb : Text
  pub target : Text
  pub fields : List Text
  pub params : Table Text
  pub paragraph : ℕ

-- `StoryParagraph` without the production instructions and the presenters, which the service does not read.
pub record StoryParagraph : Type 0 where
  pub content : Text
  pub items : List StoryItem

-- An element of `ordered` is an item, or text.
pub record StoryBody : Type 0 where
  pub paragraphs : List StoryParagraph
  pub items : List StoryItem
  pub ordered : Result (List (Option ItemInfo))

abbrev pub zero_story_body : StoryBody
zero_story_body = record {
  paragraphs = [];
  items = [];
  ordered = err (failed "story body source order is unavailable");
}

pub record RoStorySend : Type 0 where
  pub ro_id : Text
  pub story_id : Text
  pub story_slug : Text
  pub story_num : Text
  pub story_body : StoryBody
  pub external_meta : List MosExternalMetadata

-- `StoryActionBody` without element_target and element_source, which the storage does not read.
pub record StoryActionBody : Type 0 where
  pub ro_id : Text
  pub story_id : Text
  pub story_slug : Text
  pub story_num : Text
  pub story_body : Option StoryBody
  pub external_meta : List MosExternalMetadata

abbrev body_or_zero : Option StoryBody → StoryBody
body_or_zero none = zero_story_body
body_or_zero (some b) = b

-- StoryActionBody.AsStorySend
unfoldable pub as_story_send : StoryActionBody → RoStorySend
as_story_send b = record {
  ro_id = b.ro_id;
  story_id = b.story_id;
  story_slug = b.story_slug;
  story_num = b.story_num;
  story_body = body_or_zero b.story_body;
  external_meta = b.external_meta;
}

pub record NcsReqStoryAction : Type 0 where
  pub operation : Text
  pub lease_lock : Text
  pub username : Text
  pub ro_story_send : RoStorySend

pub record RoReqStoryAction : Type 0 where
  pub operation : Text
  pub lease_lock : Text
  pub username : Text
  pub story_action : StoryActionBody

pub record RoCtrl : Type 0 where
  pub ro_id : Text
  pub story_id : Text
  pub item_id : Text
  pub command : Text
  pub mos_external_metadata : List MosExternalMetadata

pub record RoItemCue : Type 0 where
  pub mos_id : Text
  pub ro_id : Text
  pub story_id : Text
  pub item_id : Text
  pub ro_event_type : Text
  pub ro_event_time : Text
  pub mos_external_metadata : List MosExternalMetadata
