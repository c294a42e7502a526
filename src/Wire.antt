-- ===== src/Wire.antt =====
-- The wire types of src/internal/xml that the service reads: StoryInfo and ItemInfo (messages.go), the
-- running-order messages, the media paths (object_messages.go), the element actions and status reports (element_action_messages.go).
pub mod StorySend
pub mod Objects
use open_mos.Prelude.{List, [], ◌∷◌, Option, none}
use open_mos.Text.{Text}

pub record ObjPath : Type 0 where
  pub tech_description : Text
  pub value : Text

pub record ObjPaths : Type 0 where
  pub obj_path : List ObjPath
  pub obj_proxy_path : List ObjPath
  pub obj_metadata_path : List ObjPath

-- mosPayload is its raw text.
pub record MosExternalMetadata : Type 0 where
  pub mos_scope : Text
  pub mos_schema : Text
  pub mos_payload : Text

-- `ItemInfo` without Source, which is read by the source synchronisation alone.
pub record ItemInfo : Type 0 where
  pub id : Text
  pub slug : Text
  pub abstract : Text
  pub duration : Text
  pub obj_dur : Text
  pub obj_tb : Text
  pub object_id : Text
  pub mos_id : Text
  pub obj_path : Text
  pub obj_paths : Option ObjPaths
  pub channel : Text
  pub mos_external_metadata : List MosExternalMetadata

pub record StoryInfo : Type 0 where
  pub id : Text
  pub slug : Text
  pub number : Text
  pub duration : Text
  pub mos_external_metadata : List MosExternalMetadata
  pub items : List ItemInfo

-- The zero values, from which Go's struct literals start.
abbrev pub zero_item_info : ItemInfo
zero_item_info = record {
  id = [];
  slug = [];
  abstract = [];
  duration = [];
  obj_dur = [];
  obj_tb = [];
  object_id = [];
  mos_id = [];
  obj_path = [];
  obj_paths = none;
  channel = [];
  mos_external_metadata = [];
}

abbrev pub zero_story_info : StoryInfo
zero_story_info = record {
  id = [];
  slug = [];
  number = [];
  duration = [];
  mos_external_metadata = [];
  items = [];
}

-- roCreate, without the attributes of its element
pub record RunningOrderInfo : Type 0 where
  pub id : Text
  pub slug : Text
  pub channel : Text
  pub edit_time : Text
  pub start_time : Text
  pub duration : Text
  pub mos_external_metadata : List MosExternalMetadata
  pub stories : List StoryInfo

-- roReplace and roList, which have the same fields but for the attributes of the element
pub record RoReplace : Type 0 where
  pub id : Text
  pub slug : Text
  pub channel : Text
  pub ed_start : Text
  pub ed_dur : Text
  pub trigger : Text
  pub macro_in : Text
  pub macro_out : Text
  pub mos_external_metadata : List MosExternalMetadata
  pub stories : List StoryInfo

pub record RoList : Type 0 where
  pub id : Text
  pub slug : Text
  pub channel : Text
  pub ed_start : Text
  pub ed_dur : Text
  pub trigger : Text
  pub macro_in : Text
  pub macro_out : Text
  pub mos_external_metadata : List MosExternalMetadata
  pub stories : List StoryInfo

pub record RoMetadataReplace : Type 0 where
  pub id : Text
  pub slug : Text
  pub channel : Text
  pub ed_start : Text
  pub ed_dur : Text
  pub trigger : Text
  pub macro_in : Text
  pub macro_out : Text
  pub mos_external_metadata : List MosExternalMetadata

pub record RoListAllItem : Type 0 where
  pub id : Text
  pub slug : Text
  pub channel : Text
  pub ed_start : Text
  pub ed_dur : Text
  pub trigger : Text

pub record ElementTarget : Type 0 where
  pub story_id : Text
  pub item_id : Text

pub record ElementSource : Type 0 where
  pub stories : List StoryInfo
  pub items : List ItemInfo
  pub story_ids : List Text
  pub item_ids : List Text

pub data SourceType : Type 0 where
  story item story_id item_id nothing : SourceType

abbrev first_of_ids : List Text → List Text → SourceType
first_of_ids (_ ∷ _) _ = story_id
first_of_ids [] (_ ∷ _) = item_id
first_of_ids [] [] = nothing

abbrev first_of_items : List ItemInfo → List Text → List Text → SourceType
first_of_items (_ ∷ _) _ _ = item
first_of_items [] s i = first_of_ids s i

abbrev first_of_stories : List StoryInfo → List ItemInfo → List Text → List Text → SourceType
first_of_stories (_ ∷ _) _ _ _ = story
first_of_stories [] it s i = first_of_items it s i

-- ElementSource.GetSourceType
unfoldable pub source_type : ElementSource → SourceType
source_type s = first_of_stories s.stories s.items s.story_ids s.item_ids

pub record RoElementAction : Type 0 where
  pub operation : Text
  pub ro_id : Text
  pub target : Option ElementTarget
  pub source : ElementSource

pub record RoElementStat : Type 0 where
  pub element : Text
  pub ro_id : Text
  pub story_id : Text
  pub item_id : Text
  pub item_channel : Text
  pub status : Text
  pub time : Text
