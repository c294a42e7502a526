-- ===== src/Wire/Objects.antt =====
-- src/internal/xml/object_messages.go: the messages of objects (Profiles 1 and 3).
use open_mos.Prelude.{List, [], Option, none}
use open_mos.Text.{Text}
use open_mos.Text.Number.{ℤ, pos}
use open_mos.Wire.{ObjPaths, MosExternalMetadata}

pub record MosObj : Type 0 where
  pub obj_id : Text
  pub obj_slug : Text
  pub mos_abstract : Text
  pub obj_group : Text
  pub obj_type : Text
  pub obj_tb : ℤ
  pub obj_rev : ℤ
  pub obj_dur : ℤ
  pub status : Text
  pub obj_air : Text
  pub obj_paths : Option ObjPaths
  pub created_by : Text
  pub created : Text
  pub changed_by : Text
  pub changed : Text
  pub description : Text

abbrev pub zero_mos_obj : MosObj
zero_mos_obj = record {
  obj_id = [];
  obj_slug = [];
  mos_abstract = [];
  obj_group = [];
  obj_type = [];
  obj_tb = pos 0;
  obj_rev = pos 0;
  obj_dur = pos 0;
  status = [];
  obj_air = [];
  obj_paths = none;
  created_by = [];
  created = [];
  changed_by = [];
  changed = [];
  description = [];
}

pub record MosObjCreate : Type 0 where
  pub obj_slug : Text
  pub obj_group : Text
  pub obj_type : Text
  pub obj_tb : ℤ
  pub obj_dur : ℤ
  pub time : Text
  pub created_by : Text
  pub description : Text
  pub mos_external_metadata : List MosExternalMetadata

-- The fields of `MosItemReplItem` that the service reads.
pub record MosItemReplItem : Type 0 where
  pub item_id : Text
  pub item_slug : Text
  pub obj_id : Text
  pub mos_id : Text
  pub item_channel : Text
  pub item_ed_dur : ℤ

pub record MosItemReplace : Type 0 where
  pub ro_id : Text
  pub story_id : Text
  pub item : MosItemReplItem
