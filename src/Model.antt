-- ===== src/Model.antt =====
-- The storage model of src/internal/model/mos.go and src/internal/model/status.go. An instant is a number of
-- nanoseconds; Go's int is ℤ where a message sets it, and ℕ for positions, which only the service
-- writes: from 1 up, or 0 where it sets none.
use open_mos.Prelude.{ℕ, List, [], Option, none}
use open_mos.Text.{Text, text}
use open_mos.Text.Number.{ℤ, pos}
use open_mos.Table.{Table}

abbrev pub Time : Type 0
Time = ℕ

-- type StatusType string, and the values of it that the service writes
abbrev pub status_pending : Text
status_pending = text "PENDING"

abbrev pub status_ready : Text
status_ready = text "READY"

abbrev pub status_playing : Text
status_playing = text "PLAY"

abbrev pub status_paused : Text
status_paused = text "PAUSED"

abbrev pub status_stopped : Text
status_stopped = text "STOPPED"

pub record ExternalMetadata : Type 0 where
  pub scope : Text
  pub schema : Text
  pub payload : Text

pub record MediaPath : Type 0 where
  pub url : Text
  pub tech_description : Text

pub record MediaPaths : Type 0 where
  pub essence : List MediaPath
  pub proxy : List MediaPath
  pub metadata : List MediaPath

pub record Item : Type 0 where
  pub id : Text
  pub raw_id : Text
  pub object_id : Text
  pub slug : Text
  pub abstract : Text
  pub duration : ℤ
  pub editorial_duration : ℤ
  pub time_base : ℤ
  pub media : Option MediaPaths
  pub status : Text
  pub order : ℕ
  pub story_id : Text
  pub metadata : Table Text
  pub external_metadata : List ExternalMetadata
  pub created_at : Time
  pub updated_at : Time

pub record MosObject : Type 0 where
  pub id : Text
  pub object_type : Text
  pub slug : Text
  pub duration : ℤ
  pub time_base : ℤ
  pub status : Text
  pub object_id : Text
  pub media_id : Text
  pub mos_abstract : Text
  pub metadata : Table Text
  pub external_metadata : List ExternalMetadata
  pub created_at : Time
  pub updated_at : Time

pub record StoryCue : Type 0 where
  pub kind : Text
  pub raw : Text
  pub verb : Text
  pub target : Text
  pub fields : List Text
  pub params : Table Text
  pub order : ℕ
  pub paragraph : ℕ

pub record Story : Type 0 where
  pub id : Text
  pub raw_id : Text
  pub running_order_id : Text
  pub slug : Text
  pub number : Text
  pub duration : ℤ
  pub status : Text
  pub order : ℕ
  pub previous_id : Text
  pub next_id : Text
  pub presenter : Text
  pub metadata : Table Text
  pub external_metadata : List ExternalMetadata
  pub cues : List StoryCue
  pub created_at : Time
  pub updated_at : Time

pub record RunningOrder : Type 0 where
  pub id : Text
  pub mos_id : Text
  pub slug : Text
  pub status : Text
  pub duration : ℤ
  pub first_story_id : Text
  pub last_story_id : Text
  pub air_time : Option Time
  pub on_air_story_id : Text
  pub on_air_since : Option Time
  pub channel : Text
  pub metadata : Table Text
  pub version : ℕ
  pub created_by : Text
  pub external_metadata : List ExternalMetadata
  pub created_at : Time
  pub updated_at : Time

-- The zero values, from which Go's struct literals start.
abbrev pub zero_item : Item
zero_item = record {
  id = [];
  raw_id = [];
  object_id = [];
  slug = [];
  abstract = [];
  duration = pos 0;
  editorial_duration = pos 0;
  time_base = pos 0;
  media = none;
  status = [];
  order = 0;
  story_id = [];
  metadata = [];
  external_metadata = [];
  created_at = 0;
  updated_at = 0;
}

abbrev pub zero_mos_object : MosObject
zero_mos_object = record {
  id = [];
  object_type = [];
  slug = [];
  duration = pos 0;
  time_base = pos 0;
  status = [];
  object_id = [];
  media_id = [];
  mos_abstract = [];
  metadata = [];
  external_metadata = [];
  created_at = 0;
  updated_at = 0;
}

abbrev pub zero_story : Story
zero_story = record {
  id = [];
  raw_id = [];
  running_order_id = [];
  slug = [];
  number = [];
  duration = pos 0;
  status = [];
  order = 0;
  previous_id = [];
  next_id = [];
  presenter = [];
  metadata = [];
  external_metadata = [];
  cues = [];
  created_at = 0;
  updated_at = 0;
}

abbrev pub zero_running_order : RunningOrder
zero_running_order = record {
  id = [];
  mos_id = [];
  slug = [];
  status = [];
  duration = pos 0;
  first_story_id = [];
  last_story_id = [];
  air_time = none;
  on_air_story_id = [];
  on_air_since = none;
  channel = [];
  metadata = [];
  version = 0;
  created_by = [];
  external_metadata = [];
  created_at = 0;
  updated_at = 0;
}
