-- ===== src/Service/Messages.antt =====
-- validateRunningOrder, durationSeconds and the records that src/internal/service/mos.go makes of the messages
-- for running orders. The numbers of stories and items in the messages of errors are left out.
use open_mos.Prelude.{
  ℕ, ◌%◌, ◌^◌, ◌-◌, String, ◌+◌, ◌*◌, Bool, ◌||◌, List, [], ◌∷◌, Option, none, some, ltb, ◌==◌,
  if◌then◌else◌,
}
use open_mos.Text.{Text, text, is_empty}
use open_mos.Text.Trim.{trim_space}
use open_mos.Text.Number.{ℤ, pos, negsuc, atoi}
use open_mos.Outcome.{Result, ok, err, failed}
use open_mos.Model.{Time, Item, Story, MediaPaths, zero_item, zero_story, status_pending}
use open_mos.Wire.{ItemInfo, StoryInfo}
use open_mos.Table.{Table, put}
use open_mos.Service.Identity.{story_persistence_id, item_persistence_id}
use open_mos.Service.Timing.{
  Floats, resolve_item_timing, media_paths_from, preserve_external_metadata, has_none,
}

abbrev pub is_blank : Text → Bool
is_blank s = is_empty (trim_space s)

abbrev pub require : String → Bool → Result (Unit {0}) → Result (Unit {0})
require message missing rest = if missing then err (failed message) else rest

-- The loop over the items of a story.
unfoldable pub validate_items : List ItemInfo → Result (Unit {0}) → Result (Unit {0})
validate_items [] rest = rest
validate_items (i ∷ is') rest = require "itemID is required" (is_blank i.id) (
    require "objID is required" (is_blank i.object_id)
      (require "mosID is required" (is_blank i.mos_id) (validate_items is' rest)))

unfoldable pub validate_stories : List StoryInfo → Result (Unit {0})
validate_stories [] = ok tt
validate_stories (x ∷ xs) =
    require "storyID is required" (is_blank x.id) (validate_items x.items (validate_stories xs))

-- validateRunningOrder
unfoldable pub validate_running_order : Text → Text → List StoryInfo → Result (Unit {0})
validate_running_order ro slug stories =
    require "roID is required" (is_blank ro)
      (require "roSlug is required" (is_blank slug) (validate_stories stories))

-- strings.Split(value, ":"), in the parts before and behind the first colon
unfoldable pub split_colon : Text → Text × List Text
split_colon [] = ([], [])
split_colon (c ∷ r) =
    let rest = split_colon r in if c == b':' then ([], rest.0 ∷ rest.1) else (c ∷ rest.0, rest.1)

-- A sum of int, which wraps around at 64 bits.
abbrev pub to_int64 : ℕ → ℤ
to_int64 n = let r = n % 2 ^ 64 in if ltb r (2 ^ 63) then pos r else negsuc (2 ^ 64 - 1 - r)

abbrev in_clock : Option ℤ → Option ℤ → Option ℤ → ℤ
in_clock (some (pos h)) (some (pos m)) (some (pos s)) =
    if ltb 59 m || ltb 59 s then pos 0 else to_int64 (h * 3600 + m * 60 + s)
in_clock _ _ _ = pos 0

abbrev clock_seconds : List Text → ℤ
clock_seconds (h ∷ m ∷ s ∷ []) = in_clock (atoi h) (atoi m) (atoi s)
clock_seconds _ = pos 0

abbrev seconds_or_clock : Text → Option ℤ → ℤ
seconds_or_clock value (some (pos n)) = pos n
seconds_or_clock value _ = let parts = split_colon value in clock_seconds (parts.0 ∷ parts.1)

-- durationSeconds
unfoldable pub duration_seconds : Text → ℤ
unfolding split_colon atoi
duration_seconds value = seconds_or_clock value (atoi value)

-- if value != "" { duration = durationSeconds(value) }
abbrev pub parse_duration : Text → ℤ
parse_duration value = if is_empty value then pos 0 else duration_seconds value

-- if value != "" { if n, err := strconv.Atoi(value); err == nil { duration = n } }
abbrev pub atoi_or : ℤ → Text → ℤ
atoi_or old value = if is_empty value then old else elim (atoi value) [ none ↦ old | some n ↦ n ]

-- The story of a message, at a position.
unfoldable pub story_of : Time → Text → ℕ → StoryInfo → Story
unfolding preserve_external_metadata atoi is_empty
story_of now ro position info = record zero_story {
  id = story_persistence_id ro info.id;
  raw_id = info.id;
  running_order_id = ro;
  slug = info.slug;
  number = info.number;
  status = status_pending;
  duration = atoi_or (pos 0) info.duration;
  order = position;
  external_metadata = preserve_external_metadata info.mos_external_metadata;
  created_at = now;
  updated_at = now;
}

-- What ProcessRunningOrderInfo writes to a story that is held.
unfoldable pub merge_story : Time → Text → ℕ → StoryInfo → Story → Story
unfolding atoi is_empty
merge_story now ro position info old = record old {
  raw_id = info.id;
  running_order_id = ro;
  slug = info.slug;
  number = info.number;
  duration = atoi_or old.duration info.duration;
  order = position;
  updated_at = now;
}

abbrev pub put_unless_empty : Text → Text → Table Text → Table Text
put_unless_empty key value t = if is_empty value then t else put key value t

abbrev media_or : Option MediaPaths → Option MediaPaths → Option MediaPaths
media_or none old = old
media_or (some m) old = some m

module _ {Rate : Type 0} (floats : Floats Rate) where
  -- The item of a message, at a position.
  unfoldable pub item_of : Time → Text → ℕ → ItemInfo → Item
  unfolding resolve_item_timing media_paths_from preserve_external_metadata trim_space is_empty put
  item_of now story position info =
      let timing = resolve_item_timing floats info.duration info.obj_dur info.obj_tb in
      record zero_item {
        id = item_persistence_id story info.id;
        raw_id = info.id;
        story_id = story;
        slug = info.slug;
        abstract = trim_space info.abstract;
        object_id = info.object_id;
        status = status_pending;
        order = position;
        created_at = now;
        updated_at = now;
        external_metadata = preserve_external_metadata info.mos_external_metadata;
        editorial_duration = timing.samples;
        time_base = timing.time_base;
        duration = if timing.known then timing.seconds else pos 0;
        media = media_paths_from info.obj_paths info.obj_path;
        metadata =
            put_unless_empty (text "mosID") info.mos_id
              (put_unless_empty (text "objTB") (trim_space info.obj_tb) []);
      }

  -- What storeItems writes to an item that is held.
  unfoldable pub merge_item : Time → Text → ℕ → ItemInfo → Item → Item
  unfolding item_of
  merge_item now story position info old =
      let item = item_of now story position info in
      record old {
        story_id = item.story_id;
        raw_id = item.raw_id;
        slug = item.slug;
        abstract = if is_empty item.abstract then old.abstract else item.abstract;
        object_id = item.object_id;
        duration = item.duration;
        editorial_duration = item.editorial_duration;
        time_base = item.time_base;
        media = media_or item.media old.media;
        order = item.order;
        external_metadata =
            if has_none item.external_metadata
            then old.external_metadata
            else item.external_metadata;
        metadata =
            put_unless_empty (text "objTB") (trim_space info.obj_tb)
              (put_unless_empty (text "mosID") info.mos_id old.metadata);
      }
