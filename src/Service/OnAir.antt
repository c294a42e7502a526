-- ===== src/Service/OnAir.antt =====
-- src/internal/service/onair.go: what is on air, from the status reports. `to_upper` is strings.ToUpper;
-- `parse_mos_time` is xml.ParseMOSTime, none for its error.
pub mod Reports
pub mod Moves
use open_mos.Prelude.{Bool, List, [], ◌∷◌, Option, none, some, if◌then◌else◌, not, ◌&&◌}
use open_mos.Text.{Text, text, same, is_empty}
use open_mos.Text.Trim.{trim_space}
use open_mos.Exec.{Exec, reads, lift, pure, ◌>>=◌, ◌>>◌}
use open_mos.Model.{Story, Item, RunningOrder, Time}
use open_mos.Wire.{RoElementStat}
use open_mos.Table.{Table, put}
use open_mos.Repository.RunningOrders
use open_mos.Repository.Stories
use open_mos.Events.{Event, identifier, story_modified, item_changed}
use open_mos.Service.{MosService, update_story, update_item, update_running_order, publish_event}
use open_mos.Service.Identity.{resolve_story, resolve_item, story_key_for}

abbrev pub status_play : Text
status_play = text "PLAY"

abbrev pub status_stop : Text
status_stop = text "STOP"

pub data Level : Type 0 where
  of_item of_story of_running_order : Level

-- m[key] = value, when the value is not empty
unfoldable pub put_given : Text → Text → Table Text → Table Text
unfolding put
put_given key value m = if is_empty value then m else put key value m

-- The event of a report.
abbrev pub report_event : Text → Text → Event
report_event type id = record {
  event_type = type;
  payload = identifier id;
  source = text "mos_service";
}

-- The story as applyStoryStatus writes it.
unfoldable pub mark_story : Time → Text → Text → Story → Story
unfolding put_given
mark_story now status time x = record x {
  status = status;
  updated_at = now;
  metadata = put_given (text "lastStatusTime") time x.metadata;
}

-- The switch of applyStoryStatus, on the running order.
unfoldable pub point_on_air : Time → Time → Text → Text → RunningOrder → RunningOrder
point_on_air now since status story r =
    if same status status_play
    then record r { on_air_story_id = story; on_air_since = some since; updated_at = now }
    else (if same status status_stop && same r.on_air_story_id story
        then record r { on_air_story_id = []; on_air_since = none; updated_at = now }
        else record r { updated_at = now })

abbrev story_since : RunningOrder → Exec MosService (Option (Story × Option Time))
story_since r = do
  x ← reads (λ s. Stories.get r.on_air_story_id s.stories)
  pure (some (x, r.on_air_since))

-- OnAirStory
unfoldable pub on_air_story : Text → Exec MosService (Option (Story × Option Time))
on_air_story ro = do
  r ← reads (λ s. RunningOrders.get ro s.running_orders)
  (if is_empty r.on_air_story_id then pure none else story_since r)

module _ (to_upper : Text → Text) (parse_mos_time : Text → Option Time) where
  abbrev pub status_of : RoElementStat → Text
  status_of stat = to_upper (trim_space stat.status)

  -- statusTime
  unfoldable pub status_time : Text → Option Time
  unfolding trim_space
  status_time raw = if is_empty (trim_space raw) then none else parse_mos_time (trim_space raw)

  -- The time that a report carries, or the time of its arrival.
  unfoldable pub since_of : Time → Text → Time
  unfolding status_time
  since_of now raw = elim (status_time raw) [ none ↦ now | some when ↦ when ]

  -- The level of ProcessElementStatus.
  unfoldable pub level_of : RoElementStat → Level
  unfolding trim_space
  level_of stat =
      let named = to_upper (trim_space stat.element) in
      if is_empty named
      then (if not (is_empty (trim_space stat.item_id))
          then of_item
          else (if not (is_empty (trim_space stat.story_id)) then of_story else of_running_order))
      else (if same named (text "ITEM")
          then of_item
          else (if same named (text "STORY") then of_story else of_running_order))

  unfoldable pub apply_story_status : Time → RoElementStat → Exec MosService (Unit {0})
  unfolding resolve_story mark_story point_on_air since_of
  apply_story_status now stat = do
    x ← reads (λ s. resolve_story stat.ro_id stat.story_id s.stories)
    update_story (mark_story now (status_of stat) stat.time x)
    r ← reads (λ s. RunningOrders.get stat.ro_id s.running_orders)
    update_running_order (point_on_air now (since_of now stat.time) (status_of stat) x.id r)
    publish_event (report_event story_modified x.id)

  unfoldable pub apply_ro_status : Time → RoElementStat → Exec MosService (Unit {0})
  unfolding put_given
  apply_ro_status now stat = do
    r ← reads (λ s. RunningOrders.get stat.ro_id s.running_orders)
    update_running_order (record r {
      status = status_of stat;
      updated_at = now;
      metadata = put_given (text "lastStatusTime") stat.time r.metadata;
    })

  unfoldable pub apply_item_status : Time → RoElementStat → Exec MosService (Unit {0})
  unfolding resolve_item story_key_for put_given
  apply_item_status now stat = do
    key ← reads (λ s. story_key_for stat.ro_id stat.story_id s.stories)
    x ← reads (λ s. resolve_item key stat.item_id s.items)
    update_item (record x {
      status = status_of stat;
      updated_at = now;
      metadata =
          put_given (text "itemChannel") stat.item_channel
            (put_given (text "lastStatusTime") stat.time x.metadata);
    })
    publish_event (report_event item_changed x.id)

  abbrev apply_at : Level → Time → RoElementStat → Exec MosService (Unit {0})
  apply_at of_item = apply_item_status
  apply_at of_story = apply_story_status
  apply_at of_running_order = apply_ro_status

  -- ProcessElementStatus
  unfoldable pub process_element_status : Time → RoElementStat → Exec MosService (Unit {0})
  unfolding level_of apply_story_status apply_item_status apply_ro_status
  process_element_status now stat = apply_at (level_of stat) now stat
