-- ===== src/Tests/Reports.antt =====
-- Two stories of a running order, one of them on air, and the reports of a move of the timing bar.
use open_mos.Prelude.{if◌then◌else◌, ◌≡◌, refl, [], ◌∷◌, ◌++◌, Option, none, some}
use open_mos.Text.{Text, text, is_empty, same}
use open_mos.Outcome.{ok}
use open_mos.Model.{Story, RunningOrder, Time, zero_story, zero_running_order}
use open_mos.Wire.{RoElementStat}
use open_mos.Table.{lookup}
use open_mos.Service.{MosService}
use open_mos.Service.OnAir.{process_element_status, on_air_story, since_of, level_of}
use open_mos.Service.OnAir.Reports.{
  IsReported, on_air_story-play, process_element_status-stop_other,
}
use open_mos.Service.OnAir.Moves.{on_air, on_air-either_order}
use open_mos.Service.Identity.{story_persistence_id}
use open_mos.Text.Trim.{trim_space}

-- Texts that are in upper case already, and no time that can be read.
abbrev upper : Text → Text
upper t = t

abbrev no_time : Text → Option Time
no_time t = none

abbrev story_of : Text → Story
story_of wire = record zero_story {
  id = text "R/" ++ wire;
  raw_id = wire;
  running_order_id = text "R";
}

abbrev entered : Story
entered = story_of (text "B")

abbrev left : Story
left = story_of (text "A")

abbrev rundown : RunningOrder
rundown = record zero_running_order {
  id = text "R";
  on_air_story_id = left.id;
  on_air_since = some 1;
}

abbrev show : MosService
show = record {
  running_orders = (rundown.id, rundown) ∷ [];
  stories = (left.id, left) ∷ (entered.id, entered) ∷ [];
  items = [];
  objects = [];
  event_bus = none;
}

abbrev report_on : Text → Text → RoElementStat
report_on wire status = record {
  element = text "STORY";
  ro_id = text "R";
  story_id = wire;
  item_id = [];
  item_channel = [];
  status = status;
  time = [];
}

abbrev play : RoElementStat
play = report_on (text "B") (text "PLAY")

abbrev stop : RoElementStat
stop = report_on (text "A") (text "STOP")

abbrev stop_b : RoElementStat
stop_b = report_on (text "B") (text "STOP")

play-IsReported : IsReported upper no_time play entered rundown show
unfolding lookup level_of is_empty same story_persistence_id
play-IsReported = record {
  level = refl;
  named = refl;
  key = refl;
  stored = refl;
  ordered = refl;
  order_key = refl;
}

stop-IsReported : IsReported upper no_time stop left rundown show
unfolding lookup level_of is_empty same story_persistence_id
stop-IsReported = record {
  level = refl;
  named = refl;
  key = refl;
  stored = refl;
  ordered = refl;
  order_key = refl;
}

stop_b-IsReported : IsReported upper no_time stop_b entered rundown show
unfolding lookup level_of is_empty same story_persistence_id
stop_b-IsReported = record {
  level = refl;
  named = refl;
  key = refl;
  stored = refl;
  ordered = refl;
  order_key = refl;
}

-- A reader of one time.
abbrev noon : Text → Option Time
noon t = if same t (text "12:00") then some 5 else none

abbrev play_at_noon : RoElementStat
play_at_noon = record play { time = text " 12:00 " }

play_at_noon-IsReported : IsReported upper noon play_at_noon entered rundown show
unfolding lookup level_of is_empty same story_persistence_id
play_at_noon-IsReported = record {
  level = refl;
  named = refl;
  key = refl;
  stored = refl;
  ordered = refl;
  order_key = refl;
}

on_air_story-play_example :
    (y : Story) × ((on_air_story
        (text "R")
        (process_element_status upper noon 9 play_at_noon show).1).0
      ≡ ok (some (y, some 5)))
    × (y ≡ record entered { status = text "PLAY"; updated_at = 9; metadata = y.metadata })
unfolding trim_space same is_empty
on_air_story-play_example =
    on_air_story-play upper noon 9 5 play_at_noon entered rundown show play_at_noon-IsReported refl
      refl refl

process_element_status-stop_other_example :
    lookup (text "R") (process_element_status upper no_time 9 stop_b show).1.running_orders
    ≡ some (record rundown { updated_at = 9 })
unfolding trim_space same
process_element_status-stop_other_example =
    process_element_status-stop_other upper no_time 9 stop_b entered rundown show stop_b-IsReported
      refl refl

on_air-either_order_example :
    (on_air
        (text "R")
        (process_element_status upper no_time 9 stop
          (process_element_status upper no_time 8 play show).1).1.running_orders
      ≡ some (entered.id, some (since_of upper no_time 8 [])))
    × (on_air
          (text "R")
          (process_element_status upper no_time 9 play
            (process_element_status upper no_time 8 stop show).1).1.running_orders
        ≡ some (entered.id, some (since_of upper no_time 9 [])))
unfolding same trim_space
on_air-either_order_example =
    on_air-either_order upper no_time 8 9 play stop entered left rundown show play-IsReported
      stop-IsReported refl refl refl
