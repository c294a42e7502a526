-- ===== src/Service/Control.antt =====
-- ProcessROCtrl and ProcessROItemCue of src/internal/service/control.go (Profile 5). `format_time` is the
-- printing of an instant in time.RFC3339.
pub mod Commands
use open_mos.Prelude.{List, [], ◌∷◌, Option, none, some, if◌then◌else◌}
use open_mos.Text.{Text, text, same, is_empty}
use open_mos.Outcome.{Result, ok, err, failed}
use open_mos.Exec.{Exec, pure, raise, reads, annotate, ignore, ◌>>=◌, ◌>>◌}
use open_mos.Model.{Time, Item, status_ready, status_playing, status_paused, status_stopped}
use open_mos.Table.{put}
use open_mos.Repository.Items
use open_mos.Events.{Event, named, item_controlled, item_cued}
use open_mos.Wire.StorySend.{RoCtrl, RoItemCue}
use open_mos.Service.{MosService, update_item, publish_event}
use open_mos.Service.StorySend.{service_event}

-- The status of a command, none for one that is not supported.
unfoldable pub command_status : Text → Option Text
command_status command =
    if same command (text "READY")
    then some status_ready
    else (if same command (text "EXECUTE")
        then some status_playing
        else (if same command (text "PAUSE")
            then some status_paused
            else (if same command (text "STOP")
                then some status_stopped
                else (if same command (text "SIGNAL") then some (text "SIGNAL") else none))))

-- The item as ProcessROCtrl writes it.
unfoldable pub commanded : (Time → Text) → Time → Text → Text → Item → Item
unfolding put
commanded format_time now command status i = record i {
  status = status;
  updated_at = now;
  metadata =
      put (text "lastCommandTime") (format_time now) (put (text "lastCommand") command i.metadata);
}

-- The part of ProcessROCtrl on the item.
unfoldable pub command_item : (Time → Text) → Time → RoCtrl → Text → Exec MosService (Unit {0})
unfolding commanded
command_item format_time now m status = if is_empty m.item_id then pure tt else (do
  i ← annotate "item not found for roCtrl command" (reads (λ s. Items.get m.item_id s.items))
  annotate "failed to update item status"
      (update_item (commanded format_time now m.command status i)))

abbrev pub controlled_event : RoCtrl → Event
controlled_event m = service_event item_controlled (
    named (
      (text "roID", m.ro_id)
      ∷ (text "storyID", m.story_id)
      ∷ (text "itemID", m.item_id)
      ∷ (text "command", m.command)
      ∷ []))

abbrev pub with_status : (Time → Text) → Time → RoCtrl → Option Text → Exec MosService (Unit {0})
with_status format_time now m none = raise (failed "unsupported roCtrl command")
with_status format_time now m (some status) =
    command_item format_time now m status >> publish_event (controlled_event m)

-- ProcessROCtrl
unfoldable pub process_ro_ctrl : (Time → Text) → Time → RoCtrl → Exec MosService (Unit {0})
unfolding command_status command_item
process_ro_ctrl format_time now m = with_status format_time now m (command_status m.command)

-- The item as ProcessROItemCue writes it.
unfoldable pub cued : Time → RoItemCue → Item → Item
unfolding put
cued now m i = record i {
  metadata =
      put (text "lastCueEventTime") m.ro_event_time
        (put (text "lastCueEventType") m.ro_event_type i.metadata);
  updated_at = now;
}

abbrev cue_found : Time → RoItemCue → Result Item → Exec MosService (Unit {0})
cue_found now m (err e) = pure tt
cue_found now m (ok i) = ignore (update_item (cued now m i))

-- The part of ProcessROItemCue on the item; its errors are logged.
unfoldable pub cue_item : Time → RoItemCue → Exec MosService (Unit {0})
unfolding cued
cue_item now m s =
    if is_empty m.item_id then (ok tt, s) else cue_found now m (Items.get m.item_id s.items) s

-- ProcessROItemCue
unfoldable pub process_ro_item_cue : Time → RoItemCue → Exec MosService (Unit {0})
unfolding cue_item
process_ro_item_cue now m =
    cue_item now m
    >> publish_event (
        service_event item_cued (
          named (
            (text "mosID", m.mos_id)
            ∷ (text "roID", m.ro_id)
            ∷ (text "storyID", m.story_id)
            ∷ (text "itemID", m.item_id)
            ∷ (text "roEventType", m.ro_event_type)
            ∷ (text "roEventTime", m.ro_event_time)
            ∷ [])))
