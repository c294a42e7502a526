-- ===== src/Dispatch/Answers.antt =====
-- handleReq, handleReqAll and storyInfosFor of src/internal/server/dispatch_ro.go: what a peer is told of a
-- running order that it asks for.
pub mod Replaced
use open_mos.Prelude.{
  Bool, true, false, not, List, [], ◌∷◌, ◌++◌, Option, none, some, length, take, ltb, ◌==◌, map,
  if◌then◌else◌, suc,
}
use open_mos.Text.{Text, text, is_empty}
use open_mos.Text.Trim.{trim_space}
use open_mos.Text.Number.{ℤ, pos, negsuc}
use open_mos.Text.Format.{format_int}
use open_mos.Outcome.{Error, Result, ok, err, failed, lost_synchronisation}
use open_mos.Exec.{Exec, pure, raise, ignore, ◌>>◌}
use open_mos.Model.{Item, Story, RunningOrder, Time}
use open_mos.Repository.Items
use open_mos.Repository.RunningOrders
use open_mos.Scope.{filter_metadata_for_level, level_running_order, level_story, level_item}
use open_mos.ResyncGuard.{ResyncGuard, should_request, forget}
use open_mos.Discovery.{DiscoveryWalk, enqueue_urgent, resolved, nudge, begin}
use open_mos.Service.{MosService}
use open_mos.Service.Timing.{Floats, external_metadata_to_wire}
use open_mos.Service.Workflow.{
  delete_running_order, replace_running_order, process_running_order_info, apply_ro_list,
  replace_metadata, get_running_order_with_stories,
}
use open_mos.Service.ElementAction.{process_element_action}
use open_mos.Service.ItemActions.{set_ready_to_air}
use open_mos.Service.OnAir.{process_element_status}
use open_mos.Wire.{
  ItemInfo, StoryInfo, RunningOrderInfo, RoReplace, RoList, RoMetadataReplace, RoListAllItem,
  RoElementAction, RoElementStat, zero_item_info,
}
use open_mos.Dispatch.{
  Message, ro_ack, ro_list, ro_list_all, Peer, Dispatcher, respond, nack, format_signed,
}

-- What is sent for an identifier: the one of the wire, or the key where that is empty.
abbrev pub wire_id : Text → Text → Text
wire_id raw key = if is_empty raw then key else raw

module _ (to_upper : Text → Text) where
  -- The filter keeps or drops each block by its scope, so that it is applied before the conversion.
  unfoldable pub item_info : Item → ItemInfo
  item_info i = record zero_item_info {
    id = wire_id i.raw_id i.id;
    slug = i.slug;
    duration = format_signed i.duration;
    object_id = i.object_id;
    mos_external_metadata =
        external_metadata_to_wire
          (filter_metadata_for_level to_upper i.external_metadata level_item);
  }

  unfoldable pub story_info : MosService → Story → StoryInfo
  unfolding item_info
  story_info s x = record {
    id = wire_id x.raw_id x.id;
    slug = x.slug;
    number = x.number;
    duration = format_signed x.duration;
    mos_external_metadata =
        external_metadata_to_wire
          (filter_metadata_for_level to_upper x.external_metadata level_story);
    items = map item_info (Items.list_by_story x.id s.items);
  }

  -- storyInfosFor, which the memory backend never fails
  unfoldable pub story_infos_for : MosService → List Story → List StoryInfo
  unfolding story_info
  story_infos_for s stories = map (story_info s) stories

  -- CreateROList of the entry that handleReq makes (generator.go), which filters the metadata once more.
  abbrev pub listed_order : MosService → RunningOrder → List Story → RoList
  listed_order s r stories = record {
    id = r.id;
    slug = r.slug;
    channel = r.channel;
    ed_start = [];
    ed_dur = format_signed r.duration;
    trigger = [];
    macro_in = [];
    macro_out = [];
    mos_external_metadata = external_metadata_to_wire (
        filter_metadata_for_level to_upper
          (filter_metadata_for_level to_upper r.external_metadata level_running_order)
          level_running_order);
    stories = story_infos_for s stories;
  }

  abbrev pub listed_answer : MosService → Text → Result (RunningOrder × List Story) → Message
  listed_answer s ro (err e) = ro_ack ro (nack (text "running order not available"))
  listed_answer s ro (ok (r, stories)) = ro_list (listed_order s r stories)

  -- What handleReq answers.
  unfoldable pub req_answer : Text → MosService → Message
  unfolding story_infos_for
  req_answer ro s =
      if is_empty (trim_space ro)
      then ro_ack [] (nack (text "roReq requires a roID"))
      else listed_answer s ro (get_running_order_with_stories ro s)

  -- handleReq
  unfoldable pub handle_req : Peer → Text → Exec Dispatcher (Unit {0})
  unfolding req_answer respond
  handle_req peer ro d = respond peer (req_answer ro d.service) d

unfoldable pub summary : RunningOrder → RoListAllItem
summary r = record {
  id = r.id;
  slug = r.slug;
  channel = r.channel;
  ed_start = [];
  ed_dur = format_signed r.duration;
  trigger = [];
}

-- handleReqAll
unfoldable pub handle_req_all : Peer → Exec Dispatcher (Unit {0})
unfolding respond summary
handle_req_all peer d =
    respond peer (ro_list_all (map summary (RunningOrders.list d.service.running_orders))) d
