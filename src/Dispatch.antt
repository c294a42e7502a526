-- ===== src/Dispatch.antt =====
-- src/internal/server/dispatch_ro.go: the handlers of the running-order messages, which both transports
-- share. `sent` is what the handlers sent, the first message first. A transport is a `Peer`: whether its
-- lane can carry a request, the lane configured for requests and whether that is ready, and what sending
-- returns. What a transport does when it sends, the binding of a request to the walk included, is not
-- modelled here. `describe` is the text of an error, err.Error(); `to_upper` is strings.ToUpper.
pub mod Answers
pub mod Recovery
pub mod NotHeld
pub mod Asking
use open_mos.Prelude.{
  Bool, true, false, not, List, [], ◌∷◌, ◌++◌, Option, none, some, length, take, ltb, ◌==◌, map,
  if◌then◌else◌, suc,
}
use open_mos.Cues.{Casing}
use open_mos.Text.{Text, text, is_empty}
use open_mos.Text.Trim.{trim_space}
use open_mos.Text.Number.{ℤ, pos, negsuc}
use open_mos.Text.Format.{format_int}
use open_mos.Outcome.{Error, Result, ok, err, failed, lost_synchronisation}
use open_mos.Exec.{Exec, pure, raise, ignore, ◌>>◌}
use open_mos.Model.{Item, Story, RunningOrder, Time}
use open_mos.Repository.Items
use open_mos.Repository.RunningOrders
use open_mos.Scope.{filter_metadata_for_level, level_running_order, level_story, level_item}
use open_mos.ResyncGuard.{ResyncGuard, should_request, forget}
use open_mos.Discovery.{DiscoveryWalk, enqueue_urgent, resolved, nudge, begin}
use open_mos.Service.{MosService}
use open_mos.Service.Timing.{Floats, external_metadata_to_wire}
use open_mos.Service.Workflow.{
  delete_running_order, replace_running_order, process_running_order_info, apply_ro_list,
  replace_metadata, get_running_order_with_stories,
}
use open_mos.Service.StorySend.{process_ro_story_send}
use open_mos.Wire.StorySend.{RoStorySend}
use open_mos.Service.ElementAction.{process_element_action}
use open_mos.Service.ItemActions.{set_ready_to_air}
use open_mos.Service.OnAir.{process_element_status}
use open_mos.Wire.{
  ItemInfo, StoryInfo, RunningOrderInfo, RoReplace, RoList, RoMetadataReplace, RoListAllItem,
  RoElementAction, RoElementStat, zero_item_info,
}

pub data Message : Type 0 where
  ro_ack : Text → Text → Message
  ro_list : RoList → Message
  ro_list_all : List RoListAllItem → Message
  ro_req : Text → Message
  ro_req_all : Message

-- A message to the peer, as a response or as a request, or a request on the lane for requests.
pub data Sent : Type 0 where
  response request other_lane : Message → Sent

pub record Peer : Type 0 where
  pub can_originate : Bool
  pub origin : Option Bool
  pub respond : Message → Result (Unit {0})
  pub originate : Message → Result (Unit {0})

pub record Dispatcher : Type 0 where
  pub service : MosService
  pub resync : ResyncGuard
  pub walk : DiscoveryWalk
  pub sent : List Sent

-- The text in front of the first line feed.
unfoldable pub before_newline : Text → Text
before_newline [] = []
before_newline (c ∷ r) = let rest = before_newline r in if c == 10 then [] else c ∷ rest

-- firstLine, of the text of the error
unfoldable pub first_line : Text → Text
unfolding before_newline
first_line t =
    let line = before_newline t in
    if ltb 100 (length line) then take 100 line ++ text "..." else line

abbrev pub ok_status : Text
ok_status = text "OK"

abbrev pub nack : Text → Text
nack reason = text "NACK: " ++ reason

-- fmt.Sprintf("%d", n)
abbrev pub format_signed : ℤ → Text
format_signed (pos n) = format_int n
format_signed (negsuc n) = b'-' ∷ format_int (suc n)

-- r.respond
unfoldable pub respond : Peer → Message → Exec Dispatcher (Unit {0})
respond peer m d = (peer.respond m, record d { sent = d.sent ++ response m ∷ [] })

abbrev pub on_lane : Peer → Message → Option Bool → Exec Dispatcher (Unit {0})
on_lane peer m none =
    raise (failed "this lane cannot carry a request and no request lane is configured")
on_lane peer m (some false) =
    raise (failed "this lane cannot carry a request and the request lane is not connected yet")
on_lane peer m (some true) =
    λ d. (peer.originate m, record d { sent = d.sent ++ other_lane m ∷ [] })

-- sendRequest
unfoldable pub send_request : Peer → Message → Exec Dispatcher (Unit {0})
send_request peer m d =
    if peer.can_originate
    then (peer.originate m, record d { sent = d.sent ++ request m ∷ [] })
    else on_lane peer m peer.origin d

-- sendDiscoveryReq, for what the walk asks for next, if anything
unfoldable pub send_next : Peer → Option Text → Exec Dispatcher (Unit {0})
unfolding send_request is_empty
send_next peer none = pure tt
send_next peer (some ro) =
    ignore (send_request peer (if is_empty ro then ro_req_all else ro_req ro))

-- requestResync
unfoldable pub request_resync : Time → Bool → Peer → Text → Exec Dispatcher (Unit {0})
request_resync now written peer ro d =
    let (granted, guard) = should_request now ro d.resync in
    if not granted
    then (ok tt, record d { resync = guard })
    else (let (next, walk) = enqueue_urgent now written ro d.walk in
        send_next peer next (record d { resync = guard; walk = walk }))

-- advanceWalk
unfoldable pub advance_walk : Time → Bool → Peer → Exec Dispatcher (Unit {0})
advance_walk now written peer d =
    let (next, walk) = nudge now written d.walk in send_next peer next (record d { walk = walk })

-- handleListAll; an empty list begins a pass over nothing, and asks for nothing
unfoldable pub handle_list_all :
    Time → Bool → Peer → List RoListAllItem → Exec Dispatcher (Unit {0})
handle_list_all now written peer [] d = (ok tt, record d { walk = (begin now written [] d.walk).2 })
handle_list_all now written peer (r ∷ rs) d =
    let b = begin now written (map (λ (x : RoListAllItem). x.id) (r ∷ rs)) d.walk in
    send_next peer b.0 (record d { walk = b.2 })

module _ (describe : Error → Text) where
  abbrev pub answer : Peer → Text → Result (Unit {0}) → Exec Dispatcher (Unit {0})
  answer peer ro (ok _) = respond peer (ro_ack ro ok_status)
  answer peer ro (err e) = respond peer (ro_ack ro (nack (first_line (describe e))))

  -- A message that is applied by the service and acknowledged: handleReplace, handleDelete,
  -- handleMetadataReplace, handleReadyToAir and handleCreate, which differ in what they apply.
  unfoldable pub acknowledge : Peer → Text → Exec MosService (Unit {0}) → Exec Dispatcher (Unit {0})
  acknowledge peer ro action d =
      answer peer ro (action d.service).0 (record d { service = (action d.service).1 })

  abbrev pub refuse :
      Time → Bool → Peer → Text → Text → Error → Option Text → Exec Dispatcher (Unit {0})
  refuse now written peer ro reason e none = answer peer ro (err e)
  refuse now written peer ro reason e (some lost) =
      respond peer (ro_ack ro reason) >> request_resync now written peer lost

  abbrev pub answer_or_resync :
      Time → Bool → Peer → Text → Text → Result (Unit {0}) → Exec Dispatcher (Unit {0})
  answer_or_resync now written peer ro reason (ok _) = answer peer ro (ok tt)
  answer_or_resync now written peer ro reason (err e) =
      refuse now written peer ro reason e (lost_synchronisation e)

  -- handleElementAction, handleElementStat and handleStorySend, which differ in what they apply and in the reason that
  -- they give: a refusal for lost synchronisation is answered, and then the running order is asked for.
  unfoldable pub apply_or_resync :
      Time → Bool → Peer → Text → Text → Exec MosService (Unit {0}) → Exec Dispatcher (Unit {0})
  apply_or_resync now written peer ro reason action d =
      answer_or_resync now written peer ro reason (action d.service).0
        (record d { service = (action d.service).1 })

  unfoldable pub handle_element_action :
      Time → Bool → Peer → RoElementAction → Exec Dispatcher (Unit {0})
  unfolding apply_or_resync
  handle_element_action now written peer m =
      apply_or_resync now written peer m.ro_id
        (nack (text "running order not held by this device, requesting resync"))
        (process_element_action now m)

  unfoldable pub handle_element_stat :
      (Text → Text)
      → (Text → Option Time)
      → Time
      → Bool
      → Peer
      → RoElementStat
      → Exec Dispatcher (Unit {0})
  unfolding apply_or_resync
  handle_element_stat to_upper parse_mos_time now written peer m =
      apply_or_resync now written peer m.ro_id
        (nack (text "element not held by this device, requesting resync"))
        (process_element_status to_upper parse_mos_time now m)

  unfoldable pub handle_delete : Peer → Text → Exec Dispatcher (Unit {0})
  unfolding acknowledge
  handle_delete peer ro = acknowledge peer ro (delete_running_order ro)

  unfoldable pub handle_metadata_replace :
      Time → Peer → RoMetadataReplace → Exec Dispatcher (Unit {0})
  unfolding acknowledge
  handle_metadata_replace now peer m = acknowledge peer m.id (replace_metadata now m)

  unfoldable pub handle_ready_to_air : Time → Peer → Text → Text → Exec Dispatcher (Unit {0})
  unfolding acknowledge
  handle_ready_to_air now peer ro air = acknowledge peer ro (set_ready_to_air now ro air)

  module _ (casing : Casing) {Rate : Type 0} (floats : Floats Rate) where
    unfoldable pub handle_story_send : Time → Bool → Peer → RoStorySend → Exec Dispatcher (Unit {0})
    unfolding apply_or_resync
    handle_story_send now written peer m =
        apply_or_resync now written peer m.ro_id
          (nack (text "running order not held by this device, requesting resync"))
          (process_ro_story_send casing floats now m)

  module _ {Rate : Type 0} (floats : Floats Rate) where
    unfoldable pub handle_replace : Time → Peer → RoReplace → Exec Dispatcher (Unit {0})
    unfolding acknowledge
    handle_replace now peer m = acknowledge peer m.id (replace_running_order floats now m)

    -- `mos_id` is deps.mosID.
    unfoldable pub handle_create :
        Time → Text → Peer → RunningOrderInfo → Exec Dispatcher (Unit {0})
    unfolding acknowledge
    handle_create now mos_id peer m =
        acknowledge peer m.id (process_running_order_info floats now m mos_id)

module _ {Rate : Type 0} (floats : Floats Rate) where
  abbrev applied_list : Time → Bool → Peer → Text → Result (Unit {0}) → Exec Dispatcher (Unit {0})
  applied_list now written peer ro (err e) d = (ok tt, d)
  applied_list now written peer ro (ok _) d =
      let (next, walk) = resolved now written ro d.walk in
      send_next peer next (record d { resync = forget ro d.resync; walk = walk })

  -- handleList: an error is logged, and nothing is answered
  unfoldable pub handle_list : Time → Bool → Text → Peer → RoList → Exec Dispatcher (Unit {0})
  handle_list now written mos_id peer m d =
      let r = apply_ro_list floats now m mos_id d.service in
      applied_list now written peer m.id r.0 (record d { service = r.1 })
