-- ===== src/Service/StorySend.antt =====
-- ProcessROStorySend and ProcessROReqStoryAction (src/internal/service/control.go), and ProcessStoryAction
-- (src/internal/service/story.go): stories that arrive with their bodies. The
-- identifiers in the messages of errors are left out.
pub mod Received
pub mod Carried
pub mod Arrived
use open_mos.Prelude.{List, [], ◌∷◌, if◌then◌else◌, ◌+◌, length}
use open_mos.Text.{Text, text, same, is_empty}
use open_mos.Text.Format.{format_int}
use open_mos.Outcome.{Result, ok, err, failed, wrapped, unknown_running_order}
use open_mos.Exec.{Exec, pure, raise, lift, reads, annotate, ◌>>=◌, ◌>>◌}
use open_mos.Model.{Time, Story, RunningOrder, zero_story, status_pending}
use open_mos.Repository.Stories
use open_mos.Repository.RunningOrders
use open_mos.Events.{Event, Payload, identifier, named, story_received, story_modified}
use open_mos.Cues.{Casing}
use open_mos.Wire.StorySend.{RoStorySend, NcsReqStoryAction, RoReqStoryAction, as_story_send}
use open_mos.Service.{MosService, create_story, update_story, delete_story, publish_event}
use open_mos.Service.Identity.{story_persistence_id}
use open_mos.Service.Timing.{Floats}
use open_mos.Service.Messages.{require, is_blank}
use open_mos.Service.StoryBodies.{process_story_body}

abbrev pub service_event : Text → Payload → Event
service_event type payload = record {
  event_type = type;
  payload = payload;
  source = text "mos_service";
}

abbrev pub held_or_unknown : Text → Result RunningOrder → Result (Unit {0})
held_or_unknown ro (ok r) = ok tt
held_or_unknown ro (err e) = err (unknown_running_order ro e)

-- The story of a roStorySend that is not held: Order is left at zero.
unfoldable pub sent_story : Time → RoStorySend → Story
sent_story now m = record zero_story {
  id = story_persistence_id m.ro_id m.story_id;
  raw_id = m.story_id;
  running_order_id = m.ro_id;
  slug = m.story_slug;
  number = m.story_num;
  status = status_pending;
  created_at = now;
  updated_at = now;
}

-- The story of a roStorySend that is held.
unfoldable pub merge_sent : Time → RoStorySend → Story → Story
merge_sent now m x = record x {
  raw_id = m.story_id;
  running_order_id = m.ro_id;
  slug = if is_empty m.story_slug then x.slug else m.story_slug;
  number = if is_empty m.story_num then x.number else m.story_num;
  updated_at = now;
}

module _ (casing : Casing) {Rate : Type 0} (floats : Floats Rate) where
  abbrev pub send_found : Time → RoStorySend → Result Story → Exec MosService (Unit {0})
  send_found now m (err e) = do
    x ←
        annotate "failed to persist story items"
          (process_story_body casing floats now (sent_story now m) m.story_body)
    annotate "failed to create story from roStorySend" (create_story x)
  send_found now m (ok old) = do
    x ←
        annotate "failed to persist story items"
          (process_story_body casing floats now (merge_sent now m old) m.story_body)
    annotate "failed to update story from roStorySend" (update_story x)

  -- Creates the story of a roStorySend with what its body carries, or updates the one that is held.
  unfoldable pub send_story : Time → RoStorySend → Exec MosService (Unit {0})
  unfolding process_story_body sent_story merge_sent
  send_story now m s =
      send_found now m (Stories.get (story_persistence_id m.ro_id m.story_id) s.stories) s

  -- ProcessROStorySend
  unfoldable pub process_ro_story_send : Time → RoStorySend → Exec MosService (Unit {0})
  unfolding send_story
  process_ro_story_send now m = do
    lift (
        require "roID is required" (is_blank m.ro_id)
          (require "storyID is required" (is_blank m.story_id) (ok tt)))
    reads (λ s. held_or_unknown m.ro_id (RunningOrders.get m.ro_id s.running_orders))
    send_story now m
    publish_event (service_event story_received (identifier m.story_id))

  -- ProcessROReqStoryAction
  unfoldable pub process_ro_req_story_action : Time → RoReqStoryAction → Exec MosService (Unit {0})
  unfolding process_ro_story_send as_story_send
  process_ro_req_story_action now m =
      let send = as_story_send m.story_action in
      annotate "failed to process story in roReqStoryAction" (process_ro_story_send now send)
      >> publish_event (
          service_event story_modified (
            named (
              (text "roID", send.ro_id)
              ∷ (text "storyID", send.story_id)
              ∷ (text "operation", m.operation)
              ∷ (text "username", m.username)
              ∷ [])))

  -- The story that createNewStory makes, at the end of its running order.
  abbrev new_story : Time → RoStorySend → Text → List Story → Story
  new_story now m ro stories = record zero_story {
    id = if is_empty m.story_id then b'S' ∷ format_int now else m.story_id;
    running_order_id = ro;
    slug = m.story_slug;
    number = m.story_num;
    status = status_pending;
    created_at = now;
    updated_at = now;
    order = length stories + 1;
  }

  -- createNewStory
  unfoldable pub create_new_story : Time → RoStorySend → Exec MosService (Unit {0})
  unfolding process_story_body format_int
  create_new_story now m =
      if is_empty m.ro_id then raise (failed "no running order ID specified") else (do
        r ←
            annotate "roStorySend for unknown running order: send roCreate first"
              (reads (λ s. RunningOrders.get m.ro_id s.running_orders))
        stories ← reads (λ s. ok (Stories.list_by_running_order r.id s.stories))
        x ←
            annotate "failed to process story body"
              (process_story_body casing floats now (new_story now m r.id stories) m.story_body)
        annotate "failed to create story" (create_story x)
        publish_event (service_event story_modified (identifier x.id)))

  abbrev renamed : Time → RoStorySend → Story → Story
  renamed now m x = record x { slug = m.story_slug; number = m.story_num; updated_at = now }

  -- updateStory
  unfoldable pub send_update : Time → RoStorySend → Exec MosService (Unit {0})
  unfolding process_story_body
  send_update now m = do
    old ← annotate "story not found" (reads (λ s. Stories.get m.story_id s.stories))
    x ←
        annotate "failed to process story body"
          (process_story_body casing floats now (renamed now m old) m.story_body)
    annotate "failed to update story" (update_story x)
    publish_event (service_event story_modified (identifier x.id))

  -- replaceStory; the memory repository's Delete never fails
  unfoldable pub replace_story : Time → RoStorySend → Exec MosService (Unit {0})
  unfolding create_new_story
  replace_story now m = do delete_story m.story_id; create_new_story now m

  -- ProcessStoryAction
  unfoldable pub process_story_action : Time → NcsReqStoryAction → Exec MosService (Unit {0})
  unfolding create_new_story send_update replace_story
  process_story_action now m =
      let operation = casing.to_upper m.operation in
      if same operation (text "NEW")
      then create_new_story now m.ro_story_send
      else (if same operation (text "UPDATE")
          then send_update now m.ro_story_send
          else (if same operation (text "REPLACE")
              then replace_story now m.ro_story_send
              else raise (failed "unsupported story operation")))
