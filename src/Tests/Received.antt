-- ===== src/Tests/Received.antt =====
-- Stories that arrive with their bodies, and commands on items.
use open_mos.Prelude.{
  ℕ, ◌≡◌, ◌≤◌, refl, true, false, List, [], ◌∷◌, ◌++◌, none, some, length, ◌==◌, map,
}
use open_mos.Cues.{Casing}
use open_mos.Text.{same, Text, text, is_empty, same}
use open_mos.Text.Trim.{trim_space}
use open_mos.Text.Number.{pos, unsigned}
use open_mos.Outcome.{Error, ok, err}
use open_mos.Model.{Story, Item, zero_story, zero_item, zero_running_order}
use open_mos.Table.Selected.{selected}
use open_mos.Table.Listing.{sort}
use open_mos.Repository.{update}
use open_mos.Table.{values, lookup}
use open_mos.Repository.{not_found_error, get}
use open_mos.Repository.Items
use open_mos.Service.{MosService}
use open_mos.Service.Timing.{Floats}
use open_mos.Service.StorySend.{process_ro_story_send}
use open_mos.Service.StorySend.Arrived.{HasArrived, process_ro_story_send-stored}
use open_mos.Service.StoryBodies.{body_infos}
use open_mos.Service.Control.{process_ro_ctrl}
use open_mos.ResyncGuard.{new_resync_guard, should_request}
use open_mos.Discovery.{open_discovery_walk, is_busy}
use open_mos.Wire.{ItemInfo, zero_item_info}
use open_mos.Wire.StorySend.{StoryItem, StoryItemFields, StoryBody, RoStorySend, RoCtrl}
use open_mos.Dispatch.{Peer, Dispatcher, Sent, response, ro_ack, handle_story_send}
use open_mos.Dispatch.NotHeld.{not_held, handle_story_send-not_held}

abbrev whole : Floats ℕ
whole = record {
  parse_float = unsigned 10;
  is_at_most_zero = λ r. r == 0;
  round = pos;
  seconds = λ n r. n;
}

abbrev ascii : Casing
ascii = record { to_upper = λ t. t; equal_fold = same }

abbrev ro : Text
ro = text "R"

abbrev story_a : Story
story_a = record zero_story { id = text "R/A"; raw_id = text "A"; running_order_id = ro; order = 1 }

abbrev item_a : Item
item_a = record zero_item { id = text "R/A/1"; raw_id = text "1"; story_id = text "R/A"; order = 1 }

abbrev show : MosService
show = record {
  running_orders =
      (ro, record zero_running_order { id = ro; slug = text "Show"; version = 1 }) ∷ [];
  stories = (text "R/A", story_a) ∷ [];
  items = (text "R/A/1", item_a) ∷ [];
  objects = [];
  event_bus = none;
}

-- <storyItem><mosItem> with an abstract and no slug
abbrev nested : StoryItemFields
nested = record {
  item_id = text "2";
  item_slug = [];
  obj_id = text "O2";
  mos_id = text "M";
  mos_abstract = text "Clip";
  item_ed_start = pos 0;
  item_ed_dur = pos 150;
  obj_dur = [];
  obj_tb = text "50";
  obj_paths = none;
  item_user_timing_dur = pos 0;
  item_channel = text "CH1";
  macro_in = [];
  macro_out = [];
  external_meta = [];
}

abbrev enps_item : StoryItem
enps_item = record {
  mos_item = some nested;
  item_id = [];
  item_slug = [];
  mos_abstract = [];
  obj_id = [];
  mos_id = [];
  item_ed_start = pos 0;
  item_ed_dur = pos 0;
  obj_dur = [];
  obj_tb = [];
  obj_paths = none;
  item_user_timing_dur = pos 0;
  macro_in = [];
  macro_out = [];
  external_meta = [];
}

abbrev body : StoryBody
body = record {
  paragraphs = record { content = text "[TAKE VO]"; items = enps_item ∷ [] } ∷ [];
  items = enps_item ∷ [];
  ordered = ok (none ∷ some (record zero_item_info { id = text "7"; abstract = text "Clip" }) ∷ []);
}

abbrev send : RoStorySend
send = record {
  ro_id = ro;
  story_id = text "A";
  story_slug = text "Opening";
  story_num = [];
  story_body = body;
  external_meta = [];
}

abbrev info_id : ItemInfo → Text × Text
info_id i = (i.id, i.slug)

-- The order of the source is followed where it can be read.
body_in_order : map info_id (body_infos body) ≡ (text "7", text "Clip") ∷ []
unfolding body_infos is_empty
body_in_order = refl

-- Where it cannot, the items of the body come first, and then those of its paragraphs.
body_legacy :
    map info_id (body_infos (record body { ordered = err not_found_error }))
    ≡ (text "2", text "Clip") ∷ (text "2", text "Clip") ∷ []
unfolding body_infos is_empty
body_legacy = refl

process_ro_story_send-stored_example :
    ((process_ro_story_send ascii whole 7 send show).0 ≡ ok tt)
    × HasArrived ascii 7 send show (process_ro_story_send ascii whole 7 send show).1
unfolding is_empty trim_space lookup get same
process_ro_story_send-stored_example =
    process_ro_story_send-stored ascii whole 7 send
      (record zero_running_order { id = ro; slug = text "Show"; version = 1 }) show refl refl refl
      (refl, refl, tt) (refl, refl, tt)

abbrev pause : RoCtrl
pause = record {
  ro_id = ro;
  story_id = text "A";
  item_id = text "R/A/1";
  command = text "PAUSE";
  mos_external_metadata = [];
}

abbrev at_noon : ℕ → Text
at_noon now = text "12:00"

-- The command names an item by its storage key.
paused_item :
    map
      (λ (i : Item). i.status)
      (Items.list_by_story (text "R/A") (process_ro_ctrl at_noon 7 pause show).1.items)
    ≡ text "PAUSED" ∷ []
unfolding process_ro_ctrl Items.list_by_story selected sort values same is_empty get lookup update
paused_item = refl

-- By the identifier of the wire, it does not find it.
wire_id_refused : (process_ro_ctrl at_noon 7 (record pause { item_id = text "1" }) show).1 ≡ show
unfolding process_ro_ctrl same is_empty get lookup
wire_id_refused = refl

abbrev peer : Peer
peer = record { can_originate = true; origin = none; respond = λ m. ok tt; originate = λ m. ok tt }

abbrev device : Dispatcher
device = record {
  service = show;
  resync = new_resync_guard;
  walk = open_discovery_walk [] true none;
  sent = [];
}

abbrev lost : RoStorySend
lost = record send { ro_id = text "Q" }

abbrev silent : Error → Text
silent e = []

handle_story_send-not_held_example :
    ((handle_story_send silent ascii whole 5 true peer lost device).1.service ≡ show)
    × ((xs : List Sent) × ((handle_story_send silent ascii whole 5 true peer lost device).1.sent
          ≡ [] ++ response (ro_ack (text "Q") not_held) ∷ xs)
        × (length xs ≤ 1)
        × (is_busy device.walk ≡ true → xs ≡ [])
        × ((should_request 5 (text "Q") device.resync).0 ≡ false → xs ≡ []))
unfolding is_empty trim_space lookup get same
handle_story_send-not_held_example =
    handle_story_send-not_held ascii whole silent 5 true peer lost not_found_error device refl refl
      refl refl
