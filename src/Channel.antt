-- ===== src/Channel.antt =====
-- src/internal/server/channel.go: which channel of MOS 4.0 a message belongs on.
pub mod Separate
use open_mos.Prelude.{Bool, true, false, Option, none, some, if◌then◌else◌}
use open_mos.Text.{Text, text, same}

-- The types of message that classifyMessage names; `another` stands for every other type.
pub data MosMessage : Type 0 where
  keep_alive heartbeat req_mach_info list_mach_info : MosMessage
  running_order_info ro_replace ro_delete ro_story_send ro_ack : MosMessage
  ro_req ro_list ro_req_all ro_list_all ro_element_stat : MosMessage
  mos_obj mos_obj_ack mos_req_obj mos_req_all mos_list_all : MosMessage
  another : MosMessage

pub data MessageFamily : Type 0 where
  family_profile0 family_running_order family_object family_search family_unknown : MessageFamily

abbrev pub channel_mom : Text
channel_mom = text "mom"

abbrev pub channel_ro : Text
channel_ro = text "ro"

abbrev pub channel_aux : Text
channel_aux = text "aux"

-- IsKnownChannel
unfoldable pub is_known_channel : Text → Bool
is_known_channel c =
    if same c channel_mom then true else (if same c channel_ro then true else same c channel_aux)

-- classifyMessage
unfoldable pub classify_message : MosMessage → MessageFamily
classify_message keep_alive = family_profile0
classify_message heartbeat = family_profile0
classify_message req_mach_info = family_profile0
classify_message list_mach_info = family_profile0
classify_message running_order_info = family_running_order
classify_message ro_replace = family_running_order
classify_message ro_delete = family_running_order
classify_message ro_story_send = family_running_order
classify_message ro_ack = family_running_order
classify_message ro_req = family_running_order
classify_message ro_list = family_running_order
classify_message ro_req_all = family_running_order
classify_message ro_list_all = family_running_order
classify_message ro_element_stat = family_running_order
classify_message mos_obj = family_object
classify_message mos_obj_ack = family_object
classify_message mos_req_obj = family_object
classify_message mos_req_all = family_object
classify_message mos_list_all = family_object
classify_message another = family_unknown

-- The channel that a family wants, where it wants one.
unfoldable pub wanted_channel : MessageFamily → Option Text
wanted_channel family_profile0 = none
wanted_channel family_running_order = some channel_ro
wanted_channel family_object = some channel_mom
wanted_channel family_search = some channel_aux
wanted_channel family_unknown = none

-- channelAccepts, without the reason
unfoldable pub channel_accepts : Text → MessageFamily → Bool
unfolding wanted_channel
channel_accepts channel f = elim (wanted_channel f) [ none ↦ true | some want ↦ same channel want ]
