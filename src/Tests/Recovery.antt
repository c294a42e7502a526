-- ===== src/Tests/Recovery.antt =====
-- Refusals and what is requested after them.
use open_mos.Prelude.{inl, ◌≡◌, ◌≢◌, ◌≤◌, refl, true, [], ◌∷◌, ◌++◌, none, All, arith, length}
use open_mos.Text.{is_one_of, Text, text, is_empty}
use open_mos.Outcome.{Error, ok, failed, unknown_running_order, lost_synchronisation}
use open_mos.Exec.{raise}
use open_mos.Service.{MosService}
use open_mos.ResyncGuard.{new_resync_guard, should_request}
use open_mos.ResyncGuard.Limit.{asked, calls}
use open_mos.Discovery.{open_discovery_walk, enqueue_urgent}
use open_mos.Dispatch.{
  Peer, Dispatcher, response, request, ro_ack, ro_req, nack, first_line, apply_or_resync, respond,
  request_resync, send_next,
}
use open_mos.Dispatch.Asking.{IsIdle, apply_or_resync-asks}
use open_mos.Dispatch.Recovery.{nack-first_line-fits, apply_or_resync_once}

abbrev ro : Text
ro = text "R"

abbrev peer : Peer
peer = record { can_originate = true; origin = none; respond = λ m. ok tt; originate = λ m. ok tt }

abbrev empty_service : MosService
empty_service = record {
  running_orders = [];
  stories = [];
  items = [];
  objects = [];
  event_bus = none;
}

abbrev start : Dispatcher
start = record {
  service = empty_service;
  resync = new_resync_guard;
  walk = open_discovery_walk [] true none;
  sent = [];
}

abbrev not_held : Error
not_held = unknown_running_order ro (failed "not held")

abbrev describe : Error → Text
describe e = text "not held"

abbrev reason : Text
reason = nack (text "running order not held by this device, requesting resync")

nack-first_line-fits_example :
    (length (nack (first_line (text "no such story"))) ≤ 128)
    × All (λ c. c ≢ 10) (nack (first_line (text "no such story")))
nack-first_line-fits_example = nack-first_line-fits (text "no such story")

-- The refusal is answered, and then the running order is asked for.
first_refusal :
    (apply_or_resync describe 5 true peer ro reason (raise not_held) start).1.sent
    ≡ response (ro_ack ro reason) ∷ request (ro_req ro) ∷ []
unfolding apply_or_resync lost_synchronisation respond request_resync should_request is_empty
    send_next enqueue_urgent open_discovery_walk
first_refusal = refl

start-IsIdle : IsIdle ro start.walk
unfolding open_discovery_walk is_one_of
start-IsIdle = record {
  nothing_in_flight = refl;
  no_catalogue = refl;
  no_catalogue_due = refl;
  not_queued = refl;
  has_room = omega arith;
}

apply_or_resync-asks_example :
    ((apply_or_resync describe 5 true peer ro reason (raise not_held) start).1.sent
      ≡ response (ro_ack ro reason) ∷ request (ro_req ro) ∷ [])
    × ((apply_or_resync describe 5 true peer ro reason (raise not_held) start).1.walk.in_flight
        ≡ ro)
    × ((apply_or_resync describe 5 true peer ro reason (raise not_held) start).1.service
        ≡ empty_service)
unfolding lost_synchronisation should_request is_empty
apply_or_resync-asks_example =
    apply_or_resync-asks describe 5 true peer ro reason ro (raise not_held) not_held start refl refl
      refl refl start-IsIdle refl (inl refl)

abbrev asked_already : Dispatcher
asked_already = record start {
  resync = calls (asked 6 (text "Q") ∷ []) (should_request 5 ro new_resync_guard).1;
}

apply_or_resync_once_example :
    (apply_or_resync describe 9 true peer ro reason (raise not_held) asked_already).1.sent
    ≡ [] ++ response (ro_ack ro reason) ∷ []
unfolding should_request is_empty lost_synchronisation
apply_or_resync_once_example =
    apply_or_resync_once describe 9 true peer ro reason ro (raise not_held) not_held asked_already 5
      new_resync_guard (asked 6 (text "Q") ∷ []) refl (omega arith, tt) (omega arith) refl refl refl
      refl
