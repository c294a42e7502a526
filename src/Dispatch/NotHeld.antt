-- ===== src/Dispatch/NotHeld.antt =====
-- handleStorySend of src/internal/server/dispatch_ro.go for a running order that the device does not hold.
use open_mos.Prelude.{
  ◌≡◌, ◌≤◌, refl, ap, ◌∙◌, List, [], ◌∷◌, ◌++◌, Option, none, some, Bool, true, false, length,
  if_holds, Bool-cases, inl, inr, if◌then◌else◌,
}
use open_mos.Cues.{Casing}
use open_mos.Text.{Text, text, is_empty}
use open_mos.Outcome.{Error, Result, ok, err, lost_synchronisation, unknown_running_order}
use open_mos.Model.{Time}
use open_mos.Repository.RunningOrders
use open_mos.ResyncGuard.{should_request}
use open_mos.Discovery.{is_busy, enqueue_urgent}
use open_mos.Service.{MosService}
use open_mos.Service.Messages.{is_blank}
use open_mos.Service.Timing.{Floats}
use open_mos.Service.StorySend.{process_ro_story_send}
use open_mos.Service.StorySend.Received.{process_ro_story_send-unknown}
use open_mos.Wire.StorySend.{RoStorySend}
use open_mos.Dispatch.{
  Message, Peer, Dispatcher, Sent, response, ro_ack, ro_req, ro_req_all, nack, send_request,
  send_next, request_resync, handle_story_send, on_lane,
}
use open_mos.Dispatch.Recovery.{apply_or_resync-sent, apply_or_resync-run, refused}

on_lane-service :
    (peer : Peer) (m : Message) (o : Option Bool) (d : Dispatcher)
    → (on_lane peer m o d).1.service ≡ d.service
on_lane-service peer m none d = refl
on_lane-service peer m (some false) d = refl
on_lane-service peer m (some true) d = refl

-- What is asked of the peer leaves the service as it was.
send_next-service :
    (peer : Peer) (next : Option Text) (d : Dispatcher)
    → (send_next peer next d).1.service ≡ d.service
unfolding send_next send_request
send_next-service peer none d = refl
send_next-service peer (some ro) d =
    let m = if is_empty ro then ro_req_all else ro_req ro in
    if_holds (λ (r : Result (Unit {0}) × Dispatcher). r.1.service ≡ d.service) peer.can_originate _
      _ (λ _. refl) (λ _. on_lane-service peer m peer.origin d)

pub request_resync-service :
    (now : Time) (written : Bool) (peer : Peer) (ro : Text) (d : Dispatcher)
    → (request_resync now written peer ro d).1.service ≡ d.service
unfolding request_resync
request_resync-service now written peer ro d =
    elim (Bool-cases (should_request now ro d.resync).0) [
      | inl granted ↦
          let u = enqueue_urgent now written ro d.walk in
          rw granted (
            send_next-service peer u.0
              (record d { resync = (should_request now ro d.resync).1; walk = u.1 }))
      | inr denied ↦ rw denied refl
    ]

abbrev pub not_held : Text
not_held = nack (text "running order not held by this device, requesting resync")

-- A roStorySend with identifiers, for a running order that is not held, changes nothing that the service
-- holds. It is answered with a refusal, where that can be sent, and then by one request at most: none
-- while another is in flight, and none where the guard refuses it.
pub handle_story_send-not_held :
    (casing : Casing) {Rate : Type 0} (floats : Floats Rate) (describe : Error → Text) (now : Time)
    (written : Bool) (peer : Peer) (m : RoStorySend) (e : Error) (d : Dispatcher)
    → is_blank m.ro_id ≡ false
    → is_blank m.story_id ≡ false
    → RunningOrders.get m.ro_id d.service.running_orders ≡ err e
    → peer.respond (ro_ack m.ro_id not_held) ≡ ok tt
    → ((handle_story_send describe casing floats now written peer m d).1.service ≡ d.service)
      × ((xs : List Sent) × ((handle_story_send describe casing floats now written peer m d).1.sent
            ≡ d.sent ++ response (ro_ack m.ro_id not_held) ∷ xs)
          × (length xs ≤ 1)
          × (is_busy d.walk ≡ true → xs ≡ [])
          × ((should_request now m.ro_id d.resync).0 ≡ false → xs ≡ []))
unfolding handle_story_send lost_synchronisation
handle_story_send-not_held casing floats describe now written peer m e d b c g p =
    let action = process_ro_story_send casing floats now m in
    let lost = unknown_running_order m.ro_id e in
    let q = process_ro_story_send-unknown casing floats now m e d.service b c g in
    let a = ap (λ (r : Result (Unit {0}) × MosService). r.0) q in
    let run =
      apply_or_resync-run describe now written peer m.ro_id not_held m.ro_id action lost d a refl
        p in
    let asked = refused describe now written peer m.ro_id not_held m.ro_id action lost d in
    (
      ap (λ (r : Result (Unit {0}) × Dispatcher). r.1.service) run
          ∙ request_resync-service now written peer m.ro_id asked
          ∙ ap (λ (r : Result (Unit {0}) × MosService). r.1) q,
      apply_or_resync-sent describe now written peer m.ro_id not_held m.ro_id action lost d a refl
          p,
    )
