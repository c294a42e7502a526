-- ===== src/Dispatch/Asking.antt =====
-- src/internal/server/dispatch_ro.go: a running order that is lost is asked for, by a roReq behind the refusal.
use open_mos.Prelude.{
  ◌≡◌, ◌<◌, ◌⊎◌, refl, ap, ◌∙◌, [], ◌∷◌, ◌++◌, Option, none, some, Bool, true, false, length, arith,
  Bool-cases, inl, inr, if◌then◌else◌, append_assoc, leb,
}
use open_mos.Text.{Text, same, is_empty, is_one_of}
use open_mos.Outcome.{Error, ok, err, lost_synchronisation}
use open_mos.Exec.{Exec}
use open_mos.Model.{Time}
use open_mos.ResyncGuard.{should_request}
use open_mos.Discovery.{DiscoveryWalk, is_busy, enqueue_urgent, take_locked, persist}
use open_mos.Service.{MosService}
use open_mos.Dispatch.{
  Message, Peer, Dispatcher, Sent, response, request, other_lane, ro_ack, ro_req, send_request,
  send_next, request_resync, apply_or_resync, on_lane,
}
use open_mos.Dispatch.NotHeld.{request_resync-service}
use open_mos.Dispatch.Recovery.{apply_or_resync-run, refused}

-- A walk that waits for nothing, and has room for a running order that is not queued.
pub record IsIdle (ro : Text) (w : DiscoveryWalk) : Type 0 where
  pub nothing_in_flight : w.in_flight ≡ []
  pub no_catalogue : w.catalogue_in_flight ≡ false
  pub no_catalogue_due : w.catalogue_pending ≡ false
  pub not_queued : is_one_of w.pending ro ≡ false
  pub has_room : length w.pending < w.max

-- The request, on the lane itself or on the one for requests.
abbrev pub asked : Peer → Message → Sent
asked peer m = if peer.can_originate then request m else other_lane m

send_request-asks :
    (peer : Peer) (m : Message) (d : Dispatcher)
    → (peer.can_originate ≡ true) ⊎ (peer.origin ≡ some true)
    → (send_request peer m d).1.sent ≡ d.sent ++ asked peer m ∷ []
unfolding send_request
send_request-asks peer m d (inl c) = rw c refl
send_request-asks peer m d (inr o) = elim (Bool-cases peer.can_originate) [
  | inl q ↦ rw q refl
  | inr q ↦ rw (q, o) refl
]

persist-in_flight :
    (written : Bool) (w : DiscoveryWalk) → (persist written w).in_flight ≡ w.in_flight
unfolding persist
persist-in_flight written w = ground arith

enqueue_urgent-asks :
    (now : Time) (written : Bool) (ro : Text) (w : DiscoveryWalk)
    → is_empty ro ≡ false
    → IsIdle ro w
    → ((enqueue_urgent now written ro w).0 ≡ some ro)
      × ((enqueue_urgent now written ro w).1.in_flight ≡ ro)
unfolding enqueue_urgent take_locked is_busy is_empty same
enqueue_urgent-asks now written [] w n h = absurd (ground (arith, n))
enqueue_urgent-asks now written (c ∷ r) w n h =
    let full : leb w.max (length w.pending) ≡ false = ground (arith, h.has_room) in
    rw (h.nothing_in_flight, h.not_queued, full, h.no_catalogue, h.no_catalogue_due)
      (refl, persist-in_flight written _)

send_request-walk :
    (peer : Peer) (m : Message) (d : Dispatcher) → (send_request peer m d).1.walk ≡ d.walk
unfolding send_request
send_request-walk peer m d = elim (Bool-cases peer.can_originate) [
  | inl q ↦ rw q refl
  | inr q ↦ rw q (on_lane-walk peer.origin)
]
  where
    on_lane-walk : (o : Option Bool) → (on_lane peer m o d).1.walk ≡ d.walk
    on_lane-walk none = refl
    on_lane-walk (some false) = refl
    on_lane-walk (some true) = refl

request_resync-asks :
    (now : Time) (written : Bool) (peer : Peer) (ro : Text) (d : Dispatcher)
    → is_empty ro ≡ false
    → IsIdle ro d.walk
    → (should_request now ro d.resync).0 ≡ true
    → (peer.can_originate ≡ true) ⊎ (peer.origin ≡ some true)
    → ((request_resync now written peer ro d).1.sent ≡ d.sent ++ asked peer (ro_req ro) ∷ [])
      × ((request_resync now written peer ro d).1.walk.in_flight ≡ ro)
unfolding request_resync send_next
request_resync-asks now written peer ro d n h g p =
    let (a, f) = enqueue_urgent-asks now written ro d.walk n h in
    let u = enqueue_urgent now written ro d.walk in
    let d' : Dispatcher = record d { resync = (should_request now ro d.resync).1; walk = u.1 } in
    rw (g, a, n)
      (
        send_request-asks peer (ro_req ro) d' p,
        ap (λ (w : DiscoveryWalk). w.in_flight) (send_request-walk peer (ro_req ro) d') ∙ f,
      )

-- A message that the service refuses because it names what is not held is answered, where the answer can
-- be sent, and then the running order is asked for by one roReq and nothing else, for which the walk then
-- waits: where the guard grants it, the walk is idle and has room, and the peer's lane can carry a request
-- or the lane for requests is ready.
pub apply_or_resync-asks :
    (describe : Error → Text) (now : Time) (written : Bool) (peer : Peer) (ro reason lost : Text)
    (action : Exec MosService (Unit {0})) (e : Error) (d : Dispatcher)
    → (action d.service).0 ≡ err e
    → lost_synchronisation e ≡ some lost
    → peer.respond (ro_ack ro reason) ≡ ok tt
    → is_empty lost ≡ false
    → IsIdle lost d.walk
    → (should_request now lost d.resync).0 ≡ true
    → (peer.can_originate ≡ true) ⊎ (peer.origin ≡ some true)
    → ((apply_or_resync describe now written peer ro reason action d).1.sent
        ≡ d.sent ++ response (ro_ack ro reason) ∷ asked peer (ro_req lost) ∷ [])
      × ((apply_or_resync describe now written peer ro reason action d).1.walk.in_flight ≡ lost)
      × ((apply_or_resync describe now written peer ro reason action d).1.service
          ≡ (action d.service).1)
apply_or_resync-asks describe now written peer ro reason lost action e d a l r n h g p =
    let run = apply_or_resync-run describe now written peer ro reason lost action e d a l r in
    let after = refused describe now written peer ro reason lost action e d in
    let (q, f) = request_resync-asks now written peer lost after n h g p in
    rw run (
      q ∙ append_assoc d.sent (response (ro_ack ro reason) ∷ []) (asked peer (ro_req lost) ∷ []),
      f,
      request_resync-service now written peer lost after,
    )
