-- ===== src/Dispatch/Recovery.antt =====
-- src/internal/server/dispatch_ro.go: what is sent when a message names a running order that is not held.
use open_mos.Prelude.{
  ℕ, zero, suc, ◌+◌, ◌-◌, ◌<◌, ◌≤◌, ◌≡◌, ◌≢◌, refl, ap, ◌∙◌, sym, Bool, true, false, ◌||◌, List, [],
  ◌∷◌, ◌++◌, Option, none, some, length, take, All, arith, inl, inr, Bool-cases, if_holds, ltb, leb,
  append_assoc, append-nil, if◌then◌else◌, ◌==◌, All-take,
}
use open_mos.Text.{Text, text, is_empty, same, is_one_of}
use open_mos.Outcome.{Error, Result, ok, err, lost_synchronisation}
use open_mos.Exec.{Exec}
use open_mos.Model.{Time}
use open_mos.ResyncGuard.{ResyncGuard, should_request}
use open_mos.ResyncGuard.Limit.{Call, calls, IsMeanwhile, should_request_once}
use open_mos.Discovery.{DiscoveryWalk, is_busy, enqueue_urgent, take_locked}
use open_mos.Service.{MosService}
use open_mos.Dispatch.{
  Message, ro_ack, Sent, response, request, other_lane, Peer, Dispatcher, before_newline,
  first_line, nack, respond, send_request, send_next, request_resync, apply_or_resync, on_lane,
  ro_req_all, ro_req,
}

length-before_newline : (t : Text) → length (before_newline t) ≤ length t
unfolding before_newline
length-before_newline [] = omega arith
length-before_newline (c ∷ r) = ground (arith, length-before_newline r)

newline_free : (t : Text) → All (λ c. c ≢ 10) (before_newline t)
unfolding before_newline
newline_free [] = tt
newline_free (c ∷ r) = elim (Bool-cases (c == 10)) [
  | inl q ↦ rw q tt
  | inr q ↦ rw q (ground arith, newline_free r)
]

length-append_bytes : (a b : Text) → length (a ++ b) ≡ length a + length b
length-append_bytes [] b = omega arith
length-append_bytes (c ∷ a) b = omega (arith, length-append_bytes a b)

length-take_100 : (n : ℕ) (t : Text) → length (take n t) ≤ n
length-take_100 zero t = omega arith
length-take_100 (suc n) [] = omega arith
length-take_100 (suc n) (c ∷ t) = omega (arith, length-take_100 n t)

All-append_bytes :
    (a b : Text) → All (λ c. c ≢ 10) a → All (λ c. c ≢ 10) b → All (λ c. c ≢ 10) (a ++ b)
All-append_bytes [] b h k = k
All-append_bytes (c ∷ a) b h k = (h.0, All-append_bytes a b h.1 k)

-- A line of at most 103 bytes fits behind the prefix.
behind_nack :
    (x : Text)
    → length x ≤ 103
    → All (λ c. c ≢ 10) x
    → (length (nack x) ≤ 128) × All (λ c. c ≢ 10) (nack x)
behind_nack x b h = (
  omega arith,
  All-append_bytes (text "NACK: ") x
      (omega arith, (omega arith, (omega arith, (omega arith, (omega arith, (omega arith, tt))))))
      h,
)

-- The status of a refusal is one line of at most 128 bytes, whatever the text of the error.
pub nack-first_line-fits :
    (t : Text) → (length (nack (first_line t)) ≤ 128) × All (λ c. c ≢ 10) (nack (first_line t))
unfolding first_line
nack-first_line-fits t =
    let line = before_newline t in
    let free = newline_free t in
    if_holds (λ (x : Text). (length (nack x) ≤ 128) × All (λ c. c ≢ 10) (nack x))
      (ltb 100 (length line)) _ _
      (λ _.
        behind_nack (take 100 line ++ text "...")
          (omega
            (arith, length-append_bytes (take 100 line) (text "..."), length-take_100 100 line))
          (All-append_bytes (take 100 line) (text "...") (All-take (λ c. c ≢ 10) 100 line free)
            (omega arith, (omega arith, (omega arith, tt)))))
      (λ q. behind_nack line (ground arith) free)

-- What a dispatcher has sent is what it had sent and at most one message more.
abbrev SendsOne : Dispatcher → Dispatcher → Type 0
SendsOne d e = (xs : List Sent) × (e.sent ≡ d.sent ++ xs) × (length xs ≤ 1)

on_lane-sent :
    (peer : Peer) (m : Message) (o : Option Bool) (d : Dispatcher)
    → SendsOne d (on_lane peer m o d).1
on_lane-sent peer m none d = ([], sym (append-nil d.sent), omega arith)
on_lane-sent peer m (some false) d = ([], sym (append-nil d.sent), omega arith)
on_lane-sent peer m (some true) d = (other_lane m ∷ [], refl, omega arith)

send_request-sent :
    (peer : Peer) (m : Message) (d : Dispatcher) → SendsOne d (send_request peer m d).1
unfolding send_request
send_request-sent peer m d =
    if_holds (λ (r : Result (Unit {0}) × Dispatcher). SendsOne d r.1) peer.can_originate _ _
      (λ _. (request m ∷ [], refl, omega arith)) (λ _. on_lane-sent peer m peer.origin d)

-- At most one request is sent for what the walk asks for next.
send_next-sent :
    (peer : Peer) (next : Option Text) (d : Dispatcher) → SendsOne d (send_next peer next d).1
unfolding send_next
send_next-sent peer none d = ([], sym (append-nil d.sent), omega arith)
send_next-sent peer (some ro) d =
    send_request-sent peer (if is_empty ro then ro_req_all else ro_req ro) d

enqueue_urgent-busy :
    (now : Time) (written : Bool) (ro : Text) (w : DiscoveryWalk)
    → is_busy w ≡ true
    → (enqueue_urgent now written ro w).0 ≡ none
unfolding enqueue_urgent take_locked is_busy
enqueue_urgent-busy now written ro w b =
    let P = λ (r : Option Text × DiscoveryWalk). r.0 ≡ none in
    if_holds P
      (is_empty ro || same w.in_flight ro || is_one_of w.pending ro || leb w.max (length w.pending))
      _ _ (λ _. refl)
      (λ _. if_holds P (is_busy w) _ _ (λ _. refl) (λ c. absurd (ground (arith, b, c))))

-- What is sent for a running order that is to be asked for: a request at most, and none where one is in
-- flight or the guard refuses.
request_resync-sent :
    (now : Time) (written : Bool) (peer : Peer) (ro : Text) (d : Dispatcher)
    → (xs : List Sent) × ((request_resync now written peer ro d).1.sent ≡ d.sent ++ xs)
      × (length xs ≤ 1)
      × (is_busy d.walk ≡ true → xs ≡ [])
      × ((should_request now ro d.resync).0 ≡ false → xs ≡ [])
unfolding request_resync send_next
request_resync-sent now written peer ro d = elim (Bool-cases (should_request now ro d.resync).0) [
  | inl granted ↦ elim (Bool-cases (is_busy d.walk)) [
    | inl busy ↦ (
      [],
      rw granted (rw (enqueue_urgent-busy now written ro d.walk busy) (sym (append-nil d.sent))),
      omega arith,
      λ _. refl,
      λ _. refl,
    )
    | inr idle ↦
        let r = should_request now ro d.resync in
        let u = enqueue_urgent now written ro d.walk in
        let (xs, e, b) = send_next-sent peer u.0 (record d { resync = r.1; walk = u.1 }) in
        (xs, rw granted e, b, λ c. absurd (cc (idle, c)), λ c. absurd (cc (granted, c)))
  ]
  | inr refused ↦ ([], rw refused (sym (append-nil d.sent)), omega arith, λ _. refl, λ _. refl)
]

module _ (describe : Error → Text) (now : Time) (written : Bool) (peer : Peer)
    (ro reason lost : Text) (action : Exec MosService (Unit {0})) (e : Error) (d : Dispatcher) where
  -- The dispatcher once the refusal is answered.
  abbrev pub refused : Dispatcher
  refused = record d {
    service = (action d.service).1;
    sent = d.sent ++ response (ro_ack ro reason) ∷ [];
  }

  pub apply_or_resync-run :
      (action d.service).0 ≡ err e
      → lost_synchronisation e ≡ some lost
      → peer.respond (ro_ack ro reason) ≡ ok tt
      → apply_or_resync describe now written peer ro reason action d
        ≡ request_resync now written peer lost refused
  unfolding apply_or_resync respond
  apply_or_resync-run a l p = rw a (rw l (rw p refl))

  -- A message that the service refuses because it names what is not held is answered first, where the
  -- answer can be sent, and then the running order is asked for, by one request at most: none while
  -- another request is in flight, and none where the guard refuses it.
  pub apply_or_resync-sent :
      (action d.service).0 ≡ err e
      → lost_synchronisation e ≡ some lost
      → peer.respond (ro_ack ro reason) ≡ ok tt
      → (xs : List Sent) × ((apply_or_resync describe now written peer ro reason action d).1.sent
          ≡ d.sent ++ response (ro_ack ro reason) ∷ xs)
        × (length xs ≤ 1)
        × (is_busy d.walk ≡ true → xs ≡ [])
        × ((should_request now lost d.resync).0 ≡ false → xs ≡ [])
  apply_or_resync-sent a l p =
      let (xs, q, b, f, g) = request_resync-sent now written peer lost refused in
      (
        xs,
        ap (λ (r : Result (Unit {0}) × Dispatcher). r.1.sent) (apply_or_resync-run a l p)
            ∙ q
            ∙ append_assoc d.sent (response (ro_ack ro reason) ∷ []) xs,
        b,
        f,
        g,
      )

  -- Recovery does not become a loop: when a running order has been asked for, whatever is asked of the
  -- guard meanwhile, as long as it is not told to forget the running order, a second refusal before the
  -- interval has passed is answered, and nothing is requested.
  pub apply_or_resync_once :
      (at : Time) (g : ResyncGuard) (cs : List Call)
      → (should_request at lost g).0 ≡ true
      → All (IsMeanwhile lost at g.interval) cs
      → now - at < g.interval
      → d.resync ≡ calls cs (should_request at lost g).1
      → (action d.service).0 ≡ err e
      → lost_synchronisation e ≡ some lost
      → peer.respond (ro_ack ro reason) ≡ ok tt
      → (apply_or_resync describe now written peer ro reason action d).1.sent
        ≡ d.sent ++ response (ro_ack ro reason) ∷ []
  apply_or_resync_once at g cs first m within same_guard a l p =
      let (xs, q, b, f, none_sent) = apply_or_resync-sent a l p in
      let nothing = none_sent (
        ap (λ (x : ResyncGuard). (should_request now lost x).0) same_guard
        ∙ should_request_once at now lost cs g first m within) in
      q ∙ ap (λ (x : List Sent). d.sent ++ response (ro_ack ro reason) ∷ x) nothing
