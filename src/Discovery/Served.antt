-- ===== src/Discovery/Served.antt =====
-- src/internal/server/discovery.go: a walk ends, with every advertised running order asked for.
use open_mos.Prelude.{
  ℕ, ◌+◌, ◌≤◌, ◌≡◌, refl, Bool, false, not, ◌&&◌, List, [], ◌∷◌, none, some, Option, if◌then◌else◌,
  arith, length, if_holds, ltb, subst, sym, ◌∙◌, ap,
}
use open_mos.Text.{Text, is_empty, is_one_of}
use open_mos.Text.Order.{same_iff}
use open_mos.Model.{Time}
use open_mos.Discovery.{
  DiscoveryWalk, outstanding, take_or_persist, begin, is_busy, register_request, resolved, nudge,
  begin_queue, answered_catalogue,
}
use open_mos.Discovery.Listed.{IsQueue, IsQueue-begin_queue, is_one_of-begin_queue}
use open_mos.Discovery.Serving.{
  IsServing, IsNext, IsIdle, take_or_persist-IsNext, register-IsServing, resolved-IsNext,
  nudge-IsNext,
}
use open_mos.Discovery.Valid.{not_busy}

-- What becomes of a request: it is sent at an instant on a WebSocket session, and answered, or not
-- answered, and then the walk is nudged some time after the deadline.
pub record Attempt : Type 0 where
  pub sent_at : Time
  pub scope : Text
  pub session : Text
  pub message_id : Text
  pub is_answered : Bool
  pub after : ℕ
  pub written : Bool

unfoldable pub attempt : Attempt → DiscoveryWalk → Option Text × DiscoveryWalk
unfolding register_request resolved nudge
attempt a w =
    let sent = (register_request a.sent_at w.in_flight a.scope a.session a.message_id false w).1 in
    if a.is_answered
    then resolved a.after a.written sent.in_flight sent
    else nudge (sent.deadline + a.after) a.written sent

-- The requests that are made, and the walk after the last attempt.
unfoldable pub serve : List Attempt → Option Text × DiscoveryWalk → List Text × DiscoveryWalk
unfolding attempt
serve attempts (none, w) = ([], w)
serve [] (some id, w) = (id ∷ [], w)
serve (a ∷ attempts) (some id, w) = let rest = serve attempts (attempt a w) in (id ∷ rest.0, rest.1)

attempt-IsNext :
    (a : Attempt) (id : Text) (rest : List Text) (w : DiscoveryWalk)
    → is_empty id ≡ false
    → IsServing id rest w
    → IsNext rest (attempt a w)
unfolding attempt
attempt-IsNext a id rest w e s =
    let sent = register-IsServing a.sent_at a.scope a.session a.message_id id rest w s in
    if_holds (IsNext rest) a.is_answered _ _
      (λ _. resolved-IsNext a.after a.written id rest _ e sent)
      (λ _. nudge-IsNext a.after a.written id rest _ e sent)

-- Every identifier is asked for, in order, and then nothing is outstanding.
serve_next :
    (attempts : List Attempt) (ids : List Text) (r : Option Text × DiscoveryWalk)
    → length attempts ≡ length ids
    → IsQueue ids
    → IsNext ids r
    → ((serve attempts r).0 ≡ ids) × (outstanding (serve attempts r).1 ≡ [])
unfolding serve IsNext
serve_next [] [] (none, w) n q h = (refl, h.1)
serve_next [] [] (some id, w) n q h = absurd (ground (arith, h.0))
serve_next (a ∷ attempts) [] r n q h = absurd (ground (arith, n))
serve_next [] (id ∷ ids) r n q h = absurd (ground (arith, n))
serve_next (a ∷ attempts) (id ∷ ids) (none, w) n q h = absurd (ground (arith, h.0))
serve_next (a ∷ attempts) (id ∷ ids) (some j, w) n q h =
    let rest =
      serve_next attempts ids (attempt a w) (omega (arith, n)) q.2
        (attempt-IsNext a id ids w q.0 h.1) in
    (ground (arith, h.0, rest.0), rest.1)

-- The first request of begin, and the walk after it.
abbrev pub begun : Time → Bool → List Text → DiscoveryWalk → Option Text × DiscoveryWalk
begun now written ids w = let r = begin now written ids w in (r.0, r.2)

seeded-IsIdle :
    (queue : List Text) (w : DiscoveryWalk)
    → is_busy w ≡ false
    → IsIdle queue (record (answered_catalogue w) { pending = queue })
seeded-IsIdle queue w i =
    let f = not_busy w i in
    if_holds (λ (x : DiscoveryWalk). IsIdle queue (record x { pending = queue }))
      w.catalogue_in_flight _ _
      (λ _. record {
        in_flight = f.0;
        pending = refl;
        no_catalogue = refl;
        no_catalogue_in_flight = refl;
      })
      (λ c. record {
        in_flight = f.0;
        pending = refl;
        no_catalogue = refl;
        no_catalogue_in_flight = c;
      })

begin-IsNext :
    (now : Time) (written : Bool) (ids : List Text) (w : DiscoveryWalk)
    → is_busy w ≡ false
    → length (begin_queue w.in_flight w.pending ids) ≤ w.max
    → IsNext (begin_queue w.in_flight w.pending ids) (let r = begin now written ids w in (r.0, r.2))
unfolding begin
begin-IsNext now written ids w i b =
    let queue = begin_queue w.in_flight w.pending ids in
    if_holds
      (λ (kept : List Text).
        IsNext queue
          (take_or_persist now written (record (answered_catalogue w) { pending = kept })))
      (ltb w.max (length queue)) _ _ (λ e. absurd (ground (arith, e, b)))
      (λ _. take_or_persist-IsNext now written queue _ (seeded-IsIdle queue w i))

-- After a roListAll that the walk has room for, received while nothing is in flight: one attempt after
-- another, whether its request is answered or runs out, asks for every identifier that the NCS listed
-- and is not empty, in the order of the queue, each once, and leaves nothing outstanding.
pub serve-begin :
    (now : Time) (written : Bool) (ids : List Text) (attempts : List Attempt) (w : DiscoveryWalk)
    → is_busy w ≡ false
    → length (begin_queue w.in_flight w.pending ids) ≤ w.max
    → length attempts ≡ length (begin_queue w.in_flight w.pending ids)
    → ((serve attempts (begun now written ids w)).0 ≡ begin_queue w.in_flight w.pending ids)
      × ((k : Text)
          → is_one_of (serve attempts (begun now written ids w)).0 k
            ≡ (is_one_of ids k && not (is_empty k)))
      × IsQueue (serve attempts (begun now written ids w)).0
      × (outstanding (serve attempts (begun now written ids w)).1 ≡ [])
unfolding is_empty
serve-begin now written ids attempts w i b n =
    let r = begun now written ids w in
    let queue = begin_queue w.in_flight w.pending ids in
    let q = IsQueue-begin_queue w.in_flight w.pending ids in
    let s = serve_next attempts queue r n q (begin-IsNext now written ids w i b) in
    (
      s.0,
      λ k.
          ap (λ (x : List Text). is_one_of x k) s.0
          ∙ is_one_of-begin_queue w.in_flight k w.pending ids
          ∙ ground (arith, (not_busy w i).0, same_iff k []),
      subst IsQueue (sym s.0) q,
      s.1,
    )
