-- ===== src/Discovery/Serving.antt =====
-- src/internal/server/discovery.go: a walk that asks for running orders one after another, step by step.
use open_mos.Prelude.{
  ℕ, ◌+◌, ◌≡◌, refl, Bool, true, false, not, ◌&&◌, ◌||◌, List, [], ◌∷◌, none, some, Option, arith,
  if_holds, ltb, ◌∙◌, ap,
}
use open_mos.Text.{Text, same, is_empty}
use open_mos.Text.Order.{same_refl}
use open_mos.Model.{Time}
use open_mos.Discovery.{
  DiscoveryWalk, DiscoveryRequest, WalkState, persist, outstanding, take_locked, take_or_persist,
  is_busy, new_request, fill, register_for, register_request, resolved, overdue, nudge, take_first,
  is_replying,
}
use open_mos.Discovery.Valid.{outstanding-persist}

-- A running order is in flight, others wait, and the catalogue is not asked for.
pub record IsServing (id : Text) (rest : List Text) (w : DiscoveryWalk) : Type 0 where
  pub request : DiscoveryRequest
  pub in_flight : w.in_flight ≡ id
  pub pending : w.pending ≡ rest
  pub no_catalogue : w.catalogue_pending ≡ false
  pub no_catalogue_in_flight : w.catalogue_in_flight ≡ false
  pub slot : w.request ≡ some request
  pub is_web_socket : request.native ≡ false
  pub is_unclaimed : request.replying ≡ false

-- What a walk does next that has `ids` to ask for.
unfoldable pub IsNext : List Text → Option Text × DiscoveryWalk → Type 0
IsNext [] r = (r.0 ≡ none) × (outstanding r.1 ≡ [])
IsNext (id ∷ rest) r = (r.0 ≡ some id) × IsServing id rest r.1

-- A walk with nothing in flight that has `ids` to ask for, and not the catalogue.
pub record IsIdle (ids : List Text) (w : DiscoveryWalk) : Type 0 where
  pub in_flight : w.in_flight ≡ []
  pub pending : w.pending ≡ ids
  pub no_catalogue : w.catalogue_pending ≡ false
  pub no_catalogue_in_flight : w.catalogue_in_flight ≡ false

-- What the file holds is another matter.
stored-IsServing :
    (id : Text) (rest : List Text) (w : DiscoveryWalk) (saved : Option WalkState) (degraded : Bool)
    → IsServing id rest w
    → IsServing id rest (record w { saved = saved; degraded = degraded })
stored-IsServing id rest w saved degraded s = record {
  request = s.request;
  in_flight = s.in_flight;
  pending = s.pending;
  no_catalogue = s.no_catalogue;
  no_catalogue_in_flight = s.no_catalogue_in_flight;
  slot = s.slot;
  is_web_socket = s.is_web_socket;
  is_unclaimed = s.is_unclaimed;
}

persist-IsServing :
    (id : Text) (rest : List Text) (written : Bool) (w : DiscoveryWalk)
    → IsServing id rest w
    → IsServing id rest (persist written w)
unfolding persist
persist-IsServing id rest written w s =
    if_holds (IsServing id rest) (w.degraded || is_empty w.path) _ _ (λ _. s)
      (λ _.
        if_holds (IsServing id rest) written _ _
          (λ _. stored-IsServing id rest w (some _) w.degraded s)
          (λ _. stored-IsServing id rest w w.saved true s))

take_locked_idle :
    (now : Time) (written : Bool) (ids : List Text) (w : DiscoveryWalk)
    → IsIdle ids w
    → take_locked now written w ≡ take_first now written ids w
unfolding take_locked is_busy is_empty
take_locked_idle now written ids w i =
    let P = λ (r : Option Text × DiscoveryWalk). r ≡ take_first now written ids w in
    if_holds P (is_busy w) _ _ (λ b. absurd (ground (arith, b, i.in_flight)))
      (λ _.
        if_holds P w.catalogue_pending _ _ (λ c. absurd (ground (arith, c)))
          (λ _. ap (λ (x : List Text). take_first now written x w) i.pending))

pub take_or_persist-IsNext :
    (now : Time) (written : Bool) (ids : List Text) (w : DiscoveryWalk)
    → IsIdle ids w
    → IsNext ids (take_or_persist now written w)
unfolding IsNext take_or_persist outstanding is_empty
take_or_persist-IsNext now written [] w i =
    rw (take_locked_idle now written [] w i)
      (refl, outstanding-persist written w ∙ rw i.in_flight i.pending)
take_or_persist-IsNext now written (id ∷ rest) w i =
    rw (take_locked_idle now written (id ∷ rest) w i) (
      refl,
      persist-IsServing id rest written _ (record {
        request = new_request w.handles id;
        in_flight = refl;
        pending = refl;
        no_catalogue = i.no_catalogue;
        no_catalogue_in_flight = i.no_catalogue_in_flight;
        slot = refl;
        is_web_socket = refl;
        is_unclaimed = refl;
      }),
    )

requested-IsServing :
    (id : Text) (rest : List Text) (r : DiscoveryRequest) (at n : ℕ) (w : DiscoveryWalk)
    → r.native ≡ false
    → r.replying ≡ false
    → IsServing id rest w
    → IsServing id rest (record w { request = some r; deadline = at; handles = n })
requested-IsServing id rest r at n w f u s = record {
  request = r;
  in_flight = s.in_flight;
  pending = s.pending;
  no_catalogue = s.no_catalogue;
  no_catalogue_in_flight = s.no_catalogue_in_flight;
  slot = refl;
  is_web_socket = f;
  is_unclaimed = u;
}

-- Registration on a WebSocket session changes the request alone.
register_for-IsServing :
    (now : Time) (rundown scope session message_id id : Text) (rest : List Text)
    (o : Option DiscoveryRequest) (w : DiscoveryWalk)
    → w.request ≡ o
    → IsServing id rest w
    → IsServing id rest (register_for now rundown scope session message_id false o w).1
register_for-IsServing now rundown scope session message_id id rest none w e s = s
register_for-IsServing now rundown scope session message_id id rest (some r) w e s =
    let P = λ (x : Option DiscoveryRequest × DiscoveryWalk). IsServing id rest x.1 in
    let native : r.native ≡ false = ground (arith, e, s.slot, s.is_web_socket) in
    let unclaimed : r.replying ≡ false = ground (arith, e, s.slot, s.is_unclaimed) in
    if_holds P (not (same r.rundown_id rundown)) _ _ (λ _. s)
      (λ _.
        if_holds
          (λ (x : DiscoveryRequest × DiscoveryWalk).
            IsServing id rest (fill now scope session message_id false x).1)
          (r.expired && r.native && not (same r.session session)) _ _
          (λ b. absurd (ground (arith, b, native)))
          (λ _.
            if_holds P (not (is_empty r.session)) _ _ (λ _. s)
              (λ _. requested-IsServing id rest _ (now + w.timeout) w.handles w refl unclaimed s)))

pub register-IsServing :
    (now : Time) (scope session message_id id : Text) (rest : List Text) (w : DiscoveryWalk)
    → IsServing id rest w
    → IsServing id rest (register_request now w.in_flight scope session message_id false w).1
unfolding register_request
register-IsServing now scope session message_id id rest w s =
    if_holds (λ (r : Option DiscoveryRequest × DiscoveryWalk). IsServing id rest r.1)
      (is_empty scope || is_empty session || is_empty message_id) _ _ (λ _. s)
      (λ _.
        register_for-IsServing now w.in_flight scope session message_id id rest w.request w refl s)

pub resolved-IsNext :
    (now : Time) (written : Bool) (id : Text) (rest : List Text) (w : DiscoveryWalk)
    → is_empty id ≡ false
    → IsServing id rest w
    → IsNext rest (resolved now written w.in_flight w)
unfolding resolved
resolved-IsNext now written id rest w e s =
    if_holds (IsNext rest) (is_empty w.in_flight || not (same w.in_flight w.in_flight)) _ _
      (λ b. absurd (ground (arith, b, same_refl w.in_flight, s.in_flight, e)))
      (λ _. take_or_persist-IsNext now written rest _ (record {
        in_flight = refl;
        pending = s.pending;
        no_catalogue = s.no_catalogue;
        no_catalogue_in_flight = s.no_catalogue_in_flight;
      }))

-- A request that is given up: what waited is what there is to ask for.
overdue-IsNext :
    (now : Time) (written : Bool) (id : Text) (rest : List Text) (o : Option DiscoveryRequest)
    (w : DiscoveryWalk)
    → w.request ≡ o
    → IsServing id rest w
    → IsNext rest (overdue now written o w)
overdue-IsNext now written id rest none w e s = absurd (ground (arith, e, s.slot))
overdue-IsNext now written id rest (some r) w e s =
    if_holds (IsNext rest) r.native _ _
      (λ b. absurd (ground (arith, b, e, s.slot, s.is_web_socket)))
      (λ _.
        if_holds (λ (x : DiscoveryWalk). IsNext rest (take_or_persist now written x))
          w.catalogue_in_flight _ _ (λ b. absurd (ground (arith, b, s.no_catalogue_in_flight)))
          (λ _. take_or_persist-IsNext now written rest _ (record {
            in_flight = refl;
            pending = s.pending;
            no_catalogue = s.no_catalogue;
            no_catalogue_in_flight = s.no_catalogue_in_flight;
          })))

late_unclaimed :
    (o : Option DiscoveryRequest) (r : DiscoveryRequest) (at after : ℕ)
    → o ≡ some r
    → r.replying ≡ false
    → (is_replying o || ltb (at + after) at) ≡ true
    → ⊥
late_unclaimed o r at after e u b = ground (arith, b, e)

pub nudge-IsNext :
    (after : ℕ) (written : Bool) (id : Text) (rest : List Text) (w : DiscoveryWalk)
    → is_empty id ≡ false
    → IsServing id rest w
    → IsNext rest (nudge (w.deadline + after) written w)
unfolding nudge is_busy
nudge-IsNext after written id rest w e s =
    if_holds (IsNext rest) (not (is_busy w)) _ _ (λ b. absurd (ground (arith, b, s.in_flight, e)))
      (λ _.
        if_holds (IsNext rest) (is_replying w.request || ltb (w.deadline + after) w.deadline) _ _
          (λ b.
            absurd (late_unclaimed w.request s.request w.deadline after s.slot s.is_unclaimed b))
          (λ _. overdue-IsNext (w.deadline + after) written id rest w.request w refl s))
