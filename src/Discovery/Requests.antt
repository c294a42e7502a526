-- ===== src/Discovery/Requests.antt =====
-- src/internal/server/discovery.go: the methods that bind a request to its session keep the invariant of
-- the walk, and so does everything that can happen to it, a restart included.
use open_mos.Prelude.{
  ℕ, suc, ◌+◌, ◌≤◌, ◌≡◌, refl, Bool, false, not, ◌&&◌, ◌||◌, List, ◌∷◌, none, some, Option,
  if◌then◌else◌, arith, inl, inr, length, if_holds, ltb, leb, ◌==◌, ◌∙◌,
}
use open_mos.Text.{Text, same, is_empty, is_one_of}
use open_mos.Text.Order.{same_iff}
use open_mos.Model.{Time}
use open_mos.Discovery.{
  DiscoveryWalk, DiscoveryRequest, WalkState, outstanding, new_request, fill, register_for,
  register_request, claim_for, claim_request, release_for, release_request, put_back, failed_for,
  failed_request, enqueue_urgent, open_discovery_walk, refuses_claim,
}
use open_mos.Discovery.Listed.{IsQueue, IsQueue-take, length-take-le}
use open_mos.Discovery.Valid.{IsValid, IsSlot, IsSaved, persist-IsValid, take_locked-IsValid}
use open_mos.Discovery.Steps.{slot_catalogue}

-- Another request for the same rundown in the slot, at another deadline.
changed-IsValid :
    (r s : DiscoveryRequest) (at : Time) (n : ℕ) (w : DiscoveryWalk)
    → w.request ≡ some r
    → s.rundown_id ≡ r.rundown_id
    → IsValid w
    → IsValid (record w { request = some s; deadline = at; handles = n })
unfolding outstanding
changed-IsValid r s at n w e q v =
    let slot : IsSlot (some r) w.in_flight w.catalogue_in_flight = rw e at v.slot in
    record { slot = (q ∙ slot.0, slot.1); queue = v.queue; bound = v.bound; file = v.file }

abbrev Registered : Type 0
Registered = Option DiscoveryRequest × DiscoveryWalk

fill-IsValid :
    (now : Time) (scope session message_id : Text) (native : Bool) (r s : DiscoveryRequest) (n : ℕ)
    (w : DiscoveryWalk)
    → w.request ≡ some r
    → s.rundown_id ≡ r.rundown_id
    → IsValid w
    → IsValid
        (fill now scope session message_id native (s, record w { request = some s; handles = n })).1
fill-IsValid now scope session message_id native r s n w e q v =
    if_holds (λ (x : Registered). IsValid x.1) (not (is_empty s.session)) _ _
      (λ _. changed-IsValid r s w.deadline n w e q v)
      (λ _. changed-IsValid r _ (now + w.timeout) n w e q v)

register_for-IsValid :
    (now : Time) (rundown scope session message_id : Text) (native : Bool)
    (o : Option DiscoveryRequest) (w : DiscoveryWalk)
    → w.request ≡ o
    → IsValid w
    → IsValid (register_for now rundown scope session message_id native o w).1
register_for-IsValid now rundown scope session message_id native none w e v = v
register_for-IsValid now rundown scope session message_id native (some r) w e v =
    let P = λ (x : Registered). IsValid x.1 in
    if_holds P (not (same r.rundown_id rundown)) _ _ (λ _. v)
      (λ _.
        if_holds
          (λ (x : DiscoveryRequest × DiscoveryWalk).
            IsValid (fill now scope session message_id native x).1)
          (r.expired && r.native && not (same r.session session)) _ _
          (λ _.
            fill-IsValid now scope session message_id native r (new_request w.handles r.rundown_id)
              (suc w.handles) w e refl v)
          (λ _.
            if_holds P (not (is_empty r.session)) _ _ (λ _. v)
              (λ _. changed-IsValid r _ (now + w.timeout) w.handles w e refl v)))

pub register_request-IsValid :
    (now : Time) (rundown scope session message_id : Text) (native : Bool) (w : DiscoveryWalk)
    → IsValid w
    → IsValid (register_request now rundown scope session message_id native w).1
unfolding register_request
register_request-IsValid now rundown scope session message_id native w v =
    if_holds (λ (x : Registered). IsValid x.1)
      (is_empty scope || is_empty session || not native && is_empty message_id) _ _ (λ _. v)
      (λ _. register_for-IsValid now rundown scope session message_id native w.request w refl v)

claim_for-IsValid :
    (now : Time) (rundown scope session message_id : Text) (o : Option DiscoveryRequest)
    (w : DiscoveryWalk)
    → w.request ≡ o
    → IsValid w
    → IsValid (claim_for now rundown scope session message_id o w).1
claim_for-IsValid now rundown scope session message_id none w e v = v
claim_for-IsValid now rundown scope session message_id (some r) w e v =
    if_holds (λ (x : Registered). IsValid x.1)
      (refuses_claim now w.deadline rundown scope session message_id r) _ _ (λ _. v)
      (λ _. changed-IsValid r _ w.deadline w.handles w e refl v)

pub claim_request-IsValid :
    (now : Time) (rundown scope session message_id : Text) (w : DiscoveryWalk)
    → IsValid w
    → IsValid (claim_request now rundown scope session message_id w).1
unfolding claim_request
claim_request-IsValid now rundown scope session message_id w v =
    claim_for-IsValid now rundown scope session message_id w.request w refl v

release_for-IsValid :
    (h : ℕ) (o : Option DiscoveryRequest) (w : DiscoveryWalk)
    → w.request ≡ o
    → IsValid w
    → IsValid (release_for h o w)
release_for-IsValid h none w e v = v
release_for-IsValid h (some r) w e v =
    if_holds IsValid (r.handle == h) _ _ (λ _. changed-IsValid r _ w.deadline w.handles w e refl v)
      (λ _. v)

pub release_request-IsValid :
    (h : ℕ) (w : DiscoveryWalk) → IsValid w → IsValid (release_request h w)
unfolding release_request
release_request-IsValid h w v = release_for-IsValid h w.request w refl v

in_flight_full :
    (r : DiscoveryRequest) (f : Text) (c : Bool)
    → IsSlot (some r) f c
    → c ≡ false
    → is_empty f ≡ false
in_flight_full r f c (q, inl k) e = k.0
in_flight_full r f c (q, inr k) e = ground (arith, k.1, e)

put_back-IsValid :
    (r : DiscoveryRequest) (w : DiscoveryWalk)
    → w.request ≡ some r
    → IsValid w
    → IsValid (put_back w)
unfolding outstanding is_empty
put_back-IsValid r w e v =
    if_holds IsValid w.catalogue_in_flight _ _
      (λ c. record {
        slot = (slot_catalogue w.request w.in_flight w.catalogue_in_flight v.slot c, refl);
        queue = v.queue;
        bound = v.bound;
        file = v.file;
      })
      (λ c.
        let f = in_flight_full r w.in_flight w.catalogue_in_flight (rw e at v.slot) c in
        record {
          slot = (refl, c);
          queue = rw f at v.queue;
          bound = rw f at v.bound;
          file = v.file;
        })

failed_for-IsValid :
    (now : Time) (written : Bool) (h : ℕ) (o : Option DiscoveryRequest) (w : DiscoveryWalk)
    → w.request ≡ o
    → IsValid w
    → IsValid (failed_for now written h o w).1
failed_for-IsValid now written h none w e v = v
failed_for-IsValid now written h (some r) w e v =
    if_holds (λ (x : Bool × DiscoveryWalk). IsValid x.1) (not (r.handle == h) || r.replying) _ _
      (λ _. v)
      (λ _. persist-IsValid written _ (
        if_holds IsValid r.native _ _ (λ _. changed-IsValid r _ now w.handles w e refl v)
          (λ _. put_back-IsValid r w e v)))

pub failed_request-IsValid :
    (now : Time) (written : Bool) (h : ℕ) (w : DiscoveryWalk)
    → IsValid w
    → IsValid (failed_request now written h w).1
unfolding failed_request
failed_request-IsValid now written h w v = failed_for-IsValid now written h w.request w refl v

urgent-IsQueue :
    (f ro : Text) (n : ℕ) (ids : List Text)
    → IsQueue (if is_empty f then ids else f ∷ ids)
    → (is_empty ro || same f ro || is_one_of ids ro || leb n (length ids)) ≡ false
    → IsQueue (if is_empty f then ro ∷ ids else f ∷ ro ∷ ids)
      × (length (if is_empty f then ro ∷ ids else f ∷ ro ∷ ids) ≤ suc n)
unfolding is_one_of
urgent-IsQueue f ro n ids q e = ground (arith, same_iff f ro, same_iff ro f)

urgent-IsValid :
    (ro : Text) (w : DiscoveryWalk)
    → IsValid w
    → (is_empty ro || same w.in_flight ro || is_one_of w.pending ro || leb w.max (length w.pending))
      ≡ false
    → IsValid (record w { pending = ro ∷ w.pending })
unfolding outstanding
urgent-IsValid ro w v e =
    let q = urgent-IsQueue w.in_flight ro w.max w.pending v.queue e in
    record { slot = v.slot; queue = q.0; bound = q.1; file = v.file }

pub enqueue_urgent-IsValid :
    (now : Time) (written : Bool) (ro : Text) (w : DiscoveryWalk)
    → IsValid w
    → IsValid (enqueue_urgent now written ro w).1
unfolding enqueue_urgent
enqueue_urgent-IsValid now written ro w v =
    if_holds (λ (x : Option Text × DiscoveryWalk). IsValid x.1)
      (is_empty ro || same w.in_flight ro || is_one_of w.pending ro || leb w.max (length w.pending))
      _ _ (λ _. v) (λ e. take_locked-IsValid now written _ (urgent-IsValid ro w v e))

pub open_discovery_walk-IsValid :
    (dir : Text) (created : Bool) (stored : Option WalkState)
    → IsSaved stored
    → IsValid (open_discovery_walk dir created stored)
unfolding open_discovery_walk outstanding is_empty
open_discovery_walk-IsValid dir created none v =
    if_holds IsValid (is_empty dir || not created) _ _
      (λ _. record { slot = (refl, refl); queue = tt; bound = omega arith; file = tt })
      (λ _. record { slot = (refl, refl); queue = tt; bound = omega arith; file = tt })
open_discovery_walk-IsValid dir created (some s) v =
    if_holds IsValid (is_empty dir || not created) _ _
      (λ _. record { slot = (refl, refl); queue = tt; bound = omega arith; file = tt })
      (λ _. record {
        slot = (refl, refl);
        queue =
            if_holds IsQueue (ltb 512 (length s.pending)) _ _ (λ _. IsQueue-take 512 s.pending v)
              (λ _. v);
        bound =
            if_holds (λ (ids : List Text). length ids ≤ suc 512) (ltb 512 (length s.pending)) _ _
              (λ _. omega (arith, length-take-le 512 s.pending)) (λ e. ground arith);
        file = v;
      })
