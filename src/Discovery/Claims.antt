-- ===== src/Discovery/Claims.antt =====
-- claimRequest of src/internal/server/discovery.go: a response whose application is running keeps its slot.
use open_mos.Prelude.{
  ℕ, ◌≡◌, refl, Bool, true, false, not, ◌||◌, Option, none, some, arith, inl, inr, if_holds, ltb,
  ◌==◌,
}
use open_mos.Text.{Text, is_empty}
use open_mos.Model.{Time}
use open_mos.Discovery.{
  DiscoveryWalk, DiscoveryRequest, claim_for, claim_request, failed_for, failed_request, nudge,
  timed_out, is_busy, is_replying, is_held, refuses_claim,
}
use open_mos.Discovery.Valid.{IsValid, IsSlot}
use open_mos.Discovery.Reach.{Reach, Reach-IsValid}
use open_mos.Discovery.Requests.{claim_request-IsValid}

slot_busy :
    (r : DiscoveryRequest) (f : Text) (c : Bool)
    → IsSlot (some r) f c
    → (not (is_empty f) || c) ≡ true
slot_busy r f c (q, inl k) = ground (arith, k.0)
slot_busy r f c (q, inr k) = ground (arith, k.1)

busy_of :
    (r : DiscoveryRequest) (w : DiscoveryWalk) → w.request ≡ some r → IsValid w → is_busy w ≡ true
unfolding is_busy
busy_of r w e v = slot_busy r w.in_flight w.catalogue_in_flight (rw e at v.slot)

claim_for-eq :
    (now : Time) (rundown scope session message_id : Text) (o : Option DiscoveryRequest)
    (r : DiscoveryRequest) (w : DiscoveryWalk)
    → (claim_for now rundown scope session message_id o w).0 ≡ some r
    → ((claim_for now rundown scope session message_id o w).1.request ≡ some r)
      × (r.replying ≡ true)
claim_for-eq now rundown scope session message_id none r w e = ground (arith, e)
claim_for-eq now rundown scope session message_id (some s) r w e = ground (arith, e)

refused_again :
    (now : Time) (rundown scope session message_id : Text) (o : Option DiscoveryRequest)
    (r : DiscoveryRequest) (w : DiscoveryWalk)
    → o ≡ some r
    → r.replying ≡ true
    → (claim_for now rundown scope session message_id o w) ≡ (none, w)
unfolding refuses_claim
refused_again now rundown scope session message_id none r w e t = refl
refused_again now rundown scope session message_id (some s) r w e t =
    if_holds (λ (x : Option DiscoveryRequest × DiscoveryWalk). x ≡ (none, w))
      (refuses_claim now w.deadline rundown scope session message_id s) _ _ (λ _. refl)
      (λ b. absurd (ground (arith, b, e, t)))

not_failed :
    (now : Time) (written : Bool) (h : ℕ) (o : Option DiscoveryRequest) (r : DiscoveryRequest)
    (w : DiscoveryWalk)
    → o ≡ some r
    → r.replying ≡ true
    → failed_for now written h o w ≡ (false, w)
not_failed now written h none r w e t = refl
not_failed now written h (some s) r w e t =
    if_holds (λ (x : Bool × DiscoveryWalk). x ≡ (false, w)) (not (s.handle == h) || s.replying) _ _
      (λ _. refl) (λ b. absurd (ground (arith, b, e, t)))

waits :
    (o : Option DiscoveryRequest) (r : DiscoveryRequest) (now at : Time)
    → o ≡ some r
    → r.replying ≡ true
    → (is_replying o || ltb now at) ≡ false
    → ⊥
waits none r now at e t i = ground (arith, e)
waits (some s) r now at e t i = ground (arith, e, t, i)

held :
    (o : Option DiscoveryRequest) (r : DiscoveryRequest)
    → o ≡ some r
    → r.replying ≡ true
    → is_held o ≡ false
    → ⊥
held none r e t i = ground (arith, e)
held (some s) r e t i = ground (arith, e, t, i)

still :
    (w : DiscoveryWalk) (now : Time) (written : Bool)
    → is_busy w ≡ true
    → (r : DiscoveryRequest) → w.request ≡ some r
    → r.replying ≡ true
    → nudge now written w ≡ (none, w)
unfolding nudge
still w now written b r e t =
    let P = λ (x : Option Text × DiscoveryWalk). x ≡ (none, w) in
    if_holds P (not (is_busy w)) _ _ (λ i. absurd (ground (arith, i, b)))
      (λ _.
        if_holds P (is_replying w.request || ltb now w.deadline) _ _ (λ _. refl)
          (λ i. absurd (waits w.request r now w.deadline e t i)))

unheard :
    (w : DiscoveryWalk) (now : Time) (r : DiscoveryRequest)
    → w.request ≡ some r
    → r.replying ≡ true
    → timed_out now w ≡ none
unfolding timed_out
unheard w now r e t =
    if_holds (λ (x : Option Text). x ≡ none) (is_held w.request) _ _ (λ _. refl)
      (λ i. absurd (held w.request r e t i))

-- Once a response has claimed the request, and until the claim is released, whatever the time and the
-- outcome of writes: the walk does not give the request up or advance, no second response claims it, a
-- failed write does not cancel it, and it is not reported as timed out.
pub claim_request-holds :
    (now later : Time) (rundown scope session message_id : Text) (r : DiscoveryRequest)
    (w : DiscoveryWalk)
    → Reach w
    → (claim_request now rundown scope session message_id w).0 ≡ some r
    → let x = (claim_request now rundown scope session message_id w).1 in
      ((written : Bool) → nudge later written x ≡ (none, x))
      × ((other scope' session' message_id' : Text)
          → claim_request later other scope' session' message_id' x ≡ (none, x))
      × ((written : Bool) (h : ℕ) → failed_request later written h x ≡ (false, x))
      × (timed_out later x ≡ none)
unfolding claim_request failed_request nudge timed_out
claim_request-holds now later rundown scope session message_id r w reach e =
    let x = (claim_request now rundown scope session message_id w).1 in
    let c = claim_for-eq now rundown scope session message_id w.request r w e in
    let v = claim_request-IsValid now rundown scope session message_id w (Reach-IsValid reach) in
    let busy = busy_of r x c.0 v in
    (
      λ written. still x later written busy r c.0 c.1,
      λ other s t m. refused_again later other s t m x.request r x c.0 c.1,
      λ written h. not_failed later written h x.request r x c.0 c.1,
      unheard x later r c.0 c.1,
    )
