-- ===== src/Discovery/Steps.antt =====
-- src/internal/server/discovery.go: every method of the walk keeps its invariant, and so does a restart.
use open_mos.Prelude.{
  ℕ, suc, ◌≤◌, ◌≡◌, refl, Bool, true, false, not, ◌||◌, List, [], ◌∷◌, none, some, Option,
  if◌then◌else◌, arith, Bool-cases, inl, inr, take, length, if_holds, ltb,
}
use open_mos.Text.{Text, same, is_empty, is_one_of}
use open_mos.Text.Order.{same_iff, same_refl}
use open_mos.Model.{Time}
use open_mos.Discovery.{
  DiscoveryWalk, DiscoveryRequest, outstanding, take_locked, take_or_persist, begin, is_busy,
  settled, resolved, abandon, overdue, nudge, request_catalogue, answered_catalogue, is_replying,
  begin_queue,
}
use open_mos.Discovery.Listed.{
  IsQueue, IsQueue-begin_queue, IsQueue-take, is_one_of-begin_queue, is_one_of-take, length-take-le,
}
use open_mos.Discovery.Valid.{IsValid, IsSlot, persist-IsValid, take_locked-IsValid}

abbrev Answer : Type 0
Answer = Option Text × DiscoveryWalk

settled-IsValid : (written : Bool) (r : Answer) → IsValid r.1 → IsValid (settled written r).1
settled-IsValid written (some next, w) v = v
settled-IsValid written (none, w) v = persist-IsValid written w v

pub take_or_persist-IsValid :
    (now : Time) (written : Bool) (w : DiscoveryWalk)
    → IsValid w
    → IsValid (take_or_persist now written w).1
unfolding take_or_persist
take_or_persist-IsValid now written w v =
    settled-IsValid written (take_locked now written w) (take_locked-IsValid now written w v)

-- What the slot says of a request for the catalogue, and of one for a running order.
pub slot_catalogue :
    (o : Option DiscoveryRequest) (f : Text) (c : Bool) → IsSlot o f c → c ≡ true → f ≡ []
slot_catalogue none f c h e = h.0
slot_catalogue (some r) f c (q, inl k) e = ground arith
slot_catalogue (some r) f c (q, inr k) e = k.0

pub nonempty : (f : Text) → is_empty f ≡ false → f ≡ [] → ⊥
unfolding is_empty
nonempty f e h = ground arith

pub slot_running :
    (o : Option DiscoveryRequest) (f : Text) (c : Bool)
    → IsSlot o f c
    → is_empty f ≡ false
    → c ≡ false
slot_running none f c h e = h.1
slot_running (some r) f c (q, inl k) e = k.1
slot_running (some r) f c (q, inr k) e = absurd (nonempty f e k.0)

-- What is outstanding where `f` is in flight, or nothing, and `ids` wait.
pub outstanding-IsQueue :
    (f : Text) (ids : List Text)
    → IsQueue ids
    → is_one_of ids f ≡ false
    → IsQueue (if is_empty f then ids else f ∷ ids)
outstanding-IsQueue f ids q n = if_holds IsQueue (is_empty f) _ _ (λ _. q) (λ e. (e, n, q))

pub length_with :
    (f : Text) (n : ℕ) (ids : List Text)
    → length ids ≤ n
    → length (if is_empty f then ids else f ∷ ids) ≤ suc n
length_with f n ids h = ground arith

seeded-IsValid :
    (kept : List Text) (w : DiscoveryWalk)
    → IsValid w
    → IsQueue kept
    → is_one_of kept w.in_flight ≡ false
    → length kept ≤ w.max
    → IsValid (record (answered_catalogue w) { pending = kept })
unfolding outstanding
seeded-IsValid kept w v q n b =
    let queue = outstanding-IsQueue w.in_flight kept q n in
    let bound = length_with w.in_flight w.max kept b in
    if_holds (λ (x : DiscoveryWalk). IsValid (record x { pending = kept })) w.catalogue_in_flight _
      _
      (λ c. record {
        slot = (slot_catalogue w.request w.in_flight w.catalogue_in_flight v.slot c, refl);
        queue = queue;
        bound = bound;
        file = v.file;
      })
      (λ c. record { slot = v.slot; queue = queue; bound = bound; file = v.file })

not_in_begin_queue :
    (f : Text) (pending ids : List Text) → is_one_of (begin_queue f pending ids) f ≡ false
not_in_begin_queue f pending ids =
    ground (arith, is_one_of-begin_queue f f pending ids, same_refl f)

pub begin-IsValid :
    (now : Time) (written : Bool) (ids : List Text) (w : DiscoveryWalk)
    → IsValid w
    → IsValid (begin now written ids w).2
unfolding begin
begin-IsValid now written ids w v =
    let queue = begin_queue w.in_flight w.pending ids in
    let q = IsQueue-begin_queue w.in_flight w.pending ids in
    let n = not_in_begin_queue w.in_flight w.pending ids in
    take_or_persist-IsValid now written _ (
      if_holds (λ (kept : List Text). IsValid (record (answered_catalogue w) { pending = kept }))
        (ltb w.max (length queue)) _ _
        (λ _.
          seeded-IsValid (take w.max queue) w v (IsQueue-take w.max queue q)
            (is_one_of-take w.max w.in_flight queue n) (length-take-le w.max queue))
        (λ e. seeded-IsValid queue w v q n (ground arith)))

pub request_catalogue-IsValid :
    (now : Time) (written : Bool) (w : DiscoveryWalk)
    → IsValid w
    → IsValid (request_catalogue now written w).1
unfolding request_catalogue outstanding
request_catalogue-IsValid now written w v =
    if_holds (λ (r : Answer). IsValid r.1) w.catalogue_in_flight _ _ (λ _. v)
      (λ _.
        take_or_persist-IsValid now written _
          (record { slot = v.slot; queue = v.queue; bound = v.bound; file = v.file }))

-- The running order in flight is settled: what waited is what is outstanding.
pub rest_of :
    (f : Text) (n : ℕ) (ids : List Text)
    → IsQueue (if is_empty f then ids else f ∷ ids)
    → length (if is_empty f then ids else f ∷ ids) ≤ n
    → IsQueue ids × (length ids ≤ n)
rest_of f n ids = elim (Bool-cases (is_empty f)) [
  | inl e ↦ rw e (λ q b. (q, b))
  | inr e ↦ rw e (λ q b. (q.2, omega arith))
]

pub idle-IsValid :
    (w : DiscoveryWalk)
    → IsValid w
    → w.catalogue_in_flight ≡ false
    → IsValid (record w { in_flight = []; request = none })
unfolding outstanding is_empty
idle-IsValid w v c =
    let r = rest_of w.in_flight (suc w.max) w.pending v.queue v.bound in
    record { slot = (refl, c); queue = r.0; bound = r.1; file = v.file }

pub in_flight_of : (f ro : Text) → (is_empty ro || not (same f ro)) ≡ false → is_empty f ≡ false
in_flight_of f ro h = ground (arith, same_iff f ro)

pub resolved-IsValid :
    (now : Time) (written : Bool) (ro : Text) (w : DiscoveryWalk)
    → IsValid w
    → IsValid (resolved now written ro w).1
unfolding resolved
resolved-IsValid now written ro w v =
    if_holds (λ (r : Answer). IsValid r.1) (is_empty ro || not (same w.in_flight ro)) _ _ (λ _. v)
      (λ e. take_or_persist-IsValid now written _ (
        idle-IsValid w v (
          slot_running w.request w.in_flight w.catalogue_in_flight v.slot
            (in_flight_of w.in_flight ro e))))

pub abandon-IsValid : (w : DiscoveryWalk) → IsValid w → IsValid (abandon w)
unfolding outstanding is_empty
abandon-IsValid w v =
    let r = rest_of w.in_flight (suc w.max) w.pending v.queue v.bound in
    if_holds IsValid w.catalogue_in_flight _ _
      (λ _. record { slot = (refl, refl); queue = r.0; bound = r.1; file = v.file })
      (λ c. idle-IsValid w v c)

overdue-IsValid :
    (now : Time) (written : Bool) (o : Option DiscoveryRequest) (w : DiscoveryWalk)
    → w.request ≡ o
    → IsValid w
    → IsValid (overdue now written o w).1
unfolding outstanding
overdue-IsValid now written none w e v = take_or_persist-IsValid now written _ (abandon-IsValid w v)
overdue-IsValid now written (some r) w e v =
    if_holds (λ (r : Answer). IsValid r.1) r.native _ _
      (λ _. record { slot = rw e at v.slot; queue = v.queue; bound = v.bound; file = v.file })
      (λ _. take_or_persist-IsValid now written _ (abandon-IsValid w v))

pub nudge-IsValid :
    (now : Time) (written : Bool) (w : DiscoveryWalk) → IsValid w → IsValid (nudge now written w).1
unfolding nudge
nudge-IsValid now written w v =
    let P = λ (r : Answer). IsValid r.1 in
    if_holds P (not (is_busy w)) _ _ (λ _. take_locked-IsValid now written w v)
      (λ _.
        if_holds P (is_replying w.request || ltb now w.deadline) _ _ (λ _. v)
          (λ _. overdue-IsValid now written w.request w refl v))
