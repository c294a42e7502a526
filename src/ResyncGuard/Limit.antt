-- ===== src/ResyncGuard/Limit.antt =====
-- src/internal/server/resync.go: recovery cannot become a loop.
use open_mos.Prelude.{
  ℕ, ◌+◌, ◌-◌, ◌<◌, ◌≤◌, ◌≡◌, refl, Bool, true, false, List, [], ◌∷◌, All, Option, some, length,
  leb, if_holds, arith, Bool-cases, inl, inr, Option-cases,
}
use open_mos.Text.{Text, is_empty, same}
use open_mos.Text.Order.{same_iff}
use open_mos.Model.{Time}
use open_mos.Table.{Table, lookup, put, remove}
use open_mos.Table.Laws.{lookup-put, lookup-remove, lookup-put_self}
use open_mos.ResyncGuard.{ResyncGuard, is_recent, drop_aged, admit, should_request, forget, is_seen}

length-drop_aged : (now : Time) (n : ℕ) (t : Table Time) → length (drop_aged now n t) ≤ length t
unfolding drop_aged
length-drop_aged now n [] = omega arith
length-drop_aged now n ((id, at) ∷ t) = ground (arith, length-drop_aged now n t)

length-put : (k : Text) (v : Time) (t : Table Time) → length (put k v t) ≤ length t + 1
unfolding put
length-put k v [] = omega arith
length-put k v ((j, w) ∷ t) = ground (arith, length-put k v t)

length-put_seen :
    (k : Text) (v w : Time) (t : Table Time) → lookup k t ≡ some w → length (put k v t) ≡ length t
unfolding put lookup
length-put_seen k v w [] h = ground arith
length-put_seen k v w ((j, x) ∷ t) h = ground (arith, length-put_seen k v w t)

length-remove : (k : Text) (t : Table Time) → length (remove k t) ≤ length t
unfolding remove
length-remove k [] = omega arith
length-remove k ((j, w) ∷ t) = ground (arith, length-remove k t)

abbrev pub IsWithin : ResyncGuard → Type 0
IsWithin g = length g.requested ≤ g.max

lookup-drop_aged :
    (now : Time) (n : ℕ) (k : Text) (at : Time) (t : Table Time)
    → lookup k t ≡ some at
    → now - at < n
    → lookup k (drop_aged now n t) ≡ some at
unfolding lookup drop_aged
lookup-drop_aged now n k at [] h r = h
lookup-drop_aged now n k at ((j, v) ∷ t) h r = ground (arith, lookup-drop_aged now n k at t)

admit-IsWithin :
    (now : Time) (ro : Text) (g : ResyncGuard) → IsWithin g → IsWithin (admit now ro g).1
unfolding admit
admit-IsWithin now ro g h =
    if_holds (λ (r : Bool × ResyncGuard). IsWithin r.1) (leb g.max (length g.requested)) _ _
      (λ q. elim (Option-cases (lookup ro g.requested)) [
        | inl p ↦ rw p h
        | inr (w, p) ↦ rw p (omega (arith, h, length-put_seen ro now w g.requested p))
      ])
      (λ q. ground (arith, length-put ro now g.requested))

-- However often and whenever running orders are asked for and forgotten, the guard holds no more
-- identifiers than its bound.
pub operations-IsWithin :
    (now : Time) (ro : Text) (g : ResyncGuard)
    → IsWithin g
    → IsWithin (should_request now ro g).1 × IsWithin (forget ro g)
unfolding should_request forget
operations-IsWithin now ro g h = (
  if_holds (λ (r : Bool × ResyncGuard). IsWithin r.1) (is_empty ro) _ _ (λ _. h)
      (λ _.
        if_holds (λ (r : Bool × ResyncGuard). IsWithin r.1)
          (is_recent now g.interval (lookup ro g.requested)) _ _ (λ _. h)
          (λ _.
            admit-IsWithin now ro (record g { requested = drop_aged now g.interval g.requested })
              (omega (arith, length-drop_aged now g.interval g.requested, h)))),
  omega (arith, length-remove ro g.requested, h),
)

-- What the server asks of the guard between two requests for a running order: anything at all for
-- other running orders, and requests for this one.
pub data Call : Type 0 where
  asked : Time → Text → Call
  forgotten : Text → Call

unfoldable pub call : Call → ResyncGuard → ResyncGuard
unfolding should_request forget
call (asked now ro) g = (should_request now ro g).1
call (forgotten ro) g = forget ro g

unfoldable pub calls : List Call → ResyncGuard → ResyncGuard
unfolding call
calls [] g = g
calls (c ∷ cs) g = calls cs (call c g)

-- A request for a running order that was granted at an instant, under an interval.
record IsHeld (ro : Text) (at : Time) (n : ℕ) (g : ResyncGuard) : Type 0 where
  entry : lookup ro g.requested ≡ some at
  same_interval : g.interval ≡ n

-- A call before the interval has passed that does not forget the request.
abbrev pub IsMeanwhile : Text → Time → ℕ → Call → Type 0
IsMeanwhile ro at n (asked now other) = now - at < n
IsMeanwhile ro at n (forgotten other) = same other ro ≡ false

recent_again :
    (now at : Time) (n : ℕ) (o : Option Time)
    → o ≡ some at
    → now - at < n
    → is_recent now n o ≡ true
unfolding is_recent
recent_again now at n o h r = rw (h, is_recent) (ground arith)

admit-IsHeld :
    (now at : Time) (n : ℕ) (other ro : Text) (g : ResyncGuard)
    → same other ro ≡ false
    → IsHeld ro at n g
    → IsHeld ro at n (admit now other g).1
unfolding admit
admit-IsHeld now at n other ro g q h =
    let P = λ (r : Bool × ResyncGuard). IsHeld ro at n r.1 in
    let added : IsHeld ro at n (record g { requested = put other now g.requested }) = record {
      entry = rw (lookup-put other ro now g.requested, q) h.entry;
      same_interval = h.same_interval;
    } in
    if_holds P (leb g.max (length g.requested)) _ _
      (λ _. if_holds P (is_seen (lookup other g.requested)) _ _ (λ _. added) (λ _. h)) (λ _. added)

other_differs :
    (now at : Time) (other ro : Text) (g : ResyncGuard)
    → is_recent now g.interval (lookup other g.requested) ≡ false
    → lookup ro g.requested ≡ some at
    → now - at < g.interval
    → same other ro ≡ false
other_differs now at other ro g q h r = elim (Bool-cases (same other ro)) [
  | inl p ↦
      cc (q, (same_iff other ro).0 p, recent_again now at g.interval (lookup ro g.requested) h r)
  | inr p ↦ p
]

should_request-IsHeld :
    (now at : Time) (n : ℕ) (other ro : Text) (g : ResyncGuard)
    → now - at < n
    → IsHeld ro at n g
    → IsHeld ro at n (should_request now other g).1
unfolding should_request
should_request-IsHeld now at n other ro g r h =
    let P = λ (r : Bool × ResyncGuard). IsHeld ro at n r.1 in
    if_holds P (is_empty other) _ _ (λ _. h)
      (λ _.
        if_holds P (is_recent now g.interval (lookup other g.requested)) _ _ (λ _. h)
          (λ q.
            admit-IsHeld now at n other ro
              (record g { requested = drop_aged now g.interval g.requested })
              (other_differs now at other ro g q h.entry (omega (arith, r, h.same_interval)))
              (record {
                entry =
                    lookup-drop_aged now g.interval ro at g.requested h.entry
                      (omega (arith, h.same_interval, r));
                same_interval = h.same_interval;
              })))

call-IsHeld :
    (ro : Text) (at : Time) (n : ℕ) (c : Call) (g : ResyncGuard)
    → IsMeanwhile ro at n c
    → IsHeld ro at n g
    → IsHeld ro at n (call c g)
unfolding call forget
call-IsHeld ro at n (asked now other) g r h = should_request-IsHeld now at n other ro g r h
call-IsHeld ro at n (forgotten other) g q h = record {
  entry = rw (lookup-remove other ro g.requested, q) h.entry;
  same_interval = h.same_interval;
}

calls-IsHeld :
    (ro : Text) (at : Time) (n : ℕ) (cs : List Call) (g : ResyncGuard)
    → All (IsMeanwhile ro at n) cs
    → IsHeld ro at n g
    → IsHeld ro at n (calls cs g)
unfolding calls
calls-IsHeld ro at n [] g m h = h
calls-IsHeld ro at n (c ∷ cs) g m h =
    calls-IsHeld ro at n cs (call c g) m.1 (call-IsHeld ro at n c g m.0 h)

granted :
    (at : Time) (ro : Text) (g : ResyncGuard)
    → (should_request at ro g).0 ≡ true
    → IsHeld ro at g.interval (should_request at ro g).1
unfolding should_request admit
granted at ro g =
    let P = λ (r : Bool × ResyncGuard). r.0 ≡ true → IsHeld ro at g.interval r.1 in
    let kept = drop_aged at g.interval g.requested in
    let added : IsHeld ro at g.interval (record g { requested = put ro at kept }) = record {
      entry = lookup-put_self ro at kept;
      same_interval = refl;
    } in
    if_holds P (is_empty ro) _ _ (λ _ q. ground arith)
      (λ _.
        if_holds P (is_recent at g.interval (lookup ro g.requested)) _ _ (λ _ q. ground arith)
          (λ _.
            if_holds P (leb g.max (length kept)) _ _
              (λ _. if_holds P (is_seen (lookup ro kept)) _ _ (λ _ _. added) (λ _ q. ground arith))
              (λ _ _. added)))

refused :
    (now at : Time) (n : ℕ) (ro : Text) (g : ResyncGuard)
    → now - at < n
    → IsHeld ro at n g
    → (should_request now ro g).0 ≡ false
unfolding should_request
refused now at n ro g r h = ground (
  arith,
  recent_again now at g.interval (lookup ro g.requested) h.entry
      (omega (arith, r, h.same_interval)),
)

-- Once a running order has been requested, it is not requested again before the interval has passed,
-- whatever is asked meanwhile, for this running order and for others, as long as it is not forgotten.
pub should_request_once :
    (at now : Time) (ro : Text) (cs : List Call) (g : ResyncGuard)
    → (should_request at ro g).0 ≡ true
    → All (IsMeanwhile ro at g.interval) cs
    → now - at < g.interval
    → (should_request now ro (calls cs (should_request at ro g).1)).0 ≡ false
should_request_once at now ro cs g q m r =
    refused now at g.interval ro (calls cs (should_request at ro g).1) r
      (calls-IsHeld ro at g.interval cs (should_request at ro g).1 m (granted at ro g q))
