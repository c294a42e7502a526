-- ===== src/Discovery/Valid.antt =====
-- src/internal/server/discovery.go: the invariant of the walk. One request at most is in flight, and the
-- slot of the request belongs to it.
use open_mos.Prelude.{
  suc, ◌+◌, ◌≤◌, ◌≡◌, ◌⊎◌, refl, Bool, true, false, not, ◌||◌, List, [], ◌∷◌, none, some, Option,
  if◌then◌else◌, arith, inl, inr, length, if_holds, sym, subst, ◌∙◌,
}
use open_mos.Text.{Text, is_empty}
use open_mos.Model.{Time}
use open_mos.Discovery.{
  DiscoveryWalk, DiscoveryRequest, WalkState, persist, outstanding, take_locked, is_busy,
  new_request, take_first,
}
use open_mos.Discovery.Listed.{IsQueue}

-- No request and nothing in flight; a request for the running order in flight; or one for the catalogue.
abbrev pub IsSlot : Option DiscoveryRequest → Text → Bool → Type 0
IsSlot none f c = (f ≡ []) × (c ≡ false)
IsSlot (some r) f c =
    (r.rundown_id ≡ f) × (((is_empty f ≡ false) × (c ≡ false)) ⊎ ((f ≡ []) × (c ≡ true)))

abbrev pub IsSaved : Option WalkState → Type 0
IsSaved none = Unit
IsSaved (some s) = IsQueue s.pending

pub record IsValid (w : DiscoveryWalk) : Type 0 where
  pub slot : IsSlot w.request w.in_flight w.catalogue_in_flight
  pub queue : IsQueue (outstanding w)
  pub bound : length (outstanding w) ≤ suc w.max
  pub file : IsSaved w.saved

pub persist-IsValid : (written : Bool) (w : DiscoveryWalk) → IsValid w → IsValid (persist written w)
unfolding persist outstanding
persist-IsValid written w v =
    if_holds IsValid (w.degraded || is_empty w.path) _ _ (λ _. v)
      (λ _.
        if_holds IsValid written _ _
          (λ _. record { slot = v.slot; queue = v.queue; bound = v.bound; file = v.queue })
          (λ _. record { slot = v.slot; queue = v.queue; bound = v.bound; file = v.file }))

pub outstanding-persist :
    (written : Bool) (w : DiscoveryWalk) → outstanding (persist written w) ≡ outstanding w
unfolding persist outstanding
outstanding-persist written w = ground arith

-- A walk with nothing in flight, by its fields.
idle_outstanding : (w : DiscoveryWalk) → is_busy w ≡ false → outstanding w ≡ w.pending
unfolding is_busy outstanding
idle_outstanding w h = ground arith

-- What is outstanding of an idle walk that has been given `ids` and one of them in flight.
outstanding_next :
    (next : Text) (rest : List Text)
    → is_empty next ≡ false
    → (if is_empty next then rest else next ∷ rest) ≡ next ∷ rest
outstanding_next next rest h = rw h refl

-- The walk that has just asked for a running order, or for the catalogue.
abbrev asking : Time → Text → List Text → DiscoveryWalk → DiscoveryWalk
asking now next rest w = record w {
  pending = rest;
  in_flight = next;
  request = some (new_request w.handles next);
  deadline = now + w.timeout;
  handles = suc w.handles;
}

abbrev asking_catalogue : Time → DiscoveryWalk → DiscoveryWalk
asking_catalogue now w = record w {
  catalogue_pending = false;
  catalogue_in_flight = true;
  request = some (new_request w.handles []);
  deadline = now + w.timeout;
  handles = suc w.handles;
}

nothing_of : (f : Text) (c : Bool) → (not (is_empty f) || c) ≡ false → (f ≡ []) × (c ≡ false)
unfolding is_empty
nothing_of [] c h = (refl, h)
nothing_of (x ∷ f) c h = ground arith

pub not_busy :
    (w : DiscoveryWalk) → is_busy w ≡ false → (w.in_flight ≡ []) × (w.catalogue_in_flight ≡ false)
unfolding is_busy is_empty
not_busy w h = nothing_of w.in_flight w.catalogue_in_flight h

taken-IsValid :
    (now : Time) (next : Text) (rest : List Text) (w : DiscoveryWalk)
    → outstanding w ≡ next ∷ rest
    → is_busy w ≡ false
    → IsValid w
    → IsValid (asking now next rest w)
unfolding outstanding
taken-IsValid now next rest w q h v =
    let queue : IsQueue (next ∷ rest) = subst IsQueue q v.queue in
    let same_as = outstanding_next next rest queue.0 in
    record {
      slot = (refl, inl (queue.0, (not_busy w h).1));
      queue = rw same_as queue;
      bound = rw same_as (subst (λ (x : List Text). length x ≤ suc w.max) q v.bound);
      file = v.file;
    }

catalogue-IsValid :
    (now : Time) (w : DiscoveryWalk)
    → is_busy w ≡ false
    → IsValid w
    → IsValid (asking_catalogue now w)
unfolding outstanding
catalogue-IsValid now w h v = record {
  slot = (sym (not_busy w h).0, inr ((not_busy w h).0, refl));
  queue = v.queue;
  bound = v.bound;
  file = v.file;
}

take_first-IsValid :
    (now : Time) (written : Bool) (ids : List Text) (w : DiscoveryWalk)
    → w.pending ≡ ids
    → is_busy w ≡ false
    → IsValid w
    → IsValid (take_first now written ids w).1
take_first-IsValid now written [] w e h v = v
take_first-IsValid now written (next ∷ rest) w e h v =
    let q : outstanding w ≡ next ∷ rest = idle_outstanding w h ∙ e in
    let queue : IsQueue (next ∷ rest) = subst IsQueue q v.queue in
    persist-IsValid written _ (taken-IsValid now next rest w q h v)

pub take_locked-IsValid :
    (now : Time) (written : Bool) (w : DiscoveryWalk)
    → IsValid w
    → IsValid (take_locked now written w).1
unfolding take_locked
take_locked-IsValid now written w v =
    let P = λ (r : Option Text × DiscoveryWalk). IsValid r.1 in
    if_holds P (is_busy w) _ _ (λ _. v)
      (λ idle.
        if_holds P w.catalogue_pending _ _
          (λ _. persist-IsValid written _ (catalogue-IsValid now w idle v))
          (λ _. take_first-IsValid now written w.pending w refl idle v))
