-- ===== src/Discovery/Restart.antt =====
-- persistLocked and openDiscoveryWalk of src/internal/server/discovery.go: a restart loses no running order
-- that is outstanding.
use open_mos.Prelude.{
  ◌≡◌, refl, true, false, not, ◌||◌, List, [], ◌∷◌, Option, none, some, arith, if_holds, ltb,
  length, ◌≤◌, subst, sym, ap, ◌∙◌, if◌then◌else◌,
}
use open_mos.Text.{Text, same, is_empty}
use open_mos.Text.Order.{same_refl}
use open_mos.Model.{Time}
use open_mos.Discovery.{
  DiscoveryWalk, WalkState, persist, outstanding, take_locked, take_or_persist, take_first, settled,
  is_busy, begin, resolved, open_discovery_walk,
}

-- The walk keeps its state, as far as it knows.
pub record IsKept (w : DiscoveryWalk) : Type 0 where
  pub not_degraded : w.degraded ≡ false
  pub has_path : is_empty w.path ≡ false

-- The file holds the work that is left.
abbrev pub IsWritten : DiscoveryWalk → Type 0
IsWritten w =
    w.saved
    ≡ some (record {
      pending = outstanding w;
      catalogue_pending = w.catalogue_pending || w.catalogue_in_flight;
    })

persist-IsWritten : (w : DiscoveryWalk) → IsKept w → IsWritten (persist true w)
unfolding persist outstanding
persist-IsWritten w k =
    if_holds IsWritten (w.degraded || is_empty w.path) _ _
      (λ b. absurd (ground (arith, b, k.not_degraded, k.has_path))) (λ _. refl)

take_first-IsWritten :
    (now : Time) (ids : List Text) (w : DiscoveryWalk)
    → IsKept w
    → IsWritten (settled true (take_first now true ids w)).1
take_first-IsWritten now [] w k = persist-IsWritten w k
take_first-IsWritten now (id ∷ ids) w k =
    persist-IsWritten _ (record { not_degraded = k.not_degraded; has_path = k.has_path })

pub take_or_persist-IsWritten :
    (now : Time) (w : DiscoveryWalk) → IsKept w → IsWritten (take_or_persist now true w).1
unfolding take_or_persist take_locked
take_or_persist-IsWritten now w k =
    let P = λ (r : Option Text × DiscoveryWalk). IsWritten (settled true r).1 in
    if_holds P (is_busy w) _ _ (λ _. persist-IsWritten w k)
      (λ _.
        if_holds P w.catalogue_pending _ _
          (λ _.
            persist-IsWritten _ (record { not_degraded = k.not_degraded; has_path = k.has_path }))
          (λ _. take_first-IsWritten now w.pending w k))

begin-IsWritten :
    (now : Time) (ids : List Text) (w : DiscoveryWalk)
    → IsKept w
    → IsWritten (begin now true ids w).2
unfolding begin
begin-IsWritten now ids w k = take_or_persist-IsWritten now _ (
    if_holds (λ (x : DiscoveryWalk). (kept : List Text) → IsKept (record x { pending = kept }))
      w.catalogue_in_flight _ _
      (λ _ kept. record { not_degraded = k.not_degraded; has_path = k.has_path })
      (λ _ kept. record { not_degraded = k.not_degraded; has_path = k.has_path }) _)

resolved-IsWritten :
    (now : Time) (w : DiscoveryWalk)
    → is_empty w.in_flight ≡ false
    → IsKept w
    → IsWritten (resolved now true w.in_flight w).1
unfolding resolved
resolved-IsWritten now w f k =
    if_holds (λ (r : Option Text × DiscoveryWalk). IsWritten r.1)
      (is_empty w.in_flight || not (same w.in_flight w.in_flight)) _ _
      (λ b. absurd (ground (arith, b, f, same_refl w.in_flight)))
      (λ _.
        take_or_persist-IsWritten now (record w { in_flight = []; request = none })
          (record { not_degraded = k.not_degraded; has_path = k.has_path }))

-- What has no answer yet: the running order in flight, if any, and behind it those that wait.
abbrev pub unanswered : Text → List Text → List Text
unanswered [] waiting = waiting
unanswered (c ∷ r) waiting = (c ∷ r) ∷ waiting

outstanding-eq : (w : DiscoveryWalk) → outstanding w ≡ unanswered w.in_flight w.pending
unfolding outstanding is_empty
outstanding-eq w = go w.in_flight w.pending
  where
    go : (id : Text) (ids : List Text) → (if is_empty id then ids else id ∷ ids) ≡ unanswered id ids
    go [] ids = refl
    go (c ∷ r) ids = refl

-- Opened on the file of a walk: everything that has no answer yet is pending, and nothing else.
abbrev pub Resumes : Text → DiscoveryWalk → Type 0
Resumes dir w =
    ((open_discovery_walk dir true w.saved).pending ≡ unanswered w.in_flight w.pending)
    × ((open_discovery_walk dir true w.saved).catalogue_pending
        ≡ (w.catalogue_pending || w.catalogue_in_flight))

opened_on :
    (dir : Text) (s : WalkState)
    → is_empty dir ≡ false
    → length s.pending ≤ 512
    → ((open_discovery_walk dir true (some s)).pending ≡ s.pending)
      × ((open_discovery_walk dir true (some s)).catalogue_pending ≡ s.catalogue_pending)
unfolding open_discovery_walk
opened_on dir s d b = rw d (
  if_holds (λ (ids : List Text). ids ≡ s.pending) (ltb 512 (length s.pending)) _ _
      (λ e. absurd (ground (arith, e, b))) (λ _. refl),
  refl,
)

written-Resumes :
    (dir : Text) (w : DiscoveryWalk)
    → is_empty dir ≡ false
    → length (unanswered w.in_flight w.pending) ≤ 512
    → IsWritten w
    → Resumes dir w
written-Resumes dir w d b e =
    subst
      (λ (o : Option WalkState).
        ((open_discovery_walk dir true o).pending ≡ unanswered w.in_flight w.pending)
        × ((open_discovery_walk dir true o).catalogue_pending
            ≡ (w.catalogue_pending || w.catalogue_in_flight)))
      (sym (e ∙ ap stored (outstanding-eq w))) (opened_on dir _ d b)
  where
    stored : List Text → Option WalkState
    stored ids =
        some (record {
          pending = ids;
          catalogue_pending = w.catalogue_pending || w.catalogue_in_flight;
        })

-- A restart after a roListAll, whether or not a running order was in flight, has everything pending that
-- has no answer yet: what is in flight first, and then what waits, as long as there is room for it. The
-- walk is to know of no failed write, and the write to succeed.
pub begin-Resumes :
    (now : Time) (dir : Text) (ids : List Text) (w : DiscoveryWalk)
    → w.degraded ≡ false
    → is_empty w.path ≡ false
    → is_empty dir ≡ false
    → length (unanswered (begin now true ids w).2.in_flight (begin now true ids w).2.pending) ≤ 512
    → Resumes dir (begin now true ids w).2
begin-Resumes now dir ids w g p d b =
    written-Resumes dir (begin now true ids w).2 d b
      (begin-IsWritten now ids w (record { not_degraded = g; has_path = p }))

-- A restart after the answer to the running order in flight has everything pending that has no answer yet,
-- under the same conditions.
pub resolved-Resumes :
    (now : Time) (dir : Text) (w : DiscoveryWalk)
    → w.degraded ≡ false
    → is_empty w.path ≡ false
    → is_empty dir ≡ false
    → is_empty w.in_flight ≡ false
    → length (
        unanswered
          (resolved now true w.in_flight w).1.in_flight
          (resolved now true w.in_flight w).1.pending)
      ≤ 512
    → Resumes dir (resolved now true w.in_flight w).1
resolved-Resumes now dir w g p d f b =
    written-Resumes dir (resolved now true w.in_flight w).1 d b
      (resolved-IsWritten now w f (record { not_degraded = g; has_path = p }))
