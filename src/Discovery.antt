-- ===== src/Discovery.antt =====
-- src/internal/server/discovery.go: the walk that asks the NCS for the running orders of a roListAll, one
-- at a time. A method's calls of time.Now are one instant, `now`, and `written` says whether the file
-- system took the file that the method writes, of which it writes one at most. `saved` is what the
-- file holds. The pointer to a request is a number that no two requests share, `handle`; the receiver
-- is not nil. A next running order with ok = true is `some`, and empty for roReqAll.
pub mod Listed
pub mod Valid
pub mod Steps
pub mod Requests
pub mod Reach
pub mod Serving
pub mod Served
pub mod Claims
pub mod Restart
use open_mos.Prelude.{
  ℕ, ◌+◌, ◌-◌, suc, Bool, true, false, not, ◌&&◌, ◌||◌, List, [], ◌∷◌, Option, none, some, length,
  take, ltb, leb, ◌==◌, if◌then◌else◌, ◌++◌,
}
use open_mos.Text.{Text, text, same, is_empty, is_one_of}
use open_mos.Model.{Time}
use open_mos.Table.{Table, lookup, put, remove}

pub record DiscoveryRequest : Type 0 where
  pub handle : ℕ
  pub rundown_id : Text
  pub scope : Text
  pub session : Text
  pub message_id : Text
  pub native : Bool
  pub replying : Bool
  pub expired : Bool

pub record WalkState : Type 0 where
  pub pending : List Text
  pub catalogue_pending : Bool

pub record DiscoveryWalk : Type 0 where
  pub pending : List Text
  pub in_flight : Text
  pub catalogue_pending : Bool
  pub catalogue_in_flight : Bool
  pub request : Option DiscoveryRequest
  pub deadline : Time
  pub timeout : ℕ
  pub max : ℕ
  pub path : Text
  pub degraded : Bool
  pub saved : Option WalkState
  pub handles : ℕ

-- newDiscoveryWalk: 15 seconds, and repository.MaxSourceMembers running orders
abbrev pub new_discovery_walk : DiscoveryWalk
new_discovery_walk = record {
  pending = [];
  in_flight = [];
  catalogue_pending = false;
  catalogue_in_flight = false;
  request = none;
  deadline = 0;
  timeout = 15000000000;
  max = 512;
  path = [];
  degraded = true;
  saved = none;
  handles = 0;
}

-- The running orders that have no answer yet, as a restart would ask for them.
unfoldable pub outstanding : DiscoveryWalk → List Text
outstanding w = if is_empty w.in_flight then w.pending else w.in_flight ∷ w.pending

-- persistLocked
unfoldable pub persist : Bool → DiscoveryWalk → DiscoveryWalk
unfolding outstanding is_empty
persist written w =
    if w.degraded || is_empty w.path
    then w
    else (if written
        then record w {
          saved = some (record {
            pending = outstanding w;
            catalogue_pending = w.catalogue_pending || w.catalogue_in_flight;
          });
        }
        else record w { degraded = true })

-- &discoveryRequest{rundownID: id}
abbrev pub new_request : ℕ → Text → DiscoveryRequest
new_request h id = record {
  handle = h;
  rundown_id = id;
  scope = [];
  session = [];
  message_id = [];
  native = false;
  replying = false;
  expired = false;
}

abbrev pub take_first : Time → Bool → List Text → DiscoveryWalk → Option Text × DiscoveryWalk
take_first now written [] w = (none, w)
take_first now written (next ∷ rest) w = (
  some next,
  persist written (record w {
    pending = rest;
    in_flight = next;
    request = some (new_request w.handles next);
    deadline = now + w.timeout;
    handles = suc w.handles;
  }),
)

unfoldable pub is_busy : DiscoveryWalk → Bool
unfolding is_empty
is_busy w = not (is_empty w.in_flight) || w.catalogue_in_flight

-- takeLocked
unfoldable pub take_locked : Time → Bool → DiscoveryWalk → Option Text × DiscoveryWalk
unfolding persist is_busy
take_locked now written w =
    if is_busy w
    then (none, w)
    else (if w.catalogue_pending
        then (
          some [],
          persist written (record w {
            catalogue_pending = false;
            catalogue_in_flight = true;
            request = some (new_request w.handles []);
            deadline = now + w.timeout;
            handles = suc w.handles;
          }),
        )
        else take_first now written w.pending w)

-- if !ok { w.persistLocked() }
abbrev pub settled : Bool → Option Text × DiscoveryWalk → Option Text × DiscoveryWalk
settled written (some next, w) = (some next, w)
settled written (none, w) = (none, persist written w)

unfoldable pub take_or_persist : Time → Bool → DiscoveryWalk → Option Text × DiscoveryWalk
unfolding take_locked persist
take_or_persist now written w = settled written (take_locked now written w)

abbrev pub is_set : Option Bool → Bool
is_set none = false
is_set (some b) = b

-- The map of the advertised identifiers.
unfoldable pub listed_ids : Text → List Text → Table Bool → Table Bool
unfolding put
listed_ids in_flight [] listed = listed
listed_ids in_flight (id ∷ ids) listed =
    listed_ids in_flight ids
      (if is_empty id || same id in_flight then listed else put id true listed)

-- for _, id := range ids, with the queue and the map that it leaves
unfoldable pub enqueue : List Text → Table Bool → List Text × Table Bool
unfolding lookup remove
enqueue [] listed = ([], listed)
enqueue (id ∷ ids) listed = elim (is_set (lookup id listed)) [
  | true ↦ let rest = enqueue ids (remove id listed) in (id ∷ rest.0, rest.1)
  | false ↦ enqueue ids listed
]

unfoldable pub begin_queue : Text → List Text → List Text → List Text
unfolding listed_ids enqueue is_empty same
begin_queue in_flight pending ids =
    let first = enqueue pending (listed_ids in_flight ids []) in first.0 ++ (enqueue ids first.1).0

-- What begin does to a request for the catalogue.
abbrev pub answered_catalogue : DiscoveryWalk → DiscoveryWalk
answered_catalogue w =
    if w.catalogue_in_flight
    then record w { catalogue_pending = false; catalogue_in_flight = false; request = none }
    else record w { catalogue_pending = false }

-- begin, with the number of running orders dropped
unfoldable pub begin : Time → Bool → List Text → DiscoveryWalk → Option Text × ℕ × DiscoveryWalk
begin now written ids w =
    let queue = begin_queue w.in_flight w.pending ids in
    let dropped = if ltb w.max (length queue) then length queue - w.max else 0 in
    let kept = if ltb w.max (length queue) then take w.max queue else queue in
    let taken = take_or_persist now written (record (answered_catalogue w) { pending = kept }) in
    (taken.0, dropped, taken.1)

abbrev pub has_expired : Option DiscoveryRequest → Bool
has_expired none = false
has_expired (some r) = r.expired

-- requestCatalogue
unfoldable pub request_catalogue : Time → Bool → DiscoveryWalk → Option Text × DiscoveryWalk
unfolding take_or_persist
request_catalogue now written w =
    if w.catalogue_in_flight
    then (if has_expired w.request then some [] else none, w)
    else take_or_persist now written (record w { catalogue_pending = true })

-- The slot that registerRequest fills: a fresh one where a native session has run out.
abbrev pub renewed : Text → DiscoveryRequest → DiscoveryWalk → DiscoveryRequest × DiscoveryWalk
renewed session r w =
    if r.expired && r.native && not (same r.session session)
    then (
      new_request w.handles r.rundown_id,
      record w { request = some (new_request w.handles r.rundown_id); handles = suc w.handles },
    )
    else (r, w)

abbrev pub fill :
    Time
    → Text
    → Text
    → Text
    → Bool
    → DiscoveryRequest × DiscoveryWalk
    → Option DiscoveryRequest × DiscoveryWalk
fill now scope session message_id native (r, w) =
    if not (is_empty r.session)
    then (none, w)
    else (let filled : DiscoveryRequest = record r {
      scope = scope;
      session = session;
      message_id = message_id;
      native = native;
    } in
        (some filled, record w { request = some filled; deadline = now + w.timeout }))

abbrev pub register_for :
    Time
    → Text
    → Text
    → Text
    → Text
    → Bool
    → Option DiscoveryRequest
    → DiscoveryWalk
    → Option DiscoveryRequest × DiscoveryWalk
register_for now rundown scope session message_id native none w = (none, w)
register_for now rundown scope session message_id native (some r) w =
    if not (same r.rundown_id rundown)
    then (none, w)
    else fill now scope session message_id native (renewed session r w)

-- registerRequest
unfoldable pub register_request :
    Time
    → Text
    → Text
    → Text
    → Text
    → Bool
    → DiscoveryWalk
    → Option DiscoveryRequest × DiscoveryWalk
unfolding is_empty same
register_request now rundown scope session message_id native w =
    if is_empty scope || is_empty session || not native && is_empty message_id
    then (none, w)
    else register_for now rundown scope session message_id native w.request w

-- The conditions under which a response is not the one awaited.
unfoldable pub refuses_claim : Time → Time → Text → Text → Text → Text → DiscoveryRequest → Bool
unfolding is_empty same
refuses_claim now deadline rundown scope session message_id r =
    not (same r.rundown_id rundown)
    || is_empty r.session
    || not (same r.scope scope)
    || not (same r.session session)
    || r.expired
    || r.replying
    || not (ltb now deadline)
    || not r.native && not (same r.message_id message_id)

abbrev pub claim_for :
    Time
    → Text
    → Text
    → Text
    → Text
    → Option DiscoveryRequest
    → DiscoveryWalk
    → Option DiscoveryRequest × DiscoveryWalk
claim_for now rundown scope session message_id none w = (none, w)
claim_for now rundown scope session message_id (some r) w =
    if refuses_claim now w.deadline rundown scope session message_id r
    then (none, w)
    else (let claimed : DiscoveryRequest = record r { replying = true } in
        (some claimed, record w { request = some claimed }))

-- claimRequest
unfoldable pub claim_request :
    Time → Text → Text → Text → Text → DiscoveryWalk → Option DiscoveryRequest × DiscoveryWalk
unfolding refuses_claim
claim_request now rundown scope session message_id w =
    claim_for now rundown scope session message_id w.request w

abbrev pub release_for : ℕ → Option DiscoveryRequest → DiscoveryWalk → DiscoveryWalk
release_for h none w = w
release_for h (some r) w =
    if r.handle == h then record w { request = some (record r { replying = false }) } else w

-- releaseRequest
unfoldable pub release_request : ℕ → DiscoveryWalk → DiscoveryWalk
release_request h w = release_for h w.request w

-- A request that was not written goes back to where it came from.
abbrev pub put_back : DiscoveryWalk → DiscoveryWalk
put_back w =
    if w.catalogue_in_flight
    then record w { catalogue_in_flight = false; catalogue_pending = true; request = none }
    else record w { pending = w.in_flight ∷ w.pending; in_flight = []; request = none }

abbrev pub failed_for :
    Time → Bool → ℕ → Option DiscoveryRequest → DiscoveryWalk → Bool × DiscoveryWalk
failed_for now written h none w = (false, w)
failed_for now written h (some r) w = if not (r.handle == h) || r.replying then (false, w) else (
  true,
  persist written (
      if r.native
      then record w { request = some (record r { expired = true }); deadline = now }
      else put_back w),
)

-- failedRequest
unfoldable pub failed_request : Time → Bool → ℕ → DiscoveryWalk → Bool × DiscoveryWalk
unfolding persist
failed_request now written h w = failed_for now written h w.request w

-- enqueueUrgent
unfoldable pub enqueue_urgent : Time → Bool → Text → DiscoveryWalk → Option Text × DiscoveryWalk
unfolding take_locked is_empty same is_one_of
enqueue_urgent now written ro w =
    if is_empty ro || same w.in_flight ro || is_one_of w.pending ro || leb w.max (length w.pending)
    then (none, w)
    else take_locked now written (record w { pending = ro ∷ w.pending })

-- resolved
unfoldable pub resolved : Time → Bool → Text → DiscoveryWalk → Option Text × DiscoveryWalk
unfolding take_or_persist is_empty same
resolved now written ro w =
    if is_empty ro || not (same w.in_flight ro)
    then (none, w)
    else take_or_persist now written (record w { in_flight = []; request = none })

abbrev pub is_replying : Option DiscoveryRequest → Bool
is_replying none = false
is_replying (some r) = r.replying

-- What nudge gives up: the running order, or for now the catalogue.
abbrev pub abandon : DiscoveryWalk → DiscoveryWalk
abandon w =
    if w.catalogue_in_flight
    then record w {
      in_flight = [];
      request = none;
      catalogue_in_flight = false;
      catalogue_pending = true;
    }
    else record w { in_flight = []; request = none }

abbrev pub overdue :
    Time → Bool → Option DiscoveryRequest → DiscoveryWalk → Option Text × DiscoveryWalk
overdue now written none w = take_or_persist now written (abandon w)
overdue now written (some r) w =
    if r.native
    then (some w.in_flight, record w { request = some (record r { expired = true }) })
    else take_or_persist now written (abandon w)

-- nudge
unfoldable pub nudge : Time → Bool → DiscoveryWalk → Option Text × DiscoveryWalk
unfolding take_locked take_or_persist is_busy
nudge now written w =
    if not (is_busy w)
    then take_locked now written w
    else (if is_replying w.request || ltb now w.deadline
        then (none, w)
        else overdue now written w.request w)

abbrev pub is_held : Option DiscoveryRequest → Bool
is_held none = false
is_held (some r) = r.replying || r.expired

-- timedOut: the running order, which is empty for the catalogue
unfoldable pub timed_out : Time → DiscoveryWalk → Option Text
unfolding is_empty
timed_out now w =
    if is_held w.request
    then none
    else (if not (is_empty w.in_flight) && not (ltb now w.deadline)
        then some w.in_flight
        else (if w.catalogue_in_flight && not (ltb now w.deadline) then some [] else none))

-- openDiscoveryWalk: whether its directory could be made, and what the file held, if it could be read
unfoldable pub open_discovery_walk : Text → Bool → Option WalkState → DiscoveryWalk
unfolding is_empty
open_discovery_walk dir created stored =
    if is_empty dir || not created
    then new_discovery_walk
    else (let opened : DiscoveryWalk = record new_discovery_walk {
      path = dir ++ text "/discovery.json";
      degraded = false;
      saved = stored;
    } in
        elim stored [
          | none ↦ opened
          | some s ↦ record opened {
            pending =
                if ltb opened.max (length s.pending) then take opened.max s.pending else s.pending;
            catalogue_pending = s.catalogue_pending;
          }
        ])
