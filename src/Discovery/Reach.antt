-- ===== src/Discovery/Reach.antt =====
-- src/internal/server/discovery.go: the states that the walk can reach, from its opening on.
use open_mos.Prelude.{ℕ, Bool, List, none}
use open_mos.Text.{Text}
use open_mos.Model.{Time}
use open_mos.Discovery.{
  DiscoveryWalk, begin, request_catalogue, register_request, claim_request, release_request,
  failed_request, enqueue_urgent, resolved, nudge, open_discovery_walk,
}
use open_mos.Discovery.Valid.{IsValid}
use open_mos.Discovery.Steps.{
  begin-IsValid, resolved-IsValid, nudge-IsValid, request_catalogue-IsValid,
}
use open_mos.Discovery.Requests.{
  register_request-IsValid, claim_request-IsValid, release_request-IsValid, failed_request-IsValid,
  enqueue_urgent-IsValid, open_discovery_walk-IsValid,
}

-- A call of a method, at any instant and with any arguments, or a restart of the process, which opens
-- what the file holds.
pub data Step (w : DiscoveryWalk) : DiscoveryWalk → Type 0 where
  listed : (now : Time) (written : Bool) (ids : List Text) → Step w (begin now written ids w).2
  catalogue_asked : (now : Time) (written : Bool) → Step w (request_catalogue now written w).1
  registered :
      (now : Time) (rundown scope session message_id : Text) (native : Bool)
      → Step w (register_request now rundown scope session message_id native w).1
  claimed :
      (now : Time) (rundown scope session message_id : Text)
      → Step w (claim_request now rundown scope session message_id w).1
  released : (h : ℕ) → Step w (release_request h w)
  not_sent : (now : Time) (written : Bool) (h : ℕ) → Step w (failed_request now written h w).1
  recovered : (now : Time) (written : Bool) (ro : Text) → Step w (enqueue_urgent now written ro w).1
  answered : (now : Time) (written : Bool) (ro : Text) → Step w (resolved now written ro w).1
  nudged : (now : Time) (written : Bool) → Step w (nudge now written w).1
  restarted : (dir : Text) (created : Bool) → Step w (open_discovery_walk dir created w.saved)

pub data Reach : DiscoveryWalk → Type 0 where
  opened : (dir : Text) (created : Bool) → Reach (open_discovery_walk dir created none)
  next : {w x : DiscoveryWalk} → Reach w → Step w x → Reach x

Step-IsValid : {w x : DiscoveryWalk} → Step w x → IsValid w → IsValid x
Step-IsValid {w} (listed now written ids) v = begin-IsValid now written ids w v
Step-IsValid {w} (catalogue_asked now written) v = request_catalogue-IsValid now written w v
Step-IsValid {w} (registered now rundown scope session message_id native) v =
    register_request-IsValid now rundown scope session message_id native w v
Step-IsValid {w} (claimed now rundown scope session message_id) v =
    claim_request-IsValid now rundown scope session message_id w v
Step-IsValid {w} (released h) v = release_request-IsValid h w v
Step-IsValid {w} (not_sent now written h) v = failed_request-IsValid now written h w v
Step-IsValid {w} (recovered now written ro) v = enqueue_urgent-IsValid now written ro w v
Step-IsValid {w} (answered now written ro) v = resolved-IsValid now written ro w v
Step-IsValid {w} (nudged now written) v = nudge-IsValid now written w v
Step-IsValid {w} (restarted dir created) v = open_discovery_walk-IsValid dir created w.saved v.file

-- In every state that the walk can reach, by calls of its methods in any order and by restarts: one
-- request at most is in flight, for the catalogue or for one running order, and the slot of the request
-- is that of what is in flight; no running order is outstanding twice, and none without an identifier;
-- at most one more is outstanding than the bound allows to wait.
pub Reach-IsValid : {w : DiscoveryWalk} → Reach w → IsValid w
Reach-IsValid (opened dir created) = open_discovery_walk-IsValid dir created none tt
Reach-IsValid (next r s) = Step-IsValid s (Reach-IsValid r)
