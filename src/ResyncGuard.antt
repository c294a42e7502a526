-- ===== src/ResyncGuard.antt =====
-- src/internal/server/resync.go: the limit on requests for a running order. An instant is a number of
-- nanoseconds of a clock that does not go back, so that now.Sub(at) is the difference.
pub mod Limit
use open_mos.Prelude.{
  ℕ, ◌-◌, Bool, true, false, List, [], ◌∷◌, Option, none, some, length, ltb, leb, if◌then◌else◌,
}
use open_mos.Text.{Text, is_empty}
use open_mos.Model.{Time}
use open_mos.Table.{Table, lookup, put, remove}

pub record ResyncGuard : Type 0 where
  pub requested : Table Time
  pub interval : ℕ
  pub max : ℕ

-- newResyncGuard: 30 seconds, 256 identifiers
abbrev pub new_resync_guard : ResyncGuard
new_resync_guard = record { requested = []; interval = 30000000000; max = 256 }

-- last, seen := g.requested[roID]; seen && now.Sub(last) < g.interval
unfoldable pub is_recent : Time → ℕ → Option Time → Bool
is_recent now interval none = false
is_recent now interval (some last) = ltb (now - last) interval

-- The loop that deletes the entries that have aged out.
unfoldable pub drop_aged : Time → ℕ → Table Time → Table Time
drop_aged now interval [] = []
drop_aged now interval ((id, at) ∷ t) =
    let rest = drop_aged now interval t in if leb interval (now - at) then rest else (id, at) ∷ rest

abbrev pub is_seen : Option Time → Bool
is_seen none = false
is_seen (some _) = true

-- Records the request unless the table is full of others.
unfoldable pub admit : Time → Text → ResyncGuard → Bool × ResyncGuard
unfolding lookup put
admit now ro g =
    if leb g.max (length g.requested)
    then (if is_seen (lookup ro g.requested)
        then (true, record g { requested = put ro now g.requested })
        else (false, g))
    else (true, record g { requested = put ro now g.requested })

-- shouldRequest
unfoldable pub should_request : Time → Text → ResyncGuard → Bool × ResyncGuard
unfolding is_recent drop_aged admit lookup
should_request now ro g =
    if is_empty ro
    then (false, g)
    else (if is_recent now g.interval (lookup ro g.requested)
        then (false, g)
        else admit now ro (record g { requested = drop_aged now g.interval g.requested }))

-- forget
unfoldable pub forget : Text → ResyncGuard → ResyncGuard
unfolding remove
forget ro g = record g { requested = remove ro g.requested }
