-- ===== src/Service/StoryActions/Missing.antt =====
-- MOVE (service/element_action.go) of a story that the device does not hold.
use open_mos.Prelude.{
  ◌≡◌, ◌≢◌, refl, List, [], ◌∷◌, inl, inr, In, All, Option, none, some, arith, subst,
}
use open_mos.Text.{Text}
use open_mos.Text.Order.{same_iff}
use open_mos.Outcome.{
  Error, ok, err, failed, lost_synchronisation, unknown_running_order, Result-cases,
}
use open_mos.Model.{Story, Time}
use open_mos.Table.{Table, lookup}
use open_mos.Repository.Stories
use open_mos.Wire.{ElementTarget}
use open_mos.Service.{MosService}
use open_mos.Service.Identity.{
  find_story, resolve_story, resolve_story_keys, story_persistence_id, story_not_held,
}
use open_mos.Service.StoryActions.{key_of_target, move_stories}
use open_mos.Service.Workflow.Stored.{get-none}

-- A story that is not held: nothing stands under its key, and no story of the running order has the
-- identifier, as its own of the wire or as its key.
abbrev pub IsNotHeld : Text → Text → Table Story → Type 0
IsNotHeld ro wire t =
    (lookup (story_persistence_id ro wire) t ≡ none)
    × All (λ (x : Story). (x.raw_id ≢ wire) × (x.id ≢ wire)) (Stories.list_by_running_order ro t)

find_story-none :
    (wire : Text) (xs : List Story)
    → All (λ (x : Story). (x.raw_id ≢ wire) × (x.id ≢ wire)) xs
    → find_story wire xs ≡ none
unfolding find_story
find_story-none wire [] h = refl
find_story-none wire (x ∷ xs) h =
    ground (arith, same_iff x.raw_id wire, same_iff x.id wire, find_story-none wire xs h.1, h.0)

resolve_story-err :
    (ro wire : Text) (t : Table Story)
    → IsNotHeld ro wire t
    → (e : Error) × (resolve_story ro wire t ≡ err e)
unfolding resolve_story
resolve_story-err ro [] t h = (failed "empty storyID", refl)
resolve_story-err ro (c ∷ r) t h = (
  story_not_held ro,
  rw
      (
        get-none (story_persistence_id ro (c ∷ r)) t h.0,
        find_story-none (c ∷ r) (Stories.list_by_running_order ro t) h.1,
      )
      refl,
)

-- A story that is not held is among the missing, wherever it is named.
missing_some :
    (ro wire : Text) (wires : List Text) (t : Table Story)
    → In wire wires
    → IsNotHeld ro wire t
    → (m : Text) × (ms : List Text) × ((resolve_story_keys ro wires t).1 ≡ m ∷ ms)
unfolding resolve_story_keys
missing_some ro wire [] t i h = elim i [ ]
missing_some ro wire (w ∷ ws) t (inl e) h =
    let (x, q) = resolve_story-err ro w t (subst (λ v. IsNotHeld ro v t) e h) in
    (w, (resolve_story_keys ro ws t).1, rw q refl)
missing_some ro wire (w ∷ ws) t (inr i) h =
    let (m, ms, q) = missing_some ro wire ws t i h in
    elim (Result-cases (resolve_story ro w t)) [
      | inl (x, r) ↦ (m, ms, rw r q)
      | inr (x, r) ↦ (w, (resolve_story_keys ro ws t).1, rw r refl)
    ]

-- MOVE that names a story which is not held, wherever in the list and whatever else it names, changes
-- nothing and returns an error that asks for the running order, where the target is held or none is named.
pub move_stories_missing :
    (now : Time) (ro wire key : Text) (target : Option ElementTarget) (wires : List Text)
    (s : MosService)
    → key_of_target ro target s ≡ (ok key, s)
    → In wire wires
    → IsNotHeld ro wire s.stories
    → (e : Error) × (move_stories now ro target wires s ≡ (err e, s))
      × (lost_synchronisation e ≡ some ro)
unfolding move_stories lost_synchronisation
move_stories_missing now ro wire key target wires s t i h =
    let (m, ms, q) = missing_some ro wire wires s.stories i h in
    (unknown_running_order ro (failed "stories not held by this device"), rw t (rw q refl), refl)
