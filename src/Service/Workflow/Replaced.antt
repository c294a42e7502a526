-- ===== src/Service/Workflow/Replaced.antt =====
-- ReplaceRunningOrder of src/internal/service/mos.go: what a running order holds after it.
use open_mos.Prelude.{◌≡◌, refl, ap, ◌∙◌, [], none, some, arith, List, false}
use open_mos.Text.{Text, same}
use open_mos.Outcome.{Result, ok, err}
use open_mos.Model.{RunningOrder, Time, Story, Item}
use open_mos.Table.{Table, lookup, put}
use open_mos.Table.Laws.{IsKeyed, ident_of_lookup, lookup-put_self}
use open_mos.Repository
use open_mos.Repository.RunningOrders
use open_mos.Repository.Stories
use open_mos.Repository.Removal.{lookup-delete_multiple}
use open_mos.Table.Rewrite.{put_all}
use open_mos.Model.{Story, Item}
use open_mos.Service.Workflow.Stored.{
  stories_of, HaveDistinctIds, create_all-ok, story_ident, held_none, held_some,
}
use open_mos.Service.Workflow.Removal.{StoriesKeyed, ItemsKeyed}
use open_mos.Service.Workflow.Deleted.{emptied, delete_contents-eq, emptied-IsEmptied}
use open_mos.Service.Workflow.Listed.{listed_new, all_new, AreOwned, other_listed}
use open_mos.Service.{MosService, create_running_order, update_running_order, publish_ro_update}
use open_mos.Service.Timing.{preserve_external_metadata, Floats}
use open_mos.Service.Messages.{parse_duration, validate_running_order}
use open_mos.Service.Workflow.{
  replace_record, replace_found, replaced, new_running_order, replace_running_order, create_all,
}
use open_mos.Wire.{RoReplace}
use open_mos.Service.Workflow.Listed.{AreOwned}
use open_mos.Table.Rewrite.{put_all}
use open_mos.Service.Identity.{story_persistence_id}
use open_mos.Service.Publishing.{publish-ok, stories-publish, running_orders-publish}

-- The running order that a roReplace leaves: a new one, or the one that was held, changed.
abbrev pub record_after : Time → RoReplace → Result RunningOrder → RunningOrder
record_after now m (err e) =
    new_running_order now m.id [] m.slug m.channel (parse_duration m.ed_dur)
      (preserve_external_metadata m.mos_external_metadata)
record_after now m (ok r) = replaced now m r

create_running_order-eq :
    (x : RunningOrder) (s : MosService)
    → lookup x.id s.running_orders ≡ none
    → create_running_order x s ≡ (ok tt, record s { running_orders = put x.id x s.running_orders })
unfolding Repository.create
create_running_order-eq x s e = rw (e, Repository.create) refl

update_running_order-eq :
    (x r : RunningOrder) (s : MosService)
    → lookup x.id s.running_orders ≡ some r
    → update_running_order x s ≡ (ok tt, record s { running_orders = put x.id x s.running_orders })
unfolding Repository.update
update_running_order-eq x r s e = rw (e, Repository.update) refl

replace_found-ok :
    (now : Time) (m : RoReplace) (s : MosService) (r : Result RunningOrder)
    → IsKeyed (λ (r : RunningOrder). r.id) s.running_orders
    → RunningOrders.get m.id s.running_orders ≡ r
    → replace_found now m r s
      ≡ (ok tt, record s { running_orders = put m.id (record_after now m r) s.running_orders })
replace_found-ok now m s (err e) k h =
    rw
      (create_running_order-eq (record_after now m (err e)) s (held_none m.id s.running_orders e h))
      refl
replace_found-ok now m s (ok r) k h =
    let l = held_some m.id s.running_orders r h in
    let q = ident_of_lookup (λ (r : RunningOrder). r.id) m.id r s.running_orders k l in
    rw (update_running_order-eq (replaced now m r) r s (ap (λ j. lookup j s.running_orders) q ∙ l))
      (ap
        (λ (j : Text).
          let x : Result (Unit {0}) × MosService =
            (ok tt, record s { running_orders = put j (replaced now m r) s.running_orders }) in
          x)
        q)

replace_record-ok :
    (now : Time) (m : RoReplace) (s : MosService)
    → IsKeyed (λ (r : RunningOrder). r.id) s.running_orders
    → replace_record now m s ≡ (
      ok tt,
      record s {
        running_orders =
            put m.id
              (record_after now m (RunningOrders.get m.id s.running_orders))
              s.running_orders;
      },
    )
unfolding replace_record
replace_record-ok now m s k =
    replace_found-ok now m s (RunningOrders.get m.id s.running_orders) k refl

-- What a table keeps of another from which stories were deleted.
owned_after :
    (ro : Text) (ks : List Text) (t : Table Story)
    → AreOwned ro t
    → AreOwned ro (Stories.delete_multiple ks t)
owned_after ro ks t o x w l =
    o x w (ground (arith, lookup-delete_multiple (story_persistence_id ro w) ks t))

module _ {Rate : Type 0} (floats : Floats Rate) (now : Time) (m : RoReplace) (s : MosService) where
  abbrev recorded : MosService
  recorded = record (emptied m.id s) {
    running_orders =
        put m.id (record_after now m (RunningOrders.get m.id s.running_orders)) s.running_orders;
  }

  replace_run :
      (t : Table Item)
      → validate_running_order m.id m.slug m.stories ≡ ok tt
      → IsKeyed (λ (r : RunningOrder). r.id) s.running_orders
      → create_all floats now m.id 1 m.stories recorded ≡ (
        ok tt,
        record recorded {
          stories = put_all story_ident (stories_of now m.id 1 m.stories) (emptied m.id s).stories;
          items = t;
        },
      )
      → replace_running_order floats now m s
        ≡ publish_ro_update m.id (record recorded {
          stories = put_all story_ident (stories_of now m.id 1 m.stories) (emptied m.id s).stories;
          items = t;
        })
  unfolding replace_running_order
  replace_run t v k e =
      rw v (
        rw (delete_contents-eq m.id s)
          (rw (replace_record-ok now m (emptied m.id s) k) (rw e refl)))

  pub replace_running_order-listed :
      validate_running_order m.id m.slug m.stories ≡ ok tt
      → IsKeyed (λ (r : RunningOrder). r.id) s.running_orders
      → StoriesKeyed s.stories
      → ItemsKeyed s.items
      → AreOwned m.id s.stories
      → HaveDistinctIds m.stories
      → ((replace_running_order floats now m s).0 ≡ ok tt)
        × (Stories.list_by_running_order m.id (replace_running_order floats now m s).1.stories
            ≡ stories_of now m.id 1 m.stories)
        × (lookup m.id (replace_running_order floats now m s).1.running_orders
            ≡ some (record_after now m (RunningOrders.get m.id s.running_orders)))
        × ((other : Text)
            → same other m.id ≡ false
            → Stories.list_by_running_order other (replace_running_order floats now m s).1.stories
              ≡ Stories.list_by_running_order other s.stories)
  replace_running_order-listed v kr ks ki o d =
      let e = emptied-IsEmptied m.id s ks ki in
      let new =
        all_new m.id m.stories (emptied m.id s).stories (owned_after m.id _ s.stories o)
          e.no_stories in
      let (t, c) = create_all-ok floats now m.id 1 m.stories recorded e.items_keyed d new in
      rw (replace_run t v kr c) (
        publish-ok _ _,
        rw stories-publish
            (listed_new now m.id m.stories (emptied m.id s).stories e.stories_keyed d e.no_stories),
        rw running_orders-publish (lookup-put_self m.id _ s.running_orders),
        λ other n. rw stories-publish (
            other_listed now m.id other m.stories (emptied m.id s).stories e.stories_keyed d new n
            ∙ e.other_stories other n),
      )
