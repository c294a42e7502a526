-- ===== src/Service/Workflow/Deleted.antt =====
-- DeleteRunningOrder of src/internal/service/mos.go, and the deletion with which ReplaceRunningOrder begins.
use open_mos.Prelude.{◌≡◌, refl, true, false, [], arith, In, none, some}
use open_mos.Text.{Text, same, is_one_of}
use open_mos.Text.Order.{same_iff}
use open_mos.Outcome.{ok, err}
use open_mos.Model.{Story, Item, RunningOrder}
use open_mos.Table.{Table, lookup, remove}
use open_mos.Table.Laws.{lookup-remove, lookup-remove_self}
use open_mos.Table.Selected.{selected-In}
use open_mos.Repository.{get, not_found_error}
use open_mos.Repository
use open_mos.Repository.Stories
use open_mos.Repository.Items
use open_mos.Repository.RunningOrders
use open_mos.Repository.Removal.{IsKeyed-delete_multiple}
use open_mos.Repository.Emptied.{selected_deleted, selected_kept, is_one_of-selected, listed_holds}
use open_mos.Service.{MosService, publish_ro_update}
use open_mos.Service.Publishing.{publish-ok, stories-publish, items-publish, running_orders-publish}
use open_mos.Service.Messages.{is_blank}
use open_mos.Service.Workflow.{delete_contents, delete_running_order}
use open_mos.Service.Workflow.Removal.{
  ItemsKeyed, StoriesKeyed, story_ids, items_left, delete_each, ItemsKeyed-items_left,
  emptied_items, kept_items,
}

-- What DeleteRunningOrder and the deletion of ReplaceRunningOrder do to stories and items, from a state
-- to new tables.
pub record IsEmptied (ro : Text) (s : MosService) (stories : Table Story) (items : Table Item)
    : Type 0 where
  pub no_stories : Stories.list_by_running_order ro stories ≡ []
  pub no_items :
      (x : Story)
      → In x (Stories.list_by_running_order ro s.stories)
      → Items.list_by_story x.id items ≡ []
  pub other_stories :
      (other : Text)
      → same other ro ≡ false
      → Stories.list_by_running_order other stories ≡ Stories.list_by_running_order other s.stories
  pub other_items :
      (key : Text)
      → ((x : Story) → In x (Stories.list_by_running_order ro s.stories) → same x.id key ≡ false)
      → Items.list_by_story key items ≡ Items.list_by_story key s.items
  pub stories_keyed : StoriesKeyed stories
  pub items_keyed : ItemsKeyed items

abbrev pub emptied : Text → MosService → MosService
emptied ro s = record s {
  stories =
      Stories.delete_multiple (story_ids (Stories.list_by_running_order ro s.stories)) s.stories;
  items = items_left (Stories.list_by_running_order ro s.stories) s.items;
}

pub delete_contents-eq : (ro : Text) (s : MosService) → delete_contents ro s ≡ (ok tt, emptied ro s)
unfolding delete_contents
delete_contents-eq ro s = delete_each (Stories.list_by_running_order ro s.stories) s

other_running_order :
    (ro other : Text) (x : Story) (t : Table Story)
    → StoriesKeyed t
    → same other ro ≡ false
    → lookup x.id t ≡ some x
    → is_one_of (story_ids (Stories.list_by_running_order ro t)) x.id ≡ true
    → Stories.is_in other x ≡ false
unfolding Stories.list_by_running_order
other_running_order ro other x t k d l q = ground (
  arith,
  listed_holds (λ x. x.order) (λ x. x.id) (Stories.is_in ro) x t k l q,
  same_iff x.running_order_id ro,
  same_iff x.running_order_id other,
  same_iff other ro,
)

pub emptied-IsEmptied :
    (ro : Text) (s : MosService)
    → StoriesKeyed s.stories
    → ItemsKeyed s.items
    → IsEmptied ro s (emptied ro s).stories (emptied ro s).items
unfolding Stories.list_by_running_order
emptied-IsEmptied ro s k i =
    let listed = Stories.list_by_running_order ro s.stories in
    let ks = story_ids listed in
    record {
      no_stories =
          selected_deleted (λ x. x.order) (λ x. x.id) (Stories.is_in ro) ks s.stories k
            (λ x l p.
              is_one_of-selected (λ x. x.order) (λ x. x.id) (Stories.is_in ro) x listed
                (selected-In (λ x. x.order) (λ x. x.id) (Stories.is_in ro) x.id x s.stories l p));
      no_items = λ x j. emptied_items x listed s.items i j;
      other_stories = λ other d.
          selected_kept (λ x. x.order) (λ x. x.id) (Stories.is_in other) ks s.stories k
            (λ x l q. other_running_order ro other x s.stories k d l q);
      other_items = λ key d. kept_items key listed s.items i d;
      stories_keyed = IsKeyed-delete_multiple (λ (x : Story). x.id) ks s.stories k;
      items_keyed = ItemsKeyed-items_left listed s.items i;
    }

delete_run :
    (ro : Text) (s : MosService)
    → is_blank ro ≡ false
    → delete_running_order ro s
      ≡ publish_ro_update ro (record (emptied ro s) { running_orders = remove ro s.running_orders })
unfolding delete_running_order Repository.delete
delete_run ro s b = rw b (rw (delete_contents-eq ro s) refl)

get_of_none :
    (k : Text) (t : Table RunningOrder)
    → lookup k t ≡ none
    → RunningOrders.get k t ≡ err not_found_error
unfolding Repository.get
get_of_none k t h = ground arith

-- DeleteRunningOrder of a running order with an identifier, held or not, succeeds: the running order is
-- no longer held, it lists no story, and the stories that it listed list no item; the other running
-- orders, their stories, and the items of all other stories are as they were.
pub delete_running_order-IsEmptied :
    (ro : Text) (s : MosService)
    → is_blank ro ≡ false
    → StoriesKeyed s.stories
    → ItemsKeyed s.items
    → ((delete_running_order ro s).0 ≡ ok tt)
      × (RunningOrders.get ro (delete_running_order ro s).1.running_orders ≡ err not_found_error)
      × ((other : Text)
          → same other ro ≡ false
          → lookup other (delete_running_order ro s).1.running_orders
            ≡ lookup other s.running_orders)
      × IsEmptied ro s (delete_running_order ro s).1.stories (delete_running_order ro s).1.items
delete_running_order-IsEmptied ro s b k i = rw (delete_run ro s b) (
  publish-ok _ _,
  rw running_orders-publish
      (get_of_none ro (remove ro s.running_orders) (lookup-remove_self ro s.running_orders)),
  λ other d. rw running_orders-publish (
      ground
        (arith, lookup-remove ro other s.running_orders, same_iff ro other, same_iff other ro)),
  rw (stories-publish, items-publish) (emptied-IsEmptied ro s k i),
)
