-- ===== src/Service/Workflow/Removal.antt =====
-- DeleteRunningOrder of src/internal/service/mos.go, and the deletion with which ReplaceRunningOrder begins.
use open_mos.Prelude.{
  ◌≡◌, refl, ◌∙◌, true, false, List, [], ◌∷◌, map, arith, In, inl, inr, some, sym, subst,
}
use open_mos.Text.{Text, same, is_one_of}
use open_mos.Text.Order.{same_iff}
use open_mos.Outcome.{ok}
use open_mos.Exec.{for_each}
use open_mos.Model.{Story, Item}
use open_mos.Table.{Table, lookup, remove}
use open_mos.Table.Laws.{IsKeyed}
use open_mos.Table.Selected.{selected-In}
use open_mos.Repository.{get, not_found_error}
use open_mos.Repository
use open_mos.Repository.Stories
use open_mos.Repository.Items
use open_mos.Repository.Removal.{IsKeyed-delete_multiple}
use open_mos.Repository.Emptied.{
  selected_deleted, selected_kept, selected_nil, is_one_of-selected, listed_holds,
}
use open_mos.Service.{MosService, delete_item}
use open_mos.Service.Workflow.{delete_story_and_items}

abbrev pub ItemsKeyed : Table Item → Type 0
ItemsKeyed = IsKeyed (λ (i : Item). i.id)

abbrev pub StoriesKeyed : Table Story → Type 0
StoriesKeyed = IsKeyed (λ (x : Story). x.id)

abbrev pub item_ids : List Item → List Text
item_ids items = map (λ (i : Item). i.id) items

abbrev pub story_ids : List Story → List Text
story_ids stories = map (λ (x : Story). x.id) stories

-- The items that are left when the items of stories are deleted, one story after another.
unfoldable pub items_left : List Story → Table Item → Table Item
items_left [] t = t
items_left (x ∷ xs) t =
    items_left xs (Items.delete_multiple (item_ids (Items.list_by_story x.id t)) t)

for_each-delete_item :
    (items : List Item) (s : MosService)
    → for_each items (λ i. delete_item i.id) s
      ≡ (ok tt, record s { items = Items.delete_multiple (item_ids items) s.items })
unfolding for_each Repository.delete_multiple remove Repository.delete
for_each-delete_item [] s = refl
for_each-delete_item (i ∷ is') s =
    for_each-delete_item is' (record s { items = Items.delete i.id s.items })

delete_one :
    (x : Story) (s : MosService)
    → delete_story_and_items x s ≡ (
      ok tt,
      record s {
        stories = Stories.delete x.id s.stories;
        items = Items.delete_multiple (item_ids (Items.list_by_story x.id s.items)) s.items;
      },
    )
unfolding delete_story_and_items
delete_one x s = rw (for_each-delete_item (Items.list_by_story x.id s.items) s) refl

pub delete_each :
    (stories : List Story) (s : MosService)
    → for_each stories delete_story_and_items s ≡ (
      ok tt,
      record s {
        stories = Stories.delete_multiple (story_ids stories) s.stories;
        items = items_left stories s.items;
      },
    )
unfolding for_each items_left Repository.delete_multiple Repository.delete
delete_each [] s = refl
delete_each (x ∷ xs) s = rw (delete_one x s) (
    delete_each xs (record s {
      stories = Stories.delete x.id s.stories;
      items = Items.delete_multiple (item_ids (Items.list_by_story x.id s.items)) s.items;
    }))

pub ItemsKeyed-items_left :
    (xs : List Story) (t : Table Item) → ItemsKeyed t → ItemsKeyed (items_left xs t)
unfolding items_left
ItemsKeyed-items_left [] t h = h
ItemsKeyed-items_left (x ∷ xs) t h =
    ItemsKeyed-items_left xs _
      (IsKeyed-delete_multiple (λ (i : Item). i.id) (item_ids (Items.list_by_story x.id t)) t h)

stay_empty :
    (key : Text) (xs : List Story) (t : Table Item)
    → ItemsKeyed t
    → Items.list_by_story key t ≡ []
    → Items.list_by_story key (items_left xs t) ≡ []
unfolding items_left Items.list_by_story
stay_empty key [] t h e = e
stay_empty key (x ∷ xs) t h e =
    let ks = item_ids (Items.list_by_story x.id t) in
    stay_empty key xs (Items.delete_multiple ks t)
      (IsKeyed-delete_multiple (λ (i : Item). i.id) ks t h)
      (selected_nil (λ i. i.order) (λ i. i.id) (Items.is_in key) ks t h e)

pub emptied_items :
    (x : Story) (xs : List Story) (t : Table Item)
    → ItemsKeyed t
    → In x xs
    → Items.list_by_story x.id (items_left xs t) ≡ []
unfolding items_left Items.list_by_story
emptied_items x [] t h i = elim i [ ]
emptied_items x (y ∷ ys) t h (inl e) =
    let ks = item_ids (Items.list_by_story y.id t) in
    stay_empty x.id ys (Items.delete_multiple ks t)
      (IsKeyed-delete_multiple (λ (i : Item). i.id) ks t h)
      (subst (λ (z : Story). Items.list_by_story z.id (Items.delete_multiple ks t) ≡ []) (sym e)
        (selected_deleted (λ i. i.order) (λ i. i.id) (Items.is_in y.id) ks t h
          (λ j l p.
            is_one_of-selected (λ i. i.order) (λ i. i.id) (Items.is_in y.id) j
              (Items.list_by_story y.id t)
              (selected-In (λ i. i.order) (λ i. i.id) (Items.is_in y.id) j.id j t l p))))
emptied_items x (y ∷ ys) t h (inr i) =
    emptied_items x ys _
      (IsKeyed-delete_multiple (λ (i : Item). i.id) (item_ids (Items.list_by_story y.id t)) t h) i

pub elsewhere :
    (x : Story) (key : Text) (j : Item) (t : Table Item)
    → ItemsKeyed t
    → same x.id key ≡ false
    → lookup j.id t ≡ some j
    → is_one_of (item_ids (Items.list_by_story x.id t)) j.id ≡ true
    → Items.is_in key j ≡ false
unfolding Items.list_by_story
elsewhere x key j t h f l q = ground (
  arith,
  listed_holds (λ i. i.order) (λ i. i.id) (Items.is_in x.id) j t h l q,
  same_iff j.story_id x.id,
  same_iff j.story_id key,
  same_iff x.id key,
)

-- Deletions for stories of other keys leave the items of a story.
pub kept_items :
    (key : Text) (xs : List Story) (t : Table Item)
    → ItemsKeyed t
    → ((x : Story) → In x xs → same x.id key ≡ false)
    → Items.list_by_story key (items_left xs t) ≡ Items.list_by_story key t
unfolding items_left Items.list_by_story
kept_items key [] t h f = refl
kept_items key (x ∷ xs) t h f =
    let ks = item_ids (Items.list_by_story x.id t) in
    kept_items key xs (Items.delete_multiple ks t)
      (IsKeyed-delete_multiple (λ (i : Item). i.id) ks t h) (λ y i. f y (inr i))
    ∙ selected_kept (λ i. i.order) (λ i. i.id) (Items.is_in key) ks t h
        (λ j l q. elsewhere x key j t h (f x (inl refl)) l q)
