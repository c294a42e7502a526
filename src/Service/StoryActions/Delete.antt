-- ===== src/Service/StoryActions/Delete.antt =====
-- DELETE of stories: the batch delete of the items is given storage keys, and the batch delete of the
-- stories wire identifiers.
use open_mos.Prelude.{
  ◌≡◌, refl, ap, List, [], ◌∷◌, map, arith, All, In, inl, inr, none, some, length, ltb,
  if◌then◌else◌, In-append_left, In-append_right, Bool-cases,
}
use open_mos.Text.{Text, is_one_of}
use open_mos.Outcome.{ok, Result-cases}
use open_mos.Exec.{pure}
use open_mos.Model.{Story, Item, Time}
use open_mos.Table.{Table, lookup}
use open_mos.Table.Laws.{IsKeyed}
use open_mos.Table.Selected.{In-selected, selected-In}
use open_mos.Table.Rewrite.{put_all}
use open_mos.Repository
use open_mos.Repository.Stories
use open_mos.Repository.Items
use open_mos.Repository.Removal.{
  delete_multiple_absent, lookup-delete_multiple, is_one_of-In, IsKeyed-delete_multiple,
}
use open_mos.Service.{MosService, delete_items, publish_ro_update}
use open_mos.Service.Publishing.{publish-ok, stories-publish, items-publish}
use open_mos.Service.Identity.{story_key_for}
use open_mos.Service.Records.{renumber}
use open_mos.Service.StoryActions.{items_of_stories, delete_wire_stories}
use open_mos.Service.StoryActions.Moving.{story_ident}
use open_mos.Service.StoryActions.Numbering.{
  StoriesKeyed, for_each-ignore, listing_renumbered, rearranged-held, listing-distinct,
}

delete_guarded :
    (ids : List Text) (s : MosService)
    → (if ltb 0 (length ids) then delete_items ids else pure tt) s ≡ delete_items ids s
unfolding Repository.delete_multiple
delete_guarded [] s = refl
delete_guarded (i ∷ is') s = ground arith

In-map : (x : Item) (xs : List Item) → In x xs → In x.id (map (λ (i : Item). i.id) xs)
In-map x [] i = elim i [ ]
In-map x (y ∷ ys) (inl e) = inl (ap (λ (i : Item). i.id) e)
In-map x (y ∷ ys) (inr i) = inr (In-map x ys i)

eq_nil : (xs : List Item) → ((x : Item) → In x xs → ⊥) → xs ≡ []
eq_nil [] h = refl
eq_nil (x ∷ xs) h = absurd (h x (inl refl))

-- A story all of whose listed items are deleted lists none.
emptied :
    (key : Text) (ids : List Text) (t : Table Item)
    → IsKeyed (λ (i : Item). i.id) t
    → ((x : Item) → In x (Items.list_by_story key t) → In x.id ids)
    → Items.list_by_story key (Items.delete_multiple ids t) ≡ []
unfolding Items.list_by_story
emptied key ids t k f = eq_nil (Items.list_by_story key (Items.delete_multiple ids t)) (λ x i.
    let (l, p) =
      In-selected (λ i. i.order) (λ i. i.id) (Items.is_in key) x (Items.delete_multiple ids t)
        (IsKeyed-delete_multiple (λ i. i.id) ids t k) i in
    elim (Bool-cases (is_one_of ids x.id)) [
      | inl q ↦ ground (arith, lookup-delete_multiple x.id ids t)
      | inr q ↦
          let m : lookup x.id t ≡ some x = ground (arith, lookup-delete_multiple x.id ids t) in
          cc (
            is_one_of-In x.id ids
              (f x (selected-In (λ i. i.order) (λ i. i.id) (Items.is_in key) x.id x t m p)))
    ])

module _ (now : Time) (ro : Text) (wire : List Text) (s : MosService) where
  abbrev listed : List Story
  listed = Stories.list_by_running_order ro s.stories

  listed_item :
      (w key : Text) (x : Item) (ws : List Text)
      → In w ws
      → story_key_for ro w s.stories ≡ ok key
      → In x (Items.list_by_story key s.items)
      → In x.id (items_of_stories ro ws s)
  unfolding items_of_stories
  listed_item w key x [] i e j = elim i [ ]
  listed_item w key x (v ∷ vs) (inl p) e j = rw (← p) (
      rw (e, items_of_stories)
        (In-append_left x.id (map (λ (i : Item). i.id) (Items.list_by_story key s.items))
          (items_of_stories ro vs s) (In-map x (Items.list_by_story key s.items) j)))
  listed_item w key x (v ∷ vs) (inr i) e j =
      let rest : In x.id (items_of_stories ro vs s) = listed_item w key x vs i e j in
      elim (Result-cases (story_key_for ro v s.stories)) [
        | inl (k, q) ↦
            rw (q, items_of_stories)
              (In-append_right x.id (map (λ (i : Item). i.id) (Items.list_by_story k s.items))
                (items_of_stories ro vs s) rest)
        | inr (_, q) ↦ rw (q, items_of_stories) rest
      ]

  delete_run :
      StoriesKeyed s
      → All (λ w. lookup w s.stories ≡ none) wire
      → delete_wire_stories now ro wire s
        ≡ publish_ro_update ro (record s {
          stories =
              put_all story_ident
                (renumber now 1 (Stories.list_by_running_order ro s.stories))
                s.stories;
          items = Items.delete_multiple (items_of_stories ro wire s) s.items;
        })
  unfolding delete_wire_stories
  delete_run k h = rw (delete_guarded (items_of_stories ro wire s) s) (
      rw (delete_multiple_absent wire s.stories h) (
        rw
          (for_each-ignore (renumber now 1 listed)
            (record s { items = Items.delete_multiple (items_of_stories ro wire s) s.items })
            (rearranged-held now ro listed s.stories k (λ x i. i)))
          refl))

  -- Where no wire identifier is itself a storage key, DELETE succeeds and every story of the running
  -- order is still listed, renumbered.
  pub delete_wire_stories_keeps :
      StoriesKeyed s
      → All (λ w. lookup w s.stories ≡ none) wire
      → ((delete_wire_stories now ro wire s).0 ≡ ok tt)
        × (Stories.list_by_running_order ro (delete_wire_stories now ro wire s).1.stories
            ≡ renumber now 1 (Stories.list_by_running_order ro s.stories))
  delete_wire_stories_keeps k h = rw (delete_run k h) (
    publish-ok _ _,
    rw stories-publish (
        listing_renumbered now ro listed s.stories k (listing-distinct ro s.stories k) (λ x i. i)
          (λ x i. i)),
  )

  -- The items of every story that a wire identifier names are gone.
  pub delete_wire_stories_items :
      (w key : Text)
      → StoriesKeyed s
      → IsKeyed (λ (i : Item). i.id) s.items
      → All (λ w. lookup w s.stories ≡ none) wire
      → In w wire
      → story_key_for ro w s.stories ≡ ok key
      → Items.list_by_story key (delete_wire_stories now ro wire s).1.items ≡ []
  delete_wire_stories_items w key k ki h i e = rw (delete_run k h) (
      rw items-publish (
        emptied key (items_of_stories ro wire s) s.items ki
          (λ x j. listed_item w key x wire i e j)))
