-- ===== src/Service/Workflow/Stored.antt =====
-- storeItems of src/internal/service/mos.go never fails, and the loop of ReplaceRunningOrder succeeds where
-- no story is held under the identifiers of the message.
use open_mos.Prelude.{
  ℕ, suc, ◌≡◌, ◌≢◌, refl, ap, ◌∙◌, List, [], ◌∷◌, All, none, some, inl, inr, arith, Option-cases,
}
use open_mos.Text.{Text}
use open_mos.Outcome.{Error, Result, ok, err}
use open_mos.Exec.{Exec}
use open_mos.Model.{Story, Item, Time}
use open_mos.Table.{Table, lookup, put}
use open_mos.Table.Laws.{lookup-put_ne, IsKeyed, IsKeyed-put, ident_of_lookup}
use open_mos.Table.Rewrite.{put_all}
use open_mos.Repository
use open_mos.Repository.{not_found_error}
use open_mos.Service.{MosService, create_item, update_item, create_story}
use open_mos.Service.Identity.{story_persistence_id, item_persistence_id}
use open_mos.Service.Identity.Keys.{story_persistence_id_inj}
use open_mos.Service.Timing.{Floats}
use open_mos.Service.Messages.{item_of, merge_item, story_of}
use open_mos.Service.Workflow.{store_found, store_item, store_items, create_all}
use open_mos.Wire.{StoryInfo, ItemInfo}

abbrev pub story_ident : Story → Text
story_ident x = x.id

abbrev pub item_ident : Item → Text
item_ident i = i.id

-- The stories of a message, numbered from a position.
unfoldable pub stories_of : Time → Text → ℕ → List StoryInfo → List Story
unfolding story_of
stories_of now ro n [] = []
stories_of now ro n (info ∷ infos) = story_of now ro n info ∷ stories_of now ro (suc n) infos

-- No storyID stands twice.
abbrev pub HaveDistinctIds : List StoryInfo → Type 0
HaveDistinctIds [] = Unit
HaveDistinctIds (x ∷ xs) = All (λ (y : StoryInfo). x.id ≢ y.id) xs × HaveDistinctIds xs

-- No story is held under the identifiers.
abbrev pub AreNew : Text → List StoryInfo → Table Story → Type 0
AreNew ro infos t = All (λ (x : StoryInfo). lookup (story_persistence_id ro x.id) t ≡ none) infos

-- A table of items under their identifiers that the service has after an action without an error.
abbrev Leaves : Exec MosService (Unit {0}) → MosService → Type 0
Leaves action s =
    (t : Table Item) × (action s ≡ (ok tt, record s { items = t })) × IsKeyed item_ident t

pub get-none :
    {A : Type 0} (k : Text) (t : Table A)
    → lookup k t ≡ none
    → Repository.get k t ≡ err not_found_error
unfolding Repository.get
get-none k t h = ground arith

pub get-some :
    {A : Type 0} (k : Text) (x : A) (t : Table A) → lookup k t ≡ some x → Repository.get k t ≡ ok x
unfolding Repository.get
get-some k x t h = ground arith

pub held_none :
    {A : Type 0} (k : Text) (t : Table A) (e : Error)
    → Repository.get k t ≡ err e
    → lookup k t ≡ none
unfolding Repository.get
held_none k t e h = ground arith

pub held_some :
    {A : Type 0} (k : Text) (t : Table A) (x : A) → Repository.get k t ≡ ok x → lookup k t ≡ some x
unfolding Repository.get
held_some k t x h = ground arith

create_item-eq :
    (x : Item) (s : MosService)
    → lookup x.id s.items ≡ none
    → create_item x s ≡ (ok tt, record s { items = put x.id x s.items })
unfolding Repository.create
create_item-eq x s e = rw (e, Repository.create) refl

pub update_item-eq :
    (x old : Item) (s : MosService)
    → lookup x.id s.items ≡ some old
    → update_item x s ≡ (ok tt, record s { items = put x.id x s.items })
unfolding Repository.update
update_item-eq x old s e = rw (e, Repository.update) refl

module _ {Rate : Type 0} (floats : Floats Rate) (now : Time) where
  -- An item is written under its key, for the story.
  pub store_item-put :
      (story : Text) (n : ℕ) (info : ItemInfo) (s : MosService)
      → IsKeyed item_ident s.items
      → (x : Item) × (x.id ≡ item_persistence_id story info.id)
        × (x.story_id ≡ story)
        × (store_item floats now story n info s ≡ (ok tt, record s { items = put x.id x s.items }))
  unfolding store_item Repository.get item_of merge_item
  store_item-put story n info s k =
      elim (Option-cases (lookup (item_persistence_id story info.id) s.items)) [
        | inl e ↦
            let x = item_of floats now story n info in
            (
              x,
              refl,
              refl,
              ap (λ (r : Result Item). store_found floats now story n info r s)
                    (get-none _ s.items e)
                  ∙ rw (create_item-eq x s e) refl,
            )
        | inr (old, e) ↦
            let x = merge_item floats now story n info old in
            let same_id =
              ident_of_lookup item_ident (item_persistence_id story info.id) old s.items k e in
            (
              x,
              same_id,
              refl,
              rw (e, Repository.get)
                  (rw (update_item-eq x old s (ap (λ k. lookup k s.items) same_id ∙ e)) refl),
            )
      ]

  store_item-ok :
      (story : Text) (n : ℕ) (info : ItemInfo) (s : MosService)
      → IsKeyed item_ident s.items
      → Leaves (store_item floats now story n info) s
  store_item-ok story n info s k =
      let (x, i, o, e) = store_item-put story n info s k in
      (put x.id x s.items, e, IsKeyed-put item_ident x.id x s.items refl k)

  pub store_items-ok :
      (story : Text) (n : ℕ) (infos : List ItemInfo) (s : MosService)
      → IsKeyed item_ident s.items
      → Leaves (store_items floats now story n infos) s
  unfolding store_items
  store_items-ok story n [] s k = (s.items, refl, k)
  store_items-ok story n (info ∷ infos) s k =
      let (t, e, h) = store_item-ok story n info s k in
      let (u, f, g) = store_items-ok story (suc n) infos (record s { items = t }) h in
      (u, rw e f, g)

  pub create_story-eq :
      (x : Story) (s : MosService)
      → lookup x.id s.stories ≡ none
      → create_story x s ≡ (ok tt, record s { stories = put x.id x s.stories })
  unfolding Repository.create
  create_story-eq x s e = rw (e, Repository.create) refl

  still_new :
      (ro : Text) (n : ℕ) (info : StoryInfo) (infos : List StoryInfo) (t : Table Story)
      → All (λ (y : StoryInfo). info.id ≢ y.id) infos
      → AreNew ro infos t
      → AreNew ro infos (put (story_persistence_id ro info.id) (story_of now ro n info) t)
  still_new ro n info [] t d h = tt
  still_new ro n info (y ∷ ys) t d h = (
    lookup-put_ne (story_persistence_id ro info.id) (story_persistence_id ro y.id)
          (story_of now ro n info) t (λ e. d.0 (story_persistence_id_inj ro info.id ro y.id e).1)
        ∙ h.0,
    still_new ro n info ys t d.1 h.1,
  )

  -- The stories are written in their order, whatever becomes of the items.
  pub create_all-ok :
      (ro : Text) (n : ℕ) (infos : List StoryInfo) (s : MosService)
      → IsKeyed item_ident s.items
      → HaveDistinctIds infos
      → AreNew ro infos s.stories
      → (t : Table Item) × (create_all floats now ro n infos s ≡ (
        ok tt,
        record s { stories = put_all story_ident (stories_of now ro n infos) s.stories; items = t },
      ))
  unfolding create_all stories_of put_all story_of
  create_all-ok ro n [] s k d h = (s.items, refl)
  create_all-ok ro n (info ∷ infos) s k d h =
      let x = story_of now ro n info in
      let s' : MosService = record s { stories = put x.id x s.stories } in
      let (t, e, g) = store_items-ok (story_persistence_id ro info.id) 1 info.items s' k in
      let (u, f) =
        create_all-ok ro (suc n) infos (record s' { items = t }) g d.1
          (still_new ro n info infos s.stories d.0 h.1) in
      (u, rw (create_story-eq x s h.0) (rw e f))
