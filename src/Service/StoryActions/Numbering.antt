-- ===== src/Service/StoryActions/Numbering.antt =====
-- Writing stories back with new numbers: the listing is then exactly what was written.
use open_mos.Prelude.{
  ℕ, suc, ◌<◌, ◌≡◌, refl, ◌∙◌, ◌≢◌, inl, inr, true, List, [], ◌∷◌, In, All, arith, Option-cases,
  All-of_In, none, String, false, All-In,
}
use open_mos.Text.{Text}
use open_mos.Outcome.{ok}
use open_mos.Exec.{for_each, annotate, ignore}
use open_mos.Model.{Story, Time}
use open_mos.Table.{Table, lookup, put}
use open_mos.Table.Laws.{IsKeyed}
use open_mos.Table.Listing.{less}
use open_mos.Table.Sorted.{IsSorted}
use open_mos.Table.Selected.{In-selected, selected-In, selected-AreDistinct}
use open_mos.Table.Rewrite.{
  put_all, AreHeld, AreHeld-put, has_ident, has_ident-In, selected-put_all, lookup-put_all_ne,
  has_ident-false,
}
use open_mos.Repository
use open_mos.Repository.Stories
use open_mos.Service.{MosService, update_story}
use open_mos.Service.Records.{renumber, place_story}
use open_mos.Service.StoryActions.Moving.{story_order, story_ident, HaveDistinctIds}

-- The table of stories is keyed by the stories' identifiers.
abbrev pub StoriesKeyed : MosService → Type 0
StoriesKeyed s = IsKeyed story_ident s.stories

module _ (now : Time) where
  has_ident-renumber :
      (n : ℕ) (k : Text) (xs : List Story)
      → has_ident story_ident k (renumber now n xs) ≡ has_ident story_ident k xs
  unfolding renumber has_ident
  has_ident-renumber n k [] = refl
  has_ident-renumber n k (x ∷ xs) = rw (has_ident-renumber (suc n) k xs)

  ne_renumber :
      (k : Text) (n : ℕ) (xs : List Story)
      → All (λ y. k ≢ y.id) xs
      → All (λ y. k ≢ story_ident y) (renumber now n xs)
  unfolding renumber
  ne_renumber k n [] h = tt
  ne_renumber k n (x ∷ xs) h = (h.0, ne_renumber k (suc n) xs h.1)

  renumber-ne :
      (k : Text) (n : ℕ) (xs : List Story)
      → All (λ x. x.id ≢ k) xs
      → All (λ x. story_ident x ≢ k) (renumber now n xs)
  unfolding renumber
  renumber-ne k n [] h = tt
  renumber-ne k n (x ∷ xs) h = (h.0, renumber-ne k (suc n) xs h.1)

  renumber-distinct :
      (n : ℕ) (xs : List Story) → HaveDistinctIds xs → HaveDistinctIds (renumber now n xs)
  unfolding renumber
  renumber-distinct n [] d = tt
  renumber-distinct n (x ∷ xs) d =
      (ne_renumber x.id (suc n) xs d.0, renumber-distinct (suc n) xs d.1)

  behind :
      (x : Story) (n : ℕ) (xs : List Story)
      → x.order < n
      → All (λ y. less story_order story_ident x y ≡ true) (renumber now n xs)
  unfolding renumber less
  behind x n [] h = tt
  behind x n (y ∷ ys) h = (ground arith, behind x (suc n) ys (omega arith))

  renumber-IsSorted :
      (n : ℕ) (xs : List Story) → IsSorted story_order story_ident (renumber now n xs)
  unfolding renumber
  renumber-IsSorted n [] = tt
  renumber-IsSorted n (x ∷ xs) =
      (behind (place_story now n x) (suc n) xs (omega arith), renumber-IsSorted (suc n) xs)

  renumber-held :
      (n : ℕ) (xs : List Story) (t : Table Story)
      → AreHeld story_ident xs t
      → AreHeld story_ident (renumber now n xs) t
  unfolding renumber
  renumber-held n [] t h = tt
  renumber-held n (x ∷ xs) t h = (h.0, renumber-held (suc n) xs t h.1)

  renumber-in :
      (ro : Text) (n : ℕ) (xs : List Story)
      → All (λ y. Stories.is_in ro y ≡ true) xs
      → All (λ y. Stories.is_in ro y ≡ true) (renumber now n xs)
  unfolding renumber
  renumber-in ro n [] h = tt
  renumber-in ro n (x ∷ xs) h = (h.0, renumber-in ro (suc n) xs h.1)

update_held :
    (x : Story) (s : MosService)
    → lookup x.id s.stories ≢ none
    → update_story x s ≡ (ok tt, record s { stories = put x.id x s.stories })
unfolding Repository.update
update_held x s h = elim (Option-cases (lookup x.id s.stories)) [
  | inl e ↦ absurd (h e)
  | inr (y, e) ↦ rw (e, Repository.update) refl
]

-- A loop of updates of stories that are held writes each of them, and returns no error.
pub for_each-update :
    (m : String) (xs : List Story) (s : MosService)
    → AreHeld story_ident xs s.stories
    → for_each xs (λ x. annotate m (update_story x)) s
      ≡ (ok tt, record s { stories = put_all story_ident xs s.stories })
unfolding for_each put_all
for_each-update m [] s h = refl
for_each-update m (x ∷ xs) s h = rw (update_held x s h.0) (
    for_each-update m xs (record s { stories = put x.id x s.stories })
      (AreHeld-put story_ident x xs s.stories h.1))

-- The same of a loop that ignores the errors.
pub for_each-ignore :
    (xs : List Story) (s : MosService)
    → AreHeld story_ident xs s.stories
    → for_each xs (λ x. ignore (update_story x)) s
      ≡ (ok tt, record s { stories = put_all story_ident xs s.stories })
unfolding for_each put_all
for_each-ignore [] s h = refl
for_each-ignore (x ∷ xs) s h = rw (update_held x s h.0) (
    for_each-ignore xs (record s { stories = put x.id x s.stories })
      (AreHeld-put story_ident x xs s.stories h.1))

module _ (now : Time) (ro : Text) (xs : List Story) (t : Table Story) where
  -- A rearrangement of the listing, numbered and written back, is what is listed.
  pub listing_renumbered :
      IsKeyed story_ident t
      → HaveDistinctIds xs
      → ((x : Story) → In x xs → In x (Stories.list_by_running_order ro t))
      → ((x : Story) → In x (Stories.list_by_running_order ro t) → In x xs)
      → Stories.list_by_running_order ro (put_all story_ident (renumber now 1 xs) t)
        ≡ renumber now 1 xs
  unfolding Stories.list_by_running_order
  listing_renumbered k d f g =
      selected-put_all story_order story_ident (Stories.is_in ro) (renumber now 1 xs) t k
        (renumber-IsSorted now 1 xs) (renumber-distinct now 1 xs d)
        (renumber-in now ro 1 xs (
          All-of_In (λ y. Stories.is_in ro y ≡ true) xs
            (λ x i. (In-selected story_order story_ident (Stories.is_in ro) x t k (f x i)).1)))
        (λ x l p.
          has_ident-renumber now 1 x.id xs
          ∙ has_ident-In story_ident x xs
              (g x (selected-In story_order story_ident (Stories.is_in ro) x.id x t l p)))

  -- Every story of the listing is held.
  pub rearranged-held :
      IsKeyed story_ident t
      → ((x : Story) → In x xs → In x (Stories.list_by_running_order ro t))
      → AreHeld story_ident (renumber now 1 xs) t
  unfolding Stories.list_by_running_order
  rearranged-held k f = renumber-held now 1 xs t (
      All-of_In (λ x. lookup x.id t ≢ none) xs
        (λ x i e. cc ((In-selected story_order story_ident (Stories.is_in ro) x t k (f x i)).0, e)))

  -- A story outside the listing is not written.
  pub lookup_unlisted :
      (k : Text)
      → ((x : Story) → In x xs → In x (Stories.list_by_running_order ro t))
      → has_ident story_ident k (Stories.list_by_running_order ro t) ≡ false
      → lookup k (put_all story_ident (renumber now 1 xs) t) ≡ lookup k t
  lookup_unlisted k f n = lookup-put_all_ne story_ident k (renumber now 1 xs) t (
      renumber-ne now k 1 xs (
        All-of_In (λ x. x.id ≢ k) xs
          (λ x i.
            All-In (λ x. x.id ≢ k) x (Stories.list_by_running_order ro t)
              (has_ident-false story_ident k (Stories.list_by_running_order ro t) n) (f x i))))

pub listing-distinct :
    (ro : Text) (t : Table Story)
    → IsKeyed story_ident t
    → HaveDistinctIds (Stories.list_by_running_order ro t)
unfolding Stories.list_by_running_order
listing-distinct ro t k = selected-AreDistinct story_order story_ident (Stories.is_in ro) t k
